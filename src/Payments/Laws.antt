-- ===== src/Payments/Laws.antt =====
-- What the payment service does to a payment and to the payment status of its ride.
use Prim.Native.String.{String}
use obbian_ribe_booking_app.Base.{
  ap, ◌∙◌, ℕ, ◌≡◌, refl, ◌==◌, ==-refl, true, false, Option, none, some, find, find-map_where,
  find-append, find-satisfies, Option-cases, Bool-cases, inl, inr, arith, ◌&&◌, ◌⊎◌,
}
use obbian_ribe_booking_app.Platform.{Platform}
use obbian_ribe_booking_app.World.{World, ok, err, Failure}
use obbian_ribe_booking_app.Schema.{
  Ride, Payment, PaymentStatus, PaymentMethod, same_payment_status,
}
use obbian_ribe_booking_app.Rides.Lifecycle.History.{ride_row}
use obbian_ribe_booking_app.Payments.Service.{
  Gateway, WebhookBody, same_order, new_payment, find_payment, settle_payment, insert_payment,
  initiate_payment, verify_payment, verified_patch, refund, refunded_patch, handle_webhook,
  order_notes,
}

module _ ⦃pf : Platform⦄ where
  abbrev pub payment_row : World → ℕ → Option Payment
  payment_row w ride_id = find (λ p. p.ride_id == ride_id) (pf.rows w.payments)

  settle_payment-ok :
      (payment_id ride_id : ℕ) (f : World → Payment → Payment) (status : PaymentStatus) (w : World)
      → (settle_payment payment_id ride_id f status w).0 ≡ ok tt
  unfolding settle_payment
  settle_payment-ok payment_id ride_id f status w = refl

  settle_payment-payment :
      (ride_id : ℕ) (f : World → Payment → Payment) (status : PaymentStatus) (w : World)
      {p : Payment}
      → ((q : Payment) → (f w q).ride_id ≡ q.ride_id)
      → payment_row w ride_id ≡ some p
      → payment_row (settle_payment p.id ride_id f status w).1 ride_id ≡ some (f w p)
  unfolding settle_payment
  settle_payment-payment ride_id f status w {p} keeps e = rw (
    pf.rows-update (λ q. q.id == p.id) (f w) w.payments,
    find-map_where (λ q. q.ride_id == ride_id) (λ q. q.id == p.id) (f w) (pf.rows w.payments)
        (λ q. ap (λ i. i == ride_id) (keeps q)),
    e,
    ==-refl p.id,
  )

  settle_payment-ride :
      (payment_id ride_id : ℕ) (f : World → Payment → Payment) (status : PaymentStatus) (w : World)
      {r : Ride}
      → ride_row w ride_id ≡ some r
      → ride_row (settle_payment payment_id ride_id f status w).1 ride_id
        ≡ some (record r { payment_status = status })
  unfolding settle_payment
  settle_payment-ride payment_id ride_id f status w {r} e = rw (
    pf.rows-update (λ q. q.id == ride_id) (λ q. record q { payment_status = status }) w.rides,
    find-map_where (λ q. q.id == ride_id) (λ q. q.id == ride_id)
        (λ q. record q { payment_status = status }) (pf.rows w.rides) (λ q. refl),
    e,
    find-satisfies (λ q. q.id == ride_id) (pf.rows w.rides) e,
  )

  initiate_payment-refused :
      (ride_id user_id amount : ℕ) (method : PaymentMethod) (w : World) {p : Payment}
      → payment_row w ride_id ≡ some p
      → initiate_payment ride_id user_id amount method w ≡ (err Failure.bad_request, w)
  unfolding initiate_payment find_payment
  initiate_payment-refused ride_id user_id amount method w e = rw e refl

  initiate_payment-inserts :
      (ride_id user_id amount : ℕ) (method : PaymentMethod) (w : World)
      → payment_row w ride_id ≡ none
      → (initiate_payment ride_id user_id amount method w).1.payments
        ≡ pf.insert (new_payment ride_id user_id amount method w.next_id w.now) w.payments
  unfolding initiate_payment find_payment insert_payment
  initiate_payment-inserts ride_id user_id amount method w e = ground arith

  found_again :
      (ride_id user_id amount : ℕ) (method : PaymentMethod) (w : World)
      → (p : Payment) × (payment_row (initiate_payment ride_id user_id amount method w).1 ride_id
          ≡ some p)
  unfolding new_payment
  found_again ride_id user_id amount method w = elim (Option-cases (payment_row w ride_id)) [
    | inl e ↦ (
      new_payment ride_id user_id amount method w.next_id w.now,
      rw
          (
            initiate_payment-inserts ride_id user_id amount method w e,
            pf.rows-insert (new_payment ride_id user_id amount method w.next_id w.now) w.payments,
            find-append (λ p. p.ride_id == ride_id) (pf.rows w.payments)
                (new_payment ride_id user_id amount method w.next_id w.now),
            e,
            ==-refl ride_id,
          )
          refl,
    )
    | inr (p, e) ↦ (p, rw (initiate_payment-refused ride_id user_id amount method w e) e)
  ]

  -- A ride has at most one payment: once a payment has been initiated for it, with whatever outcome,
  -- initiating one again is refused and changes nothing, also where the first could not be queued.
  pub initiate_payment_once :
      (ride_id user_id amount : ℕ) (method : PaymentMethod) (w : World)
      → (later_user later_amount : ℕ) (later_method : PaymentMethod)
      → let w' = (initiate_payment ride_id user_id amount method w).1 in
        initiate_payment ride_id later_user later_amount later_method w'
        ≡ (err Failure.bad_request, w')
  initiate_payment_once ride_id user_id amount method w later_user later_amount later_method =
      initiate_payment-refused ride_id later_user later_amount later_method _
        (found_again ride_id user_id amount method w).1

module _ ⦃pf : Platform⦄ (gateway : Gateway) where
  verify_payment-valid :
      (ride_id order gateway_payment : ℕ) (signature : String) (w : World) (p : Payment) (r : Ride)
      → payment_row w ride_id ≡ some p
      → same_order p.gateway_order_id order ≡ true
      → gateway.configured ≡ true
      → gateway.valid_payment order gateway_payment signature ≡ true
      → ride_row w ride_id ≡ some r
      → let (result, w') = verify_payment gateway ride_id order gateway_payment signature w in
        (result ≡ ok gateway_payment)
        × (payment_row w' ride_id
            ≡ some (record p {
              status = PaymentStatus.completed;
              gateway_payment_id = some gateway_payment;
              paid_at = some w.now;
              updated_at = w.now;
            }))
        × (ride_row w' ride_id ≡ some (record r { payment_status = PaymentStatus.completed }))
  unfolding verify_payment find_payment verified_patch
  verify_payment-valid ride_id order gateway_payment signature w p r e same up valid row =
      let f : World → Payment → Payment = λ w. verified_patch gateway_payment w.now in
      rw (e, same, up, valid, settle_payment-ok p.id ride_id f PaymentStatus.completed w)
        (
          refl,
          settle_payment-payment ride_id f PaymentStatus.completed w (λ q. refl) e,
          settle_payment-ride p.id ride_id f PaymentStatus.completed w row,
        )

  verify_payment-invalid :
      (ride_id order gateway_payment : ℕ) (signature : String) (w : World) (p : Payment)
      → payment_row w ride_id ≡ some p
      → same_order p.gateway_order_id order
          && (gateway.configured && gateway.valid_payment order gateway_payment signature)
        ≡ false
      → (x : Failure) × (verify_payment gateway ride_id order gateway_payment signature w
          ≡ (err x, w))
  unfolding verify_payment find_payment
  verify_payment-invalid ride_id order gateway_payment signature w p e bad =
      elim (Bool-cases (same_order p.gateway_order_id order)) [
        | inr other ↦ (Failure.not_found, rw (e, other) refl)
        | inl same ↦ (Failure.bad_request, ground arith)
      ]

  -- For a ride with a payment, verifying has one of two ends. If the order matches, the gateway is
  -- configured and the signature is valid, it answers with the payment of the gateway; the payment
  -- is then COMPLETED, paid now, with that payment of the gateway and otherwise as before, and so
  -- is the payment status of the ride. If not, it throws and nothing has changed.
  pub verify_payment_lem :
      (ride_id order gateway_payment : ℕ) (signature : String) (w : World) (p : Payment) (r : Ride)
      → payment_row w ride_id ≡ some p
      → ride_row w ride_id ≡ some r
      → let (result, w') = verify_payment gateway ride_id order gateway_payment signature w in
        let genuine =
          same_order p.gateway_order_id order
          && (gateway.configured && gateway.valid_payment order gateway_payment signature) in
        ((genuine ≡ true)
          × (result ≡ ok gateway_payment)
          × (payment_row w' ride_id
              ≡ some (record p {
                status = PaymentStatus.completed;
                gateway_payment_id = some gateway_payment;
                paid_at = some w.now;
                updated_at = w.now;
              }))
          × (ride_row w' ride_id ≡ some (record r { payment_status = PaymentStatus.completed })))
        ⊎ ((genuine ≡ false) × (x : Failure) × (result ≡ err x) × (w' ≡ w))
  verify_payment_lem ride_id order gateway_payment signature w p r e row =
      let genuine =
        same_order p.gateway_order_id order
        && (gateway.configured && gateway.valid_payment order gateway_payment signature) in
      elim (Bool-cases genuine) [
        | inl good ↦
            let (done, paid, ride) =
              verify_payment-valid ride_id order gateway_payment signature w p r e (ground arith)
                (ground arith) (ground arith) row in
            inl (good, done, paid, ride)
        | inr bad ↦
            let (x, refused) =
              verify_payment-invalid ride_id order gateway_payment signature w p e bad in
            inr (bad, x, ap (λ a. a.0) refused, ap (λ a. a.1) refused)
      ]

  -- A verification that throws has changed nothing.
  pub verify_payment_atomic :
      (ride_id order gateway_payment : ℕ) (signature : String) (w : World) {x : Failure}
      → (verify_payment gateway ride_id order gateway_payment signature w).0 ≡ err x
      → (verify_payment gateway ride_id order gateway_payment signature w).1 ≡ w
  unfolding verify_payment find_payment settle_payment
  verify_payment_atomic ride_id order gateway_payment signature w e = ground arith

  refund-found :
      (ride_id : ℕ) (w : World)
      → (refund gateway ride_id w).0 ≡ ok tt
      → (p : Payment) × (payment_row w ride_id ≡ some p)
        × ((refund gateway ride_id w).1.payments
            ≡ (settle_payment p.id ride_id
                (λ w. refunded_patch w.now)
                PaymentStatus.refunded
                w).1.payments)
  unfolding refund find_payment settle_payment
  refund-found ride_id w e = elim (Option-cases (payment_row w ride_id)) [
    | inl missing ↦ ground arith
    | inr (p, found) ↦ (p, found, ground arith)
  ]

  refund-refused :
      (ride_id : ℕ) (w : World) {p : Payment}
      → payment_row w ride_id ≡ some p
      → same_payment_status p.status PaymentStatus.completed ≡ false
      → refund gateway ride_id w ≡ (err Failure.bad_request, w)
  unfolding refund find_payment
  refund-refused ride_id w e other = rw (e, other) refl

  -- A payment is refunded at most once: after a refund, another one is refused and changes nothing.
  pub refund_once :
      (ride_id : ℕ) (w : World)
      → (refund gateway ride_id w).0 ≡ ok tt
      → let w' = (refund gateway ride_id w).1 in
        refund gateway ride_id w' ≡ (err Failure.bad_request, w')
  unfolding refunded_patch same_payment_status
  refund_once ride_id w e =
      let (p, found, payments) = refund-found ride_id w e in
      let f : World → Payment → Payment = λ w. refunded_patch w.now in
      refund-refused ride_id _
        (ap (λ t. find (λ q. q.ride_id == ride_id) (pf.rows t)) payments
          ∙ settle_payment-payment ride_id f PaymentStatus.refunded w (λ q. refl) found)
        refl

  -- A webhook whose notes are those that the service gives to its own orders changes nothing.
  pub handle_webhook-order_notes :
      (body : WebhookBody) (signature : String) (ride_id : ℕ) (w : World)
      → body.notes ≡ some (order_notes ride_id)
      → (handle_webhook gateway body signature w).1 ≡ w
  unfolding handle_webhook order_notes
  handle_webhook-order_notes body signature ride_id w e = rw e (ground arith)
