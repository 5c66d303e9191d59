-- ===== src/System/Payments.antt =====
-- The operations of the payments move each ride along the diagram.
use Prim.Native.String.{String}
use obbian_ribe_booking_app.Base.{
  ℕ, ap, ◌∙◌, ◌≡◌, refl, ◌==◌, false, not, Option, none, some, if◌then◌else◌, find, find-map_where,
  Bool-cases, inl, inr, arith,
}
use obbian_ribe_booking_app.Platform.{Platform}
use obbian_ribe_booking_app.World.{
  World, Action, ◌>>◌, publish, Failure, BusEvent, Outcome, ok, err,
}
use obbian_ribe_booking_app.Schema.{Ride, Payment, PaymentStatus}
use obbian_ribe_booking_app.Rides.StateMachine.Graph.{here}
use obbian_ribe_booking_app.Rides.Lifecycle.History.{
  ride_row, Evolves, Keeps, Keeps-same, Keeps-pure, Keeps->>=, Keeps-transaction,
}
use obbian_ribe_booking_app.Payments.Laws.{verify_payment_atomic}
use obbian_ribe_booking_app.Payments.Service.{
  Gateway, WebhookBody, find_payment, settle_payment, update_payment, update_payment_status,
  webhook_payment, webhook_ride, noted_ride, verify_payment, apply_webhook, failed_patch,
  handle_webhook, refund,
}
use obbian_ribe_booking_app.System.Matching.{Keeps-if, Keeps-throw_if}

module _ ⦃pf : Platform⦄ where
  update_payment_status-Keeps :
      (ride_id : ℕ) (status : PaymentStatus) → Keeps (update_payment_status ride_id status)
  update_payment_status-Keeps ride_id status = record {
    evolves = λ w i r e.
        let f = λ (q : Ride). record q { payment_status = status } in
        let row =
          ap (find (λ q. q.id == i)) (pf.rows-update (λ q. q.id == ride_id) f w.rides)
          ∙ find-map_where (λ q. q.id == i) (λ q. q.id == ride_id) f (pf.rows w.rides)
              (λ q. refl) in
        elim (Bool-cases (r.id == ride_id)) [
          | inl hit ↦ (f r, rw (row, e, hit) refl, here)
          | inr miss ↦ (r, rw (row, e, miss) refl, here)
        ];
  }

  settle_payment-Keeps :
      (payment_id ride_id : ℕ) (f : World → Payment → Payment) (status : PaymentStatus)
      → Keeps (settle_payment payment_id ride_id f status)
  unfolding settle_payment
  settle_payment-Keeps payment_id ride_id f status = Keeps-transaction _ (
      Keeps->>= _ _ (Keeps-same (update_payment payment_id f) (λ w. refl))
        (λ _. update_payment_status-Keeps ride_id status))

module _ ⦃pf : Platform⦄ (gateway : Gateway) where
  verify_payment-rides :
      (ride_id order gateway_payment : ℕ) (signature : String) (w : World) {x : ℕ}
      → (verify_payment gateway ride_id order gateway_payment signature w).0 ≡ ok x
      → (verify_payment gateway ride_id order gateway_payment signature w).1.rides
        ≡ (update_payment_status ride_id PaymentStatus.completed w).1.rides
  unfolding verify_payment find_payment settle_payment
  verify_payment-rides ride_id order gateway_payment signature w e = ground arith

  refund-rides :
      (ride_id : ℕ) (w : World) {x : Unit {0}}
      → (refund gateway ride_id w).0 ≡ ok x
      → (refund gateway ride_id w).1.rides
        ≡ (update_payment_status ride_id PaymentStatus.refunded w).1.rides
  unfolding refund find_payment settle_payment
  refund-rides ride_id w e = ground arith

  refund_atomic :
      (ride_id : ℕ) (w : World) {x : Failure}
      → (refund gateway ride_id w).0 ≡ err x
      → (refund gateway ride_id w).1 ≡ w
  unfolding refund find_payment settle_payment
  refund_atomic ride_id w e = ground arith

  -- An action that changes the rides like another one if it succeeds, and nothing otherwise.
  Keeps-like :
      {A : Type 0} (m : Action A) (n : Action (Unit {0}))
      → ((w : World) (x : A) → (m w).0 ≡ ok x → (m w).1.rides ≡ (n w).1.rides)
      → ((w : World) (x : Failure) → (m w).0 ≡ err x → (m w).1 ≡ w)
      → Keeps n
      → Keeps m
  Keeps-like {A} m n like atomic kn = record { evolves = λ w. go w (m w).0 refl }
    where
      go : (w : World) (o : Outcome A) → (m w).0 ≡ o → Evolves w (m w).1
      go w (ok x) e i r at_r =
          let (s, at_s, reach) = kn.evolves w i r at_r in
          (s, ap (λ t. find (λ q. q.id == i) (pf.rows t)) (like w x e) ∙ at_s, reach)
      go w (err x) e i r at_r = (r, ap (λ v. ride_row v i) (atomic w x e) ∙ at_r, here)

  pub verify_payment-Keeps :
      (ride_id order gateway_payment : ℕ) (signature : String)
      → Keeps (verify_payment gateway ride_id order gateway_payment signature)
  verify_payment-Keeps ride_id order gateway_payment signature =
      Keeps-like _ (update_payment_status ride_id PaymentStatus.completed)
        (λ w x e. verify_payment-rides ride_id order gateway_payment signature w e)
        (λ w x e. verify_payment_atomic gateway ride_id order gateway_payment signature w e)
        (update_payment_status-Keeps ride_id PaymentStatus.completed)

  pub refund-Keeps : (ride_id : ℕ) → Keeps (refund gateway ride_id)
  refund-Keeps ride_id =
      Keeps-like _ (update_payment_status ride_id PaymentStatus.refunded)
        (λ w x e. refund-rides ride_id w e) (λ w x e. refund_atomic ride_id w e)
        (update_payment_status-Keeps ride_id PaymentStatus.refunded)

  apply_webhook-Keeps :
      (body : WebhookBody) (ride_id : ℕ) (payment : Payment)
      → Keeps (apply_webhook gateway body ride_id payment)
  unfolding apply_webhook
  apply_webhook-Keeps body ride_id payment =
      Keeps-if _ _ _ (settle_payment-Keeps payment.id ride_id _ PaymentStatus.completed) (
        Keeps-if _ _ _
          (Keeps-same
            (update_payment payment.id (λ w. failed_patch body.error_description w.now)
              >> publish
                  (BusEvent.payment_event "PAYMENT_FAILED" payment.id ride_id payment.amount))
            (λ w. refl))
          (Keeps-pure tt))

  webhook_payment-Keeps :
      (body : WebhookBody) (ride_id : ℕ) (found : Option Payment)
      → Keeps (webhook_payment gateway body ride_id found)
  webhook_payment-Keeps body ride_id none = Keeps-pure tt
  webhook_payment-Keeps body ride_id (some payment) = apply_webhook-Keeps body ride_id payment

  webhook_ride-Keeps :
      (body : WebhookBody) (ride : Option ℕ) → Keeps (webhook_ride gateway body ride)
  unfolding find_payment
  webhook_ride-Keeps body none = Keeps-pure tt
  webhook_ride-Keeps body (some ride_id) =
      Keeps->>= _ _ (Keeps-same (find_payment ride_id) (λ w. refl))
        (webhook_payment-Keeps body ride_id)

  pub handle_webhook-Keeps :
      (body : WebhookBody) (signature : String) → Keeps (handle_webhook gateway body signature)
  unfolding handle_webhook
  handle_webhook-Keeps body signature =
      Keeps->>= _ _
        (Keeps-throw_if
          (if gateway.has_webhook_secret then not (gateway.valid_webhook body signature) else false)
          Failure.bad_request)
        (λ _. webhook_ride-Keeps body (noted_ride gateway body.notes))
