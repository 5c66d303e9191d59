-- ===== src/Payments/Service.antt =====
-- src/modules/payments/services/payments.service.ts. Amounts are paise. The Razorpay client and the
-- check of its signatures are the record Gateway.
use Prim.Native.String.{String}
use text.Mathlib.Text.{◌==◌ as same_text}
use obbian_ribe_booking_app.Base.{
  ℕ, ◌+◌, ◌==◌, Bool, false, not, ◌||◌, Option, none, some, if◌then◌else◌,
}
use obbian_ribe_booking_app.Platform.{Platform}
use obbian_ribe_booking_app.World.{
  World, Action, ◌>>=◌, ◌>>◌, pure, throw, throw_if, or_throw, modify, select_one, transaction,
  publish, enqueue, Outcome, Failure, BusEvent, Job,
}
use obbian_ribe_booking_app.Schema.{Payment, PaymentStatus, PaymentMethod, same_payment_status}

-- The notes of an order or of a payment: `rideId` and `ride_id` are two different keys.
pub record Notes : Type 0 where
  pub ride_id_camel : Option ℕ
  pub ride_id_snake : Option ℕ

pub record WebhookBody : Type 0 where
  pub event : String
  pub notes : Option Notes
  pub error_description : Option String

-- An order as processOrderJob asks for it.
pub record OrderRequest : Type 0 where
  pub amount : ℕ
  pub currency : String
  pub receipt : ℕ
  pub notes : Notes

pub record Gateway : Type 0 where
  -- Whether the keys of the client are configured.
  pub configured : Bool
  pub create_order : OrderRequest → Outcome ℕ
  pub refund_payment : Option ℕ → Outcome ℕ
  -- validateWebhookSignature of `order|payment`
  pub valid_payment : ℕ → ℕ → String → Bool
  -- Whether a webhook secret is configured, and validateWebhookSignature of the body.
  pub has_webhook_secret : Bool
  pub valid_webhook : WebhookBody → String → Bool

abbrev pub same_order : Option ℕ → ℕ → Bool
same_order none order = false
same_order (some o) order = o == order

unfoldable pub new_payment : ℕ → ℕ → ℕ → PaymentMethod → ℕ → ℕ → Payment
new_payment ride_id user_id amount method id now = record {
  id = id;
  ride_id = ride_id;
  user_id = user_id;
  amount = amount;
  currency = "INR";
  status = PaymentStatus.pending;
  method = method;
  gateway = "RAZORPAY";
  gateway_order_id = none;
  gateway_payment_id = none;
  failure_reason = none;
  retry_count = 0;
  paid_at = none;
  refunded_at = none;
  created_at = now;
  updated_at = now;
}

unfoldable pub order_patch : ℕ → ℕ → Payment → Payment
order_patch order now p = record p {
  gateway_order_id = some order;
  status = PaymentStatus.processing;
  updated_at = now;
}

unfoldable pub verified_patch : ℕ → ℕ → Payment → Payment
verified_patch gateway_payment now p = record p {
  status = PaymentStatus.completed;
  gateway_payment_id = some gateway_payment;
  paid_at = some now;
  updated_at = now;
}

unfoldable pub captured_patch : ℕ → Payment → Payment
captured_patch now p = record p {
  status = PaymentStatus.completed;
  paid_at = some now;
  updated_at = now;
}

unfoldable pub failed_patch : Option String → ℕ → Payment → Payment
failed_patch reason now p = record p {
  status = PaymentStatus.failed;
  failure_reason = reason;
  updated_at = now;
}

unfoldable pub refunded_patch : ℕ → Payment → Payment
refunded_patch now p = record p {
  status = PaymentStatus.refunded;
  refunded_at = some now;
  updated_at = now;
}

-- The notes that processOrderJob gives to an order.
unfoldable pub order_notes : ℕ → Notes
order_notes ride_id = record { ride_id_camel = some ride_id; ride_id_snake = none }

module _ ⦃pf : Platform⦄ where
  unfoldable pub find_payment : ℕ → Action (Option Payment)
  find_payment ride_id = select_one (λ w. w.payments) (λ p. p.ride_id == ride_id)

  abbrev pub update_payment : ℕ → (World → Payment → Payment) → Action (Unit {0})
  update_payment payment_id f =
      modify (λ w. record w { payments = pf.update (λ p. p.id == payment_id) (f w) w.payments })

  abbrev pub update_payment_status : ℕ → PaymentStatus → Action (Unit {0})
  update_payment_status ride_id status = modify (λ w. record w {
    rides = pf.update (λ r. r.id == ride_id) (λ r. record r { payment_status = status }) w.rides;
  })

  -- The payment and the ride change together.
  unfoldable pub settle_payment :
      ℕ → ℕ → (World → Payment → Payment) → PaymentStatus → Action (Unit {0})
  settle_payment payment_id ride_id f status =
      transaction (update_payment payment_id f >> update_payment_status ride_id status)

  unfoldable pub insert_payment : ℕ → ℕ → ℕ → PaymentMethod → Action Payment
  insert_payment ride_id user_id amount method w =
      let payment = new_payment ride_id user_id amount method w.next_id w.now in
      (
        Outcome.ok payment,
        record w { payments = pf.insert payment w.payments; next_id = w.next_id + 1 },
      )

  abbrev throw_if_some : Option Payment → Action (Unit {0})
  throw_if_some none = pure tt
  throw_if_some (some p) = throw Failure.bad_request

  unfoldable pub initiate_payment : ℕ → ℕ → ℕ → PaymentMethod → Action Payment
  initiate_payment ride_id user_id amount method = find_payment ride_id >>= λ existing.
      throw_if_some existing >> insert_payment ride_id user_id amount method >>= λ payment.
      enqueue (Job.create_order payment.id ride_id amount method)
      >> publish (BusEvent.payment_event "PAYMENT_INITIATED" payment.id ride_id amount)
      >> pure payment

  unfoldable pub get_payment : ℕ → Action Payment
  get_payment ride_id = find_payment ride_id >>= λ payment. or_throw payment Failure.not_found

module _ ⦃pf : Platform⦄ (gateway : Gateway) where
  abbrev call : Outcome ℕ → Action ℕ
  call answer w = (answer, w)

  unfoldable pub process_order_job : ℕ → ℕ → ℕ → Action ℕ
  process_order_job payment_id ride_id amount =
      throw_if (not gateway.configured) Failure.internal
      >> call (
          gateway.create_order (record {
            amount = amount;
            currency = "INR";
            receipt = ride_id;
            notes = order_notes ride_id;
          }))
      >>= λ order. update_payment payment_id (λ w. order_patch order w.now) >> pure order

  abbrev order_matches : ℕ → Option Payment → Option Payment
  order_matches order none = none
  order_matches order (some p) = if same_order p.gateway_order_id order then some p else none

  unfoldable pub verify_payment : ℕ → ℕ → ℕ → String → Action ℕ
  verify_payment ride_id order gateway_payment signature = find_payment ride_id >>= λ found.
      or_throw (order_matches order found) Failure.not_found >>= λ payment.
      throw_if (not gateway.configured) Failure.bad_request
      >> throw_if (not (gateway.valid_payment order gateway_payment signature)) Failure.bad_request
      >> settle_payment payment.id ride_id (λ w. verified_patch gateway_payment w.now)
          PaymentStatus.completed
      >> publish (BusEvent.payment_event "PAYMENT_SUCCEEDED" payment.id ride_id payment.amount)
      >> pure gateway_payment

  -- What a webhook does to the payment of a ride.
  unfoldable pub apply_webhook : WebhookBody → ℕ → Payment → Action (Unit {0})
  apply_webhook body ride_id payment =
      if same_text body.event "payment.captured" || same_text body.event "payment.authorized"
      then settle_payment payment.id ride_id (λ w. captured_patch w.now) PaymentStatus.completed
      else (if same_text body.event "payment.failed"
          then (update_payment payment.id (λ w. failed_patch body.error_description w.now)
              >> publish
                  (BusEvent.payment_event "PAYMENT_FAILED" payment.id ride_id payment.amount))
          else pure tt)

  abbrev pub noted_ride : Option Notes → Option ℕ
  noted_ride none = none
  noted_ride (some n) = n.ride_id_snake

  abbrev pub webhook_payment : WebhookBody → ℕ → Option Payment → Action (Unit {0})
  webhook_payment body ride_id none = pure tt
  webhook_payment body ride_id (some payment) = apply_webhook body ride_id payment

  abbrev pub webhook_ride : WebhookBody → Option ℕ → Action (Unit {0})
  webhook_ride body none = pure tt
  webhook_ride body (some ride_id) =
      find_payment ride_id >>= λ found. webhook_payment body ride_id found

  unfoldable pub handle_webhook : WebhookBody → String → Action (Unit {0})
  handle_webhook body signature =
      throw_if
        (if gateway.has_webhook_secret then not (gateway.valid_webhook body signature) else false)
        Failure.bad_request
      >> webhook_ride body (noted_ride body.notes)

  abbrev if_completed : Option Payment → Option Payment
  if_completed none = none
  if_completed (some p) =
      if same_payment_status p.status PaymentStatus.completed then some p else none

  unfoldable pub refund : ℕ → Action (Unit {0})
  refund ride_id = find_payment ride_id >>= λ found.
      or_throw (if_completed found) Failure.bad_request >>= λ payment.
      throw_if (not gateway.configured) Failure.bad_request
      >> call (gateway.refund_payment payment.gateway_payment_id)
      >>= λ refunded.
          settle_payment payment.id ride_id (λ w. refunded_patch w.now) PaymentStatus.refunded
          >> publish (BusEvent.payment_event "PAYMENT_REFUNDED" payment.id ride_id payment.amount)
