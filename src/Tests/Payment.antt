-- ===== src/Tests/Payment.antt =====
-- The payment of the ride 10, its settlement, and an event in the outbox.
use Prim.Native.String.{String}
use obbian_ribe_booking_app.Base.{
  List, ◌⊎◌, ◌≤◌, false, ℕ, ◌-◌, ◌*◌, ◌==◌, ◌≡◌, refl, true, Option, none, some, [], ◌∷◌, find,
  select, sum_by, ℤ,
}
use obbian_ribe_booking_app.World.{World, ok, err, Failure}
use obbian_ribe_booking_app.Schema.{
  RideStatus, Payment, PaymentStatus, PaymentMethod, OutboxEvent, same_payment_status,
}
use obbian_ribe_booking_app.Payments.Service.{
  Gateway, verify_payment, refund, find_payment, settle_payment,
}
use obbian_ribe_booking_app.Payments.Laws.{payment_row, verify_payment_lem, refund_once}
use obbian_ribe_booking_app.Payments.Settlement.{
  SettlementRecord, settle_daily, is_settled, fare_of,
}
use obbian_ribe_booking_app.Payments.Settlement.Ledger.{
  driven_by, once, gross_for, rides_for, records_for, settle_daily-Balances,
}
use obbian_ribe_booking_app.Rides.Service.{outbox_row, transition_payload}
use obbian_ribe_booking_app.Outbox.Relay.{relay_once}
use obbian_ribe_booking_app.Outbox.Delivery.{Retains, relay_once-Retains}
use obbian_ribe_booking_app.Rides.Lifecycle.History.{ride_row}
use obbian_ribe_booking_app.Tests.Memory.{memory}
use obbian_ribe_booking_app.Tests.Ride.{a_ride, one_ride, ride_at}

abbrev a_payment : PaymentStatus → Payment
a_payment status = record {
  id = 50;
  ride_id = 10;
  user_id = 1;
  amount = 14000;
  currency = "INR";
  status = status;
  method = PaymentMethod.upi;
  gateway = "RAZORPAY";
  gateway_order_id = some 77;
  gateway_payment_id = some 88;
  failure_reason = none;
  retry_count = 0;
  paid_at = none;
  refunded_at = none;
  created_at = 0;
  updated_at = 0;
}

abbrev paid : PaymentStatus → World
paid status = record (one_ride RideStatus.completed) { payments = a_payment status ∷ [] }

-- A gateway that finds every signature of the payment 88 valid.
abbrev pub a_gateway : Gateway
a_gateway = record {
  configured = true;
  create_order = λ request. ok 77;
  refund_payment = λ payment. ok 99;
  valid_payment = λ order payment signature. payment == 88;
  has_webhook_secret = true;
  valid_webhook = λ body signature. true;
}

payment_at : (s : PaymentStatus) → payment_row (paid s) 10 ≡ some (a_payment s)
unfolding find
payment_at s = refl

verify_payment_lem_example :
    let (result, w') = verify_payment a_gateway 10 77 88 "sig" (paid PaymentStatus.processing) in
    ((true ≡ true)
      × (result ≡ ok 88)
      × (payment_row w' 10
          ≡ some (record (a_payment PaymentStatus.processing) {
            status = PaymentStatus.completed;
            gateway_payment_id = some 88;
            paid_at = some 200000;
            updated_at = 200000;
          }))
      × (ride_row w' 10
          ≡ some
              (record (a_ride RideStatus.completed) { payment_status = PaymentStatus.completed })))
    ⊎ ((true ≡ false) × (x : Failure) × (result ≡ err x) × (w' ≡ paid PaymentStatus.processing))
verify_payment_lem_example =
    verify_payment_lem a_gateway 10 77 88 "sig" (paid PaymentStatus.processing)
      (a_payment PaymentStatus.processing) (a_ride RideStatus.completed)
      (payment_at PaymentStatus.processing) (ride_at RideStatus.completed)

refunded : (refund a_gateway 10 (paid PaymentStatus.completed)).0 ≡ ok tt
unfolding refund find_payment settle_payment find same_payment_status
refunded = refl

refund_once_example :
    let w' = (refund a_gateway 10 (paid PaymentStatus.completed)).1 in
    refund a_gateway 10 w' ≡ (err Failure.bad_request, w')
refund_once_example = refund_once a_gateway 10 (paid PaymentStatus.completed) refunded

abbrev no_payout : ℕ → ℤ → Option ℕ
no_payout d net = none

settle_daily-Balances_example :
    let due =
      select (is_settled (200000 - 24 * 60 * 60 * 1000)) (a_ride RideStatus.completed ∷ []) in
    (rs : List SettlementRecord) × ((settle_daily 2000 no_payout true
        (one_ride RideStatus.completed)).0
      ≡ ok rs)
    × ((d : ℕ)
        → (sum_by (gross_for 2000 no_payout d) rs ≡ sum_by (driven_by d fare_of) due)
          × (sum_by (rides_for 2000 no_payout d) rs ≡ sum_by (driven_by d once) due)
          × (sum_by (records_for 2000 no_payout d) rs ≤ 1))
settle_daily-Balances_example = settle_daily-Balances 2000 no_payout (one_ride RideStatus.completed)

abbrev pub an_event : OutboxEvent
an_event = outbox_row 60 0 "RIDE_COMPLETED" 10 (transition_payload (a_ride RideStatus.completed))

abbrev pub with_event : World
with_event = record (one_ride RideStatus.completed) { outbox_events = an_event ∷ [] }

abbrev pub broken : OutboxEvent → Option String
broken e = some "no broker"

relay_once-Retains_example : Retains with_event (relay_once true 8 broken with_event).1
relay_once-Retains_example = relay_once-Retains true 8 broken with_event
