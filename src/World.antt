-- ===== src/World.antt =====
-- The state of the whole backend, and the actions of a service: a state and exception monad. What
-- an action has changed before it throws stays changed, except in a transaction.
pub mod Inversion
use Prim.Native.String.{String}
use obbian_ribe_booking_app.Base.{
  ℕ, Bool, true, false, Option, none, some, List, [], ◌∷◌, ◌++◌, if◌then◌else◌, find,
}
use obbian_ribe_booking_app.Platform.{Platform}
use obbian_ribe_booking_app.Schema.{
  Ride, Driver, ScheduledRide, Payment, Promo, FareConfig, OutboxEvent, PaymentMethod, User,
  RefreshToken, SavedLocation,
}

-- The HTTP exceptions of NestJS that the services throw. `internal` is any other error.
pub data Failure : Type 0 where
  bad_request unauthorized forbidden not_found conflict unavailable internal : Failure

pub data Outcome {ℓ} (A : Type ℓ) : Type ℓ where
  ok : A → Outcome A
  err : Failure → Outcome A

-- An event that EventBus.publish sends to Kafka; a failed send is only logged.
pub data BusEvent : Type 0 where
  -- ride, driver, fare, earnings
  offer_sent : ℕ → ℕ → ℕ → ℕ → BusEvent
  -- ride, driver, accepted
  driver_response : ℕ → ℕ → Bool → BusEvent
  -- type, payment, ride, amount
  payment_event : String → ℕ → ℕ → ℕ → BusEvent

pub data NotificationChannel : Type 0 where
  push sms email in_app : NotificationChannel

-- A text as its UTF-16 units.
abbrev pub Message : Type 0
Message = List ℕ

-- A notification of src/modules/notifications, with the two keys of its `data` that the code reads or
-- writes.
pub record Notification : Type 0 where
  pub user_id : ℕ
  pub notification_type : String
  pub title : String
  pub body : Message
  pub device_token : Option String
  pub ride_id : Option ℕ
  pub channels : List NotificationChannel

-- A job that a service adds to a BullMQ queue.
pub data Job : Type 0 where
  match_ride : ℕ → Job
  -- scheduled ride, delay in milliseconds
  dispatch_scheduled : ℕ → ℕ → Job
  -- payment, ride, amount, method
  create_order : ℕ → ℕ → ℕ → PaymentMethod → Job
  dispatch_notification : Notification → Job

-- Generated ids are drawn from a counter. The clock stands still during one action.
pub record World ⦃pf : Platform⦄ : Type 0 where
  pub rides : pf.Table Ride
  pub drivers : pf.Table Driver
  pub scheduled_rides : pf.Table ScheduledRide
  pub payments : pf.Table Payment
  pub promos : pf.Table Promo
  pub fare_configs : pf.Table FareConfig
  pub outbox_events : pf.Table OutboxEvent
  pub users : pf.Table User
  pub refresh_tokens : pf.Table RefreshToken
  pub saved_locations : pf.Table SavedLocation
  pub next_id : ℕ
  pub redis : pf.Store
  pub redis_up : Bool
  pub published : List BusEvent
  pub jobs : List Job
  pub queue_up : Bool
  pub now : ℕ

module _ ⦃pf : Platform⦄ where
  -- The same state at another time.
  abbrev pub wait_until : ℕ → World → World
  wait_until later w = record w { now = later }

  abbrev pub Action : Type 0 → Type 0
  Action A = World → Outcome A × World

  abbrev pub resume : {A B : Type 0} → Outcome A → (A → Action B) → Action B
  resume (ok a) f w = f a w
  resume (err e) f w = (err e, w)

  infixl 5 ◌>>=◌ ◌>>◌
  abbrev pub ◌>>=◌ : {A B : Type 0} → Action A → (A → Action B) → Action B
  ◌>>=◌ m f w = resume (m w).0 f (m w).1

  abbrev pub ◌>>◌ : {B : Type 0} → Action (Unit {0}) → Action B → Action B
  m >> k = m >>= λ _. k

  abbrev pub pure : {A : Type 0} → A → Action A
  pure a w = (ok a, w)

  abbrev pub throw : {A : Type 0} → Failure → Action A
  throw e w = (err e, w)

  -- `if (test) throw e;`
  abbrev pub throw_if : Bool → Failure → Action (Unit {0})
  throw_if true e w = (err e, w)
  throw_if false e w = (ok tt, w)

  -- `if (!row) throw e;`
  abbrev pub or_throw : {A : Type 0} → Option A → Failure → Action A
  or_throw none e w = (err e, w)
  or_throw (some a) e w = (ok a, w)

  abbrev pub gets : {A : Type 0} → (World → A) → Action A
  gets f w = (ok (f w), w)

  abbrev pub modify : (World → World) → Action (Unit {0})
  modify f w = (ok tt, f w)

  -- `await a.catch(() => undefined)`: the changes stay, the error does not.
  abbrev pub ignore_error : {A : Type 0} → Action A → Action (Unit {0})
  ignore_error m w = (ok tt, (m w).1)

  abbrev or_default : {A : Type 0} → Outcome A → A → A
  or_default (ok a) d = a
  or_default (err e) d = d

  -- `await a.catch(() => d)`
  abbrev pub recover : {A : Type 0} → Action A → A → Action A
  recover m d w = (ok (or_default (m w).0 d), (m w).1)

  abbrev pub rollback : {A : Type 0} → Outcome A → World → World → Outcome A × World
  rollback (ok a) before after = (ok a, after)
  rollback (err e) before after = (err e, before)

  -- `db.transaction`: all of its writes or none.
  abbrev pub transaction : {A : Type 0} → Action A → Action A
  transaction m w = rollback (m w).0 w (m w).1

  -- SELECT … WHERE … LIMIT 1
  abbrev pub select_one : {A : Type 0} → (World → pf.Table A) → (A → Bool) → Action (Option A)
  select_one table p w = (ok (find p (pf.rows (table w))), w)

  -- A Redis command, which throws when the server cannot be reached.
  abbrev pub redis_call : {A : Type 0} → (ℕ → pf.Store → A × pf.Store) → Action A
  redis_call f w =
      if w.redis_up
      then (ok (f w.now w.redis).0, record w { redis = (f w.now w.redis).1 })
      else (err internal, w)

  abbrev pub publish : BusEvent → Action (Unit {0})
  publish e = modify (λ w. record w { published = w.published ++ e ∷ [] })

  -- `queue.add`, which throws when the queue cannot be reached.
  abbrev pub enqueue : Job → Action (Unit {0})
  enqueue j w =
      if w.queue_up then (ok tt, record w { jobs = w.jobs ++ j ∷ [] }) else (err internal, w)
