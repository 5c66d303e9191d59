-- ===== src/Notifications/RideState.antt =====
-- The notifications about the state of a ride (src/modules/notifications/services).
use Prim.Native.String.{String}
use mathlib.Core.List.{append_assoc}
use obbian_ribe_booking_app.Base.{
  ℕ, ◌≡◌, refl, true, Bool-cases, inl, inr, Option, none, some, List, [], ◌∷◌, ◌++◌, is_some,
}
use obbian_ribe_booking_app.Platform.{Platform}
use obbian_ribe_booking_app.World.{World, ok, NotificationChannel, Job}
use obbian_ribe_booking_app.Notifications.Http.{HttpRequest, Net, truthy}
use obbian_ribe_booking_app.Notifications.Service.{
  default_channels, ride_notification, notify, notify_driver, notify_ride_state,
}
use obbian_ribe_booking_app.Notifications.Worker.{Providers, includes, dispatch_push, process}

module _ ⦃pf : Platform⦄ where
  -- For the job, no service is called, whatever its user and the providers are.
  abbrev pub IsSilent : Job → Type 0
  IsSilent (Job.dispatch_notification n) =
      (net : Net) (assertion : String → String → ℕ → String) (providers : Providers) (w : World)
      (log : List HttpRequest)
      → process net assertion providers n w log ≡ (ok tt, log)
  IsSilent _ = ⊥

  abbrev pub AllSilent : List Job → Type 0
  AllSilent [] = Unit
  AllSilent (j ∷ jobs) = IsSilent j × AllSilent jobs

  module _ (ride_id user_id : ℕ) (state : String) where
    rider-IsSilent :
        IsSilent
          (Job.dispatch_notification (ride_notification ride_id user_id state default_channels))
    unfolding process ride_notification includes dispatch_push truthy
    rider-IsSilent net assertion providers w log =
        elim (Bool-cases (is_some providers.push.service_account)) [
          | inl e ↦ rw e refl
          | inr e ↦ rw e refl
        ]

    driver-IsSilent : IsSilent (
        Job.dispatch_notification
          (ride_notification ride_id user_id state (NotificationChannel.push ∷ [])))
    unfolding process ride_notification includes dispatch_push truthy
    driver-IsSilent net assertion providers w log =
        elim (Bool-cases (is_some providers.push.service_account)) [
          | inl e ↦ rw e refl
          | inr e ↦ rw e refl
        ]

  abbrev to_rider : ℕ → ℕ → String → Job
  to_rider ride_id rider_id state =
      Job.dispatch_notification (ride_notification ride_id rider_id state default_channels)

  -- With the queue up, announcing the state of a ride adds at least one job and only jobs for
  -- which the worker makes no request to any provider, whatever its configuration.
  pub notify_ride_state-AllSilent :
      (ride_id rider_id : ℕ) (driver_id : Option ℕ) (state : String) (w : World)
      → w.queue_up ≡ true
      → (first : Job) × (more : List Job) × ((notify_ride_state ride_id rider_id driver_id state
            w).1.jobs
          ≡ w.jobs ++ first ∷ more)
        × AllSilent (first ∷ more)
  unfolding notify_ride_state notify notify_driver
  notify_ride_state-AllSilent ride_id rider_id none state w up =
      (to_rider ride_id rider_id state, [], rw up refl, (rider-IsSilent ride_id rider_id state, tt))
  notify_ride_state-AllSilent ride_id rider_id (some driver_id) state w up =
      let to_driver : Job =
        Job.dispatch_notification
          (ride_notification ride_id driver_id state (NotificationChannel.push ∷ [])) in
      (
        to_rider ride_id rider_id state,
        to_driver ∷ [],
        rw up (append_assoc w.jobs _ (to_driver ∷ [])),
        (rider-IsSilent ride_id rider_id state, (driver-IsSilent ride_id driver_id state, tt)),
      )
