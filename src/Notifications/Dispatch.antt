-- ===== src/Notifications/Dispatch.antt =====
-- That a notification is worked off on each channel, whatever the others do (src/modules/notifications/services).
use Prim.Native.String.{String}
use mathlib.Core.List.{append_assoc}
use obbian_ribe_booking_app.Base.{
  ℕ, ◌≡◌, refl, ap, ◌∙◌, subst, Bool, true, false, not, ◌&&◌, Option, none, some, List, [], ◌∷◌,
  ◌++◌, is_some, All, arith,
}
use obbian_ribe_booking_app.Platform.{Platform}
use obbian_ribe_booking_app.World.{World, ok, Notification, NotificationChannel, Message}
use obbian_ribe_booking_app.Notifications.Http.{
  HttpRequest, HttpResponse, Net, Attempt, ◌>>=◌, ◌>>◌, or_throw, resume, for_some, attempt, fetch,
  truthy,
}
use obbian_ribe_booking_app.Notifications.Providers.{SmsProvider, send_sms}
use obbian_ribe_booking_app.Notifications.Worker.{
  Providers, includes, sms_message, user_of, phone_of, email_of, when, dispatch_push, dispatch_sms,
  dispatch_email, process,
}
use obbian_ribe_booking_app.Notifications.Laws.{
  IsAddressed, Sends, when-Sends, throw_if-Sends, resume-Sends, process-Sends, dispatch_email-Sends,
}

-- An attempt that does not throw.
Completes : Attempt (Unit {0}) → Type 0
Completes m = (log : List HttpRequest) → (m log).0 ≡ ok tt

-- An attempt that makes the request, whatever has been sent before.
Reaches : HttpRequest → {A : Type 0} → Attempt A → Type 0
Reaches r m =
    (log : List HttpRequest)
    → (before : List HttpRequest) × (after : List HttpRequest) × ((m log).1 ≡ before ++ r ∷ after)

>>-Completes : (m k : Attempt (Unit {0})) → Completes m → Completes k → Completes (m >> k)
unfolding Completes
>>-Completes m k h g log = ap (λ o. (resume o (λ _. k) (m log).1).0) (h log) ∙ g (m log).1

when-Completes : (b : Bool) (m : Attempt (Unit {0})) → Completes m → Completes (when b m)
unfolding Completes
when-Completes true m h log = h log
when-Completes false m h log = refl

for_some-Completes :
    {A : Type 0} (o : Option A) (f : A → Attempt (Unit {0}))
    → ((a : A) → Completes (f a))
    → Completes (for_some o f)
unfolding Completes
for_some-Completes none f h log = refl
for_some-Completes (some a) f h log = h a log

-- A request stays made.
>>=-Reaches :
    (r : HttpRequest) (P : HttpRequest → Type 0) {A B : Type 0} (m : Attempt A) (f : A → Attempt B)
    → Reaches r m
    → ((a : A) → Sends P (f a))
    → Reaches r (m >>= f)
unfolding Reaches Sends
>>=-Reaches r P m f h k log =
    let (before, after, e) = h log in
    let (more, e', _) = resume-Sends P (m log).0 f k (m log).1 in
    (before, after ++ more, e' ∙ ap (λ l. l ++ more) e ∙ append_assoc before (r ∷ after) more)

-- A request is made after what does not throw.
>>-Reaches :
    (r : HttpRequest) (m k : Attempt (Unit {0})) → Completes m → Reaches r k → Reaches r (m >> k)
unfolding Reaches Completes
>>-Reaches r m k h g log =
    let (before, after, e) = g (m log).1 in
    (before, after, ap (λ o. (resume o (λ _. k) (m log).1).1) (h log) ∙ e)

fetch-Reaches : (net : Net) (r : HttpRequest) → Reaches r (fetch net r)
unfolding Reaches fetch
fetch-Reaches net r log = (log, [], kept (net log r) (log ++ r ∷ []))
  where
    kept : (o : Option HttpResponse) (l : List HttpRequest) → (or_throw o l).1 ≡ l
    kept none l = refl
    kept (some a) l = refl

when-Reaches :
    (r : HttpRequest) (b : Bool) (m : Attempt (Unit {0}))
    → b ≡ true
    → Reaches r m
    → Reaches r (when b m)
when-Reaches r true m on h = h
when-Reaches r false m on h = absurd (ground arith)

for_some-Reaches :
    (r : HttpRequest) {A : Type 0} (o : Option A) (f : A → Attempt (Unit {0})) (a : A)
    → o ≡ some a
    → Reaches r (attempt (f a))
    → Reaches r (for_some o (λ b. attempt (f b)))
for_some-Reaches r o f a e h = rw e h

attempt-Reaches : (r : HttpRequest) (m : Attempt (Unit {0})) → Reaches r m → Reaches r (attempt m)
unfolding Reaches
attempt-Reaches r m h = h

-- The request with which a provider sends a text message, if it sends any.
abbrev pub sms_request : SmsProvider → String → Message → Option HttpRequest
sms_request (SmsProvider.twilio sid token from) phone message =
    some (HttpRequest.twilio_message sid token from phone message)
sms_request (SmsProvider.msg91 key sender) phone message =
    some (HttpRequest.msg91_message key sender phone message)
sms_request _ phone message = none

module _ (net : Net) where
  send_sms-Reaches :
      (provider : SmsProvider) (phone : String) (message : Message) (r : HttpRequest)
      → sms_request provider phone message ≡ some r
      → Reaches r (send_sms net provider phone message)
  unfolding send_sms
  send_sms-Reaches SmsProvider.skip phone message r e = cc
  send_sms-Reaches SmsProvider.dev phone message r e = cc
  send_sms-Reaches (SmsProvider.twilio sid token from) phone message r e =
      subst (λ q. Reaches q (send_sms net (SmsProvider.twilio sid token from) phone message)) (cc)
        (>>=-Reaches _ (λ _. Unit) _ _
          (fetch-Reaches net (HttpRequest.twilio_message sid token from phone message))
          (λ res. throw_if-Sends (λ _. Unit) (not res.ok)))
  send_sms-Reaches (SmsProvider.msg91 key sender) phone message r e =
      subst (λ q. Reaches q (send_sms net (SmsProvider.msg91 key sender) phone message)) (cc)
        (>>=-Reaches _ (λ _. Unit) _ _
          (fetch-Reaches net (HttpRequest.msg91_message key sender phone message))
          (λ res. throw_if-Sends (λ _. Unit) (not (res.ok && res.succeeds))))

module _ ⦃pf : Platform⦄ (net : Net) (assertion : String → String → ℕ → String)
    (providers : Providers) (n : Notification) (w : World) where
  dispatch_push-Completes : Completes (dispatch_push net assertion providers n w)
  unfolding dispatch_push Completes
  dispatch_push-Completes =
      when-Completes (is_some providers.push.service_account) _
        (for_some-Completes (truthy n.device_token) _ (λ device log. refl))

  dispatch_sms-Completes : Completes (dispatch_sms net assertion providers n w)
  unfolding dispatch_sms Completes
  dispatch_sms-Completes = for_some-Completes (phone_of (user_of n.user_id w)) _ (λ phone log. refl)

  dispatch_email-Completes : Completes (dispatch_email net assertion providers n w)
  unfolding dispatch_email Completes
  dispatch_email-Completes =
      when-Completes (is_some (truthy providers.email.api_key)) _
        (for_some-Completes (email_of (user_of n.user_id w)) _ (λ email log. refl))

  process-Completes : Completes (process net assertion providers n w)
  unfolding process
  process-Completes =
      >>-Completes _ _
        (>>-Completes _ _
          (when-Completes (includes NotificationChannel.push n.channels) _ dispatch_push-Completes)
          (when-Completes (includes NotificationChannel.sms n.channels) _ dispatch_sms-Completes))
        (when-Completes (includes NotificationChannel.email n.channels) _ dispatch_email-Completes)

  -- Whatever the providers answer, the worker finishes a notification. Each request it makes is
  -- for a channel that the notification asks for: a push to the device that it names or a mail to
  -- the address of its user, with its title and text, a text message to the phone number of its
  -- user, with its text cut to at most 140 units, or the request of an access token for pushes.
  pub process_lem :
      (log : List HttpRequest)
      → (sent : List HttpRequest) × (process net assertion providers n w log ≡ (ok tt, log ++ sent))
        × All (IsAddressed n w) sent
  unfolding Completes Sends
  process_lem log =
      let (sent, e, addressed) = process-Sends net n w assertion providers log in
      (sent, (λ i. (process-Completes log i, e i)), addressed)

  dispatch_sms-Reaches :
      (phone : String) (r : HttpRequest)
      → phone_of (user_of n.user_id w) ≡ some phone
      → sms_request providers.sms phone (sms_message n.body) ≡ some r
      → Reaches r (dispatch_sms net assertion providers n w)
  unfolding dispatch_sms
  dispatch_sms-Reaches phone r e sent =
      for_some-Reaches r (phone_of (user_of n.user_id w))
        (λ to. send_sms net providers.sms to (sms_message n.body)) phone e
        (attempt-Reaches r _ (send_sms-Reaches net providers.sms phone (sms_message n.body) r sent))

  process-Reaches :
      (phone : String) (r : HttpRequest)
      → includes NotificationChannel.sms n.channels ≡ true
      → phone_of (user_of n.user_id w) ≡ some phone
      → sms_request providers.sms phone (sms_message n.body) ≡ some r
      → Reaches r (process net assertion providers n w)
  unfolding process
  process-Reaches phone r on e sent =
      >>=-Reaches r (IsAddressed n w) _ _
        (>>-Reaches r _ _
          (when-Completes (includes NotificationChannel.push n.channels) _ dispatch_push-Completes)
          (when-Reaches r (includes NotificationChannel.sms n.channels) _ on
            (dispatch_sms-Reaches phone r e sent)))
        (λ _.
          when-Sends (IsAddressed n w) (includes NotificationChannel.email n.channels) _
            (dispatch_email-Sends net n w assertion providers))

  pub process_sms :
      (phone : String) (r : HttpRequest)
      → includes NotificationChannel.sms n.channels ≡ true
      → phone_of (user_of n.user_id w) ≡ some phone
      → sms_request providers.sms phone (sms_message n.body) ≡ some r
      → (log : List HttpRequest)
      → (before : List HttpRequest) × (after : List HttpRequest) × ((process net assertion providers
            n w log).1
          ≡ before ++ r ∷ after)
  unfolding Reaches
  process_sms phone r on e sent = process-Reaches phone r on e sent
