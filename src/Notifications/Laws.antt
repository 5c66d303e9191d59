-- ===== src/Notifications/Laws.antt =====
-- What goes out for a notification, and to whom (src/modules/notifications/services).
use Prim.Native.String.{String}
use mathlib.Core.List.{append-nil, append_assoc}
use obbian_ribe_booking_app.Base.{
  ℕ, ◌≤◌, ◌≡◌, refl, sym, ap, ◌∙◌, Bool, true, false, not, ◌&&◌, Option, none, some, List, [], ◌∷◌,
  ◌++◌, length, take, All, length-take-le, length-append, is_some, arith,
}
use obbian_ribe_booking_app.Platform.{Platform}
use obbian_ribe_booking_app.World.{
  World, Outcome, ok, err, Message, Notification, NotificationChannel,
}
use obbian_ribe_booking_app.Notifications.Http.{
  HttpRequest, Net, Attempt, resume, ◌>>=◌, pure, or_throw, throw_if, for_some, attempt, fetch,
  truthy,
}
use obbian_ribe_booking_app.Notifications.Providers.{
  ServiceAccount, SmsProvider, SendGridEmailProvider, FcmPushProvider, send_sms, send_mail,
  access_token, send_as, send_push,
}
use obbian_ribe_booking_app.Notifications.Worker.{
  Providers, includes, sms_body_max, sms_message, user_of, phone_of, email_of, when, dispatch_push,
  dispatch_sms, dispatch_email, process,
}

sms_message_bounds : (body : Message) → length (sms_message body) ≤ sms_body_max
unfolding sms_message
sms_message_bounds body =
    ground (arith, length-take-le 139 body, length-append (take 139 body) (0x2026 ∷ []))

All-append :
    (P : HttpRequest → Type 0) (xs ys : List HttpRequest) → All P xs → All P ys → All P (xs ++ ys)
All-append P [] ys h k = k
All-append P (x ∷ xs) ys h k = (h.0, All-append P xs ys h.1 k)

-- Whatever it returns, an attempt only adds requests of a kind.
unfoldable pub Sends : (HttpRequest → Type 0) → {A : Type 0} → Attempt A → Type 0
Sends P m =
    (log : List HttpRequest) → (sent : List HttpRequest) × ((m log).1 ≡ log ++ sent) × All P sent

module _ (P : HttpRequest → Type 0) where
  pub pure-Sends : {A : Type 0} (a : A) → Sends P (pure a)
  unfolding Sends
  pure-Sends a log = ([], sym (append-nil log), tt)

  or_throw-Sends : {A : Type 0} (o : Option A) → Sends P (or_throw o)
  unfolding Sends
  or_throw-Sends none log = ([], sym (append-nil log), tt)
  or_throw-Sends (some a) log = ([], sym (append-nil log), tt)

  pub throw_if-Sends : (b : Bool) → Sends P (throw_if b)
  unfolding Sends
  throw_if-Sends true log = ([], sym (append-nil log), tt)
  throw_if-Sends false log = ([], sym (append-nil log), tt)

  pub resume-Sends :
      {A B : Type 0} (o : Outcome A) (f : A → Attempt B)
      → ((a : A) → Sends P (f a))
      → Sends P (resume o f)
  unfolding Sends
  resume-Sends (ok a) f h log = h a log
  resume-Sends (err e) f h log = ([], sym (append-nil log), tt)

  >>=-Sends :
      {A B : Type 0} (m : Attempt A) (f : A → Attempt B)
      → Sends P m
      → ((a : A) → Sends P (f a))
      → Sends P (m >>= f)
  unfolding Sends
  >>=-Sends m f h k log =
      let (first, e, addressed) = h log in
      let (second, e', addressed') = resume-Sends (m log).0 f k (m log).1 in
      (
        first ++ second,
        e' ∙ ap (λ l. l ++ second) e ∙ append_assoc log first second,
        All-append P first second addressed addressed',
      )

  fetch-Sends : (net : Net) (r : HttpRequest) → P r → Sends P (fetch net r)
  unfolding Sends fetch
  fetch-Sends net r h log =
      let (more, e, addressed) = or_throw-Sends (net log r) (log ++ r ∷ []) in
      (r ∷ more, e ∙ append_assoc log (r ∷ []) more, (h, addressed))

  attempt-Sends : (m : Attempt (Unit {0})) → Sends P m → Sends P (attempt m)
  unfolding Sends
  attempt-Sends m h = h

  for_some-Sends :
      {A : Type 0} (o : Option A) (f : A → Attempt (Unit {0}))
      → ((a : A) → o ≡ some a → Sends P (f a))
      → Sends P (for_some o f)
  for_some-Sends none f h = pure-Sends tt
  for_some-Sends (some a) f h = h a refl

  pub when-Sends : (b : Bool) (m : Attempt (Unit {0})) → (b ≡ true → Sends P m) → Sends P (when b m)
  when-Sends true m h = h refl
  when-Sends false m h = pure-Sends tt

-- To whom a request may go: to the device that the notification names, or to the phone number or the
-- mail address of its user, each only if its channel is asked for; and what it carries: the title and
-- the text of the notification, of which a text message takes at most 140 units.
module _ ⦃pf : Platform⦄ where
  abbrev pub IsAddressed : Notification → World → HttpRequest → Type 0
  IsAddressed n w (HttpRequest.token_exchange assertion) =
      includes NotificationChannel.push n.channels ≡ true
  IsAddressed n w (HttpRequest.push_message project token device title body ride_id) =
      (includes NotificationChannel.push n.channels ≡ true)
      × (n.device_token ≡ some device)
      × (title ≡ n.title)
      × (body ≡ n.body)
      × (ride_id ≡ n.ride_id)
  IsAddressed n w (HttpRequest.mail key from to subject content) =
      (includes NotificationChannel.email n.channels ≡ true)
      × (email_of (user_of n.user_id w) ≡ some to)
      × (subject ≡ n.title)
      × (content ≡ n.body)
  IsAddressed n w (HttpRequest.twilio_message sid token from to body) =
      (includes NotificationChannel.sms n.channels ≡ true)
      × (phone_of (user_of n.user_id w) ≡ some to)
      × (body ≡ sms_message n.body)
      × (length body ≤ 140)
  IsAddressed n w (HttpRequest.msg91_message key sender to body) =
      (includes NotificationChannel.sms n.channels ≡ true)
      × (phone_of (user_of n.user_id w) ≡ some to)
      × (body ≡ sms_message n.body)
      × (length body ≤ 140)

  module _ (net : Net) (n : Notification) (w : World) where
    abbrev Fits : HttpRequest → Type 0
    Fits = IsAddressed n w

    send_sms-Sends :
        (provider : SmsProvider) (phone : String)
        → includes NotificationChannel.sms n.channels ≡ true
        → phone_of (user_of n.user_id w) ≡ some phone
        → Sends Fits (send_sms net provider phone (sms_message n.body))
    unfolding send_sms
    send_sms-Sends SmsProvider.skip phone on e = pure-Sends Fits tt
    send_sms-Sends SmsProvider.dev phone on e = pure-Sends Fits tt
    send_sms-Sends (SmsProvider.twilio sid token from) phone on e =
        >>=-Sends Fits _ _ (fetch-Sends Fits net _ (on, e, refl, sms_message_bounds n.body))
          (λ res. throw_if-Sends Fits (not res.ok))
    send_sms-Sends (SmsProvider.msg91 key sender) phone on e =
        >>=-Sends Fits _ _ (fetch-Sends Fits net _ (on, e, refl, sms_message_bounds n.body))
          (λ res. throw_if-Sends Fits (not (res.ok && res.succeeds)))

    send_mail-Sends :
        (provider : SendGridEmailProvider) (to_email : String)
        → includes NotificationChannel.email n.channels ≡ true
        → email_of (user_of n.user_id w) ≡ some to_email
        → Sends Fits (send_mail net provider to_email n.title n.body)
    unfolding send_mail
    send_mail-Sends provider to_email on e =
        for_some-Sends Fits (truthy provider.api_key) _ λ key _.
          >>=-Sends Fits _ _ (or_throw-Sends Fits (truthy provider.from_email)) λ from.
            >>=-Sends Fits _ _ (fetch-Sends Fits net _ (on, e, refl, refl))
              λ res. throw_if-Sends Fits (not res.ok)

    module _ (assertion : String → String → ℕ → String) (now : ℕ) where
      access_token-Sends :
          (account : ServiceAccount)
          → includes NotificationChannel.push n.channels ≡ true
          → Sends Fits (access_token net assertion now account)
      unfolding access_token
      access_token-Sends account on =
          >>=-Sends Fits _ _ (or_throw-Sends Fits (truthy account.client_email)) λ email.
            >>=-Sends Fits _ _ (or_throw-Sends Fits (truthy account.private_key)) λ key.
              >>=-Sends Fits _ _ (fetch-Sends Fits net _ on) λ res.
                >>=-Sends Fits _ _ (throw_if-Sends Fits (not res.ok))
                  λ _. or_throw-Sends Fits (truthy res.access_token)

      send_push-Sends :
          (provider : FcmPushProvider) (device : String)
          → includes NotificationChannel.push n.channels ≡ true
          → n.device_token ≡ some device
          → Sends Fits (send_push net assertion now provider device n.title n.body n.ride_id)
      unfolding send_push send_as
      send_push-Sends provider device on e =
          for_some-Sends Fits provider.service_account _ λ account _.
            for_some-Sends Fits (truthy account.project_id) _ λ project _.
              >>=-Sends Fits _ _ (access_token-Sends account on) λ token.
                >>=-Sends Fits _ _ (fetch-Sends Fits net _ (on, e, refl, refl, refl))
                  λ res. throw_if-Sends Fits (not res.ok)

    truthy-some : (o : Option String) {s : String} → truthy o ≡ some s → o ≡ some s
    unfolding truthy
    truthy-some none h = cc
    truthy-some (some t) h = ground arith

    module _ (assertion : String → String → ℕ → String) (providers : Providers) where
      dispatch_push-Sends :
          includes NotificationChannel.push n.channels ≡ true
          → Sends Fits (dispatch_push net assertion providers n w)
      unfolding dispatch_push
      dispatch_push-Sends on = when-Sends Fits (is_some providers.push.service_account) _ λ _.
          for_some-Sends Fits (truthy n.device_token) _ λ device e. attempt-Sends Fits _ (
            send_push-Sends assertion w.now providers.push device on (truthy-some n.device_token e))

      dispatch_sms-Sends :
          includes NotificationChannel.sms n.channels ≡ true
          → Sends Fits (dispatch_sms net assertion providers n w)
      unfolding dispatch_sms
      dispatch_sms-Sends on =
          for_some-Sends Fits (phone_of (user_of n.user_id w)) _
            λ phone e. attempt-Sends Fits _ (send_sms-Sends providers.sms phone on e)

      pub dispatch_email-Sends :
          includes NotificationChannel.email n.channels ≡ true
          → Sends Fits (dispatch_email net assertion providers n w)
      unfolding dispatch_email
      dispatch_email-Sends on = when-Sends Fits (is_some (truthy providers.email.api_key)) _ λ _.
          for_some-Sends Fits (email_of (user_of n.user_id w)) _
            λ email e. attempt-Sends Fits _ (send_mail-Sends providers.email email on e)

      pub process-Sends : Sends Fits (process net assertion providers n w)
      unfolding process
      process-Sends =
          >>=-Sends Fits _ _
            (>>=-Sends Fits _ _
              (when-Sends Fits (includes NotificationChannel.push n.channels) _ dispatch_push-Sends)
              λ _.
                when-Sends Fits (includes NotificationChannel.sms n.channels) _ dispatch_sms-Sends)
            λ _.
              when-Sends Fits (includes NotificationChannel.email n.channels) _ dispatch_email-Sends
