-- ===== src/Notifications/Http.antt =====
-- Calls of `fetch` to the providers of src/modules/notifications/providers and src/common/sms, as a state and
-- exception monad on the requests that have been made.
use Prim.Native.String.{String}
use text.Mathlib.Text.{◌==◌ as same_text}
use obbian_ribe_booking_app.Base.{
  ℕ, Bool, true, false, Option, none, some, List, [], ◌∷◌, ◌++◌, if◌then◌else◌,
}
use obbian_ribe_booking_app.World.{Outcome, ok, err, Failure, Message}

-- The requests, with their credentials, addresses and contents. A text of a message is its UTF-16 units.
pub data HttpRequest : Type 0 where
  -- assertion
  token_exchange : String → HttpRequest
  -- project, access token, device, title, body, and the ride of its data
  push_message : String → String → String → String → Message → Option ℕ → HttpRequest
  -- API key, from, to, subject, content
  mail : String → String → String → String → Message → HttpRequest
  -- account, token, from, to, body
  twilio_message : String → String → String → String → Message → HttpRequest
  -- key, sender, to, body
  msg91_message : String → String → String → Message → HttpRequest

-- `succeeds` is whether the text of the response includes 'type:success'.
pub record HttpResponse : Type 0 where
  pub ok : Bool
  pub access_token : Option String
  pub succeeds : Bool

-- What the providers answer to a request after others; `none` is an exception of fetch.
abbrev pub Net : Type 0
Net = List HttpRequest → HttpRequest → Option HttpResponse

abbrev pub Attempt : Type 0 → Type 0
Attempt A = List HttpRequest → Outcome A × List HttpRequest

abbrev pub resume : {A B : Type 0} → Outcome A → (A → Attempt B) → Attempt B
resume (ok a) f log = f a log
resume (err e) f log = (err e, log)

infixl 5 ◌>>=◌ ◌>>◌
abbrev pub ◌>>=◌ : {A B : Type 0} → Attempt A → (A → Attempt B) → Attempt B
◌>>=◌ m f log = resume (m log).0 f (m log).1

abbrev pub ◌>>◌ : {B : Type 0} → Attempt (Unit {0}) → Attempt B → Attempt B
m >> k = m >>= λ _. k

abbrev pub pure : {A : Type 0} → A → Attempt A
pure a log = (ok a, log)

abbrev pub or_throw : {A : Type 0} → Option A → Attempt A
or_throw none log = (err Failure.internal, log)
or_throw (some a) log = (ok a, log)

abbrev pub throw_if : Bool → Attempt (Unit {0})
throw_if true log = (err Failure.internal, log)
throw_if false log = (ok tt, log)

-- `if (!o) return;`
abbrev pub for_some : {A : Type 0} → Option A → (A → Attempt (Unit {0})) → Attempt (Unit {0})
for_some none f = pure tt
for_some (some a) f = f a

-- `try { … } catch (err) { log }`
abbrev pub attempt : Attempt (Unit {0}) → Attempt (Unit {0})
attempt m log = (ok tt, (m log).1)

unfoldable pub fetch : Net → HttpRequest → Attempt HttpResponse
fetch net request log = or_throw (net log request) (log ++ request ∷ [])

-- A text that JavaScript takes for true.
unfoldable pub truthy : Option String → Option String
truthy none = none
truthy (some s) = if same_text s "" then none else some s
