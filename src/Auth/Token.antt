-- ===== src/Auth/Token.antt =====
-- src/modules/auth/services/token.service.ts: access tokens and refresh tokens. SHA-256 and the signature
-- of a token are parameters; the random bytes of a new refresh token are an argument.

pub mod Phases
pub mod Rows
pub mod Machine
pub mod Exchange
pub mod Refinement
pub mod Sessions
pub mod Reuse
use Prim.Native.String.{String}
use text.Mathlib.Text.{◌==◌ as same_text}
use obbian_ribe_booking_app.Base.{
  ℕ, ◌+◌, ◌*◌, ◌==◌, Bool, true, false, not, ◌&&◌, ◌||◌, Option, none, some, is_some, ltb,
  if◌then◌else◌,
}
use obbian_ribe_booking_app.Platform.{Platform}
use obbian_ribe_booking_app.World.{
  World, Action, ◌>>=◌, ◌>>◌, pure, throw, throw_if, or_throw, gets, modify, select_one, Failure,
}
use obbian_ribe_booking_app.Schema.{User, UserRole, RefreshToken}
use obbian_ribe_booking_app.Users.Service.{find_by_id}

pub record JwtPayload : Type 0 where
  pub sub : ℕ
  pub role : UserRole
  pub phone : String

pub record AuthResponse : Type 0 where
  pub access_token : String
  pub refresh_token : String
  pub expires_in : ℕ
  pub user_id : ℕ
  pub phone_number : String
  pub user_role : UserRole

-- The configuration `jwt.*`, in seconds, and the functions of node and of the JWT library: SHA-256 as
-- hexadecimal text, and signing a payload at a time, to expire after some seconds.
pub record TokenSettings : Type 0 where
  pub access_ttl : ℕ
  pub refresh_ttl : ℕ
  pub sha256 : String → String
  pub sign : ℕ → ℕ → JwtPayload → String

unfoldable pub build_payload : User → JwtPayload
build_payload user = record { sub = user.id; role = user.role; phone = user.phone_number }

-- Whether a refresh token is revoked or expired.
unfoldable pub is_invalid : ℕ → RefreshToken → Bool
is_invalid now stored = is_some stored.revoked_at || ltb stored.expires_at now

unfoldable pub revoked_patch : ℕ → RefreshToken → RefreshToken
revoked_patch now r = record r { revoked_at = some now }

unfoldable pub rotated_patch : ℕ → RefreshToken → RefreshToken
rotated_patch now r = record r { rotated_at = some now }

module _ ⦃pf : Platform⦄ where
  abbrev pub has_hash : String → RefreshToken → Bool
  has_hash hash r = same_text r.token_hash hash

  abbrev update_tokens :
      (RefreshToken → Bool) → (ℕ → RefreshToken → RefreshToken) → Action (Unit {0})
  update_tokens hit patch =
      modify (λ w. record w { refresh_tokens = pf.update hit (patch w.now) w.refresh_tokens })

  abbrev pub insert_token : RefreshToken → World → World
  insert_token r w = record w {
    refresh_tokens = pf.insert r w.refresh_tokens;
    next_id = w.next_id + 1;
  }

  unfoldable pub revoke_all_for_user : ℕ → Action (Unit {0})
  revoke_all_for_user user_id =
      update_tokens (λ r. r.user_id == user_id && not (is_some r.revoked_at)) revoked_patch

  unfoldable pub mark_rotated : ℕ → Action (Unit {0})
  mark_rotated id = update_tokens (λ r. r.id == id) rotated_patch

module _ ⦃pf : Platform⦄ (settings : TokenSettings) where
  unfoldable pub new_token : ℕ → String → Option String → World → RefreshToken
  new_token user_id token device_info w = record {
    id = w.next_id;
    user_id = user_id;
    token_hash = settings.sha256 token;
    expires_at = w.now + settings.refresh_ttl * 1000;
    device_info = device_info;
    revoked_at = none;
    rotated_at = none;
    created_at = w.now;
  }

  unfoldable pub response : User → String → ℕ → AuthResponse
  response user token now = record {
    access_token = settings.sign now settings.access_ttl (build_payload user);
    refresh_token = token;
    expires_in = settings.access_ttl;
    user_id = user.id;
    phone_number = user.phone_number;
    user_role = user.role;
  }

  -- The insertion breaks the constraint on tokenHash if another row has it.
  unfoldable pub issue_tokens : User → String → Option String → Action AuthResponse
  issue_tokens user token device_info = do
    existing ← select_one (λ w. w.refresh_tokens) (has_hash (settings.sha256 token))
    throw_if (is_some existing) Failure.internal
    row ← gets (new_token user.id token device_info)
    modify (insert_token row)
    gets (λ w. response user token w.now)

  -- One use of a refresh token that is neither revoked nor expired; a second use revokes all tokens of
  -- the user.
  unfoldable pub use_token : RefreshToken → String → Option String → Action AuthResponse
  use_token stored fresh device_info =
      if is_some stored.rotated_at
      then revoke_all_for_user stored.user_id >> throw Failure.unauthorized
      else (do
        mark_rotated stored.id
        found ← find_by_id stored.user_id
        user ← or_throw found Failure.unauthorized
        issue_tokens user fresh device_info)

  unfoldable pub rotate : String → String → Option String → Action AuthResponse
  rotate refresh_token fresh device_info = do
    found ← select_one (λ w. w.refresh_tokens) (has_hash (settings.sha256 refresh_token))
    stored ← or_throw found Failure.unauthorized
    now ← gets (λ w. w.now)
    throw_if (is_invalid now stored) Failure.unauthorized
    use_token stored fresh device_info

  -- No token and an empty one are the same to the code.
  unfoldable pub revoke : Option String → Action (Unit {0})
  revoke none = pure tt
  revoke (some refresh_token) =
      if same_text refresh_token ""
      then pure tt
      else update_tokens (has_hash (settings.sha256 refresh_token)) revoked_patch
