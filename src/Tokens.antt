-- ===== src/Tokens.antt =====
-- internal/auth/token.go: access and refresh tokens, over Redis.antt. The package jwt and the contents of
-- crypto/rand are parameters; the clock is part of the state. The database is there for the callback of
-- Rotate. NewRefCode stands in Users.antt.
pub mod Rotation
pub mod Suspension
pub mod Apart
mod Tests
use braelaspin.Prelude.{
  ℕ, ℤ, pos, ◌+◌, ◌*◌, ◌/◌, ◌%◌, Bool, true, false, Option, none, some, Text, List, [], ◌∷◌,
  decimal, Result, ok, err, ◌+ℤ◌, add64, parse_int, ltb, if◌then◌else◌,
}
use braelaspin.Database.Monad.{World}
use braelaspin.Errors.{Error}
use braelaspin.Calls.{Call, ◌>>=◌, ◌>>◌, pure, fail, raise_if, or_fail, on_part}
use braelaspin.Redis.{
  Redis, RdsError, key_not_found, second, put_refresh, del_refresh, consume_refresh, ban_user,
  is_banned, unban_user,
}

-- What a request can read and write: Redis, the database, the clock in nanoseconds, and the answers of
-- the reads of crypto/rand to come, `none` where one fails.
pub record Site (S : Type 0) : Type 0 where
  pub redis_state : S
  pub world : World
  pub clock : ℤ
  pub entropy : List (Option Text)

-- Claims, with the registered claims that the source sets
pub record Claims : Type 0 where
  pub subject : Text
  pub issuer : Text
  pub issued_at : ℤ
  pub not_before : ℤ
  pub expires_at : ℤ
  pub is_admin : Bool

-- What the source calls of the package jwt, with HS256: `none` for every error.
pub record Jwt : Type 0 where
  -- jwt.NewNumericDate
  pub numeric_date : ℤ → ℤ
  -- NewWithClaims and SignedString, with the secret
  pub sign : Claims → Text → Option Text
  -- ParseWithClaims of a text, with the secret, the issuer to expect and the time
  pub parse : Text → Text → Text → ℤ → Option Claims

-- Tokens
pub record Tokens : Type 0 where
  pub access : Text
  pub refresh : Text
  pub access_expires_at : ℤ
  pub refresh_expires_at : ℤ

-- TokenService, without its client of Redis
pub record TokenService : Type 0 where
  pub secret : Text
  pub issuer : Text
  pub access_ttl : ℤ
  pub refresh_ttl : ℤ

pub data TokenError : Type 0 where
  token_invalid token_reused user_suspended sign_failed no_random_id : TokenError
  redis_error : RdsError → TokenError
  lookup_failed : Error → TokenError

abbrev pub on_redis : {S E A : Type 0} → Call S E A → Call (Site S) E A
on_redis m = on_part (λ t. t.redis_state) (λ x t. record t { redis_state = x }) m

abbrev pub on_world : {S E A : Type 0} → Call World E A → Call (Site S) E A
on_world m = on_part (λ t. t.world) (λ x t. record t { world = x }) m

-- Claims.UserID
unfoldable pub user_id_of : Claims → Option ℤ
user_id_of c = parse_int c.subject

-- hex.EncodeToString
abbrev hex_digit : ℕ → ℕ
hex_digit n = if ltb n 10 then 48 + n else 87 + n

unfoldable pub hex : Text → Text
hex [] = []
hex (b ∷ bs) = hex_digit (b / 16 % 16) ∷ hex_digit (b % 16) ∷ hex bs

abbrev next_id_bytes : {S : Type 0} → Site S → List (Option Text) → Result TokenError Text × Site S
next_id_bytes t [] = (err no_random_id, t)
next_id_bytes t (none ∷ rest) = (err no_random_id, record t { entropy = rest })
next_id_bytes t (some b ∷ rest) = (ok (hex b), record t { entropy = rest })

-- randomID
unfoldable pub random_id : {S : Type 0} → Call (Site S) TokenError Text
random_id t = next_id_bytes t t.entropy

-- a value, or the error where there is none
abbrev pub or_error : {S A : Type 0} → TokenError → Option A → Call (Site S) TokenError A
or_error e none t = (err e, t)
or_error e (some a) t = (ok a, t)

-- how Rotate reports an error of ConsumeRefresh
unfoldable pub consume_error : RdsError → TokenError
consume_error key_not_found = token_reused
consume_error e = redis_error e

-- the callback of Rotate, which may be nil
abbrev pub Lookup : Type 0
Lookup = Option (ℤ → Call World Error Bool)

unfoldable pub look_up : {S : Type 0} → Lookup → ℤ → Call (Site S) TokenError Bool
look_up none user_id = pure false
look_up (some f) user_id = or_fail (on_world (f user_id)) lookup_failed

-- the claims of the access token
unfoldable pub claims_for : Jwt → TokenService → ℤ → Bool → ℤ → Claims
claims_for jwt s user_id is_admin now = record {
  subject = decimal user_id;
  issuer = s.issuer;
  issued_at = jwt.numeric_date now;
  not_before = jwt.numeric_date now;
  expires_at = jwt.numeric_date (now +ℤ s.access_ttl);
  is_admin = is_admin;
}

module _ {S : Type 0} (r : Redis S) (jwt : Jwt) (s : TokenService) where
  -- issueWithFamily, at the time that it reads
  unfoldable pub issue_at : ℤ → Bool → Text → ℤ → Call (Site S) TokenError Tokens
  issue_at user_id is_admin family now = do
    access ← or_error sign_failed (jwt.sign (claims_for jwt s user_id is_admin now) s.secret)
    jti ← random_id
    or_fail (on_redis (put_refresh r jti user_id family s.refresh_ttl)) redis_error
    pure (record {
      access = access;
      refresh = jti;
      access_expires_at = now +ℤ s.access_ttl;
      refresh_expires_at = now +ℤ s.refresh_ttl;
    })

  unfoldable pub issue_with_family : ℤ → Bool → Text → Call (Site S) TokenError Tokens
  issue_with_family user_id is_admin family t = issue_at user_id is_admin family t.clock t

  -- Issue
  unfoldable pub issue : ℤ → Bool → Call (Site S) TokenError Tokens
  issue user_id is_admin = do family ← random_id; issue_with_family user_id is_admin family

  -- the suspension check, which fails where Redis does
  unfoldable pub check_ban : ℤ → Call (Site S) TokenError Unit
  check_ban user_id = do
    banned ← or_fail (on_redis (is_banned r user_id)) redis_error
    raise_if banned user_suspended

  -- VerifyAccess
  pub verify_access : Text → Call (Site S) TokenError Claims
  verify_access raw = do
    claims ← (λ t. or_error token_invalid (jwt.parse raw s.secret s.issuer t.clock) t)
    user_id ← or_error token_invalid (user_id_of claims)
    check_ban user_id
    pure claims

  -- Rotate
  pub rotate : Text → Lookup → Call (Site S) TokenError Tokens
  rotate refresh lookup = do
    (user_id, family) ← or_fail (on_redis (consume_refresh r refresh)) consume_error
    check_ban user_id
    is_admin ← look_up lookup user_id
    issue_with_family user_id is_admin family

  -- Revoke
  unfoldable pub revoke : Text → Call (Site S) TokenError Unit
  revoke refresh = or_fail (on_redis (del_refresh r refresh)) redis_error

  -- RevokeAll
  pub revoke_all : ℤ → Call (Site S) TokenError Unit
  revoke_all user_id =
      or_fail (on_redis (ban_user r user_id (add64 s.access_ttl (pos (60 * second))))) redis_error

  -- AllowAgain
  unfoldable pub allow_again : ℤ → Call (Site S) TokenError Unit
  allow_again user_id = or_fail (on_redis (unban_user r user_id)) redis_error
