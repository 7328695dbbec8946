-- ===== src/Api/Sessions.antt =====
-- internal/api/auth.go: register and login, and the part of New in internal/api/api.go that they need.
-- The random bytes of the referral codes are a supply of their own.
use braelaspin.Prelude.{Bool, ℕ, ℤ, pos, not, Option, Text, codes, Result, ok, err}
use braelaspin.Database.{User}
use braelaspin.Errors.{Error, not_found, phone_taken, referrer_unknown}
use braelaspin.Phone.{PhoneError, normalise}
use braelaspin.Users.{RefBytes, create, by_phone}
use braelaspin.Calls.{Call, ◌>>=◌, ◌>>◌, pure, fail, raise_if, or_fail}
use braelaspin.Redis.{Redis}
use braelaspin.Tokens.{Site, Jwt, Tokens, TokenService, on_world, issue, allow_again}
use braelaspin.Http.{
  Response, json, Failure, api, unmapped, Cause, of_service, of_other, errorf, err_conflict,
  with_cause, decoded,
}
use braelaspin.Passwords.{
  Argon2, Argon2Params, PasswordError, password_too_long, key_panic, default_argon2_params,
  validate_password, hash_password, verify_password,
}
use braelaspin.Api.Accounts.{UserDto, user_dto, token_failure}

-- registerReq, with the password's bytes
pub record RegisterReq : Type 0 where
  pub phone : Text
  pub password : Text
  pub ref_code : Text

-- loginReq
pub record LoginReq : Type 0 where
  pub phone : Text
  pub password : Text

-- sessionResp, with the times as numbers
pub record SessionResp : Type 0 where
  pub access : Text
  pub refresh : Text
  pub access_expires_at : ℤ
  pub refresh_expires_at : ℤ
  pub user : UserDto

-- Server.session, from the base URL
unfoldable pub session : Text → Tokens → User → SessionResp
session base_url t u = record {
  access = t.access;
  refresh = t.refresh;
  access_expires_at = t.access_expires_at;
  refresh_expires_at = t.refresh_expires_at;
  user = user_dto base_url u;
}

-- Server, with the settings that register and login read of cfg and of the account service
pub record Server : Type 0 where
  pub base_url : Text
  pub demo_grant_cents : ℤ
  pub argon : Argon2Params
  pub dummy_hash : Text

-- New
unfoldable pub new_server :
    {S : Type 0} → Argon2 → Text → ℤ → ℕ → ℕ → ℕ → Call (Site S) PasswordError Server
new_server a base_url grant time memory threads = do
  dummy ←
      hash_password a (codes "timing-equalisation-placeholder")
        (default_argon2_params time memory threads)
  pure (record {
    base_url = base_url;
    demo_grant_cents = grant;
    argon = default_argon2_params time memory threads;
    dummy_hash = dummy;
  })

-- a computed result, or the answer to its error
abbrev pub of_result : {S F A : Type 0} → Result F A → (F → Failure) → Call S Failure A
of_result (ok x) c t = (ok x, t)
of_result (err e) c t = (err (c e), t)

abbrev pub invalid_phone : PhoneError → Failure
invalid_phone e = api (
    with_cause of_other (
      errorf 400 (codes "invalid_phone")
        (codes "Enter a valid Kenyan mobile number, e.g. 0712 345 678.")))

-- how register answers an error of ValidatePassword
unfoldable pub password_failure : PasswordError → Failure
password_failure password_too_long = api (
    with_cause of_other
      (errorf 400 (codes "password_too_long") (codes "That password is too long.")))
password_failure e = api (
    with_cause of_other (
      errorf 400 (codes "password_too_short")
        (codes "Choose a password of at least 8 characters.")))

-- how register answers an error of Create
unfoldable pub create_failure : Error → Failure
create_failure phone_taken = api (
    with_cause (of_service phone_taken) (
      err_conflict (codes "phone_taken")
        (codes "That number is already registered. Try signing in instead.")))
create_failure referrer_unknown = api (
    with_cause (of_service referrer_unknown)
      (errorf 400 (codes "unknown_referral_code") (codes "That referral code was not recognised.")))
create_failure e = unmapped (of_service e)

-- invalidCredentials
unfoldable pub invalid_credentials : Cause → Failure
invalid_credentials c = api (
    with_cause c
      (errorf 401 (codes "invalid_credentials") (codes "That number or password is not correct.")))

-- the answer to a suspended account
unfoldable pub suspended : Failure
suspended = api (
    errorf 403 (codes "account_suspended")
      (codes "This account has been suspended. Contact support."))

-- how login answers an error of VerifyPassword; a panic of it is left to the recovery, which answers 500
unfoldable pub verify_failure : PasswordError → Failure
verify_failure key_panic = unmapped of_other
verify_failure e = invalid_credentials of_other

-- `_, _ = VerifyPassword(...)`: the answer is dropped, a panic is not
abbrev pub checked_for_nothing : {S : Type 0} → Result PasswordError Bool → Call S Failure Unit
checked_for_nothing (err key_panic) = fail (unmapped of_other)
checked_for_nothing v = pure tt

module _ {S : Type 0} (r : Redis S) (jwt : Jwt) (tokens : TokenService) (a : Argon2)
    (s : Server) where
  -- register, from its body, with the bytes of the referral codes
  unfoldable pub register :
      (ℕ → Option RefBytes) → Option RegisterReq → Call (Site S) Failure (Response SessionResp)
  register entropy body = do
    req ← decoded body
    phone ← of_result (normalise req.phone) invalid_phone
    of_result (validate_password req.password) password_failure
    hash ← or_fail (hash_password a req.password s.argon) (λ e. unmapped of_other)
    u ←
        or_fail
          (on_world (
            create s.demo_grant_cents
              (record { phone = phone; password_hash = hash; referrer_code = req.ref_code })
              entropy))
          create_failure
    pair ← or_fail (issue r jwt tokens (pos u.id) u.is_admin) token_failure
    pure (json 201 (session s.base_url pair u))

  -- what login does where ByPhone fails: against an unknown number the password is checked all the same
  unfoldable pub unknown_number : Text → Error → Call (Site S) Failure (User × Text)
  unknown_number password not_found = do
    checked_for_nothing (verify_password a password s.dummy_hash)
    fail (invalid_credentials (of_service not_found))
  unknown_number password e = fail (unmapped (of_service e))

  abbrev pub found_or :
      Text → Result Error (User × Text) × Site S → Result Failure (User × Text) × Site S
  found_or password (ok x, t) = (ok x, t)
  found_or password (err e, t) = unknown_number password e t

  -- the account of a number and the hash of its password
  unfoldable pub find_account : Text → Text → Call (Site S) Failure (User × Text)
  find_account phone password t = found_or password (on_world (by_phone phone) t)

  -- login, once the password has matched
  unfoldable pub grant : User → Call (Site S) Failure (Response SessionResp)
  grant u = do
    or_fail (allow_again r jwt tokens (pos u.id)) token_failure
    pair ← or_fail (issue r jwt tokens (pos u.id) u.is_admin) token_failure
    pure (json 200 (session s.base_url pair u))

  -- login, from its body
  unfoldable pub login : Option LoginReq → Call (Site S) Failure (Response SessionResp)
  login body = do
    req ← decoded body
    phone ← of_result (normalise req.phone) (λ e. invalid_credentials of_other)
    (u, hash) ← find_account phone req.password
    matches ← of_result (verify_password a req.password hash) verify_failure
    raise_if (not matches) (invalid_credentials of_other)
    raise_if (not u.is_active) suspended
    grant u
