-- ===== src/Api/Login.antt =====
-- internal/api/auth.go: who gets in through login, and what the others learn.
use braelaspin.Prelude.{
  ◌≡◌, ◌≢◌, refl, ap, Bool, true, false, Option, none, some, Text, codes, Result, ok, err, List, [],
}
use braelaspin.Database.{User}
use braelaspin.Errors.{not_found}
use braelaspin.Phone.{PhoneError, normalise}
use braelaspin.Users.Statements.{find_phone}
use braelaspin.Users.Lookup.{by_phone-some, by_phone-none}
use braelaspin.Calls.{◌>>=◌, on_part}
use braelaspin.Redis.{Redis}
use braelaspin.Tokens.{Site, Jwt, TokenService}
use braelaspin.Http.{
  Response, Cause, failed, of_service, of_other, serve, decoded, respond_failure, shown, with_cause,
  errorf,
}
use braelaspin.Passwords.{Argon2, PasswordError, key_panic, verify_password}
use braelaspin.Api.Sessions.{
  LoginReq, SessionResp, Server, invalid_credentials, verify_failure, checked_for_nothing,
  suspended, unknown_number, find_account, grant, login,
}

-- The request names an account, and gives the password of its hash.
pub record Accepted (a : Argon2) (us : List User) (req : LoginReq) : Type 0 where
  pub phone : Text
  pub user : User
  pub numbered : normalise req.phone ≡ ok phone
  pub found : find_phone phone us ≡ some user
  pub matches : verify_password a req.password user.password_hash ≡ ok true

-- The derivation of a key does not panic at the dummy hash, and not at the hash of the account, if the number
-- has one.
pub record IsSteady (a : Argon2) (dummy : Text) (us : List User) (req : LoginReq) : Type 0 where
  pub dummy_hash : verify_password a req.password dummy ≢ err key_panic
  pub stored_hash :
      (phone : Text) (u : User)
      → normalise req.phone ≡ ok phone
      → find_phone phone us ≡ some u
      → verify_password a req.password u.password_hash ≢ err key_panic

checked_lem :
    {S : Type 0} (v : Result PasswordError Bool) (t : S)
    → v ≢ err key_panic
    → checked_for_nothing v t ≡ (ok tt, t)
checked_lem (ok b) t h = refl
checked_lem (err key_panic) t h = absurd (h refl)
checked_lem (err z) t h = refl

verify_failure_lem :
    (e : PasswordError) → e ≢ key_panic → verify_failure e ≡ invalid_credentials of_other
unfolding verify_failure
verify_failure_lem key_panic h = absurd (h refl)
verify_failure_lem e h = refl

-- The one reply to a failed login.
abbrev pub refusal : Text → Response SessionResp
refusal rid =
    failed 401 (codes "invalid_credentials") (codes "That number or password is not correct.") []
      rid

refusal_lem :
    (rid : Text) (c : Cause)
    → respond_failure {A = SessionResp} rid (invalid_credentials c) ≡ refusal rid
unfolding respond_failure invalid_credentials shown with_cause errorf
refusal_lem rid c = refl

module _ {S : Type 0} (r : Redis S) (jwt : Jwt) (tokens : TokenService) (a : Argon2) (s : Server)
    (t : Site S) (calm : t.world.answers ≡ []) where
  find_account-some :
      (phone password : Text) (u : User)
      → find_phone phone t.world.db.users ≡ some u
      → find_account r jwt tokens a s phone password t ≡ (ok (u, u.password_hash), t)
  unfolding find_account on_part
  find_account-some phone password u e = rw (by_phone-some phone t.world calm u e) refl

  find_account-none :
      (phone password : Text)
      → verify_password a password s.dummy_hash ≢ err key_panic
      → find_phone phone t.world.db.users ≡ none
      → find_account r jwt tokens a s phone password t
        ≡ (err (invalid_credentials (of_service not_found)), t)
  unfolding find_account on_part unknown_number ◌>>=◌
  find_account-none phone password steady e =
      rw
        (
          by_phone-none phone t.world calm e,
          checked_lem (verify_password a password s.dummy_hash) t steady,
        )
        refl

  module _ (req : LoginReq) (accepted : Accepted a t.world.db.users req) where
    -- With accepted credentials of a suspended account, login refuses.
    pub login-suspended :
        accepted.user.is_active ≡ false → login r jwt tokens a s (some req) t ≡ (err suspended, t)
    unfolding login ◌>>=◌ decoded
    login-suspended off =
        rw
          (
            accepted.numbered,
            find_account-some accepted.phone req.password accepted.user accepted.found,
            accepted.matches,
            off,
          )
          refl

    -- With those of an active one, it goes on to the tokens.
    pub login-grant :
        accepted.user.is_active ≡ true
        → login r jwt tokens a s (some req) t ≡ grant r jwt tokens a s accepted.user t
    unfolding login ◌>>=◌ decoded
    login-grant on =
        rw
          (
            accepted.numbered,
            find_account-some accepted.phone req.password accepted.user accepted.found,
            accepted.matches,
            on,
          )
          refl

  -- What login is still to do, once it has the number.
  abbrev Refuses : LoginReq → Type 0
  Refuses req =
      (c : Cause) × (login r jwt tokens a s (some req) t ≡ (err (invalid_credentials c), t))

  bad_number : (req : LoginReq) (e : PhoneError) → normalise req.phone ≡ err e → Refuses req
  unfolding login ◌>>=◌ decoded
  bad_number req e n = (of_other, rw n refl)

  unknown :
      (req : LoginReq) (phone : Text)
      → verify_password a req.password s.dummy_hash ≢ err key_panic
      → normalise req.phone ≡ ok phone
      → find_phone phone t.world.db.users ≡ none
      → Refuses req
  unfolding login ◌>>=◌ decoded
  unknown req phone steady n f =
      (of_service not_found, rw (n, find_account-none phone req.password steady f) refl)

  module _ (req : LoginReq) (phone : Text) (u : User) (n : normalise req.phone ≡ ok phone)
      (f : find_phone phone t.world.db.users ≡ some u) where
    bad_hash :
        (e : PasswordError)
        → e ≢ key_panic
        → verify_password a req.password u.password_hash ≡ err e
        → Refuses req
    unfolding login ◌>>=◌ decoded
    bad_hash e h v =
        (of_other, rw (n, find_account-some phone req.password u f, v, verify_failure_lem e h) refl)

    mismatch : verify_password a req.password u.password_hash ≡ ok false → Refuses req
    unfolding login ◌>>=◌ decoded
    mismatch v = (of_other, rw (n, find_account-some phone req.password u f, v) refl)

    by_password :
        (v : Result PasswordError Bool)
        → verify_password a req.password u.password_hash ≡ v
        → v ≢ err key_panic
        → ¬ Accepted a t.world.db.users req
        → Refuses req
    by_password (err e) v steady nobody = bad_hash e (λ same. steady (ap err same)) v
    by_password (ok false) v steady nobody = mismatch v
    by_password (ok true) v steady nobody =
        absurd (nobody (record { phone = phone; user = u; numbered = n; found = f; matches = v }))

  by_account :
      (req : LoginReq) (phone : Text) (o : Option User)
      → IsSteady a s.dummy_hash t.world.db.users req
      → normalise req.phone ≡ ok phone
      → find_phone phone t.world.db.users ≡ o
      → ¬ Accepted a t.world.db.users req
      → Refuses req
  by_account req phone none steady n f nobody = unknown req phone steady.dummy_hash n f
  by_account req phone (some u) steady n f nobody =
      by_password req phone u n f _ refl (steady.stored_hash phone u n f) nobody

  by_number :
      (req : LoginReq) (n : Result PhoneError Text)
      → IsSteady a s.dummy_hash t.world.db.users req
      → normalise req.phone ≡ n
      → ¬ Accepted a t.world.db.users req
      → Refuses req
  by_number req (err e) steady n nobody = bad_number req e n
  by_number req (ok phone) steady n nobody = by_account req phone _ steady n refl nobody

  -- A failed login tells nothing about the accounts in its reply. Where the database works, argon2 does not
  -- panic at the dummy hash or at the hash of the account, and the request does not give the password of an
  -- account, the reply is the same in every case (the number is no number, it has no account, the stored
  -- hash is malformed, the password differs, whether or not the account is suspended): 401
  -- invalid_credentials with the one text, and nothing is written. The time that it takes is not modelled.
  pub login_tells_nothing :
      (rid : Text) (req : LoginReq)
      → IsSteady a s.dummy_hash t.world.db.users req
      → ¬ Accepted a t.world.db.users req
      → serve rid (login r jwt tokens a s (some req)) t ≡ (refusal rid, t)
  unfolding serve
  login_tells_nothing rid req steady nobody =
      let (c, e) = by_number req _ steady refl nobody in rw e (ap (λ x. (x, t)) (refusal_lem rid c))
