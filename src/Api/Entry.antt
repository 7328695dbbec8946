-- ===== src/Api/Entry.antt =====
-- internal/api/auth.go: nobody gets in through login without the password of an active account.
use braelaspin.Prelude.{
  arith, ◌≡◌, refl, List, ap, Bool, true, false, not, some, Text, Result, ok, err,
}
use braelaspin.Database.{User}
use braelaspin.Database.Monad.{World}
use braelaspin.Phone.{normalise}
use braelaspin.Users.{by_phone}
use braelaspin.Users.Lookup.{by_phone-ok}
use braelaspin.Users.Statements.{find_phone}
use braelaspin.Calls.{Call, raise_if, fail, ◌>>◌, ◌>>=◌}
use braelaspin.Errors.{Error, not_found}
use braelaspin.Calls.Ensures.{Ensures, Ensures-bind, Ensures-on_part, Ensures-raise_if}
use braelaspin.Redis.{Redis}
use braelaspin.Tokens.{Site, Jwt, TokenService}
use braelaspin.Http.{Response, Failure, decoded, of_other}
use braelaspin.Passwords.{Argon2, PasswordError, key_panic, verify_password}
use braelaspin.Api.Sessions.{
  LoginReq, SessionResp, Server, of_result, find_account, found_or, unknown_number,
  invalid_credentials, verify_failure, checked_for_nothing, suspended, grant, login,
}
use braelaspin.Api.Login.{Accepted}

-- An accepted request for an active account.
pub record Admitted (a : Argon2) (us : List User) (req : LoginReq) : Type 0 where
  pub accepted : Accepted a us req
  pub active : accepted.user.is_active ≡ true

pub of_result-Ensures :
    {S F A : Type 0} {P : S → Type 0} (x : Result F A) (c : F → Failure)
    → Ensures P (of_result x c) (λ y t. (x ≡ ok y) × P t)
of_result-Ensures (ok y) c = record {
  at = λ t t' z p e. let same : z ≡ y = cc in let still : t' ≡ t = cc in rw (same, still) (refl, p);
}
of_result-Ensures (err e) c = record { at = λ t t' z p h. absurd (cc) }

-- What does not depend on the state may be used to prove the rest.
pub given :
    {S E A K : Type 0} {P : S → Type 0} {Q : A → S → Type 0} (m : Call S E A)
    → (K → Ensures P m Q)
    → Ensures (λ t. K × P t) m Q
given m h = record { at = λ t t' x k e. (h k.0).at t t' x k.1 e }

pub given_only :
    {S E A K : Type 0} {Q : A → S → Type 0} (m : Call S E A)
    → (K → Ensures (λ t. Unit) m Q)
    → Ensures (λ t. K) m Q
given_only m h = record { at = λ t t' x k e. (h k).at t t' x tt e }

pub decoded-Ensures :
    {S A : Type 0} {P : S → Type 0} (x : A)
    → Ensures P (decoded {S = S} (some x)) (λ y t. (y ≡ x) × P t)
unfolding decoded
decoded-Ensures x = record {
  at = λ t t' y p e. let same : y ≡ x = cc in let still : t' ≡ t = cc in rw (same, still) (refl, p);
}

-- Against the dummy hash no account is found, whatever the answer.
no_account :
    {S A : Type 0} (v : Result PasswordError Bool) (f : Failure) (t t' : S) (x : A)
    → ¬ ((checked_for_nothing v >> fail f) t ≡ (ok x, t'))
unfolding ◌>>=◌
no_account (ok b) f t t' x e = cc
no_account (err key_panic) f t t' x e = cc
no_account (err z) f t t' x e = cc

module _ {S : Type 0} (r : Redis S) (jwt : Jwt) (tokens : TokenService) (a : Argon2)
    (s : Server) where
  found_or-ok :
      (password : Text) (p : Result Error (User × Text) × Site S) (x : User × Text) (t' : Site S)
      → found_or r jwt tokens a s password p ≡ (ok x, t')
      → p ≡ (ok x, t')
  unfolding unknown_number
  found_or-ok password (ok y, t) x t' e =
      let same : y ≡ x = cc in let still : t ≡ t' = cc in rw (same, still) refl
  found_or-ok password (err not_found, t) x t' e = absurd (no_account _ _ t t' x e)
  found_or-ok password (err z, t) x t' e = absurd (cc)

  phone_found :
      (phone : Text) (w0 : World)
      → Ensures
          (λ w. w ≡ w0)
          (by_phone phone)
          (λ p w. (find_phone phone w0.db.users ≡ some p.0) × (p.1 ≡ p.0.password_hash))
  phone_found phone w0 = record { at = λ w w' p here e. by_phone-ok phone w0 w' p (rw here at e) }

  found :
      (phone password : Text) (t0 : Site S)
      → Ensures
          (λ t. t ≡ t0)
          (find_account r jwt tokens a s phone password)
          (λ p t. (find_phone phone t0.world.db.users ≡ some p.0) × (p.1 ≡ p.0.password_hash))
  unfolding find_account
  found phone password t0 = record {
    at = λ t t' p here e.
        (Ensures-on_part _ _ (by_phone phone) (λ x y. refl) (phone_found phone t0.world)).at t t' p
          (ap (λ z. z.world) here) (found_or-ok password _ p t' e);
  }

  module _ (req : LoginReq) (t0 : Site S) where
    abbrev accounts : List User
    accounts = t0.world.db.users

    -- After the decoder, the number, the account and the password.
    abbrev Numbered : Text → Type 0
    Numbered phone = normalise req.phone ≡ ok phone

    abbrev Found : Text → User × Text → Type 0
    Found phone p =
        Numbered phone × (find_phone phone accounts ≡ some p.0) × (p.1 ≡ p.0.password_hash)

    abbrev Matched : Text → User × Text → Bool → Type 0
    Matched phone p m = Found phone p × (verify_password a req.password p.1 ≡ ok m)

    checks_account :
        (phone : Text) (p : User × Text)
        → Matched phone p true
        → Ensures
            (λ t. Unit)
            (raise_if {S = Site S} (not p.0.is_active) suspended >> grant r jwt tokens a s p.0)
            (λ x t. Admitted a accounts req)
    checks_account phone p k =
        Ensures-bind (λ x t. not p.0.is_active ≡ false) _ _
          (Ensures-raise_if (not p.0.is_active) suspended (λ t off u. off))
          λ x. record { at = λ t t' y on e. admitted on }
      where
        admitted : not p.0.is_active ≡ false → Admitted a accounts req
        admitted on = record {
          accepted = record {
            phone = phone;
            user = p.0;
            numbered = k.0.0;
            found = k.0.1;
            matches = rw (k.0.2) at (k.1);
          };
          active = ground arith;
        }

    checks_password :
        (phone : Text) (p : User × Text)
        → Found phone p
        → Ensures
            (λ t. Unit)
            (of_result {S = Site S} (verify_password a req.password p.1) verify_failure >>= λ m.
              raise_if (not m) (invalid_credentials of_other)
              >> (raise_if (not p.0.is_active) suspended >> grant r jwt tokens a s p.0))
            (λ x t. Admitted a accounts req)
    checks_password phone p k =
        Ensures-bind (λ m t. (verify_password a req.password p.1 ≡ ok m) × Unit) _ _
          (of_result-Ensures _ _)
          λ m.
            Ensures-bind (λ x t. Matched phone p true) _ _
              (Ensures-raise_if (not m) _ (λ t matched v. (k, matches m matched v.0)))
              λ x. given_only _ (checks_account phone p)
      where
        matches :
            (m : Bool)
            → not m ≡ false
            → verify_password a req.password p.1 ≡ ok m
            → verify_password a req.password p.1 ≡ ok true
        matches true e v = v
        matches false e v = absurd (cc)

    checks_number :
        Ensures
          (λ t. t ≡ t0)
          (of_result {S = Site S} (normalise req.phone) (λ e. invalid_credentials of_other)
            >>= λ phone. find_account r jwt tokens a s phone req.password >>= λ p.
                of_result {S = Site S} (verify_password a req.password p.1) verify_failure >>= λ m.
                raise_if (not m) (invalid_credentials of_other)
                >> (raise_if (not p.0.is_active) suspended >> grant r jwt tokens a s p.0))
          (λ x t. Admitted a accounts req)
    checks_number =
        Ensures-bind (λ phone t. Numbered phone × (t ≡ t0)) _ _ (of_result-Ensures _ _)
          λ phone. given _ λ n.
            Ensures-bind (λ p t. (find_phone phone accounts ≡ some p.0) × (p.1 ≡ p.0.password_hash))
              _ _ (found phone req.password t0)
              λ p. given_only _ λ k. checks_password phone p (n, k.0, k.1)

    login-Ensures :
        Ensures (λ t. t ≡ t0) (login r jwt tokens a s (some req)) (λ x t. Admitted a accounts req)
    unfolding login
    login-Ensures =
        Ensures-bind (λ q t. (q ≡ req) × (t ≡ t0)) _ _ (decoded-Ensures req)
          λ q. given _ λ same. rw same checks_number

  -- Nobody gets in without a password. Whatever the answers of the database, of Redis and of crypto/rand,
  -- when login answers a request with a session then the number of the request is that of an account in
  -- the table, the password verifies against the hash of this account, and the account is active.
  pub login_needs_password :
      (req : LoginReq) (t t1 : Site S) (x : Response SessionResp)
      → login r jwt tokens a s (some req) t ≡ (ok x, t1)
      → Admitted a t.world.db.users req
  login_needs_password req t t1 x e = (login-Ensures req t).at t t1 x refl e
