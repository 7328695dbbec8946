-- ===== src/Api/Register.antt =====
-- internal/api/auth.go: what register leaves is what login looks for.
use braelaspin.Prelude.{
  Option-cases, inl, inr, arith, pos, ℕ, ◌≡◌, refl, ap, ◌∙◌, true, Option, none, some, Text, List,
  [], ◌∷◌, Result, ok, err, All,
}
use braelaspin.Database.{User}
use braelaspin.Phone.{normalise}
use braelaspin.Users.{RefBytes, create}
use braelaspin.Users.Statements.{find_phone}
use braelaspin.Users.Created.{Created, create-Created}
use braelaspin.Calls.{or_fail, pure, ◌>>◌, ◌>>=◌}
use braelaspin.Calls.Ensures.{
  Ensures, Ensures-bind, Ensures-on_part, Ensures-or_fail, Ensures-pure, Ensures-Keeps,
}
use braelaspin.Redis.{Redis}
use braelaspin.Tokens.{issue, Site, Jwt, TokenService, on_world}
use braelaspin.Tokens.Apart.{issue-Apart}
use braelaspin.Http.{of_other, unmapped, json, Response}
use braelaspin.Passwords.{
  Argon2, Argon2Params, PasswordError, hash_password, hash_salted, phc_text, verify_password,
  next_salt, hashed, hash_if, validate_password,
}
use braelaspin.Passwords.Base64.{IsBytes}
use braelaspin.Passwords.Verified.{IsArgon2, InRange}
use braelaspin.Passwords.Accepts.{key_of, verify_password-own}
use braelaspin.Api.Sessions.{
  RegisterReq, LoginReq, SessionResp, Server, session, create_failure, of_result, password_failure,
  register, login, grant,
}
use braelaspin.Api.Accounts.{token_failure}
use braelaspin.Api.Login.{login-grant}
use braelaspin.Api.Entry.{Admitted, of_result-Ensures, decoded-Ensures, given, given_only}

-- What crypto/rand yields is bytes.
abbrev pub AreBytes : List (Option Text) → Type 0
AreBytes l = All (λ o. elim o [ none ↦ Unit {0} | some b ↦ IsBytes b ]) l

-- The hash of a password with some salt.
pub record Hashed (a : Argon2) (p : Argon2Params) (pw h : Text) : Type 0 where
  pub salt : Text
  pub bytes : IsBytes salt
  pub key : Text
  pub derived : key_of a p pw salt ≡ some key
  pub text_is : h ≡ phc_text a.version p salt key

hash_salted-Hashed :
    (a : Argon2) (p : Argon2Params) (pw salt h : Text)
    → IsBytes salt
    → hash_salted a pw p salt ≡ ok h
    → Hashed a p pw h
unfolding hash_salted
hash_salted-Hashed a p pw salt h k e = elim (Option-cases (key_of a p pw salt)) [
  | inl panics ↦ absurd (cc)
  | inr (key, derived) ↦ record {
    salt = salt;
    bytes = k;
    key = key;
    derived = derived;
    text_is = ground arith;
  }
]

module _ {S : Type 0} (a : Argon2) (p : Argon2Params) (pw : Text) where
  salted_Hashed :
      (t t' : Site S) (l : List (Option Text)) (h : Text)
      → AreBytes l
      → hashed a pw p (next_salt t l) ≡ (ok h, t')
      → Hashed a p pw h
  salted_Hashed t t' [] h k e = absurd (cc)
  salted_Hashed t t' (none ∷ l) h k e = absurd (cc)
  salted_Hashed t t' (some salt ∷ l) h k e = hash_salted-Hashed a p pw salt h k.0 (cc)

  if_Hashed :
      (v : Result PasswordError Unit) (t t' : Site S) (h : Text)
      → AreBytes t.entropy
      → hash_if a pw p v t ≡ (ok h, t')
      → Hashed a p pw h
  if_Hashed (err x) t t' h k e = absurd (cc)
  if_Hashed (ok x) t t' h k e = salted_Hashed t t' t.entropy h k e

  pub hash_password-Hashed :
      Ensures (λ t. AreBytes t.entropy) (hash_password {S = S} a pw p) (λ h t. Hashed a p pw h)
  unfolding hash_password
  hash_password-Hashed = record { at = λ t t' h k e. if_Hashed (validate_password pw) t t' h k e }

-- The same credentials, for login.
abbrev pub credentials : RegisterReq → LoginReq
credentials req = record { phone = req.phone; password = req.password }

module _ {S : Type 0} (r : Redis S) (jwt : Jwt) (tokens : TokenService) {a : Argon2}
    (laws : IsArgon2 a) (s : Server) (fits : InRange s.argon) (req : RegisterReq) where
  own_password :
      (h : Text) → Hashed a s.argon req.password h → verify_password a req.password h ≡ ok true
  own_password h k =
      ap (verify_password a req.password) k.text_is
      ∙ verify_password-own laws s.argon fits req.password k.salt k.key k.bytes k.derived

  admitted :
      (phone h : Text) (u : User) (us : List User)
      → normalise req.phone ≡ ok phone
      → Hashed a s.argon req.password h
      → Created (record { phone = phone; password_hash = h; referrer_code = req.ref_code }) u us
      → Admitted a us (credentials req)
  admitted phone h u us n k c = record {
    accepted = record {
      phone = phone;
      user = u;
      numbered = n;
      found = c.found;
      matches = ap (verify_password a req.password) c.hash ∙ own_password h k;
    };
    active = c.active;
  }

  abbrev Lets : Site S → Type 0
  Lets t = Admitted a t.world.db.users (credentials req)

  creates :
      (phone h : Text) (entropy : ℕ → Option RefBytes)
      → normalise req.phone ≡ ok phone
      → Hashed a s.argon req.password h
      → Ensures
          (λ t. Unit)
          (on_world {S = S} (
            create s.demo_grant_cents
              (record { phone = phone; password_hash = h; referrer_code = req.ref_code })
              entropy))
          (λ u t. Lets t)
  creates phone h entropy n k =
      Ensures-on_part {P = λ w. Unit} {Q = λ u w. Admitted a w.db.users (credentials req)} _ _ _
        (λ x y. refl)
        (record {
          at = λ w w' u x e.
              admitted phone h u w'.db.users n k (create-Created _ _ entropy w w' u e);
        })

  rest :
      (phone h : Text) (entropy : ℕ → Option RefBytes)
      → normalise req.phone ≡ ok phone
      → Hashed a s.argon req.password h
      → Ensures
          (λ t. Unit)
          (or_fail
              (on_world (
                create s.demo_grant_cents
                  (record { phone = phone; password_hash = h; referrer_code = req.ref_code })
                  entropy))
              create_failure
            >>= λ u. or_fail (issue r jwt tokens (pos u.id) u.is_admin) token_failure >>= λ pair.
                pure (json 201 (session s.base_url pair u)))
          (λ x t. Lets t)
  rest phone h entropy n k =
      Ensures-bind (λ u t. Lets t) _ _ (Ensures-or_fail _ _ (creates phone h entropy n k))
        λ u.
          Ensures-bind (λ x t. Lets t) _ _
            (Ensures-or_fail _ _ (
              Ensures-Keeps _ (
                issue-Apart (λ w. Admitted a w.db.users (credentials req)) r jwt tokens (pos u.id)
                  u.is_admin)))
            λ pair. Ensures-pure _ (λ t x. x)

  hashes :
      (phone : Text) (entropy : ℕ → Option RefBytes)
      → normalise req.phone ≡ ok phone
      → Ensures
          (λ t. AreBytes t.entropy)
          (of_result {S = Site S} (validate_password req.password) password_failure
            >> (or_fail (hash_password a req.password s.argon) (λ e. unmapped of_other) >>= λ h.
                or_fail
                  (on_world (
                    create s.demo_grant_cents
                      (record { phone = phone; password_hash = h; referrer_code = req.ref_code })
                      entropy))
                  create_failure
                >>= λ u.
                    or_fail (issue r jwt tokens (pos u.id) u.is_admin) token_failure >>= λ pair.
                    pure (json 201 (session s.base_url pair u))))
          (λ x t. Lets t)
  hashes phone entropy n =
      Ensures-bind (λ x t. (validate_password req.password ≡ ok x) × AreBytes t.entropy) _ _
        (of_result-Ensures _ _)
        λ x. given _ λ valid.
          Ensures-bind (λ h t. Hashed a s.argon req.password h) _ _
            (Ensures-or_fail _ _ (hash_password-Hashed a s.argon req.password))
            λ h. given_only _ λ k. rest phone h entropy n k

  register-Ensures :
      (entropy : ℕ → Option RefBytes)
      → Ensures
          (λ t. AreBytes t.entropy)
          (register r jwt tokens a s entropy (some req))
          (λ x t. Lets t)
  unfolding register
  register-Ensures entropy =
      Ensures-bind (λ q t. (q ≡ req) × AreBytes t.entropy) _ _ (decoded-Ensures req)
        λ q. given _ λ same. rw same (
          Ensures-bind (λ phone t. (normalise req.phone ≡ ok phone) × AreBytes t.entropy) _ _
            (of_result-Ensures _ _) λ phone. given _ λ n. hashes phone entropy n)

  -- Who registered can log in. When register has answered a request with a session, the account is there,
  -- and in every later state with the same accounts and a database that works, login with the number and
  -- the password of that request passes all its checks and goes on to the tokens for this account.
  pub registered_can_log_in :
      (entropy : ℕ → Option RefBytes) (t t1 t2 : Site S) (x : Response SessionResp)
      → AreBytes t.entropy
      → register r jwt tokens a s entropy (some req) t ≡ (ok x, t1)
      → t2.world.db.users ≡ t1.world.db.users
      → t2.world.answers ≡ []
      → (u : User) × (phone : Text) × (normalise req.phone ≡ ok phone)
        × (find_phone phone t1.world.db.users ≡ some u)
        × (login r jwt tokens a s (some (credentials req)) t2 ≡ grant r jwt tokens a s u t2)
  registered_can_log_in entropy t t1 t2 x random done same calm =
      let here = (register-Ensures entropy).at t t1 x random done in
      let there : Admitted a t2.world.db.users (credentials req) = rw same here in
      (
        there.accepted.user,
        there.accepted.phone,
        there.accepted.numbered,
        rw same at there.accepted.found,
        login-grant r jwt tokens a s t2 calm (credentials req) there.accepted there.active,
      )
