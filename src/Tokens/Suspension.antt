-- ===== src/Tokens/Suspension.antt =====
-- internal/auth/token.go: a force-logout reaches the access tokens that are still valid.
use braelaspin.Prelude.{
  ℤ, ◌≡◌, ◌≢◌, refl, sym, ap, ◌∙◌, false, Option, none, some, Text, [], ◌∷◌, ok,
}
use braelaspin.Calls.Ensures.{
  Ensures, Ensures-bind, Ensures-pure, Ensures-or_fail, Ensures-raise_if,
}
use braelaspin.Redis.{Redis, is_banned, ban_user, ban_key}
use braelaspin.Redis.Laws.{View, Absent, IsRedis}
use braelaspin.Redis.Effects.{is_banned-false, ban_user-holds}
use braelaspin.Tokens.{
  token_invalid, Site, Jwt, Claims, TokenService, TokenError, or_error, user_id_of, check_ban,
  verify_access, revoke_all,
}
use braelaspin.Tokens.Rotation.{on_redis-Ensures}

or_error-Ensures :
    {S A : Type 0} {P : Site S → Type 0} (e : TokenError) (o : Option A)
    → Ensures P (or_error e o) (λ a t. (o ≡ some a) × P t)
or_error-Ensures e none = record { at = λ t t' a p h. absurd (cc) }
or_error-Ensures e (some x) = Ensures-pure x (λ t p. (refl, p))

module _ {S : Type 0} {r : Redis S} {v : View S} (laws : IsRedis r v) (jwt : Jwt)
    (s : TokenService) where
  abbrev At : S → Site S → Type 0
  At m t = t.redis_state ≡ m

  unbanned :
      (u : ℤ) (m : S)
      → Ensures (λ x. x ≡ m) (is_banned r u) (λ b x. b ≡ false → Absent v (ban_key u) m)
  unbanned u m = record {
    at = λ x x' b here e no.
        ap (λ y. v.holds y (ban_key u)) (sym here)
        ∙ is_banned-false laws u x x' (e ∙ ap (λ z. (ok z, x')) no);
  }

  check_ban-Ensures :
      (u : ℤ) (m : S) → Ensures (At m) (check_ban r jwt s u) (λ x t. Absent v (ban_key u) m)
  unfolding check_ban
  check_ban-Ensures u m =
      Ensures-bind _ _ _ (Ensures-or_fail _ _ (on_redis-Ensures _ (unbanned u m)))
        λ b. Ensures-raise_if b _ (λ t no k. k no)

  parsed-At :
      (raw : Text) (t0 t t' : Site S) (c : Claims)
      → t ≡ t0
      → or_error token_invalid (jwt.parse raw s.secret s.issuer t.clock) t ≡ (ok c, t')
      → (jwt.parse raw s.secret s.issuer t0.clock ≡ some c) × At t0.redis_state t'
  parsed-At raw t0 t t' c here e =
      (or_error-Ensures {P = At t0.redis_state} token_invalid
          (jwt.parse raw s.secret s.issuer t0.clock)).at
        t0 t' c refl (rw (sym here) e)

  abbrev Banned : ℤ → S → Type 0
  Banned u m = v.holds m (ban_key u) ≡ some (b'1' ∷ [])

  -- The claims name a user whose ban key was not there.
  abbrev pub Unbanned : S → Claims → Type 0
  Unbanned m c = (u : ℤ) × (user_id_of c ≡ some u) × Absent v (ban_key u) m

  -- An access token is accepted if the package jwt accepts it and its user has no ban key.
  pub verify_access-Ensures :
      (raw : Text) (t0 : Site S)
      → Ensures
          (λ t. t ≡ t0)
          (verify_access r jwt s raw)
          (λ c t. (jwt.parse raw s.secret s.issuer t0.clock ≡ some c) × Unbanned t0.redis_state c)
  unfolding verify_access
  verify_access-Ensures raw t0 =
      let m = t0.redis_state in
      Ensures-bind (λ c t. (jwt.parse raw s.secret s.issuer t0.clock ≡ some c) × At m t) _ _
        (record { at = λ t t' c here e. parsed-At raw t0 t t' c here e })
        λ c.
          Ensures-bind
            (λ u t.
              (user_id_of c ≡ some u)
              × ((jwt.parse raw s.secret s.issuer t0.clock ≡ some c) × At m t))
            _ _ (or_error-Ensures _ (user_id_of c))
            λ u.
              Ensures-bind
                (λ x t.
                  (jwt.parse raw s.secret s.issuer t0.clock ≡ some c)
                  × (user_id_of c ≡ some u)
                  × Absent v (ban_key u) m)
                _ _
                (record {
                  at = λ t t' x k e. (k.1.0, k.0, (check_ban-Ensures u m).at t t' x k.1.1 e);
                })
                λ x. Ensures-pure c (λ t k. (k.0, (u, k.1, k.2)))

  marked : (u d : ℤ) → Ensures (λ x. Unit) (ban_user r u d) (λ x. Banned u)
  marked u d = record { at = λ t t' x y e. ban_user-holds laws u d t t' e }

  -- A force-logout takes effect at once: when RevokeAll has returned without an error for a user, then in
  -- every later state where the ban key holds what RevokeAll left there, VerifyAccess accepts no access
  -- token whose claims name this user, whatever the token, the time and the answers of Redis.
  pub revoke_all_locks_out :
      (user_id : ℤ) (raw : Text) (c : Claims) (t t1 t2 t3 : Site S)
      → revoke_all r jwt s user_id t ≡ (ok tt, t1)
      → v.holds t2.redis_state (ban_key user_id) ≡ v.holds t1.redis_state (ban_key user_id)
      → verify_access r jwt s raw t2 ≡ (ok c, t3)
      → user_id_of c ≢ some user_id
  unfolding revoke_all
  revoke_all_locks_out user_id raw c t t1 t2 t3 done left accepted named =
      let (parsed, (u, mine, gone)) = (verify_access-Ensures raw t2).at t2 t3 c refl accepted in
      let banned =
        (Ensures-or_fail _ _ (on_redis-Ensures _ (marked user_id _))).at t t1 tt tt done in
      let same : u ≡ user_id = cc in
      let there : v.holds t2.redis_state (ban_key u) ≡ some (b'1' ∷ []) = rw same (left ∙ banned) in
      absurd (cc)
