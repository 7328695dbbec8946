-- ===== src/Http/Guarded.antt =====
-- internal/httpx/middleware.go: who gets past RequireAuth.
use braelaspin.Prelude.{
  ◌⊎◌, inl, inr, ◌≡◌, refl, ap, sym, Bool, true, false, some, Text, Result, ok, err, is_empty, ℤ,
  if◌then◌else◌,
}
use braelaspin.Redis.{Redis, ban_key}
use braelaspin.Redis.Laws.{View, Absent, IsRedis}
use braelaspin.Tokens.{Site, Jwt, Claims, TokenService, TokenError, user_id_of, verify_access}
use braelaspin.Tokens.Suspension.{verify_access-Ensures}
use braelaspin.Http.{api, err_unauthorized, Response, respond_failure}
use braelaspin.Http.Middleware.{Handler, bearer, auth_failure, admit_claims, require_auth}

module _ {S : Type 0} {r : Redis S} {v : View S} (laws : IsRedis r v) (jwt : Jwt)
    (s : TokenService) where
  -- The state after RequireAuth's own work: the check of the token.
  abbrev pub checked : Text → Site S → Site S
  checked header t = (verify_access r jwt s (bearer header) t).1

  -- The handler further in ran, from the state after the check, and this is all of its outcome.
  pub record Reached {A : Type 0} (t : Site S) (header : Text) (next : Claims → Handler (Site S) A)
      (x : Response A × Site S) : Type 0 where
    pub claims : Claims
    pub parsed : jwt.parse (bearer header) s.secret s.issuer t.clock ≡ some claims
    pub user : ℤ
    pub named : user_id_of claims ≡ some user
    pub free : Absent v (ban_key user) t.redis_state
    pub ran : next claims (checked header t) ≡ x

  -- A refusal of RequireAuth itself, in the state that its own work left: the one before the request, where
  -- there was no token, or the one after the check.
  pub IsTurnedAway : {A : Type 0} → Text → Text → Site S → Response A × Site S → Type 0
  IsTurnedAway rid header t x =
      (x ≡ (respond_failure rid (api err_unauthorized), t))
      ⊎ ((e : TokenError) × (x ≡ (respond_failure rid (auth_failure e), checked header t)))

  admitted_or_not :
      {A : Type 0} (rid header : Text) (next : Claims → Handler (Site S) A) (t : Site S)
      (p : Result TokenError Claims × Site S)
      → verify_access r jwt s (bearer header) t ≡ p
      → Reached t header next (admit_claims rid next p)
        ⊎ IsTurnedAway rid header t (admit_claims rid next p)
  unfolding IsTurnedAway
  admitted_or_not rid header next t (ok c, t1) e =
      let (parsed, (u, named, free)) =
        (verify_access-Ensures laws jwt s (bearer header) t).at t t1 c refl e in
      inl (record {
        claims = c;
        parsed = parsed;
        user = u;
        named = named;
        free = free;
        ran = ap (λ q. next c q.1) e;
      })
  admitted_or_not rid header next t (err x, t1) e =
      inr (inr (x, ap (λ q. (respond_failure rid (auth_failure x), q.1)) (sym e)))

  by_header :
      {A : Type 0} (rid header : Text) (next : Claims → Handler (Site S) A) (t : Site S)
      (no_token : Bool)
      → let x : Response A × Site S =
          (if no_token
            then (respond_failure rid (api err_unauthorized), t)
            else admit_claims rid next (verify_access r jwt s (bearer header) t)) in
        Reached t header next x ⊎ IsTurnedAway rid header t x
  unfolding IsTurnedAway
  by_header rid header next t true = inr (inl refl)
  by_header rid header next t false = admitted_or_not rid header next t _ refl

  -- RequireAuth guards. Whatever the header and the answers of Redis, either the outcome is a refusal whose
  -- state is the one that RequireAuth's own work left, so that nothing that the handler further in does has
  -- happened; or it is the outcome of this handler, with the claims of a bearer token that the package jwt
  -- accepts at that time for this secret and issuer, and whose user has no ban key.
  pub require_auth_guards :
      {A : Type 0} (rid header : Text) (next : Claims → Handler (Site S) A) (t : Site S)
      → Reached t header next (require_auth r jwt s rid header next t)
        ⊎ IsTurnedAway rid header t (require_auth r jwt s rid header next t)
  unfolding require_auth
  require_auth_guards rid header next t = by_header rid header next t (is_empty (bearer header))
