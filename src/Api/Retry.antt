-- ===== src/Api/Retry.antt =====
-- internal/api/game.go: a client that retries a spin with the same client_ref does not play again.
use braelaspin.Prelude.{
  ℕ, pos, ◌≡◌, ◌≢◌, refl, sym, ap, ◌∙◌, ◌⊎◌, inl, inr, Bool, true, false, ◌||◌, Option, none, some,
  Text, codes, [], ◌∷◌, Result, ok, err, ltb, is_empty, byte_length, if◌then◌else◌,
}
use braelaspin.Errors.{Error}
use braelaspin.Wheel.Pick.{Buffer}
use braelaspin.Spin.{Economics, SpinResult, spin}
use braelaspin.Calls.{
  proceed, convert_error, with_part, ◌>>=◌, pure, fail, raise_if, or_fail, ignore, on_part, bind-ok,
  or_fail-ok, raise_if-ok,
}
use braelaspin.Calls.Ensures.{Ensures}
use braelaspin.Redis.{Redis, RedisError, RdsError, redis, idem_key}
use braelaspin.Redis.Counters.{Claimed, claim}
use braelaspin.Redis.Laws.{View, IsRedis}
use braelaspin.Redis.Claims.{lost, IsLost, claim-IsLost, claim-won, claim-lost, store-holds}
use braelaspin.Tokens.{Site, on_redis, on_world}
use braelaspin.Tokens.Rotation.{on_redis-Ensures}
use braelaspin.Http.{Response, raw, Failure, api, err_conflict, decoded}
use braelaspin.Api.Spins.{
  SpinReq, day, redis_failure, request_of, respond, after_spin, claimed, claim_and_spin,
  spin_handler,
}

abbrev in_flight : Failure
in_flight = api (
    err_conflict (codes "spin_in_flight")
      (codes "That spin is still being processed. Please wait a moment."))

-- How a retry is answered: with the body, with the advice to wait, or with the failure of Redis.
pub IsReplay : Text → Result Failure (Response SpinResult) → Type 0
IsReplay body x =
    (x ≡ ok (raw 200 body))
    ⊎ (x ≡ err in_flight)
    ⊎ ((e : RedisError) × (x ≡ err (redis_failure (redis e))))

abbrev bad_ref : Text → Bool
bad_ref ref = is_empty ref || ltb 64 (byte_length ref)

module _ {S : Type 0} {r : Redis S} {v : View S} (laws : IsRedis r v) (econ : Economics)
    (encode : SpinResult → Option Text) where
  -- The key holds this response, or nothing yet.
  Kept : ℕ → Text → Text → S → Type 0
  Kept uid ref b m =
      (v.holds m (idem_key (pos uid) ref) ≡ some b) ⊎ (v.holds m (idem_key (pos uid) ref) ≡ some [])

  respond-Kept :
      (uid : ℕ) (req : SpinReq) (o : Option Text) (t t' : Site S) (b : Text)
      → v.holds t.redis_state (idem_key (pos uid) req.client_ref) ≡ some []
      → respond r econ encode uid req o t ≡ (ok (raw 200 b), t')
      → Kept uid req.client_ref b t'.redis_state
  unfolding respond ◌>>=◌ ignore on_part Kept
  respond-Kept uid req none t t' b there h = absurd (cc)
  respond-Kept uid req (some body) t t' b there h =
      let same : ◌≡◌ {A = Result Failure (Response SpinResult)} (ok (raw 200 body))
          (ok (raw 200 b)) =
        ap (λ x. x.0) h in
      let body_eq : body ≡ b = cc in
      let after = ap (λ x. v.holds x.1.redis_state (idem_key (pos uid) req.client_ref)) (sym h) in
      elim (store-holds laws (pos uid) req.client_ref body [] day t.redis_state there) [
        | inl k ↦ inl (after ∙ (k ∙ ap (λ z. some z) body_eq))
        | inr k ↦ inr (after ∙ k)
      ]

  after_spin-Kept :
      (uid : ℕ) (req : SpinReq) (p : Result Error SpinResult × Site S) (t' : Site S) (b : Text)
      → v.holds p.1.redis_state (idem_key (pos uid) req.client_ref) ≡ some []
      → after_spin r econ encode uid req p ≡ (ok (raw 200 b), t')
      → Kept uid req.client_ref b t'.redis_state
  unfolding after_spin ◌>>=◌ ignore on_part
  after_spin-Kept uid req (err e, t) t' b there h = absurd (cc)
  after_spin-Kept uid req (ok result, t) t' b there h =
      respond-Kept uid req (encode result) t t' b there h

  -- What a claim leaves behind, by its answer.
  Left : ℕ → Text → Claimed → S → Type 0
  Left uid ref c m =
      (c.won ≡ true → v.holds m (idem_key (pos uid) ref) ≡ some [])
      × (c.won ≡ false → c.prior ≢ [] → v.holds m (idem_key (pos uid) ref) ≡ some c.prior)

  claim-Left :
      (uid : ℕ) (ref : Text)
      → Ensures (λ m. Unit) (claim r (pos uid) ref day) (λ c m. Left uid ref c m)
  unfolding Left
  claim-Left uid ref = record {
    at = λ m m' c x e.
        (claim-won laws (pos uid) ref day m m' c e, claim-lost laws (pos uid) ref day m m' c e);
  }

  replayed-Kept :
      (uid : ℕ) (ref prior b : Text) (t t' : Site S)
      → (prior ≢ [] → v.holds t.redis_state (idem_key (pos uid) ref) ≡ some prior)
      → (if is_empty prior then fail {A = Response SpinResult} in_flight else pure (raw 200 prior))
          t
        ≡ (ok (raw 200 b), t')
      → Kept uid ref b t'.redis_state
  unfolding Kept
  replayed-Kept uid ref [] b t t' there h = absurd (cc)
  replayed-Kept uid ref (c ∷ s) b t t' there h =
      let same : ◌≡◌ {A = Result Failure (Response SpinResult)} (ok (raw 200 (c ∷ s)))
          (ok (raw 200 b)) =
        ap (λ x. x.0) h in
      let body_eq : c ∷ s ≡ b = cc in
      let full : c ∷ s ≢ [] = λ e. cc in
      inl (
        ap (λ x. v.holds x.1.redis_state (idem_key (pos uid) ref)) (sym h)
        ∙ (there full ∙ ap (λ z. some z) body_eq))

  claimed-Kept :
      (source : Option Buffer) (uid : ℕ) (req : SpinReq) (won : Bool) (c : Claimed) (t t' : Site S)
      (b : Text)
      → c.won ≡ won
      → Left uid req.client_ref c t.redis_state
      → (if won
            then (λ t0.
                after_spin r econ encode uid req
                  (on_world (spin econ source (request_of uid req)) t0))
            else if is_empty c.prior
            then fail {A = Response SpinResult} in_flight
            else pure (raw 200 c.prior))
          t
        ≡ (ok (raw 200 b), t')
      → Kept uid req.client_ref b t'.redis_state
  unfolding Left on_part
  claimed-Kept source uid req true c t t' b w l h = after_spin-Kept uid req _ t' b (l.0 w) h
  claimed-Kept source uid req false c t t' b w l h =
      replayed-Kept uid req.client_ref c.prior b t t' (l.1 w) h

  -- After an answer with a body, the reference was well formed, and its key holds the body or nothing yet.
  handler-Kept :
      (source : Option Buffer) (uid : ℕ) (req : SpinReq) (t t' : Site S) (b : Text)
      → spin_handler r econ encode source uid (some req) t ≡ (ok (raw 200 b), t')
      → (bad_ref req.client_ref ≡ false) × Kept uid req.client_ref b t'.redis_state
  unfolding spin_handler claim_and_spin claimed decoded ◌>>=◌
  handler-Kept source uid req t t' b h =
      let (u, t1, e1, h1) = bind-ok (raise_if (bad_ref req.client_ref) _) _ t t' (raw 200 b) h in
      let (well_formed, same) = raise_if-ok (bad_ref req.client_ref) _ t t1 u e1 in
      let (c, t2, e2, h2) =
        bind-ok (or_fail (on_redis (claim r (pos uid) req.client_ref day)) redis_failure) _ t1 t'
          (raw 200 b) h1 in
      let left =
        (on_redis-Ensures _ (claim-Left uid req.client_ref)).at t1 t2 c tt
          (or_fail-ok _ _ t1 t2 c e2) in
      (well_formed, claimed-Kept source uid req c.won c t2 t' b refl left h2)

  lost-replays :
      (source : Option Buffer) (uid : ℕ) (req : SpinReq) (b x : Text) (t : Site S)
      → (x ≡ b) ⊎ (x ≡ [])
      → IsReplay b (claimed r econ encode source uid req (lost x) t).0
  unfolding claimed IsReplay
  lost-replays source uid req b [] t h = inr (inl refl)
  lost-replays source uid req b (c ∷ s) t (inl h) = inl (ap (λ z. ok (raw 200 z)) h)
  lost-replays source uid req b (c ∷ s) t (inr h) = absurd (cc)

  lost-still :
      (source : Option Buffer) (uid : ℕ) (req : SpinReq) (x : Text) (t : Site S)
      → (claimed r econ encode source uid req (lost x) t).1 ≡ t
  unfolding claimed
  lost-still source uid req [] t = refl
  lost-still source uid req (c ∷ s) t = refl

  -- the handler from the answer of Claim on, where the claim cannot be won
  after_claim :
      (source : Option Buffer) (uid : ℕ) (req : SpinReq) (b x : Text) (t : Site S)
      (p : Result RdsError Claimed × S)
      → (x ≡ b) ⊎ (x ≡ [])
      → IsLost x p.0
      → let y =
          proceed
            (convert_error redis_failure (with_part (λ m. record t { redis_state = m }) p))
            (claimed r econ encode source uid req) in
        (y.1.world ≡ t.world) × IsReplay b y.0
  unfolding IsLost IsReplay
  after_claim source uid req b x t (ok c, m) h (inl e) =
      let got : c ≡ lost x = cc in
      rw got (
        ap (λ z. z.world) (lost-still source uid req x (record t { redis_state = m })),
        lost-replays source uid req b x (record t { redis_state = m }) h,
      )
  after_claim source uid req b x t (ok c, m) h (inr (inl e)) =
      let got : c ≡ lost [] = cc in
      rw got (
        ap (λ z. z.world) (lost-still source uid req [] (record t { redis_state = m })),
        lost-replays source uid req b [] (record t { redis_state = m }) (inr refl),
      )
  after_claim source uid req b x t (ok c, m) h (inr (inr (f, e))) = absurd (cc)
  after_claim source uid req b x t (err g, m) h (inl e) = absurd (cc)
  after_claim source uid req b x t (err g, m) h (inr (inl e)) = absurd (cc)
  after_claim source uid req b x t (err g, m) h (inr (inr (f, e))) =
      (refl, inr (inr (f, let same : g ≡ redis f = cc in ap (λ z. err (redis_failure z)) same)))

  replays :
      (source : Option Buffer) (uid : ℕ) (req : SpinReq) (b : Text) (t : Site S)
      → bad_ref req.client_ref ≡ false
      → Kept uid req.client_ref b t.redis_state
      → let y = spin_handler r econ encode source uid (some req) t in
        (y.1.world ≡ t.world) × IsReplay b y.0
  unfolding spin_handler claim_and_spin decoded ◌>>=◌ or_fail on_part Kept
  replays source uid req b t well_formed (inl there) = rw well_formed (
      after_claim source uid req b b t (claim r (pos uid) req.client_ref day t.redis_state)
        (inl refl) (claim-IsLost laws (pos uid) req.client_ref b day t.redis_state there))
  replays source uid req b t well_formed (inr there) = rw well_formed (
      after_claim source uid req b [] t (claim r (pos uid) req.client_ref day t.redis_state)
        (inr refl) (claim-IsLost laws (pos uid) req.client_ref [] day t.redis_state there))

  -- A retry never plays again. When the spin handler has answered a request with a body, a later request
  -- of the same user with the same client_ref, whatever its stake and the draw, leaves the database
  -- alone: it answers the very same body, or that the spin is still being processed, or it
  -- fails because Redis does. The later state is any in which the key holds what the first call left.
  pub retry_plays_nothing :
      (source later : Option Buffer) (uid : ℕ) (req again : SpinReq) (t t1 t2 : Site S)
      (body : Text)
      → spin_handler r econ encode source uid (some req) t ≡ (ok (raw 200 body), t1)
      → again.client_ref ≡ req.client_ref
      → v.holds t2.redis_state (idem_key (pos uid) req.client_ref)
        ≡ v.holds t1.redis_state (idem_key (pos uid) req.client_ref)
      → let y = spin_handler r econ encode later uid (some again) t2 in
        (y.1.world ≡ t2.world) × IsReplay body y.0
  unfolding Kept
  retry_plays_nothing source later uid req again t t1 t2 body done same_ref left =
      let (well_formed, kept) = handler-Kept source uid req t t1 body done in
      let well : bad_ref again.client_ref ≡ false = rw same_ref well_formed in
      let there : Kept uid again.client_ref body t2.redis_state = rw (same_ref, left) kept in
      replays later uid again body t2 well there
