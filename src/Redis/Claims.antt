-- ===== src/Redis/Claims.antt =====
-- internal/rds/rds.go: the idempotency claim, under the laws of Redis.
use braelaspin.Prelude.{
  ◌≢◌, ℤ, ◌≡◌, refl, sym, ap, ◌∙◌, ◌⊎◌, inl, inr, Bool, true, false, none, some, Text, [], Result,
  ok, err, if◌then◌else◌,
}
use braelaspin.Calls.{convert_error, proceed, ◌>>=◌, pure, or_fail, bind-ok, or_fail-ok}
use braelaspin.Redis.{Redis, RedisError, nil_reply, redis_failed, RdsError, redis, idem_key}
use braelaspin.Redis.Counters.{Claimed, prior_of, claim, store}
use braelaspin.Redis.Laws.{View, IsRedis}

abbrev pub lost : Text → Claimed
lost x = record { won = false; prior = x }

-- What Claim answers where the key holds `x`: the claim is lost, with `x` or with nothing, where the key
-- expired meanwhile; or Redis failed.
unfoldable pub IsLost : Text → Result RdsError Claimed → Type 0
IsLost x c = (c ≡ ok (lost x)) ⊎ (c ≡ ok (lost [])) ⊎ ((e : RedisError) × (c ≡ err (redis e)))

prior-IsLost :
    {S : Type 0} (x : Text) (p : Result RedisError Text × S)
    → ((t : Text) → p ≡ (ok t, p.1) → t ≡ x)
    → IsLost x (prior_of p).0
unfolding IsLost
prior-IsLost x (ok t, s) h = inl (ap (λ z. ok (lost z)) (h t refl))
prior-IsLost x (err nil_reply, s) h = inr (inl refl)
prior-IsLost x (err redis_failed, s) h = inr (inr (redis_failed, refl))

not_won :
    {S : Type 0} (p : Result RedisError Text × S) (s' : S) (c : Claimed)
    → prior_of p ≡ (ok c, s')
    → c.won ≡ false
not_won (ok t, s) s' c h =
    let same : ◌≡◌ {A = Result RdsError Claimed} (ok (lost t)) (ok c) = ap (λ x. x.0) h in
    let got : lost t ≡ c = cc in sym (ap Claimed.won got)
not_won (err nil_reply, s) s' c h =
    let same : ◌≡◌ {A = Result RdsError Claimed} (ok (lost [])) (ok c) = ap (λ x. x.0) h in
    let got : lost [] ≡ c = cc in sym (ap Claimed.won got)
not_won (err redis_failed, s) s' c h = absurd (cc)

module _ {S : Type 0} {r : Redis S} {v : View S} (laws : IsRedis r v) where
  -- the claim once SetNX has answered, where it cannot have been won
  answered-IsLost :
      (k x : Text) (s : S) (p : Result RedisError Bool × S)
      → ((s1 : S) → p ≡ (ok true, s1) → some x ≡ none)
      → ((s1 : S) → p ≡ (ok false, s1) → v.holds s1 k ≡ some x)
      → IsLost x
          (proceed (convert_error redis p) (λ first.
            if first
            then pure (record { won = true; prior = [] })
            else (λ s1. prior_of (r.get k s1)))).0
  unfolding IsLost
  answered-IsLost k x s (ok true, s1) won missed =
      let impossible : some x ≡ none = won s1 refl in absurd (cc)
  answered-IsLost k x s (ok false, s1) won missed =
      prior-IsLost x (r.get k s1) (λ t e.
        let there : some t ≡ some x = sym (laws.get-some k t s1 _ e).0 ∙ missed s1 refl in cc)
  answered-IsLost k x s (err e, s1) won missed = inr (inr (e, refl))

  pub claim-IsLost :
      (u : ℤ) (ref x : Text) (d : ℤ) (s : S)
      → v.holds s (idem_key u ref) ≡ some x
      → IsLost x (claim r u ref d s).0
  unfolding claim ◌>>=◌ or_fail
  claim-IsLost u ref x d s there =
      answered-IsLost (idem_key u ref) x s (r.setnx (idem_key u ref) [] d s)
        (λ s1 e. sym there ∙ (laws.setnx-won _ _ _ s s1 e).0)
        (λ s1 e. (laws.setnx-lost _ _ _ s s1 e).1 ∙ there)

  -- A claim that was won leaves the key with an empty text.
  answered-won :
      (k : Text) (first : Bool) (s1 s' : S) (c : Claimed)
      → (if first then pure (record { won = true; prior = [] }) else (λ s2. prior_of (r.get k s2)))
          s1
        ≡ (ok c, s')
      → c.won ≡ true
      → (first ≡ true) × (s' ≡ s1)
  answered-won k true s1 s' c h w = (refl, sym (ap (λ p. p.1) h))
  answered-won k false s1 s' c h w = let never = not_won (r.get k s1) s' c h in absurd (cc)

  pub claim-won :
      (u : ℤ) (ref : Text) (d : ℤ) (s s' : S) (c : Claimed)
      → claim r u ref d s ≡ (ok c, s')
      → c.won ≡ true
      → v.holds s' (idem_key u ref) ≡ some []
  unfolding claim
  claim-won u ref d s s' c h w =
      let (first, s1, asked, rest) = bind-ok _ _ s s' c h in
      let (won, same) = answered-won (idem_key u ref) first s1 s' c rest w in
      ap (λ x. v.holds x (idem_key u ref)) same
      ∙ (laws.setnx-won _ [] d s s1 (or_fail-ok _ _ s s1 first asked ∙ ap (λ b. (ok b, s1)) won)).1

  prior-holds :
      (k : Text) (s1 s' : S) (c : Claimed) (p : Result RedisError Text × S)
      → r.get k s1 ≡ p
      → prior_of p ≡ (ok c, s')
      → c.prior ≢ []
      → v.holds s' k ≡ some c.prior
  prior-holds k s1 s' c (ok t, s2) asked h n =
      let same : ◌≡◌ {A = Result RdsError Claimed} (ok (lost t)) (ok c) = ap (λ x. x.0) h in
      let got : lost t ≡ c = cc in
      ap (λ x. v.holds x k) (sym (ap (λ x. x.1) h))
      ∙ ((laws.get-some k t s1 s2 asked).1 ∙ ap (λ z. some z) (ap Claimed.prior got))
  prior-holds k s1 s' c (err nil_reply, s2) asked h n =
      let same : ◌≡◌ {A = Result RdsError Claimed} (ok (lost [])) (ok c) = ap (λ x. x.0) h in
      let got : lost [] ≡ c = cc in absurd (n (sym (ap Claimed.prior got)))
  prior-holds k s1 s' c (err redis_failed, s2) asked h n = absurd (cc)

  answered-prior :
      (k : Text) (first : Bool) (s1 s' : S) (c : Claimed)
      → (if first then pure (record { won = true; prior = [] }) else (λ s2. prior_of (r.get k s2)))
          s1
        ≡ (ok c, s')
      → c.won ≡ false
      → c.prior ≢ []
      → v.holds s' k ≡ some c.prior
  answered-prior k true s1 s' c h w n =
      let same : ◌≡◌ {A = Result RdsError Claimed} (ok (record { won = true; prior = [] })) (ok c) =
        ap (λ x. x.0) h in
      let got : record { won = true; prior = [] } ≡ c = cc in
      let won_eq : true ≡ c.won = ap Claimed.won got in absurd (cc)
  answered-prior k false s1 s' c h w n = prior-holds k s1 s' c _ refl h n

  -- A claim that was lost to a stored response leaves this response there.
  pub claim-lost :
      (u : ℤ) (ref : Text) (d : ℤ) (s s' : S) (c : Claimed)
      → claim r u ref d s ≡ (ok c, s')
      → c.won ≡ false
      → c.prior ≢ []
      → v.holds s' (idem_key u ref) ≡ some c.prior
  unfolding claim
  claim-lost u ref d s s' c h w n =
      let (first, s1, asked, rest) = bind-ok _ _ s s' c h in
      answered-prior (idem_key u ref) first s1 s' c rest w n

  stored_at :
      (k body x : Text) (d : ℤ) (s : S) (p : Result RedisError Unit × S)
      → r.set k body d s ≡ p
      → v.holds s k ≡ some x
      → (v.holds (convert_error redis p).1 k ≡ some body)
        ⊎ (v.holds (convert_error redis p).1 k ≡ some x)
  stored_at k body x d s (ok tt, s1) e there = inl (laws.set-holds k body d s s1 e)
  stored_at k body x d s (err f, s1) e there = elim (laws.set-failed k body d f s s1 e) [
    | inl h ↦ inl h
    | inr h ↦ inr (h ∙ there)
  ]

  -- Store leaves the response there, or what was there, if it fails.
  pub store-holds :
      (u : ℤ) (ref body x : Text) (d : ℤ) (s : S)
      → v.holds s (idem_key u ref) ≡ some x
      → (v.holds (store r u ref body d s).1 (idem_key u ref) ≡ some body)
        ⊎ (v.holds (store r u ref body d s).1 (idem_key u ref) ≡ some x)
  unfolding store or_fail
  store-holds u ref body x d s there = stored_at (idem_key u ref) body x d s _ refl there
