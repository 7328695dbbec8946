-- ===== src/Redis/Limits.antt =====
-- internal/rds/rds.go: the rate limit lets a fixed number of calls through in a window.
use braelaspin.Prelude.{
  ℕ, suc, ℤ, pos, ◌+◌, ◌≡◌, refl, sym, ap, ◌∙◌, Bool, true, false, Text, Result, ok, err, arith,
  ltb, leb, ◌==◌, ltb_ℤ, eqb_ℤ, if◌then◌else◌,
}
use braelaspin.Calls.{pure, bind-ok, or_fail-ok}
use braelaspin.Redis.{Redis, RedisError, limit_key}
use braelaspin.Redis.Counters.{Admission, allow, decide, time_left}
use braelaspin.Redis.Laws.{View, IsRedis}

-- A window lets one call through even where the limit is 0.
abbrev pub capacity : ℕ → ℕ
capacity limit = if limit == 0 then 1 else limit

abbrev pub one_if : Bool → ℕ
one_if true = 1
one_if false = 0

abbrev pub smaller : ℕ → ℕ → ℕ
smaller a b = if leb a b then a else b

answer_eq :
    {S E : Type 0} (x a : Admission) (s s' : S)
    → ◌≡◌ {A = Result E Admission × S} (ok x, s) (ok a, s')
    → (x ≡ a) × (s ≡ s')
answer_eq x a s s' h = (cc, cc)

time_left-refused :
    {S : Type 0} (window : ℤ) (p : Result RedisError ℤ × S) (a : Admission) (s' : S)
    → time_left window p ≡ (ok a, s')
    → (a.admitted ≡ false) × (s' ≡ p.1)
time_left-refused window (ok t, s) a s' h =
    let (same, still) = answer_eq _ a s s' h in (sym (ap Admission.admitted same), sym still)
time_left-refused window (err e, s) a s' h =
    let (same, still) = answer_eq _ a s s' h in (sym (ap Admission.admitted same), sym still)

fits : (c limit : ℕ) → eqb_ℤ (pos (suc c)) (pos 1) ≡ true → true ≡ ltb c (capacity limit)
fits c limit h = ground arith

too_many :
    (c limit : ℕ)
    → eqb_ℤ (pos (suc c)) (pos 1) ≡ false
    → ltb_ℤ (pos limit) (pos (suc c)) ≡ true
    → false ≡ ltb c (capacity limit)
too_many c limit h k = ground arith

within : (c limit : ℕ) → ltb_ℤ (pos limit) (pos (suc c)) ≡ false → true ≡ ltb c (capacity limit)
within c limit h = ground arith

smaller_step : (m cap : ℕ) → smaller m cap + one_if (ltb m cap) ≡ smaller (suc m) cap
smaller_step m cap = ground arith

module _ {S : Type 0} (r : Redis S) (v : View S) (action subject : Text) (limit : ℕ)
    (window : ℤ) where
  abbrev key : Text
  key = limit_key action subject

  -- Calls of Allow that answer within one window, each counted once: how many there were, and how many
  -- of them were let through. In between the state may change, but not the count of this key.
  pub data Hits : ℕ → ℕ → S → Type 0 where
    opened : (s : S) → v.hits s key ≡ 0 → Hits 0 0 s
    hit :
        {m n : ℕ} {s : S} (a : Admission) (s' : S)
        → Hits m n s
        → allow r action subject (pos limit) window s ≡ (ok a, s')
        → Hits (suc m) (n + one_if a.admitted) s'
    elsewhere : {m n : ℕ} {s : S} (s' : S) → Hits m n s → v.hits s' key ≡ v.hits s key → Hits m n s'

  module _ (laws : IsRedis r v) where
    split :
        (c : ℕ) (first over : Bool) (a : Admission) (s s' : S)
        → eqb_ℤ (pos (suc c)) (pos 1) ≡ first
        → ltb_ℤ (pos limit) (pos (suc c)) ≡ over
        → (if first
              then pure (record { admitted = true; retry_after = pos 0 })
              else if over
              then (λ x. time_left window (r.ttl key x))
              else pure (record { admitted = true; retry_after = pos 0 }))
            s
          ≡ (ok a, s')
        → (a.admitted ≡ ltb c (capacity limit)) × (v.hits s' key ≡ v.hits s key)
    split c true over a s s' f o h =
        let (same, still) = answer_eq _ a s s' h in
        (sym (ap Admission.admitted same) ∙ fits c limit f, ap (λ x. v.hits x key) (sym still))
    split c false true a s s' f o h =
        let (refused, still) = time_left-refused window (r.ttl key s) a s' h in
        (refused ∙ too_many c limit f o, ap (λ x. v.hits x key) still ∙ laws.ttl-reads key s)
    split c false false a s s' f o h =
        let (same, still) = answer_eq _ a s s' h in
        (sym (ap Admission.admitted same) ∙ within c limit o, ap (λ x. v.hits x key) (sym still))

    decide-counts :
        (c : ℕ) (a : Admission) (s s' : S)
        → decide r key (pos limit) window (pos (suc c)) s ≡ (ok a, s')
        → (a.admitted ≡ ltb c (capacity limit)) × (v.hits s' key ≡ v.hits s key)
    unfolding decide
    decide-counts c a s s' h = split c _ _ a s s' refl refl h

    allow-counts :
        (a : Admission) (s s' : S)
        → allow r action subject (pos limit) window s ≡ (ok a, s')
        → (a.admitted ≡ ltb (v.hits s key) (capacity limit)) × (v.hits s' key ≡ suc (v.hits s key))
    unfolding allow
    allow-counts a s s' h =
        let (n, s1, counted, decided) = bind-ok _ _ s s' a h in
        let (value, left) = laws.incr-counts _ n _ s s1 (or_fail-ok _ _ s s1 n counted) in
        let (admitted, kept) = decide-counts (v.hits s key) a s1 s' (rw (sym value) decided) in
        (admitted, kept ∙ left)

    counted_all :
        (m n : ℕ) (s : S) → Hits m n s → (v.hits s key ≡ m) × (n ≡ smaller m (capacity limit))
    counted_all m n s (opened s0 none_yet) = (none_yet, ground arith)
    counted_all m n s (hit {m = m0} {n = n0} {s = s0} a s1 before call) =
        let (hits_eq, n_eq) = counted_all m0 n0 s0 before in
        let (admitted, counted) = allow-counts a s0 s1 call in
        (
          counted ∙ ap suc hits_eq,
          rw (n_eq, admitted ∙ ap (λ z. ltb z (capacity limit)) hits_eq)
              (smaller_step m0 (capacity limit)),
        )
    counted_all m n s (elsewhere {s = s0} s1 before same) =
        let (hits_eq, n_eq) = counted_all m n s0 before in (same ∙ hits_eq, n_eq)

    -- The rate limit is exact within a window: of `m` calls of Allow for one action and subject that Redis
    -- answers, from no hits on and with nothing but these calls changing the count, the smaller of `m` and
    -- the capacity are let through. The capacity is the limit, and 1 where the limit is 0.
    pub admits_capacity : (m n : ℕ) (s : S) → Hits m n s → n ≡ smaller m (capacity limit)
    admits_capacity m n s h = (counted_all m n s h).1
