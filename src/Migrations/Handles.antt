-- ===== src/Migrations/Handles.antt =====
-- internal/db/db.go: no call leaves a handle of the database open, except a pool that it returns.
use braelaspin.Prelude.{
  ℕ, suc, ℤ, ◌+◌, ◌-◌, ◌≡◌, refl, ◌∙◌, Bool, true, false, Text, List, [], ◌∷◌, Result, ok, err,
  arith, if◌then◌else◌,
}
use braelaspin.Calls.{Call, ◌>>=◌, ◌>>◌, proceed, convert_error, or_fail}
use braelaspin.Calls.Keeps.{Keeps, Keeps-bind, Keeps-pure, Keeps-or_fail}
use braelaspin.Migrations.{
  Driver, PoolConfig, DbError, no_pool, no_provider, no_status, pool_config, pinged, open_pool,
  closed, with_goose, migrate_up, migrate_down, print_status, pending, raise_pending,
  assert_current,
}

-- What the packages document of their handles, with the number of those that are open.
pub record IsDriver {S : Type 0} (d : Driver S) (handles : S → ℕ) : Type 0 where
  pub new_pool-ok :
      (c : PoolConfig) (s s' : S) → d.new_pool c s ≡ (ok tt, s') → handles s' ≡ suc (handles s)
  pub new_pool-err :
      (c : PoolConfig) (s s' : S) → d.new_pool c s ≡ (err tt, s') → handles s' ≡ handles s
  pub ping-keeps : (s : S) → handles (d.ping s).1 ≡ handles s
  pub close_pool-closes : (s : S) → handles (d.close_pool s) ≡ handles s - 1
  pub open_db-opens : (url : Text) (s : S) → handles (d.open_db url s) ≡ suc (handles s)
  pub close_db-closes : (s : S) → handles (d.close_db s) ≡ handles s - 1
  pub new_provider-keeps : (s : S) → handles (d.new_provider s).1 ≡ handles s
  pub up-keeps : (s : S) → handles (d.up s).1 ≡ handles s
  pub down-keeps : (s : S) → handles (d.down s).1 ≡ handles s
  pub status-keeps : (s : S) → handles (d.status s).1 ≡ handles s

-- The handles that a result of Open holds.
abbrev pub opened : Result DbError Unit → ℕ
opened (ok x) = 1
opened (err e) = 0

module _ {S : Type 0} {d : Driver S} {handles : S → ℕ} (laws : IsDriver d handles) where
  abbrev Open : ℕ → S → Type 0
  Open n s = handles s ≡ n

  keeps :
      {E A : Type 0} (n : ℕ) (m : Call S E A)
      → ((s : S) → handles (m s).1 ≡ handles s)
      → Keeps (Open n) m
  keeps n m h = record { at = λ s k. h s ∙ k }

  abbrev Counted : ℕ → Result DbError Unit × S → Type 0
  Counted n p = handles p.1 ≡ opened p.0 + n

  pinged-Counted : (n : ℕ) (p : Result Unit Unit × S) → handles p.1 ≡ suc n → Counted n (pinged d p)
  pinged-Counted n (ok x, s) h = omega (arith, h)
  pinged-Counted n (err e, s) h = omega (arith, h, laws.close_pool-closes s)

  created-Counted :
      (c : PoolConfig) (s : S) (p : Result Unit Unit × S)
      → d.new_pool c s ≡ p
      → Counted
          (handles s)
          (proceed (convert_error (λ e. no_pool) p) (λ x s1. pinged d (d.ping s1)))
  created-Counted c s (ok x, s1) e =
      pinged-Counted (handles s) (d.ping s1) (laws.ping-keeps s1 ∙ laws.new_pool-ok c s s1 e)
  created-Counted c s (err x, s1) e = omega (arith, laws.new_pool-err c s s1 e)

  -- Open holds one handle more if it returned a pool, and none otherwise: a pool that does not answer the
  -- ping is closed.
  pub open_pool-handles :
      (url : Text) (max min : ℤ) (s : S)
      → handles (open_pool d url max min s).1 ≡ opened (open_pool d url max min s).0 + handles s
  unfolding open_pool ◌>>=◌ or_fail
  open_pool-handles url max min s = by_url (d.parses url)
    where
      by_url :
          (b : Bool)
          → Counted (handles s) (
              (if b
                  then (or_fail (d.new_pool (pool_config url max min)) (λ e. no_pool)
                      >> (λ s1. pinged d (d.ping s1)))
                  else (λ s1. (err DbError.bad_url, s1)))
                s)
      by_url true = created-Counted _ s (d.new_pool _ s) refl
      by_url false = omega arith

  with_goose-handles :
      {A : Type 0} (url : Text) (fn : Call S DbError A) (s : S)
      → ((n : ℕ) → Keeps (Open n) fn)
      → handles (with_goose d url fn s).1 ≡ handles s
  unfolding with_goose
  with_goose-handles url fn s h = by_url (d.parses url)
    where
      body : Keeps (Open (suc (handles s))) (or_fail d.new_provider (λ e. no_provider) >> fn)
      body = Keeps-bind _ _ (Keeps-or_fail _ _ (keeps _ _ laws.new_provider-keeps)) λ x. h _

      by_url :
          (b : Bool)
          → handles
              (if b
                then closed d ((or_fail d.new_provider (λ e. no_provider) >> fn) (d.open_db url s))
                else (err DbError.bad_url, s)).1
            ≡ handles s
      by_url true = omega (
        arith,
        laws.close_db-closes
            ((or_fail d.new_provider (λ e. no_provider) >> fn) (d.open_db url s)).1,
        body.at (d.open_db url s) (laws.open_db-opens url s),
      )
      by_url false = refl

  raise_pending-Keeps : (n : ℕ) (ms : List Text) → Keeps (Open n) (raise_pending d ms)
  raise_pending-Keeps n [] = record { at = λ s k. k }
  raise_pending-Keeps n (m ∷ ms) = record { at = λ s k. k }

  status_body : (n : ℕ) → Keeps (Open n) (or_fail d.status (λ e. no_status))
  status_body n = Keeps-or_fail _ _ (keeps n _ laws.status-keeps)

  -- No command on the migrations leaves a handle open, whatever it returns.
  pub migrations_close :
      (url : Text) (s : S)
      → (handles (migrate_up d url s).1 ≡ handles s)
        × (handles (migrate_down d url s).1 ≡ handles s)
        × (handles (print_status d url s).1 ≡ handles s)
        × (handles (assert_current d url s).1 ≡ handles s)
  unfolding migrate_up migrate_down print_status assert_current
  migrations_close url s = (
    with_goose-handles url _ s
        (λ n. Keeps-bind _ _ (Keeps-or_fail _ _ (keeps n _ laws.up-keeps)) λ x. Keeps-pure tt),
    with_goose-handles url _ s
        (λ n. Keeps-bind _ _ (Keeps-or_fail _ _ (keeps n _ laws.down-keeps)) λ x. Keeps-pure tt),
    with_goose-handles url _ s (λ n. Keeps-bind _ _ (status_body n) λ x. Keeps-pure tt),
    with_goose-handles url _ s
        (λ n. Keeps-bind _ _ (status_body n) λ ms. raise_pending-Keeps n (pending ms)),
  )
