-- ===== src/Redis/Laws.antt =====
-- internal/rds/rds.go: what the code relies on of Redis. A state is seen as the value that each key
-- holds; for the counters, as the number that INCR would read. Any command may fail. The key of a command
-- does not expire while the command runs; other keys may, at any command.
use braelaspin.Prelude.{
  ◌⊎◌, ℕ, ℤ, pos, suc, ◌≡◌, ◌≢◌, true, false, Option, none, some, Text, ok, err,
}
use braelaspin.Redis.{Redis, nil_reply, RedisError}

-- The view of a state of the server.
pub record View (S : Type 0) : Type 0 where
  pub holds : S → Text → Option Text
  pub hits : S → Text → ℕ

abbrev pub Absent : {S : Type 0} → View S → Text → S → Type 0
Absent v k s = v.holds s k ≡ none

-- The documented effect of each command, where it answers.
pub record IsRedis {S : Type 0} (r : Redis S) (v : View S) : Type 0 where
  pub get-some :
      (k t : Text) (s s' : S)
      → r.get k s ≡ (ok t, s')
      → (v.holds s k ≡ some t) × (v.holds s' k ≡ some t)
  pub get-none : (k : Text) (s s' : S) → r.get k s ≡ (err nil_reply, s') → v.holds s k ≡ none
  pub getdel-some :
      (k t : Text) (s s' : S)
      → r.getdel k s ≡ (ok t, s')
      → (v.holds s k ≡ some t) × (v.holds s' k ≡ none)
  pub set-holds :
      (k t : Text) (d : ℤ) (s s' : S) → r.set k t d s ≡ (ok tt, s') → v.holds s' k ≡ some t
  -- a Set that failed took effect, or did nothing
  pub set-failed :
      (k t : Text) (d : ℤ) (e : RedisError) (s s' : S)
      → r.set k t d s ≡ (err e, s')
      → (v.holds s' k ≡ some t) ⊎ (v.holds s' k ≡ v.holds s k)
  pub setnx-won :
      (k t : Text) (d : ℤ) (s s' : S)
      → r.setnx k t d s ≡ (ok true, s')
      → (v.holds s k ≡ none) × (v.holds s' k ≡ some t)
  pub setnx-lost :
      (k t : Text) (d : ℤ) (s s' : S)
      → r.setnx k t d s ≡ (ok false, s')
      → (v.holds s k ≢ none) × (v.holds s' k ≡ v.holds s k)
  pub del-gone : (k : Text) (s s' : S) → r.del k s ≡ (ok tt, s') → v.holds s' k ≡ none
  pub exists-zero : (k : Text) (s s' : S) → r.exists k s ≡ (ok (pos 0), s') → v.holds s k ≡ none
  pub exists-one :
      (k : Text) (n : ℕ) (s s' : S) → r.exists k s ≡ (ok (pos (suc n)), s') → v.holds s k ≢ none
  -- the count is never negative
  pub exists-count :
      (k : Text) (n : ℤ) (s s' : S) → r.exists k s ≡ (ok n, s') → (m : ℕ) × (n ≡ pos m)
  pub incr-counts :
      (k : Text) (n d : ℤ) (s s' : S)
      → r.incr_expire_nx k d s ≡ (ok n, s')
      → (n ≡ pos (suc (v.hits s k))) × (v.hits s' k ≡ suc (v.hits s k))
  -- TTL reads only
  pub ttl-reads : (k : Text) (s : S) → v.hits (r.ttl k s).1 k ≡ v.hits s k
  -- a key that was not there is not there after a command on another one
  pub set-other :
      (k k' t : Text) (d : ℤ) (s : S)
      → k' ≢ k
      → v.holds s k' ≡ none
      → v.holds (r.set k t d s).1 k' ≡ none
  pub exists-other :
      (k k' : Text) (s : S) → v.holds s k' ≡ none → v.holds (r.exists k s).1 k' ≡ none
