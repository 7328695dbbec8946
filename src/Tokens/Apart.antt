-- ===== src/Tokens/Apart.antt =====
-- internal/auth/token.go: Issue leaves the database alone.
use braelaspin.Prelude.{ℤ, Bool, Option, none, some, Text, List, [], ◌∷◌}
use braelaspin.Database.Monad.{World}
use braelaspin.Calls.{Call, on_part}
use braelaspin.Calls.Keeps.{Keeps, Keeps-bind, Keeps-pure, Keeps-or_fail}
use braelaspin.Redis.{Redis}
use braelaspin.Tokens.{
  Site, Jwt, TokenService, TokenError, on_redis, or_error, random_id, next_id_bytes, issue_at,
  issue_with_family, issue,
}

module _ {S : Type 0} (P : World → Type 0) where
  abbrev Apart : Site S → Type 0
  Apart t = P t.world

  on_redis-Apart : {E A : Type 0} (m : Call S E A) → Keeps Apart (on_redis m)
  unfolding on_part
  on_redis-Apart m = record { at = λ t k. k }

  or_error-Apart : {A : Type 0} (e : TokenError) (o : Option A) → Keeps Apart (or_error e o)
  or_error-Apart e none = record { at = λ t k. k }
  or_error-Apart e (some x) = record { at = λ t k. k }

  next_id_bytes-Apart :
      (t : Site S) (l : List (Option Text)) → Apart t → Apart (next_id_bytes t l).1
  next_id_bytes-Apart t [] k = k
  next_id_bytes-Apart t (none ∷ l) k = k
  next_id_bytes-Apart t (some b ∷ l) k = k

  random_id-Apart : Keeps Apart random_id
  unfolding random_id
  random_id-Apart = record { at = λ t k. next_id_bytes-Apart t t.entropy k }

  ruleset apart_rules =
      (Keeps-bind, Keeps-pure, Keeps-or_fail, on_redis-Apart, or_error-Apart, random_id-Apart)

  module _ (r : Redis S) (jwt : Jwt) (s : TokenService) where
    issue_at-Apart :
        (user_id : ℤ) (is_admin : Bool) (family : Text) (now : ℤ)
        → Keeps Apart (issue_at r jwt s user_id is_admin family now)
    unfolding issue_at
    issue_at-Apart user_id is_admin family now = search apart_rules depth 12

    issue_with_family-Apart :
        (user_id : ℤ) (is_admin : Bool) (family : Text)
        → Keeps Apart (issue_with_family r jwt s user_id is_admin family)
    unfolding issue_with_family
    issue_with_family-Apart user_id is_admin family = record {
      at = λ t k. (issue_at-Apart user_id is_admin family t.clock).at t k;
    }

    pub issue-Apart : (user_id : ℤ) (is_admin : Bool) → Keeps Apart (issue r jwt s user_id is_admin)
    unfolding issue
    issue-Apart user_id is_admin = search (apart_rules, issue_with_family-Apart) depth 12
