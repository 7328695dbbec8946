-- ===== src/Redis.antt =====
-- internal/rds/rds.go: refresh tokens, bans, the rate limit, the idempotency claim and the Daraja token.
-- The client go-redis and the server behind it are a parameter, a record of the commands that the
-- source sends; Redis.Laws states what the code relies on. The prefix `bs:ev` of push messages is left
-- out with the push messages.
pub mod Counters
pub mod Laws
pub mod Memory
pub mod Effects
pub mod Limits
pub mod Claims
pub mod Values
pub mod Store
mod Tests
use braelaspin.Prelude.{
  span, skip_blanks, scan_sign, ℕ, ℤ, pos, suc, Bool, true, false, not, Option, none, some, Text,
  codes, List, [], ◌∷◌, ◌++◌, decimal, Result, ok, err, ltb_ℤ, leb_ℤ, eqb_ℤ, if◌then◌else◌, ◌==◌,
  ◌||◌, ◌*◌, ltb, is_digit, is_space, is_empty, parse_int,
}
use braelaspin.Calls.{Call, ◌>>=◌, ◌>>◌, pure, fail, or_fail}

-- The error of a command: redis.Nil, where there is no such key, or another one.
pub data RedisError : Type 0 where
  nil_reply redis_failed : RedisError

abbrev pub Command : Type 0 → Type 0 → Type 0
Command S A = Call S RedisError A

-- The commands that the source sends, each with the methods of go-redis that it stands for.
pub record Redis (S : Type 0) : Type 0 where
  -- Get, GetDel
  pub get : Text → Command S Text
  pub getdel : Text → Command S Text
  -- Set, SetNX, with the time to live in nanoseconds
  pub set : Text → Text → ℤ → Command S Unit
  pub setnx : Text → Text → ℤ → Command S Bool
  -- Del, whose count the source drops, and Exists
  pub del : Text → Command S Unit
  pub exists : Text → Command S ℤ
  -- TxPipeline with Incr and ExpireNX, executed: the value of Incr
  pub incr_expire_nx : Text → ℤ → Command S ℤ
  -- TTL, in nanoseconds, negative where the key has none
  pub ttl : Text → Command S ℤ

pub data RdsError : Type 0 where
  -- ErrNotFound
  key_not_found : RdsError
  malformed : Text → RdsError
  redis : RedisError → RdsError

-- errors.Is(err, redis.Nil)
unfoldable pub nil_as_not_found : RedisError → RdsError
nil_as_not_found nil_reply = key_not_found
nil_as_not_found redis_failed = redis redis_failed

-- rtKey
unfoldable pub rt_key : Text → Text
rt_key jti = codes "rt:" ++ jti

-- fmt.Sprintf("%d|%s", userID, family)
unfoldable pub refresh_value : ℤ → Text → Text
refresh_value user_id family = decimal user_id ++ (b'|' ∷ family)

-- %s: one word
unfoldable pub scan_word : Text → Option Text
scan_word s = elim (skip_blanks s) [
  | none ↦ none
  | some t ↦
      (if is_empty (span (λ c. not (is_space c)) t).0
        then none
        else some (span (λ c. not (is_space c)) t).0)
]

-- |%s
unfoldable pub scan_family : ℤ → Text → Option (ℤ × Text)
scan_family user_id [] = none
scan_family user_id (c ∷ s) =
    if c == b'|' then elim (scan_word s) [ none ↦ none | some f ↦ some (user_id, f) ] else none

abbrev pub scan_digits : Text × Text → Option (ℤ × Text)
scan_digits (sign, s) = elim (parse_int (sign ++ (span is_digit s).0)) [
  | none ↦ none
  | some n ↦ scan_family n (span is_digit s).1
]

-- fmt.Sscanf(v, "%d|%s", &userID, &family)
unfoldable pub scan_refresh : Text → Option (ℤ × Text)
scan_refresh v = elim (skip_blanks v) [ none ↦ none | some s ↦ scan_digits (scan_sign s) ]

abbrev pub scanned : {S : Type 0} → Text → Option (ℤ × Text) → Call S RdsError (ℤ × Text)
scanned v none = fail (malformed v)
scanned v (some r) = pure r

unfoldable pub parse_refresh : {S : Type 0} → Text → Call S RdsError (ℤ × Text)
parse_refresh v = scanned v (scan_refresh v)

-- fmt.Sprintf("uban:%d", userID)
unfoldable pub ban_key : ℤ → Text
ban_key user_id = codes "uban:" ++ decimal user_id

-- fmt.Sprintf("rl:%s:%s", action, subject)
unfoldable pub limit_key : Text → Text → Text
limit_key action subject = codes "rl:" ++ (action ++ (b':' ∷ subject))

-- idemKey
unfoldable pub idem_key : ℤ → Text → Text
idem_key user_id client_ref = codes "idem:" ++ (decimal user_id ++ (b':' ∷ client_ref))

-- time.Second
abbrev pub second : ℕ
second = 1000000000

module _ {S : Type 0} (r : Redis S) where
  -- PutRefresh
  unfoldable pub put_refresh : Text → ℤ → Text → ℤ → Call S RdsError Unit
  put_refresh jti user_id family ttl =
      or_fail (r.set (rt_key jti) (refresh_value user_id family) ttl) redis

  -- GetRefresh
  unfoldable pub get_refresh : Text → Call S RdsError (ℤ × Text)
  get_refresh jti = or_fail (r.get (rt_key jti)) nil_as_not_found >>= parse_refresh

  -- DelRefresh
  unfoldable pub del_refresh : Text → Call S RdsError Unit
  del_refresh jti = or_fail (r.del (rt_key jti)) redis

  -- ConsumeRefresh
  unfoldable pub consume_refresh : Text → Call S RdsError (ℤ × Text)
  consume_refresh jti = or_fail (r.getdel (rt_key jti)) nil_as_not_found >>= parse_refresh

  -- BanUser, IsBanned, UnbanUser
  unfoldable pub ban_user : ℤ → ℤ → Call S RdsError Unit
  ban_user user_id ttl = or_fail (r.set (ban_key user_id) (codes "1") ttl) redis

  unfoldable pub is_banned : ℤ → Call S RdsError Bool
  is_banned user_id = do n ← or_fail (r.exists (ban_key user_id)) redis; pure (ltb_ℤ (pos 0) n)

  unfoldable pub unban_user : ℤ → Call S RdsError Unit
  unban_user user_id = or_fail (r.del (ban_key user_id)) redis
