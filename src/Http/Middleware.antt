-- ===== src/Http/Middleware.antt =====
-- internal/httpx/middleware.go: request ids, the client's address, the bearer token, the admin gate and the
-- rate limit. A handler further in is a function from a state to a response and a state.
use braelaspin.Prelude.{
  ℕ, ℤ, pos, ◌+◌, Bool, true, false, not, ◌&&◌, ◌||◌, Option, none, some, Text, codes, List, [],
  ◌∷◌, decimal, trim, is_empty, split, byte_length, take, drop, length, ltb, leb, ◌==◌, quot, add64,
  Result, ok, err, if◌then◌else◌,
}
use braelaspin.Redis.{Redis, second}
use braelaspin.Redis.Counters.{Admission, allow}
use braelaspin.Tokens.{
  Site, Jwt, Claims, TokenService, TokenError, user_suspended, token_invalid, user_id_of, on_redis,
  verify_access, hex,
}
use braelaspin.Http.{
  Response, Failure, api, err_unauthorized, err_forbidden, err_internal, err_rate_limited, errorf,
  with_cause, with_meta, of_tokens, respond_failure,
}

abbrev pub Handler : Type 0 → Type 0 → Type 0
Handler S A = S → Response A × S

-- the id of WithRequestID: the client's, or the hex of eight random bytes
unfoldable pub request_id : Text → Text → Text
request_id header random =
    if is_empty header || ltb 64 (byte_length header) then hex random else header

-- isTrusted, with net.ParseIP and IPNet.Contains as parameters
unfoldable pub is_trusted :
    {Ip Net : Type 0} → (Text → Option Ip) → (Net → Ip → Bool) → Text → List Net → Bool
is_trusted parse contains ip nets = elim (parse ip) [
  | none ↦ false
  | some a ↦ any_of (λ n. contains n a) nets
]
  where
    any_of : {Net : Type 0} → (Net → Bool) → List Net → Bool
    any_of p [] = false
    any_of p (n ∷ ns) = p n || any_of p ns

-- peerIP, with net.SplitHostPort as a parameter
unfoldable pub peer_ip : (Text → Option Text) → Text → Text
peer_ip split remote_addr = elim (split remote_addr) [ none ↦ remote_addr | some host ↦ host ]

abbrev first_of : List Text → Text
first_of [] = []
first_of (x ∷ xs) = x

-- the address of WithRealIP, from the peer's address, the trust in it, and the two headers
unfoldable pub real_ip : Text → Bool → Text → Text → Text
real_ip peer trusted forwarded_for real =
    let first = trim (first_of (split b',' forwarded_for)) in
    if not trusted
    then peer
    else if not (is_empty forwarded_for)
    then (if is_empty first then peer else first)
    else if is_empty (trim real)
    then peer
    else trim real

abbrev lower : ℕ → ℕ
lower c = if leb b'A' c && leb c b'Z' then c + 32 else c

abbrev fold_eq : Text → Text → Bool
fold_eq [] [] = true
fold_eq [] (d ∷ t) = false
fold_eq (c ∷ s) [] = false
fold_eq (c ∷ s) (d ∷ t) = lower c == lower d && fold_eq s t

-- bearer
unfoldable pub bearer : Text → Text
bearer h = if ltb 7 (length h) && fold_eq (take 7 h) (codes "Bearer ") then trim (drop 7 h) else []

-- statusWriter: the status and the bytes written so far
pub record Written : Type 0 where
  pub status : ℕ
  pub bytes : ℕ

unfoldable pub write_header : ℕ → Written → Written
write_header code w = record w { status = if w.status == 0 then code else w.status }

unfoldable pub write : ℕ → Written → Written
write n w = record { status = if w.status == 0 then 200 else w.status; bytes = w.bytes + n }

-- UserID: of the claims in the context, 0 without
unfoldable pub user_id : Option Claims → ℤ
user_id none = pos 0
user_id (some c) = elim (user_id_of c) [ none ↦ pos 0 | some id ↦ id ]

-- how RequireAuth answers an error of VerifyAccess
unfoldable pub auth_failure : TokenError → Failure
auth_failure user_suspended = api (
    with_cause (of_tokens user_suspended) (
      errorf 403 (codes "account_suspended")
        (codes "This account has been suspended. Contact support.")))
auth_failure token_invalid = api (with_cause (of_tokens token_invalid) err_unauthorized)
auth_failure e = api (with_cause (of_tokens e) err_internal)

abbrev pub admit_claims :
    {S A : Type 0}
    → Text
    → (Claims → Handler (Site S) A)
    → Result TokenError Claims × Site S
    → Response A × Site S
admit_claims rid next (ok claims, t) = next claims t
admit_claims rid next (err e, t) = (respond_failure rid (auth_failure e), t)

-- RequireAuth, from the header Authorization
unfoldable pub require_auth :
    {S A : Type 0}
    → Redis S
    → Jwt
    → TokenService
    → Text
    → Text
    → (Claims → Handler (Site S) A)
    → Handler (Site S) A
require_auth r jwt s rid header next t =
    if is_empty (bearer header)
    then (respond_failure rid (api err_unauthorized), t)
    else admit_claims rid next (verify_access r jwt s (bearer header) t)

-- RequireAdmin
unfoldable pub require_admin : {S A : Type 0} → Text → Option Claims → Handler S A → Handler S A
require_admin rid none next t = (respond_failure rid (api err_forbidden), t)
require_admin rid (some c) next t =
    if c.is_admin then next t else (respond_failure rid (api err_forbidden), t)

-- RateLimitSpec
pub record RateLimitSpec : Type 0 where
  pub action : Text
  pub limit : ℤ
  pub window : ℤ
  pub by_user : Bool

-- whom the limit counts
unfoldable pub subject_of : RateLimitSpec → Text → Option Claims → Text
subject_of spec ip claims =
    if spec.by_user && not (is_zero (user_id claims)) then b'u' ∷ decimal (user_id claims) else ip
  where
    is_zero : ℤ → Bool
    is_zero (pos n) = n == 0
    is_zero z = false

-- int(retryAfter.Seconds())+1; for windows of up to an hour the float is exact enough to truncate right
unfoldable pub retry_seconds : ℤ → ℤ
retry_seconds d = add64 (quot d (pos second)) (pos 1)

abbrev pub limited :
    {S E A : Type 0} → Text → Handler (Site S) A → Result E Admission × Site S → Response A × Site S
limited rid next (err e, t) = next t
limited rid next (ok a, t) = if a.admitted then next t else (
  respond_failure rid (
      api (with_meta (codes "retry_after_seconds") (retry_seconds a.retry_after) err_rate_limited)),
  t,
)

-- RateLimit
unfoldable pub rate_limit :
    {S A : Type 0}
    → Redis S
    → RateLimitSpec
    → Text
    → Text
    → Option Claims
    → Handler (Site S) A
    → Handler (Site S) A
rate_limit r spec rid ip claims next t =
    limited rid next
      (on_redis (allow r spec.action (subject_of spec ip claims) spec.limit spec.window) t)
