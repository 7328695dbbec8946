-- ===== src/Http/Tests.antt =====
-- internal/httpx: the theorems at concrete inputs.
use braelaspin.Prelude.{
  pos, ◌≡◌, ◌≢◌, ◌↔◌, ◌⊎◌, false, some, none, [], ◌∷◌, List, Text, codes, trim_slashes,
}
use braelaspin.Redis.Memory.{Memory, memory, memory-IsRedis, nothing}
use braelaspin.Wallet.Samples.{start}
use braelaspin.Tokens.{Site, Jwt, Claims, TokenService}
use braelaspin.Http.{no_content}
use braelaspin.Http.Middleware.{Handler, require_auth}
use braelaspin.Http.Cors.{cors, granted, Listed, cors_allows}
use braelaspin.Http.Guarded.{Reached, IsTurnedAway, require_auth_guards}

abbrev origins : List Text
origins = codes "https://app.example/" ∷ []

cors_allows_example :
    (granted (cors origins (codes "https://app.example") false)
      ≡ some (codes "https://app.example"))
    ↔ ((trim_slashes (codes "https://app.example") ≡ codes "https://app.example")
        × (codes "https://app.example" ≢ [])
        × Listed origins (codes "https://app.example"))
cors_allows_example =
    cors_allows origins (codes "https://app.example") (codes "https://app.example") false

abbrev service : TokenService
service = record {
  secret = codes "secret";
  issuer = codes "braelaspin";
  access_ttl = pos 900000000000;
  refresh_ttl = pos 2592000000000000;
}

abbrev seven : Claims
seven = record {
  subject = codes "7";
  issuer = codes "braelaspin";
  issued_at = pos 0;
  not_before = pos 0;
  expires_at = pos 900;
  is_admin = false;
}

abbrev jwt : Jwt
jwt = record { numeric_date = λ z. z; sign = λ c k. none; parse = λ raw k i now. some seven }

abbrev site : Site Memory
site = record { redis_state = nothing; world = start; clock = pos 0; entropy = [] }

abbrev empty_answer : Claims → Handler (Site Memory) Unit
empty_answer c t = (no_content 204, t)

require_auth_guards_example :
    Reached memory-IsRedis jwt service site
      (codes "Bearer x")
      empty_answer
      (require_auth memory jwt service [] (codes "Bearer x") empty_answer site)
    ⊎ IsTurnedAway memory-IsRedis jwt service []
        (codes "Bearer x")
        site
        (require_auth memory jwt service [] (codes "Bearer x") empty_answer site)
require_auth_guards_example =
    require_auth_guards memory-IsRedis jwt service [] (codes "Bearer x") empty_answer site
