-- ===== src/Api/Tests.antt =====
-- internal/api: the theorems at concrete inputs.
use braelaspin.Prelude.{
  ℕ, pos, ◌≡◌, refl, ap, true, none, some, Option, List, [], ◌∷◌, ◌++◌, codes, Text, ok, err, arith,
  text_eq, decimal, digits_from, byte_length, ◌⊎◌,
}
use braelaspin.Calls.{◌>>=◌, or_fail, on_part, ignore}
use braelaspin.Database.{SpinRow}
use braelaspin.Database.Returns.{Returns}
use braelaspin.Wallet.Samples.{start}
use braelaspin.Spin.{SpinResult, spin}
use braelaspin.Spin.Samples.{econ, econ-IsSoundEconomics, request, bytes, source, request_covered}
use braelaspin.Spin.Covered.{spin_returns, Settled}
use braelaspin.Redis.{idem_key, redis, redis_failed, del_refresh}
use braelaspin.Redis.Counters.{claim, store}
use braelaspin.Redis.Memory.{Memory, memory, memory-IsRedis, nothing}
use braelaspin.Tokens.{Site, TokenService, Jwt, revoke, token_reused, redis_error}
use braelaspin.Http.{raw, no_content, decoded}
use braelaspin.Api.{matching, page, spins_page, select_spins}
use braelaspin.Database.Newest.{AreDistinct, newest_first, put_in}
use braelaspin.Api.Pages.{rest_of, spins_page_follows}
use braelaspin.Api.Spins.{SpinReq, spin_handler, claim_and_spin, claimed, after_spin, respond}
use braelaspin.Api.Retry.{IsReplay, retry_plays_nothing}
use braelaspin.Api.Accounts.{
  logout_handler, refresh_handler, logout_ends_session, session_expired, token_failure,
}

abbrev row : ℕ → ℕ → SpinRow
row id user_id = record {
  id = id;
  user_id = user_id;
  is_real = true;
  stake_cents = pos 500;
  segment_index = 1;
  multiplier_bp = pos 0;
  payout_cents = pos 0;
  rake_cents = pos 25;
  client_ref = [];
  created_at = 0;
}

abbrev rows : List SpinRow
rows = row 4 1 ∷ row 9 1 ∷ row 7 2 ∷ row 6 1 ∷ []

rows-AreDistinct : AreDistinct (λ (s : SpinRow). s.id) rows
rows-AreDistinct = ground arith

spins_page_follows_example :
    (spins_page 1 none 2 rows).items ++ rest_of 1 rows (spins_page 1 none 2 rows).next_cursor
    ≡ select_spins 1 none rows
spins_page_follows_example = spins_page_follows 1 2 rows rows-AreDistinct (omega arith)

second_page : (spins_page 1 none 2 rows).next_cursor ≡ some (pos 6)
unfolding spins_page page matching newest_first put_in
second_page = refl

-- a spin that is played, and a retry of it with another stake
abbrev site : Site Memory
site = record { redis_state = nothing; world = start; clock = pos 0; entropy = [] }

abbrev encode : SpinResult → Option Text
encode r = some (codes "{}")

abbrev ask : SpinReq
ask = record { stake_cents = pos 10000; is_real = true; client_ref = codes "ref" }

abbrev ask_again : SpinReq
ask_again = record ask { stake_cents = pos 50000 }

abbrev played : Site Memory
played = (spin_handler memory econ encode source 1 (some ask) site).1

settled :
    Returns
      (spin econ source request)
      start
      (λ r w. Settled request bytes request_covered.avail 4 r)
settled = spin_returns econ request start bytes econ-IsSoundEconomics request_covered

answered : (spin_handler memory econ encode source 1 (some ask) site).0 ≡ ok (raw 200 (codes "{}"))
unfolding spin_handler claim_and_spin claimed after_spin respond decoded ◌>>=◌ or_fail on_part
    ignore claim store idem_key text_eq decimal digits_from byte_length
answered = rw settled.runs refl

retry_plays_nothing_example :
    let y = spin_handler memory econ encode none 1 (some ask_again) played in
    (y.1.world ≡ played.world) × IsReplay (codes "{}") y.0
retry_plays_nothing_example =
    retry_plays_nothing memory-IsRedis econ encode source none 1 ask ask_again site played played
      (codes "{}") (ap (λ z. (z, played)) answered) refl refl

abbrev service : TokenService
service = record {
  secret = codes "secret";
  issuer = codes "braelaspin";
  access_ttl = pos 900000000000;
  refresh_ttl = pos 2592000000000000;
}

abbrev jwt : Jwt
jwt = record { numeric_date = λ z. z; sign = λ c k. none; parse = λ raw k i now. none }

abbrev logged_out : Site Memory
logged_out = (logout_handler memory jwt service (some (codes "ab")) site).1

log_out_answers :
    logout_handler memory jwt service (some (codes "ab")) site ≡ (ok (no_content 204), logged_out)
unfolding logout_handler revoke decoded ◌>>=◌ or_fail on_part del_refresh
log_out_answers = refl

logout_ends_session_example :
    ((refresh_handler memory jwt service (some (codes "ab")) logged_out).0
      ≡ err (session_expired token_reused))
    ⊎ ((refresh_handler memory jwt service (some (codes "ab")) logged_out).0
        ≡ err (token_failure (redis_error (redis redis_failed))))
logout_ends_session_example =
    logout_ends_session memory jwt service memory-IsRedis b'a' (b'b' ∷ []) site logged_out
      logged_out (no_content 204) log_out_answers refl
