-- ===== src/Tokens/Tests.antt =====
-- internal/auth/token.go: the theorems at concrete inputs.
use braelaspin.Prelude.{
  span, skip_blanks, scan_sign, pos, ◌≡◌, ◌≢◌, refl, false, some, none, [], ◌∷◌, Text, codes, ok,
  arith, text_eq, if◌then◌else◌, decimal, digits_from, is_space, parse_int, digits_value, ◌+ℤ◌,
}
use braelaspin.Calls.{◌>>=◌, or_fail, on_part}
use braelaspin.Redis.{
  rt_key, ban_key, refresh_value, nil_as_not_found, parse_refresh, scan_refresh, scan_family,
  scan_word, put_refresh, del_refresh, consume_refresh, ban_user, is_banned,
}
use braelaspin.Redis.Memory.{Memory, memory, memory-IsRedis, nothing}
use braelaspin.Wallet.Samples.{start}
use braelaspin.Tokens.{
  Site, Jwt, Claims, Tokens, TokenService, consume_error, random_id, hex, look_up, claims_for,
  issue_at, issue_with_family, check_ban, rotate, revoke, revoke_all, verify_access, user_id_of,
}
use braelaspin.Tokens.Rotation.{IsRefused, rotates_once}
use braelaspin.Tokens.Suspension.{revoke_all_locks_out}

abbrev service : TokenService
service = record {
  secret = codes "secret";
  issuer = codes "braelaspin";
  access_ttl = pos 900000000000;
  refresh_ttl = pos 2592000000000000;
}

abbrev seven : Claims
seven = record {
  subject = codes "7";
  issuer = codes "braelaspin";
  issued_at = pos 0;
  not_before = pos 0;
  expires_at = pos 900;
  is_admin = false;
}

abbrev eight : Claims
eight = record seven { subject = codes "8" }

abbrev jwt : Jwt
jwt = record {
  numeric_date = λ z. z;
  sign = λ c k. some (codes "access");
  parse = λ raw k i now. some eight;
}

abbrev token : Text
token = codes "ab"

abbrev logged_in : Memory
logged_in = record nothing {
  held = λ k. if text_eq k (codes "rt:ab") then some (codes "7|f") else none;
}

abbrev open_site : Site Memory
open_site = record {
  redis_state = logged_in;
  world = start;
  clock = pos 100;
  entropy = some (1 ∷ []) ∷ [];
}

abbrev pair : Tokens
pair = record {
  access = codes "access";
  refresh = codes "01";
  access_expires_at = pos 900000000100;
  refresh_expires_at = pos 2592000000000100;
}

abbrev rotated : Site Memory
rotated = (rotate memory jwt service token none open_site).1

rotate_runs : rotate memory jwt service token none open_site ≡ (ok pair, rotated)
unfolding rotate issue_at issue_with_family check_ban look_up claims_for random_id hex consume_error
    ◌>>=◌ or_fail on_part put_refresh consume_refresh is_banned rt_key ban_key refresh_value
    nil_as_not_found parse_refresh scan_refresh scan_family scan_word scan_sign skip_blanks span
    parse_int digits_value is_space decimal digits_from text_eq ◌+ℤ◌
rotate_runs = refl

pair_is_new : pair.refresh ≢ token
pair_is_new h = absurd (ground arith)

rotates_once_example : IsRefused (rotate memory jwt service token none rotated).0
rotates_once_example =
    rotates_once memory-IsRedis jwt service token none none open_site rotated rotated pair
      rotate_runs pair_is_new refl

abbrev logged_out : Site Memory
logged_out = (revoke memory jwt service token open_site).1

revoke_runs : revoke memory jwt service token open_site ≡ (ok tt, logged_out)
unfolding revoke or_fail on_part del_refresh
revoke_runs = refl

-- user 7 is locked out, and the token of user 8 is still good
abbrev locked_out : Site Memory
locked_out = (revoke_all memory jwt service (pos 7) open_site).1

revoke_all_runs : revoke_all memory jwt service (pos 7) open_site ≡ (ok tt, locked_out)
unfolding revoke_all or_fail on_part ban_user
revoke_all_runs = refl

eight_accepted :
    verify_access memory jwt service (codes "access") locked_out ≡ (ok eight, locked_out)
unfolding verify_access revoke_all user_id_of check_ban is_banned ban_user ◌>>=◌ or_fail on_part
    ban_key text_eq parse_int digits_value decimal digits_from
eight_accepted = refl

revoke_all_locks_out_example : user_id_of eight ≢ some (pos 7)
revoke_all_locks_out_example =
    revoke_all_locks_out memory-IsRedis jwt service (pos 7) (codes "access") eight open_site
      locked_out locked_out locked_out revoke_all_runs refl eight_accepted
