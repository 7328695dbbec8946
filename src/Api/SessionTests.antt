-- ===== src/Api/SessionTests.antt =====
-- internal/api/auth.go: the theorems on register and login at concrete inputs.
use braelaspin.Prelude.{
  err, false, ◌≡◌, refl, arith, has_prefix, trim, ◌+ℤ◌, none, some, Text, [], ◌∷◌, codes, ok, pos,
  true, false, text_eq, is_space, digits_value, parse_int, span, skip_blanks, scan_sign, split,
}
use braelaspin.Calls.{◌>>=◌, or_fail, on_part}
use braelaspin.Redis.Memory.{Memory, memory, nothing}
use braelaspin.Wallet.Samples.{start}
use braelaspin.Tokens.{
  allow_again, issue, issue_with_family, issue_at, random_id, hex, claims_for, Site, Jwt,
  TokenService,
}
use braelaspin.Phone.{normalise, clean_up, national_part, with_country, pretty}
use braelaspin.Wallet.{move}
use braelaspin.Wallet.Statements.{update_wallet, insert_entry}
use braelaspin.Database.Monad.{in_transaction, run_statement}
use braelaspin.Redis.{put_refresh, unban_user}
use braelaspin.Users.Statements.{select_by_phone, find_phone, insert_user, insert_wallet}
use braelaspin.Users.{
  by_phone, create, create_loop, create_once, create_body, new_ref_code, resolve_referrer, welcome,
}
use braelaspin.Http.{serve, decoded, json, Response}
use braelaspin.Passwords.{
  bad_hash, validate_password, hash_password, hash_salted, verify_parts, expect, scan_version,
  scan_unsigned, scan_params, phc_text, default_argon2_params, verify_password,
}
use braelaspin.Passwords.Base64.{decode, groups, joined}
use braelaspin.Passwords.Samples.{argon2, argon2-IsArgon2}
use braelaspin.Database.{User}
use braelaspin.Passwords.Verified.{InRange}
use braelaspin.Api.Sessions.{
  find_account, SessionResp, session, RegisterReq, Server, register, login, grant,
}
use braelaspin.Api.Accounts.{user_dto}
use braelaspin.Api.Login.{IsSteady, Accepted, refusal, login_tells_nothing}
use braelaspin.Api.Entry.{Admitted, login_needs_password}
use braelaspin.Api.Register.{AreBytes, credentials, registered_can_log_in}

abbrev server : Server
server = record {
  base_url = codes "https://example.org";
  demo_grant_cents = pos 1000000;
  argon = record { time_cost = 3; memory_kib = 64; threads = 2; salt_length = 2; key_length = 2 };
  dummy_hash = codes "dummy";
}

abbrev service : TokenService
service = record {
  secret = codes "secret";
  issuer = codes "braelaspin";
  access_ttl = pos 900000000000;
  refresh_ttl = pos 2592000000000000;
}

abbrev jwt : Jwt
jwt = record {
  numeric_date = λ z. z;
  sign = λ c k. some (codes "access");
  parse = λ raw k i now. none;
}

abbrev newcomer : RegisterReq
newcomer = record { phone = codes "0799 999 999"; password = codes "correct horse"; ref_code = [] }

abbrev site : Site Memory
site = record {
  redis_state = nothing;
  world = start;
  clock = pos 0;
  entropy = some (codes "ab") ∷ some (1 ∷ []) ∷ some (2 ∷ []) ∷ [];
}

stranger : ¬ Accepted argon2 start.db.users (credentials newcomer)
unfolding normalise clean_up national_part with_country trim is_space text_eq
stranger k =
    let number : normalise (codes "0799 999 999") ≡ ok (codes "254799999999") = refl in
    let same : k.phone ≡ codes "254799999999" = let it = k.numbered in cc in
    let missing : find_phone (codes "254799999999") start.db.users ≡ none = refl in
    let found = rw same at k.found in absurd (cc)

steady : IsSteady argon2 server.dummy_hash start.db.users (credentials newcomer)
unfolding normalise clean_up national_part with_country trim is_space text_eq verify_password split
steady = record {
  dummy_hash = λ e.
      (let v : verify_password argon2 (codes "correct horse") (codes "dummy") ≡ err bad_hash =
          refl in
        cc);
  stored_hash = λ phone u n f.
      let number : normalise (codes "0799 999 999") ≡ ok (codes "254799999999") = refl in
      let same : phone ≡ codes "254799999999" = cc in
      let missing : find_phone (codes "254799999999") start.db.users ≡ none = refl in
      let found = rw same at f in absurd (cc);
}

login_tells_nothing_example :
    serve (codes "r1") (login memory jwt service argon2 server (some (credentials newcomer))) site
    ≡ (refusal (codes "r1"), site)
login_tells_nothing_example =
    login_tells_nothing memory jwt service argon2 server site refl (codes "r1")
      (credentials newcomer) steady stranger

abbrev registered : Site Memory
registered =
    (register memory jwt service argon2 server (λ n. some (1, 2, 3, 4, n)) (some newcomer) site).1

abbrev welcome_reply : Response SessionResp
welcome_reply = json 201 (record {
  access = codes "access";
  refresh = codes "02";
  access_expires_at = pos 900000000000;
  refresh_expires_at = pos 2592000000000000;
  user = record {
    id = 4;
    phone = codes "254799999999";
    phone_display = codes "0799 999 999";
    ref_code = codes "04106104";
    ref_link = codes "https://example.org/r/04106104";
    phone_verified = false;
    is_admin = false;
  };
})

register_runs :
    register memory jwt service argon2 server (λ n. some (1, 2, 3, 4, n)) (some newcomer) site
    ≡ (ok welcome_reply, registered)
unfolding register decoded normalise clean_up national_part with_country trim is_space text_eq
    validate_password hash_password hash_salted phc_text default_argon2_params create create_loop
    create_once create_body new_ref_code resolve_referrer insert_user insert_wallet welcome move
    update_wallet insert_entry in_transaction run_statement session user_dto issue issue_with_family
    issue_at random_id hex claims_for put_refresh ◌>>=◌ or_fail on_part pretty
    braelaspin.Database.Monad.◌>>=◌ ◌+ℤ◌ has_prefix
register_runs = refl

registered_calm : registered.world.answers ≡ []
unfolding register decoded normalise clean_up national_part with_country trim is_space text_eq
    validate_password hash_password hash_salted phc_text default_argon2_params create create_loop
    create_once create_body new_ref_code resolve_referrer insert_user insert_wallet welcome move
    update_wallet insert_entry in_transaction run_statement session user_dto issue issue_with_family
    issue_at random_id hex claims_for put_refresh ◌>>=◌ or_fail on_part pretty
    braelaspin.Database.Monad.◌>>=◌ ◌+ℤ◌ has_prefix
registered_calm = refl

site_bytes : AreBytes site.entropy
site_bytes = ground arith

server_fits : InRange server.argon
server_fits = record {
  time_fits = omega arith;
  memory_fits = omega arith;
  threads_fit = omega arith;
  key_fits = omega arith;
}

abbrev later : Site Memory
later = record registered { clock = pos 1 }

abbrev newcomer_row : User
newcomer_row = record {
  id = 4;
  phone = codes "254799999999";
  password_hash = codes "$argon2id$v=19$m=64,t=3,p=2$YWI$9vY";
  ref_code = codes "04106104";
  referred_by = none;
  phone_verified = false;
  is_admin = false;
  is_active = true;
  demo_topup_at = none;
  created_at = 1000;
}

registered_can_log_in_example :
    (u : User) × (phone : Text) × (normalise (codes "0799 999 999") ≡ ok phone)
    × (find_phone phone registered.world.db.users ≡ some u)
    × (login memory jwt service argon2 server (some (credentials newcomer)) later
        ≡ grant memory jwt service argon2 server u later)
registered_can_log_in_example =
    registered_can_log_in memory jwt service argon2-IsArgon2 server server_fits newcomer
      (λ n. some (1, 2, 3, 4, n)) site registered later welcome_reply site_bytes register_runs refl
      registered_calm

-- the same account, in the tables from the start
abbrev known : Site Memory
known = record site {
  world = record start { db = record start.db { users = newcomer_row ∷ [] } };
  entropy = some (1 ∷ []) ∷ some (2 ∷ []) ∷ [];
}

abbrev entered : Site Memory
entered = (login memory jwt service argon2 server (some (credentials newcomer)) known).1

abbrev login_reply : Response SessionResp
login_reply = json 200 (record {
  access = codes "access";
  refresh = codes "02";
  access_expires_at = pos 900000000000;
  refresh_expires_at = pos 2592000000000000;
  user = record {
    id = 4;
    phone = codes "254799999999";
    phone_display = codes "0799 999 999";
    ref_code = codes "04106104";
    ref_link = codes "https://example.org/r/04106104";
    phone_verified = false;
    is_admin = false;
  };
})

login_runs :
    login memory jwt service argon2 server (some (credentials newcomer)) known
    ≡ (ok login_reply, entered)
unfolding login decoded normalise clean_up national_part with_country trim is_space text_eq
    find_account by_phone select_by_phone run_statement verify_password verify_parts split expect
    scan_version scan_unsigned scan_params skip_blanks scan_sign span digits_value parse_int decode
    groups joined grant allow_again session user_dto has_prefix pretty issue issue_with_family
    issue_at random_id hex claims_for put_refresh ◌>>=◌ or_fail on_part
    braelaspin.Database.Monad.◌>>=◌ ◌+ℤ◌ unban_user
login_runs = refl

login_needs_password_example : Admitted argon2 known.world.db.users (credentials newcomer)
login_needs_password_example =
    login_needs_password memory jwt service argon2 server (credentials newcomer) known entered
      login_reply login_runs

abbrev barred : Site Memory
barred = record known {
  world = record start {
    db = record start.db { users = (record newcomer_row { is_active = false }) ∷ [] };
  };
}

abbrev barred_accepted : Accepted argon2 barred.world.db.users (credentials newcomer)
unfolding normalise clean_up national_part with_country trim is_space text_eq has_prefix
    verify_password verify_parts split expect scan_version scan_unsigned scan_params skip_blanks
    scan_sign span digits_value parse_int decode groups joined
barred_accepted = record {
  phone = codes "254799999999";
  user = record newcomer_row { is_active = false };
  numbered = refl;
  found = refl;
  matches = refl;
}
