-- ===== src/Config/Accepted.antt =====
-- internal/config/config.go: what settings that Load accepted guarantee.
use braelaspin.Prelude.{
  ℤ, pos, ap, ◌+ℤ◌, ◌-ℤ◌, ◌≤ℤ◌, ◌<ℤ◌, ◌≤◌, ◌≡◌, refl, true, false, List, [], ◌∷◌, ◌++◌, codes, All,
  Text, ok, err, arith, int_laws, parts_apart, add64, sub64, add64_exact, sub64_exact, leb_ℤ, ltb_ℤ,
  has_prefix, contains, byte_length, text_eq,
}
use braelaspin.Config.{
  Settings, load, accept, read_settings, check_settings, check_limits, check_production,
  check_origins, is_prod,
}
use braelaspin.Config.Read.{Grammar, Env, Problems, bp}

accept_lem : (c d : Settings) (probs : Problems) → accept c probs ≡ ok d → (c ≡ d) × (probs ≡ [])
unfolding accept
accept_lem c d [] h = (ap (λ r. elim r [ ok e ↦ e | err p ↦ c ]) h, refl)
accept_lem c d (p ∷ probs) h = cc

both_empty : {A : Type 0} (xs ys : List A) → xs ++ ys ≡ [] → (xs ≡ []) × (ys ≡ [])
both_empty [] ys h = (refl, h)
both_empty (x ∷ xs) ys h = cc

-- Load returns settings only when neither a read nor a check reports a problem.
pub load_lem :
    (g : Grammar) (env : Env) (c : Settings)
    → load g env ≡ ok c
    → ((read_settings g env).0 ≡ c) × (check_settings c ≡ [])
unfolding load
load_lem g env c h =
    let r = read_settings g env in
    let a = accept_lem r.0 c (r.1 ++ check_settings r.0) h in
    (a.0, rw (← a.0) ((both_empty r.1 (check_settings r.0) a.1).1))

bp_in_range :
    (env : Env) (key : Text) (d : ℤ)
    → pos 0 ≤ℤ d
    → d ≤ℤ pos 10000
    → (pos 0 ≤ℤ (bp env key d).0) × ((bp env key d).0 ≤ℤ pos 10000)
unfolding bp
bp_in_range env key d h k = ground arith

-- What the game relies on.
pub record IsPlayable (c : Settings) : Type 0 where
  pub minimum : pos 0 <ℤ c.min_stake_cents
  pub limits : c.min_stake_cents ≤ℤ c.max_stake_cents
  pub rake : pos 0 ≤ℤ c.rake_bp
  pub referral : pos 0 ≤ℤ c.referral_bp
  pub shares : c.rake_bp +ℤ c.referral_bp ≤ℤ pos 10000
  pub edge : c.rtp_bp +ℤ (c.rake_bp +ℤ c.referral_bp) ≤ℤ pos 10000
  pub withdrawal : c.withdraw_fee_cents <ℤ c.min_withdraw_cents
  pub practice : c.rtp_bp ≤ℤ c.demo_rtp_bp

not_less : (a b : ℤ) → ltb_ℤ a b ≡ false → b ≤ℤ a
not_less a b h = ground (arith, parts_apart a, parts_apart b)

not_at_most : (a b : ℤ) → leb_ℤ a b ≡ false → b <ℤ a
not_at_most a b h = ground (arith, parts_apart a, parts_apart b)

-- The two checks that compute sums, on settings that are basis points.
edge_lem :
    (rtp rake referral : ℤ)
    → pos 0 ≤ℤ rtp
    → rtp ≤ℤ pos 10000
    → pos 0 ≤ℤ rake
    → rake ≤ℤ pos 10000
    → pos 0 ≤ℤ referral
    → referral ≤ℤ pos 10000
    → ltb_ℤ (sub64 (pos 10000) rtp) (add64 rake referral) ≡ false
    → (rake +ℤ referral ≤ℤ pos 10000) × (rtp +ℤ (rake +ℤ referral) ≤ℤ pos 10000)
edge_lem rtp rake referral a b c d e f h =
    let sum = add64_exact rake referral (omega (int_laws, parts_apart (rake +ℤ referral))) in
    let edge = sub64_exact (pos 10000) rtp (omega (int_laws, parts_apart (pos 10000 -ℤ rtp))) in
    let k : ltb_ℤ (pos 10000 -ℤ rtp) (rake +ℤ referral) ≡ false = rw (sum, edge) at h in
    let le = not_less (pos 10000 -ℤ rtp) (rake +ℤ referral) k in
    (
      omega (int_laws, parts_apart (rake +ℤ referral), parts_apart (pos 10000 -ℤ rtp)),
      omega (
        int_laws,
        parts_apart (rake +ℤ referral),
        parts_apart (pos 10000 -ℤ rtp),
        parts_apart (rtp +ℤ (rake +ℤ referral)),
      ),
    )

record PassedLimits (c : Settings) : Type 0 where
  minimum : leb_ℤ c.min_stake_cents (pos 0) ≡ false
  limits : ltb_ℤ c.max_stake_cents c.min_stake_cents ≡ false
  withdrawal : leb_ℤ c.min_withdraw_cents c.withdraw_fee_cents ≡ false
  practice : ltb_ℤ c.demo_rtp_bp c.rtp_bp ≡ false
  edge : ltb_ℤ (sub64 (pos 10000) c.rtp_bp) (add64 c.rake_bp c.referral_bp) ≡ false

check_limits-passed : (c : Settings) → check_limits c ≡ [] → PassedLimits c
unfolding check_limits
check_limits-passed c h = record {
  minimum = ground arith;
  limits = ground arith;
  withdrawal = ground arith;
  practice = ground arith;
  edge = ground arith;
}

record InPoints (c : Settings) : Type 0 where
  rtp : (pos 0 ≤ℤ c.rtp_bp) × (c.rtp_bp ≤ℤ pos 10000)
  rake : (pos 0 ≤ℤ c.rake_bp) × (c.rake_bp ≤ℤ pos 10000)
  referral : (pos 0 ≤ℤ c.referral_bp) × (c.referral_bp ≤ℤ pos 10000)

read-InPoints : (g : Grammar) (env : Env) → InPoints (read_settings g env).0
unfolding read_settings
read-InPoints g env = record {
  rtp = bp_in_range env (codes "RTP_BP") (pos 9000) (omega int_laws) (omega int_laws);
  rake = bp_in_range env (codes "RAKE_BP") (pos 500) (omega int_laws) (omega int_laws);
  referral = bp_in_range env (codes "REFERRAL_BP") (pos 200) (omega int_laws) (omega int_laws);
}

-- Every environment that Load accepts gives a positive minimum stake no larger than the maximum,
-- shares of at least 0 that together fit in the house edge, a smallest withdrawal above the fee, and
-- a practice return no smaller than the real one.
pub load-IsPlayable : (g : Grammar) (env : Env) (c : Settings) → load g env ≡ ok c → IsPlayable c
unfolding check_settings
load-IsPlayable g env c h =
    let l = load_lem g env c h in
    let p = check_limits-passed c (both_empty (check_limits c) _ l.1).0 in
    let r : InPoints c = let q = read-InPoints g env in rw l.0 at q in
    let e =
      edge_lem c.rtp_bp c.rake_bp c.referral_bp r.rtp.0 r.rtp.1 r.rake.0 r.rake.1 r.referral.0
        r.referral.1 p.edge in
    record {
      minimum = not_at_most c.min_stake_cents (pos 0) p.minimum;
      limits = not_less c.max_stake_cents c.min_stake_cents p.limits;
      rake = r.rake.0;
      referral = r.referral.0;
      shares = e.0;
      edge = e.1;
      withdrawal = not_at_most c.min_withdraw_cents c.withdraw_fee_cents p.withdrawal;
      practice = not_less c.demo_rtp_bp c.rtp_bp p.practice;
    }

abbrev IsPublicOrigin : Text → Type 0
IsPublicOrigin o =
    (has_prefix o (codes "http://") ≡ false) × (contains o (codes "localhost") ≡ false)

-- What the checks for production exclude.
record IsHardened (c : Settings) : Type 0 where
  secret : 32 ≤ byte_length c.jwt_secret
  live : text_eq c.mpesa_env (codes "production") ≡ true
  no_sandbox : contains c.mpesa_base_url (codes "sandbox") ≡ false
  no_migration : c.migrate_on_boot ≡ false
  encrypted : contains c.database_url (codes "sslmode=disable") ≡ false
  enforced : c.callback_ip_enforce ≡ true
  https : has_prefix c.base_url (codes "http://") ≡ false
  origins : All IsPublicOrigin c.cors_origins

origins_lem : (origins : List Text) → check_origins origins ≡ [] → All IsPublicOrigin origins
unfolding check_origins
origins_lem [] h = tt
origins_lem (o ∷ origins) h = ground (arith, origins_lem origins)

check_production-IsHardened : (c : Settings) → check_production c ≡ [] → IsHardened c
unfolding check_production
check_production-IsHardened c h = record {
  secret = ground arith;
  live = ground arith;
  no_sandbox = ground arith;
  no_migration = ground arith;
  encrypted = ground arith;
  enforced = ground arith;
  https = ground arith;
  origins = origins_lem c.cors_origins (ground arith);
}

-- Every environment that Load accepts for production has a signing secret of at least 32 bytes, the live
-- payment service, a database URL without sslmode=disable, a base URL that does not start with http://, no
-- origin that starts with http:// or contains localhost, the callback allowlist enforced and no migration
-- on boot.
load-IsHardened :
    (g : Grammar) (env : Env) (c : Settings) → load g env ≡ ok c → is_prod c ≡ true → IsHardened c
unfolding check_settings
load-IsHardened g env c h prod =
    let l = load_lem g env c h in
    check_production-IsHardened c (rw prod at (both_empty (check_limits c) _ l.1).1)
