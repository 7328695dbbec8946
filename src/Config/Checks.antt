-- ===== src/Config/Checks.antt =====
-- internal/config/config.go: the settings, and the checks of Load across them.
use braelaspin.Prelude.{
  ℕ, ℤ, pos, Bool, not, ◌||◌, Text, List, [], ◌∷◌, ◌++◌, codes, ltb, ltb_ℤ, leb_ℤ, add64, sub64,
  has_prefix, contains, byte_length, text_eq, if◌then◌else◌,
}
use braelaspin.Config.Read.{
  Problem, Problems, below_the_other, above_the_other, not_positive, too_short, sandbox, unsafe,
}

-- Config
pub record Settings : Type 0 where
  pub env : Text
  pub http_addr : Text
  pub base_url : Text
  pub log_level : Text
  pub log_format : Text
  pub trusted_proxy_cidrs : List Text
  pub cors_origins : List Text
  pub database_url : Text
  pub db_max_conns : ℤ
  pub db_min_conns : ℤ
  pub migrate_on_boot : Bool
  pub redis_url : Text
  pub redis_pool_size : ℤ
  pub jwt_secret : Text
  pub jwt_issuer : Text
  pub access_token_ttl : ℤ
  pub refresh_ttl : ℤ
  pub argon_time : ℕ
  pub argon_memory_kib : ℕ
  pub argon_threads : ℕ
  pub rtp_bp : ℤ
  pub demo_rtp_bp : ℤ
  pub rake_bp : ℤ
  pub referral_bp : ℤ
  pub min_stake_cents : ℤ
  pub max_stake_cents : ℤ
  pub demo_grant_cents : ℤ
  pub demo_topup_cooldn : ℤ
  pub withdraw_fee_cents : ℤ
  pub min_withdraw_cents : ℤ
  pub max_withdraw_cents : ℤ
  pub auto_approve_ceil_cents : ℤ
  pub rl_login_per_5min : ℤ
  pub rl_register_per_hour : ℤ
  pub rl_refresh_per_min : ℤ
  pub rl_spin_per_min : ℤ
  pub rl_read_per_min : ℤ
  pub rl_deposit_per_5min : ℤ
  pub mpesa_env : Text
  pub mpesa_base_url : Text
  pub callback_secret : Text
  pub callback_cidrs : List Text
  pub callback_ip_enforce : Bool
  pub verify_thresh_cents : ℤ
  pub mpesa_dial_shortcode : Text
  pub mpesa_manual_till : Text
  pub c2b_key : Text
  pub c2b_secret : Text
  pub c2b_shortode : Text
  pub c2b_passkey : Text
  pub c2b_txn_type : Text
  pub b2c_key : Text
  pub b2c_secret : Text
  pub b2c_shortcode : Text
  pub b2c_initiator : Text
  pub b2c_initiator_pwd : Text
  pub b2c_cert_path : Text
  pub b2c_command_id : Text
  pub worker_enabled : Bool

abbrev pub report : Bool → Problem → Problems → Problems
report b p rest = if b then p ∷ rest else rest

-- the checks across settings
unfoldable pub check_limits : Settings → Problems
check_limits c = report (leb_ℤ c.min_stake_cents (pos 0)) (not_positive (codes "MIN_STAKE_CENTS")) (
    report (ltb_ℤ c.max_stake_cents c.min_stake_cents) (below_the_other (codes "MAX_STAKE_CENTS")) (
      report (leb_ℤ c.min_withdraw_cents c.withdraw_fee_cents)
        (below_the_other (codes "MIN_WITHDRAW_CENTS"))
        (report (ltb_ℤ c.max_withdraw_cents c.min_withdraw_cents)
          (below_the_other (codes "MAX_WITHDRAW_CENTS"))
          (report (ltb_ℤ c.demo_rtp_bp c.rtp_bp) (below_the_other (codes "DEMO_RTP_BP")) (
            report (ltb_ℤ (sub64 (pos 10000) c.rtp_bp) (add64 c.rake_bp c.referral_bp))
              (above_the_other (codes "RAKE_BP+REFERRAL_BP"))
              (report (ltb_ℤ c.db_max_conns c.db_min_conns) (above_the_other (codes "DB_MIN_CONNS"))
                []))))))

-- the loop over the origins
unfoldable pub check_origins : List Text → Problems
check_origins [] = []
check_origins (o ∷ origins) =
    let rest = check_origins origins in
    report (has_prefix o (codes "http://") || contains o (codes "localhost"))
      (unsafe (codes "CORS_ORIGINS")) rest

-- IsProd
abbrev pub is_prod : Settings → Bool
is_prod c = text_eq c.env (codes "prod")

-- what must not reach production
unfoldable pub check_production : Settings → Problems
check_production c = report (ltb (byte_length c.jwt_secret) 32) (too_short (codes "JWT_SECRET")) (
    report
      (not (text_eq c.mpesa_env (codes "production"))
        || contains c.mpesa_base_url (codes "sandbox"))
      (sandbox (codes "MPESA_BASE_URL"))
      (report c.migrate_on_boot (unsafe (codes "MIGRATE_ON_BOOT")) (
        report (contains c.database_url (codes "sslmode=disable")) (unsafe (codes "DATABASE_URL")) (
          report (not c.callback_ip_enforce) (unsafe (codes "MPESA_CALLBACK_IP_ENFORCE")) (
            report (has_prefix c.base_url (codes "http://")) (unsafe (codes "BASE_URL"))
              (check_origins c.cors_origins))))))

unfoldable pub check_settings : Settings → Problems
check_settings c = check_limits c ++ (if is_prod c then check_production c else [])
