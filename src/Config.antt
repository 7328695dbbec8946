-- ===== src/Config.antt =====
-- internal/config/config.go: Load and its reads. The process starts only if Load finds no problem.
pub mod Read
mod Checks
unfoldable pub use Checks.*
pub mod Accepted
pub mod Tests
use braelaspin.Prelude.{
  ℕ, ℤ, pos, ◌-ℤ◌, Bool, true, false, not, ◌&&◌, ◌||◌, Text, List, [], ◌∷◌, ◌++◌, codes, Result, ok,
  err, ltb, ltb_ℤ, leb_ℤ, add64, sub64, has_prefix, contains, byte_length, trim_slashes, text_eq,
  if◌then◌else◌,
}
use braelaspin.Config.Read.{
  Grammar, Env, Problem, Problems, below_the_other, above_the_other, not_positive, too_short,
  sandbox, unsafe, req, str, one_of, i64, boolean, dur, bp, cidrs, csv, urlish, unsigned, int32,
}

-- the reads of Load, in its order
unfoldable pub read_settings : Grammar → Env → Settings × Problems
read_settings g env =
    let env_read =
      one_of env (codes "APP_ENV") (codes "dev")
        (codes "dev" ∷ codes "staging" ∷ codes "prod" ∷ []) in
    let http_addr_read = str env (codes "HTTP_ADDR") (codes ":8080") in
    let base_url_read = urlish g env (codes "BASE_URL") (codes "http://localhost:8080") in
    let log_level_read =
      one_of env (codes "LOG_LEVEL") (codes "info")
        (codes "debug" ∷ codes "info" ∷ codes "warn" ∷ codes "error" ∷ []) in
    let log_format_read =
      one_of env (codes "LOG_FORMAT") (codes "json") (codes "json" ∷ codes "text" ∷ []) in
    let trusted_proxy_cidrs_read =
      cidrs g env (codes "TRUSTED_PROXY_CIDRS") (codes "127.0.0.1/32,::1/128") in
    let cors_origins_read = csv env (codes "CORS_ORIGINS") (codes "http://localhost:5173") in
    let database_url_read = req env (codes "DATABASE_URL") in
    let db_max_conns_read = i64 env (codes "DB_MAX_CONNS") (pos 20) in
    let db_min_conns_read = i64 env (codes "DB_MIN_CONNS") (pos 2) in
    let migrate_on_boot_read = boolean env (codes "MIGRATE_ON_BOOT") false in
    let redis_url_read = req env (codes "REDIS_URL") in
    let redis_pool_size_read = i64 env (codes "REDIS_POOL_SIZE") (pos 20) in
    let jwt_secret_read = req env (codes "JWT_SECRET") in
    let jwt_issuer_read = str env (codes "JWT_ISSUER") (codes "braelaspin") in
    let access_token_ttl_read = dur g env (codes "ACCESS_TOKEN_TTL") (pos 900000000000) in
    let refresh_ttl_read = dur g env (codes "REFRESH_TOKEN_TTL") (pos 2592000000000000) in
    let argon_time_read = i64 env (codes "ARGON2_TIME") (pos 3) in
    let argon_memory_kib_read = i64 env (codes "ARGON2_MEMORY_KIB") (pos 65536) in
    let argon_threads_read = i64 env (codes "ARGON2_PARALLELISM") (pos 2) in
    let rtp_bp_read = bp env (codes "RTP_BP") (pos 9000) in
    let demo_rtp_bp_read = bp env (codes "DEMO_RTP_BP") (pos 9700) in
    let rake_bp_read = bp env (codes "RAKE_BP") (pos 500) in
    let referral_bp_read = bp env (codes "REFERRAL_BP") (pos 200) in
    let min_stake_cents_read = i64 env (codes "MIN_STAKE_CENTS") (pos 500) in
    let max_stake_cents_read = i64 env (codes "MAX_STAKE_CENTS") (pos 5000000) in
    let demo_grant_cents_read = i64 env (codes "DEMO_GRANT_CENTS") (pos 1000000) in
    let demo_topup_cooldn_read = dur g env (codes "DEMO_TOPUP_COOLDOWN") (pos 86400000000000) in
    let withdraw_fee_cents_read = i64 env (codes "WITHDRAW_FEE_CENTS") (pos 3000) in
    let min_withdraw_cents_read = i64 env (codes "MIN_WITHDRAW_CENTS") (pos 10000) in
    let max_withdraw_cents_read = i64 env (codes "MAX_WITHDRAW_CENTS") (pos 7000000) in
    let auto_approve_ceil_cents_read = i64 env (codes "AUTO_APPROVE_CEILING_CENTS") (pos 0) in
    let rl_login_per_5min_read = i64 env (codes "RL_LOGIN_PER_5MIN") (pos 5) in
    let rl_register_per_hour_read = i64 env (codes "RL_REGISTER_PER_HOUR") (pos 3) in
    let rl_refresh_per_min_read = i64 env (codes "RL_REFRESH_PER_MIN") (pos 30) in
    let rl_spin_per_min_read = i64 env (codes "RL_SPIN_PER_MIN") (pos 60) in
    let rl_read_per_min_read = i64 env (codes "RL_READ_PER_MIN") (pos 120) in
    let rl_deposit_per_5min_read = i64 env (codes "RL_DEPOSIT_PER_5MIN") (pos 5) in
    let mpesa_env_read =
      one_of env (codes "MPESA_ENV") (codes "sandbox")
        (codes "sandbox" ∷ codes "production" ∷ []) in
    let mpesa_base_url_read =
      urlish g env (codes "MPESA_BASE_URL") (codes "https://sandbox.safaricom.co.ke") in
    let callback_secret_read = req env (codes "MPESA_CALLBACK_SECRET") in
    let callback_cidrs_read =
      cidrs g env (codes "MPESA_CALLBACK_ALLOWED_CIDRS")
        (codes "196.201.214.0/24,196.201.213.0/24,196.201.212.0/24") in
    let callback_ip_enforce_read = boolean env (codes "MPESA_CALLBACK_IP_ENFORCE") false in
    let verify_thresh_cents_read = i64 env (codes "MPESA_VERIFY_THRESHOLD_CENTS") (pos 500000) in
    let mpesa_dial_shortcode_read = str env (codes "MPESA_DIAL_SHORTCODE") (codes "*334#") in
    let mpesa_manual_till_read = str env (codes "MPESA_MANUAL_TILL") [] in
    let c2b_key_read = req env (codes "MPESA_C2B_CONSUMER_KEY") in
    let c2b_secret_read = req env (codes "MPESA_C2B_CONSUMER_SECRET") in
    let c2b_shortode_read = req env (codes "MPESA_C2B_SHORTCODE") in
    let c2b_passkey_read = req env (codes "MPESA_C2B_PASSKEY") in
    let c2b_txn_type_read =
      one_of env (codes "MPESA_C2B_TRANSACTION_TYPE") (codes "CustomerPayBillOnline")
        (codes "CustomerPayBillOnline" ∷ codes "CustomerBuyGoodsOnline" ∷ []) in
    let b2c_key_read = req env (codes "MPESA_B2C_CONSUMER_KEY") in
    let b2c_secret_read = req env (codes "MPESA_B2C_CONSUMER_SECRET") in
    let b2c_shortcode_read = req env (codes "MPESA_B2C_SHORTCODE") in
    let b2c_initiator_read = req env (codes "MPESA_B2C_INITIATOR_NAME") in
    let b2c_initiator_pwd_read = req env (codes "MPESA_B2C_INITIATOR_PASSWORD") in
    let b2c_cert_path_read = req env (codes "MPESA_B2C_CERT_PATH") in
    let b2c_command_id_read =
      one_of env (codes "MPESA_B2C_COMMAND_ID") (codes "BusinessPayment")
        (codes "BusinessPayment" ∷ codes "SalaryPayment" ∷ codes "PromotionPayment" ∷ []) in
    let worker_enabled_read = boolean env (codes "WORKER_ENABLED") true in
    (
      record {
        env = env_read.0;
        http_addr = http_addr_read;
        base_url = base_url_read.0;
        log_level = log_level_read.0;
        log_format = log_format_read.0;
        trusted_proxy_cidrs = trusted_proxy_cidrs_read.0;
        cors_origins = cors_origins_read;
        database_url = database_url_read.0;
        db_max_conns = int32 db_max_conns_read.0;
        db_min_conns = int32 db_min_conns_read.0;
        migrate_on_boot = migrate_on_boot_read.0;
        redis_url = redis_url_read.0;
        redis_pool_size = redis_pool_size_read.0;
        jwt_secret = jwt_secret_read.0;
        jwt_issuer = jwt_issuer_read;
        access_token_ttl = access_token_ttl_read.0;
        refresh_ttl = refresh_ttl_read.0;
        argon_time = unsigned 32 argon_time_read.0;
        argon_memory_kib = unsigned 32 argon_memory_kib_read.0;
        argon_threads = unsigned 8 argon_threads_read.0;
        rtp_bp = rtp_bp_read.0;
        demo_rtp_bp = demo_rtp_bp_read.0;
        rake_bp = rake_bp_read.0;
        referral_bp = referral_bp_read.0;
        min_stake_cents = min_stake_cents_read.0;
        max_stake_cents = max_stake_cents_read.0;
        demo_grant_cents = demo_grant_cents_read.0;
        demo_topup_cooldn = demo_topup_cooldn_read.0;
        withdraw_fee_cents = withdraw_fee_cents_read.0;
        min_withdraw_cents = min_withdraw_cents_read.0;
        max_withdraw_cents = max_withdraw_cents_read.0;
        auto_approve_ceil_cents = auto_approve_ceil_cents_read.0;
        rl_login_per_5min = rl_login_per_5min_read.0;
        rl_register_per_hour = rl_register_per_hour_read.0;
        rl_refresh_per_min = rl_refresh_per_min_read.0;
        rl_spin_per_min = rl_spin_per_min_read.0;
        rl_read_per_min = rl_read_per_min_read.0;
        rl_deposit_per_5min = rl_deposit_per_5min_read.0;
        mpesa_env = mpesa_env_read.0;
        mpesa_base_url = mpesa_base_url_read.0;
        callback_secret = callback_secret_read.0;
        callback_cidrs = callback_cidrs_read.0;
        callback_ip_enforce = callback_ip_enforce_read.0;
        verify_thresh_cents = verify_thresh_cents_read.0;
        mpesa_dial_shortcode = mpesa_dial_shortcode_read;
        mpesa_manual_till = mpesa_manual_till_read;
        c2b_key = c2b_key_read.0;
        c2b_secret = c2b_secret_read.0;
        c2b_shortode = c2b_shortode_read.0;
        c2b_passkey = c2b_passkey_read.0;
        c2b_txn_type = c2b_txn_type_read.0;
        b2c_key = b2c_key_read.0;
        b2c_secret = b2c_secret_read.0;
        b2c_shortcode = b2c_shortcode_read.0;
        b2c_initiator = b2c_initiator_read.0;
        b2c_initiator_pwd = b2c_initiator_pwd_read.0;
        b2c_cert_path = b2c_cert_path_read.0;
        b2c_command_id = b2c_command_id_read.0;
        worker_enabled = worker_enabled_read.0;
      },
      env_read.1
          ++ (base_url_read.1
              ++ (log_level_read.1
                  ++ (log_format_read.1
                      ++ (trusted_proxy_cidrs_read.1
                          ++ (database_url_read.1
                              ++ (db_max_conns_read.1
                                  ++ (db_min_conns_read.1
                                      ++ (migrate_on_boot_read.1
                                          ++ (redis_url_read.1
                                              ++ (redis_pool_size_read.1
                                                  ++ (jwt_secret_read.1
                                                      ++ (access_token_ttl_read.1
                                                          ++ (refresh_ttl_read.1
                                                            ++ (argon_time_read.1
                                                            ++ (argon_memory_kib_read.1
                                                            ++ (argon_threads_read.1
                                                            ++ (rtp_bp_read.1
                                                            ++ (demo_rtp_bp_read.1
                                                            ++ (rake_bp_read.1
                                                            ++ (referral_bp_read.1
                                                            ++ (min_stake_cents_read.1
                                                            ++ (max_stake_cents_read.1
                                                            ++ (demo_grant_cents_read.1
                                                            ++ (demo_topup_cooldn_read.1
                                                            ++ (withdraw_fee_cents_read.1
                                                            ++ (min_withdraw_cents_read.1
                                                            ++ (max_withdraw_cents_read.1
                                                            ++ (auto_approve_ceil_cents_read.1
                                                            ++ (rl_login_per_5min_read.1
                                                            ++ (rl_register_per_hour_read.1
                                                            ++ (rl_refresh_per_min_read.1
                                                            ++ (rl_spin_per_min_read.1
                                                            ++ (rl_read_per_min_read.1
                                                            ++ (rl_deposit_per_5min_read.1
                                                            ++ (mpesa_env_read.1
                                                            ++ (mpesa_base_url_read.1
                                                            ++ (callback_secret_read.1
                                                            ++ (callback_cidrs_read.1
                                                            ++ (callback_ip_enforce_read.1
                                                            ++ (verify_thresh_cents_read.1
                                                            ++ (c2b_key_read.1
                                                            ++ (c2b_secret_read.1
                                                            ++ (c2b_shortode_read.1
                                                            ++ (c2b_passkey_read.1
                                                            ++ (c2b_txn_type_read.1
                                                            ++ (b2c_key_read.1
                                                            ++ (b2c_secret_read.1
                                                            ++ (b2c_shortcode_read.1
                                                            ++ (b2c_initiator_read.1
                                                            ++ (b2c_initiator_pwd_read.1
                                                            ++ (b2c_cert_path_read.1
                                                            ++ (b2c_command_id_read.1
                                                            ++ (worker_enabled_read.1)))))))))))))))
                                                            )))))))))))))))))))))))))))))))))))))),
    )

-- the end of Load
unfoldable pub accept : Settings → Problems → Result Problems Settings
accept c [] = ok c
accept c (p ∷ probs) = err (p ∷ probs)

-- Load
pub load : Grammar → Env → Result Problems Settings
load g env = let (c, probs) = read_settings g env in accept c (probs ++ check_settings c)

-- CallbackURL
unfoldable pub callback_url : Settings → Text → Text
callback_url c channel =
    trim_slashes c.base_url
    ++ (codes "/webhooks/mpesa/" ++ (channel ++ (codes "/" ++ c.callback_secret)))
