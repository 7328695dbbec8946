-- ===== src/Config/Tests.antt =====
-- internal/config/config.go: the theorems at concrete inputs.
use braelaspin.Prelude.{
  ◌≡◌, refl, true, none, some, [], ◌∷◌, codes, ok, text_eq, trim, is_space, split, sub64, ◌+ℤ◌,
  ◌-ℤ◌, byte_length, contains, digits_value, has_prefix, parse_int, add64, wrap64, if◌then◌else◌,
}
use braelaspin.Config.{
  Settings, load, accept, check_settings, check_limits, check_origins, check_production,
  read_settings, is_prod,
}
use braelaspin.Config.Read.{
  Grammar, Env, among, one_of, urlish, cidrs, req, i64, boolean, dur, bp, blocks_from, csv, int32,
  parse_bool, str,
}
use braelaspin.Config.Accepted.{IsPlayable, load-IsPlayable}

abbrev pub grammar : Grammar
grammar = record { duration = λ s. none; block = λ s. some s; is_absolute_url = λ s. true }

-- A production environment: every secret is a text of 32 bytes.
abbrev pub env : Env
env key =
    if text_eq key (codes "APP_ENV")
    then codes "prod"
    else if text_eq key (codes "MPESA_ENV")
    then codes "production"
    else if text_eq key (codes "MPESA_CALLBACK_IP_ENFORCE")
    then codes "true"
    else if among key (codes "BASE_URL" ∷ codes "MPESA_BASE_URL" ∷ codes "CORS_ORIGINS" ∷ [])
    then codes "https://example.com"
    else if among key (
        codes "DATABASE_URL"
        ∷ codes "REDIS_URL"
        ∷ codes "JWT_SECRET"
        ∷ codes "MPESA_CALLBACK_SECRET"
        ∷ codes "MPESA_C2B_CONSUMER_KEY"
        ∷ codes "MPESA_C2B_CONSUMER_SECRET"
        ∷ codes "MPESA_C2B_SHORTCODE"
        ∷ codes "MPESA_C2B_PASSKEY"
        ∷ codes "MPESA_B2C_CONSUMER_KEY"
        ∷ codes "MPESA_B2C_CONSUMER_SECRET"
        ∷ codes "MPESA_B2C_SHORTCODE"
        ∷ codes "MPESA_B2C_INITIATOR_NAME"
        ∷ codes "MPESA_B2C_INITIATOR_PASSWORD"
        ∷ codes "MPESA_B2C_CERT_PATH"
        ∷ [])
    then codes "0123456789abcdef0123456789abcdef"
    else []

abbrev pub settings : Settings
settings = (read_settings grammar env).0

pub env_accepted : load grammar env ≡ ok settings
unfolding load accept read_settings one_of text_eq trim is_space urlish cidrs split req i64 boolean
    dur bp check_settings check_limits sub64 blocks_from csv int32 parse_bool str check_origins
    check_production ◌+ℤ◌ ◌-ℤ◌ byte_length contains digits_value has_prefix parse_int add64 wrap64
env_accepted = refl

load-IsPlayable_example : IsPlayable settings
load-IsPlayable_example = load-IsPlayable grammar env settings env_accepted

in_production : is_prod settings ≡ true
unfolding read_settings text_eq one_of trim is_space str
in_production = refl
