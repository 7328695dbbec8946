-- ===== src/Api/Me.antt =====
-- internal/api/me.go.
use braelaspin.Prelude.{ℕ, ℤ}
use braelaspin.Database.{Balances}
use braelaspin.Errors.{Error, not_found, top_up_not_eligible}
use braelaspin.Prelude.{codes, Text}
use braelaspin.Wallet.{get}
use braelaspin.Wallet.Statements.{withdrawable}
use braelaspin.Spin.{Economics, Config, config}
use braelaspin.Users.{by_id, referral_stats, top_up_demo}
use braelaspin.Users.Statements.{ReferralStats}
use braelaspin.Api.Accounts.{UserDto, user_dto}
use braelaspin.Calls.{Call, ◌>>=◌, pure, or_fail}
use braelaspin.Tokens.{Site, on_world}
use braelaspin.Http.{
  Response, json, Failure, api, unmapped, of_service, errorf, with_cause, err_unauthorized,
}

-- balancesDTO
pub record BalancesDto : Type 0 where
  pub real_cents : ℤ
  pub demo_cents : ℤ
  pub held_cents : ℤ
  pub withdrawable_cents : ℤ

-- toBalances
unfoldable pub to_balances : Balances → BalancesDto
to_balances b = record {
  real_cents = b.real_cents;
  demo_cents = b.demo_cents;
  held_cents = b.held_cents;
  withdrawable_cents = withdrawable b;
}

abbrev pub service_failure : Error → Failure
service_failure e = unmapped (of_service e)

-- walletBalances
unfoldable pub wallet_balances : {S : Type 0} → ℕ → Call (Site S) Failure (Response BalancesDto)
wallet_balances uid = do
  b ← or_fail (on_world (get uid)) service_failure
  pure (json 200 (to_balances b))

-- how demoTopUp answers an error of TopUpDemo
unfoldable pub top_up_failure : Error → Failure
top_up_failure top_up_not_eligible = api (
    with_cause (of_service top_up_not_eligible) (
      errorf 429 (codes "demo_topup_not_eligible")
        (codes "You can top up your practice balance once a day.")))
top_up_failure e = service_failure e

-- demoTopUp, with the cooldown and the target of the configuration
unfoldable pub demo_top_up : {S : Type 0} → ℕ → ℤ → ℕ → Call (Site S) Failure (Response ℤ)
demo_top_up cooldown grant uid = do
  after ← or_fail (on_world (top_up_demo uid cooldown grant)) top_up_failure
  pure (json 200 after)

-- meResp
pub record MeResp : Type 0 where
  pub user : UserDto
  pub balances : BalancesDto
  pub game : Config
  pub referrals : ReferralStats

-- how me answers an error of ByID
unfoldable pub me_failure : Error → Failure
me_failure not_found = api (with_cause (of_service not_found) err_unauthorized)
me_failure e = service_failure e

-- me, with the base URL and the game's settings
unfoldable pub me : {S : Type 0} → Text → Economics → ℕ → Call (Site S) Failure (Response MeResp)
me base_url econ uid = do
  u ← or_fail (on_world (by_id uid)) me_failure
  balances ← or_fail (on_world (get uid)) service_failure
  game ← or_fail (on_world (config econ)) service_failure
  referrals ← or_fail (on_world (referral_stats uid)) service_failure
  pure (
      json 200 (record {
        user = user_dto base_url u;
        balances = to_balances balances;
        game = game;
        referrals = referrals;
      }))
