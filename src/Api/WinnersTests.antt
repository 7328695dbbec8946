-- ===== src/Api/WinnersTests.antt =====
-- internal/api/winners.go and me.go: the theorems at concrete inputs.
use braelaspin.Prelude.{◌≡◌, refl, true, List, [], ◌∷◌, codes, ok, pos}
use braelaspin.Database.{SpinRow}
use braelaspin.Prelude.{Text, div64, wrap64, quot, mul64, ◌*ℤ◌}
use braelaspin.Wheel.Stake.{max_affordable_stake, max_safe_stake, affordable_quotient}
use braelaspin.Database.Monad
use braelaspin.Spin.{config}
use braelaspin.Spin.Samples.{econ}
use braelaspin.Wheel.{segments, max_mult_bp, demo_rtp_bp}
use braelaspin.Wallet.Samples.{player, player_wallet}
use braelaspin.Api.Accounts.{user_dto}
use braelaspin.Api.Me.{MeResp, to_balances, me}
use braelaspin.Api.Profile.{IsOwn, me-IsOwn}
use braelaspin.Wallet.{get, get_house}
use braelaspin.Wallet.Statements.{select_wallet, select_house}
use braelaspin.Users.{by_id, referral_stats}
use braelaspin.Users.Statements.{
  select_user, select_referral_stats, count_referred, commissions, recent_commissions,
}
use braelaspin.Database.Monad.{run_statement}
use braelaspin.Calls.{◌>>=◌, or_fail, on_part}
use braelaspin.Wallet.Samples.{start}
use braelaspin.Redis.Memory.{Memory, nothing}
use braelaspin.Tokens.{Site}
use braelaspin.Phone.{mask}
use braelaspin.Http.{Response, json}
use braelaspin.Api.Winners.{Winner, winners, select_winners, to_winner, wins, in_order, insert}
use braelaspin.Api.Strangers.{Shown, winners-Shown}

abbrev won : SpinRow
won = record {
  id = 9;
  user_id = 1;
  is_real = true;
  stake_cents = pos 500;
  segment_index = 1;
  multiplier_bp = pos 20000;
  payout_cents = pos 1000;
  rake_cents = pos 25;
  client_ref = [];
  created_at = 900;
}

abbrev lost : SpinRow
lost = record won { id = 8; payout_cents = pos 0 }

abbrev best : SpinRow
best = record won { id = 7; payout_cents = pos 5000; user_id = 2 }

abbrev site : Site Memory
site = record {
  redis_state = nothing;
  world = record start { db = record start.db { spins = won ∷ lost ∷ best ∷ [] } };
  clock = pos 0;
  entropy = [];
}

abbrev shown : Response (List Winner)
shown = json 200 (
    (record {
      name = codes "2541*****678";
      payout_cents = pos 5000;
      multiplier_bp = pos 20000;
      created_at = 900;
    })
    ∷ (record {
      name = codes "2547*****678";
      payout_cents = pos 1000;
      multiplier_bp = pos 20000;
      created_at = 900;
    })
    ∷ [])

winners_runs : winners site ≡ (ok shown, site)
unfolding winners select_winners run_statement wins in_order insert to_winner mask ◌>>=◌ or_fail
    on_part
winners_runs = refl

winners-Shown_example : Shown site.world.now site.world.db shown
winners-Shown_example = winners-Shown site site shown winners_runs

abbrev base : Text
base = codes "https://app.example"

abbrev mine : Response MeResp
mine = json 200 (record {
  user = user_dto base player;
  balances = to_balances player_wallet;
  game = record {
    segments = segments;
    rtp_bp = econ.rtp_bp;
    demo_rtp_bp = demo_rtp_bp;
    min_stake_cents = econ.min_stake_cents;
    max_stake_cents = pos 50000;
    max_multiplier = max_mult_bp;
  };
  referrals = record { count = 0; earned_cents = pos 0; last_30_cents = pos 0 };
})

me_runs : me base econ 1 site ≡ (ok mine, site)
unfolding me by_id get config referral_stats select_user select_wallet get_house select_house
    select_referral_stats count_referred commissions recent_commissions run_statement ◌>>=◌ or_fail
    on_part max_affordable_stake braelaspin.Database.Monad.◌>>=◌ max_mult_bp max_safe_stake div64
    wrap64 quot affordable_quotient mul64 ◌*ℤ◌
me_runs = refl

me-IsOwn_example : IsOwn base 1 site.world.db mine × (site.world.db ≡ site.world.db)
me-IsOwn_example = me-IsOwn base econ 1 site site mine me_runs
