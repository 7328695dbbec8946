-- ===== src/Errors.antt =====
-- The errors that the services return. A wrapped error (`%w`) is the error that it wraps, since the
-- callers look at the chain with errors.Is and errors.As; the texts are left out.
use braelaspin.Prelude.{ℕ, ℤ}
use braelaspin.Database.Monad.{SqlError}
use braelaspin.Wheel.Pick.{PickError}

-- The limit that a game.StakeLimitError names in its field Err.
pub data Breach : Type 0 where
  stake_too_small stake_too_large no_funds stake_exceeds_bank : Breach

pub data Error : Type 0 where
  -- internal/wallet
  insufficient_funds bankroll_exhausted zero_delta no_kind hold_corrupt : Error
  no_wallet : ℕ → Error
  bad_amount : ℤ → Error
  -- internal/game
  stake_limit : Breach → ℤ → Error
  duplicate_spin : Error
  no_player : ℕ → Error
  no_draw : PickError → Error
  -- internal/users
  phone_taken referrer_unknown ref_code_collision not_found top_up_not_eligible no_free_code
        no_entropy :
      Error
  -- an error of the driver that no branch recognises
  database : SqlError → Error
