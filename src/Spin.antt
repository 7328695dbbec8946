-- ===== src/Spin.antt =====
-- internal/game/spin.go: one round, played in one transaction. The entropy that the draw reads is a
-- parameter, as in Wheel.Pick; the context and the texts of the errors are left out.
pub mod Statements
pub mod Sound
pub mod Amounts
pub mod Shifts
pub mod Rounds
pub mod Money
pub mod Scene
pub mod Played
pub mod Returns
pub mod Success
pub mod Opening
pub mod Covered
pub mod Refusals
pub mod Solvent
pub mod Admitted
pub mod Samples
mod Tests
use braelaspin.Prelude.{
  ℕ, ℤ, pos, Bool, true, false, not, ◌&&◌, Option, none, some, Text, codes, List, [], ◌∷◌, ◌++◌,
  decimal, Result, ok, err, ltb_ℤ, sub64, mul64, div64, if◌then◌else◌, ◌==◌, fail_if,
}
use braelaspin.Database.{Balances, House, SpinRow, find_wallet, bet, win, referral}
use braelaspin.Database.Monad.{
  SqlError, no_rows, unique_violation, spins_client_ref, Exec, pure, lift, raise_if, run_statement,
  or_fail, in_transaction, ◌>>=◌, ◌>>◌,
}
use braelaspin.Errors.{
  Error, Breach, stake_too_small, stake_too_large, no_funds, stake_exceeds_bank, stake_limit,
  duplicate_spin, no_player, no_draw, database, insufficient_funds,
}
use braelaspin.Wheel.{Segment, table_for, segments, demo_rtp_bp, max_mult_bp}
use braelaspin.Wheel.Stake.{payout, max_exposure, max_affordable_stake}
use braelaspin.Wheel.Pick.{Buffer, PickError, pick_from}
use braelaspin.Wallet.{MoveParams, move, lock, house_lock, move_house, get_house}
use braelaspin.Wallet.Statements.{spendable}
use braelaspin.Spin.Statements.{select_player, insert_spin, select_spin}

-- Economics
pub record Economics : Type 0 where
  pub rtp_bp : ℤ
  pub rake_bp : ℤ
  pub referral_bp : ℤ
  pub min_stake_cents : ℤ
  pub max_stake_cents : ℤ

-- Request
pub record Request : Type 0 where
  pub user_id : ℕ
  pub stake_cents : ℤ
  pub is_real : Bool
  pub client_ref : Text

-- Result
pub record SpinResult : Type 0 where
  pub spin_id : ℕ
  pub segment_index : ℕ
  pub multiplier_bp : ℤ
  pub stake_cents : ℤ
  pub payout_cents : ℤ
  pub net_cents : ℤ
  pub balance_cents : ℤ
  pub is_real : Bool
  pub created_at : ℕ

-- isUniqueViolation(err, "spins_client_ref")
unfoldable pub insert_error : SqlError → Error
insert_error (unique_violation spins_client_ref) = duplicate_spin
insert_error e = database e

unfoldable pub player_error : ℕ → SqlError → Error
player_error user_id no_rows = no_player user_id
player_error user_id e = database e

-- payCommission
unfoldable pub pays_commission : Economics → Request → Option ℕ → Bool
pays_commission econ req none = false
pays_commission econ req (some r) =
    req.is_real && not (r == req.user_id) && ltb_ℤ (pos 0) econ.referral_bp

-- lockIDs
unfoldable pub lock_ids : Economics → Request → Option ℕ → List ℕ
lock_ids econ req none = req.user_id ∷ []
lock_ids econ req (some r) =
    if pays_commission econ req (some r) then req.user_id ∷ r ∷ [] else req.user_id ∷ []

-- balances[id], the zero value if the map has no such key
unfoldable pub balances_at : ℕ → List Balances → Balances
balances_at i rows = elim (find_wallet i rows) [
  | none ↦ record { user_id = 0; real_cents = pos 0; demo_cents = pos 0; held_cents = pos 0 }
  | some b ↦ b
]

-- Admission control: the bankroll only vetoes a stake whose worst case it cannot pay.
unfoldable pub admit : Request → Exec Error Unit
admit req =
    if req.is_real
    then (do
      house ← house_lock
      raise_if (ltb_ℤ house.bankroll_cents (max_exposure req.stake_cents))
          (stake_limit stake_exceeds_bank (max_affordable_stake house.bankroll_cents)))
    else pure tt

unfoldable pub draw_error : Result PickError (ℕ × ℤ) → Result Error (ℕ × ℤ)
draw_error (ok d) = ok d
draw_error (err e) = err (no_draw e)

-- rake, on real play only
unfoldable pub rake_of : Economics → Request → ℤ
rake_of econ req =
    if req.is_real then div64 (mul64 req.stake_cents econ.rake_bp) (pos 10000) else pos 0

-- commission, on real play with a referrer only
unfoldable pub commission_of : Economics → Request → Option ℕ → ℤ
commission_of econ req referrer =
    if pays_commission econ req referrer
    then div64 (mul64 req.stake_cents econ.referral_bp) (pos 10000)
    else pos 0

-- the row of the INSERT; the database sets `id` and `created_at`
unfoldable pub row_of : Request → ℕ → ℤ → ℤ → ℤ → SpinRow
row_of req seg_idx mult_bp paid rake = record {
  id = 0;
  user_id = req.user_id;
  is_real = req.is_real;
  stake_cents = req.stake_cents;
  segment_index = seg_idx;
  multiplier_bp = mult_bp;
  payout_cents = paid;
  rake_cents = rake;
  client_ref = req.client_ref;
  created_at = 0;
}

abbrev pub bet_params : Request → ℕ → MoveParams
bet_params req spin_id = record {
  user_id = req.user_id;
  kind = bet;
  is_real = req.is_real;
  delta = sub64 (pos 0) req.stake_cents;
  ref_id = some spin_id;
  memo = [];
}

abbrev pub win_params : Request → ℤ → ℕ → MoveParams
win_params req paid spin_id = record {
  user_id = req.user_id;
  kind = win;
  is_real = req.is_real;
  delta = paid;
  ref_id = some spin_id;
  memo = [];
}

-- fmt.Sprintf("%d bp of a %d cent stake", ...)
unfoldable pub referral_memo : Economics → Request → Text
referral_memo econ req =
    decimal econ.referral_bp
    ++ (codes " bp of a " ++ (decimal req.stake_cents ++ codes " cent stake"))

abbrev pub referral_params : Economics → Request → ℕ → ℤ → ℕ → MoveParams
referral_params econ req referrer commission spin_id = record {
  user_id = referrer;
  kind = referral;
  is_real = true;
  delta = commission;
  ref_id = some spin_id;
  memo = referral_memo econ req;
}

-- how Spin reports an error of the bet's Move
unfoldable pub bet_error : ℤ → Error → Error
bet_error available insufficient_funds = stake_limit no_funds available
bet_error available e = e

-- the win, credited only if there is one; the balance after it
unfoldable pub pay_win : Request → ℤ → ℕ → ℤ → Exec Error ℤ
pay_win req paid spin_id balance =
    if ltb_ℤ (pos 0) paid then move (win_params req paid spin_id) else pure balance

-- the commission, paid only if there is one
unfoldable pub pay_referrer : Economics → Request → Option ℕ → ℤ → ℕ → Exec Error Unit
pay_referrer econ req none commission spin_id = pure tt
pay_referrer econ req (some r) commission spin_id =
    if ltb_ℤ (pos 0) commission
    then (move (referral_params econ req r commission spin_id) >> pure tt)
    else pure tt

-- the house's side of a real spin
unfoldable pub settle_house : Economics → Request → Option ℕ → ℤ → ℤ → ℤ → ℕ → Exec Error Unit
settle_house econ req referrer paid rake commission spin_id =
    if req.is_real
    then (do
      move_house (sub64 (sub64 (sub64 req.stake_cents paid) rake) commission) rake
      pay_referrer econ req referrer commission spin_id)
    else pure tt

-- the round after the draw: the record, the money, the result
pub play : Economics → Request → Option ℕ → Balances → ℕ × ℤ → Exec Error SpinResult
play econ req referrer me (seg_idx, mult_bp) = do
  let paid = payout req.stake_cents mult_bp
  let rake = rake_of econ req
  let commission = commission_of econ req referrer
  (spin_id, created_at) ←
      or_fail (run_statement (insert_spin (row_of req seg_idx mult_bp paid rake))) insert_error
  or_fail (move (bet_params req spin_id)) (bet_error (spendable me req.is_real))
  balance_after ← pay_win req paid spin_id (sub64 (spendable me req.is_real) req.stake_cents)
  settle_house econ req referrer paid rake commission spin_id
  pure (record {
    spin_id = spin_id;
    segment_index = seg_idx;
    multiplier_bp = mult_bp;
    stake_cents = req.stake_cents;
    payout_cents = paid;
    net_cents = sub64 paid req.stake_cents;
    balance_cents = balance_after;
    is_real = req.is_real;
    created_at = created_at;
  })

-- the transaction of Spin, up to the commit
unfoldable pub spin_body : Economics → Option Buffer → Request → Exec Error SpinResult
spin_body econ source req = do
  referrer ← or_fail (run_statement (select_player req.user_id)) (player_error req.user_id)
  rows ← lock (lock_ids econ req referrer)
  let me = balances_at req.user_id rows
  raise_if (ltb_ℤ (spendable me req.is_real) req.stake_cents)
      (stake_limit no_funds (spendable me req.is_real))
  admit req
  draw ← lift (draw_error (pick_from source (table_for req.is_real)))
  play econ req referrer me draw

-- Spin
unfoldable pub spin : Economics → Option Buffer → Request → Exec Error SpinResult
spin econ source req = do
  raise_if (ltb_ℤ req.stake_cents econ.min_stake_cents)
      (stake_limit stake_too_small econ.min_stake_cents)
  raise_if (ltb_ℤ econ.max_stake_cents req.stake_cents)
      (stake_limit stake_too_large econ.max_stake_cents)
  in_transaction database (spin_body econ source req)

-- FindByClientRef; its balance is the wallet's at the time of the call
pub find_by_client_ref : ℕ → Text → Exec SqlError SpinResult
find_by_client_ref user_id client_ref = do
  (s, balance) ← run_statement (select_spin user_id client_ref)
  pure (record {
    spin_id = s.id;
    segment_index = s.segment_index;
    multiplier_bp = s.multiplier_bp;
    stake_cents = s.stake_cents;
    payout_cents = s.payout_cents;
    net_cents = sub64 s.payout_cents s.stake_cents;
    balance_cents = balance;
    is_real = s.is_real;
    created_at = s.created_at;
  })

-- Config
pub record Config : Type 0 where
  pub segments : List Segment
  pub rtp_bp : ℤ
  pub demo_rtp_bp : ℤ
  pub min_stake_cents : ℤ
  pub max_stake_cents : ℤ
  pub max_multiplier : ℤ

unfoldable pub config : Economics → Exec Error Config
config econ = do
  h ← get_house
  let afford = max_affordable_stake h.bankroll_cents
  pure (record {
    segments = segments;
    rtp_bp = econ.rtp_bp;
    demo_rtp_bp = demo_rtp_bp;
    min_stake_cents = econ.min_stake_cents;
    max_stake_cents = if ltb_ℤ afford econ.max_stake_cents then afford else econ.max_stake_cents;
    max_multiplier = max_mult_bp;
  })
