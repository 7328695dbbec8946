-- ===== src/Spin/Played.antt =====
-- internal/game/spin.go: a round whose stake is covered is played to the end.
use braelaspin.Prelude.{
  ℕ, ℤ, pos, ◌+ℤ◌, ◌+◌, ◌≤◌, ◌<◌, ◌≡◌, refl, Option, some, none, [], arith, int_laws, max_int64,
  if◌then◌else◌,
}
use braelaspin.Database.{House}
use braelaspin.Database.Monad.{World}
use braelaspin.Database.Returns.{Returns, Returns-at, Returns-statement}
use braelaspin.Wallet.{move, move_house, house_error}
use braelaspin.Wallet.Statements.{realm_allows, spendable, update_house}
use braelaspin.Wallet.Works.{IsAllowed, move_returns}
use braelaspin.Spin.{Economics, Request, pays_commission, referral_params}
use braelaspin.Spin.Scene.{Scene}

-- Columns of the house as numbers.
abbrev pub house_of : ℕ → ℕ → House
house_of bank rake = record { bankroll_cents = pos bank; rake_cents = pos rake }

-- The one referrer who is to be paid.
abbrev pub payee_of : Economics → Request → Option ℕ → Option ℕ
payee_of econ req referrer = if pays_commission econ req referrer then referrer else none

module _ (req : Request) (payee : Option ℕ) (avail cents bank kept id : ℕ) (w : World)
    (s : Scene req payee avail cents (house_of bank kept) id w) where
  -- The house takes what the round leaves.
  pub house_moves :
      (delta : ℤ) (rake bank' : ℕ)
      → pos bank +ℤ delta ≡ pos bank'
      → bank' ≤ max_int64
      → kept + rake ≤ max_int64
      → Returns
          (move_house delta (pos rake))
          w
          (λ h w'. Scene req payee avail cents (house_of bank' (kept + rake)) id w')
  unfolding move_house update_house
  house_moves delta rake bank' sum h k =
      let kept_sum : pos kept +ℤ pos rake ≡ pos (kept + rake) = omega int_laws in
      Returns-statement (update_house delta (pos rake)) house_error w
        (record w { db = record w.db { house = house_of bank' (kept + rake) } })
        (house_of bank' (kept + rake)) s.calm (rw (s.house_eq, sum, kept_sum) (ground arith))
        (record {
          calm = s.calm;
          row = s.row;
          found = s.found;
          available = s.available;
          owner = s.owner;
          house_eq = refl;
          unpaid = s.unpaid;
          paying = λ r e.
              let q = s.paying r e in
              (
                q.0,
                record {
                  row = q.1.row;
                  found = q.1.found;
                  cents_eq = q.1.cents_eq;
                  owner = q.1.owner;
                },
              );
        })

  -- The commission reaches the referrer.
  pub referrer_moves :
      (econ : Economics) (r c : ℕ)
      → payee ≡ some r
      → 0 < c
      → cents + c ≤ max_int64
      → Returns (move (referral_params econ req r (pos c) id)) w (λ a w'. w'.answers ≡ [])
  unfolding realm_allows spendable
  referrer_moves econ r c e c0 fits =
      let q = (s.paying r e).1 in
      let p = referral_params econ req r (pos c) id in
      let after : q.row.real_cents +ℤ pos c ≡ pos (cents + c) = rw q.cents_eq (omega int_laws) in
      let allowed : IsAllowed p q.row w = record {
        calm = s.calm;
        found = q.found;
        moves = ground arith;
        realm = refl;
        covered = rw after (ground arith);
        fits = rw after (ground arith);
        unpaid = s.unpaid;
        owner = q.owner;
      } in
      Returns-at (move p) w _ _ (move_returns p q.row w allowed) s.calm
