-- ===== src/Api/Winners.antt =====
-- internal/api/winners.go: the recent wins that strangers see. Times count microseconds, as in Postgres.
use braelaspin.Prelude.{
  ℕ, ℤ, ◌+◌, ◌*◌, ◌^◌, Bool, ◌&&◌, ◌||◌, Option, some, none, Text, List, [], ◌∷◌, map, take, ltb,
  ltb_ℤ, eqb_ℤ, ok, if◌then◌else◌,
}
use braelaspin.Database.{User, SpinRow, find_user}
use braelaspin.Database.Monad.{Statement, run_statement}
use braelaspin.Phone.{mask}
use braelaspin.Calls.{Call, ◌>>=◌, pure, or_fail}
use braelaspin.Tokens.{Site, on_world}
use braelaspin.Http.{Response, json, Failure, unmapped, of_service}
use braelaspin.Errors.{database}

-- winner
pub record Winner : Type 0 where
  pub name : Text
  pub payout_cents : ℤ
  pub multiplier_bp : ℤ
  pub created_at : ℕ

-- interval '24 hours'
abbrev pub day : ℕ
day = 86400 * 10 ^ 6

-- The phone number of the player, and the spin.
abbrev pub Win : Type 0
Win = Text × SpinRow

-- the WHERE
abbrev pub is_win : ℕ → SpinRow → Bool
is_win now s = s.is_real && ltb_ℤ s.stake_cents s.payout_cents && ltb now (s.created_at + day)

abbrev pub join_owner : Option User → SpinRow → List Win → List Win
join_owner none s rest = rest
join_owner (some u) s rest = (u.phone, s) ∷ rest

-- FROM spins JOIN users WHERE
unfoldable pub wins : ℕ → List User → List SpinRow → List Win
wins now users [] = []
wins now users (s ∷ rows) =
    let rest = wins now users rows in
    if is_win now s then join_owner (find_user s.user_id users) s rest else rest

-- ORDER BY payout_cents DESC, id DESC
abbrev pub goes_first : Win → Win → Bool
goes_first a b =
    ltb_ℤ b.1.payout_cents a.1.payout_cents
    || (eqb_ℤ a.1.payout_cents b.1.payout_cents && ltb b.1.id a.1.id)

unfoldable pub insert : Win → List Win → List Win
insert w [] = w ∷ []
insert w (x ∷ xs) = let rest = insert w xs in if goes_first w x then w ∷ x ∷ xs else x ∷ rest

unfoldable pub in_order : List Win → List Win
in_order [] = []
in_order (w ∷ ws) = insert w (in_order ws)

-- the query of winners, with its LIMIT 10
unfoldable pub select_winners : Statement (List Win)
select_winners w = ok (take 10 (in_order (wins w.now w.db.users w.db.spins)), w)

-- the body of the loop
unfoldable pub to_winner : Win → Winner
to_winner w = record {
  name = mask w.0;
  payout_cents = w.1.payout_cents;
  multiplier_bp = w.1.multiplier_bp;
  created_at = w.1.created_at;
}

-- winners
unfoldable pub winners : {S : Type 0} → Call (Site S) Failure (Response (List Winner))
winners = do
  rows ← or_fail (on_world (run_statement select_winners)) (λ e. unmapped (of_service (database e)))
  pure (json 200 (map to_winner rows))
