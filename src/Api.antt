-- ===== src/Api.antt =====
-- internal/api/game.go: the errors of a spin, and the pages of the histories.
pub mod Pages
pub mod Spins
pub mod Retry
pub mod Accounts
pub mod Sessions
pub mod Login
pub mod Entry
pub mod Register
mod SessionTests
mod WinnersTests
pub mod Me
pub mod Profile
pub mod History
pub mod Winners
pub mod Strangers
mod Tests
use braelaspin.Prelude.{
  ℕ, ℤ, pos, ◌-◌, Bool, true, false, ◌&&◌, Option, none, some, Text, List, [], ◌∷◌, codes,
  parse_int, is_empty, leb_ℤ, ltb_ℤ, if◌then◌else◌, length, take, ltb, ◌==◌,
}
use braelaspin.Database.{SpinRow}
use braelaspin.Database.Newest.{newest_first}
use braelaspin.Http.{
  Failure, api, unmapped, errorf, err_conflict, err_internal, with_meta, with_cause, of_service,
}
use braelaspin.Errors.{
  Error, stake_limit, stake_too_small, stake_too_large, no_funds, stake_exceeds_bank,
  duplicate_spin, bankroll_exhausted,
}

-- mapSpinError
unfoldable pub map_spin_error : Error → Failure
map_spin_error (stake_limit stake_too_small n) = api (
    with_meta (codes "min_stake_cents") n
      (errorf 400 (codes "stake_too_small") (codes "That bet is below the minimum.")))
map_spin_error (stake_limit stake_too_large n) = api (
    with_meta (codes "max_stake_cents") n
      (errorf 400 (codes "stake_too_large") (codes "That bet is above the maximum.")))
map_spin_error (stake_limit no_funds n) = api (
    with_meta (codes "balance_cents") n
      (errorf 400 (codes "insufficient_funds") (codes "You don't have enough for that bet.")))
map_spin_error (stake_limit stake_exceeds_bank n) = api (
    with_meta (codes "max_stake_cents") n
      (errorf 400 (codes "stake_exceeds_bankroll") (codes "That bet is too large right now.")))
map_spin_error duplicate_spin =
    api (err_conflict (codes "duplicate_spin") (codes "That spin was already played."))
map_spin_error bankroll_exhausted = api (with_cause (of_service bankroll_exhausted) err_internal)
map_spin_error e = unmapped (of_service e)

-- clampLimit
unfoldable pub clamp_limit : Text → ℤ → ℤ → ℤ
clamp_limit raw default max = if is_empty raw then default else elim (parse_int raw) [
  | none ↦ default
  | some n ↦ (if leb_ℤ n (pos 0) then default else if ltb_ℤ max n then max else n)
]

-- parseCursor
unfoldable pub parse_cursor : Text → Option ℤ
parse_cursor raw =
    if is_empty raw
    then none
    else elim (parse_int raw) [ none ↦ none | some n ↦ (if leb_ℤ n (pos 0) then none else some n) ]

-- pageResp
pub record Page (A : Type 0) : Type 0 where
  pub items : List A
  pub next_cursor : Option ℤ

-- page, with the id of the last item where there is one
unfoldable pub page : {A : Type 0} → List A → Bool → Option ℤ → Page A
page items has_more last = record {
  items = items;
  next_cursor = if has_more && ltb 0 (length items) then last else none;
}

abbrev pub before : Option ℤ → ℕ → Bool
before none id = true
before (some c) id = ltb_ℤ (pos id) c

-- WHERE user_id = $1 AND ($2::bigint IS NULL OR id < $2)
unfoldable pub matching : ℕ → Option ℤ → List SpinRow → List SpinRow
matching user_id cursor [] = []
matching user_id cursor (s ∷ rows) =
    let rest = matching user_id cursor rows in
    if (s.user_id == user_id) && before cursor s.id then s ∷ rest else rest

-- the query of spins without its LIMIT, with its ORDER BY id DESC
abbrev pub select_spins : ℕ → Option ℤ → List SpinRow → List SpinRow
select_spins user_id cursor rows = matching user_id cursor (newest_first (λ s. s.id) rows)

abbrev pub last_id : List SpinRow → Option ℤ
last_id [] = none
last_id (s ∷ []) = some (pos s.id)
last_id (s ∷ t ∷ rows) = last_id (t ∷ rows)

-- spins: the query, and the page made of its rows; the columns that the reply leaves out are kept
unfoldable pub spins_page : ℕ → Option ℤ → ℕ → List SpinRow → Page SpinRow
spins_page user_id cursor limit rows =
    let items = take limit (select_spins user_id cursor rows) in
    page items (length items == limit) (last_id items)
