-- ===== src/Api/History.antt =====
-- internal/api/game.go: history, the player's view of the ledger.
use braelaspin.Prelude.{
  zero, suc, ◌≤◌, ◌≡◌, true, All, arith, Bool-cases, inl, inr, text_eq_iff, ◌⊎◌, refl, ℕ, ℤ, pos,
  Bool, ◌&&◌, ◌||◌, Option, none, some, Text, codes, List, [], ◌∷◌, length, take, text_eq, is_empty,
  ◌==◌, if◌then◌else◌,
}
use braelaspin.Database.{
  Entry, Kind, demo_grant, bet, win, deposit, withdraw, withdraw_reversed, referral, adjustment,
  unset,
}
use braelaspin.Database.Newest.{newest_first}
use braelaspin.Api.{Page, page, before}

-- the text of a kind, internal/wallet/wallet.go
unfoldable pub kind_text : Kind → Text
kind_text demo_grant = codes "demo_grant"
kind_text bet = codes "bet"
kind_text win = codes "win"
kind_text deposit = codes "deposit"
kind_text withdraw = codes "withdraw"
kind_text withdraw_reversed = codes "withdraw_reversed"
kind_text referral = codes "referral"
kind_text adjustment = codes "adjustment"
kind_text unset = []

-- $3 = '' OR kind = $3
abbrev pub of_kind : Text → Entry → Bool
of_kind kind e = is_empty kind || text_eq (kind_text e.kind) kind

-- the WHERE of history
unfoldable pub ledger_rows : ℕ → Option ℤ → Text → List Entry → List Entry
ledger_rows user_id cursor kind [] = []
ledger_rows user_id cursor kind (e ∷ rows) =
    let rest = ledger_rows user_id cursor kind rows in
    if (e.user_id == user_id) && before cursor e.id && of_kind kind e then e ∷ rest else rest

-- the query of history without its LIMIT, with its ORDER BY id DESC
abbrev pub select_entries : ℕ → Option ℤ → Text → List Entry → List Entry
select_entries user_id cursor kind rows =
    ledger_rows user_id cursor kind (newest_first (λ e. e.id) rows)

abbrev pub last_entry : List Entry → Option ℤ
last_entry [] = none
last_entry (e ∷ []) = some (pos e.id)
last_entry (e ∷ f ∷ rows) = last_entry (f ∷ rows)

-- history: the query of LIMIT `limit`, and the page made of its rows
unfoldable pub history_page : ℕ → Option ℤ → Text → ℕ → List Entry → Page Entry
history_page user_id cursor kind limit rows =
    let items = take limit (select_entries user_id cursor kind rows) in
    page items (length items == limit) (last_entry items)

-- A row that the player asked for: their own, below the cursor, of the kind or of any.
record IsAsked (user_id : ℕ) (cursor : Option ℤ) (kind : Text) (e : Entry) : Type 0 where
  own : e.user_id ≡ user_id
  below : before cursor e.id ≡ true
  right_kind : (kind ≡ []) ⊎ (kind_text e.kind ≡ kind)

right_kind_of :
    (kind : Text) (e : Entry) → of_kind kind e ≡ true → (kind ≡ []) ⊎ (kind_text e.kind ≡ kind)
right_kind_of [] e h = inl refl
right_kind_of (c ∷ s) e h = inr ((text_eq_iff (kind_text e.kind) (c ∷ s)).0 h)

of_kind-IsAsked :
    (user_id : ℕ) (cursor : Option ℤ) (kind : Text) (e : Entry)
    → ((e.user_id == user_id) && before cursor e.id && of_kind kind e) ≡ true
    → IsAsked user_id cursor kind e
of_kind-IsAsked user_id cursor kind e h = record {
  own = ground arith;
  below = ground arith;
  right_kind = right_kind_of kind e (ground arith);
}

ledger_rows-All :
    (user_id : ℕ) (cursor : Option ℤ) (kind : Text) (rows : List Entry)
    → All (IsAsked user_id cursor kind) (ledger_rows user_id cursor kind rows)
unfolding ledger_rows
ledger_rows-All user_id cursor kind [] = tt
ledger_rows-All user_id cursor kind (e ∷ rows) =
    elim (Bool-cases ((e.user_id == user_id) && before cursor e.id && of_kind kind e)) [
      | inl kept ↦
          rw kept
            (of_kind-IsAsked user_id cursor kind e kept, ledger_rows-All user_id cursor kind rows)
      | inr dropped ↦ rw dropped (ledger_rows-All user_id cursor kind rows)
    ]

take-All : (P : Entry → Type 0) (n : ℕ) (rows : List Entry) → All P rows → All P (take n rows)
take-All P zero rows h = tt
take-All P (suc n) [] h = tt
take-All P (suc n) (e ∷ rows) h = (h.0, take-All P n rows h.1)

length-take : (n : ℕ) (rows : List Entry) → length (take n rows) ≤ n
length-take zero rows = omega arith
length-take (suc n) [] = omega arith
length-take (suc n) (e ∷ rows) = omega (arith, length-take n rows)

-- A page of the history shows a player only what they asked for: at most `limit` rows, each their own,
-- below the cursor if there is one, and of the kind asked for unless the text of the kind is empty.
history_page-All :
    (user_id : ℕ) (cursor : Option ℤ) (kind : Text) (limit : ℕ) (rows : List Entry)
    → All (IsAsked user_id cursor kind) (history_page user_id cursor kind limit rows).items
      × (length (history_page user_id cursor kind limit rows).items ≤ limit)
unfolding history_page page
history_page-All user_id cursor kind limit rows = (
  take-All (IsAsked user_id cursor kind) limit (select_entries user_id cursor kind rows)
      (ledger_rows-All user_id cursor kind (newest_first (λ e. e.id) rows)),
  length-take limit (select_entries user_id cursor kind rows),
)
