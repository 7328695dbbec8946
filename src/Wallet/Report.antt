-- ===== src/Wallet/Report.antt =====
-- internal/wallet/invariant.go: Invariants and AssertInvariant. The rows that each query returns, or the
-- driver's error, are a parameter: some of the queries read tables that no other part of the model has.
pub mod Healthy
use braelaspin.Prelude.{
  ℕ, Bool, true, false, not, Text, List, [], ◌∷◌, ◌++◌, codes, Result, ok, err, ◌>>=◌, is_empty,
  take, if◌then◌else◌,
}
use braelaspin.Database.Monad.{SqlError}

-- Check
pub record Check : Type 0 where
  pub id : Text
  pub name : Text
  pub healthy : Bool
  pub detail : Text

-- the id and the name of each entry of invariants; its query is a parameter
abbrev check_i1 : Text × Text
check_i1 = (codes "I1", codes "every wallet balance is derivable from the ledger")

abbrev check_i2 : Text × Text
check_i2 = (codes "I2", codes "no balance is negative")

abbrev check_i3 : Text × Text
check_i3 = (codes "I3", codes "demo and real money never mix")

abbrev check_i4 : Text × Text
check_i4 = (codes "I4", codes "deposits credit exactly once, for no more than was requested")

abbrev check_i5 : Text × Text
check_i5 = (codes "I5", codes "withdrawal holds reconcile exactly against open withdrawals")

abbrev check_i5b : Text × Text
check_i5b = (
  codes "I5b",
  codes "every terminal withdrawal is either settled or reversed, never both, never neither",
)

abbrev check_i6 : Text × Text
check_i6 = (codes "I6", codes "spins are arithmetically exact and fully recorded")

abbrev check_i7 : Text × Text
check_i7 =
    (codes "I7", codes "referral commissions are bounded, non-reflexive, and paid at most once")

abbrev check_i8 : Text × Text
check_i8 = (codes "I8", codes "the ledger is append-only")

-- the order of invariants
abbrev pub invariants : List (Text × Text)
invariants =
    check_i1 ∷ check_i2 ∷ check_i3 ∷ check_i4 ∷ check_i5 ∷ check_i5b ∷ check_i6 ∷ check_i7
    ∷ check_i8 ∷ []

-- The rows of the query with this id.
abbrev pub Querier : Type 0
Querier = Text → Result SqlError (List Text)

abbrev pub no_rows_left : List Text → Bool
no_rows_left [] = true
no_rows_left (d ∷ ds) = false

-- strings.Join(details, "; ")
unfoldable pub join : List Text → Text
join [] = []
join (d ∷ []) = d
join (d ∷ e ∷ ds) = d ++ (codes "; " ++ join (e ∷ ds))

-- the end of the loop's body: at most ten details are kept
unfoldable pub check_of : Text → Text → List Text → Check
check_of id name rows =
    let details = take 10 rows in
    let healthy = no_rows_left details in
    record {
      id = id;
      name = name;
      healthy = healthy;
      detail = if healthy then [] else join details;
    }

-- the loop of Invariants
unfoldable pub checks_from : Querier → List (Text × Text) → Result SqlError (List Check)
checks_from q [] = ok []
checks_from q ((id, name) ∷ rest) =
    q id >>= λ rows. checks_from q rest >>= λ checks. ok (check_of id name rows ∷ checks)

-- the loop of AssertInvariant
unfoldable pub broken : List Check → List Check
broken [] = []
broken (c ∷ checks) = let rest = broken checks in if not c.healthy then c ∷ rest else rest

pub data AssertError : Type 0 where
  query_failed : SqlError → AssertError
  integrity_violated : List Check → AssertError

abbrev pub asserted : List Check → Result AssertError Unit
asserted [] = ok tt
asserted (c ∷ checks) = err (integrity_violated (c ∷ checks))

abbrev pub asserted_of : Result SqlError (List Check) → Result AssertError Unit
asserted_of (ok checks) = asserted (broken checks)
asserted_of (err e) = err (query_failed e)

-- AssertInvariant
unfoldable pub assert_invariant : Querier → Result AssertError Unit
assert_invariant q = asserted_of (checks_from q invariants)
