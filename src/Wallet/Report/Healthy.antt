-- ===== src/Wallet/Report/Healthy.antt =====
-- internal/wallet/invariant.go: when AssertInvariant accepts the tables.
use braelaspin.Prelude.{
  true, ◌≡◌, ◌↔◌, refl, Text, List, [], ◌∷◌, All, ok, Result-cases, inl, inr, arith,
}
use braelaspin.Wallet.Report.{
  Querier, invariants, check_of, checks_from, broken, asserted_of, assert_invariant,
}

check_of-healthy :
    (id name : Text) (rows : List Text) → ((check_of id name rows).healthy ≡ true) ↔ (rows ≡ [])
unfolding check_of
check_of-healthy id name [] = (λ h. refl, λ h. refl)
check_of-healthy id name (d ∷ rows) = (λ h. cc, λ h. cc)

asserted_of-checks_from :
    (q : Querier) (list : List (Text × Text))
    → (asserted_of (checks_from q list) ≡ ok tt) ↔ All (λ (i : Text × Text). q i.0 ≡ ok []) list
unfolding checks_from broken
asserted_of-checks_from q [] = (λ h. tt, λ h. refl)
asserted_of-checks_from q ((id, name) ∷ rest) = elim (Result-cases (q id)) [
  | inl (e, failed) ↦ ground arith
  | inr (rows, found) ↦ elim (Result-cases (checks_from q rest)) [
    | inl (e, failed) ↦ ground (arith, asserted_of-checks_from q rest)
    | inr (checks, made) ↦
        ground (arith, asserted_of-checks_from q rest, check_of-healthy id name rows)
  ]
]

-- AssertInvariant accepts the tables exactly when the query of each check runs and returns no row.
assert_invariant_lem :
    (q : Querier)
    → (assert_invariant q ≡ ok tt) ↔ All (λ (i : Text × Text). q i.0 ≡ ok []) invariants
unfolding assert_invariant
assert_invariant_lem q = asserted_of-checks_from q invariants
