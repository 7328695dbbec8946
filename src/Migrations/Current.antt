-- ===== src/Migrations/Current.antt =====
-- internal/db/db.go: AssertCurrent passes only a schema on which every migration is applied.
use braelaspin.Prelude.{
  ◌≡◌, refl, Bool, true, false, Text, List, [], ◌∷◌, All, Result, ok, err, if◌then◌else◌,
}
use braelaspin.Calls.{Call, ◌>>◌, or_fail, bind-ok, or_fail-ok}
use braelaspin.Migrations.{
  Driver, PoolConfig, DbError, MigrationStatus, no_status, no_provider, closed, with_goose, pending,
  raise_pending, assert_current,
}

abbrev pub AllApplied : List MigrationStatus → Type 0
AllApplied ms = All (λ m. m.applied ≡ true) ms

pending_lem : (ms : List MigrationStatus) → pending ms ≡ [] → AllApplied ms
unfolding pending
pending_lem [] e = tt
pending_lem (m ∷ ms) e = by_status m.applied refl (pending_lem ms) e
  where
    by_status :
        (b : Bool)
        → m.applied ≡ b
        → (pending ms ≡ [] → AllApplied ms)
        → (if b then pending ms else m.path ∷ pending ms) ≡ []
        → AllApplied (m ∷ ms)
    by_status true h rest k = (h, rest k)
    by_status false h rest k = absurd (cc)

-- The calls on the database keep a property of the state.
pub record IsQuiet {S : Type 0} (d : Driver S) (Idle : S → Type 0) : Type 0 where
  pub new_pool-Idle : (c : PoolConfig) (s : S) → Idle s → Idle (d.new_pool c s).1
  pub ping-Idle : (s : S) → Idle s → Idle (d.ping s).1
  pub close_pool-Idle : (s : S) → Idle s → Idle (d.close_pool s)
  pub open_db-Idle : (url : Text) (s : S) → Idle s → Idle (d.open_db url s)
  pub close_db-Idle : (s : S) → Idle s → Idle (d.close_db s)
  pub new_provider-Idle : (s : S) → Idle s → Idle (d.new_provider s).1
  pub up-Idle : (s : S) → Idle s → Idle (d.up s).1
  pub status-Idle : (s : S) → Idle s → Idle (d.status s).1

module _ {S : Type 0} (d : Driver S) where
  -- The database of a URL was opened in a state with a property, a provider was made on it, and goose
  -- answered there that every migration is applied.
  pub record Current (url : Text) (Idle : S → Type 0) : Type 0 where
    pub before : S
    pub idle : Idle before
    pub asked : S
    pub provided : d.new_provider (d.open_db url before) ≡ (ok tt, asked)
    pub after : S
    pub migrations : List MigrationStatus
    pub answered : d.status asked ≡ (ok migrations, after)
    pub applied : AllApplied migrations

  raise_pending-ok : (ms : List Text) (s s' : S) → raise_pending d ms s ≡ (ok tt, s') → ms ≡ []
  raise_pending-ok [] s s' e = refl
  raise_pending-ok (m ∷ ms) s s' e = absurd (cc)

  closed-ok :
      {A : Type 0} (p : Result DbError A × S) (x : A) (s' : S)
      → closed d p ≡ (ok x, s')
      → p ≡ (ok x, p.1)
  closed-ok (ok y, s) x s' e = let same : y ≡ x = cc in rw same refl
  closed-ok (err z, s) x s' e = absurd (cc)

  with_goose-ok :
      {A : Type 0} (url : Text) (fn : Call S DbError A) (x : A) (s s' : S)
      → with_goose d url fn s ≡ (ok x, s')
      → (s1 : S) × (s2 : S) × (d.new_provider (d.open_db url s) ≡ (ok tt, s1))
        × (fn s1 ≡ (ok x, s2))
  unfolding with_goose
  with_goose-ok url fn x s s' e = by_url (d.parses url) e
    where
      by_url :
          (b : Bool)
          → (if b
              then closed d ((or_fail d.new_provider (λ e. no_provider) >> fn) (d.open_db url s))
              else (err DbError.bad_url, s))
            ≡ (ok x, s')
          → (s1 : S) × (s2 : S) × (d.new_provider (d.open_db url s) ≡ (ok tt, s1))
            × (fn s1 ≡ (ok x, s2))
      by_url true h =
          let ran = closed-ok _ x s' h in
          let (u, s1, e1, e2) =
            bind-ok (or_fail d.new_provider (λ e. no_provider)) (λ z. fn) _ _ x ran in
          (s1, _, or_fail-ok d.new_provider _ _ s1 u e1, e2)
      by_url false h = absurd (cc)

  -- AssertCurrent passes only where goose answered, of the database of its URL, that every migration is
  -- applied.
  pub assert_current-Current :
      (url : Text) (Idle : S → Type 0) (s s' : S)
      → Idle s
      → assert_current d url s ≡ (ok tt, s')
      → Current url Idle
  unfolding assert_current
  assert_current-Current url Idle s s' idle e =
      let (s1, s2, made, ran) = with_goose-ok url _ tt s s' e in
      let (ms, s3, e1, e2) =
        bind-ok (or_fail d.status (λ e. no_status)) (λ ms. raise_pending d (pending ms)) s1 s2 tt
          ran in
      record {
        before = s;
        idle = idle;
        asked = s1;
        provided = made;
        after = s3;
        migrations = ms;
        answered = or_fail-ok d.status _ s1 s3 ms e1;
        applied = pending_lem ms (raise_pending-ok (pending ms) s3 s2 e2);
      }
