-- ===== src/Server/Ready.antt =====
-- cmd/api/main.go: serve does not listen before its checks have passed.
use braelaspin.Prelude.{
  ap, ℤ, ◌≡◌, refl, ◌⊎◌, inl, inr, Bool, true, false, Text, Result, ok, err, List, [], ◌∷◌,
  if◌then◌else◌,
}
use braelaspin.Calls.{Call, ◌>>=◌, ◌>>◌, proceed, or_fail, or_fail-ok}
use braelaspin.Calls.Keeps.{Keeps, Keeps-bind, Keeps-pure, Keeps-if, Keeps-or_fail}
use braelaspin.Config.{Settings}
use braelaspin.Migrations.{
  bad_url, no_provider, Driver, DbError, pinged, open_pool, closed, with_goose, migrate_up,
  raise_pending, pending, assert_current,
}
use braelaspin.Migrations.Current.{IsQuiet, Current, assert_current-Current}
use braelaspin.Spin.{Economics}
use braelaspin.Server.{start_up}
use braelaspin.Server.Serve.{Platform, of_db, not_ready, checked, with_pool, serve, finally}

then_after :
    {S E A B K : Type 0} {P : S → Type 0} (m : Call S E A) (f : A → Call S E B) (s : S)
    (q : Result E A × S)
    → ((s' : S) (a : A) → q ≡ (ok a, s') → K)
    → (K → (a : A) → Keeps P (f a))
    → P q.1
    → P (proceed q f).1
then_after m f s (ok a, s1) shows rest h = (rest (shows s1 a refl) a).at s1 h
then_after m f s (err x, s1) shows rest h = h

-- The rest may rely on what the first call showed by returning a value.
Keeps-then :
    {S E A B K : Type 0} {P : S → Type 0} (m : Call S E A) (f : A → Call S E B)
    → Keeps P m
    → ((s s' : S) (a : A) → P s → m s ≡ (ok a, s') → K)
    → (K → (a : A) → Keeps P (f a))
    → Keeps P (m >>= f)
unfolding ◌>>=◌
Keeps-then m f keeps shows rest = record {
  at = λ s h. then_after m f s (m s) (λ s' a e. shows s s' a h e) rest (keeps.at s h);
}

module _ {S : Type 0} {d : Driver S} {Idle : S → Type 0} (quiet : IsQuiet d Idle) where
  pinged-Idle : (q : Result Unit Unit × S) → Idle q.1 → Idle (pinged d q).1
  pinged-Idle (ok x, s) h = h
  pinged-Idle (err e, s) h = quiet.close_pool-Idle s h

  open_pool-Idle : (url : Text) (max min : ℤ) → Keeps Idle (open_pool d url max min)
  unfolding open_pool
  open_pool-Idle url max min =
      Keeps-if (d.parses url) _ _
        (Keeps-bind _ _ (Keeps-or_fail _ _ (record { at = quiet.new_pool-Idle _ }))
          λ x. record { at = λ s h. pinged-Idle (d.ping s) (quiet.ping-Idle s h) })
        (record { at = λ s h. h })

  with_goose-Idle :
      {A : Type 0} (url : Text) (fn : Call S DbError A)
      → Keeps Idle fn
      → Keeps Idle (with_goose d url fn)
  unfolding with_goose
  with_goose-Idle {A} url fn keeps = record { at = λ s h. by_url s h (d.parses url) }
    where
      body : Keeps Idle (or_fail d.new_provider (λ e. no_provider) >> fn)
      body = Keeps-bind _ _ (Keeps-or_fail _ _ (record { at = quiet.new_provider-Idle })) λ x. keeps

      by_url :
          (s : S)
          → Idle s
          → (b : Bool)
          → let x : Result DbError A × S =
              (if b
                then closed d ((or_fail d.new_provider (λ e. no_provider) >> fn) (d.open_db url s))
                else (err bad_url, s)) in
            Idle x.1
      by_url s h true =
          quiet.close_db-Idle _ (body.at (d.open_db url s) (quiet.open_db-Idle url s h))
      by_url s h false = h

  migrate_up-Idle : (url : Text) → Keeps Idle (migrate_up d url)
  unfolding migrate_up
  migrate_up-Idle url =
      with_goose-Idle url _
        (Keeps-bind _ _ (Keeps-or_fail _ _ (record { at = quiet.up-Idle })) λ x. Keeps-pure tt)

  raise_pending-Idle : (ms : List Text) → Keeps Idle (raise_pending d ms)
  raise_pending-Idle [] = record { at = λ s h. h }
  raise_pending-Idle (m ∷ ms) = record { at = λ s h. h }

  assert_current-Idle : (url : Text) → Keeps Idle (assert_current d url)
  unfolding assert_current
  assert_current-Idle url = with_goose-Idle url _ (
      Keeps-bind _ _ (Keeps-or_fail _ _ (record { at = quiet.status-Idle }))
        λ ms. raise_pending-Idle (pending ms))

-- What serve has checked before it listens. The state in which the database was opened to ask goose is one
-- that satisfies every property which the first state has and which the calls on the database keep.
pub record Ready {S E : Type 0} (p : Platform S E) (c : Settings) (Idle : S → Type 0) : Type 0 where
  pub economics : Economics
  pub passed : start_up c ≡ ok economics
  pub current : Current p.driver c.database_url Idle

module _ {S E : Type 0} (p : Platform S E) (c : Settings) {Idle : S → Type 0}
    (quiet : IsQuiet p.driver Idle) where
  abbrev Before : S → Type 0
  Before s = Idle s ⊎ Ready p c Idle

  still : {F A : Type 0} (m : Call S F A) → Keeps Idle m → Keeps Before m
  still m k = record { at = λ s h. elim h [ inl idle ↦ inl (k.at s idle) | inr ready ↦ inr ready ] }

  now : {F A : Type 0} (m : Call S F A) → Ready p c Idle → Keeps Before m
  now m ready = record { at = λ s h. inr ready }

  with_pool-Before : (econ : Economics) → start_up c ≡ ok econ → Keeps Before (with_pool p c)
  unfolding with_pool
  with_pool-Before econ passed =
      Keeps-bind _ _
        (Keeps-if c.migrate_on_boot _ _
          (Keeps-or_fail _ _ (still _ (migrate_up-Idle quiet c.database_url))) (Keeps-pure tt))
        λ x.
          Keeps-then _ _ (Keeps-or_fail _ _ (still _ (assert_current-Idle quiet c.database_url)))
            (λ s s' a h e. elim h [
              | inl idle ↦ record {
                economics = econ;
                passed = passed;
                current =
                    assert_current-Current p.driver c.database_url Idle s s' idle
                      (or_fail-ok _ of_db s s' a e);
              }
              | inr ready ↦ ready
            ])
            λ ready y. now _ ready

  pool-Before :
      (econ : Economics)
      → start_up c ≡ ok econ
      → Keeps Before (
          or_fail (open_pool p.driver c.database_url c.db_max_conns c.db_min_conns) of_db
          >> (λ s. finally p.driver.close_pool (with_pool p c s)))
  pool-Before econ passed =
      Keeps-bind _ _ (Keeps-or_fail _ _ (still _ (open_pool-Idle quiet _ _ _))) λ x. record {
        at = λ s h. elim ((with_pool-Before econ passed).at s h) [
          | inl idle ↦ inl (quiet.close_pool-Idle _ idle)
          | inr ready ↦ inr ready
        ];
      }

  -- The server listens only when it is ready. Take any property of the state, such as that no HTTP server has
  -- been started, that holds at first and that the calls on the database keep. Whatever the answers on the
  -- way, either it still holds when serve ends, or the wheel and the stake ceiling of the settings passed
  -- their checks, and goose answered that every migration is applied, when it was asked of the database of
  -- the settings, opened in a state in which the property held.
  pub serve-Ready : (s : S) → Idle s → Idle (serve p c s).1 ⊎ Ready p c Idle
  unfolding serve
  serve-Ready s h =
      (Keeps-then {K = (econ : Economics) × (start_up c ≡ ok econ)} _ _
          (Keeps-or_fail _ _ (still (checked p c) (record { at = λ s h. h })))
          (λ s s' a h e. (a, ap (λ x. x.0) (or_fail-ok (checked p c) not_ready s s' a e)))
          λ k x. pool-Before k.0 k.1).at
        s (inl h)
