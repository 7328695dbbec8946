-- ===== src/Database/Monad.antt =====
-- Statements and transactions. A statement may fail for a reason of the server or the network; a
-- COMMIT may also take effect while its answer is lost.
use braelaspin.Prelude.{ℕ, List, [], ◌∷◌, Result, ok, err, Bool, if◌then◌else◌}
use braelaspin.Database.{Db}

pub data Answer : Type 0 where
  works fails lost : Answer

-- The unique indexes whose violations can occur.
pub data Index : Type 0 where
  spins_client_ref tx_referral_once users_pkey users_phone_key users_ref_code_key wallets_pkey :
      Index

-- What pgx reports. `out_of_range` is Postgres's answer where a bigint overflows.
pub data SqlError : Type 0 where
  no_rows check_violation foreign_key out_of_range connection : SqlError
  unique_violation : Index → SqlError

pub record World : Type 0 where
  pub db : Db
  pub next_id : ℕ
  pub now : ℕ
  pub answers : List Answer

-- A call that reads and writes the world and may return an error. What was written before an error
-- stays written, until a transaction rolls back.
abbrev pub Exec : Type 0 → Type 0 → Type 0
Exec E A = World → Result E A × World

abbrev pub continue : {E A B : Type 0} → Result E A → (A → Exec E B) → Exec E B
continue (ok a) f w = f a w
continue (err e) f w = (err e, w)

infixl 5 ◌>>=◌ ◌>>◌
unfoldable pub ◌>>=◌ : {E A B : Type 0} → Exec E A → (A → Exec E B) → Exec E B
◌>>=◌ m f w = let (r, w') = m w in continue r f w'

abbrev pub ◌>>◌ : {E A B : Type 0} → Exec E A → Exec E B → Exec E B
m >> k = m >>= λ _. k

abbrev pub pure : {E A : Type 0} → A → Exec E A
pure a w = (ok a, w)

abbrev pub lift : {E A : Type 0} → Result E A → Exec E A
lift r w = (r, w)

abbrev pub raise_if : {E : Type 0} → Bool → E → Exec E Unit
raise_if c e w = (if c then err e else ok tt, w)

abbrev pub next_answer : World → Answer × World
next_answer w = elim w.answers [ [] ↦ (works, w) | a ∷ rest ↦ (a, record w { answers = rest }) ]

-- What a statement that was reached does: a value and the new tables, or an error.
abbrev pub Statement : Type 0 → Type 0
Statement A = World → Result SqlError (A × World)

abbrev pub answered : {A : Type 0} → World → Result SqlError (A × World) → Result SqlError A × World
answered w (ok (a, w')) = (ok a, w')
answered w (err e) = (err e, w)

unfoldable pub run_statement : {A : Type 0} → Statement A → Exec SqlError A
run_statement s w =
    let (o, w') = next_answer w in elim o [ works ↦ answered w' (s w') | _ ↦ (err connection, w') ]

-- `if err != nil { return ..., convert(err) }`
abbrev pub or_fail : {E F A : Type 0} → Exec F A → (F → E) → Exec E A
or_fail m convert w = let (r, w') = m w in (elim r [ ok a ↦ ok a | err e ↦ err (convert e) ], w')

-- tx.Commit(ctx), at the end of a body that began with the tables `before`
abbrev pub commit : {E A : Type 0} → Db → (SqlError → E) → A → Exec E A
commit before convert a w =
    let (o, w') = next_answer w in
    elim o [
      | works ↦ (ok a, w')
      | fails ↦ (err (convert connection), record w' { db = before })
      | lost ↦ (err (convert connection), w')
    ]

-- `defer tx.Rollback(ctx)`: an error of the body leaves the tables as they were
abbrev pub finish : {E A : Type 0} → Db → (SqlError → E) → Result E A → Exec E A
finish before convert (ok a) w = commit before convert a w
finish before convert (err e) w = (err e, record w { db = before })

-- pool.Begin, the body, and Commit or Rollback
unfoldable pub in_transaction : {E A : Type 0} → (SqlError → E) → Exec E A → Exec E A
in_transaction convert body w =
    let (o, w0) = next_answer w in
    elim o [
      | works ↦ (let (r, w1) = body w0 in finish w.db convert r w1)
      | _ ↦ (err (convert connection), w0)
    ]
