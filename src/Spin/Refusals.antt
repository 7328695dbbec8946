-- ===== src/Spin/Refusals.antt =====
-- internal/game/spin.go: a spin that is refused has not happened.
use braelaspin.Prelude.{◌≡◌, ◌≢◌, Option, err}
use braelaspin.Database.Monad.{World, connection}
use braelaspin.Database.Rollback.{in_transaction-unchanged, guarded-unchanged}
use braelaspin.Errors.{Error, database}
use braelaspin.Spin.{Economics, Request, spin, spin_body}
use braelaspin.Wheel.Pick.{Buffer}

-- Whatever error Spin returns, the tables are as they were before the call; the one exception is the
-- error of a connection, after which a COMMIT may have taken effect.
refused_unchanged :
    (econ : Economics) (source : Option Buffer) (req : Request) (w : World) (e : Error)
    → (spin econ source req w).0 ≡ err e
    → e ≢ database connection
    → (spin econ source req w).1.db ≡ w.db
unfolding spin
refused_unchanged econ source req w e h n = guarded-unchanged _ _ _ w e h (λ k.
    guarded-unchanged _ _ _ w e k
      (λ l. in_transaction-unchanged database (spin_body econ source req) w e l n))
