-- ===== src/Lib.antt =====
-- Braelaspin's money and game logic: the prize wheel, the wallets and their ledger, rounds, accounts,
-- phone numbers and settings.
--
-- A player's request reaches internal/game (Spin), which draws a segment of the wheel and moves the
-- money through internal/wallet (Move, MoveHouse) inside one transaction; internal/users creates the
-- accounts and their wallets; internal/config reads the settings and cmd/api/main.go checks them before
-- it serves. In front of that, internal/httpx admits the request (the rate limit, the access token), the
-- handlers of internal/api claim the client_ref of a spin before they play it, and internal/auth keeps
-- refresh tokens and bans in Redis through internal/rds.
--
-- The files, and the code that they model:
-- - Wheel, Wheel/*: internal/game/wheel.go. The tables (demo_wheel, wheel), validate, pick_from, payout,
--   max_exposure, max_affordable_stake, validate_stake_ceiling.
-- - Spin, Spin/*: internal/game/spin.go. spin is Spin, play is its part after the draw; Spin/Statements has
--   its SQL texts. Spin/Shifts, Spin/Rounds and Spin/Money are the proofs about money, Spin/Sound those
--   about the ledger, Spin/Scene, Played, Returns, Success, Opening and Covered those that a round succeeds, and
--   Spin/Refusals, Solvent and Admitted are about errors.
-- - Wallet, Wallet/*: internal/wallet/wallet.go, and in Wallet/Ledger the rules of
--   internal/wallet/invariant.go that need wallets and transactions only; Wallet/Report has its loops, and the ids
--   and names of its checks; Wallet/Reversal is about holds.
-- - Users, Users/*: internal/users/users.go, with NewRefCode of internal/auth/token.go.
-- - Phone, Phone/*: internal/auth/phone.go.
-- - Config, Config/*: internal/config/config.go; Config/Checks has the record of settings and the checks across them.
-- - Passwords, Passwords/*: internal/auth/password.go. Passwords/Base64 is what it uses of encoding/base64;
--   Passwords/Samples has a derivation in place of Argon2, for the tests.
-- - Migrations, Migrations/*: internal/db/db.go, over a record of the calls of pgx and goose.
-- - Server, Server/*: cmd/api/main.go. Server has the checks of serve, Server/Serve the rest of it with Open of
--   internal/rds/rds.go, Server/Commands main, run, migrate and healthcheck, Server/Logs the redaction.
-- - Redis, Redis/*: internal/rds/rds.go without Open, over a record of the commands that it sends. Redis/Laws states what
--   the code relies on of them; Redis/Memory is a server that keeps these laws, for the tests.
-- - Tokens, Tokens/*: internal/auth/token.go.
-- - Http, Http/*: internal/httpx/respond.go (Http), middleware.go (Http/Middleware), cors.go
--   (Http/Cors) and of router.go the health endpoints (Http/Health).
-- - Api, Api/*: internal/api/game.go (Api, Api/Pages, Api/Spins, Api/History), and of internal/api/auth.go, api.go and
--   me.go register, login and New (Api/Sessions) and the other handlers (Api/Accounts, Api/Me); of winners.go,
--   Api/Winners. Api/Retry is about repeated requests, Api/Login, Entry and Register about who gets in, and
--   Api/Strangers and Api/Profile about what winners and me show.
-- - Calls, Calls/*: calls on a state of any type, for the code over Redis.
-- - Database, Database/*: the tables of internal/db/migrations/0001_init.sql, statements and transactions.
-- - Errors: the errors of the services. Prelude, Prelude/*: shared notation, integers, texts.
--
-- How the state is modelled. Database.Monad.World holds the tables, the next row id, the clock in microseconds and a list
-- of answers. A call is a function from a world to a result and a world. Each SQL text is a function on
-- the tables, with the schema's constraints; before it runs, the next answer says whether the server and
-- the network work, fail, or (at COMMIT) lose the reply to a commit that took effect. A transaction that
-- returns an error leaves the tables as they were. Transactions run one after the other, for the row locks
-- that the source takes. An int64 and an int wrap around modulo 2^64; a bigint that overflows is an error,
-- as in Postgres.
--
-- Tokens.Site holds the state of Redis, of a type that stays open, with a world, the clock and the answers of
-- crypto/rand. Any command of Redis may fail. A theorem about two requests, one after the other, takes any
-- later state in which the one key that matters holds what the first request left there; so other requests
-- in between, and the rest of Redis, are covered, and the expiry of that key is not.
--
-- Fuel: Create tries 5 times, as the source does, and the digits of a number are written with fuel 20,
-- enough for every int64. No other definition runs on fuel.
--
-- Parameters: the bytes of crypto/rand, the answers of the database, the commands of Redis, the calls of
-- pgx, goose and go-redis that open and close connections, Argon2, signing and parsing of the package
-- jwt, the HTTP server, the environment, the JSON text of a spin's result, unicode.ToLower beyond ASCII, and
-- the grammars of time.ParseDuration, net.ParseCIDR, net.ParseIP, net.SplitHostPort and url.Parse.
--
-- Not modelled: the table of routes; the JSON of requests; the recovery of panics (a panic of
-- argon2 is an error value, answered with 500), timeouts and log lines other than the redaction;
-- the rest of internal/httpx/router.go; the push messages of internal/rds; the tables of deposits and withdrawals; the
-- test harness internal/testutil; the SQL texts of I4 to I8, in internal/wallet/invariant.go; the time that a comparison of passwords takes; concurrency below
-- the row locks and the single commands of Redis; and the texts of the services' errors.
pub mod Prelude
pub mod Wheel
pub mod Database
pub mod Errors
pub mod Wallet
pub mod Spin
pub mod Users
pub mod Config
pub mod Server
pub mod Phone
pub mod Migrations
pub mod Passwords
pub mod Api
pub mod Calls
pub mod Redis
pub mod Tokens
pub mod Http
