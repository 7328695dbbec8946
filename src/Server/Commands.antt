-- ===== src/Server/Commands.antt =====
-- cmd/api/main.go: main, run, migrate and healthcheck. The HTTP client of the probe and the environment are
-- parameters; the texts that the process prints are left out.
use braelaspin.Prelude.{
  ℕ, ◌≡◌, ◌≤◌, ◌↔◌, refl, not, Text, List, [], ◌∷◌, ◌++◌, codes, Option, none, some, Result, ok,
  err, text_eq, is_empty, has_prefix, length, arith, ◌==◌, if◌then◌else◌,
}
use braelaspin.Calls.{Call, ◌>>=◌, pure, fail, raise_if, or_fail}
use braelaspin.Config.{Settings, load}
use braelaspin.Config.Read.{Grammar, Env, Problems}
use braelaspin.Migrations.{DbError, migrate_up, migrate_down, print_status}
use braelaspin.Server.Serve.{Platform, ServeError, serve}

-- The error of run, by the call that returned it.
pub data RunError (E : Type 0) : Type 0 where
  unknown_command unknown_subcommand : Text → RunError E
  bad_settings : Problems → RunError E
  of_serve : ServeError E → RunError E
  of_migrate : DbError → RunError E
  no_probe : RunError E
  unhealthy : ℕ → RunError E

-- How the process ends: with status 0, with status 1, or with a panic.
pub data Exit : Type 0 where
  succeeded failed panicked : Exit

-- the URL that healthcheck probes, from HTTP_ADDR
unfoldable pub health_url : Text → Text
health_url http_addr =
    let addr = if is_empty http_addr then codes ":8080" else http_addr in
    codes "http://"
    ++ ((if has_prefix addr (codes ":") then codes "127.0.0.1" ++ addr else addr)
        ++ codes "/healthz")

-- os.Args[2:], where `none` is the panic of a slice that ends before it begins
unfoldable pub sub_args : List Text → Option (List Text)
sub_args [] = none
sub_args (program ∷ []) = none
sub_args (program ∷ cmd ∷ args) = some args

-- the command to run
unfoldable pub command : List Text → Text
command [] = codes "serve"
command (program ∷ []) = codes "serve"
command (program ∷ cmd ∷ args) = cmd

module _ {S E : Type 0} (p : Platform S E) (get : Text → Call S Unit ℕ) (http_addr : Text)
    (g : Grammar) (env : Env) where
  -- healthcheck, with the status that the probe reports
  unfoldable pub healthcheck : Call S (RunError E) Unit
  healthcheck = do
    status ← or_fail (get (health_url http_addr)) (λ e. no_probe)
    raise_if (not (status == 200)) (unhealthy status)

  abbrev subcommand : List Text → Text
  subcommand [] = codes "up"
  subcommand (sub ∷ rest) = sub

  -- migrate
  unfoldable pub migrate : Settings → List Text → Call S (RunError E) Unit
  migrate c args =
      let sub = subcommand args in
      if text_eq sub (codes "up")
      then or_fail (migrate_up p.driver c.database_url) of_migrate
      else if text_eq sub (codes "down")
      then or_fail (migrate_down p.driver c.database_url) of_migrate
      else if text_eq sub (codes "status")
      then or_fail (print_status p.driver c.database_url) of_migrate
      else fail (unknown_subcommand sub)

  abbrev loaded : Call S Problems Settings
  loaded s = (load g env, s)

  -- run
  unfoldable pub run : Text → List Text → Call S (RunError E) Unit
  run cmd args =
      let with_settings : Call S (RunError E) Unit = do
        c ← or_fail loaded bad_settings
        if text_eq cmd (codes "migrate") then migrate c args else or_fail (serve p c) of_serve
      in if text_eq cmd (codes "healthcheck")
        then healthcheck
        else if text_eq cmd (codes "version")
        then pure tt
        else if text_eq cmd (codes "serve")
        then with_settings
        else if text_eq cmd (codes "migrate")
        then with_settings
        else fail (unknown_command cmd)

  abbrev exit_of : Result (RunError E) Unit × S → Exit × S
  exit_of (ok x, s) = (succeeded, s)
  exit_of (err e, s) = (failed, s)

  abbrev run_with : Text → Option (List Text) → S → Exit × S
  run_with cmd none s = (panicked, s)
  run_with cmd (some args) s = exit_of (run cmd args s)

  -- main, from os.Args
  unfoldable pub main : List Text → S → Exit × S
  main args = run_with (command args) (sub_args args)

  not_panicked : (x : Result (RunError E) Unit × S) → (exit_of x).0 ≡ panicked → ⊥
  not_panicked (ok x, s) e = absurd (cc)
  not_panicked (err x, s) e = absurd (cc)

  -- The process panics exactly when it is started with no argument beside its name: then the default command
  -- serve, like every other, is not run.
  pub main-panicked : (args : List Text) (s : S) → ((main args s).0 ≡ panicked) ↔ (length args ≤ 1)
  unfolding main sub_args command
  main-panicked [] s = (λ e. omega arith, λ h. refl)
  main-panicked (program ∷ []) s = (λ e. omega arith, λ h. refl)
  main-panicked (program ∷ cmd ∷ args) s =
      (λ e. absurd (not_panicked (run cmd args s) e), λ h. absurd (omega arith))
