-- ===== src/Cmd.antt =====
-- cmd/ and internal/db/db.go: how the three programs start. What is behind the start of a server, the
-- signals and the shutdown is left out. Whether pgx parses the URL, makes the pool and reaches the
-- database is given, and so is zerolog.ParseLevel.
pub mod Admin
pub mod Intervals
mod Tests
use skybeam_mail.Prelude.{ℕ, ◌*◌, Bool, true, false, Option, List, if◌then◌else◌, Text, is_empty}
use skybeam_mail.Prelude.Int.{ℤ}
use skybeam_mail.Store.World.{Env, World, M, pure, ◌>>=◌}
use skybeam_mail.Auth.{Crypto, create_admin}
use skybeam_mail.Reconciler.Run.{Wake, Ran, run}
use skybeam_mail.Watcher.Run.{Watchers, Moment, run_at}
use skybeam_mail.Config.{Environ, Dir, System, Config, Loaded, minute, load}

-- What pgxpool.ParseConfig, pgxpool.NewWithConfig and Ping answer.
pub record PoolAnswers : Type 0 where
  pub parses : Bool
  pub creates : Bool
  pub pings : Bool

-- The settings of a pool; times are in nanoseconds.
pub record Limits : Type 0 where
  pub max_conns : ℕ
  pub min_conns : ℕ
  pub max_conn_lifetime : ℕ
  pub max_conn_idle_time : ℕ
  pub health_check_period : ℕ

-- How NewPool returns. Where the ping fails the pool has been closed.
pub data Opened : Type 0 where
  parse_failed create_failed ping_failed : Opened
  opened : Limits → Opened

-- `NewPool`
unfoldable pub new_pool : PoolAnswers → Opened
new_pool answers =
    if answers.parses
    then if answers.creates
      then if answers.pings
        then Opened.opened (record {
          max_conns = 20;
          min_conns = 2;
          max_conn_lifetime = 30 * minute;
          max_conn_idle_time = 5 * minute;
          health_check_period = minute;
        })
        else Opened.ping_failed
      else Opened.create_failed
    else Opened.parse_failed

-- The flags of the API.
pub record Flags : Type 0 where
  pub setup_admin : Text
  pub password : Text

pub data Fatal : Type 0 where
  no_database no_password admin_not_created : Fatal

-- How a program gets on: it exits with the variables that are missing, logs a fatal error and exits,
-- ends once the administrator is there, or goes on to its service.
pub data Started : Type 0 where
  exited : List Text → Started
  fatal : Fatal → Started
  admin_created : Started
  serving : Config → Started

module _ (env : Env) (c : Crypto) (flags : Flags) where
  unfoldable pub set_up : M Started
  set_up = if is_empty flags.password then pure (Started.fatal Fatal.no_password) else do
    err ← create_admin env c flags.setup_admin flags.password
    pure (if err then Started.fatal Fatal.admin_not_created else Started.admin_created)

  unfoldable pub with_pool : Config → Opened → M Started
  with_pool cfg Opened.parse_failed = pure (Started.fatal Fatal.no_database)
  with_pool cfg Opened.create_failed = pure (Started.fatal Fatal.no_database)
  with_pool cfg Opened.ping_failed = pure (Started.fatal Fatal.no_database)
  with_pool cfg (Opened.opened limits) =
      if is_empty flags.setup_admin then pure (Started.serving cfg) else set_up

  unfoldable pub with_config : PoolAnswers → Loaded → M Started
  with_config answers (Loaded.exits missing) = pure (Started.exited missing)
  with_config answers (Loaded.config cfg) = with_pool cfg (new_pool answers)

  -- `main` of cmd/api
  unfoldable pub main : System → Option Dir → Environ → PoolAnswers → M Started
  main sys wd own answers = with_config answers (load sys wd own)

-- How a service gets on: it does not start, or it runs.
pub data Service (A : Type 0) : Type 0 where
  not_started : Started → Service A
  runs : A → Service A

unfoldable pub with_service_pool : {A : Type 0} → (Config → A) → Config → Opened → Service A
with_service_pool run cfg Opened.parse_failed =
    Service.not_started (Started.fatal Fatal.no_database)
with_service_pool run cfg Opened.create_failed =
    Service.not_started (Started.fatal Fatal.no_database)
with_service_pool run cfg Opened.ping_failed = Service.not_started (Started.fatal Fatal.no_database)
with_service_pool run cfg (Opened.opened limits) = Service.runs (run cfg)

unfoldable pub with_service_config : {A : Type 0} → (Config → A) → PoolAnswers → Loaded → Service A
with_service_config run answers (Loaded.exits missing) =
    Service.not_started (Started.exited missing)
with_service_config run answers (Loaded.config cfg) = with_service_pool run cfg (new_pool answers)

-- `main` of cmd/reconciler, by what wakes Run.
unfoldable pub reconciler_main :
    System → Option Dir → Environ → PoolAnswers → List Wake → Service Ran
reconciler_main sys wd own answers wakes =
    with_service_config (λ cfg. run cfg.light_interval cfg.full_interval wakes) answers
      (load sys wd own)

-- `main` of cmd/watcher, by what wakes Run.
unfoldable pub watcher_main :
    System → Option Dir → Environ → PoolAnswers → Env → World → List Moment → Service Watchers
watcher_main sys wd own answers env start moments =
    with_service_config (λ cfg. run_at env start moments) answers (load sys wd own)

-- The level of `setupLogger`, by the level of zerolog.ParseLevel and whether it returned an error: in
-- cmd/api, and in the other two, which drop the error.
unfoldable pub api_level : (Text → ℤ × Bool) → ℤ → Config → ℤ
api_level parse_level info cfg =
    let (level, err) = parse_level cfg.log_level in if err then info else level

unfoldable pub service_level : (Text → ℤ × Bool) → Config → ℤ
service_level parse_level cfg = (parse_level cfg.log_level).0
