-- ===== src/Config.antt =====
-- internal/config/config.go. The environment of the process gives the value of a variable, or none. A
-- directory is the list of its names, the innermost first, and the root is the empty list; os.Getwd
-- gives an absolute path without dots. Which files are there, godotenv.Load and time.ParseDuration are
-- parameters. The lines written to stderr are left out.
pub mod Required
pub mod Nearest
pub mod Samples
mod Tests
use skybeam_mail.Prelude.{
  ℕ, zero, suc, ◌*◌, Bool, true, false, Option, none, some, List, [], ◌∷◌, ◌++◌, if◌then◌else◌,
  Text, codes, is_empty,
}
use skybeam_mail.Prelude.Int.{ℤ, pos}
use skybeam_mail.Prelude.Decimal.{atoi?}

abbrev pub Environ : Type 0
Environ = Text → Option Text

-- `os.Getenv`
unfoldable pub value_of : Option Text → Text
value_of none = []
value_of (some v) = v

abbrev pub getenv : Environ → Text → Text
getenv env key = value_of (env key)

abbrev pub Dir : Type 0
Dir = List Text

abbrev pub dot_env : Text
dot_env = codes ".env"

-- What is outside of the process: `os.Stat` without an error, `godotenv.Load` on an environment, with
-- none for an error that leaves the environment as it is, and `time.ParseDuration`.
pub record System : Type 0 where
  pub exists : Dir → Bool
  pub dotenv_load : Dir → Environ → Option Environ
  pub parse_duration : Text → Option ℤ

-- The loop of findDotEnv, with the rounds that are left.
unfoldable pub search_up : (Dir → Bool) → ℕ → Dir → Option Dir
search_up exists zero dir = none
search_up exists (suc n) [] = if exists (dot_env ∷ []) then some (dot_env ∷ []) else none
search_up exists (suc n) (name ∷ parent) =
    let rest = search_up exists n parent in
    if exists (dot_env ∷ name ∷ parent) then some (dot_env ∷ name ∷ parent) else rest

-- `findDotEnv`, by what os.Getwd gives.
unfoldable pub find_dot_env : System → Option Dir → Option Dir
find_dot_env sys none = none
find_dot_env sys (some dir) = search_up sys.exists 6 dir

unfoldable pub loaded_or : Environ → Option Environ → Environ
loaded_or env none = env
loaded_or env (some loaded) = loaded

-- `loadDotEnv`
unfoldable pub load_found : System → Environ → Option Dir → Environ
load_found sys env none = env
load_found sys env (some path) = loaded_or env (sys.dotenv_load path env)

unfoldable pub load_dot_env : System → Option Dir → Environ → Environ
load_dot_env sys wd env = load_found sys env (find_dot_env sys wd)

unfoldable pub env_or_default : Environ → Text → Text → Text
env_or_default env key fallback = let v = getenv env key in if is_empty v then fallback else v

unfoldable pub parsed_or : {A : Type 0} → A → Option A → A
parsed_or fallback none = fallback
parsed_or fallback (some a) = a

-- `envIntOrDefault`
unfoldable pub env_int_or_default : Environ → Text → ℤ → ℤ
env_int_or_default env key fallback =
    let v = getenv env key in if is_empty v then fallback else parsed_or fallback (atoi? v)

-- `envDurationOrDefault`, in nanoseconds.
unfoldable pub env_duration_or_default : System → Environ → Text → ℤ → ℤ
env_duration_or_default sys env key fallback =
    let v = getenv env key in
    if is_empty v then fallback else parsed_or fallback (sys.parse_duration v)

pub record Config : Type 0 where
  pub database_url : Text
  pub api_addr : Text
  pub api_secret : Text
  pub dovecot_host : Text
  pub dovecot_port : ℤ
  pub dovecot_master_user : Text
  pub dovecot_master_pass : Text
  pub postfix_host : Text
  pub postfix_port : ℤ
  pub session_ttl_days : ℤ
  pub light_interval : ℤ
  pub full_interval : ℤ
  pub log_level : Text
  pub log_format : Text

-- The closure `get` of Load, with the list `missing` that it appends to.
unfoldable pub get : Environ → Text → List Text → Text × List Text
get env key missing =
    let v = getenv env key in (v, if is_empty v then missing ++ key ∷ [] else missing)

-- How Load ends: with a configuration, or with exit code 1 and the variables that it names.
pub data Loaded : Type 0 where
  config : Config → Loaded
  exits : List Text → Loaded

unfoldable pub unless_missing : List Text → Config → Loaded
unless_missing [] cfg = Loaded.config cfg
unless_missing (key ∷ keys) cfg = Loaded.exits (key ∷ keys)

abbrev pub minute : ℕ
minute = 60 * 1_000_000_000

-- The configuration, given the values of the required variables.
unfoldable pub config_of : System → Environ → Text → Text → Text → Text → Config
config_of sys env database_url api_secret master_user master_pass = record {
  database_url = database_url;
  api_secret = api_secret;
  dovecot_master_user = master_user;
  dovecot_master_pass = master_pass;
  api_addr = env_or_default env (codes "API_ADDR") (codes ":8080");
  dovecot_host = env_or_default env (codes "DOVECOT_HOST") (codes "localhost");
  dovecot_port = env_int_or_default env (codes "DOVECOT_PORT") (pos 143);
  postfix_host = env_or_default env (codes "POSTFIX_HOST") (codes "localhost");
  postfix_port = env_int_or_default env (codes "POSTFIX_PORT") (pos 587);
  session_ttl_days = env_int_or_default env (codes "SESSION_TTL_DAYS") (pos 30);
  light_interval =
      env_duration_or_default sys env (codes "RECONCILER_LIGHT_INTERVAL") (pos (5 * minute));
  full_interval =
      env_duration_or_default sys env (codes "RECONCILER_FULL_INTERVAL") (pos (24 * 60 * minute));
  log_level = env_or_default env (codes "LOG_LEVEL") (codes "info");
  log_format = env_or_default env (codes "LOG_FORMAT") (codes "json");
}

-- `Load`, behind loadDotEnv.
unfoldable pub load_from : System → Environ → Loaded
load_from sys env =
    let (database_url, m1) = get env (codes "DATABASE_URL") [] in
    let (api_secret, m2) = get env (codes "API_SECRET") m1 in
    let (master_user, m3) = get env (codes "DOVECOT_MASTER_USER") m2 in
    let (master_pass, m4) = get env (codes "DOVECOT_MASTER_PASS") m3 in
    unless_missing m4 (config_of sys env database_url api_secret master_user master_pass)

-- `Load`, by the working directory and the environment of the process.
unfoldable pub load : System → Option Dir → Environ → Loaded
load sys wd env = load_from sys (load_dot_env sys wd env)

-- The fields of the line that LogSafeConfig logs.
pub data Field : Type 0 where
  str : Text → Field
  int : ℤ → Field

-- `LogSafeConfig`; `show_duration` is time.Duration's String.
unfoldable pub log_safe_config : (ℤ → Text) → Config → List (Text × Field)
log_safe_config show_duration cfg =
    (codes "api_addr", Field.str cfg.api_addr)
    ∷ (codes "dovecot_host", Field.str cfg.dovecot_host)
    ∷ (codes "dovecot_port", Field.int cfg.dovecot_port)
    ∷ (codes "dovecot_master_user", Field.str cfg.dovecot_master_user)
    ∷ (codes "postfix_host", Field.str cfg.postfix_host)
    ∷ (codes "postfix_port", Field.int cfg.postfix_port)
    ∷ (codes "session_ttl_days", Field.int cfg.session_ttl_days)
    ∷ (codes "reconciler_light", Field.str (show_duration cfg.light_interval))
    ∷ (codes "reconciler_full", Field.str (show_duration cfg.full_interval))
    ∷ (codes "log_level", Field.str cfg.log_level)
    ∷ (codes "log_format", Field.str cfg.log_format)
    ∷ []
