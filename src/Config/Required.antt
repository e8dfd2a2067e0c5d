-- ===== src/Config/Required.antt =====
-- internal/config/config.go, Load: the variables that must be there.
use skybeam_mail.Prelude.{
  ◌≡◌, ◌≢◌, ◌⊎◌, refl, ap, sym, ◌∙◌, false, inl, inr, Option, some, List, [], ◌∷◌, Text, codes,
  is_empty, arith,
}
use skybeam_mail.Store.Table.{select}
use skybeam_mail.Config.{
  Environ, value_of, getenv, Dir, System, load_dot_env, Config, config_of, get, Loaded,
  unless_missing, load_from, load,
}
use skybeam_mail.Config.Nearest.{NeverOverrides, load_dot_env-keeps}

abbrev pub required : List Text
required =
    codes "DATABASE_URL"
    ∷ codes "API_SECRET"
    ∷ codes "DOVECOT_MASTER_USER"
    ∷ codes "DOVECOT_MASTER_PASS"
    ∷ []

-- The required variables that are unset or empty.
abbrev pub lacking : Environ → List Text
lacking env = select (λ key. is_empty (getenv env key)) required

-- A field is the value of its variable, is not empty, and is what the process had set, if it had.
pub record IsTaken (own merged : Environ) (key field : Text) : Type 0 where
  pub read : getenv merged key ≡ field
  pub filled : is_empty field ≡ false
  pub kept : (v : Text) → own key ≡ some v → field ≡ v

pub record IsComplete (own merged : Environ) (cfg : Config) : Type 0 where
  pub database_url : IsTaken own merged (codes "DATABASE_URL") cfg.database_url
  pub api_secret : IsTaken own merged (codes "API_SECRET") cfg.api_secret
  pub master_user : IsTaken own merged (codes "DOVECOT_MASTER_USER") cfg.dovecot_master_user
  pub master_pass : IsTaken own merged (codes "DOVECOT_MASTER_PASS") cfg.dovecot_master_pass

-- How Load ends, by the environment of the process and the one with the .env file.
abbrev pub Ends : Environ → Environ → Loaded → Type 0
Ends own merged out =
    ((out ≡ Loaded.exits (lacking merged)) × (lacking merged ≢ []))
    ⊎ ((cfg : Config) × (out ≡ Loaded.config cfg)
        × (lacking merged ≡ [])
        × IsComplete own merged cfg)

unfoldable pub taken : System → Environ → Config
taken sys env =
    config_of sys env (getenv env (codes "DATABASE_URL")) (getenv env (codes "API_SECRET"))
      (getenv env (codes "DOVECOT_MASTER_USER")) (getenv env (codes "DOVECOT_MASTER_PASS"))

collected :
    (env : Environ) (a b c d : Text)
    → (get env d (get env c (get env b (get env a []).1).1).1).1
      ≡ select (λ key. is_empty (getenv env key)) (a ∷ b ∷ c ∷ d ∷ [])
unfolding get select
collected env a b c d = ground arith

pub load_from-lacking :
    (sys : System) (env : Environ)
    → load_from sys env ≡ unless_missing (lacking env) (taken sys env)
unfolding load_from get taken
load_from-lacking sys env =
    ap (λ missing. unless_missing missing (taken sys env))
      (collected env (codes "DATABASE_URL") (codes "API_SECRET") (codes "DOVECOT_MASTER_USER")
        (codes "DOVECOT_MASTER_PASS"))

-- A test that a list has nothing of holds of none of its members.
none_lacking :
    (env : Environ) (a b c d : Text)
    → select (λ key. is_empty (getenv env key)) (a ∷ b ∷ c ∷ d ∷ []) ≡ []
    → (is_empty (getenv env a) ≡ false)
      × (is_empty (getenv env b) ≡ false)
      × (is_empty (getenv env c) ≡ false)
      × (is_empty (getenv env d) ≡ false)
unfolding select
none_lacking env a b c d e = (ground arith, ground arith, ground arith, ground arith)

module _ (sys : System) (wd : Option Dir) (own : Environ) (never : NeverOverrides sys) where
  merged : Environ
  merged = load_dot_env sys wd own

  is_taken :
      (key : Text)
      → is_empty (getenv merged key) ≡ false
      → IsTaken own merged key (getenv merged key)
  unfolding merged value_of
  is_taken key h = record {
    read = refl;
    filled = h;
    kept = λ v e. ap value_of (load_dot_env-keeps sys wd own key v never e);
  }

  ends :
      (missing : List Text)
      → lacking merged ≡ missing
      → Ends own merged (unless_missing missing (taken sys merged))
  unfolding unless_missing taken config_of value_of
  ends (key ∷ keys) e = inl (rw e refl, λ bad. let wrong : key ∷ keys ≡ [] = sym e ∙ bad in cc)
  ends [] e =
      let (a, b, c, d) = none_lacking merged _ _ _ _ e in
      inr (
        taken sys merged,
        refl,
        e,
        record {
          database_url = is_taken (codes "DATABASE_URL") a;
          api_secret = is_taken (codes "API_SECRET") b;
          master_user = is_taken (codes "DOVECOT_MASTER_USER") c;
          master_pass = is_taken (codes "DOVECOT_MASTER_PASS") d;
        },
      )

  -- Load exits exactly where a required variable is unset or empty once the .env file is loaded, and
  -- then it names all such variables in their order; else it gives a configuration whose required
  -- fields are the values of their variables and are not empty, those that the process had set before
  -- the file: as long as godotenv.Load changes no variable that is set already.
  pub load-Ends : Ends own (load_dot_env sys wd own) (load sys wd own)
  unfolding load merged
  load-Ends = rw (load_from-lacking sys merged) (ends (lacking merged) refl)
