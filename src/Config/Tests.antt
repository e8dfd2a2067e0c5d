-- ===== src/Config/Tests.antt =====
-- internal/config/config.go: a process without variables, with a .env file two directories up.
use skybeam_mail.Prelude.{◌≡◌, refl, Bool, false, Option, none, some, [], ◌∷◌, Text, codes, text_eq}
use skybeam_mail.Store.Table.{find}
use skybeam_mail.Config.{Dir, dot_env, System, search_up, find_dot_env, load_dot_env, load}
use skybeam_mail.Config.Nearest.{NeverOverrides, candidates, find_dot_env-nearest}
use skybeam_mail.Config.Required.{Ends, load-Ends}

abbrev at_srv : Dir → Bool
at_srv [] = false
at_srv (name ∷ []) = false
at_srv (name ∷ dir ∷ []) = text_eq dir (codes "srv")
at_srv (name ∷ dir ∷ up ∷ path) = false

abbrev or_one : Option Text → Option Text
or_one none = some (codes "1")
or_one (some v) = some v

-- /srv/.env is there. It sets every variable that is unset to 1.
abbrev sys : System
sys = record {
  exists = λ path. at_srv path;
  dotenv_load = λ path env. some (λ key. or_one (env key));
  parse_duration = λ t. none;
}

never : NeverOverrides sys
never path env loaded e key v set =
    let same : (λ k. or_one (env k)) ≡ loaded = cc in rw (← same, set) refl

-- /srv/mail/cmd
abbrev cmd : Dir
cmd = codes "cmd" ∷ codes "mail" ∷ codes "srv" ∷ []

find_dot_env-nearest_example :
    (find_dot_env sys none ≡ none)
    × (find_dot_env sys (some cmd) ≡ find sys.exists (candidates 6 cmd))
find_dot_env-nearest_example = find_dot_env-nearest sys cmd

found : find_dot_env sys (some cmd) ≡ some (dot_env ∷ codes "srv" ∷ [])
unfolding find_dot_env search_up text_eq
found = refl

load-Ends_example :
    Ends
      (λ key. none)
      (load_dot_env sys (some cmd) (λ key. none))
      (load sys (some cmd) (λ key. none))
load-Ends_example = load-Ends sys (some cmd) (λ key. none) never
