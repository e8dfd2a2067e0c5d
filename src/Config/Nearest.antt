-- ===== src/Config/Nearest.antt =====
-- internal/config/config.go, findDotEnv and loadDotEnv: which file is found, and what it can change.
use skybeam_mail.Prelude.{
  ℕ, zero, suc, ◌≡◌, refl, Bool, Bool-cases, inl, inr, Option, none, some, Option-cases, List, [],
  ◌∷◌, map, take, Text,
}
use skybeam_mail.Store.Table.{find}
use skybeam_mail.Config.{
  Environ, Dir, dot_env, System, search_up, find_dot_env, loaded_or, load_found, load_dot_env,
}

-- A directory and those above it, up to the root.
unfoldable pub ancestors : Dir → List Dir
ancestors [] = [] ∷ []
ancestors (name ∷ parent) = (name ∷ parent) ∷ ancestors parent

-- The .env files of the first directories.
unfoldable pub candidates : ℕ → Dir → List Dir
candidates n dir = map (λ d. dot_env ∷ d) (take n (ancestors dir))

search_up-nearest :
    (exists : Dir → Bool) (n : ℕ) (dir : Dir)
    → search_up exists n dir ≡ find exists (candidates n dir)
unfolding search_up find candidates ancestors
search_up-nearest exists zero dir = refl
search_up-nearest exists (suc zero) [] = refl
search_up-nearest exists (suc (suc n)) [] = refl
search_up-nearest exists (suc n) (name ∷ parent) =
    elim (Bool-cases (exists (dot_env ∷ name ∷ parent))) [
      | inl here ↦ rw here refl
      | inr above ↦ rw above (search_up-nearest exists n parent)
    ]

-- findDotEnv gives the first .env file that is there of those in the working directory and the
-- directories above it, six in all or up to the root, and none where the working directory is not
-- known.
pub find_dot_env-nearest :
    (sys : System) (dir : Dir)
    → (find_dot_env sys none ≡ none)
      × (find_dot_env sys (some dir) ≡ find sys.exists (candidates 6 dir))
unfolding find_dot_env
find_dot_env-nearest sys dir = (refl, search_up-nearest sys.exists 6 dir)

-- godotenv.Load changes no variable that is set already.
abbrev pub NeverOverrides : System → Type 0
NeverOverrides sys =
    (path : Dir) (env loaded : Environ)
    → sys.dotenv_load path env ≡ some loaded
    → (key v : Text) → env key ≡ some v
    → loaded key ≡ some v

load_found-keeps :
    (sys : System) (env : Environ) (found : Option Dir) (key v : Text)
    → NeverOverrides sys
    → env key ≡ some v
    → load_found sys env found key ≡ some v
unfolding load_found loaded_or
load_found-keeps sys env none key v never e = e
load_found-keeps sys env (some path) key v never e =
    elim (Option-cases (sys.dotenv_load path env)) [
      | inl failed ↦ rw failed e
      | inr (loaded, done) ↦ rw done (never path env loaded done key v e)
    ]

-- A variable of the process goes before the .env file.
pub load_dot_env-keeps :
    (sys : System) (wd : Option Dir) (env : Environ) (key v : Text)
    → NeverOverrides sys
    → env key ≡ some v
    → load_dot_env sys wd env key ≡ some v
unfolding load_dot_env
load_dot_env-keeps sys wd env = load_found-keeps sys env (find_dot_env sys wd)
