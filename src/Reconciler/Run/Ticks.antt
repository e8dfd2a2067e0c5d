-- ===== src/Reconciler/Run/Ticks.antt =====
-- internal/reconciler/service.go, Run, with an interval from internal/config/config.go.
use skybeam_mail.Prelude.{
  ◌≡◌, refl, ◌∙◌, ap, true, false, some, Option, [], List, Text, codes, is_empty,
}
use skybeam_mail.Prelude.Int.{ℤ, pos, leb_ℤ}
use skybeam_mail.Config.{
  Environ, getenv, Dir, System, load_dot_env, parsed_or, env_duration_or_default, Config, config_of,
  Loaded, unless_missing, load,
}
use skybeam_mail.Config.Required.{lacking, taken, load_from-lacking}
use skybeam_mail.Reconciler.Run.{Wake, Ran, run}

-- An interval of zero or below passes Load, which then gives a configuration with which Run panics,
-- whatever the other variables are.
pub load-unchecked_interval :
    (sys : System) (wd : Option Dir) (own : Environ) (v : Text) (d : ℤ) (wakes : List Wake)
    → lacking (load_dot_env sys wd own) ≡ []
    → getenv (load_dot_env sys wd own) (codes "RECONCILER_LIGHT_INTERVAL") ≡ v
    → is_empty v ≡ false
    → sys.parse_duration v ≡ some d
    → leb_ℤ d (pos 0) ≡ true
    → (cfg : Config) × (load sys wd own ≡ Loaded.config cfg)
      × (run cfg.light_interval cfg.full_interval wakes ≡ Ran.panics)
unfolding load run unless_missing
load-unchecked_interval sys wd own v d wakes complete set filled parsed low =
    let env = load_dot_env sys wd own in
    let given : (taken sys env).light_interval ≡ d =
      unfold taken config_of env_duration_or_default parsed_or in rw (set, filled, parsed) refl in
    (
      taken sys env,
      load_from-lacking sys env ∙ ap (λ m. unless_missing m (taken sys env)) complete,
      rw (given, low) refl,
    )
