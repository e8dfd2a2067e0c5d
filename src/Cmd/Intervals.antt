-- ===== src/Cmd/Intervals.antt =====
-- cmd/reconciler/main.go, with an interval that Load takes and Run does not.
use skybeam_mail.Prelude.{◌≡◌, refl, true, false, some, Option, List, [], Text, codes, is_empty}
use skybeam_mail.Prelude.Int.{ℤ, pos, leb_ℤ}
use skybeam_mail.Config.{Environ, getenv, Dir, System, load_dot_env}
use skybeam_mail.Config.Required.{lacking}
use skybeam_mail.Reconciler.Run.{Wake, Ran}
use skybeam_mail.Reconciler.Run.Ticks.{load-unchecked_interval}
use skybeam_mail.Cmd.{
  PoolAnswers, new_pool, Service, with_service_pool, with_service_config, reconciler_main,
}

-- Where no required variable is missing and the database is reached, an interval of zero or below for
-- the light reconciliation passes Load, and the reconciler then panics at the start of Run.
pub reconciler_main-panics :
    (sys : System) (wd : Option Dir) (own : Environ) (v : Text) (d : ℤ) (wakes : List Wake)
    → lacking (load_dot_env sys wd own) ≡ []
    → getenv (load_dot_env sys wd own) (codes "RECONCILER_LIGHT_INTERVAL") ≡ v
    → is_empty v ≡ false
    → sys.parse_duration v ≡ some d
    → leb_ℤ d (pos 0) ≡ true
    → let up : PoolAnswers = record { parses = true; creates = true; pings = true } in
      reconciler_main sys wd own up wakes ≡ Service.runs Ran.panics
unfolding reconciler_main with_service_config with_service_pool new_pool
reconciler_main-panics sys wd own v d wakes complete set filled parsed low =
    let (cfg, loaded, panics) =
      load-unchecked_interval sys wd own v d wakes complete set filled parsed low in
    rw (loaded, panics) refl
