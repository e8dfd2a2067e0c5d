-- ===== src/Watcher/Run/Tests.antt =====
-- internal/watcher/service.go, Run: an account that is active at one refresh and not at the next.
use skybeam_mail.Prelude.{◌≡◌, refl, true, false, any, ◌==◌, [], ◌∷◌, map}
use skybeam_mail.Store.Samples.{calm_env, small_world}
use skybeam_mail.Store.Rows.{AccountRow}
use skybeam_mail.Store.World.{World}
use skybeam_mail.Watcher.Run.{AccountInfo, Moment, run_at}
use skybeam_mail.Watcher.Run.Once.{IsDistinct}
use skybeam_mail.Watcher.Run.Active.{run_at-watches}

abbrev deactivated : World
deactivated = record small_world {
  db = record small_world.db {
    accounts = map {A = AccountRow} (λ a. record a { is_active = false }) small_world.db.accounts;
  };
}

run_at-watches_example :
    let out =
      run_at calm_env deactivated (Moment.ticked small_world ∷ Moment.ticked deactivated ∷ []) in
    (any (λ (a : AccountInfo). a.id == 1) out.started ≡ true)
    × IsDistinct (map (λ (a : AccountInfo). a.id) out.started)
    × (out.cancelled ≡ [])
run_at-watches_example =
    run_at-watches calm_env deactivated small_world
      (Moment.ticked small_world ∷ Moment.ticked deactivated ∷ []) (Moment.ticked deactivated ∷ [])
      (Moment.ticked deactivated ∷ []) 1 refl refl refl refl refl
