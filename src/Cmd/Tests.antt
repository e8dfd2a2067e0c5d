-- ===== src/Cmd/Tests.antt =====
-- cmd/api/main.go: -setup-admin on a small database, for an active account and for an inactive one; and
-- cmd/reconciler/main.go with an interval of zero.
use skybeam_mail.Prelude.{
  ◌≡◌, refl, true, false, ◌&&◌, none, some, [], ◌∷◌, any, map, Text, codes, text_eq, text_eq_iff,
}
use skybeam_mail.Store.Rows.{AccountRow}
use skybeam_mail.Store.Samples.{calm_env, small_world}
use skybeam_mail.Store.World.{World, exec}
use skybeam_mail.Auth.{Account, create_admin, upsert_admin, hex, logged_in, login}
use skybeam_mail.Auth.Samples.{plain_crypto, one_second}
use skybeam_mail.Config.{
  value_of, find_dot_env, load_found, load_dot_env, get, unless_missing, load_from, load,
}
use skybeam_mail.Config.Samples.{bare, zeros}
use skybeam_mail.Store.Table.{select}
use skybeam_mail.Cmd.{
  PoolAnswers, new_pool, Flags, Started, set_up, with_pool, with_config, main, Service,
  reconciler_main,
}
use skybeam_mail.Prelude.Int.{pos}
use skybeam_mail.Config.Required.{lacking}
use skybeam_mail.Reconciler.Run.{Wake, Ran}
use skybeam_mail.Cmd.Intervals.{reconciler_main-panics}
use skybeam_mail.Cmd.Admin.{is_inactive, main-login}

abbrev up : PoolAnswers
up = record { parses = true; creates = true; pings = true }

abbrev flags : Flags
flags = record { setup_admin = codes "ann"; password = codes "new" }

own_hash : (p h : Text) → some p ≡ some h → text_eq h p ≡ true
own_hash p h e = (text_eq_iff h p).1 (cc)

no_inactive : any (is_inactive (codes "ann")) small_world.db.accounts ≡ false
unfolding text_eq
no_inactive = refl

ann_set_up :
    (main calm_env plain_crypto flags bare none zeros up small_world).0 ≡ Started.admin_created
unfolding main with_config with_pool set_up new_pool load load_from load_dot_env load_found
    find_dot_env get value_of unless_missing create_admin upsert_admin exec text_eq
ann_set_up = refl

main-login_example :
    (acc : Account) × (acc.is_admin ≡ true)
    × ((login calm_env plain_crypto one_second
          (codes "ann")
          (codes "new")
          (main calm_env plain_crypto flags bare none zeros up small_world).1).0
        ≡ logged_in (hex (0xab ∷ [])) acc)
main-login_example =
    main-login calm_env plain_crypto flags bare none zeros up small_world one_second (0xab ∷ [])
      (λ n. refl) own_hash refl refl no_inactive ann_set_up

abbrev deactivated : World
deactivated = record small_world {
  db = record small_world.db {
    accounts = map {A = AccountRow} (λ a. record a { is_active = false }) small_world.db.accounts;
  };
}

ann_there : any (λ a. text_eq a.email (codes "ann")) deactivated.db.accounts ≡ true
unfolding text_eq
ann_there = refl

none_active :
    any (λ a. text_eq a.email (codes "ann") && a.is_active) deactivated.db.accounts ≡ false
unfolding text_eq
none_active = refl

set_up_again :
    (main calm_env plain_crypto flags bare none zeros up deactivated).0 ≡ Started.admin_created
unfolding main with_config with_pool set_up new_pool load load_from load_dot_env load_found
    find_dot_env get value_of unless_missing create_admin upsert_admin exec text_eq
set_up_again = refl

complete : lacking (load_dot_env bare none zeros) ≡ []
unfolding load_dot_env load_found find_dot_env value_of select
complete = refl

interval_zero :
    value_of (load_dot_env bare none zeros (codes "RECONCILER_LIGHT_INTERVAL")) ≡ codes "0"
unfolding load_dot_env load_found find_dot_env value_of
interval_zero = refl

reconciler_main-panics_example :
    reconciler_main bare none zeros up (Wake.light_tick ∷ []) ≡ Service.runs Ran.panics
reconciler_main-panics_example =
    reconciler_main-panics bare none zeros (codes "0") (pos 0) (Wake.light_tick ∷ []) complete
      interval_zero refl refl refl
