-- ===== src/Reconciler/Tests.antt =====
-- A reconciliation of a small database.
use skybeam_mail.Prelude.{◌≡◌, refl, false, codes, text_eq}
use skybeam_mail.Store.Samples.{calm_env, small_world}
use skybeam_mail.Store.Table.{select}
use skybeam_mail.Reconciler.{Connection, Reconciled, finish, has_key, reconcile_account}
use skybeam_mail.Reconciler.Counts.{holds, reconcile_account-stale}

abbrev open_connection : Connection
open_connection = record { dial_fails = false; login_fails = false; list_fails = false }

ends : (reconcile_account calm_env 1 open_connection small_world).0 ≡ Reconciled.reconciled_account
unfolding reconcile_account finish
ends = refl

bills_empty : holds 1 (codes "Bills") small_world.db ≡ false
unfolding select text_eq
bills_empty = refl

reconcile_account-stale_example :
    select
      (has_key 1 (codes "Bills"))
      (reconcile_account calm_env 1 open_connection small_world).1.db.folders
    ≡ select (has_key 1 (codes "Bills")) small_world.db.folders
reconcile_account-stale_example =
    reconcile_account-stale calm_env 1 open_connection small_world (codes "Bills") (λ n. refl) ends
      bills_empty
