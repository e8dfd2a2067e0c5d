-- ===== src/Api/Folders/Tests.antt =====
-- Folders and the event log of a small database.
use skybeam_mail.Prelude.{
  none, ◌≡◌, refl, ◌==◌, map, if◌then◌else◌, codes, text_eq, any, false, arith,
}
use skybeam_mail.Prelude.Int.{pos}
use skybeam_mail.Prelude.Decimal.{atoi}
use skybeam_mail.Store.Samples.{calm_env, small_world}
use skybeam_mail.Store.Table.{select, count}
use skybeam_mail.Store.World.{Env, Wire, query, exec}
use skybeam_mail.Auth.{account_of}
use skybeam_mail.Auth.Samples.{ann}
use skybeam_mail.Api.Response.{no_content}
use skybeam_mail.Api.Query.{clamp_limit}
use skybeam_mail.Api.EventLog.{is_after, without_payload}
use skybeam_mail.Api.EventLog.Pages.{Reads, list_events-Reads}
use skybeam_mail.Api.Folders.{
  count_messages, delete_counted, count_or_zero, handle_delete_folder, protected,
}
use skybeam_mail.Api.Folders.Removal.{Removed, handle_delete_folder-Removed}

-- The first call does not reach the database.
abbrev first_dropped : Env
first_dropped = record calm_env {
  tick =
      λ n. record { wire = if n == 0 then Wire.dropped else Wire.answered; now = n; read = none };
}

list_events-Reads_example :
    Reads calm_env ann
      (clamp_limit 500 100 (atoi (codes "2")))
      0
      small_world
      (map without_payload (select (is_after ann.id (pos 0)) small_world.db.events))
list_events-Reads_example =
    list_events-Reads calm_env ann (codes "2") 0 small_world (λ n. refl) (omega arith, tt, tt)

bills_unprotected : any (text_eq (codes "Bills")) protected ≡ false
unfolding text_eq
bills_unprotected = refl

bills_deleted : (handle_delete_folder calm_env ann (codes "Bills") small_world).0 ≡ no_content
unfolding handle_delete_folder delete_counted count_or_zero query exec count_messages count text_eq
    account_of
bills_deleted = refl

handle_delete_folder-Removed_example :
    Removed calm_env ann
      (codes "Bills")
      small_world.db
      (handle_delete_folder calm_env ann (codes "Bills") small_world).1.db
handle_delete_folder-Removed_example =
    handle_delete_folder-Removed calm_env ann (codes "Bills") small_world (λ n. refl) refl
      bills_deleted
