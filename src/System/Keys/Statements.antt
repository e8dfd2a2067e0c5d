-- ===== src/System/Keys/Statements.antt =====
-- The statements of the programs, and the keys of the tables.
use skybeam_mail.Prelude.{ℕ, ◌≡◌, some}
use skybeam_mail.Store.Rows.{Store}
use skybeam_mail.Store.World.{Env}
use skybeam_mail.System.{Statement, executed, empty_store, IsReachable}
use skybeam_mail.System.Keys.{IsStore}
use skybeam_mail.System.Keys.Identity.{
  insert_session-IsStore, delete_session-IsStore, touch_session-IsStore, insert_account-IsStore,
  insert_domain-IsStore, delete_domain-IsStore, upsert_admin-IsStore,
}
use skybeam_mail.System.Keys.Mail.{
  insert_folder-IsStore, delete_folder-IsStore, set_read-IsStore, set_starred-IsStore,
  set_deleted-IsStore, move_to_trash-IsStore, insert_event-IsStore, upsert_known-IsStore,
  upsert_new-IsStore, refresh_counts-IsStore,
}

module _ (env : Env) (now : ℕ) (db db' : Store) (h : IsStore db) where
  pub executed-IsStore : (s : Statement) → executed env s now db ≡ some db' → IsStore db'
  unfolding executed
  executed-IsStore (Statement.session_inserted account hash expires) e =
      insert_session-IsStore now db db' h account hash expires e
  executed-IsStore (Statement.session_deleted hash) e = delete_session-IsStore now db db' h hash e
  executed-IsStore (Statement.session_touched hash seen) e =
      touch_session-IsStore now db db' h hash seen e
  executed-IsStore (Statement.admin_upserted email hash) e =
      upsert_admin-IsStore now db db' h env email hash e
  executed-IsStore (Statement.account_inserted b hash) e =
      insert_account-IsStore now db db' h env b hash e
  executed-IsStore (Statement.domain_inserted name) e =
      insert_domain-IsStore now db db' h env name e
  executed-IsStore (Statement.domain_deleted id) e = delete_domain-IsStore now db db' h id e
  executed-IsStore (Statement.folder_inserted account name) e =
      insert_folder-IsStore now db db' h env account name e
  executed-IsStore (Statement.folder_removed account name) e =
      delete_folder-IsStore now db db' h env account name e
  executed-IsStore (Statement.read_set b id) e = set_read-IsStore now db db' h b id e
  executed-IsStore (Statement.starred_set b id) e = set_starred-IsStore now db db' h b id e
  executed-IsStore (Statement.deleted_set id) e = set_deleted-IsStore now db db' h id e
  executed-IsStore (Statement.moved_to_trash id) e = move_to_trash-IsStore now db db' h id e
  executed-IsStore (Statement.event_inserted ev drawn) e =
      insert_event-IsStore now db db' h env ev drawn e
  executed-IsStore (Statement.known_upserted account m size) e =
      upsert_known-IsStore now db db' h env account m size e
  executed-IsStore (Statement.new_upserted account m size b) e =
      upsert_new-IsStore now db db' h env account m size b e
  executed-IsStore (Statement.counts_refreshed account) e =
      refresh_counts-IsStore now db db' h account e

empty-IsStore : IsStore empty_store
empty-IsStore = record {
  accounts = ((tt, tt), tt, tt);
  sessions = tt;
  events = ((tt, tt), tt);
  messages = ((tt, tt), tt);
  folders = tt;
  domains = ((tt, tt), tt);
}

-- However the statements of the programs follow each other on a database that was empty at first, also
-- those of requests, scans and goroutines that run beside each other: the primary keys and the UNIQUE
-- constraints of all the tables hold, every id has been drawn, and the sequence numbers of the events
-- rise in the order of their rows.
pub reachable-IsStore : (db : Store) → IsReachable db → IsStore db
reachable-IsStore db IsReachable.start = empty-IsStore
reachable-IsStore db (IsReachable.execute env s now before db' r e) =
    executed-IsStore env now before db' (reachable-IsStore before r) s e
