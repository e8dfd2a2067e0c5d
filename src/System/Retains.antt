-- ===== src/System/Retains.antt =====
-- migrations/003_create_events.sql says of events that rows are never updated or deleted: what the
-- statements of the programs leave of a database.
use skybeam_mail.Prelude.{ℕ, ◌≡◌, refl, true, none, some, List, [], ◌∷◌, any, arith, ◌==◌, text_eq}
use skybeam_mail.Events.Writer.{insert_event}
use skybeam_mail.Events.Writer.Log.{Extends, Extends-refl, insert_event-Extends}
use skybeam_mail.Store.Rows.{Store, EventRow}
use skybeam_mail.Store.Table.Laws.{any-update, any-append, any-upsert}
use skybeam_mail.Store.World.{Env, World}
use skybeam_mail.Auth.{insert_session, delete_session, touch_session, upsert_admin}
use skybeam_mail.Auth.Admins.{new_admin, promote, upsert_admin-accounts}
use skybeam_mail.Api.Admin.{insert_account, account_row, insert_domain, delete_domain}
use skybeam_mail.Api.Folders.{insert_folder, delete_folder}
use skybeam_mail.Api.Messages.{has_id, set_read, set_starred, set_deleted, trash, move_to_trash}
use skybeam_mail.Watcher.Scan.{
  no_body, in_inbox, inbox_row, refresh, touch, upsert_known, upsert_new,
}
use skybeam_mail.Watcher.Scan.Keys.{upsert_known-messages, upsert_new-messages}
use skybeam_mail.Reconciler.{refresh_counts}
use skybeam_mail.System.{nothing, Statement, executed, Action, act_all}
use skybeam_mail.System.Keeps.{IsInvariant}
use skybeam_mail.System.Keeps.Programs.{act_all-always}

module _ (env : Env) (now : ℕ) (db db' : Store) where
  executed-Extends :
      (old : List EventRow) (s : Statement)
      → Extends old db
      → executed env s now db ≡ some db'
      → Extends old db'
  unfolding executed insert_session delete_session touch_session upsert_admin insert_account
      insert_domain delete_domain insert_folder delete_folder set_read set_starred set_deleted
      move_to_trash upsert_known upsert_new refresh_counts
  executed-Extends old (Statement.session_inserted account hash expires) (m, p) e =
      (m, ground arith)
  executed-Extends old (Statement.session_deleted hash) (m, p) e = (m, ground arith)
  executed-Extends old (Statement.session_touched hash seen) (m, p) e = (m, ground arith)
  executed-Extends old (Statement.admin_upserted email hash) (m, p) e = (m, ground arith)
  executed-Extends old (Statement.account_inserted b hash) (m, p) e = (m, ground arith)
  executed-Extends old (Statement.domain_inserted name) (m, p) e = (m, ground arith)
  executed-Extends old (Statement.domain_deleted none) (m, p) e = cc
  executed-Extends old (Statement.domain_deleted (some id)) (m, p) e = (m, ground arith)
  executed-Extends old (Statement.folder_inserted account name) (m, p) e = (m, ground arith)
  executed-Extends old (Statement.folder_removed account name) (m, p) e = (m, ground arith)
  executed-Extends old (Statement.read_set b id) (m, p) e = (m, ground arith)
  executed-Extends old (Statement.starred_set b id) (m, p) e = (m, ground arith)
  executed-Extends old (Statement.deleted_set id) (m, p) e = (m, ground arith)
  executed-Extends old (Statement.moved_to_trash id) (m, p) e = (m, ground arith)
  executed-Extends old (Statement.event_inserted ev drawn) h e =
      insert_event-Extends old env ev now db db' h e
  executed-Extends old (Statement.known_upserted account hs size) (m, p) e = (m, ground arith)
  executed-Extends old (Statement.new_upserted account hs size b) (m, p) e = (m, ground arith)
  executed-Extends old (Statement.counts_refreshed account) (m, p) e = (m, ground arith)

  executed-messages :
      (id : ℕ) (s : Statement)
      → any (has_id id) db.messages ≡ true
      → executed env s now db ≡ some db'
      → any (has_id id) db'.messages ≡ true
  unfolding executed insert_session delete_session touch_session upsert_admin insert_account
      insert_domain delete_domain insert_folder delete_folder set_read set_starred set_deleted
      move_to_trash insert_event refresh_counts
  executed-messages id (Statement.session_inserted account hash expires) p e = ground arith
  executed-messages id (Statement.session_deleted hash) p e = ground arith
  executed-messages id (Statement.session_touched hash seen) p e = ground arith
  executed-messages id (Statement.admin_upserted email hash) p e = ground arith
  executed-messages id (Statement.account_inserted b hash) p e = ground arith
  executed-messages id (Statement.domain_inserted name) p e = ground arith
  executed-messages id (Statement.domain_deleted none) p e = cc
  executed-messages id (Statement.domain_deleted (some other)) p e = ground arith
  executed-messages id (Statement.folder_inserted account name) p e = ground arith
  executed-messages id (Statement.folder_removed account name) p e = ground arith
  executed-messages id (Statement.read_set b other) p e = ground (
    arith,
    any-update (has_id other) (has_id id) (λ r. record r { is_read = b }) db.messages (λ r. refl),
  )
  executed-messages id (Statement.starred_set b other) p e = ground (
    arith,
    any-update (has_id other) (has_id id) (λ r. record r { is_starred = b }) db.messages
        (λ r. refl),
  )
  executed-messages id (Statement.deleted_set other) p e = ground (
    arith,
    any-update (has_id other) (has_id id) (λ r. record r { is_deleted = true }) db.messages
        (λ r. refl),
  )
  executed-messages id (Statement.moved_to_trash other) p e = ground (
    arith,
    any-update (has_id other) (has_id id) (λ r. record r { folder = trash }) db.messages
        (λ r. refl),
  )
  executed-messages id (Statement.event_inserted ev drawn) p e = ground arith
  executed-messages id (Statement.known_upserted account h size) p e =
      rw (upsert_known-messages env account h size now db db' e) (
        any-upsert (in_inbox account h.uid) (has_id id)
          (inbox_row account h size no_body db.next_id now) (refresh h.is_read now) db.messages
          (λ r. refl) p)
  executed-messages id (Statement.new_upserted account h size b) p e =
      rw (upsert_new-messages env account h size now db db' b e) (
        any-upsert (in_inbox account h.uid) (has_id id) (inbox_row account h size b db.next_id now)
          (touch now) db.messages (λ r. refl) p)
  executed-messages id (Statement.counts_refreshed account) p e = ground arith

  executed-accounts :
      (id : ℕ) (s : Statement)
      → any (λ a. a.id == id) db.accounts ≡ true
      → executed env s now db ≡ some db'
      → any (λ a. a.id == id) db'.accounts ≡ true
  unfolding executed insert_session delete_session touch_session insert_account insert_domain
      delete_domain insert_folder delete_folder set_read set_starred set_deleted move_to_trash
      insert_event upsert_known upsert_new refresh_counts
  executed-accounts id (Statement.session_inserted account hash expires) p e = ground arith
  executed-accounts id (Statement.session_deleted hash) p e = ground arith
  executed-accounts id (Statement.session_touched hash seen) p e = ground arith
  executed-accounts id (Statement.admin_upserted email hash) p e =
      rw (upsert_admin-accounts env email hash now db db' e) (
        any-upsert (λ a. text_eq a.email email) (λ a. a.id == id) (new_admin db.next_id email hash)
          (promote hash) db.accounts (λ a. refl) p)
  executed-accounts id (Statement.account_inserted b hash) p e =
      ground (arith, any-append (λ a. a.id == id) db.accounts (account_row b hash db.next_id ∷ []))
  executed-accounts id (Statement.domain_inserted name) p e = ground arith
  executed-accounts id (Statement.domain_deleted none) p e = cc
  executed-accounts id (Statement.domain_deleted (some other)) p e = ground arith
  executed-accounts id (Statement.folder_inserted account name) p e = ground arith
  executed-accounts id (Statement.folder_removed account name) p e = ground arith
  executed-accounts id (Statement.read_set b other) p e = ground arith
  executed-accounts id (Statement.starred_set b other) p e = ground arith
  executed-accounts id (Statement.deleted_set other) p e = ground arith
  executed-accounts id (Statement.moved_to_trash other) p e = ground arith
  executed-accounts id (Statement.event_inserted ev drawn) p e = ground arith
  executed-accounts id (Statement.known_upserted account h size) p e = ground arith
  executed-accounts id (Statement.new_upserted account h size b) p e = ground arith
  executed-accounts id (Statement.counts_refreshed account) p e = ground arith

-- Of a database the events stand, in their order and unchanged, with more behind them at most; and no
-- message and no account is gone.
pub record Retains (old db : Store) : Type 0 where
  pub events : Extends old.events db
  pub messages : (id : ℕ) → any (has_id id) old.messages ≡ true → any (has_id id) db.messages ≡ true
  pub accounts :
      (id : ℕ)
      → any (λ a. a.id == id) old.accounts ≡ true
      → any (λ a. a.id == id) db.accounts ≡ true

Retains-IsInvariant : (old : Store) (env : Env) → IsInvariant env nothing (Retains old)
Retains-IsInvariant old env = record {
  under = λ s leaves now db db' r e. record {
    events = executed-Extends env now db db' old.events s r.events e;
    messages = λ id p. executed-messages env now db db' id s (r.messages id p) e;
    accounts = λ id p. executed-accounts env now db db' id s (r.accounts id p) e;
  };
}

-- Whatever the programs do, with whatever becomes of their calls: no event is changed or removed or
-- overtaken, as the events that are added stand behind those that were there; and no message and no
-- account is removed.
pub act_all-Retains : (actions : List Action) (w : World) → Retains w.db (act_all actions w).db
act_all-Retains actions w =
    act_all-always (Retains w.db) (Retains-IsInvariant w.db) actions w
      (record { events = Extends-refl w.db; messages = λ id p. p; accounts = λ id p. p })
