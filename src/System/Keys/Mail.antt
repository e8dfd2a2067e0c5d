-- ===== src/System/Keys/Mail.antt =====
-- internal/watcher/service.go, internal/reconciler/service.go, internal/events/events.go and the handlers
-- of messages and folders: their statements, and the keys.
use skybeam_mail.Prelude.{
  ℕ, ◌+◌, ◌≡◌, refl, Bool, true, some, List, [], ◌∷◌, arith, any, ◌==◌, length, Text, Bool-cases,
  inl, inr,
}
use skybeam_mail.Events.Writer.{Event, event_row, insert_event}
use skybeam_mail.Events.Writer.Log.{IsNumbered-snoc}
use skybeam_mail.Store.Rows.{Store, MessageRow, FolderRow}
use skybeam_mail.Store.Table.{select, upsert}
use skybeam_mail.Store.Table.Distinct.{
  Distinct, snoc-Distinct, delete-Distinct, upsert-Distinct, snoc-IsDrawn,
}
use skybeam_mail.Store.World.{given_message, given_event, Env}
use skybeam_mail.Api.Folders.{is_folder, insert_folder, delete_folder}
use skybeam_mail.Api.Messages.{set_read, set_starred, set_deleted, trash_conflict, move_to_trash}
use skybeam_mail.Watcher.Mail.{Headers}
use skybeam_mail.Watcher.Scan.{Body, no_body, refresh, touch, inbox_row, upsert_known, upsert_new}
use skybeam_mail.Reconciler.{
  has_key, is_live, groups, group_row, recount, upsert_groups, refresh_counts,
}
use skybeam_mail.System.Keys.{
  same_folder, IsStore, of_some, of_if, of_unless, with_events, with_messages, with_folders,
}
use skybeam_mail.System.Keys.Messages.{update-IsMessages, upsert-IsMessages, to_trash-IsMessages}

upsert_groups-Distinct :
    (account now : ℕ) (live : List MessageRow) (names : List Text) (rows : List FolderRow)
    → Distinct same_folder rows
    → Distinct same_folder (upsert_groups account now live names rows)
unfolding upsert_groups group_row
upsert_groups-Distinct account now live [] rows h = h
upsert_groups-Distinct account now live (name ∷ names) rows h =
    upsert_groups-Distinct account now live names
      (upsert (has_key account name) (group_row account now live name) (recount now live name) rows)
      (upsert-Distinct same_folder (has_key account name) (group_row account now live name)
        (recount now live name) rows (λ r. refl) (λ r s. (refl, refl)) h)

module _ (now : ℕ) (db db' : Store) (h : IsStore db) where
  pub insert_folder-IsStore :
      (env : Env) (account : ℕ) (name : Text)
      → insert_folder env account name now db ≡ some db'
      → IsStore db'
  unfolding insert_folder
  insert_folder-IsStore env account name =
      elim (Bool-cases (any (is_folder account name) db.folders)) [
        | inl old ↦ rw old (
            of_if (env.text_ok name) _ db'
              λ fits. with_folders db (db.next_id + 1) (omega arith) h db.folders h.folders)
        | inr free ↦ rw free (
            of_if (env.text_ok name) _ db' λ fits.
              with_folders db (db.next_id + 1) (omega arith) h _
                (snoc-Distinct same_folder _ db.folders free h.folders))
      ]

  pub delete_folder-IsStore :
      (env : Env) (account : ℕ) (name : Text)
      → delete_folder env account name now db ≡ some db'
      → IsStore db'
  unfolding delete_folder
  delete_folder-IsStore env account name = of_if (env.text_ok name) _ db' λ fits.
      with_folders db db.next_id (omega arith) h _
        (delete-Distinct same_folder (is_folder account name) db.folders h.folders)

  pub set_read-IsStore : (b : Bool) (id : ℕ) → set_read b id now db ≡ some db' → IsStore db'
  unfolding set_read
  set_read-IsStore b id = of_some _ db' (
      with_messages db db.next_id (omega arith) h _ (
        update-IsMessages db.next_id id (λ r. record r { is_read = b }) db.messages (λ r. refl)
          (λ r. (refl, refl, refl)) h.messages))

  pub set_starred-IsStore : (b : Bool) (id : ℕ) → set_starred b id now db ≡ some db' → IsStore db'
  unfolding set_starred
  set_starred-IsStore b id = of_some _ db' (
      with_messages db db.next_id (omega arith) h _ (
        update-IsMessages db.next_id id (λ r. record r { is_starred = b }) db.messages (λ r. refl)
          (λ r. (refl, refl, refl)) h.messages))

  pub set_deleted-IsStore : (id : ℕ) → set_deleted id now db ≡ some db' → IsStore db'
  unfolding set_deleted
  set_deleted-IsStore id = of_some _ db' (
      with_messages db db.next_id (omega arith) h _ (
        update-IsMessages db.next_id id (λ r. record r { is_deleted = true }) db.messages
          (λ r. refl) (λ r. (refl, refl, refl)) h.messages))

  pub move_to_trash-IsStore : (id : ℕ) → move_to_trash id now db ≡ some db' → IsStore db'
  unfolding move_to_trash
  move_to_trash-IsStore id = of_unless (trash_conflict id db.messages) _ db' λ apart.
      with_messages db db.next_id (omega arith) h _
        (to_trash-IsMessages db.next_id id db.messages apart h.messages)

  pub insert_event-IsStore :
      (env : Env) (e : Event) → e.event_id ≡ 0 → insert_event env e now db ≡ some db' → IsStore db'
  unfolding insert_event event_row
  insert_event-IsStore env e drawn q =
      let row = event_row e db in
      elim (Bool-cases (any (λ r. r.event_id == row.event_id) db.events)) [
        | inl taken ↦ let refused = rw taken at q in cc
        | inr free ↦
            of_if (env.event_ok (given_event row)) _ db'
              (λ fits. with_events db (db.next_id + 1) (omega arith) h (db.next_event + 1) _ (
                snoc-IsDrawn (λ r. r.event_id) db.next_id row db.events (ground arith) h.events.0,
                IsNumbered-snoc db.next_event db.events row refl h.events.1,
              ))
              (rw free at q)
      ]

  pub upsert_known-IsStore :
      (env : Env) (account : ℕ) (m : Headers) (size : ℕ)
      → upsert_known env account m size now db ≡ some db'
      → IsStore db'
  unfolding upsert_known
  upsert_known-IsStore env account m size =
      of_if (env.row_ok (given_message (inbox_row account m size no_body db.next_id now))) _ db'
        λ fits. with_messages db (db.next_id + 1) (omega arith) h _ (
          upsert-IsMessages db.next_id account m size no_body now (refresh m.is_read now)
            db.messages (λ r. refl) (λ r. (refl, refl, refl)) h.messages)

  pub upsert_new-IsStore :
      (env : Env) (account : ℕ) (m : Headers) (size : ℕ) (b : Body)
      → upsert_new env account m size b now db ≡ some db'
      → IsStore db'
  unfolding upsert_new
  upsert_new-IsStore env account m size b =
      of_if (env.row_ok (given_message (inbox_row account m size b db.next_id now))) _ db' λ fits.
        with_messages db (db.next_id + 1) (omega arith) h _ (
          upsert-IsMessages db.next_id account m size b now (touch now) db.messages (λ r. refl)
            (λ r. (refl, refl, refl)) h.messages)

  pub refresh_counts-IsStore :
      (account : ℕ) → refresh_counts account now db ≡ some db' → IsStore db'
  unfolding refresh_counts
  refresh_counts-IsStore account =
      let live = select (is_live account) db.messages in
      of_some _ db' (
        with_folders db (db.next_id + length (groups live)) (omega arith) h _
          (upsert_groups-Distinct account now live (groups live) db.folders h.folders))
