-- ===== src/System/Keeps/Handlers.antt =====
-- internal/api/handlers: what every statement keeps, the handlers keep.
use skybeam_mail.Prelude.{
  List, ℕ, refl, true, Bool, Text, Option, ◌≡◌, Bool, true, false, Option, none, some, [], ◌∷◌,
  Text, codes, text_eq, arith,
}
use skybeam_mail.Prelude.Int.{ℤ}
use skybeam_mail.Events.Types.{EventType, folder_named, nothing, deleted}
use skybeam_mail.Store.Rows.{Store, MessageRow}
use skybeam_mail.Store.Table.{find}
use skybeam_mail.Store.World.{Env, M, exec, query}
use skybeam_mail.Auth.{Account, Crypto, generate_token}
use skybeam_mail.Api.AuthHandler.{LoginBody, login_email, handle_login, logout_of}
use skybeam_mail.Api.Folders.{
  handle_folders, insert_folder, created, handle_create, count_messages, delete_folder,
  delete_counted, count_or_zero, handle_delete_folder,
}
use skybeam_mail.Api.Messages.{
  ListQuery, is_own, UpdateBody, Current, read_event, starred_event, set_read, set_starred,
  set_deleted, move_to_trash, apply_read, apply_starred, apply_update, apply_delete, with_current,
  handle_list, handle_get, handle_thread, handle_update, handle_delete,
}
use skybeam_mail.Api.Response.{Response}
use skybeam_mail.Api.EventLog.{list_events, handle_events}
use skybeam_mail.Api.Search.{FullText, SearchQuery, search_texts, select_found, handle_search}
use skybeam_mail.System.{
  Watched, login_leaves, Statement, executed, statement_leaves, logout_leaves,
}
use skybeam_mail.System.Keeps.{IsInvariant, Kept, exec-Kept, query-Kept, emit_with-Kept}
use skybeam_mail.System.Keeps.Auth.{login-Kept, logout-Kept}

module _ (env : Env) (P : Store → Type 0) {watched : Watched} (i : IsInvariant env watched P) where
  -- internal/api/handlers/auth.go
  pub handle_login-Kept :
      (c : Crypto) (unicode : Text → Text) (ttl : ℤ) (b : Option LoginBody)
      → login_leaves watched c (generate_token c) ≡ true
      → Kept env P (handle_login env c unicode ttl b)
  unfolding handle_login
  handle_login-Kept c unicode ttl none l w h = h
  handle_login-Kept c unicode ttl (some b) l w h =
      ground (arith, login-Kept env P i c ttl (login_email unicode b) b.password l w h)

  pub logout_of-Kept :
      (c : Crypto) (t : Option Text)
      → logout_leaves watched c t ≡ true
      → Kept env P (logout_of env c t)
  unfolding logout_of
  logout_of-Kept c none leaves w h = h
  logout_of-Kept c (some t) leaves w h = logout-Kept env P i c t leaves w h

  -- internal/api/handlers/folders.go
  pub handle_folders-Kept :
      (before : Text → Text → Bool) (acc : Account) → Kept env P (handle_folders env before acc)
  unfolding handle_folders
  handle_folders-Kept before acc w h = query-Kept env P _ _ w h

  created-Kept : (acc : Account) (name : Text) (err : Bool) → Kept env P (created env acc name err)
  unfolding created
  created-Kept acc name true w h = h
  created-Kept acc name false w h =
      emit_with-Kept env P i acc.id EventType.folder_created [] name (folder_named name) w h

  pub handle_create-Kept : (acc : Account) (b : Option Text) → Kept env P (handle_create env acc b)
  unfolding handle_create executed statement_leaves
  handle_create-Kept acc none w h = h
  handle_create-Kept acc (some name) w h =
      let (err, v) = exec env (insert_folder env acc.id name) w in
      let inserted : P v.db = exec-Kept env P i (Statement.folder_inserted acc.id name) refl w h in
      ground (arith, created-Kept acc name err v inserted)

  delete_counted-Kept :
      (acc : Account) (name : Text) (n : ℕ) → Kept env P (delete_counted env acc name n)
  unfolding delete_counted executed statement_leaves
  delete_counted-Kept acc name n w h =
      let v = (exec env (delete_folder env acc.id name) w).1 in
      let removed : P v.db = exec-Kept env P i (Statement.folder_removed acc.id name) refl w h in
      ground (
        arith,
        emit_with-Kept env P i acc.id EventType.folder_deleted [] name (folder_named name) v
            removed,
      )

  pub handle_delete_folder-Kept :
      (acc : Account) (name : Text) → Kept env P (handle_delete_folder env acc name)
  unfolding handle_delete_folder
  handle_delete_folder-Kept acc name w h =
      let (n, v) = query env (name ∷ []) (count_messages acc.id name) w in
      ground (
        arith,
        delete_counted-Kept acc name (count_or_zero n) v
            (query-Kept env P (name ∷ []) (count_messages acc.id name) w h),
      )

  -- internal/api/handlers/messages.go
  pub handle_list-Kept :
      (meets : List MessageRow → List MessageRow) (closes : Bool) (acc : Account) (q : ListQuery)
      → Kept env P (handle_list env meets closes acc q)
  unfolding handle_list
  handle_list-Kept meets closes acc q w h = query-Kept env P _ _ w h

  pub handle_get-Kept : (acc : Account) (id : Option ℕ) → Kept env P (handle_get env acc id)
  unfolding handle_get
  handle_get-Kept acc none w h = h
  handle_get-Kept acc (some id) w h = query-Kept env P _ _ w h

  pub handle_thread-Kept :
      (closes : Bool) (partial : MessageRow → MessageRow) (acc : Account) (thread_id : Text)
      → Kept env P (handle_thread env closes partial acc thread_id)
  unfolding handle_thread
  handle_thread-Kept closes partial acc thread_id w h = query-Kept env P _ _ w h

  module _ (acc : Account) (id : ℕ) (current : Current) where
    apply_read-Kept : (b : Option Bool) → Kept env P (apply_read env acc id current b)
    unfolding apply_read executed statement_leaves
    apply_read-Kept none w h = h
    apply_read-Kept (some b) w h =
        emit_with-Kept env P i acc.id (read_event b) current.0 current.1 nothing
          (exec env (set_read b id) w).1 (exec-Kept env P i (Statement.read_set b id) refl w h)

    apply_starred-Kept : (b : Option Bool) → Kept env P (apply_starred env acc id current b)
    unfolding apply_starred executed statement_leaves
    apply_starred-Kept none w h = h
    apply_starred-Kept (some b) w h =
        emit_with-Kept env P i acc.id (starred_event b) current.0 current.1 nothing
          (exec env (set_starred b id) w).1
          (exec-Kept env P i (Statement.starred_set b id) refl w h)

    apply_update-Kept : (b : UpdateBody) → Kept env P (apply_update env acc id current b)
    unfolding apply_update
    apply_update-Kept b w h =
        apply_starred-Kept b.is_starred (apply_read env acc id current b.is_read w).1
          (apply_read-Kept b.is_read w h)

    apply_delete-Kept : (permanent : Bool) → Kept env P (apply_delete env acc id current permanent)
    unfolding apply_delete executed statement_leaves
    apply_delete-Kept true w h =
        emit_with-Kept env P i acc.id EventType.message_deleted current.0 current.1
          (deleted current.1 true) (exec env (set_deleted id) w).1
          (exec-Kept env P i (Statement.deleted_set id) refl w h)
    apply_delete-Kept false w h =
        emit_with-Kept env P i acc.id EventType.message_deleted current.0 current.1
          (deleted current.1 false) (exec env (move_to_trash id) w).1
          (exec-Kept env P i (Statement.moved_to_trash id) refl w h)

  with_current-Kept :
      (body : Current → M Response)
      → ((current : Current) → Kept env P (body current))
      → (row : Option (Option MessageRow)) → Kept env P (with_current body row)
  unfolding with_current
  with_current-Kept body k none w h = k ([], []) w h
  with_current-Kept body k (some none) w h = h
  with_current-Kept body k (some (some r)) w h = k (r.dovecot_uid, r.folder) w h

  pub handle_update-Kept :
      (acc : Account) (id : Option ℕ) (b : Option UpdateBody)
      → Kept env P (handle_update env acc id b)
  unfolding handle_update
  handle_update-Kept acc none b w h = h
  handle_update-Kept acc (some id) none w h = h
  handle_update-Kept acc (some id) (some b) w h =
      let read = λ (db : Store). find (is_own id acc.id) db.messages in
      let (row, v) = query env [] read w in
      with_current-Kept (λ c. apply_update env acc id c b) (λ c. apply_update-Kept acc id c b) row v
        (query-Kept env P [] read w h)

  pub handle_delete-Kept :
      (acc : Account) (id : Option ℕ) (permanent : Text)
      → Kept env P (handle_delete env acc id permanent)
  unfolding handle_delete
  handle_delete-Kept acc none permanent w h = h
  handle_delete-Kept acc (some id) permanent w h =
      let read = λ (db : Store). find (is_own id acc.id) db.messages in
      let (row, v) = query env [] read w in
      let p = text_eq permanent (codes "true") in
      with_current-Kept (λ c. apply_delete env acc id c p) (λ c. apply_delete-Kept acc id c p) row v
        (query-Kept env P [] read w h)

  -- internal/api/handlers/events.go and search.go
  pub handle_events-Kept :
      (acc : Account) (limit after_id : Text) → Kept env P (handle_events env acc limit after_id)
  unfolding handle_events list_events
  handle_events-Kept acc limit after_id w h = query-Kept env P _ _ w h

  pub handle_search-Kept :
      (ft : FullText) (acc : Account) (sq : SearchQuery) → Kept env P (handle_search env ft acc sq)
  unfolding handle_search
  handle_search-Kept ft acc sq w h =
      ground (arith, query-Kept env P (search_texts sq) (select_found ft acc.id sq) w h)
