-- ===== src/Api/Folders/Removal.antt =====
-- internal/api/handlers/folders.go, Delete: what it removes.
use skybeam_mail.Prelude.{
  ℕ, ◌+◌, ◌≡◌, refl, ◌∙◌, ap, Bool, true, false, ◌&&◌, ◌==◌, not, List, some, [], ◌∷◌, any, ltb,
  Text, text_eq, arith, Bool-cases, inl, inr,
}
use skybeam_mail.Events.Types.{EventType, folder_named}
use skybeam_mail.Events.Writer.{emit_with}
use skybeam_mail.Events.Writer.Log.{Keeps-emit_with, insert_event-folders}
use skybeam_mail.Store.Rows.{Store, MessageRow}
use skybeam_mail.Store.Table.{select, delete, count}
use skybeam_mail.Store.Table.Laws.{any-delete, select-delete_other}
use skybeam_mail.Store.World.{Env, World, Wire, IsCalm, settle}
use skybeam_mail.Store.World.Keeps.{
  Keeps, Keeps-pure, Keeps-bind, Keeps-then, Keeps-exec, Keeps-query,
}
use skybeam_mail.Store.World.Calm.{query-some, query_dropped, exec_answered}
use skybeam_mail.Auth.{Account}
use skybeam_mail.Api.Response.{no_content, respond_error, Code}
use skybeam_mail.Api.Folders.{
  is_folder, protected, count_messages, count_or_zero, delete_folder, delete_counted,
  handle_delete_folder,
}

count-none :
    (p : MessageRow → Bool) (rows : List MessageRow) → count p rows ≡ 0 → any p rows ≡ false
unfolding count
count-none p [] e = refl
count-none p (r ∷ rows) e = ground (arith, count-none p rows)

-- The folders other than one, and the messages, as they were.
abbrev pub Spares : ℕ → Text → Store → Store → Type 0
Spares account name before db =
    (select (λ r. not (is_folder account name r)) db.folders
      ≡ select (λ r. not (is_folder account name r)) before.folders)
    × (db.messages ≡ before.messages)

delete_folder-Spares :
    (env : Env) (account : ℕ) (name : Text) (before : Store) (now : ℕ) (db db' : Store)
    → Spares account name before db
    → delete_folder env account name now db ≡ some db'
    → Spares account name before db'
unfolding delete_folder
delete_folder-Spares env account name before now db db' (f, m) e =
    let kept =
      select-delete_other (is_folder account name) (λ r. not (is_folder account name r)) db.folders
        (λ r p. rw p refl) in
    (ground (arith, kept, f), ground (arith, m))

module _ (env : Env) (acc : Account) (name : Text) where
  delete_counted-Spares :
      (before : Store) (n : ℕ) → Keeps (Spares acc.id name before) (delete_counted env acc name n)
  unfolding delete_counted
  delete_counted-Spares before n = elim (Bool-cases (ltb 0 n)) [
    | inl some_left ↦ rw some_left (Keeps-pure _ (respond_error 409 Code.folder_not_empty))
    | inr empty ↦ rw empty (
        Keeps-then _ _ _
          (Keeps-exec _ env (delete_folder env acc.id name)
            (delete_folder-Spares env acc.id name before))
          (Keeps-then _ _ _
            (Keeps-emit_with _ env
              (λ e _ now db db' (f, m) q.
                let (g, h) = insert_event-folders env e now db db' q in
                (ap (select (λ r. not (is_folder acc.id name r))) g ∙ f, h ∙ m))
              acc.id EventType.folder_deleted [] name (folder_named name))
            (Keeps-pure _ no_content)))
  ]

  -- Whatever becomes of its calls, Delete leaves every folder other than the one that it names, and
  -- every message, as they are.
  pub handle_delete_folder-Spares :
      (w : World) → Spares acc.id name w.db (handle_delete_folder env acc name w).1.db
  unfolding handle_delete_folder
  handle_delete_folder-Spares w = elim (Bool-cases (any (text_eq name) protected)) [
    | inl system ↦ rw system (refl, refl)
    | inr free ↦ rw free (
        (Keeps-bind _ _ _ (Keeps-query _ env _ (count_messages acc.id name))
            (λ n. delete_counted-Spares w.db (count_or_zero n))).at
          w (refl, refl))
  ]

  event-folders :
      (w : World)
      → (emit_with env acc.id EventType.folder_deleted [] name (folder_named name) w).1.db.folders
        ≡ w.db.folders
  event-folders w =
      (Keeps-emit_with (λ db. db.folders ≡ w.db.folders) env
          (λ e _ now db db' p q. (insert_event-folders env e now db db' q).0 ∙ p) acc.id
          EventType.folder_deleted [] name (folder_named name)).at
        w refl

  -- What a Delete that answers 204 has found and left.
  abbrev pub Removed : Store → Store → Type 0
  Removed before db =
      (any (text_eq name) protected ≡ false)
      × (any (λ m. m.account_id == acc.id && text_eq m.folder name) before.messages ≡ false)
      × (any (is_folder acc.id name) db.folders ≡ false)

  delete_counted-folders :
      (n : ℕ) (w : World)
      → (env.tick w.calls).wire ≡ Wire.answered
      → env.text_ok name ≡ true
      → (delete_counted env acc name n w).0 ≡ no_content
      → (n ≡ 0)
        × ((delete_counted env acc name n w).1.db.folders
            ≡ delete (is_folder acc.id name) w.db.folders)
  unfolding delete_counted delete_folder
  delete_counted-folders n w wire takes e = elim (Bool-cases (ltb 0 n)) [
    | inl occupied ↦
        let bad : respond_error 409 Code.folder_not_empty ≡ no_content = rw occupied at e in cc
    | inr empty ↦
        let db' : Store = record w.db { folders = delete (is_folder acc.id name) w.db.folders } in
        let made = exec_answered env (delete_folder env acc.id name) w db' wire (rw takes refl) in
        (ground arith, rw (empty, made) (event-folders (settle db' w)))
  ]

  -- Where every call is answered and PostgreSQL takes the name, a Delete that answers 204 is one of a
  -- folder that is not protected and that holds no message of the account, and the folder is gone.
  pub handle_delete_folder-Removed :
      (w : World)
      → IsCalm env
      → env.text_ok name ≡ true
      → (handle_delete_folder env acc name w).0 ≡ no_content
      → Removed w.db (handle_delete_folder env acc name w).1.db
  unfolding handle_delete_folder count_or_zero count_messages
  handle_delete_folder-Removed w calm takes e = elim (Bool-cases (any (text_eq name) protected)) [
    | inl system ↦
        let bad : respond_error 403 Code.protected_folder ≡ no_content = rw system at e in cc
    | inr free ↦
        let found =
          query-some env calm (name ∷ []) (count_messages acc.id name) w (rw takes refl) in
        let (empty, gone) =
          delete_counted-folders (count_messages acc.id name w.db) (settle w.db w)
            (calm (w.calls + 1)) takes (rw (free, found) at e) in
        (
          free,
          count-none _ w.db.messages empty,
          rw (free, found) (rw gone (any-delete (is_folder acc.id name) w.db.folders)),
        )
  ]

  -- The error of the count is dropped: where the count does not reach the database and the next call is
  -- answered, Delete removes a folder that is not protected, whatever messages it holds, and answers 204.
  pub handle_delete_folder-unchecked :
      (w : World)
      → any (text_eq name) protected ≡ false
      → env.text_ok name ≡ true
      → (env.tick w.calls).wire ≡ Wire.dropped
      → (env.tick (w.calls + 1)).wire ≡ Wire.answered
      → ((handle_delete_folder env acc name w).0 ≡ no_content)
        × (any (is_folder acc.id name) (handle_delete_folder env acc name w).1.db.folders ≡ false)
  unfolding handle_delete_folder count_or_zero delete_counted
  handle_delete_folder-unchecked w free takes lost made =
      let found = query_dropped env (name ∷ []) (count_messages acc.id name) w lost in
      let (_, gone) = delete_counted-folders 0 (settle w.db w) made takes refl in
      rw (free, found) (refl, rw gone (any-delete (is_folder acc.id name) w.db.folders))
