-- ===== src/Api/Folders.antt =====
-- internal/api/handlers/folders.go. The name in the path is a parameter of the route, and the body of
-- Create what `decode` gives, none for an error.
pub mod Removal
mod Tests
use skybeam_mail.Prelude.{
  is_empty, ℕ, ◌+◌, Bool, true, false, ◌&&◌, Option, none, some, List, [], ◌∷◌, ◌++◌, map, any,
  if◌then◌else◌, ◌==◌, ltb, Text, codes, text_eq,
}
use skybeam_mail.Events.Types.{EventType, folder_named}
use skybeam_mail.Events.Writer.{emit_with}
use skybeam_mail.Store.Rows.{Store, FolderRow}
use skybeam_mail.Store.Table.{select, delete, count, order_by}
use skybeam_mail.Store.World.{Env, M, pure, ◌>>=◌, ◌>>◌, exec, query}
use skybeam_mail.Auth.{Account}
use skybeam_mail.Api.Response.{
  Response, respond, respond_error, no_content, Code, FolderView, folders, folder,
}

unfoldable pub view_of : FolderRow → FolderView
view_of r = record { name = r.folder_name; total = r.total_count; unread = r.unread_count }

-- ORDER BY folder_name; the order of texts is the collation's, which is a parameter.
unfoldable pub select_folders : (Text → Text → Bool) → ℕ → Store → List FolderRow
select_folders before account db =
    order_by (λ r s. before r.folder_name s.folder_name)
      (select (λ r. r.account_id == account) db.folders)

unfoldable pub folders_response : Option (List FolderRow) → Response
folders_response none = respond_error 500 Code.db_error
folders_response (some rows) = respond 200 (folders (map view_of rows))

-- `FolderHandler.List`
unfoldable pub handle_folders : Env → (Text → Text → Bool) → Account → M Response
handle_folders env before acc = do
  rows ← query env [] (select_folders before acc.id)
  pure (folders_response rows)

-- The columns of UNIQUE (account_id, folder_name).
abbrev pub is_folder : ℕ → Text → FolderRow → Bool
is_folder account name r = r.account_id == account && text_eq r.folder_name name

-- INSERT … ON CONFLICT DO NOTHING; PostgreSQL refuses a name that is no text of its own.
unfoldable pub insert_folder : Env → ℕ → Text → ℕ → Store → Option Store
insert_folder env account name now db =
    let row : FolderRow = record {
      account_id = account;
      folder_name = name;
      total_count = 0;
      unread_count = 0;
      last_synced_at = now;
    } in
    let rows =
      if any (is_folder account name) db.folders then db.folders else db.folders ++ row ∷ [] in
    if env.text_ok name then some (record db { folders = rows; next_id = db.next_id + 1 }) else none

module _ (env : Env) (acc : Account) where
  unfoldable pub created : Text → Bool → M Response
  created name true = pure (respond_error 500 Code.db_error)
  created name false = do
    emit_with env acc.id EventType.folder_created [] name (folder_named name)
    pure (respond 201 (folder (record { name = name; total = 0; unread = 0 })))

  -- `FolderHandler.Create`
  unfoldable pub handle_create : Option Text → M Response
  handle_create none = pure (respond_error 400 Code.invalid_body)
  handle_create (some name) =
      if is_empty name
      then pure (respond_error 400 Code.invalid_body)
      else do err ← exec env (insert_folder env acc.id name); created name err

-- The map `protected`.
abbrev pub protected : List Text
protected = codes "INBOX" ∷ codes "Sent" ∷ codes "Trash" ∷ codes "Drafts" ∷ codes "Archive" ∷ []

unfoldable pub count_messages : ℕ → Text → Store → ℕ
count_messages account name db =
    count (λ r. r.account_id == account && text_eq r.folder name) db.messages

-- The variable `count`, which keeps its 0 where the query fails.
unfoldable pub count_or_zero : Option ℕ → ℕ
count_or_zero none = 0
count_or_zero (some n) = n

unfoldable pub delete_folder : Env → ℕ → Text → ℕ → Store → Option Store
delete_folder env account name now db =
    if env.text_ok name
    then some (record db { folders = delete (is_folder account name) db.folders })
    else none

module _ (env : Env) (acc : Account) (name : Text) where
  unfoldable pub delete_counted : ℕ → M Response
  delete_counted n = if ltb 0 n then pure (respond_error 409 Code.folder_not_empty) else do
    exec env (delete_folder env acc.id name)
    emit_with env acc.id EventType.folder_deleted [] name (folder_named name)
    pure no_content

  -- `FolderHandler.Delete`
  unfoldable pub handle_delete_folder : M Response
  handle_delete_folder =
      if any (text_eq name) protected then pure (respond_error 403 Code.protected_folder) else do
        n ← query env (name ∷ []) (count_messages acc.id name)
        delete_counted (count_or_zero n)
