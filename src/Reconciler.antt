-- ===== src/Reconciler.antt =====
-- internal/reconciler/service.go: reconcileAccount and refreshFolderCounts.
pub mod Groups
pub mod Counts
pub mod Run
pub mod Session
mod Tests
use skybeam_mail.Prelude.{
  ℕ, ◌+◌, Bool, true, false, ◌&&◌, not, Option, none, some, List, [], ◌∷◌, any, length,
  if◌then◌else◌, ◌==◌, Text, text_eq,
}
use skybeam_mail.Events.Types.{EventType, reconciled}
use skybeam_mail.Events.Writer.{emit_with}
use skybeam_mail.Store.Rows.{Store, MessageRow, FolderRow}
use skybeam_mail.Store.Table.{select, upsert, count}
use skybeam_mail.Store.World.{Env, M, pure, ◌>>=◌, ◌>>◌, exec}

-- WHERE account_id = $1 AND is_deleted = false
abbrev pub is_live : ℕ → MessageRow → Bool
is_live account r = r.account_id == account && not r.is_deleted

-- The groups of GROUP BY: the folders of the rows, each once.
unfoldable pub groups : List MessageRow → List Text
groups [] = []
groups (r ∷ rows) =
    let rest = groups rows in if any (text_eq r.folder) rest then rest else r.folder ∷ rest

-- COUNT(*), and COUNT(*) FILTER (WHERE is_read = false)
unfoldable pub total_in : Text → List MessageRow → ℕ
total_in name rows = count (λ r. text_eq r.folder name) rows

unfoldable pub unread_in : Text → List MessageRow → ℕ
unread_in name rows = count (λ r. text_eq r.folder name && not r.is_read) rows

-- The columns of UNIQUE (account_id, folder_name).
abbrev pub has_key : ℕ → Text → FolderRow → Bool
has_key account name r = r.account_id == account && text_eq r.folder_name name

-- The row of a group, and DO UPDATE SET.
unfoldable pub group_row : ℕ → ℕ → List MessageRow → Text → FolderRow
group_row account now live name = record {
  account_id = account;
  folder_name = name;
  total_count = total_in name live;
  unread_count = unread_in name live;
  last_synced_at = now;
}

abbrev pub recount : ℕ → List MessageRow → Text → FolderRow → FolderRow
recount now live name r = record r {
  total_count = total_in name live;
  unread_count = unread_in name live;
  last_synced_at = now;
}

unfoldable pub upsert_groups : ℕ → ℕ → List MessageRow → List Text → List FolderRow → List FolderRow
upsert_groups account now live [] folders = folders
upsert_groups account now live (name ∷ names) folders = upsert_groups account now live names (
    upsert (has_key account name) (group_row account now live name) (recount now live name) folders)

-- INSERT … SELECT … GROUP BY … ON CONFLICT DO UPDATE
unfoldable pub refresh_counts : ℕ → ℕ → Store → Option Store
refresh_counts account now db =
    let live = select (is_live account) db.messages in
    some (record db {
      folders = upsert_groups account now live (groups live) db.folders;
      next_id = db.next_id + length (groups live);
    })

-- How reconcileAccount returns: an error of one of its steps, or nil.
pub data Reconciled : Type 0 where
  connect_failed login_failed list_failed reconciled_account : Reconciled

-- What the IMAP server answers: the loop over the folders only logs, so of ListFolders only its
-- failure counts.
pub record Connection : Type 0 where
  pub dial_fails : Bool
  pub login_fails : Bool
  pub list_fails : Bool

module _ (env : Env) (account : ℕ) where
  -- What follows the loop.
  unfoldable pub finish : M Reconciled
  finish = do
    exec env (refresh_counts account)
    emit_with env account EventType.reconcile_complete [] [] (reconciled 0 0 0)
    pure Reconciled.reconciled_account

  -- `reconcileAccount`
  unfoldable pub reconcile_account : Connection → M Reconciled
  reconcile_account c =
      if c.dial_fails
      then pure Reconciled.connect_failed
      else if c.login_fails
      then pure Reconciled.login_failed
      else if c.list_fails
      then pure Reconciled.list_failed
      else finish
