-- ===== src/Imap/Client.antt =====
-- internal/imap/client.go: the commands that a connection sends, in their order. The server is given by
-- what it answers to a command behind those sent before.
use skybeam_mail.Prelude.{
  ℕ, Bool, Option, none, some, List, [], ◌∷◌, ◌++◌, if◌then◌else◌, Text, codes,
}
use skybeam_mail.Watcher.Mail.{Flag, Message}
use skybeam_mail.Imap.{Fetched, FetchedBody, folder_names, fetch_headers, fetch_body}

-- A command of go-imap with what the client passes to it; a STORE is a silent one.
pub data Command : Type 0 where
  login : Text → Text → Command
  logout expunge : Command
  list : Text → Text → Command
  select : Text → Command
  fetch_summaries : Command
  fetch_section : ℕ → Command
  add_flags remove_flags : ℕ → List Flag → Command
  move : ℕ → Text → Command

-- Whether a command fails, and what LIST, SELECT and the two kinds of FETCH give where they do not.
pub record Server : Type 0 where
  pub refuses : List Command → Command → Bool
  pub mailboxes : List Command → List Text
  pub num_messages : List Command → Text → ℕ
  pub summaries : List Command → List Fetched
  pub section : List Command → ℕ → List Fetched

-- A use of the connection, by the commands sent before it.
abbrev pub Talk : Type 0 → Type 0
Talk A = List Command → A × List Command

unfoldable pub answer : {A : Type 0} → Bool → A → Option A
answer fails a = if fails then none else some a

module _ (server : Server) where
  -- Whether the command failed.
  unfoldable pub send : Command → Talk Bool
  send command sent = (server.refuses sent command, sent ++ command ∷ [])

  -- `Login`
  unfoldable pub log_in : Text → Text → Talk Bool
  log_in username password = send (Command.login username password)

  -- `Logout`, whose error is dropped.
  unfoldable pub log_out : Talk (Unit {0})
  log_out sent = (tt, (send Command.logout sent).1)

  -- `ListFolders`
  unfoldable pub list_folders : Talk (Option (List Text))
  list_folders sent =
      let (fails, after) = send (Command.list [] (codes "*")) sent in
      (folder_names (answer fails (server.mailboxes sent)), after)

  -- `Select`, of whose data only the number of messages is read.
  unfoldable pub select_mailbox : Text → Talk (Option ℕ)
  select_mailbox name sent =
      let (fails, after) = send (Command.select name) sent in
      (answer fails (server.num_messages sent name), after)

  -- `FetchHeaders` of all messages
  unfoldable pub fetch_all_headers : Talk (Option (List Message))
  fetch_all_headers sent =
      let (fails, after) = send Command.fetch_summaries sent in
      (fetch_headers (answer fails (server.summaries sent)), after)

  -- `FetchBody`
  unfoldable pub fetch_uid_body : ℕ → Talk FetchedBody
  fetch_uid_body uid sent =
      let (fails, after) = send (Command.fetch_section uid) sent in
      (fetch_body (answer fails (server.section sent uid)), after)

  -- `AddFlags`
  unfoldable pub add_flags_of : ℕ → List Flag → Talk Bool
  add_flags_of seq_num flags = send (Command.add_flags seq_num flags)

  -- `RemoveFlags`
  unfoldable pub remove_flags_of : ℕ → List Flag → Talk Bool
  remove_flags_of seq_num flags = send (Command.remove_flags seq_num flags)

  -- `MoveMessage`
  unfoldable pub move_message : ℕ → Text → Talk Bool
  move_message uid dest = send (Command.move uid dest)

  -- `Expunge`
  unfoldable pub expunge_deleted : Talk Bool
  expunge_deleted = send Command.expunge
