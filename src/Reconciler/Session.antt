-- ===== src/Reconciler/Session.antt =====
-- internal/reconciler/service.go, reconcileAccount: its connection to Dovecot, command by command.
pub mod Commands
mod Tests
use skybeam_mail.Prelude.{
  ℕ, zero, suc, Bool, true, false, Option, none, some, List, [], ◌∷◌, ◌++◌, if◌then◌else◌, Text,
  codes,
}
use skybeam_mail.Store.World.{Env, M, pure, ◌>>=◌}
use skybeam_mail.Imap.Client.{Command, Server, Talk, log_in, log_out, list_folders, select_mailbox}
use skybeam_mail.Reconciler.{Reconciled, finish}

-- Dovecot's master user, for the account's user.
pub record Credentials : Type 0 where
  pub user : Text
  pub master_user : Text
  pub master_pass : Text

unfoldable pub login_user : Credentials → Text
login_user c = c.user ++ codes "*" ++ c.master_user

module _ (server : Server) where
  -- The loop over the folders: SELECT, whose answer is only logged.
  unfoldable pub visit_folders : List Text → Talk (Unit {0})
  visit_folders [] sent = (tt, sent)
  visit_folders (name ∷ names) sent = visit_folders names (select_mailbox server name sent).1

  -- How the commands up to the end of the loop go.
  unfoldable pub visit : Option (List Text) → Talk (Option Reconciled)
  visit none sent = (some Reconciled.list_failed, sent)
  visit (some names) sent = (none, (visit_folders names sent).1)

  unfoldable pub behind_login : Bool → Talk (Option Reconciled)
  behind_login true sent = (some Reconciled.login_failed, sent)
  behind_login false sent = let (names, after) = list_folders server sent in visit names after

  unfoldable pub converse : Credentials → Talk (Option Reconciled)
  converse c sent =
      let (fails, after) = log_in server (login_user c) c.master_pass sent in
      behind_login fails after

-- The rest of reconcileAccount: an error, or the two calls of the database.
unfoldable pub settled : Env → ℕ → Option Reconciled → M Reconciled
settled env account none = finish env account
settled env account (some failed) = pure failed

-- `reconcileAccount`, with the commands that the connection has sent when it is over; the LOGOUT is
-- deferred.
unfoldable pub reconcile_over :
    Env → Server → Bool → ℕ → Credentials → M (Reconciled × List Command)
reconcile_over env server dial_fails account c =
    if dial_fails
    then pure (Reconciled.connect_failed, [])
    else let (failure, sent) = converse server c [] in
      do result ← settled env account failure; pure (result, (log_out server sent).1)
