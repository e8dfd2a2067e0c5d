-- ===== src/Reconciler/Session/Commands.antt =====
-- internal/reconciler/service.go, reconcileAccount: the commands that it sends to Dovecot.
use skybeam_mail.Prelude.{
  ℕ, ◌≡◌, refl, ap, sym, ◌∙◌, Bool, true, false, List, [], ◌∷◌, ◌++◌, map, append_assoc, append-nil,
  if◌then◌else◌, Text, codes, Bool-cases, inl, inr,
}
use skybeam_mail.Store.World.{Env, World}
use skybeam_mail.Imap.{folder_names}
use skybeam_mail.Imap.Client.{
  Command, Server, answer, send, log_in, log_out, list_folders, select_mailbox,
}
use skybeam_mail.Reconciler.{Connection, reconcile_account}
use skybeam_mail.Reconciler.Session.{
  Credentials, login_user, visit_folders, visit, behind_login, converse, settled, reconcile_over,
}

visit_folders-sent :
    (server : Server) (names : List Text) (sent : List Command)
    → (visit_folders server names sent).1 ≡ sent ++ map Command.select names
unfolding visit_folders select_mailbox send
visit_folders-sent server [] sent = sym (append-nil sent)
visit_folders-sent server (name ∷ names) sent =
    visit_folders-sent server names (sent ++ Command.select name ∷ [])
    ∙ append_assoc sent (Command.select name ∷ []) (map Command.select names)

-- The loop of ListFolders copies the names.
select-names :
    (names : List Text) → map Command.select (map (λ name. name) names) ≡ map Command.select names
select-names [] = refl
select-names (name ∷ names) =
    ap (λ (cs : List Command). Command.select name ∷ cs) (select-names names)

module _ (env : Env) (server : Server) (account : ℕ) (c : Credentials) where
  abbrev pub login : Command
  login = Command.login (login_user c) c.master_pass

  abbrev pub list : Command
  list = Command.list [] (codes "*")

  -- What the commands before the loop meet.
  abbrev pub met : Bool → Connection
  met dial_fails = record {
    dial_fails = dial_fails;
    login_fails = server.refuses [] login;
    list_fails = server.refuses (login ∷ []) list;
  }

  -- The commands that a connection is to send: a login as the master user for the account's user, LIST,
  -- SELECT of every folder that it names, and LOGOUT, whichever of them is refused.
  abbrev pub expected : List Command
  expected =
      if server.refuses [] login
      then login ∷ Command.logout ∷ []
      else if server.refuses (login ∷ []) list
      then login ∷ list ∷ Command.logout ∷ []
      else login ∷ list ∷ map Command.select (server.mailboxes (login ∷ [])) ++ Command.logout ∷ []

  -- Whatever Dovecot and the database answer, reconcileAccount ends as its steps say, with the database
  -- that they leave, and where it is connected it has sent a login as the master user for the
  -- account's user, and if that is taken LIST, and if that is taken SELECT of each folder once and in
  -- order, and last LOGOUT in every case: no command that changes a mailbox.
  pub reconcile_over-Sends :
      (dial_fails : Bool) (w : World)
      → let out = reconcile_over env server dial_fails account c w in
        (out.0.0 ≡ (reconcile_account env account (met dial_fails) w).0)
        × (out.1 ≡ (reconcile_account env account (met dial_fails) w).1)
        × (out.0.1 ≡ (if dial_fails then [] else expected))
  unfolding reconcile_over reconcile_account converse behind_login visit settled log_in log_out
      list_folders folder_names answer send
  reconcile_over-Sends true w = (refl, refl, refl)
  reconcile_over-Sends false w =
      let names = server.mailboxes (login ∷ []) in
      elim (Bool-cases (server.refuses [] login)) [
        | inl refused ↦ rw refused (refl, refl, refl)
        | inr entered ↦ elim (Bool-cases (server.refuses (login ∷ []) list)) [
          | inl refused ↦ rw (entered, refused) (refl, refl, refl)
          | inr listed ↦
              rw (entered, listed)
                (
                  refl,
                  refl,
                  ap (λ (sent : List Command). sent ++ Command.logout ∷ [])
                        (visit_folders-sent server (map (λ name. name) names) (login ∷ list ∷ []))
                      ∙ ap (λ (sent : List Command). (login ∷ list ∷ sent) ++ Command.logout ∷ [])
                          (select-names names),
                )
        ]
      ]
