-- ===== src/Reconciler/Session/Tests.antt =====
-- internal/reconciler/service.go: a connection with two folders, the second of which is refused.
use skybeam_mail.Prelude.{◌≡◌, refl, Bool, false, [], ◌∷◌, codes, text_eq}
use skybeam_mail.Store.Samples.{calm_env, small_world}
use skybeam_mail.Imap.Client.{Command, Server}
use skybeam_mail.Reconciler.{reconcile_account}
use skybeam_mail.Reconciler.Session.{Credentials, login_user, reconcile_over}
use skybeam_mail.Reconciler.Session.Commands.{met, expected, reconcile_over-Sends}

refuses_spam : Command → Bool
refuses_spam (Command.select name) = text_eq name (codes "Spam")
refuses_spam command = false

abbrev dovecot : Server
dovecot = record {
  refuses = λ sent. refuses_spam;
  mailboxes = λ sent. codes "INBOX" ∷ codes "Spam" ∷ [];
  num_messages = λ sent name. 3;
  summaries = λ sent. [];
  section = λ sent uid. [];
}

abbrev ann_credentials : Credentials
ann_credentials = record {
  user = codes "ann";
  master_user = codes "master";
  master_pass = codes "secret";
}

expected_commands :
    expected calm_env dovecot 1 ann_credentials
    ≡ Command.login (codes "ann*master") (codes "secret")
      ∷ Command.list [] (codes "*")
      ∷ Command.select (codes "INBOX")
      ∷ Command.select (codes "Spam")
      ∷ Command.logout
      ∷ []
unfolding refuses_spam login_user
expected_commands = refl

reconcile_over-Sends_example :
    let out = reconcile_over calm_env dovecot false 1 ann_credentials small_world in
    let alone = reconcile_account calm_env 1 (met calm_env dovecot 1 ann_credentials false) in
    (out.0.0 ≡ (alone small_world).0)
    × (out.1 ≡ (alone small_world).1)
    × (out.0.1 ≡ expected calm_env dovecot 1 ann_credentials)
reconcile_over-Sends_example =
    reconcile_over-Sends calm_env dovecot 1 ann_credentials false small_world
