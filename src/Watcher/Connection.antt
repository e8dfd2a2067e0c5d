-- ===== src/Watcher/Connection.antt =====
-- internal/watcher/service.go, scanNewMessages: the commands that a scan sends over its connection.
pub mod Sends
pub mod Marks
mod Tests
use skybeam_mail.Prelude.{
  ℕ, ◌+◌, Bool, true, false, Option, none, some, List, [], ◌∷◌, any, if◌then◌else◌, Text, text_eq,
}
use skybeam_mail.Store.World.{Env, M, pure, ◌>>=◌, query_rows}
use skybeam_mail.Imap.{FetchedBody}
use skybeam_mail.Imap.Client.{Command, Server as Peer, fetch_all_headers, fetch_uid_body}
use skybeam_mail.Watcher.Mail.{Message, headers}
use skybeam_mail.Watcher.Body.{Part}
use skybeam_mail.Watcher.Scan.{Server, Outcome, Round, outcome_of, known_uids, scan_round}

-- What the scan makes of the answer to FetchBody; the reader is that of go-message.
unfoldable pub opened : (List ℕ → Option (ℕ → Part)) → FetchedBody → Option (Option (ℕ → Part))
opened reader FetchedBody.fetch_failed = none
opened reader FetchedBody.not_found = none
opened reader FetchedBody.no_section = none
opened reader (FetchedBody.body bytes) = some (reader bytes)

module _ (env : Env) (peer : Peer) (reader : List ℕ → Option (ℕ → Part)) (fuel account : ℕ) where
  -- The server behind the commands sent so far.
  abbrev pub met : List Command → Server
  met sent = record {
    inbox = (fetch_all_headers peer sent).0;
    body = λ uid. opened reader (fetch_uid_body peer uid sent).0;
  }

  -- The commands sent behind a round of the loop.
  unfoldable pub sent_behind : List Text → Message → List Command → List Command
  sent_behind known m sent =
      if any (text_eq (headers m).uid) known then sent else (fetch_uid_body peer m.uid sent).1

  unfoldable pub next_over :
      (ℕ → M (Option ℕ × List Command)) → List Command → ℕ → Round → M (Option ℕ × List Command)
  next_over rest sent n Round.counted = rest (n + 1)
  next_over rest sent n Round.skipped = rest n
  next_over rest sent n Round.hung = pure (none, sent)

  unfoldable pub loop_over :
      List Text → ℕ → List Message → List Command → M (Option ℕ × List Command)
  loop_over known n [] sent = pure (some n, sent)
  loop_over known n (m ∷ ms) sent =
      let after = sent_behind known m sent in
      do
        r ← scan_round env (met sent) fuel account known m
        next_over (λ k. loop_over known k ms after) after n r

  unfoldable pub loop_result : Option ℕ × List Command → Outcome × List Command
  loop_result (total, sent) = (outcome_of total, sent)

  unfoldable pub with_over :
      List Message → List Command → Option (List Text) → M (Outcome × List Command)
  with_over ms sent none = pure (Outcome.broken, sent)
  with_over ms sent (some known) = do total ← loop_over known 0 ms sent; pure (loop_result total)

  unfoldable pub messages_over : Option (List Message) → List Command → M (Outcome × List Command)
  messages_over none sent = pure (Outcome.broken, sent)
  messages_over (some []) sent = pure (Outcome.complete 0, sent)
  messages_over (some (m ∷ ms)) sent = do
    known ← query_rows env [] (known_uids account)
    with_over (m ∷ ms) sent known

  -- `scanNewMessages`, with the commands that the connection has sent when it is over.
  unfoldable pub scan_over : List Command → M (Outcome × List Command)
  scan_over sent = let (listed, after) = fetch_all_headers peer sent in messages_over listed after
