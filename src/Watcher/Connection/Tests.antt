-- ===== src/Watcher/Connection/Tests.antt =====
-- Two scans over a connection to a server with one message.
use skybeam_mail.Prelude.{
  ℕ, zero, suc, ◌≡◌, refl, true, false, none, some, List, [], ◌∷◌, ◌++◌, All, any, map, arith,
  codes, text_eq, trim_space, if◌then◌else◌,
}
use skybeam_mail.Prelude.Decimal.{itoa}
use skybeam_mail.Events.Writer.{emit_with, event_with, insert_event, stamped, emit, event_row}
use skybeam_mail.Store.Samples.{calm_env, small_world}
use skybeam_mail.Store.Table.{select}
use skybeam_mail.Store.World.{query, query_rows, exec, time_now}
use skybeam_mail.Imap.{
  Fetched, message_of, first_section, fetch_body as body_fetched, fetch_headers,
}
use skybeam_mail.Imap.Client.{
  Command, Server as Peer, answer, fetch_all_headers, fetch_uid_body, send,
}
use skybeam_mail.Watcher.Mail.{Flag, Message, headers}
use skybeam_mail.Watcher.Body.{Part, extract_body, read_parts, add_if}
use skybeam_mail.Watcher.Scan.{
  Server, Outcome, body_of as body_columns, fetch_body, known_uids, scan_round, round_by, deliver,
  announce, upsert_new, inbox_row, outcome_of, scan,
}
use skybeam_mail.Watcher.Scan.Calm.{IsReady, IsTracked}
use skybeam_mail.Watcher.Scan.Covers.{fresh}
use skybeam_mail.Watcher.Scan.Flags.{Shows, Agrees, scan-Shows}
use skybeam_mail.Watcher.Connection.{
  opened, met, next_over, loop_over, loop_result, with_over, messages_over, scan_over,
}
use skybeam_mail.Watcher.Connection.Sends.{body_of, scan_over-sent}
use skybeam_mail.Watcher.Connection.Marks.{asks, SetsSeen, listed_at, own_fetch_marks_read}

-- Message 7, with \Seen once its body has been asked for.
abbrev seventh : List Command → Fetched
seventh sent = record {
  uid = 7;
  flags = if any (asks 7) sent then Flag.seen ∷ [] else [];
  envelope = none;
  size = 20;
  sections = codes "Hi" ∷ [];
}

abbrev one_mail : Peer
one_mail = record {
  refuses = λ sent c. false;
  mailboxes = λ sent. codes "INBOX" ∷ [];
  num_messages = λ sent name. 1;
  summaries = λ sent. seventh sent ∷ [];
  section = λ sent uid. seventh [] ∷ [];
}

-- A reader that gives the bytes as one text/plain part.
abbrev plain_part : List ℕ → ℕ → Part
plain_part bytes zero = Part.inline (codes "text/plain") bytes
plain_part bytes (suc i) = Part.eof

seventh_steady :
    (sent sent' : List Command) (uid : ℕ)
    → (fetch_uid_body one_mail uid sent).0 ≡ (fetch_uid_body one_mail uid sent').0
unfolding fetch_uid_body answer send
seventh_steady sent sent' uid = refl

seventh-IsReady :
    (sent : List Command)
    → All
        (IsReady calm_env (met calm_env one_mail (λ b. some (plain_part b)) 2 1 sent) 2 1)
        (listed_at one_mail sent)
unfolding fetch_uid_body answer send body_fetched first_section opened fetch_body extract_body
    read_parts add_if text_eq
seventh-IsReady sent = (
  record {
    body = body_columns (trim_space (codes "Hi"), trim_space []);
    readable = refl;
    refreshable = refl;
    storable = refl;
    announceable = refl;
  },
  tt,
)

seventh-SetsSeen : SetsSeen one_mail
seventh-SetsSeen sent = (λ e. rw e refl, tt)

seventh_new : any (text_eq (itoa 7)) (known_uids 1 small_world.db) ≡ false
unfolding text_eq itoa known_uids select
seventh_new = refl

own_fetch_marks_read_example :
    let (first, v) = scan_over calm_env one_mail (λ b. some (plain_part b)) 2 1 [] small_world in
    let out = (scan_over calm_env one_mail (λ b. some (plain_part b)) 2 1 first.1 v).1.db in
    IsTracked 1 (itoa 7) out × Shows 1 (itoa 7) true out.messages
own_fetch_marks_read_example =
    own_fetch_marks_read calm_env (λ n. refl) one_mail (λ b. some (plain_part b)) 2 1
      (λ sent c. refl) seventh_steady seventh-IsReady seventh-SetsSeen [] 7 small_world
      (omega arith, tt) seventh_new (λ sent. refl)

seventh_listed : (fetch_all_headers one_mail []).0 ≡ some (listed_at one_mail [])
unfolding fetch_all_headers fetch_headers answer send
seventh_listed = refl

seventh_complete :
    (scan_over calm_env one_mail (λ b. some (plain_part b)) 2 1 [] small_world).0.0
    ≡ Outcome.complete 1
unfolding scan_over messages_over with_over loop_over next_over loop_result fetch_all_headers
    fetch_headers answer send query query_rows known_uids select text_eq itoa headers message_of
    scan_round round_by deliver announce exec upsert_new emit_with event_with insert_event stamped
    emit event_row time_now fetch_uid_body body_fetched first_section opened fetch_body extract_body
    read_parts add_if outcome_of inbox_row
seventh_complete = refl

scan_over-sent_example :
    (scan_over calm_env one_mail (λ b. some (plain_part b)) 2 1 [] small_world).0.1
    ≡ []
      ++ Command.fetch_summaries
        ∷ map body_of (fresh (known_uids 1 small_world.db) (listed_at one_mail []))
scan_over-sent_example =
    scan_over-sent calm_env one_mail (λ b. some (plain_part b)) 2 1 [] (listed_at one_mail []) 1
      small_world refl seventh_listed seventh_complete

-- Message 8 of the table, which somebody has read meanwhile.
abbrev eighth_read : Message
eighth_read = record { uid = 8; flags = Flag.seen ∷ []; envelope = none; size_bytes = 20 }

abbrev read_server : Server
read_server = record {
  inbox = some (eighth_read ∷ []);
  body = λ uid. some (some (plain_part (codes "Hi")));
}

eighth_read-IsReady : IsReady calm_env read_server 2 1 eighth_read
unfolding fetch_body extract_body read_parts add_if text_eq
eighth_read-IsReady = record {
  body = body_columns (trim_space (codes "Hi"), trim_space []);
  readable = refl;
  refreshable = refl;
  storable = refl;
  announceable = refl;
}

eighth_read-Agrees : Agrees (codes "8") true (eighth_read ∷ [])
unfolding headers
eighth_read-Agrees = (λ e. refl, tt)

eighth_read_there : any (λ m. text_eq (headers m).uid (codes "8")) (eighth_read ∷ []) ≡ true
unfolding headers itoa text_eq
eighth_read_there = refl

scan-Shows_example :
    let out = (scan calm_env read_server 2 1 small_world).1.db in
    IsTracked 1 (codes "8") out × Shows 1 (codes "8") true out.messages
scan-Shows_example =
    scan-Shows calm_env (λ n. refl) read_server 2 1 (codes "8") true (eighth_read ∷ []) small_world
      refl (eighth_read-IsReady, tt) (omega arith, tt) eighth_read-Agrees eighth_read_there
