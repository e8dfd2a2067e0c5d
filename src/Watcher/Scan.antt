-- ===== src/Watcher/Scan.antt =====
-- internal/watcher/service.go, scanNewMessages.
pub mod Steps
pub mod Log
pub mod Keys
pub mod Calm
pub mod Covers
pub mod Delivers
pub mod Flags
use skybeam_mail.Prelude.{
  ℕ, zero, suc, ◌+◌, Bool, true, false, ◌&&◌, Option, none, some, List, [], ◌∷◌, ◌++◌, map, any,
  ◌==◌, if◌then◌else◌, Text, codes, text_eq,
}
use skybeam_mail.Events.Types.{EventType, Payload, delivered}
use skybeam_mail.Events.Writer.{emit_with}
use skybeam_mail.Store.Rows.{Store, MessageRow}
use skybeam_mail.Store.Table.{select, upsert}
use skybeam_mail.Store.World.{Env, M, pure, ◌>>=◌, ◌>>◌, exec, query_rows, given_message}
use skybeam_mail.Watcher.Mail.{Message, Headers, headers, null_time}
use skybeam_mail.Watcher.Jsonb.{to_jsonb}
use skybeam_mail.Watcher.Snippet.{snippet}
use skybeam_mail.Watcher.Body.{Part, extract_body}

-- The IMAP server as one scan meets it: the answer to FetchHeaders, and to FetchBody the bytes with
-- what the mail reader makes of them. None is an error.
pub record Server : Type 0 where
  pub inbox : Option (List Message)
  pub body : ℕ → Option (Option (ℕ → Part))

-- The three body columns; none is NULL.
pub record Body : Type 0 where
  pub text : Option Text
  pub html : Option Text
  pub preview : Option Text

abbrev pub inbox_name : Text
inbox_name = codes "INBOX"

-- The columns of the UNIQUE constraint, at folder INBOX.
abbrev pub in_inbox : ℕ → Text → MessageRow → Bool
in_inbox account uid r =
    r.account_id == account && text_eq r.dovecot_uid uid && text_eq r.folder inbox_name

-- The row of either INSERT.
unfoldable pub inbox_row : ℕ → Headers → ℕ → Body → ℕ → ℕ → MessageRow
inbox_row account h size body id now = record {
  id = id;
  account_id = account;
  dovecot_uid = h.uid;
  folder = inbox_name;
  message_id = h.msg_id;
  thread_id = h.thread_id;
  subject = h.subject;
  from_addr = h.from_addr;
  to_addrs = to_jsonb h.to_addrs;
  date = null_time h.date;
  size_bytes = size;
  is_read = h.is_read;
  is_starred = false;
  is_deleted = false;
  snippet = body.preview;
  body_text = body.text;
  body_html = body.html;
  last_synced_at = now;
}

abbrev pub no_body : Body
no_body = record { text = none; html = none; preview = none }

-- DO UPDATE SET last_synced_at = now(), is_read = EXCLUDED.is_read
abbrev pub refresh : Bool → ℕ → MessageRow → MessageRow
refresh is_read now r = record r { last_synced_at = now; is_read = is_read }

-- DO UPDATE SET last_synced_at = now()
abbrev pub touch : ℕ → MessageRow → MessageRow
touch now r = record r { last_synced_at = now }

-- The INSERT for a message that is known.
unfoldable pub upsert_known : Env → ℕ → Headers → ℕ → ℕ → Store → Option Store
upsert_known env account h size now db =
    let row = inbox_row account h size no_body db.next_id now in
    let db' = record db {
      messages = upsert (in_inbox account h.uid) row (refresh h.is_read now) db.messages;
      next_id = db.next_id + 1;
    } in
    if env.row_ok (given_message row) then some db' else none

-- The INSERT for a new message.
unfoldable pub upsert_new : Env → ℕ → Headers → ℕ → Body → ℕ → Store → Option Store
upsert_new env account h size body now db =
    let row = inbox_row account h size body db.next_id now in
    let db' = record db {
      messages = upsert (in_inbox account h.uid) row (touch now) db.messages;
      next_id = db.next_id + 1;
    } in
    if env.row_ok (given_message row) then some db' else none

-- The uids that the SELECT lists.
unfoldable pub known_uids : ℕ → Store → List Text
known_uids account db =
    map (λ r. r.dovecot_uid)
      (select (λ r. r.account_id == account && text_eq r.folder inbox_name) db.messages)

unfoldable pub body_of : Text × Text → Body
body_of (text, html) = record { text = some text; html = some html; preview = some (snippet text) }

-- The body of a new message: empty texts where FetchBody fails, and none where extractBody does not
-- end within the fuel.
unfoldable pub fetch_body : ℕ → Option (Option (ℕ → Part)) → Option Body
unfolding body_of
fetch_body fuel none = some (record { text = some []; html = some []; preview = some [] })
fetch_body fuel (some reader) = elim (extract_body fuel reader) [
  | none ↦ none
  | some texts ↦ some (body_of texts)
]

text_or_empty : Option Text → Text
text_or_empty none = []
text_or_empty (some t) = t

-- How a round of the loop ends: with a new message, without one, or never.
pub data Round : Type 0 where
  counted skipped hung : Round

-- The payload of MessageDelivered.
unfoldable pub delivery : Headers → Body → Payload
unfolding text_or_empty
delivery h body = delivered h.subject h.from_addr (text_or_empty body.preview)

-- The result of a scan: an error before the loop, a loop that does not end, or the number of new
-- messages.
pub data Outcome : Type 0 where
  broken endless : Outcome
  complete : ℕ → Outcome

unfoldable pub outcome_of : Option ℕ → Outcome
outcome_of none = Outcome.endless
outcome_of (some n) = Outcome.complete n

-- `newCount++` or not, and the rest of the loop.
unfoldable pub loop_next : (ℕ → M (Option ℕ)) → ℕ → Round → M (Option ℕ)
loop_next rest n Round.counted = rest (n + 1)
loop_next rest n Round.skipped = rest n
loop_next rest n Round.hung = pure none

module _ (env : Env) (server : Server) (fuel account : ℕ) where
  -- What follows an upsert, by whether it failed.
  unfoldable pub announce : Headers → Body → Bool → M Round
  announce h body true = pure Round.skipped
  announce h body false = do
    emit_with env account EventType.message_delivered h.uid inbox_name (delivery h body)
    pure Round.counted

  unfoldable pub deliver : Headers → ℕ → Option Body → M Round
  deliver h size none = pure Round.hung
  deliver h size (some body) = do
    err ← exec env (upsert_new env account h size body)
    announce h body err

  unfoldable pub round_by : Bool → Message → M Round
  round_by true m = do
    exec env (upsert_known env account (headers m) m.size_bytes)
    pure Round.skipped
  round_by false m = deliver (headers m) m.size_bytes (fetch_body fuel (server.body m.uid))

  -- One round of the loop.
  unfoldable pub scan_round : List Text → Message → M Round
  unfolding round_by
  scan_round known m = round_by (any (text_eq (headers m).uid) known) m

  -- The loop, with the new messages counted; none where a round does not end.
  unfoldable pub scan_loop : List Text → ℕ → List Message → M (Option ℕ)
  scan_loop known n [] = pure (some n)
  scan_loop known n (m ∷ ms) = do r ← scan_round known m; loop_next (λ k. scan_loop known k ms) n r

  unfoldable pub scan_with : List Message → Option (List Text) → M Outcome
  scan_with ms none = pure Outcome.broken
  scan_with ms (some known) = do total ← scan_loop known 0 ms; pure (outcome_of total)

  unfoldable pub scan_messages : Option (List Message) → M Outcome
  scan_messages none = pure Outcome.broken
  scan_messages (some []) = pure (Outcome.complete 0)
  scan_messages (some (m ∷ ms)) = do
    known ← query_rows env [] (known_uids account)
    scan_with (m ∷ ms) known

  -- `scanNewMessages`
  unfoldable pub scan : M Outcome
  scan = scan_messages server.inbox
