-- ===== src/Events/Writer.antt =====
-- internal/events/events.go: the Writer, which appends events to the event store.
pub mod Log
pub mod Calm
use skybeam_mail.Prelude.{
  ℕ, ◌+◌, Bool, Option, none, some, List, [], ◌∷◌, ◌++◌, ◌==◌, if◌then◌else◌, any, Text,
}
use skybeam_mail.Events.Types.{EventType, event_name, Payload, nothing}
use skybeam_mail.Store.Rows.{Store, EventRow}
use skybeam_mail.Store.World.{Env, M, pure, ◌>>=◌, exec, time_now, given_event}

-- `Event`: 0 is `uuid.Nil` and the zero time, and none is a nil payload.
pub record Event : Type 0 where
  pub event_id : ℕ
  pub account_id : ℕ
  pub event_type : EventType
  pub message_uid : Text
  pub folder : Text
  pub payload : Option Payload
  pub emitted_at : ℕ

unfoldable pub payload_or_empty : Option Payload → Payload
payload_or_empty none = nothing
payload_or_empty (some p) = p

-- The row that `insertEventSQL` inserts: ids that are nil are drawn.
unfoldable pub event_row : Event → Store → EventRow
unfolding payload_or_empty
event_row e db = record {
  id = db.next_event;
  event_id = if e.event_id == 0 then db.next_id else e.event_id;
  account_id = e.account_id;
  event_type = event_name e.event_type;
  message_uid = e.message_uid;
  folder = e.folder;
  payload = payload_or_empty e.payload;
  emitted_at = e.emitted_at;
}

-- `insertEventSQL`; events.event_id is UNIQUE.
unfoldable pub insert_event : Env → Event → ℕ → Store → Option Store
unfolding event_row
insert_event env e now db =
    let row = event_row e db in
    let db' = record db {
      events = db.events ++ row ∷ [];
      next_id = db.next_id + 1;
      next_event = db.next_event + 1;
    } in
    if any (λ r. r.event_id == row.event_id) db.events
    then none
    else if env.event_ok (given_event row)
    then some db'
    else none

-- The defaults that `Emit` fills in from the clock.
unfoldable pub stamped : Event → ℕ → Event
stamped e now = record e { emitted_at = if e.emitted_at == 0 then now else e.emitted_at }

-- `Writer.Emit`, whether it returned an error.
unfoldable pub emit : Env → Event → M Bool
emit env e = do now ← time_now env; exec env (insert_event env (stamped e now))

-- The event that `EmitWith` builds. The payloads of this program always marshal.
unfoldable pub event_with : ℕ → EventType → Text → Text → Payload → Event
event_with account_id event_type message_uid folder payload = record {
  event_id = 0;
  account_id = account_id;
  event_type = event_type;
  message_uid = message_uid;
  folder = folder;
  payload = some payload;
  emitted_at = 0;
}

-- `Writer.EmitWith`
unfoldable pub emit_with : Env → ℕ → EventType → Text → Text → Payload → M Bool
emit_with env account_id event_type message_uid folder payload =
    emit env (event_with account_id event_type message_uid folder payload)
