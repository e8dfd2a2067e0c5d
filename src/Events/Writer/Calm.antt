-- ===== src/Events/Writer/Calm.antt =====
-- internal/events/events.go, EmitWith: what it appends where every call is answered.
use skybeam_mail.Prelude.{
  ℕ, ◌+◌, ◌<◌, ◌≡◌, refl, true, false, some, List, [], ◌∷◌, ◌++◌, arith, All, All-append, any, ◌==◌,
  Text,
}
use skybeam_mail.Events.Types.{EventType, event_name, Payload}
use skybeam_mail.Store.Rows.{Store, EventRow}
use skybeam_mail.Store.World.{Env, World, IsCalm, settle, time_now}
use skybeam_mail.Store.World.Calm.{exec-some}
use skybeam_mail.Events.Writer.{event_row, insert_event, emit, emit_with, stamped, event_with}

-- The row that EmitWith inserts.
abbrev pub event_of : ℕ → EventType → Text → Text → Payload → ℕ → ℕ → ℕ → EventRow
event_of account type uid folder payload id event_id now = record {
  id = id;
  event_id = event_id;
  account_id = account;
  event_type = event_name type;
  message_uid = uid;
  folder = folder;
  payload = payload;
  emitted_at = now;
}

-- The event ids have been drawn.
abbrev pub HasDrawn : Store → Type 0
HasDrawn db = All (λ r. r.event_id < db.next_id) db.events

pub HasDrawn-raise :
    (rows : List EventRow) (n : ℕ)
    → All (λ r. r.event_id < n) rows
    → All (λ r. r.event_id < n + 1) rows
HasDrawn-raise [] n h = tt
HasDrawn-raise (r ∷ rows) n (p, h) = (omega arith, HasDrawn-raise rows n h)

not_drawn :
    (rows : List EventRow) (n : ℕ)
    → All (λ r. r.event_id < n) rows
    → any (λ r. r.event_id == n) rows ≡ false
not_drawn [] n h = refl
not_drawn (r ∷ rows) n (p, h) = ground (arith, not_drawn rows n h)

-- The database once the row is in.
abbrev pub appended : EventRow → Store → Store
appended row db = record db {
  events = db.events ++ row ∷ [];
  next_id = db.next_id + 1;
  next_event = db.next_event + 1;
}

module _ (env : Env) (calm : IsCalm env) (account : ℕ) (type : EventType) (uid folder : Text)
    (payload : Payload)
    (takes : env.event_ok (event_of account type uid folder payload 0 0 0) ≡ true) where
  insert_event-some :
      (now now' : ℕ) (db : Store)
      → HasDrawn db
      → insert_event env (stamped (event_with account type uid folder payload) now) now' db
        ≡ some (appended (event_of account type uid folder payload db.next_event db.next_id now) db)
  unfolding insert_event event_row stamped event_with
  insert_event-some now now' db h = rw (not_drawn db.events db.next_id h, takes)

  pub emit_with_calm :
      (w : World)
      → HasDrawn w.db
      → emit_with env account type uid folder payload w ≡ (
        false,
        settle
            (appended
              (event_of account type uid folder payload w.db.next_event w.db.next_id
                (env.tick w.calls).now)
              w.db)
            w,
      )
  unfolding emit_with emit time_now
  emit_with_calm w h = exec-some env calm _ w _ (insert_event-some _ _ w.db h)

pub appended-HasDrawn :
    (row : EventRow) (db : Store)
    → row.event_id ≡ db.next_id
    → HasDrawn db
    → HasDrawn (appended row db)
appended-HasDrawn row db e h =
    All-append _ db.events (row ∷ []) (HasDrawn-raise db.events db.next_id h) (omega arith, tt)
