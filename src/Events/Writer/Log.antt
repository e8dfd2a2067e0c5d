-- ===== src/Events/Writer/Log.antt =====
-- internal/events/events.go, Writer: the order and the growth of the event store.
use skybeam_mail.Prelude.{
  ℕ, ◌+◌, ◌<◌, ◌≡◌, refl, sym, some, List, [], ◌∷◌, ◌++◌, append-nil, append_assoc, arith, All,
  All-append, Text,
}
use skybeam_mail.Events.Types.{EventType, Payload}
use skybeam_mail.Store.Rows.{Store, EventRow}
use skybeam_mail.Store.World.{Env}
use skybeam_mail.Store.World.Keeps.{Keeps, Keeps-bind, Keeps-exec, Keeps-time_now}
use skybeam_mail.Events.Writer.{
  Event, event_row, insert_event, emit, emit_with, stamped, event_with,
}

-- The events of the database are those listed, with more behind them.
abbrev pub Extends : List EventRow → Store → Type 0
Extends old db = (more : List EventRow) × (db.events ≡ old ++ more)

pub Extends-refl : (db : Store) → Extends db.events db
Extends-refl db = ([], sym (append-nil db.events))

-- The sequence numbers rise, and the next one is above them all.
abbrev pub IsNumbered : ℕ → List EventRow → Type 0
IsNumbered bound [] = Unit {0}
IsNumbered bound (r ∷ rows) = (r.id < bound) × All (λ s. r.id < s.id) rows × IsNumbered bound rows

abbrev pub HasLog : Store → Type 0
HasLog db = IsNumbered db.next_event db.events

pub insert_event-Extends :
    (old : List EventRow) (env : Env) (e : Event) (now : ℕ) (db db' : Store)
    → Extends old db
    → insert_event env e now db ≡ some db'
    → Extends old db'
unfolding insert_event
insert_event-Extends old env e now db db' (more, h) q =
    (more ++ event_row e db ∷ [], ground (arith, h, append_assoc old more (event_row e db ∷ [])))

pub IsNumbered-snoc :
    (n : ℕ) (rows : List EventRow) (r : EventRow)
    → r.id ≡ n
    → IsNumbered n rows
    → IsNumbered (n + 1) (rows ++ r ∷ [])
IsNumbered-snoc n [] r e h = (omega arith, tt, tt)
IsNumbered-snoc n (s ∷ rows) r e (b, a, h) =
    (omega arith, All-append _ rows (r ∷ []) a (omega arith, tt), IsNumbered-snoc n rows r e h)

pub insert_event-HasLog :
    (env : Env) (e : Event) (now : ℕ) (db db' : Store)
    → HasLog db
    → insert_event env e now db ≡ some db'
    → HasLog db'
unfolding insert_event event_row
insert_event-HasLog env e now db db' h q =
    ground (arith, IsNumbered-snoc db.next_event db.events (event_row e db) refl h)

-- Inserting an event leaves these tables alone.
pub insert_event-folders :
    (env : Env) (e : Event) (now : ℕ) (db db' : Store)
    → insert_event env e now db ≡ some db'
    → (db'.folders ≡ db.folders) × (db'.messages ≡ db.messages)
unfolding insert_event
insert_event-folders env e now db db' h = (ground arith, ground arith)

-- What inserting an event with a drawn id keeps, EmitWith keeps.
module _ (P : Store → Type 0) (env : Env)
    (inserts : (e : Event)
      → e.event_id ≡ 0
      → (now : ℕ) (db db' : Store) → P db
      → insert_event env e now db ≡ some db'
      → P db') where
  Keeps-emit : (e : Event) → e.event_id ≡ 0 → Keeps P (emit env e)
  unfolding emit stamped
  Keeps-emit e drawn =
      Keeps-bind P _ _ (Keeps-time_now P env)
        λ now. Keeps-exec P env (insert_event env (stamped e now)) (inserts (stamped e now) drawn)

  pub Keeps-emit_with :
      (account : ℕ) (type : EventType) (uid folder : Text) (payload : Payload)
      → Keeps P (emit_with env account type uid folder payload)
  unfolding emit_with event_with
  Keeps-emit_with account type uid folder payload =
      Keeps-emit (event_with account type uid folder payload) refl

pub emit_with-Extends :
    (env : Env) (old : List EventRow) (account : ℕ) (type : EventType) (uid folder : Text)
    (payload : Payload)
    → Keeps (Extends old) (emit_with env account type uid folder payload)
emit_with-Extends env old =
    Keeps-emit_with (Extends old) env (λ e _ now. insert_event-Extends old env e now)

pub emit_with-HasLog :
    (env : Env) (account : ℕ) (type : EventType) (uid folder : Text) (payload : Payload)
    → Keeps HasLog (emit_with env account type uid folder payload)
emit_with-HasLog env = Keeps-emit_with HasLog env (λ e _. insert_event-HasLog env e)
