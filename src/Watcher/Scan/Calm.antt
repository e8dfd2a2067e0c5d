-- ===== src/Watcher/Scan/Calm.antt =====
-- internal/watcher/service.go, scanNewMessages: a round of the loop where every call is answered and
-- PostgreSQL takes the rows.
use skybeam_mail.Prelude.{
  ℕ, ◌+◌, ◌≡◌, refl, true, false, some, List, any, Text, text_eq, text_eq_refl, ==-refl,
}
use skybeam_mail.Events.Types.{EventType}
use skybeam_mail.Events.Writer.Calm.{event_of, HasDrawn, HasDrawn-raise, appended, emit_with_calm}
use skybeam_mail.Store.Rows.{Store, EventRow}
use skybeam_mail.Store.Table.{upsert}
use skybeam_mail.Store.Table.Laws.{any-upsert, any-upsert_self}
use skybeam_mail.Store.World.{Env, World, IsCalm, settle}
use skybeam_mail.Store.World.Calm.{exec-some}
use skybeam_mail.Watcher.Mail.{Message, Headers, headers}
use skybeam_mail.Watcher.Scan.{
  Server, Body, Round, no_body, in_inbox, inbox_name, inbox_row, refresh, touch, delivery,
  upsert_known, upsert_new, fetch_body, announce, deliver, scan_round,
}
use skybeam_mail.Watcher.Scan.Steps.{Survives}
use skybeam_mail.Watcher.Scan.Keys.{
  upsert_known-messages, upsert_new-messages, insert_event-messages,
}

-- There is a row for the uid in INBOX.
abbrev pub IsTracked : ℕ → Text → Store → Type 0
IsTracked account uid db = any (in_inbox account uid) db.messages ≡ true

pub IsTracked-Survives :
    (env : Env) (account : ℕ) (uid : Text) → Survives env account (IsTracked account uid)
IsTracked-Survives env account uid = record {
  known = λ h size now db db' p e. rw (upsert_known-messages env account h size now db db' e) (
      any-upsert (in_inbox account h.uid) (in_inbox account uid) _ (refresh h.is_read now)
        db.messages (λ r. refl) p);
  new = λ h size b now db db' p e. rw (upsert_new-messages env account h size now db db' b e) (
      any-upsert (in_inbox account h.uid) (in_inbox account uid) _ (touch now) db.messages
        (λ r. refl) p);
  event = λ e _ now db db' p q. rw (insert_event-messages env e now db db' q) p;
}

-- The body can be read within the fuel, or not at all, and PostgreSQL takes the two rows that the
-- message can be given, with that body and without one, and the event with that body.
pub record IsReady (env : Env) (server : Server) (fuel account : ℕ) (m : Message) : Type 0 where
  pub body : Body
  pub readable : fetch_body fuel (server.body m.uid) ≡ some body
  pub refreshable : env.row_ok (inbox_row account (headers m) m.size_bytes no_body 0 0) ≡ true
  pub storable : env.row_ok (inbox_row account (headers m) m.size_bytes body 0 0) ≡ true
  pub announceable :
      env.event_ok (
        event_of account EventType.message_delivered
          (headers m).uid
          inbox_name
          (delivery (headers m) body)
          0
          0
          0)
      ≡ true

module _ (env : Env) (account : ℕ) (h : Headers) (size : ℕ) (b : Body)
    (takes : env.row_ok (inbox_row account h size b 0 0) ≡ true) (now : ℕ) (db : Store) where
  -- The database after the upsert of a new message.
  abbrev pub with_new : Store
  with_new = record db {
    messages =
        upsert (in_inbox account h.uid) (inbox_row account h size b db.next_id now) (touch now)
          db.messages;
    next_id = db.next_id + 1;
  }

  pub upsert_new-some : upsert_new env account h size b now db ≡ some with_new
  unfolding upsert_new inbox_row
  upsert_new-some = rw takes

  row-in_inbox : (id : ℕ) → in_inbox account h.uid (inbox_row account h size b id now) ≡ true
  unfolding inbox_row
  row-in_inbox id = rw (==-refl account, text_eq_refl h.uid, text_eq_refl inbox_name)

  pub with_new-IsTracked : IsTracked account h.uid with_new
  with_new-IsTracked =
      any-upsert_self (in_inbox account h.uid) _ (touch now) db.messages (row-in_inbox db.next_id)
        (λ r. refl)

module _ (env : Env) (account : ℕ) (h : Headers) (size : ℕ)
    (takes : env.row_ok (inbox_row account h size no_body 0 0) ≡ true) (now : ℕ) (db : Store) where
  -- The database after the upsert of a message that is known.
  abbrev pub with_known : Store
  with_known = record db {
    messages =
        upsert (in_inbox account h.uid) (inbox_row account h size no_body db.next_id now)
          (refresh h.is_read now) db.messages;
    next_id = db.next_id + 1;
  }

  pub upsert_known-some : upsert_known env account h size now db ≡ some with_known
  unfolding upsert_known inbox_row
  upsert_known-some = rw takes

  pub with_known-IsTracked : IsTracked account h.uid with_known
  with_known-IsTracked =
      any-upsert_self (in_inbox account h.uid) _ (refresh h.is_read now) db.messages
        (row-in_inbox env account h size no_body takes now db db.next_id) (λ r. refl)

module _ (env : Env) (calm : IsCalm env) (server : Server) (fuel account : ℕ) (m : Message)
    (ready : IsReady env server fuel account m) (known : List Text) (w : World) where
  -- The world after the upsert of a message that is known.
  abbrev pub after_known : World
  after_known =
      settle
        (with_known env account (headers m) m.size_bytes ready.refreshable (env.tick w.calls).now
          w.db)
        w

  abbrev pub after_new : World
  after_new =
      settle
        (with_new env account (headers m) m.size_bytes ready.body ready.storable
          (env.tick w.calls).now w.db)
        w

  -- The event of a new message.
  abbrev pub announced : EventRow
  announced =
      event_of account EventType.message_delivered (headers m).uid inbox_name
        (delivery (headers m) ready.body) after_new.db.next_event after_new.db.next_id
        (env.tick after_new.calls).now

  pub scan_round_known :
      any (text_eq (headers m).uid) known ≡ true
      → scan_round env server fuel account known m w ≡ (Round.skipped, after_known)
  unfolding scan_round
  scan_round_known e = rw (
    e,
    exec-some env calm (upsert_known env account (headers m) m.size_bytes) w after_known.db (
        upsert_known-some env account (headers m) m.size_bytes ready.refreshable
          (env.tick w.calls).now w.db),
  )

  pub scan_round_new :
      any (text_eq (headers m).uid) known ≡ false
      → HasDrawn w.db
      → scan_round env server fuel account known m w
        ≡ (Round.counted, settle (appended announced after_new.db) after_new)
  unfolding scan_round deliver announce
  scan_round_new e drawn = rw (
    e,
    ready.readable,
    exec-some env calm (upsert_new env account (headers m) m.size_bytes ready.body) w after_new.db (
        upsert_new-some env account (headers m) m.size_bytes ready.body ready.storable
          (env.tick w.calls).now w.db),
    emit_with_calm env calm account EventType.message_delivered (headers m).uid inbox_name
        (delivery (headers m) ready.body) ready.announceable after_new
        (HasDrawn-raise w.db.events w.db.next_id drawn),
  )
