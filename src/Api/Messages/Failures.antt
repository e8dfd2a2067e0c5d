-- ===== src/Api/Messages/Failures.antt =====
-- internal/api/handlers/messages.go: Update and Delete where the lookup fails with an error that is
-- not ErrNoRows.
use skybeam_mail.Prelude.{
  ℕ, ◌+◌, ◌≡◌, refl, ◌∙◌, Bool, true, Option, none, some, List, [], Text, codes, text_eq,
}
use skybeam_mail.Events.Types.{EventType, Payload, nothing, deleted}
use skybeam_mail.Events.Writer.{emit_with}
use skybeam_mail.Events.Writer.Log.{Keeps-emit_with}
use skybeam_mail.Store.Rows.{Store}
use skybeam_mail.Store.Table.{find, update}
use skybeam_mail.Store.World.{Env, World, Wire, settle}
use skybeam_mail.Store.World.Calm.{query_dropped, exec_answered}
use skybeam_mail.Watcher.Scan.Keys.{insert_event-messages}
use skybeam_mail.Auth.{Account}
use skybeam_mail.Api.Response.{no_content}
use skybeam_mail.Api.Messages.{
  UpdateBody, is_own, has_id, set_read, set_deleted, read_event, apply_read, apply_starred,
  apply_update, apply_delete, with_current, handle_update, handle_delete,
}

-- Appending an event leaves the messages alone.
pub event-messages :
    (env : Env) (account : ℕ) (type : EventType) (uid folder : Text) (payload : Payload) (w : World)
    → (emit_with env account type uid folder payload w).1.db.messages ≡ w.db.messages
event-messages env account type uid folder payload w =
    (Keeps-emit_with (λ db. db.messages ≡ w.db.messages) env
        (λ e _ now db db' p q. insert_event-messages env e now db db' q ∙ p) account type uid folder
        payload).at
      w refl

-- Where the lookup does not reach the database and the next call is answered, an Update of the read
-- flag alone sets the flag of the message with the id of the path, whoever's message that is, and
-- answers 204.
pub handle_update-unchecked :
    (env : Env) (acc : Account) (id : ℕ) (flag : Bool) (folder : Option Text) (labels : List Text)
    (w : World)
    → (env.tick w.calls).wire ≡ Wire.dropped
    → (env.tick (w.calls + 1)).wire ≡ Wire.answered
    → let b : UpdateBody = record {
      is_read = some flag;
      is_starred = none;
      folder = folder;
      labels = labels;
    } in
      ((handle_update env acc (some id) (some b) w).0 ≡ no_content)
      × ((handle_update env acc (some id) (some b) w).1.db.messages
          ≡ update (has_id id) (λ r. record r { is_read = flag }) w.db.messages)
unfolding handle_update with_current apply_update apply_starred apply_read set_read
handle_update-unchecked env acc id flag folder labels w lost made =
    let rows = update (has_id id) (λ r. record r { is_read = flag }) w.db.messages in
    let db' : Store = record w.db { messages = rows } in
    rw
      (
        query_dropped env [] (λ db. find (is_own id acc.id) db.messages) w lost,
        exec_answered env (set_read flag id) (settle w.db w) db' made refl,
      )
      (refl, event-messages env acc.id (read_event flag) [] [] nothing (settle db' (settle w.db w)))

-- Where the lookup does not reach the database and the next call is answered, a permanent Delete marks
-- the message with the id of the path as deleted, whoever's message that is, and answers 204.
pub handle_delete-unchecked :
    (env : Env) (acc : Account) (id : ℕ) (w : World)
    → (env.tick w.calls).wire ≡ Wire.dropped
    → (env.tick (w.calls + 1)).wire ≡ Wire.answered
    → ((handle_delete env acc (some id) (codes "true") w).0 ≡ no_content)
      × ((handle_delete env acc (some id) (codes "true") w).1.db.messages
          ≡ update (has_id id) (λ r. record r { is_deleted = true }) w.db.messages)
unfolding handle_delete with_current apply_delete set_deleted text_eq
handle_delete-unchecked env acc id w lost made =
    let rows = update (has_id id) (λ r. record r { is_deleted = true }) w.db.messages in
    let db' : Store = record w.db { messages = rows } in
    rw
      (
        query_dropped env [] (λ db. find (is_own id acc.id) db.messages) w lost,
        exec_answered env (set_deleted id) (settle w.db w) db' made refl,
      )
      (
        refl,
        event-messages env acc.id EventType.message_deleted [] [] (deleted [] true)
            (settle db' (settle w.db w)),
      )
