-- ===== src/Api/Messages/Isolation.antt =====
-- internal/api/handlers/messages.go: Update and Delete, and the messages of other accounts.
use skybeam_mail.Prelude.{
  ℕ, ◌≡◌, refl, sym, ap, ◌∙◌, Bool, true, false, ◌&&◌, Option, none, some, List, [], ◌∷◌, arith,
  any, Text, codes, text_eq, if◌then◌else◌, Bool-cases, inl, inr,
}
use skybeam_mail.Events.Types.{EventType, Payload, nothing, deleted}
use skybeam_mail.Events.Writer.{emit_with}
use skybeam_mail.Events.Writer.Log.{Keeps-emit_with}
use skybeam_mail.Store.Rows.{Store, MessageRow}
use skybeam_mail.Store.Table.{select, find, update}
use skybeam_mail.Store.Table.Distinct.{Distinct, same_number}
use skybeam_mail.Store.Table.Laws.{any-update, find-some, any_of_find}
use skybeam_mail.Store.Table.Picks.{select-update_none}
use skybeam_mail.Store.World.{Env, World, Wire, M, exec, settle}
use skybeam_mail.Store.World.Calm.{query_answered}
use skybeam_mail.Store.World.Keeps.{Keeps, Keeps-pure, Keeps-then, Keeps-exec}
use skybeam_mail.Watcher.Scan.Keys.{not_of, insert_event-messages}
use skybeam_mail.Auth.{Account}
use skybeam_mail.Api.Response.{Response}
use skybeam_mail.Api.Messages.{
  UpdateBody, Current, is_own, has_id, set_read, set_starred, set_deleted, move_to_trash, trash,
  read_event, starred_event, apply_read, apply_starred, apply_update, apply_delete, with_current,
  handle_update, handle_delete,
}

-- message_view.id is the primary key.
abbrev pub HasMessageIds : List MessageRow → Type 0
HasMessageIds = Distinct (same_number (λ r. r.id))

-- A row of another account has this id.
abbrev foreign : ℕ → ℕ → List MessageRow → Bool
foreign id account = any (λ r. has_id id r && not_of account r)

none_foreign :
    (id account : ℕ) (rows : List MessageRow)
    → any (has_id id) rows ≡ false
    → foreign id account rows ≡ false
none_foreign id account [] e = refl
none_foreign id account (r ∷ rows) e = ground (arith, none_foreign id account rows)

any-has_id :
    (i j : ℕ) (rows : List MessageRow)
    → i ≡ j
    → any (has_id i) rows ≡ false
    → any (has_id j) rows ≡ false
any-has_id i j rows e h = rw (← e) h

-- The id of a row of the account is no other account's.
own_not_foreign :
    (id account : ℕ) (rows : List MessageRow) (r : MessageRow)
    → HasMessageIds rows
    → find (is_own id account) rows ≡ some r
    → foreign id account rows ≡ false
unfolding find
own_not_foreign id account [] r h e = refl
own_not_foreign id account (x ∷ rows) r (d, h) e = elim (Bool-cases (is_own id account x)) [
  | inl own ↦ ground (arith, none_foreign id account rows, any-has_id x.id id rows (ground arith) d)
  | inr other ↦ elim (Bool-cases (has_id id x)) [
    | inl clash ↦
        let later : find (is_own id account) rows ≡ some r = rw other at e in
        let same = find-some (is_own id account) rows r later in
        let listed : any (has_id x.id) rows ≡ true =
          any_of_find (is_own id account) (has_id x.id) rows r later (ground arith) in
        cc
    | inr apart ↦ ground (arith, own_not_foreign id account rows r h)
  ]
]

-- What is left of the others' messages, and no other account's row has the id.
abbrev pub Spared : ℕ → ℕ → List MessageRow → Store → Type 0
Spared id account rows db =
    (foreign id account db.messages ≡ false)
    × (select (not_of account) db.messages ≡ select (not_of account) rows)

-- A change of rows that leaves their id and their account alone.
abbrev KeepsOwner : (MessageRow → MessageRow) → Type 0
KeepsOwner f = (r : MessageRow) → ((f r).id ≡ r.id) × ((f r).account_id ≡ r.account_id)

update-Spared :
    (id account : ℕ) (rows : List MessageRow) (f : MessageRow → MessageRow) (db : Store)
    (db' : Store)
    → KeepsOwner f
    → db'.messages ≡ update (has_id id) f db.messages
    → Spared id account rows db
    → Spared id account rows db'
update-Spared id account rows f db db' k e (free, same) = (
  rw e (
      any-update (has_id id) (λ r. has_id id r && not_of account r) f db.messages
        (λ r. let (i, a) = k r in rw (i, a) refl)
      ∙ free),
  rw e (
      select-update_none (has_id id) (not_of account) f db.messages free
        (λ r. let (i, a) = k r in rw a refl)
      ∙ same),
)

module _ (env : Env) (acc : Account) (id : ℕ) (rows : List MessageRow) (current : Current) where
  abbrev P : Store → Type 0
  P = Spared id acc.id rows

  event-Keeps :
      (type : EventType) (payload : Payload)
      → Keeps P (emit_with env acc.id type current.0 current.1 payload)
  event-Keeps type payload =
      Keeps-emit_with P env (λ e _ now db db' p q. rw (insert_event-messages env e now db db' q) p)
        acc.id type current.0 current.1 payload

  exec-Keeps :
      (statement : ℕ → Store → Option Store) (f : MessageRow → MessageRow)
      → KeepsOwner f
      → ((now : ℕ) (db db' : Store)
          → statement now db ≡ some db'
          → db'.messages ≡ update (has_id id) f db.messages)
      → Keeps P (exec env statement)
  exec-Keeps statement f k h =
      Keeps-exec P env statement
        λ now db db' p e. update-Spared id acc.id rows f db db' k (h now db db' e) p

  apply_read-Keeps : (b : Option Bool) → Keeps P (apply_read env acc id current b)
  unfolding apply_read set_read
  apply_read-Keeps none = Keeps-pure P false
  apply_read-Keeps (some b) =
      Keeps-then P _ _
        (exec-Keeps (set_read b id) (λ r. record r { is_read = b }) (λ r. (refl, refl))
          (λ now db db' e. ground arith))
        (event-Keeps (read_event b) nothing)

  apply_starred-Keeps : (b : Option Bool) → Keeps P (apply_starred env acc id current b)
  unfolding apply_starred set_starred
  apply_starred-Keeps none = Keeps-pure P false
  apply_starred-Keeps (some b) =
      Keeps-then P _ _
        (exec-Keeps (set_starred b id) (λ r. record r { is_starred = b }) (λ r. (refl, refl))
          (λ now db db' e. ground arith))
        (event-Keeps (starred_event b) nothing)

  apply_update-Keeps : (b : UpdateBody) → Keeps P (apply_update env acc id current b)
  unfolding apply_update
  apply_update-Keeps b =
      Keeps-then P _ _ (apply_read-Keeps b.is_read)
        (Keeps-then P _ _ (apply_starred-Keeps b.is_starred) (Keeps-pure P _))

  delete_statement-Keeps :
      (permanent : Bool)
      → Keeps P (exec env (if permanent then set_deleted id else move_to_trash id))
  unfolding set_deleted move_to_trash
  delete_statement-Keeps true =
      exec-Keeps (set_deleted id) (λ r. record r { is_deleted = true }) (λ r. (refl, refl))
        (λ now db db' e. ground arith)
  delete_statement-Keeps false =
      exec-Keeps (move_to_trash id) (λ r. record r { folder = trash }) (λ r. (refl, refl))
        (λ now db db' e. ground arith)

  apply_delete-Keeps : (permanent : Bool) → Keeps P (apply_delete env acc id current permanent)
  unfolding apply_delete
  apply_delete-Keeps permanent = Keeps-then P _ _ (delete_statement-Keeps permanent) (
      Keeps-then P _ _ (event-Keeps EventType.message_deleted (deleted current.1 permanent))
        (Keeps-pure P _))

  -- The rest of a handler after a lookup that was answered.
  rest_Spared :
      (body : Current → M Response)
      → ((c : Current) → Keeps P (body c))
      → (found : Option MessageRow) (w : World) → found ≡ find (is_own id acc.id) w.db.messages
      → w.db.messages ≡ rows
      → HasMessageIds w.db.messages
      → select (not_of acc.id) (with_current body (some found) w).1.db.messages
        ≡ select (not_of acc.id) rows
  unfolding with_current
  rest_Spared body k none w e same ids = rw same
  rest_Spared body k (some r) w e same ids =
      ((k (r.dovecot_uid, r.folder)).at w
        (own_not_foreign id acc.id w.db.messages r ids (sym e), ap (select (not_of acc.id)) same)).1

-- Where the lookup of the message is answered, Update leaves the messages of every other account as
-- they are, whatever becomes of the calls after it.
pub handle_update-isolated :
    (env : Env) (acc : Account) (id : ℕ) (b : UpdateBody) (w : World)
    → (env.tick w.calls).wire ≡ Wire.answered
    → HasMessageIds w.db.messages
    → select (not_of acc.id) (handle_update env acc (some id) (some b) w).1.db.messages
      ≡ select (not_of acc.id) w.db.messages
unfolding handle_update
handle_update-isolated env acc id b w wire ids =
    rw (query_answered env [] (λ db. find (is_own id acc.id) db.messages) w wire refl) (
      rest_Spared env acc id w.db.messages ([], []) (λ c. apply_update env acc id c b)
        (λ c. apply_update-Keeps env acc id w.db.messages c b)
        (find (is_own id acc.id) w.db.messages) (settle w.db w) refl refl ids)

-- Where the lookup of the message is answered, Delete leaves the messages of every other account as
-- they are, whatever becomes of the calls after it.
pub handle_delete-isolated :
    (env : Env) (acc : Account) (id : ℕ) (permanent : Text) (w : World)
    → (env.tick w.calls).wire ≡ Wire.answered
    → HasMessageIds w.db.messages
    → select (not_of acc.id) (handle_delete env acc (some id) permanent w).1.db.messages
      ≡ select (not_of acc.id) w.db.messages
unfolding handle_delete
handle_delete-isolated env acc id permanent w wire ids =
    let p = text_eq permanent (codes "true") in
    rw (query_answered env [] (λ db. find (is_own id acc.id) db.messages) w wire refl) (
      rest_Spared env acc id w.db.messages ([], []) (λ c. apply_delete env acc id c p)
        (λ c. apply_delete-Keeps env acc id w.db.messages c p)
        (find (is_own id acc.id) w.db.messages) (settle w.db w) refl refl ids)
