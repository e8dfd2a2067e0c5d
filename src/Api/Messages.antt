-- ===== src/Api/Messages.antt =====
-- internal/api/handlers/messages.go. The id of the path is what uuid.Parse gives, and the body of a
-- request what `decode` gives; none is an error.
pub mod Pages
pub mod Isolation
pub mod Failures
pub mod Trash
mod Tests
use skybeam_mail.Prelude.{
  is_empty, ℕ, ◌+◌, ◌-◌, ◌*◌, Bool, true, false, ◌&&◌, ◌||◌, not, Option, none, some, List, [], ◌∷◌,
  ◌++◌, map, any, if◌then◌else◌, ◌==◌, leb, ltb, take, drop, Text, codes, text_eq,
}
use skybeam_mail.Prelude.Int.{ℤ, pos, pos_part, leb_ℤ, ltb_ℤ, wrap64}
use skybeam_mail.Prelude.Decimal.{atoi}
use skybeam_mail.Events.Types.{EventType, Payload, nothing, deleted}
use skybeam_mail.Events.Writer.{emit_with}
use skybeam_mail.Store.Rows.{Store, MessageRow}
use skybeam_mail.Store.Table.{select, find, update, order_by}
use skybeam_mail.Store.World.{Env, M, pure, ◌>>=◌, ◌>>◌, exec, query}
use skybeam_mail.Auth.{Account}
use skybeam_mail.Api.Query.{clamp_limit, clamp_page, offset_of, not_older, scan_rows}
use skybeam_mail.Api.Response.{
  Response, respond, respond_error, no_content, Code, page, message, thread,
}

-- The query string of List.
pub record ListQuery : Type 0 where
  pub folder : Text
  pub limit : Text
  pub page : Text
  pub unread_only : Text

unfoldable pub folder_of : Text → Text
folder_of folder = if is_empty folder then codes "INBOX" else folder

abbrev is_some : {A : Type 0} → Option A → Bool
is_some none = false
is_some (some a) = true

-- Scan of the columns of List, and of Get.
unfoldable pub scans_summary : MessageRow → Bool
scans_summary r = is_some r.date && is_some r.snippet

unfoldable pub scans_whole : MessageRow → Bool
scans_whole r = scans_summary r && is_some r.body_text && is_some r.body_html

-- The columns that List and Thread select: no body.
unfoldable pub summary : MessageRow → MessageRow
summary r = record r { body_text = none; body_html = none }

unfoldable pub listed : ℕ → Text → Bool → MessageRow → Bool
listed account folder unread r =
    r.account_id == account && text_eq r.folder folder && (not unread || not r.is_read)

-- The SELECT of List; PostgreSQL refuses a negative OFFSET. The order in which this query meets the
-- rows is given: rows of the same date stay in it.
unfoldable pub select_page :
    (List MessageRow → List MessageRow) → ℕ → Text → Bool → ℤ → ℤ → Store → Option (List MessageRow)
select_page meets account folder unread limit offset db =
    let rows =
      order_by (λ r s. not_older r.date s.date)
        (meets (select (listed account folder unread) db.messages)) in
    if ltb_ℤ offset (pos 0)
    then none
    else some (take (pos_part limit) (drop (pos_part offset) rows))

unfoldable pub list_response : Bool → ℤ → ℤ → Option (Option (List MessageRow)) → Response
list_response closes p limit none = respond_error 500 Code.db_error
list_response closes p limit (some none) = respond_error 500 Code.db_error
list_response closes p limit (some (some rows)) =
    respond 200 (page (map summary (scan_rows closes scans_summary rows)) p limit)

-- `MessageHandler.List`
unfoldable pub handle_list :
    Env → (List MessageRow → List MessageRow) → Bool → Account → ListQuery → M Response
handle_list env meets closes acc q =
    let folder = folder_of q.folder in
    let limit = clamp_limit 100 50 (atoi q.limit) in
    let p = clamp_page (atoi q.page) in
    let unread = text_eq q.unread_only (codes "true") in
    do
      rows ←
          query env (folder ∷ []) (select_page meets acc.id folder unread limit (offset_of p limit))
      pure (list_response closes p limit rows)

abbrev pub is_own : ℕ → ℕ → MessageRow → Bool
is_own id account r = r.id == id && r.account_id == account

abbrev pub has_id : ℕ → MessageRow → Bool
has_id id r = r.id == id

unfoldable pub get_response : Option (Option MessageRow) → Response
get_response none = respond_error 500 Code.db_error
get_response (some none) = respond_error 404 Code.not_found
get_response (some (some r)) =
    if scans_whole r then respond 200 (message r) else respond_error 500 Code.db_error

-- `MessageHandler.Get`
unfoldable pub handle_get : Env → Account → Option ℕ → M Response
handle_get env acc none = pure (respond_error 400 Code.invalid_id)
handle_get env acc (some id) = do
  row ← query env [] (λ db. find (is_own id acc.id) db.messages)
  pure (get_response row)

-- The body of Update. `folder` and `labels` are decoded and not used.
pub record UpdateBody : Type 0 where
  pub is_read : Option Bool
  pub is_starred : Option Bool
  pub folder : Option Text
  pub labels : List Text

-- What Update and Delete use of the current row: its uid and its folder.
abbrev pub Current : Type 0
Current = Text × Text

unfoldable pub set_read : Bool → ℕ → ℕ → Store → Option Store
set_read b id now db =
    some (record db { messages = update (has_id id) (λ r. record r { is_read = b }) db.messages })

unfoldable pub set_starred : Bool → ℕ → ℕ → Store → Option Store
set_starred b id now db =
    some
      (record db { messages = update (has_id id) (λ r. record r { is_starred = b }) db.messages })

-- UPDATE … SET is_deleted = true
unfoldable pub set_deleted : ℕ → ℕ → Store → Option Store
set_deleted id now db =
    some (record db {
      messages = update (has_id id) (λ r. record r { is_deleted = true }) db.messages;
    })

abbrev pub trash : Text
trash = codes "Trash"

-- The row would meet another one on UNIQUE (account_id, dovecot_uid, folder), at folder Trash.
unfoldable pub trash_conflict : ℕ → List MessageRow → Bool
trash_conflict id rows =
    any
      (λ r.
        has_id id r
        && any
            (λ s.
              not (s.id == id)
              && s.account_id == r.account_id
              && text_eq s.dovecot_uid r.dovecot_uid
              && text_eq s.folder trash)
            rows)
      rows

unfoldable pub move_to_trash : ℕ → ℕ → Store → Option Store
move_to_trash id now db =
    if trash_conflict id db.messages
    then none
    else some
        (record db { messages = update (has_id id) (λ r. record r { folder = trash }) db.messages })

unfoldable pub read_event : Bool → EventType
read_event b = if b then EventType.message_read else EventType.message_unread

unfoldable pub starred_event : Bool → EventType
starred_event b = if b then EventType.message_starred else EventType.message_unstarred

module _ (env : Env) (acc : Account) (id : ℕ) (current : Current) where
  unfoldable pub apply_read : Option Bool → M Bool
  apply_read none = pure false
  apply_read (some b) = do
    exec env (set_read b id)
    emit_with env acc.id (read_event b) current.0 current.1 nothing

  unfoldable pub apply_starred : Option Bool → M Bool
  apply_starred none = pure false
  apply_starred (some b) = do
    exec env (set_starred b id)
    emit_with env acc.id (starred_event b) current.0 current.1 nothing

  unfoldable pub apply_update : UpdateBody → M Response
  apply_update b = do apply_read b.is_read; apply_starred b.is_starred; pure no_content

  unfoldable pub apply_delete : Bool → M Response
  apply_delete permanent = do
    exec env (if permanent then set_deleted id else move_to_trash id)
    emit_with env acc.id EventType.message_deleted current.0 current.1 (deleted current.1 permanent)
    pure no_content

-- What follows the lookup of the current row: 404 where there is none, but after any other error the
-- handler goes on, with an empty uid and folder.
unfoldable pub with_current : (Current → M Response) → Option (Option MessageRow) → M Response
with_current body none = body ([], [])
with_current body (some none) = pure (respond_error 404 Code.not_found)
with_current body (some (some r)) = body (r.dovecot_uid, r.folder)

-- `MessageHandler.Update`
unfoldable pub handle_update : Env → Account → Option ℕ → Option UpdateBody → M Response
handle_update env acc none body = pure (respond_error 400 Code.invalid_id)
handle_update env acc (some id) none = pure (respond_error 400 Code.invalid_body)
handle_update env acc (some id) (some body) = do
  row ← query env [] (λ db. find (is_own id acc.id) db.messages)
  with_current (λ current. apply_update env acc id current body) row

-- `MessageHandler.Delete`
unfoldable pub handle_delete : Env → Account → Option ℕ → Text → M Response
handle_delete env acc none permanent = pure (respond_error 400 Code.invalid_id)
handle_delete env acc (some id) permanent = do
  row ← query env [] (λ db. find (is_own id acc.id) db.messages)
  with_current (λ current. apply_delete env acc id current (text_eq permanent (codes "true"))) row

-- The loop of Thread, which appends a row that fails to scan too, as far as the driver has filled it.
unfoldable pub scan_all : Bool → (MessageRow → MessageRow) → List MessageRow → List MessageRow
scan_all closes partial [] = []
scan_all closes partial (r ∷ rows) =
    let rest = scan_all closes partial rows in
    if scans_summary r then summary r ∷ rest else partial r ∷ (if closes then [] else rest)

unfoldable pub thread_response :
    Bool → (MessageRow → MessageRow) → Option (List MessageRow) → Response
thread_response closes partial none = respond_error 500 Code.db_error
thread_response closes partial (some rows) = respond 200 (thread (scan_all closes partial rows))

-- ORDER BY date ASC, where NULL comes last.
unfoldable pub select_thread : ℕ → Text → Store → List MessageRow
select_thread account thread_id db =
    order_by (λ r s. not_older s.date r.date)
      (select (λ r. r.account_id == account && text_eq r.thread_id thread_id) db.messages)

-- `MessageHandler.Thread`
unfoldable pub handle_thread : Env → Bool → (MessageRow → MessageRow) → Account → Text → M Response
handle_thread env closes partial acc thread_id = do
  rows ← query env (thread_id ∷ []) (select_thread acc.id thread_id)
  pure (thread_response closes partial rows)

-- `MessageHandler.Raw` and `MessageHandler.Send`
unfoldable pub handle_raw : M Response
handle_raw = pure (respond_error 501 Code.not_implemented)

unfoldable pub handle_send : M Response
handle_send = pure (respond_error 501 Code.not_implemented)
