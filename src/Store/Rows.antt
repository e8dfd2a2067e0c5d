-- ===== src/Store/Rows.antt =====
-- The rows of the tables in migrations/. A UUID is a number; a time is a number of nanoseconds, 0
-- for Go's zero time. Columns that no modelled code reads or writes are left out, and a column that
-- the Go code never leaves NULL is no Option.
use skybeam_mail.Prelude.{ℕ, Bool, Option, List, Text}
use skybeam_mail.Events.Types.{Payload}

pub record AccountRow : Type 0 where
  pub id : ℕ
  pub email : Text
  pub display_name : Text
  pub dovecot_user : Text
  pub password_hash : Text
  pub is_admin : Bool
  pub is_active : Bool

pub record SessionRow : Type 0 where
  pub account_id : ℕ
  pub token_hash : Text
  pub expires_at : ℕ
  pub last_seen : Option ℕ

pub record EventRow : Type 0 where
  pub id : ℕ
  pub event_id : ℕ
  pub account_id : ℕ
  pub event_type : Text
  pub message_uid : Text
  pub folder : Text
  pub payload : Payload
  pub emitted_at : ℕ

pub record MessageRow : Type 0 where
  pub id : ℕ
  pub account_id : ℕ
  pub dovecot_uid : Text
  pub folder : Text
  pub message_id : Text
  pub thread_id : Text
  pub subject : Text
  pub from_addr : Text
  pub to_addrs : Text
  pub date : Option ℕ
  pub size_bytes : ℕ
  pub is_read : Bool
  pub is_starred : Bool
  pub is_deleted : Bool
  pub snippet : Option Text
  pub body_text : Option Text
  pub body_html : Option Text
  pub last_synced_at : ℕ

pub record FolderRow : Type 0 where
  pub account_id : ℕ
  pub folder_name : Text
  pub total_count : ℕ
  pub unread_count : ℕ
  pub last_synced_at : ℕ

pub record DomainRow : Type 0 where
  pub id : ℕ
  pub name : Text

-- The database. `next_id` is what gen_random_uuid() draws next: ids are only compared, and a drawn
-- id is new. `next_event` is the sequence of events.id.
pub record Store : Type 0 where
  pub accounts : List AccountRow
  pub sessions : List SessionRow
  pub events : List EventRow
  pub messages : List MessageRow
  pub folders : List FolderRow
  pub domains : List DomainRow
  pub next_id : ℕ
  pub next_event : ℕ
