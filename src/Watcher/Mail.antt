-- ===== src/Watcher/Mail.antt =====
-- What the IMAP server shows of a message (internal/imap/client.go, Message), and what
-- scanNewMessages of internal/watcher/service.go reads from it before it looks at the database.
use skybeam_mail.Prelude.{
  is_empty, ℕ, Bool, true, false, Option, none, some, List, [], ◌∷◌, ◌++◌, ◌==◌, if◌then◌else◌, map,
  any, Text, codes,
}
use skybeam_mail.Prelude.Decimal.{itoa}

-- `imap.FlagSeen`, and any other flag.
pub data Flag : Type 0 where
  seen : Flag
  other : Text → Flag

pub record Address : Type 0 where
  pub name : Text
  pub mailbox : Text
  pub host : Text

-- A date of 0 is Go's zero time.
pub record Envelope : Type 0 where
  pub date : ℕ
  pub subject : Text
  pub from : List Address
  pub to : List Address
  pub message_id : Text

pub record Message : Type 0 where
  pub uid : ℕ
  pub flags : List Flag
  pub envelope : Option Envelope
  pub size_bytes : ℕ

-- The local variables of a round of the loop.
pub record Headers : Type 0 where
  pub uid : Text
  pub subject : Text
  pub from_addr : Text
  pub to_addrs : List Text
  pub msg_id : Text
  pub thread_id : Text
  pub date : ℕ
  pub is_read : Bool

mailbox_at_host : Address → Text
mailbox_at_host a = a.mailbox ++ codes "@" ++ a.host

from_text : List Address → Text
from_text [] = []
from_text (a ∷ rest) =
    if is_empty a.name
    then mailbox_at_host a
    else a.name ++ codes " <" ++ mailbox_at_host a ++ codes ">"

thread_of : Text → Text → Text
thread_of uid msg_id = if is_empty msg_id then uid else msg_id

abbrev pub is_seen : Flag → Bool
is_seen Flag.seen = true
is_seen (Flag.other s) = false

headers_with : Text → List Flag → Option Envelope → Headers
headers_with uid flags none = record {
  uid = uid;
  subject = [];
  from_addr = [];
  to_addrs = [];
  msg_id = [];
  thread_id = thread_of uid [];
  date = 0;
  is_read = any is_seen flags;
}
headers_with uid flags (some e) = record {
  uid = uid;
  subject = e.subject;
  from_addr = from_text e.from;
  to_addrs = map mailbox_at_host e.to;
  msg_id = e.message_id;
  thread_id = thread_of uid e.message_id;
  date = e.date;
  is_read = any is_seen flags;
}

unfoldable pub headers : Message → Headers
unfolding headers_with thread_of from_text mailbox_at_host
headers m = headers_with (itoa m.uid) m.flags m.envelope

-- `nullTime`
unfoldable pub null_time : ℕ → Option ℕ
null_time t = if t == 0 then none else some t
