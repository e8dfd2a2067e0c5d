-- ===== src/Store/Samples.antt =====
-- Sample rows and an environment in which every call is answered.
use skybeam_mail.Prelude.{
  ◌==◌, ◌&&◌, not, any, Bool, Option, Text, ℕ, true, false, none, some, [], ◌∷◌, codes,
}
use skybeam_mail.Events.Types.{nothing}
use skybeam_mail.Store.Rows.{AccountRow, EventRow, FolderRow, MessageRow, Store}
use skybeam_mail.Store.World.{Env, World, Wire}

-- The clock is the number of calls made.
abbrev pub calm_env : Env
calm_env = record {
  tick = λ n. record { wire = Wire.answered; now = n; read = none };
  text_ok = λ t. true;
  row_ok = λ r. true;
  event_ok = λ r. true;
}

abbrev no_nul : Text → Bool
no_nul t = not (any (λ c. c == 0) t)

abbrev no_nul_in : Option Text → Bool
no_nul_in none = true
no_nul_in (some t) = no_nul t

-- The same where PostgreSQL refuses a NUL.
abbrev pub strict_env : Env
strict_env = record calm_env {
  text_ok = no_nul;
  row_ok = λ r. no_nul_in r.snippet && no_nul_in r.body_text && no_nul_in r.body_html;
  event_ok = λ r. no_nul r.message_uid;
}

abbrev pub ann_row : AccountRow
ann_row = record {
  id = 1;
  email = codes "ann";
  display_name = codes "Ann";
  dovecot_user = codes "ann";
  password_hash = codes "pw";
  is_admin = true;
  is_active = true;
}

-- A message of INBOX, by its id, its account and its uid.
abbrev pub inbox_message : ℕ → ℕ → ℕ → MessageRow
inbox_message id account uid = record {
  id = id;
  account_id = account;
  dovecot_uid = uid ∷ [];
  folder = codes "INBOX";
  message_id = [];
  thread_id = [];
  subject = [];
  from_addr = [];
  to_addrs = codes "[]";
  date = some 5;
  size_bytes = 10;
  is_read = false;
  is_starred = false;
  is_deleted = false;
  snippet = some [];
  body_text = some [];
  body_html = some [];
  last_synced_at = 0;
}

abbrev pub ann_event : EventRow
ann_event = record {
  id = 1;
  event_id = 9;
  account_id = 1;
  event_type = codes "FolderCreated";
  message_uid = [];
  folder = codes "Bills";
  payload = nothing;
  emitted_at = 1;
}

abbrev pub bills : FolderRow
bills = record {
  account_id = 1;
  folder_name = codes "Bills";
  total_count = 0;
  unread_count = 0;
  last_synced_at = 0;
}

-- One account, with a folder, an event, a message of its own and one of another account.
abbrev pub small_store : Store
small_store = record {
  accounts = ann_row ∷ [];
  sessions = [];
  events = ann_event ∷ [];
  messages = inbox_message 10 1 b'8' ∷ inbox_message 11 2 b'8' ∷ [];
  folders = bills ∷ [];
  domains = [];
  next_id = 12;
  next_event = 2;
}

abbrev pub small_world : World
small_world = record { db = small_store; calls = 0 }
