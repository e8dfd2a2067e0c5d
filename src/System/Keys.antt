-- ===== src/System/Keys.antt =====
-- The tables of migrations/ with their keys: what the statements of the programs keep.
pub mod Messages
pub mod Accounts
pub mod Identity
pub mod Mail
pub mod Statements
use skybeam_mail.Prelude.{
  ℕ, ◌≤◌, ◌≡◌, refl, Bool, true, false, ◌&&◌, Option, none, some, List, ◌==◌, text_eq,
  if◌then◌else◌, arith,
}
use mathlib.Core.Path.{subst}
use skybeam_mail.Store.Rows.{
  Store, AccountRow, SessionRow, EventRow, MessageRow, FolderRow, DomainRow,
}
use skybeam_mail.Store.Table.Distinct.{Distinct, IsDrawn, later-IsDrawn}
use skybeam_mail.Events.Writer.Log.{HasLog, IsNumbered}
use skybeam_mail.Watcher.Scan.Keys.{IsUnique}

-- The columns that are UNIQUE, besides those of message_view.
abbrev pub same_email : AccountRow → AccountRow → Bool
same_email a b = text_eq a.email b.email

abbrev pub same_user : AccountRow → AccountRow → Bool
same_user a b = text_eq a.dovecot_user b.dovecot_user

abbrev pub same_hash : SessionRow → SessionRow → Bool
same_hash s t = text_eq s.token_hash t.token_hash

abbrev pub same_folder : FolderRow → FolderRow → Bool
same_folder r s = r.account_id == s.account_id && text_eq r.folder_name s.folder_name

abbrev pub same_name : DomainRow → DomainRow → Bool
same_name d e = text_eq d.name e.name

-- What PostgreSQL enforces of a table, and that the ids in it have been drawn.
abbrev pub IsAccounts : ℕ → List AccountRow → Type 0
IsAccounts next rows =
    IsDrawn (λ a. a.id) next rows × Distinct same_email rows × Distinct same_user rows

abbrev pub IsMessages : ℕ → List MessageRow → Type 0
IsMessages next rows = IsDrawn (λ r. r.id) next rows × IsUnique rows

abbrev pub IsEvents : ℕ → ℕ → List EventRow → Type 0
IsEvents next sequence rows = IsDrawn (λ r. r.event_id) next rows × IsNumbered sequence rows

abbrev pub IsDomains : ℕ → List DomainRow → Type 0
IsDomains next rows = IsDrawn (λ d. d.id) next rows × Distinct same_name rows

-- The primary keys and the UNIQUE constraints of every table hold; every id has been drawn; and the
-- sequence numbers of the events rise.
pub record IsStore (db : Store) : Type 0 where
  pub accounts : IsAccounts db.next_id db.accounts
  pub sessions : Distinct same_hash db.sessions
  pub events : IsEvents db.next_id db.next_event db.events
  pub messages : IsMessages db.next_id db.messages
  pub folders : Distinct same_folder db.folders
  pub domains : IsDomains db.next_id db.domains

module _ (db : Store) (n : ℕ) (le : db.next_id ≤ n) (h : IsStore db) where
  -- The ids that have been drawn stay so.
  pub later-IsStore : IsStore (record db { next_id = n })
  later-IsStore = record {
    accounts = (
      later-IsDrawn (λ a. a.id) db.next_id n db.accounts le h.accounts.0,
      h.accounts.1,
      h.accounts.2,
    );
    sessions = h.sessions;
    events = (later-IsDrawn (λ r. r.event_id) db.next_id n db.events le h.events.0, h.events.1);
    messages = (later-IsDrawn (λ r. r.id) db.next_id n db.messages le h.messages.0, h.messages.1);
    folders = h.folders;
    domains = (later-IsDrawn (λ d. d.id) db.next_id n db.domains le h.domains.0, h.domains.1);
  }

  -- A statement changes one table, and may draw ids.
  pub with_accounts :
      (rows : List AccountRow)
      → IsAccounts n rows
      → IsStore (record db { accounts = rows; next_id = n })
  with_accounts rows k =
      let l = later-IsStore in
      record {
        accounts = k;
        sessions = l.sessions;
        events = l.events;
        messages = l.messages;
        folders = l.folders;
        domains = l.domains;
      }

  pub with_sessions :
      (rows : List SessionRow)
      → Distinct same_hash rows
      → IsStore (record db { sessions = rows; next_id = n })
  with_sessions rows k =
      let l = later-IsStore in
      record {
        accounts = l.accounts;
        sessions = k;
        events = l.events;
        messages = l.messages;
        folders = l.folders;
        domains = l.domains;
      }

  pub with_events :
      (m : ℕ) (rows : List EventRow)
      → IsEvents n m rows
      → IsStore (record db { events = rows; next_id = n; next_event = m })
  with_events m rows k =
      let l = later-IsStore in
      record {
        accounts = l.accounts;
        sessions = l.sessions;
        events = k;
        messages = l.messages;
        folders = l.folders;
        domains = l.domains;
      }

  pub with_messages :
      (rows : List MessageRow)
      → IsMessages n rows
      → IsStore (record db { messages = rows; next_id = n })
  with_messages rows k =
      let l = later-IsStore in
      record {
        accounts = l.accounts;
        sessions = l.sessions;
        events = l.events;
        messages = k;
        folders = l.folders;
        domains = l.domains;
      }

  pub with_folders :
      (rows : List FolderRow)
      → Distinct same_folder rows
      → IsStore (record db { folders = rows; next_id = n })
  with_folders rows k =
      let l = later-IsStore in
      record {
        accounts = l.accounts;
        sessions = l.sessions;
        events = l.events;
        messages = l.messages;
        folders = k;
        domains = l.domains;
      }

  pub with_domains :
      (rows : List DomainRow)
      → IsDomains n rows
      → IsStore (record db { domains = rows; next_id = n })
  with_domains rows k =
      let l = later-IsStore in
      record {
        accounts = l.accounts;
        sessions = l.sessions;
        events = l.events;
        messages = l.messages;
        folders = l.folders;
        domains = k;
      }

-- What a statement leaves, by the test that it makes first.
pub of_some : (x db' : Store) → IsStore x → some x ≡ some db' → IsStore db'
of_some x db' h e = subst IsStore (ground arith) h

pub of_if :
    (b : Bool) (x db' : Store)
    → (b ≡ true → IsStore x)
    → (if b then some x else none) ≡ some db'
    → IsStore db'
of_if true x db' h e = of_some x db' (h refl) e
of_if false x db' h e = cc

pub of_unless :
    (b : Bool) (x db' : Store)
    → (b ≡ false → IsStore x)
    → (if b then none else some x) ≡ some db'
    → IsStore db'
of_unless true x db' h e = cc
of_unless false x db' h e = of_some x db' (h refl) e
