-- ===== src/Watcher/Scan/Keys.antt =====
-- internal/watcher/service.go, scanNewMessages: a scan and the rows of message_view.
use skybeam_mail.Prelude.{
  ℕ, ◌≡◌, refl, ◌∙◌, Bool, false, ◌&&◌, not, some, List, arith, ◌==◌, text_eq,
}
use skybeam_mail.Events.Writer.{Event, insert_event}
use skybeam_mail.Store.Rows.{Store, MessageRow}
use skybeam_mail.Store.Table.{select, upsert}
use skybeam_mail.Store.Table.Distinct.{Distinct, KeepsColumns, upsert-Distinct}
use skybeam_mail.Store.Table.Laws.{select-upsert}
use skybeam_mail.Store.World.{Env, World}
use skybeam_mail.Watcher.Mail.{Headers}
use skybeam_mail.Watcher.Scan.{
  Server, Body, no_body, in_inbox, inbox_row, refresh, touch, upsert_known, upsert_new, scan,
}
use skybeam_mail.Watcher.Scan.Steps.{Survives, scan-Keeps}

-- UNIQUE (account_id, dovecot_uid, folder)
abbrev pub same_key : MessageRow → MessageRow → Bool
same_key r s =
    r.account_id == s.account_id && text_eq r.dovecot_uid s.dovecot_uid && text_eq r.folder s.folder

abbrev pub IsUnique : List MessageRow → Type 0
IsUnique = Distinct same_key

-- An update that leaves the three columns alone.
abbrev pub KeepsKey : (MessageRow → MessageRow) → Type 0
KeepsKey f =
    (r : MessageRow)
    → ((f r).account_id ≡ r.account_id)
      × ((f r).dovecot_uid ≡ r.dovecot_uid)
      × ((f r).folder ≡ r.folder)

pub KeepsKey-KeepsColumns : (f : MessageRow → MessageRow) → KeepsKey f → KeepsColumns same_key f
KeepsKey-KeepsColumns f k r s = let (a, u, g) = k r in (rw (a, u, g) refl, rw (a, u, g) refl)

pub upsert-IsUnique :
    (account : ℕ) (h : Headers) (size : ℕ) (b : Body) (id now : ℕ) (f : MessageRow → MessageRow)
    (rows : List MessageRow)
    → KeepsKey f
    → IsUnique rows
    → IsUnique (upsert (in_inbox account h.uid) (inbox_row account h size b id now) f rows)
unfolding inbox_row
upsert-IsUnique account h size b id now f rows k u =
    upsert-Distinct same_key (in_inbox account h.uid) (inbox_row account h size b id now) f rows
      (λ r. refl) (KeepsKey-KeepsColumns f k) u

-- The rows of the messages of other accounts.
abbrev pub not_of : ℕ → MessageRow → Bool
not_of account r = not (r.account_id == account)

-- An upsert of the scan, by the list of messages before and after it.
pub record Upserts (account : ℕ) (rows rows' : List MessageRow) : Type 0 where
  pub unique : IsUnique rows → IsUnique rows'
  pub others : select (not_of account) rows' ≡ select (not_of account) rows

inbox_row-not_of :
    (account : ℕ) (h : Headers) (size : ℕ) (b : Body) (id now : ℕ)
    → not_of account (inbox_row account h size b id now) ≡ false
unfolding inbox_row
inbox_row-not_of account h size b id now = ground arith

upsert-Upserts :
    (account : ℕ) (h : Headers) (size : ℕ) (b : Body) (id now : ℕ) (f : MessageRow → MessageRow)
    (rows : List MessageRow)
    → KeepsKey f
    → Upserts account rows
        (upsert (in_inbox account h.uid) (inbox_row account h size b id now) f rows)
upsert-Upserts account h size b id now f rows k = record {
  unique = upsert-IsUnique account h size b id now f rows k;
  others =
      select-upsert (in_inbox account h.uid) (not_of account) (inbox_row account h size b id now) f
        rows (inbox_row-not_of account h size b id now)
        (λ r e. let (same, _, _) = k r in ground arith);
}

module _ (env : Env) (account : ℕ) (h : Headers) (size now : ℕ) (db db' : Store) where
  pub upsert_known-messages :
      upsert_known env account h size now db ≡ some db'
      → db'.messages
        ≡ upsert
            (in_inbox account h.uid)
            (inbox_row account h size no_body db.next_id now)
            (refresh h.is_read now)
            db.messages
  unfolding upsert_known
  upsert_known-messages e = ground arith

  pub upsert_new-messages :
      (b : Body)
      → upsert_new env account h size b now db ≡ some db'
      → db'.messages
        ≡ upsert
            (in_inbox account h.uid)
            (inbox_row account h size b db.next_id now)
            (touch now)
            db.messages
  unfolding upsert_new
  upsert_new-messages b e = ground arith

  upsert_known-Upserts :
      upsert_known env account h size now db ≡ some db' → Upserts account db.messages db'.messages
  upsert_known-Upserts e = rw (upsert_known-messages e) (
      upsert-Upserts account h size no_body db.next_id now (refresh h.is_read now) db.messages
        (λ r. (refl, refl, refl)))

  upsert_new-Upserts :
      (b : Body)
      → upsert_new env account h size b now db ≡ some db'
      → Upserts account db.messages db'.messages
  upsert_new-Upserts b e = rw (upsert_new-messages b e) (
      upsert-Upserts account h size b db.next_id now (touch now) db.messages
        (λ r. (refl, refl, refl)))

pub insert_event-messages :
    (env : Env) (e : Event) (now : ℕ) (db db' : Store)
    → insert_event env e now db ≡ some db'
    → db'.messages ≡ db.messages
unfolding insert_event
insert_event-messages env e now db db' h = ground arith

-- What the scan of one account must not change: the rows of the others. `rows` are those before.
abbrev Isolated : ℕ → List MessageRow → Store → Type 0
Isolated account rows db =
    IsUnique db.messages × (select (not_of account) db.messages ≡ select (not_of account) rows)

Isolated-Survives :
    (env : Env) (account : ℕ) (rows : List MessageRow)
    → Survives env account (Isolated account rows)
Isolated-Survives env account rows = record {
  known = λ h size now db db' (u, o) e.
      let k = upsert_known-Upserts env account h size now db db' e in (k.unique u, k.others ∙ o);
  new = λ h size b now db db' (u, o) e.
      let k = upsert_new-Upserts env account h size now db db' b e in (k.unique u, k.others ∙ o);
  event = λ e _ now db db' p q. rw (insert_event-messages env e now db db' q) p;
}

-- A scan keeps the key of message_view unique (one row for an account, a uid and a folder), and
-- leaves the rows of every other account as they are and in their order, whatever becomes of its
-- calls.
pub scan-isolated :
    (env : Env) (server : Server) (fuel account : ℕ) (w : World)
    → IsUnique w.db.messages
    → IsUnique (scan env server fuel account w).1.db.messages
      × (select (not_of account) (scan env server fuel account w).1.db.messages
          ≡ select (not_of account) w.db.messages)
scan-isolated env server fuel account w u =
    (scan-Keeps env server fuel account (Isolated account w.db.messages)
        (Isolated-Survives env account w.db.messages)).at
      w (u, refl)
