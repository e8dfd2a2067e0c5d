-- ===== src/System/Sessions.antt =====
-- internal/auth/service.go: what becomes of a session while the programs go on.
pub mod Lasts
pub mod Ends
use skybeam_mail.Prelude.{
  ℕ, ◌≡◌, refl, sym, ap, ◌∙◌, Bool, true, false, ◌&&◌, not, Option, none, some, List, [], ◌∷◌, any,
  all, arith, ◌==◌, ltb, if◌then◌else◌, Text, text_eq, text_eq_iff, Bool-cases, inl, inr,
}
use skybeam_mail.Store.Rows.{Store, AccountRow, SessionRow}
use skybeam_mail.Store.Table.{find, delete, update, upsert}
use skybeam_mail.Store.Table.Laws.{find-append_old, find-update, find-upsert, find-delete_other}
use skybeam_mail.Store.World.{Env, World}
use skybeam_mail.Auth.{insert_session, delete_session, touch_session, upsert_admin}
use skybeam_mail.Auth.Admins.{new_admin, promote, upsert_admin-accounts}
use skybeam_mail.Api.Admin.{insert_account, account_row, insert_domain, delete_domain}
use skybeam_mail.Api.Folders.{insert_folder, delete_folder}
use skybeam_mail.Api.Messages.{set_read, set_starred, set_deleted, move_to_trash}
use skybeam_mail.Events.Writer.{insert_event}
use skybeam_mail.Watcher.Scan.{upsert_known, upsert_new}
use skybeam_mail.Reconciler.{refresh_counts}
use skybeam_mail.System.{Statement, executed, staying, may_delete, statement_leaves}
use skybeam_mail.System.Keeps.{IsInvariant}

-- A session of an active account, by what does not change of it.
pub record IsLive (hash : Text) (id : ℕ) (email : Text) (expires : ℕ) (db : Store) : Type 0 where
  pub session : SessionRow
  pub stored : find (λ s. text_eq s.token_hash hash) db.sessions ≡ some session
  pub until : session.expires_at ≡ expires
  pub owned : session.account_id ≡ id
  pub account : AccountRow
  pub active : find (λ a. a.id == id && a.is_active) db.accounts ≡ some account
  pub same_id : account.id ≡ id
  pub mailbox : account.email ≡ email

module _ (hash : Text) (id : ℕ) (email : Text) (expires : ℕ) (db db' : Store)
    (l : IsLive hash id email expires db) where
  -- By what a statement leaves of the two tables.
  with_session :
      (s : SessionRow)
      → find (λ s. text_eq s.token_hash hash) db'.sessions ≡ some s
      → s.expires_at ≡ l.session.expires_at
      → s.account_id ≡ l.session.account_id
      → db'.accounts ≡ db.accounts
      → IsLive hash id email expires db'
  with_session s found e a same = record {
    session = s;
    stored = found;
    until = e ∙ l.until;
    owned = a ∙ l.owned;
    account = l.account;
    active = rw same l.active;
    same_id = l.same_id;
    mailbox = l.mailbox;
  }

  with_account :
      (a : AccountRow)
      → find (λ a. a.id == id && a.is_active) db'.accounts ≡ some a
      → a.id ≡ l.account.id
      → a.email ≡ l.account.email
      → db'.sessions ≡ db.sessions
      → IsLive hash id email expires db'
  with_account a found i m same = record {
    session = l.session;
    stored = rw same l.stored;
    until = l.until;
    owned = l.owned;
    account = a;
    active = found;
    same_id = i ∙ l.same_id;
    mailbox = m ∙ l.mailbox;
  }

  with_both :
      (db'.sessions ≡ db.sessions) → (db'.accounts ≡ db.accounts) → IsLive hash id email expires db'
  with_both same same' = with_session l.session (rw same l.stored) refl refl same'

  module _ (env : Env) (now : ℕ) where
    inserted-IsLive :
        (account : ℕ) (new : Text) (until : ℕ)
        → insert_session account new until now db ≡ some db'
        → IsLive hash id email expires db'
    unfolding insert_session
    inserted-IsLive account new until e =
        let row : SessionRow = record {
          account_id = account;
          token_hash = new;
          expires_at = until;
          last_seen = none;
        } in
        with_session l.session
          (ground (
            arith,
            find-append_old (λ s. text_eq s.token_hash hash) db.sessions (row ∷ []) l.session
                l.stored,
          ))
          refl refl (ground arith)

    deleted-IsLive :
        (other : Text)
        → may_delete (staying hash) other ≡ true
        → delete_session other now db ≡ some db'
        → IsLive hash id email expires db'
    unfolding delete_session may_delete
    deleted-IsLive other apart e =
        with_session l.session
          (ground (
            arith,
            find-delete_other (λ s. text_eq s.token_hash other) (λ s. text_eq s.token_hash hash)
                db.sessions (λ s p. different s.token_hash other p apart),
            l.stored,
          ))
          refl refl (ground arith)
      where
        different :
            (t other : Text)
            → text_eq t other ≡ true
            → not (text_eq other hash) ≡ true
            → text_eq t hash ≡ false
        different t other p q = let same : t ≡ other = (text_eq_iff t other).0 p in ground arith

    touched-IsLive :
        (other : Text) (seen : ℕ)
        → touch_session other seen now db ≡ some db'
        → IsLive hash id email expires db'
    unfolding touch_session
    touched-IsLive other seen e =
        let f : SessionRow → SessionRow = λ s. record s { last_seen = some seen } in
        let found =
          find-update (λ s. text_eq s.token_hash other) (λ s. text_eq s.token_hash hash) f
            db.sessions l.session (λ s. refl) l.stored in
        elim (Bool-cases (text_eq l.session.token_hash other)) [
          | inl hit ↦ with_session (f l.session) (ground arith) refl refl (ground arith)
          | inr miss ↦ with_session l.session (ground arith) refl refl (ground arith)
        ]

    promoted-IsLive :
        (address new : Text)
        → upsert_admin env address new now db ≡ some db'
        → db'.sessions ≡ db.sessions
        → IsLive hash id email expires db'
    promoted-IsLive address new e same =
        let accounts = upsert_admin-accounts env address new now db db' e in
        elim (find-upsert (λ a. text_eq a.email address) (λ a. a.id == id && a.is_active)
          (new_admin db.next_id address new) (promote new) db.accounts l.account (λ a. refl)
          l.active) [
            | inl kept ↦ with_account l.account (rw accounts kept) refl refl same
            | inr changed ↦
                with_account (promote new l.account) (rw accounts changed) refl refl same
          ]

    executed-IsLive :
        (s : Statement)
        → statement_leaves (staying hash) s ≡ true
        → executed env s now db ≡ some db'
        → IsLive hash id email expires db'
    unfolding executed statement_leaves upsert_admin insert_account insert_domain delete_domain
        insert_folder delete_folder set_read set_starred set_deleted move_to_trash insert_event
        upsert_known upsert_new refresh_counts
    executed-IsLive (Statement.session_inserted account new until) p e =
        inserted-IsLive account new until e
    executed-IsLive (Statement.session_deleted other) p e = deleted-IsLive other p e
    executed-IsLive (Statement.session_touched other seen) p e = touched-IsLive other seen e
    executed-IsLive (Statement.admin_upserted address new) p e =
        promoted-IsLive address new e (ground arith)
    executed-IsLive (Statement.account_inserted b new) p e =
        with_account l.account
          (ground (
            arith,
            find-append_old (λ a. a.id == id && a.is_active) db.accounts
                (account_row b new db.next_id ∷ []) l.account l.active,
          ))
          refl refl (ground arith)
    executed-IsLive (Statement.domain_inserted name) p e = with_both (ground arith) (ground arith)
    executed-IsLive (Statement.domain_deleted none) p e = cc
    executed-IsLive (Statement.domain_deleted (some d)) p e =
        with_both (ground arith) (ground arith)
    executed-IsLive (Statement.folder_inserted account name) p e =
        with_both (ground arith) (ground arith)
    executed-IsLive (Statement.folder_removed account name) p e =
        with_both (ground arith) (ground arith)
    executed-IsLive (Statement.read_set b m) p e = with_both (ground arith) (ground arith)
    executed-IsLive (Statement.starred_set b m) p e = with_both (ground arith) (ground arith)
    executed-IsLive (Statement.deleted_set m) p e = with_both (ground arith) (ground arith)
    executed-IsLive (Statement.moved_to_trash m) p e = with_both (ground arith) (ground arith)
    executed-IsLive (Statement.event_inserted ev drawn) p e =
        with_both (ground arith) (ground arith)
    executed-IsLive (Statement.known_upserted account h size) p e =
        with_both (ground arith) (ground arith)
    executed-IsLive (Statement.new_upserted account h size b) p e =
        with_both (ground arith) (ground arith)
    executed-IsLive (Statement.counts_refreshed account) p e =
        with_both (ground arith) (ground arith)

pub IsLive-IsInvariant :
    (hash : Text) (id : ℕ) (email : Text) (expires : ℕ) (env : Env)
    → IsInvariant env (staying hash) (IsLive hash id email expires)
IsLive-IsInvariant hash id email expires env = record {
  under =
      λ s leaves now db db' l e. executed-IsLive hash id email expires db db' l env now s leaves e;
}
