-- ===== src/System/Keys/Identity.antt =====
-- internal/auth/service.go and internal/api/handlers/admin.go: the statements on accounts, sessions and
-- domains, and the keys.
use skybeam_mail.Prelude.{
  ℕ, ◌+◌, ◌≡◌, refl, false, ◌&&◌, ◌||◌, not, Option, none, some, arith, any, ◌==◌, Text, text_eq,
  Bool-cases, inl, inr,
}
use skybeam_mail.Store.Rows.{Store}
use skybeam_mail.Store.Table.{upsert}
use skybeam_mail.Store.Table.Distinct.{
  update-Distinct, snoc-Distinct, delete-Distinct, later-IsDrawn, snoc-IsDrawn, delete-IsDrawn,
}
use skybeam_mail.Store.World.{Env}
use skybeam_mail.Auth.{insert_session, delete_session, touch_session, upsert_admin}
use skybeam_mail.Auth.Admins.{new_admin, promote}
use skybeam_mail.Api.Admin.{AccountBody, account_row, insert_account, insert_domain, delete_domain}
use skybeam_mail.System.Keys.{
  same_hash, same_name, IsStore, of_some, of_if, of_unless, with_accounts, with_sessions,
  with_domains,
}
use skybeam_mail.System.Keys.Accounts.{snoc-IsAccounts, upsert-IsAccounts}

module _ (now : ℕ) (db db' : Store) (h : IsStore db) where
  pub insert_session-IsStore :
      (account : ℕ) (hash : Text) (expires : ℕ)
      → insert_session account hash expires now db ≡ some db'
      → IsStore db'
  unfolding insert_session
  insert_session-IsStore account hash expires =
      of_unless (any (λ s. text_eq s.token_hash hash) db.sessions) _ db' λ free.
        with_sessions db (db.next_id + 1) (omega arith) h _
          (snoc-Distinct same_hash _ db.sessions free h.sessions)

  pub delete_session-IsStore : (hash : Text) → delete_session hash now db ≡ some db' → IsStore db'
  unfolding delete_session
  delete_session-IsStore hash = of_some _ db' (
      with_sessions db db.next_id (omega arith) h _
        (delete-Distinct same_hash (λ s. text_eq s.token_hash hash) db.sessions h.sessions))

  pub touch_session-IsStore :
      (hash : Text) (seen : ℕ) → touch_session hash seen now db ≡ some db' → IsStore db'
  unfolding touch_session
  touch_session-IsStore hash seen = of_some _ db' (
      with_sessions db db.next_id (omega arith) h _ (
        update-Distinct same_hash (λ s. text_eq s.token_hash hash)
          (λ s. record s { last_seen = some seen }) db.sessions (λ s t. (refl, refl)) h.sessions))

  pub insert_account-IsStore :
      (env : Env) (b : AccountBody) (hash : Text)
      → insert_account env b hash now db ≡ some db'
      → IsStore db'
  unfolding insert_account account_row
  insert_account-IsStore env b hash =
      of_if
        (env.text_ok b.email
          && env.text_ok b.display_name
          && not (any (λ a. text_eq a.email b.email || text_eq a.dovecot_user b.email) db.accounts))
        _ db'
        λ free. with_accounts db (db.next_id + 1) (omega arith) h _ (
          snoc-IsAccounts db.next_id (account_row b hash db.next_id) db.accounts refl (ground arith)
            h.accounts)

  pub insert_domain-IsStore :
      (env : Env) (name : Text) → insert_domain env name now db ≡ some db' → IsStore db'
  unfolding insert_domain
  insert_domain-IsStore env name = elim (Bool-cases (any (λ d. text_eq d.name name) db.domains)) [
    | inl old ↦ rw old (
        of_if _ _ db' λ fits. with_domains db (db.next_id + 1) (omega arith) h db.domains (
          later-IsDrawn (λ d. d.id) db.next_id (db.next_id + 1) db.domains (omega arith)
              h.domains.0,
          h.domains.1,
        ))
    | inr free ↦ rw free (
        of_if _ _ db' λ fits. with_domains db (db.next_id + 1) (omega arith) h _ (
          snoc-IsDrawn (λ d. d.id) db.next_id _ db.domains refl h.domains.0,
          snoc-Distinct same_name _ db.domains free h.domains.1,
        ))
  ]

  pub delete_domain-IsStore : (id : Option ℕ) → delete_domain id now db ≡ some db' → IsStore db'
  unfolding delete_domain
  delete_domain-IsStore none = λ e. cc
  delete_domain-IsStore (some id) = of_some _ db' (
      with_domains db db.next_id (omega arith) h _ (
        delete-IsDrawn (λ d. d.id) (λ d. d.id == id) db.next_id db.domains h.domains.0,
        delete-Distinct same_name (λ d. d.id == id) db.domains h.domains.1,
      ))

  upserted-IsStore :
      (email hash : Text)
      → (any (λ a. text_eq a.email email) db.accounts ≡ false
          → any (λ a. text_eq a.dovecot_user email) db.accounts ≡ false)
      → IsStore (record db {
        accounts =
            upsert
              (λ a. text_eq a.email email)
              (new_admin db.next_id email hash)
              (promote hash)
              db.accounts;
        next_id = db.next_id + 1;
      })
  upserted-IsStore email hash free = with_accounts db (db.next_id + 1) (omega arith) h _ (
      upsert-IsAccounts db.next_id (new_admin db.next_id email hash) (promote hash) db.accounts refl
        (λ a. refl) (λ a b. (refl, refl)) (λ a b. (refl, refl)) free h.accounts)

  -- ON CONFLICT names the email; a Dovecot user that is taken fails the INSERT of a new row.
  pub upsert_admin-IsStore :
      (env : Env) (email hash : Text) → upsert_admin env email hash now db ≡ some db' → IsStore db'
  unfolding upsert_admin
  upsert_admin-IsStore env email hash e =
      elim (Bool-cases (any (λ a. text_eq a.email email) db.accounts)) [
        | inl old ↦
            of_unless (not (env.text_ok email)) _ db'
              (λ takes. upserted-IsStore email hash (λ fresh. cc)) (rw old at e)
        | inr fresh ↦ elim (Bool-cases (any (λ a. text_eq a.dovecot_user email) db.accounts)) [
          | inl taken ↦ let refused : none ≡ some db' = ground arith in cc
          | inr free ↦
              of_unless (not (env.text_ok email)) _ db'
                (λ takes. upserted-IsStore email hash (λ _. free)) (ground arith)
        ]
      ]
