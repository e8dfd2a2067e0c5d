-- ===== src/Api/Admin.antt =====
-- internal/api/handlers/admin.go. The body of a request is what `decode` gives, none for an error, and
-- the id in the path what PostgreSQL reads as a UUID, none where it refuses the text. `scans` says
-- whether the driver scans a row into the Go variables, created_at into a string among them, and
-- `closes` whether it then closes the rows. The order of texts is the collation's, a parameter.
pub mod Accounts
mod Tests
use skybeam_mail.Prelude.{
  is_empty, ℕ, ◌+◌, Bool, true, false, ◌&&◌, ◌||◌, not, Option, none, some, List, [], ◌∷◌, ◌++◌,
  map, any, all, if◌then◌else◌, ◌==◌, leb, length, Text, codes, text_eq,
}
use skybeam_mail.Store.Rows.{Store, AccountRow, DomainRow}
use skybeam_mail.Store.Table.{delete, order_by}
use skybeam_mail.Store.World.{Env, M, pure, ◌>>=◌, exec, query}
use skybeam_mail.Auth.{Crypto}
use skybeam_mail.Api.Response.{
  Response, respond, respond_error, no_content, Code, AccountView, domains, accounts, text,
}
use skybeam_mail.Api.Query.{scan_rows}

unfoldable pub domains_response : Bool → (DomainRow → Bool) → Option (List DomainRow) → Response
domains_response closes scans none = respond_error 500 Code.db_error
domains_response closes scans (some rows) = respond 200 (domains (scan_rows closes scans rows))

-- `AdminHandler.ListDomains`
unfoldable pub handle_list_domains :
    Env → Bool → (DomainRow → Bool) → (Text → Text → Bool) → M Response
handle_list_domains env closes scans before = do
  rows ← query env [] (λ db. order_by (λ d e. before d.name e.name) db.domains)
  pure (domains_response closes scans rows)

-- INSERT … ON CONFLICT DO NOTHING, into a VARCHAR(255).
unfoldable pub insert_domain : Env → Text → ℕ → Store → Option Store
insert_domain env name now db =
    let row : DomainRow = record { id = db.next_id; name = name } in
    let rows =
      if any (λ d. text_eq d.name name) db.domains then db.domains else db.domains ++ row ∷ [] in
    if env.text_ok name && leb (length name) 255
    then some (record db { domains = rows; next_id = db.next_id + 1 })
    else none

unfoldable pub created_response : Text → Bool → Response
created_response said err = if err then respond_error 500 Code.db_error else respond 201 (text said)

-- `AdminHandler.CreateDomain`
unfoldable pub handle_create_domain : Env → Option Text → M Response
handle_create_domain env none = pure (respond_error 400 Code.invalid_body)
handle_create_domain env (some name) =
    if is_empty name then pure (respond_error 400 Code.invalid_body) else do
      err ← exec env (insert_domain env name)
      pure (created_response (codes "domain created") err)

unfoldable pub delete_domain : Option ℕ → ℕ → Store → Option Store
delete_domain none now db = none
delete_domain (some id) now db = some (record db { domains = delete (λ d. d.id == id) db.domains })

unfoldable pub deleted_response : Bool → Response
deleted_response err = if err then respond_error 500 Code.db_error else no_content

-- `AdminHandler.DeleteDomain`
unfoldable pub handle_delete_domain : Env → Option ℕ → M Response
handle_delete_domain env id = do err ← exec env (delete_domain id); pure (deleted_response err)

unfoldable pub account_view : AccountRow → AccountView
account_view a = record {
  id = a.id;
  email = a.email;
  display_name = a.display_name;
  is_admin = a.is_admin;
  is_active = a.is_active;
}

unfoldable pub accounts_response : Bool → (AccountRow → Bool) → Option (List AccountRow) → Response
accounts_response closes scans none = respond_error 500 Code.db_error
accounts_response closes scans (some rows) =
    respond 200 (accounts (map account_view (scan_rows closes scans rows)))

-- `AdminHandler.ListAccounts`
unfoldable pub handle_list_accounts :
    Env → Bool → (AccountRow → Bool) → (Text → Text → Bool) → M Response
handle_list_accounts env closes scans before = do
  rows ← query env [] (λ db. order_by (λ a b. before a.email b.email) db.accounts)
  pure (accounts_response closes scans rows)

-- The body of CreateAccount.
pub record AccountBody : Type 0 where
  pub email : Text
  pub password : Text
  pub display_name : Text
  pub is_admin : Bool

unfoldable pub account_row : AccountBody → Text → ℕ → AccountRow
account_row b hash id = record {
  id = id;
  email = b.email;
  display_name = b.display_name;
  dovecot_user = b.email;
  password_hash = hash;
  is_admin = b.is_admin;
  is_active = true;
}

-- INSERT INTO accounts; email and dovecot_user are UNIQUE.
unfoldable pub insert_account : Env → AccountBody → Text → ℕ → Store → Option Store
insert_account env b hash now db =
    let db' = record db {
      accounts = db.accounts ++ account_row b hash db.next_id ∷ [];
      next_id = db.next_id + 1;
    } in
    if env.text_ok b.email
      && env.text_ok b.display_name
      && not (any (λ a. text_eq a.email b.email || text_eq a.dovecot_user b.email) db.accounts)
    then some db'
    else none

unfoldable pub create_hashed : Env → AccountBody → Option Text → M Response
create_hashed env b none = pure (respond_error 500 Code.hash_error)
create_hashed env b (some hash) = do
  err ← exec env (insert_account env b hash)
  pure (created_response (codes "account created") err)

-- `AdminHandler.CreateAccount`
unfoldable pub handle_create_account : Env → Crypto → Option AccountBody → M Response
handle_create_account env c none = pure (respond_error 400 Code.invalid_body)
handle_create_account env c (some b) =
    if is_empty b.email || is_empty b.password
    then pure (respond_error 400 Code.invalid_body)
    else create_hashed env b (c.bcrypt_hash b.password)
