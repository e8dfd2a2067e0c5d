-- ===== src/Api/Router/Untouched.antt =====
-- internal/api/handlers: the handlers that leave message_view alone.
use skybeam_mail.Prelude.{
  ℕ, ◌≡◌, refl, ◌∙◌, Bool, true, false, Option, none, some, List, [], ◌∷◌, Text, arith,
}
use skybeam_mail.Prelude.Int.{ℤ}
use skybeam_mail.Events.Types.{EventType, folder_named}
use skybeam_mail.Store.Rows.{Store, AccountRow, DomainRow, MessageRow}
use skybeam_mail.Store.Table.{find}
use skybeam_mail.Store.World.{Env, World, M, exec, query, time_now}
use skybeam_mail.Store.World.Keeps.{Keeps-exec, Keeps-query}
use skybeam_mail.Auth.{
  Account, Crypto, login, check_password, store_session, generate_token, insert_session,
  is_active_email, account_of, logout, delete_session, hash_token, verify_token, check_expiry,
  touch_session, session_account,
}
use skybeam_mail.Api.AuthHandler.{LoginBody, login_email, handle_login, logout_of}
use skybeam_mail.Api.Folders.{
  insert_folder, handle_folders, created, handle_create, handle_delete_folder,
}
use skybeam_mail.Api.Folders.Removal.{handle_delete_folder-Spares}
use skybeam_mail.Api.Messages.{ListQuery, handle_list, handle_get, handle_thread}
use skybeam_mail.Api.Messages.Failures.{event-messages}
use skybeam_mail.Api.EventLog.{list_events, handle_events}
use skybeam_mail.Api.Search.{FullText, SearchQuery, search_texts, select_found, handle_search}
use skybeam_mail.Api.Admin.{
  AccountBody, handle_list_domains, insert_domain, handle_create_domain, delete_domain,
  handle_delete_domain, handle_list_accounts, insert_account, create_hashed, handle_create_account,
}

-- An action leaves the messages as they are, whatever becomes of its calls.
abbrev pub Leaves : {A : Type 0} → M A → Type 0
Leaves m = (w : World) → (m w).1.db.messages ≡ w.db.messages

module _ (env : Env) where
  exec-messages :
      (statement : ℕ → Store → Option Store)
      → ((now : ℕ) (db db' : Store) → statement now db ≡ some db' → db'.messages ≡ db.messages)
      → Leaves (exec env statement)
  exec-messages statement h w =
      (Keeps-exec (λ db. db.messages ≡ w.db.messages) env statement
          (λ now db db' p e. h now db db' e ∙ p)).at
        w refl

  query-messages :
      {A : Type 0} (params : List Text) (read : Store → A) → Leaves (query env params read)
  query-messages params read w =
      (Keeps-query (λ db. db.messages ≡ w.db.messages) env params read).at w refl

  check_expiry-Leaves :
      (c : Crypto) (hash : Text) (now : ℕ) (row : Option (Option (AccountRow × ℕ)))
      → Leaves (check_expiry env c hash now row)
  unfolding check_expiry touch_session
  check_expiry-Leaves c hash now none w = refl
  check_expiry-Leaves c hash now (some none) w = refl
  check_expiry-Leaves c hash now (some (some (a, expires))) w =
      ground (arith, exec-messages (touch_session hash now) (λ t db db' e. ground arith) w)

  pub verify_token-Leaves : (c : Crypto) (token : Text) → Leaves (verify_token env c token)
  unfolding verify_token time_now
  verify_token-Leaves c token w =
      let hash = hash_token c token in
      let (row, v) = query env (hash ∷ []) (session_account hash) w in
      check_expiry-Leaves c hash (env.tick w.calls).now row v
      ∙ query-messages (hash ∷ []) (session_account hash) w

  store_session-Leaves :
      (c : Crypto) (ttl : ℤ) (acc : Account) (t : Option Text)
      → Leaves (store_session env c ttl acc t)
  unfolding store_session insert_session time_now
  store_session-Leaves c ttl acc none w = refl
  store_session-Leaves c ttl acc (some t) w = exec-messages _ (λ now db db' e. ground arith) w

  check_password-Leaves :
      (c : Crypto) (ttl : ℤ) (password : Text) (row : Option (Option AccountRow))
      → Leaves (check_password env c ttl password row)
  unfolding check_password
  check_password-Leaves c ttl password none w = refl
  check_password-Leaves c ttl password (some none) w = refl
  check_password-Leaves c ttl password (some (some r)) w =
      ground (arith, store_session-Leaves c ttl (account_of r) (generate_token c) w)

  pub handle_login-Leaves :
      (c : Crypto) (unicode : Text → Text) (ttl : ℤ) (b : Option LoginBody)
      → Leaves (handle_login env c unicode ttl b)
  unfolding handle_login login
  handle_login-Leaves c unicode ttl none w = refl
  handle_login-Leaves c unicode ttl (some b) w =
      let email = login_email unicode b in
      let find_row = λ (db : Store). find (is_active_email email) db.accounts in
      let (row, v) = query env (email ∷ []) find_row w in
      ground (
        arith,
        query-messages (email ∷ []) find_row w,
        check_password-Leaves c ttl b.password row v,
      )

  pub logout_of-Leaves : (c : Crypto) (t : Option Text) → Leaves (logout_of env c t)
  unfolding logout_of logout delete_session
  logout_of-Leaves c none w = refl
  logout_of-Leaves c (some t) w = exec-messages _ (λ now db db' e. ground arith) w

  created-Leaves : (acc : Account) (name : Text) (err : Bool) → Leaves (created env acc name err)
  unfolding created
  created-Leaves acc name true w = refl
  created-Leaves acc name false w =
      event-messages env acc.id EventType.folder_created [] name (folder_named name) w

  pub handle_create-Leaves : (acc : Account) (b : Option Text) → Leaves (handle_create env acc b)
  unfolding handle_create insert_folder
  handle_create-Leaves acc none w = refl
  handle_create-Leaves acc (some name) w =
      let (err, v) = exec env (insert_folder env acc.id name) w in
      ground (
        arith,
        created-Leaves acc name err v,
        exec-messages (insert_folder env acc.id name) (λ now db db' e. ground arith) w,
      )

  pub handle_delete_folder-Leaves :
      (acc : Account) (name : Text) → Leaves (handle_delete_folder env acc name)
  handle_delete_folder-Leaves acc name w = (handle_delete_folder-Spares env acc name w).1

  pub handle_folders-Leaves :
      (before : Text → Text → Bool) (acc : Account) → Leaves (handle_folders env before acc)
  unfolding handle_folders
  handle_folders-Leaves before acc w = query-messages _ _ w

  pub handle_list-Leaves :
      (meets : List MessageRow → List MessageRow) (closes : Bool) (acc : Account) (q : ListQuery)
      → Leaves (handle_list env meets closes acc q)
  unfolding handle_list
  handle_list-Leaves meets closes acc q w = query-messages _ _ w

  pub handle_get-Leaves : (acc : Account) (id : Option ℕ) → Leaves (handle_get env acc id)
  unfolding handle_get
  handle_get-Leaves acc none w = refl
  handle_get-Leaves acc (some id) w = query-messages _ _ w

  pub handle_thread-Leaves :
      (closes : Bool) (partial : MessageRow → MessageRow) (acc : Account) (thread_id : Text)
      → Leaves (handle_thread env closes partial acc thread_id)
  unfolding handle_thread
  handle_thread-Leaves closes partial acc thread_id w = query-messages _ _ w

  pub handle_events-Leaves :
      (acc : Account) (limit after_id : Text) → Leaves (handle_events env acc limit after_id)
  unfolding handle_events list_events
  handle_events-Leaves acc limit after_id w = query-messages _ _ w

  pub handle_search-Leaves :
      (ft : FullText) (acc : Account) (sq : SearchQuery) → Leaves (handle_search env ft acc sq)
  unfolding handle_search
  handle_search-Leaves ft acc sq w =
      ground (arith, query-messages (search_texts sq) (select_found ft acc.id sq) w)

  pub handle_list_domains-Leaves :
      (closes : Bool) (scans : DomainRow → Bool) (before : Text → Text → Bool)
      → Leaves (handle_list_domains env closes scans before)
  unfolding handle_list_domains
  handle_list_domains-Leaves closes scans before w = query-messages _ _ w

  pub handle_create_domain-Leaves : (b : Option Text) → Leaves (handle_create_domain env b)
  unfolding handle_create_domain insert_domain
  handle_create_domain-Leaves none w = refl
  handle_create_domain-Leaves (some name) w =
      ground (arith, exec-messages (insert_domain env name) (λ now db db' e. ground arith) w)

  delete_domain-messages :
      (id : Option ℕ) (now : ℕ) (db db' : Store)
      → delete_domain id now db ≡ some db'
      → db'.messages ≡ db.messages
  unfolding delete_domain
  delete_domain-messages none now db db' e = cc
  delete_domain-messages (some id) now db db' e = ground arith

  pub handle_delete_domain-Leaves : (id : Option ℕ) → Leaves (handle_delete_domain env id)
  unfolding handle_delete_domain
  handle_delete_domain-Leaves id w = exec-messages (delete_domain id) (delete_domain-messages id) w

  pub handle_list_accounts-Leaves :
      (closes : Bool) (scans : AccountRow → Bool) (before : Text → Text → Bool)
      → Leaves (handle_list_accounts env closes scans before)
  unfolding handle_list_accounts
  handle_list_accounts-Leaves closes scans before w = query-messages _ _ w

  create_hashed-Leaves : (b : AccountBody) (h : Option Text) → Leaves (create_hashed env b h)
  unfolding create_hashed insert_account
  create_hashed-Leaves b none w = refl
  create_hashed-Leaves b (some h) w = exec-messages _ (λ now db db' e. ground arith) w

  pub handle_create_account-Leaves :
      (c : Crypto) (b : Option AccountBody) → Leaves (handle_create_account env c b)
  unfolding handle_create_account
  handle_create_account-Leaves c none w = refl
  handle_create_account-Leaves c (some b) w =
      ground (arith, create_hashed-Leaves b (c.bcrypt_hash b.password) w)
