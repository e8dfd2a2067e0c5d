-- ===== src/Api/Router/Answers.antt =====
-- internal/api/handlers: the responses of the handlers, with an account given.
use skybeam_mail.Prelude.{
  ℕ, ◌≡◌, refl, Bool, true, false, Option, none, some, List, [], ◌∷◌, Text, text_eq, codes, arith,
}
use skybeam_mail.Prelude.Int.{ℤ}
use skybeam_mail.Prelude.Decimal.{atoi}
use skybeam_mail.Api.Query.{clamp_limit, clamp_page}
use skybeam_mail.Store.Rows.{AccountRow, DomainRow, MessageRow}
use skybeam_mail.Store.Table.{find}
use skybeam_mail.Store.World.{Env, World, M, exec, query}
use skybeam_mail.Auth.{Account, Crypto, LoginResult, login}
use skybeam_mail.Api.Response.{Response, respond, respond_error, panic}
use skybeam_mail.Api.AuthHandler.{
  LoginBody, login_email, login_response, handle_login, logout_response, logout_of,
}
use skybeam_mail.Api.Folders.{
  insert_folder, count_messages, folders_response, handle_folders, created, handle_create,
  delete_counted, count_or_zero, handle_delete_folder,
}
use skybeam_mail.Api.Messages.{
  is_own, ListQuery, list_response, handle_list, get_response, handle_get, Current, UpdateBody,
  apply_update, apply_delete, with_current, handle_update, handle_delete, thread_response,
  handle_thread,
}
use skybeam_mail.Api.EventLog.{events_response, list_events, handle_events}
use skybeam_mail.Api.Search.{
  search_texts, select_found, FullText, SearchQuery, search_response, handle_search,
}
use skybeam_mail.Api.Admin.{
  AccountBody, domains_response, handle_list_domains, created_response, handle_create_domain,
  deleted_response, handle_delete_domain, accounts_response, handle_list_accounts, create_hashed,
  handle_create_account,
}

-- A response that is no panic.
abbrev pub answers : Response → Bool
answers (respond status body) = true
answers (respond_error status code) = true
answers panic = false

-- A handler that answers, whatever becomes of its calls.
abbrev pub Answers : M Response → Type 0
Answers m = (w : World) → answers (m w).0 ≡ true

login_response-answers : (l : LoginResult) → answers (login_response l) ≡ true
unfolding login_response
login_response-answers (LoginResult.logged_in t acc) = refl
login_response-answers LoginResult.invalid_credentials = refl
login_response-answers LoginResult.login_failed = refl

module _ (env : Env) (c : Crypto) where
  pub handle_login-Answers :
      (unicode : Text → Text) (ttl : ℤ) (b : Option LoginBody)
      → Answers (handle_login env c unicode ttl b)
  unfolding handle_login
  handle_login-Answers unicode ttl none w = refl
  handle_login-Answers unicode ttl (some b) w =
      ground
        (arith, login_response-answers (login env c ttl (login_email unicode b) b.password w).0)

  pub logout_of-Answers : (t : Option Text) → Answers (logout_of env c t)
  unfolding logout_of logout_response
  logout_of-Answers none w = refl
  logout_of-Answers (some t) w = ground arith

  create_hashed-Answers : (b : AccountBody) (h : Option Text) → Answers (create_hashed env b h)
  unfolding create_hashed created_response
  create_hashed-Answers b none w = refl
  create_hashed-Answers b (some h) w = ground arith

  pub handle_create_account-Answers :
      (b : Option AccountBody) → Answers (handle_create_account env c b)
  unfolding handle_create_account
  handle_create_account-Answers none w = refl
  handle_create_account-Answers (some b) w =
      ground (arith, create_hashed-Answers b (c.bcrypt_hash b.password) w)

-- A response made from the rows of a query, or from none.
from-rows :
    {A : Type 0} (f : Option A → Response)
    → answers (f none) ≡ true
    → ((a : A) → answers (f (some a)) ≡ true)
    → (o : Option A) → answers (f o) ≡ true
from-rows f h k none = h
from-rows f h k (some a) = k a

module _ (env : Env) (acc : Account) where
  pub handle_folders-Answers :
      (before : Text → Text → Bool) → Answers (handle_folders env before acc)
  unfolding handle_folders folders_response
  handle_folders-Answers before w = from-rows folders_response refl (λ a. refl) _

  created-Answers : (name : Text) (err : Bool) → Answers (created env acc name err)
  unfolding created
  created-Answers name true w = refl
  created-Answers name false w = refl

  pub handle_create-Answers : (b : Option Text) → Answers (handle_create env acc b)
  unfolding handle_create
  handle_create-Answers none w = refl
  handle_create-Answers (some name) w =
      let (err, v) = exec env (insert_folder env acc.id name) w in
      ground (arith, created-Answers name err v)

  delete_counted-Answers : (name : Text) (n : ℕ) → Answers (delete_counted env acc name n)
  unfolding delete_counted
  delete_counted-Answers name n w = ground arith

  pub handle_delete_folder-Answers : (name : Text) → Answers (handle_delete_folder env acc name)
  unfolding handle_delete_folder
  handle_delete_folder-Answers name w =
      let (n, v) = query env (name ∷ []) (count_messages acc.id name) w in
      ground (arith, delete_counted-Answers name (count_or_zero n) v)

  pub handle_list-Answers :
      (meets : List MessageRow → List MessageRow) (closes : Bool) (q : ListQuery)
      → Answers (handle_list env meets closes acc q)
  unfolding handle_list list_response
  handle_list-Answers meets closes q w = listed _
    where
      listed :
          (o : Option (Option (List MessageRow)))
          → answers (
              list_response closes (clamp_page (atoi q.page)) (clamp_limit 100 50 (atoi q.limit)) o)
            ≡ true
      listed none = refl
      listed (some none) = refl
      listed (some (some rows)) = refl

  get_response-answers : (o : Option (Option MessageRow)) → answers (get_response o) ≡ true
  unfolding get_response
  get_response-answers none = refl
  get_response-answers (some none) = refl
  get_response-answers (some (some r)) = ground arith

  pub handle_get-Answers : (id : Option ℕ) → Answers (handle_get env acc id)
  unfolding handle_get
  handle_get-Answers none w = refl
  handle_get-Answers (some id) w = get_response-answers _

  with_current-Answers :
      (body : Current → M Response) (o : Option (Option MessageRow))
      → ((current : Current) → Answers (body current))
      → Answers (with_current body o)
  unfolding with_current
  with_current-Answers body none h w = h ([], []) w
  with_current-Answers body (some none) h w = refl
  with_current-Answers body (some (some r)) h w = h (r.dovecot_uid, r.folder) w

  pub handle_update-Answers :
      (id : Option ℕ) (b : Option UpdateBody) → Answers (handle_update env acc id b)
  unfolding handle_update apply_update
  handle_update-Answers none b w = refl
  handle_update-Answers (some id) none w = refl
  handle_update-Answers (some id) (some b) w =
      let (row, v) = query env [] (λ db. find (is_own id acc.id) db.messages) w in
      with_current-Answers (λ current. apply_update env acc id current b) row (λ current u. refl) v

  pub handle_delete-Answers :
      (id : Option ℕ) (permanent : Text) → Answers (handle_delete env acc id permanent)
  unfolding handle_delete apply_delete
  handle_delete-Answers none permanent w = refl
  handle_delete-Answers (some id) permanent w =
      let (row, v) = query env [] (λ db. find (is_own id acc.id) db.messages) w in
      with_current-Answers
        (λ current. apply_delete env acc id current (text_eq permanent (codes "true"))) row
        (λ current u. refl) v

  pub handle_thread-Answers :
      (closes : Bool) (partial : MessageRow → MessageRow) (thread_id : Text)
      → Answers (handle_thread env closes partial acc thread_id)
  unfolding handle_thread thread_response
  handle_thread-Answers closes partial thread_id w =
      from-rows (thread_response closes partial) refl (λ a. refl) _

  pub handle_events-Answers :
      (limit after_id : Text) → Answers (handle_events env acc limit after_id)
  unfolding handle_events list_events events_response
  handle_events-Answers limit after_id w = from-rows events_response refl (λ a. refl) _

  pub handle_search-Answers :
      (ft : FullText) (sq : SearchQuery) → Answers (handle_search env ft acc sq)
  unfolding handle_search search_response
  handle_search-Answers ft sq w =
      let (rows, v) = query env (search_texts sq) (select_found ft acc.id sq) w in
      ground (arith, from-rows (search_response sq.q) refl (λ a. refl) rows)

module _ (env : Env) where
  pub handle_list_domains-Answers :
      (closes : Bool) (scans : DomainRow → Bool) (before : Text → Text → Bool)
      → Answers (handle_list_domains env closes scans before)
  unfolding handle_list_domains domains_response
  handle_list_domains-Answers closes scans before w =
      from-rows (domains_response closes scans) refl (λ a. refl) _

  pub handle_create_domain-Answers : (b : Option Text) → Answers (handle_create_domain env b)
  unfolding handle_create_domain created_response
  handle_create_domain-Answers none w = refl
  handle_create_domain-Answers (some name) w = ground arith

  pub handle_delete_domain-Answers : (id : Option ℕ) → Answers (handle_delete_domain env id)
  unfolding handle_delete_domain deleted_response
  handle_delete_domain-Answers id w = ground arith

  pub handle_list_accounts-Answers :
      (closes : Bool) (scans : AccountRow → Bool) (before : Text → Text → Bool)
      → Answers (handle_list_accounts env closes scans before)
  unfolding handle_list_accounts accounts_response
  handle_list_accounts-Answers closes scans before w =
      from-rows (accounts_response closes scans) refl (λ a. refl) _
