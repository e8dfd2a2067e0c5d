-- ===== src/Api/Router.antt =====
-- internal/api/router.go, NewRouter: the routes, the middleware of each group and the global middleware
-- that answers itself. Which route a request meets is chi's work: it is given as the place of a route
-- in the table, or as a path that no route has, with the group whose middleware still runs. RequestID,
-- RealIP, Logger and Timeout leave the response of a handler as it is.
pub mod Guarded
pub mod Answers
pub mod Quiet
pub mod Untouched
pub mod Spared
pub mod Isolated
pub mod Samples
mod Tests
use skybeam_mail.Prelude.{
  ℕ, zero, suc, Bool, true, false, Option, none, some, List, [], ◌∷◌, if◌then◌else◌, Text, codes,
}
use skybeam_mail.Prelude.Int.{ℤ}
use skybeam_mail.Store.Rows.{AccountRow, DomainRow, MessageRow}
use skybeam_mail.Store.World.{Env, World, M, pure, ◌>>=◌}
use skybeam_mail.Auth.{Account, Crypto, session_ttl}
use skybeam_mail.Api.Response.{Response, respond, respond_error, panic, empty, health_response}
use skybeam_mail.Api.Middleware.{Request, Handler, require_auth, with_account, admin_only, cors}
use skybeam_mail.Api.AuthHandler.{LoginBody, handle_login, handle_logout, handle_me}
use skybeam_mail.Api.Folders.{handle_folders, handle_create, handle_delete_folder}
use skybeam_mail.Api.Messages.{
  ListQuery, UpdateBody, handle_list, handle_get, handle_update, handle_delete, handle_thread,
  handle_raw, handle_send,
}
use skybeam_mail.Api.EventLog.{handle_events}
use skybeam_mail.Api.Search.{FullText, SearchQuery, handle_search}
use skybeam_mail.Api.Admin.{
  AccountBody, handle_list_domains, handle_create_domain, handle_delete_domain,
  handle_list_accounts, handle_create_account,
}

-- The middleware of the group that a route stands in: none, RequireAuth, or RequireAuth and AdminOnly.
pub data Group : Type 0 where
  public session admin : Group

-- The handlers.
pub data Endpoint : Type 0 where
  get_health login logout me : Endpoint
  list_folders create_folder delete_folder : Endpoint
  list_messages send_message get_message raw_message update_message delete_message : Endpoint
  get_thread search list_events : Endpoint
  list_domains create_domain delete_domain list_accounts create_account : Endpoint
  files : Endpoint

pub record Route : Type 0 where
  pub method : Text
  pub pattern : Text
  pub group : Group
  pub endpoint : Endpoint

abbrev pub route : Text → Text → Group → Endpoint → Route
route method pattern group endpoint = record {
  method = method;
  pattern = pattern;
  group = group;
  endpoint = endpoint;
}

abbrev get : Text
get = codes "GET"

abbrev post : Text
post = codes "POST"

abbrev delete : Text
delete = codes "DELETE"

-- The routes, in the order in which they are registered. An empty method is any.
unfoldable pub routes : List Route
routes =
    route get (codes "/health") Group.public Endpoint.get_health
    ∷ route post (codes "/api/v1/auth/login") Group.public Endpoint.login
    ∷ route delete (codes "/api/v1/auth/logout") Group.session Endpoint.logout
    ∷ route get (codes "/api/v1/auth/me") Group.session Endpoint.me
    ∷ route get (codes "/api/v1/folders/") Group.session Endpoint.list_folders
    ∷ route post (codes "/api/v1/folders/") Group.session Endpoint.create_folder
    ∷ route delete (codes "/api/v1/folders/{name}") Group.session Endpoint.delete_folder
    ∷ route get (codes "/api/v1/messages/") Group.session Endpoint.list_messages
    ∷ route post (codes "/api/v1/messages/send") Group.session Endpoint.send_message
    ∷ route get (codes "/api/v1/messages/{id}") Group.session Endpoint.get_message
    ∷ route get (codes "/api/v1/messages/{id}/raw") Group.session Endpoint.raw_message
    ∷ route (codes "PATCH") (codes "/api/v1/messages/{id}") Group.session Endpoint.update_message
    ∷ route delete (codes "/api/v1/messages/{id}") Group.session Endpoint.delete_message
    ∷ route get (codes "/api/v1/threads/{threadID}") Group.session Endpoint.get_thread
    ∷ route get (codes "/api/v1/search/") Group.session Endpoint.search
    ∷ route get (codes "/api/v1/events/") Group.session Endpoint.list_events
    ∷ route get (codes "/api/v1/admin/domains") Group.admin Endpoint.list_domains
    ∷ route post (codes "/api/v1/admin/domains") Group.admin Endpoint.create_domain
    ∷ route delete (codes "/api/v1/admin/domains/{id}") Group.admin Endpoint.delete_domain
    ∷ route get (codes "/api/v1/admin/accounts") Group.admin Endpoint.list_accounts
    ∷ route post (codes "/api/v1/admin/accounts") Group.admin Endpoint.create_account
    ∷ route [] (codes "/*") Group.public Endpoint.files
    ∷ []

-- `uiPath`, by whether /ui is there.
unfoldable pub ui_path : Bool → Text
ui_path mounted = if mounted then codes "/ui" else codes "./ui"

-- What is outside the code: the environment of the database, the cryptography, the Unicode table, the
-- collation, the full-text search, the driver's way with rows that do not scan, and the file server.
pub record Outside : Type 0 where
  pub env : Env
  pub crypto : Crypto
  pub unicode_lower : Text → Text
  pub before : Text → Text → Bool
  pub full_text : FullText
  pub meets : List MessageRow → List MessageRow
  pub closes : Bool
  pub partial : MessageRow → MessageRow
  pub scans_domain : DomainRow → Bool
  pub scans_account : AccountRow → Bool
  pub ui_mounted : Bool
  pub file_server : Text → Text → Response

-- What a request carries for the handlers: the parameters of its path and of its query string, and its
-- body as each of the handlers decodes it.
pub record Incoming : Type 0 where
  pub path : Text
  pub id : Option ℕ
  pub name : Text
  pub thread_id : Text
  pub permanent : Text
  pub limit : Text
  pub after_id : Text
  pub list_query : ListQuery
  pub search_query : SearchQuery
  pub login_body : Option LoginBody
  pub folder_body : Option Text
  pub update_body : Option UpdateBody
  pub domain_body : Option Text
  pub account_body : Option AccountBody

module _ (o : Outside) (days : ℤ) (q : Incoming) where
  unfoldable pub endpoint_handler : Endpoint → Handler
  endpoint_handler Endpoint.get_health r = pure health_response
  endpoint_handler Endpoint.login r =
      handle_login o.env o.crypto o.unicode_lower (session_ttl days) q.login_body
  endpoint_handler Endpoint.logout r = handle_logout o.env o.crypto r
  endpoint_handler Endpoint.me r = handle_me r
  endpoint_handler Endpoint.list_folders r = with_account (handle_folders o.env o.before) r
  endpoint_handler Endpoint.create_folder r =
      with_account (λ acc. handle_create o.env acc q.folder_body) r
  endpoint_handler Endpoint.delete_folder r =
      with_account (λ acc. handle_delete_folder o.env acc q.name) r
  endpoint_handler Endpoint.list_messages r =
      with_account (λ acc. handle_list o.env o.meets o.closes acc q.list_query) r
  endpoint_handler Endpoint.send_message r = handle_send
  endpoint_handler Endpoint.get_message r = with_account (λ acc. handle_get o.env acc q.id) r
  endpoint_handler Endpoint.raw_message r = handle_raw
  endpoint_handler Endpoint.update_message r =
      with_account (λ acc. handle_update o.env acc q.id q.update_body) r
  endpoint_handler Endpoint.delete_message r =
      with_account (λ acc. handle_delete o.env acc q.id q.permanent) r
  endpoint_handler Endpoint.get_thread r =
      with_account (λ acc. handle_thread o.env o.closes o.partial acc q.thread_id) r
  endpoint_handler Endpoint.search r =
      with_account (λ acc. handle_search o.env o.full_text acc q.search_query) r
  endpoint_handler Endpoint.list_events r =
      with_account (λ acc. handle_events o.env acc q.limit q.after_id) r
  endpoint_handler Endpoint.list_domains r =
      handle_list_domains o.env o.closes o.scans_domain o.before
  endpoint_handler Endpoint.create_domain r = handle_create_domain o.env q.domain_body
  endpoint_handler Endpoint.delete_domain r = handle_delete_domain o.env q.id
  endpoint_handler Endpoint.list_accounts r =
      handle_list_accounts o.env o.closes o.scans_account o.before
  endpoint_handler Endpoint.create_account r = handle_create_account o.env o.crypto q.account_body
  endpoint_handler Endpoint.files r = pure (o.file_server (ui_path o.ui_mounted) q.path)

-- The middleware of a group round a handler.
unfoldable pub grouped : Outside → Group → Handler → Handler
grouped o Group.public next = next
grouped o Group.session next = require_auth o.env o.crypto next
grouped o Group.admin next = require_auth o.env o.crypto (admin_only next)

-- What chi finds for a request: a route by its place, or no route (404) or no method (405) below a
-- group.
pub data Matched : Type 0 where
  at : ℕ → Matched
  missing : Group → ℕ → Matched

unfoldable pub nth : {A : Type 0} → ℕ → List A → Option A
nth n [] = none
nth zero (x ∷ xs) = some x
nth (suc n) (x ∷ xs) = nth n xs

unfoldable pub serve_route : Outside → ℤ → Incoming → Option Route → Handler
serve_route o days q none r = pure (respond 404 empty)
serve_route o days q (some route) r =
    grouped o route.group (endpoint_handler o days q route.endpoint) r

unfoldable pub dispatch : Outside → ℤ → Incoming → Matched → Handler
dispatch o days q (Matched.at n) r = serve_route o days q (nth n routes) r
dispatch o days q (Matched.missing group status) r =
    grouped o group (λ _. pure (respond status empty)) r

-- chi's Recoverer: the panic of a handler becomes a 500.
unfoldable pub recover : Response → Response
recover panic = respond 500 empty
recover (respond status body) = respond status body
recover (respond_error status code) = respond_error status code

-- The handler that NewRouter returns.
unfoldable pub serve : Outside → ℤ → Incoming → Matched → Handler
serve o days q m r = do out ← cors (dispatch o days q m) r; pure (recover out)
