-- ===== src/System/Keeps/Requests.antt =====
-- internal/api/router.go: what every statement keeps, a request keeps.
use skybeam_mail.Prelude.{true, ◌≡◌, Option, none, some, Text, arith}
use skybeam_mail.Prelude.Int.{ℤ}
use skybeam_mail.Store.Rows.{Store}
use skybeam_mail.Store.World.{pure}
use skybeam_mail.Auth.{Account, VerifyResult, verify_token, session_ttl}
use skybeam_mail.Api.Response.{respond, empty}
use skybeam_mail.Api.Middleware.{
  Request, Handler, bearer_token, admit, check_token, require_auth, with_account, with_account_of,
  admin_only, split_space, cors,
}
use skybeam_mail.Api.AuthHandler.{handle_logout, handle_me}
use skybeam_mail.Api.Messages.{handle_raw, handle_send}
use skybeam_mail.Api.Router.{
  Group, Endpoint, Route, routes, Outside, Incoming, endpoint_handler, grouped, Matched, nth,
  serve_route, dispatch, serve,
}
use skybeam_mail.System.{
  Watched, is_login, is_logout, endpoint_leaves, route_leaves, Action, action_leaves,
}
use skybeam_mail.System.Keeps.{IsInvariant, Kept}
use skybeam_mail.System.Keeps.Auth.{verify_token-Kept}
use skybeam_mail.System.Keeps.Handlers.{
  handle_login-Kept, logout_of-Kept, handle_folders-Kept, handle_create-Kept,
  handle_delete_folder-Kept, handle_list-Kept, handle_get-Kept, handle_thread-Kept,
  handle_update-Kept, handle_delete-Kept, handle_events-Kept, handle_search-Kept,
}
use skybeam_mail.System.Keeps.Admin.{
  handle_list_domains-Kept, handle_create_domain-Kept, handle_delete_domain-Kept,
  handle_list_accounts-Kept, handle_create_account-Kept,
}

module _ (o : Outside) (P : Store → Type 0) {watched : Watched} (i : IsInvariant o.env watched P)
    (method authorization : Text) where
  -- The request, by the account in its context.
  abbrev request : Option Account → Request
  request acc = record { method = method; authorization = authorization; account = acc }

  -- A handler that leaves the property standing at this request, whatever the account.
  abbrev Preserved : Handler → Type 0
  Preserved next = (acc : Option Account) → Kept o.env P (next (request acc))

  admit-Kept :
      (next : Handler) (acc : Option Account) (out : VerifyResult)
      → Preserved next
      → Kept o.env P (admit o.env o.crypto next (request acc) out)
  unfolding admit
  admit-Kept next acc (VerifyResult.verified found) k w h = k (some found) w h
  admit-Kept next acc VerifyResult.unauthorized k w h = h
  admit-Kept next acc VerifyResult.expired k w h = h
  admit-Kept next acc VerifyResult.verify_failed k w h = h

  check_token-Kept :
      (next : Handler) (acc : Option Account) (t : Option Text)
      → Preserved next
      → Kept o.env P (check_token o.env o.crypto next (request acc) t)
  unfolding check_token
  check_token-Kept next acc none k w h = h
  check_token-Kept next acc (some t) k w h =
      let (out, v) = verify_token o.env o.crypto t w in
      admit-Kept next acc out k v (verify_token-Kept o.env P i o.crypto t w h)

  require_auth-Preserved :
      (next : Handler) → Preserved next → Preserved (require_auth o.env o.crypto next)
  unfolding require_auth
  require_auth-Preserved next k acc = check_token-Kept next acc (bearer_token authorization) k

  admin_only-Preserved : (next : Handler) → Preserved next → Preserved (admin_only next)
  unfolding admin_only with_account with_account_of
  admin_only-Preserved next k none w h = h
  admin_only-Preserved next k (some acc) w h = ground (arith, k (some acc) w h)

  grouped-Preserved : (g : Group) (next : Handler) → Preserved next → Preserved (grouped o g next)
  unfolding grouped
  grouped-Preserved Group.public next k = k
  grouped-Preserved Group.session next k = require_auth-Preserved next k
  grouped-Preserved Group.admin next k =
      require_auth-Preserved (admin_only next) (admin_only-Preserved next k)

  module _ (days : ℤ) (q : Incoming) where
    endpoint-Preserved :
        (e : Endpoint)
        → endpoint_leaves watched o.crypto e authorization ≡ true
        → Preserved (endpoint_handler o days q e)
    unfolding endpoint_handler with_account with_account_of handle_logout handle_me handle_raw
        handle_send endpoint_leaves is_logout is_login
    endpoint-Preserved Endpoint.get_health l acc w h = h
    endpoint-Preserved Endpoint.login l acc w h =
        handle_login-Kept o.env P i o.crypto o.unicode_lower (session_ttl days) q.login_body l w h
    endpoint-Preserved Endpoint.logout l acc w h =
        logout_of-Kept o.env P i o.crypto (split_space authorization).1 (ground arith) w h
    endpoint-Preserved Endpoint.me l none w h = h
    endpoint-Preserved Endpoint.me l (some acc) w h = h
    endpoint-Preserved Endpoint.list_folders l none w h = h
    endpoint-Preserved Endpoint.list_folders l (some acc) w h =
        handle_folders-Kept o.env P i o.before acc w h
    endpoint-Preserved Endpoint.create_folder l none w h = h
    endpoint-Preserved Endpoint.create_folder l (some acc) w h =
        handle_create-Kept o.env P i acc q.folder_body w h
    endpoint-Preserved Endpoint.delete_folder l none w h = h
    endpoint-Preserved Endpoint.delete_folder l (some acc) w h =
        handle_delete_folder-Kept o.env P i acc q.name w h
    endpoint-Preserved Endpoint.list_messages l none w h = h
    endpoint-Preserved Endpoint.list_messages l (some acc) w h =
        handle_list-Kept o.env P i o.meets o.closes acc q.list_query w h
    endpoint-Preserved Endpoint.send_message l acc w h = h
    endpoint-Preserved Endpoint.get_message l none w h = h
    endpoint-Preserved Endpoint.get_message l (some acc) w h =
        handle_get-Kept o.env P i acc q.id w h
    endpoint-Preserved Endpoint.raw_message l acc w h = h
    endpoint-Preserved Endpoint.update_message l none w h = h
    endpoint-Preserved Endpoint.update_message l (some acc) w h =
        handle_update-Kept o.env P i acc q.id q.update_body w h
    endpoint-Preserved Endpoint.delete_message l none w h = h
    endpoint-Preserved Endpoint.delete_message l (some acc) w h =
        handle_delete-Kept o.env P i acc q.id q.permanent w h
    endpoint-Preserved Endpoint.get_thread l none w h = h
    endpoint-Preserved Endpoint.get_thread l (some acc) w h =
        handle_thread-Kept o.env P i o.closes o.partial acc q.thread_id w h
    endpoint-Preserved Endpoint.search l none w h = h
    endpoint-Preserved Endpoint.search l (some acc) w h =
        handle_search-Kept o.env P i o.full_text acc q.search_query w h
    endpoint-Preserved Endpoint.list_events l none w h = h
    endpoint-Preserved Endpoint.list_events l (some acc) w h =
        handle_events-Kept o.env P i acc q.limit q.after_id w h
    endpoint-Preserved Endpoint.list_domains l acc w h =
        handle_list_domains-Kept o.env P i o.closes o.scans_domain o.before w h
    endpoint-Preserved Endpoint.create_domain l acc w h =
        handle_create_domain-Kept o.env P i q.domain_body w h
    endpoint-Preserved Endpoint.delete_domain l acc w h =
        handle_delete_domain-Kept o.env P i q.id w h
    endpoint-Preserved Endpoint.list_accounts l acc w h =
        handle_list_accounts-Kept o.env P i o.closes o.scans_account o.before w h
    endpoint-Preserved Endpoint.create_account l acc w h =
        handle_create_account-Kept o.env P i o.crypto q.account_body w h
    endpoint-Preserved Endpoint.files l acc w h = h

    serve_route-Preserved :
        (t : Option Route)
        → route_leaves watched o.crypto t authorization ≡ true
        → Preserved (serve_route o days q t)
    unfolding serve_route route_leaves
    serve_route-Preserved none l acc w h = h
    serve_route-Preserved (some t) l acc w h =
        grouped-Preserved t.group (endpoint_handler o days q t.endpoint)
          (endpoint-Preserved t.endpoint l) acc w h

    dispatch-Preserved :
        (m : Matched) (from : Option Account)
        → action_leaves watched (Action.request o days q m (request from)) ≡ true
        → Preserved (dispatch o days q m)
    unfolding dispatch action_leaves
    dispatch-Preserved (Matched.at n) from l acc w h =
        serve_route-Preserved (nth n routes) l acc w h
    dispatch-Preserved (Matched.missing g status) from l acc w h =
        grouped-Preserved g (λ _. pure (respond status empty)) (λ _ v k. k) acc w h

    pub serve-Preserved :
        (m : Matched) (acc : Option Account)
        → action_leaves watched (Action.request o days q m (request acc)) ≡ true
        → Kept o.env P (serve o days q m (request acc))
    unfolding serve cors
    serve-Preserved m acc l w h = ground (arith, dispatch-Preserved m acc l acc w h)
