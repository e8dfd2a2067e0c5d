-- ===== src/Api/Router/Quiet.antt =====
-- internal/api/router.go and AccountFromContext of internal/api/middleware/auth.go: whether a route can
-- reach a panic.
use skybeam_mail.Prelude.{ℕ, ◌≡◌, refl, inl, inr, true, some, Text, Option-cases}
use skybeam_mail.Prelude.Int.{ℤ}
use skybeam_mail.Auth.{Account}
use skybeam_mail.Api.Middleware.{Request, with_account, with_account_of}
use skybeam_mail.Api.Middleware.Guards.{require_auth-Guards, admin_only_guards}
use skybeam_mail.Api.AuthHandler.{handle_logout, handle_me}
use skybeam_mail.Api.Messages.{handle_raw, handle_send}
use skybeam_mail.Api.Router.{
  Group, Endpoint, routes, Outside, Incoming, endpoint_handler, grouped, Matched, nth, serve_route,
  dispatch,
}
use skybeam_mail.Api.Router.Answers.{
  answers, Answers, handle_login-Answers, logout_of-Answers, handle_create_account-Answers,
  handle_folders-Answers, handle_create-Answers, handle_delete_folder-Answers, handle_list-Answers,
  handle_get-Answers, handle_update-Answers, handle_delete-Answers, handle_thread-Answers,
  handle_events-Answers, handle_search-Answers, handle_list_domains-Answers,
  handle_create_domain-Answers, handle_delete_domain-Answers, handle_list_accounts-Answers,
}
use skybeam_mail.Api.Router.Guarded.{is_public, well_grouped, routes-well_grouped, nth-all}

module _ (o : Outside) (days : ℤ) (q : Incoming)
    (files : (dir path : Text) → answers (o.file_server dir path) ≡ true) where
  -- Every handler answers where the context holds an account.
  with-account :
      (e : Endpoint) (method authorization : Text) (acc : Account)
      → Answers (
          endpoint_handler o days q e
            (record { method = method; authorization = authorization; account = some acc }))
  unfolding endpoint_handler with_account with_account_of handle_logout handle_me handle_raw
      handle_send
  with-account Endpoint.get_health m a acc w = refl
  with-account Endpoint.login m a acc w = handle_login-Answers o.env o.crypto _ _ q.login_body w
  with-account Endpoint.logout m a acc w = logout_of-Answers o.env o.crypto _ w
  with-account Endpoint.me m a acc w = refl
  with-account Endpoint.list_folders m a acc w = handle_folders-Answers o.env acc o.before w
  with-account Endpoint.create_folder m a acc w = handle_create-Answers o.env acc q.folder_body w
  with-account Endpoint.delete_folder m a acc w = handle_delete_folder-Answers o.env acc q.name w
  with-account Endpoint.list_messages m a acc w =
      handle_list-Answers o.env acc o.meets o.closes q.list_query w
  with-account Endpoint.send_message m a acc w = refl
  with-account Endpoint.get_message m a acc w = handle_get-Answers o.env acc q.id w
  with-account Endpoint.raw_message m a acc w = refl
  with-account Endpoint.update_message m a acc w =
      handle_update-Answers o.env acc q.id q.update_body w
  with-account Endpoint.delete_message m a acc w =
      handle_delete-Answers o.env acc q.id q.permanent w
  with-account Endpoint.get_thread m a acc w =
      handle_thread-Answers o.env acc o.closes o.partial q.thread_id w
  with-account Endpoint.search m a acc w =
      handle_search-Answers o.env acc o.full_text q.search_query w
  with-account Endpoint.list_events m a acc w = handle_events-Answers o.env acc q.limit q.after_id w
  with-account Endpoint.list_domains m a acc w =
      handle_list_domains-Answers o.env o.closes o.scans_domain o.before w
  with-account Endpoint.create_domain m a acc w = handle_create_domain-Answers o.env q.domain_body w
  with-account Endpoint.delete_domain m a acc w = handle_delete_domain-Answers o.env q.id w
  with-account Endpoint.list_accounts m a acc w =
      handle_list_accounts-Answers o.env o.closes o.scans_account o.before w
  with-account Endpoint.create_account m a acc w =
      handle_create_account-Answers o.env o.crypto q.account_body w
  with-account Endpoint.files m a acc w = files _ q.path

  without-account :
      (e : Endpoint) (r : Request) → is_public e ≡ true → Answers (endpoint_handler o days q e r)
  unfolding endpoint_handler is_public
  without-account Endpoint.get_health r p w = refl
  without-account Endpoint.login r p w = handle_login-Answers o.env o.crypto _ _ q.login_body w
  without-account Endpoint.files r p w = files _ q.path
  without-account e r p w = cc

  grouped-Answers :
      (g : Group) (e : Endpoint)
      → well_grouped g e ≡ true
      → (r : Request) → Answers (grouped o g (endpoint_handler o days q e) r)
  unfolding grouped well_grouped
  grouped-Answers Group.public e h r w = without-account e r h w
  grouped-Answers Group.session e h r w =
      elim (require_auth-Guards o.env o.crypto r (endpoint_handler o days q e) w) [
        | inl refused ↦ rw refused refl
        | inr (acc, guarded, served) ↦ rw served (with-account e r.method r.authorization acc _)
      ]
  grouped-Answers Group.admin e h r w =
      elim (admin_only_guards o.env o.crypto r (endpoint_handler o days q e) w) [
        | inl refused ↦ rw refused refl
        | inr (inl forbidden) ↦ rw forbidden refl
        | inr (inr (acc, guarded, promoted, served)) ↦
            rw served (with-account e r.method r.authorization acc _)
      ]

  -- No request reaches the panic of AccountFromContext: whatever route it meets, and whatever becomes
  -- of the calls, the handler answers, as long as the file server does.
  pub dispatch-Answers : (n : ℕ) (r : Request) → Answers (dispatch o days q (Matched.at n) r)
  unfolding dispatch serve_route
  dispatch-Answers n r w = elim (Option-cases (nth n routes)) [
    | inl beyond ↦ rw beyond refl
    | inr (t, e) ↦ rw e (
        grouped-Answers t.group t.endpoint
          (nth-all (λ s. well_grouped s.group s.endpoint) n routes t routes-well_grouped e) r w)
  ]
