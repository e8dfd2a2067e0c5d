-- ===== src/Api/Router/Spared.antt =====
-- internal/api/router.go: what each handler does to the messages of other accounts.
use skybeam_mail.Prelude.{ℕ, ◌≡◌, refl, ap, true, Option, none, some, Text}
use skybeam_mail.Prelude.Int.{ℤ}
use skybeam_mail.Store.Table.{select}
use skybeam_mail.Store.World.{World, IsCalm}
use skybeam_mail.Watcher.Scan.Keys.{not_of}
use skybeam_mail.Auth.{Account}
use skybeam_mail.Api.Middleware.{Request, with_account, with_account_of}
use skybeam_mail.Api.AuthHandler.{handle_logout, handle_me}
use skybeam_mail.Api.Messages.{UpdateBody, handle_update, handle_delete, handle_raw, handle_send}
use skybeam_mail.Api.Messages.Isolation.{
  HasMessageIds, handle_update-isolated, handle_delete-isolated,
}
use skybeam_mail.Api.Router.{Endpoint, Outside, Incoming, endpoint_handler}
use skybeam_mail.Api.Router.Guarded.{is_public}
use skybeam_mail.Api.Router.Untouched.{
  Leaves, handle_login-Leaves, logout_of-Leaves, handle_create-Leaves, handle_delete_folder-Leaves,
  handle_folders-Leaves, handle_list-Leaves, handle_get-Leaves, handle_thread-Leaves,
  handle_events-Leaves, handle_search-Leaves, handle_list_domains-Leaves,
  handle_create_domain-Leaves, handle_delete_domain-Leaves, handle_list_accounts-Leaves,
  handle_create_account-Leaves,
}

-- The messages of the other accounts, as they were.
abbrev pub Spares : ℕ → World → World → Type 0
Spares account w v = select (not_of account) v.db.messages ≡ select (not_of account) w.db.messages

module _ (o : Outside) (acc : Account) (calm : IsCalm o.env) where
  handle_update-Spares :
      (id : Option ℕ) (b : Option UpdateBody) (w : World)
      → HasMessageIds w.db.messages
      → Spares acc.id w (handle_update o.env acc id b w).1
  handle_update-Spares none b w ids = unfold handle_update in refl
  handle_update-Spares (some id) none w ids = unfold handle_update in refl
  handle_update-Spares (some id) (some b) w ids =
      handle_update-isolated o.env acc id b w (calm w.calls) ids

  handle_delete-Spares :
      (id : Option ℕ) (permanent : Text) (w : World)
      → HasMessageIds w.db.messages
      → Spares acc.id w (handle_delete o.env acc id permanent w).1
  handle_delete-Spares none permanent w ids = unfold handle_delete in refl
  handle_delete-Spares (some id) permanent w ids =
      handle_delete-isolated o.env acc id permanent w (calm w.calls) ids

module _ (o : Outside) (days : ℤ) (q : Incoming) (calm : IsCalm o.env) where
  pub endpoint-Spares :
      (e : Endpoint) (method authorization : Text) (acc : Account) (w : World)
      → HasMessageIds w.db.messages
      → Spares acc.id w
          (endpoint_handler o days q e
            (record { method = method; authorization = authorization; account = some acc })
            w).1
  unfolding endpoint_handler with_account with_account_of handle_logout handle_me handle_raw
      handle_send
  endpoint-Spares Endpoint.get_health m a acc w ids = refl
  endpoint-Spares Endpoint.login m a acc w ids =
      ap (select (not_of acc.id)) (handle_login-Leaves o.env o.crypto _ _ q.login_body w)
  endpoint-Spares Endpoint.logout m a acc w ids =
      ap (select (not_of acc.id)) (logout_of-Leaves o.env o.crypto _ w)
  endpoint-Spares Endpoint.me m a acc w ids = refl
  endpoint-Spares Endpoint.list_folders m a acc w ids =
      ap (select (not_of acc.id)) (handle_folders-Leaves o.env o.before acc w)
  endpoint-Spares Endpoint.create_folder m a acc w ids =
      ap (select (not_of acc.id)) (handle_create-Leaves o.env acc q.folder_body w)
  endpoint-Spares Endpoint.delete_folder m a acc w ids =
      ap (select (not_of acc.id)) (handle_delete_folder-Leaves o.env acc q.name w)
  endpoint-Spares Endpoint.list_messages m a acc w ids =
      ap (select (not_of acc.id)) (handle_list-Leaves o.env o.meets o.closes acc q.list_query w)
  endpoint-Spares Endpoint.send_message m a acc w ids = refl
  endpoint-Spares Endpoint.get_message m a acc w ids =
      ap (select (not_of acc.id)) (handle_get-Leaves o.env acc q.id w)
  endpoint-Spares Endpoint.raw_message m a acc w ids = refl
  endpoint-Spares Endpoint.update_message m a acc w ids =
      handle_update-Spares o acc calm q.id q.update_body w ids
  endpoint-Spares Endpoint.delete_message m a acc w ids =
      handle_delete-Spares o acc calm q.id q.permanent w ids
  endpoint-Spares Endpoint.get_thread m a acc w ids =
      ap (select (not_of acc.id)) (handle_thread-Leaves o.env o.closes o.partial acc q.thread_id w)
  endpoint-Spares Endpoint.search m a acc w ids =
      ap (select (not_of acc.id)) (handle_search-Leaves o.env o.full_text acc q.search_query w)
  endpoint-Spares Endpoint.list_events m a acc w ids =
      ap (select (not_of acc.id)) (handle_events-Leaves o.env acc q.limit q.after_id w)
  endpoint-Spares Endpoint.list_domains m a acc w ids =
      ap (select (not_of acc.id))
        (handle_list_domains-Leaves o.env o.closes o.scans_domain o.before w)
  endpoint-Spares Endpoint.create_domain m a acc w ids =
      ap (select (not_of acc.id)) (handle_create_domain-Leaves o.env q.domain_body w)
  endpoint-Spares Endpoint.delete_domain m a acc w ids =
      ap (select (not_of acc.id)) (handle_delete_domain-Leaves o.env q.id w)
  endpoint-Spares Endpoint.list_accounts m a acc w ids =
      ap (select (not_of acc.id))
        (handle_list_accounts-Leaves o.env o.closes o.scans_account o.before w)
  endpoint-Spares Endpoint.create_account m a acc w ids =
      ap (select (not_of acc.id)) (handle_create_account-Leaves o.env o.crypto q.account_body w)
  endpoint-Spares Endpoint.files m a acc w ids = refl

  pub public-Leaves :
      (e : Endpoint) (r : Request) → is_public e ≡ true → Leaves (endpoint_handler o days q e r)
  unfolding endpoint_handler is_public
  public-Leaves Endpoint.get_health r p w = refl
  public-Leaves Endpoint.login r p w = handle_login-Leaves o.env o.crypto _ _ q.login_body w
  public-Leaves Endpoint.files r p w = refl
  public-Leaves e r p w = cc
