-- ===== src/Api/Router/Guarded.antt =====
-- internal/api/router.go: the middleware that stands before each route.
use skybeam_mail.Prelude.{
  ℕ, zero, suc, ◌≡◌, refl, sym, ◌∙◌, ◌⊎◌, inl, inr, Bool, true, false, ◌&&◌, not, some, List, [],
  ◌∷◌, all, arith,
}
use skybeam_mail.Prelude.Int.{ℤ}
use skybeam_mail.Store.World.{World}
use skybeam_mail.Auth.{Account}
use skybeam_mail.Api.Response.{Response, respond_error, Code}
use skybeam_mail.Api.Middleware.{Request, bearer_token, respond_unauthorized}
use skybeam_mail.Api.Middleware.Guards.{
  IsGuarded, after_check, require_auth-Guards, admin_only_guards,
}
use skybeam_mail.Api.Router.{
  Group, Endpoint, Route, routes, Outside, Incoming, endpoint_handler, grouped, Matched, nth,
  serve_route, dispatch,
}

-- The endpoints that need no session: the health check, the login and the files of the interface.
unfoldable pub is_public : Endpoint → Bool
is_public Endpoint.get_health = true
is_public Endpoint.login = true
is_public Endpoint.files = true
is_public e = false

-- The endpoints of administrators: the domains and the accounts.
pub is_admins : Endpoint → Bool
is_admins Endpoint.list_domains = true
is_admins Endpoint.create_domain = true
is_admins Endpoint.delete_domain = true
is_admins Endpoint.list_accounts = true
is_admins Endpoint.create_account = true
is_admins e = false

-- A route stands in a group that asks for enough.
unfoldable pub well_grouped : Group → Endpoint → Bool
unfolding is_public is_admins
well_grouped Group.public e = is_public e
well_grouped Group.session e = not (is_admins e)
well_grouped Group.admin e = true

pub routes-well_grouped : all (λ t. well_grouped t.group t.endpoint) routes ≡ true
unfolding well_grouped routes
routes-well_grouped = refl

pub nth-all :
    (p : Route → Bool) (n : ℕ) (ts : List Route) (t : Route)
    → all p ts ≡ true
    → nth n ts ≡ some t
    → p t ≡ true
unfolding nth
nth-all p n [] t h e = cc
nth-all p zero (s ∷ ts) t h e = let same : s ≡ t = cc in rw (← same) (ground arith)
nth-all p (suc n) (s ∷ ts) t h e = nth-all p n ts t (ground arith) e

module _ (o : Outside) (days : ℤ) (q : Incoming) (r : Request) (w : World) where
  -- What becomes of a request for an endpoint that is not public: it is refused, or it is served for
  -- the account of its token, which is an administrator's where the endpoint asks for that.
  abbrev pub Served : Endpoint → Response × World → Type 0
  Served e out =
      let v = after_check o.env o.crypto (bearer_token r.authorization) w in
      (out ≡ (respond_unauthorized, v))
      ⊎ (out ≡ (respond_error 403 Code.forbidden, v))
      ⊎ ((acc : Account) × IsGuarded o.env o.crypto r w acc
          × (is_admins e && not acc.is_admin ≡ false)
          × (out ≡ endpoint_handler o days q e (record r { account = some acc }) v))

  grouped-Served :
      (g : Group) (e : Endpoint)
      → well_grouped g e ≡ true
      → is_public e ≡ false
      → Served e (grouped o g (endpoint_handler o days q e) r w)
  unfolding grouped well_grouped
  grouped-Served Group.public e h p = let bad : true ≡ false = sym h ∙ p in cc
  grouped-Served Group.session e h p =
      elim (require_auth-Guards o.env o.crypto r (endpoint_handler o days q e) w) [
        | inl refused ↦ inl refused
        | inr (acc, guarded, served) ↦ inr (inr (acc, guarded, ground arith, served))
      ]
  grouped-Served Group.admin e h p =
      elim (admin_only_guards o.env o.crypto r (endpoint_handler o days q e) w) [
        | inl refused ↦ inl refused
        | inr (inl forbidden) ↦ inr (inl forbidden)
        | inr (inr (acc, guarded, promoted, served)) ↦
            inr (inr (acc, guarded, rw promoted (ground arith), served))
      ]

  -- A request for a route other than the health check, the login and the files of the interface is
  -- answered with 401 or 403, and then the database is as checking its token leaves it, or its handler
  -- is run for the account that VerifyToken gives for its token; and a handler of domains or accounts
  -- is run only for an administrator.
  pub dispatch-Served :
      (n : ℕ) (t : Route)
      → nth n routes ≡ some t
      → is_public t.endpoint ≡ false
      → Served t.endpoint (dispatch o days q (Matched.at n) r w)
  unfolding dispatch serve_route
  dispatch-Served n t e p = rw e (
      grouped-Served t.group t.endpoint
        (nth-all (λ s. well_grouped s.group s.endpoint) n routes t routes-well_grouped e) p)
