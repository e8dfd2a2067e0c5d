-- ===== src/Api/Router/Isolated.antt =====
-- internal/api/router.go: a whole request, and the messages of the accounts that it is not from.
use skybeam_mail.Prelude.{
  ◌≡◌, refl, ◌⊎◌, sym, ◌∙◌, ap, inl, inr, true, Option, none, some, Text, codes, text_eq,
  Bool-cases, Option-cases,
}
use mathlib.Core.Path.{subst}
use skybeam_mail.Prelude.Int.{ℤ}
use skybeam_mail.Store.Table.{select}
use skybeam_mail.Store.World.{World, IsCalm, pure}
use skybeam_mail.Watcher.Scan.Keys.{not_of}
use skybeam_mail.Auth.{Account}
use skybeam_mail.Api.Response.{Response, respond, empty}
use skybeam_mail.Api.Middleware.{Request, bearer_token, cors}
use skybeam_mail.Api.Middleware.Guards.{
  IsGuarded, after_check, require_auth-Guards, admin_only_guards,
}
use skybeam_mail.Api.Messages.Isolation.{HasMessageIds}
use skybeam_mail.Api.Router.{
  Group, Endpoint, routes, Outside, Incoming, endpoint_handler, grouped, Matched, nth, serve_route,
  dispatch, serve,
}
use skybeam_mail.Api.Router.Guarded.{well_grouped, routes-well_grouped, nth-all}
use skybeam_mail.Api.Router.Untouched.{verify_token-Leaves}
use skybeam_mail.Api.Router.Spared.{Spares, endpoint-Spares, public-Leaves}

-- Checking a token leaves the messages as they are.
after_check-Leaves :
    (o : Outside) (t : Option Text) (w : World)
    → (after_check o.env o.crypto t w).db.messages ≡ w.db.messages
after_check-Leaves o none w = refl
after_check-Leaves o (some token) w = verify_token-Leaves o.env o.crypto token w

module _ (o : Outside) (days : ℤ) (q : Incoming) (r : Request) (calm : IsCalm o.env) where
  -- What a request can do to the messages: nothing, or what changes those of the account of its token.
  abbrev pub Contained : World → World → Type 0
  Contained w v =
      (v.db.messages ≡ w.db.messages)
      ⊎ ((acc : Account) × IsGuarded o.env o.crypto r w acc × Spares acc.id w v)

  guarded-Contained :
      (e : Endpoint) (acc : Account) (w : World) (out : Response × World)
      → HasMessageIds w.db.messages
      → IsGuarded o.env o.crypto r w acc
      → out
        ≡ endpoint_handler o days q e
            (record r { account = some acc })
            (after_check o.env o.crypto (bearer_token r.authorization) w)
      → Contained w out.1
  guarded-Contained e acc w out ids guarded served =
      let v = after_check o.env o.crypto (bearer_token r.authorization) w in
      let kept : v.db.messages ≡ w.db.messages =
        after_check-Leaves o (bearer_token r.authorization) w in
      let spared =
        endpoint-Spares o days q calm e r.method r.authorization acc v
          (subst HasMessageIds (sym kept) ids) in
      inr (
        acc,
        guarded,
        ap (λ (x : Response × World). select (not_of acc.id) x.1.db.messages) served
            ∙ spared
            ∙ ap (select (not_of acc.id)) kept,
      )

  refused-Contained :
      (answer : Response) (w : World) (out : Response × World)
      → out ≡ (answer, after_check o.env o.crypto (bearer_token r.authorization) w)
      → Contained w out.1
  refused-Contained answer w out e = inl (
      ap (λ (x : Response × World). x.1.db.messages) e
      ∙ after_check-Leaves o (bearer_token r.authorization) w)

  grouped-Contained :
      (g : Group) (e : Endpoint) (w : World)
      → well_grouped g e ≡ true
      → HasMessageIds w.db.messages
      → Contained w (grouped o g (endpoint_handler o days q e) r w).1
  unfolding grouped well_grouped
  grouped-Contained Group.public e w h ids = inl (public-Leaves o days q calm e r h w)
  grouped-Contained Group.session e w h ids =
      elim (require_auth-Guards o.env o.crypto r (endpoint_handler o days q e) w) [
        | inl refused ↦ refused-Contained _ w _ refused
        | inr (acc, guarded, served) ↦ guarded-Contained e acc w _ ids guarded served
      ]
  grouped-Contained Group.admin e w h ids =
      elim (admin_only_guards o.env o.crypto r (endpoint_handler o days q e) w) [
        | inl refused ↦ refused-Contained _ w _ refused
        | inr (inl forbidden) ↦ refused-Contained _ w _ forbidden
        | inr (inr (acc, guarded, promoted, served)) ↦
            guarded-Contained e acc w _ ids guarded served
      ]

  missing-Contained :
      (g : Group) (answer : Response) (w : World)
      → Contained w (grouped o g (λ _. pure answer) r w).1
  unfolding grouped
  missing-Contained Group.public answer w = inl refl
  missing-Contained Group.session answer w =
      elim (require_auth-Guards o.env o.crypto r (λ _. pure answer) w) [
        | inl refused ↦ refused-Contained _ w _ refused
        | inr (acc, guarded, served) ↦ refused-Contained _ w _ served
      ]
  missing-Contained Group.admin answer w =
      elim (admin_only_guards o.env o.crypto r (λ _. pure answer) w) [
        | inl refused ↦ refused-Contained _ w _ refused
        | inr (inl forbidden) ↦ refused-Contained _ w _ forbidden
        | inr (inr (acc, guarded, promoted, served)) ↦ refused-Contained _ w _ served
      ]

  dispatch-Contained :
      (m : Matched) (w : World)
      → HasMessageIds w.db.messages
      → Contained w (dispatch o days q m r w).1
  unfolding dispatch serve_route
  dispatch-Contained (Matched.at n) w ids = elim (Option-cases (nth n routes)) [
    | inl beyond ↦ rw beyond (inl refl)
    | inr (t, e) ↦ rw e (
        grouped-Contained t.group t.endpoint w
          (nth-all (λ s. well_grouped s.group s.endpoint) n routes t routes-well_grouped e) ids)
  ]
  dispatch-Contained (Matched.missing g status) w ids = missing-Contained g (respond status empty) w

  -- Where the database answers every call and the ids of the messages are distinct, a request changes
  -- messages only of the account that VerifyToken gives for its token, whatever route it meets: all
  -- messages are as they were, or there is such an account and the messages of the other accounts are
  -- as they were.
  pub serve-Contained :
      (m : Matched) (w : World) → HasMessageIds w.db.messages → Contained w (serve o days q m r w).1
  unfolding serve cors
  serve-Contained m w ids = elim (Bool-cases (text_eq r.method (codes "OPTIONS"))) [
    | inl preflight ↦ rw preflight (inl refl)
    | inr other ↦ rw other (dispatch-Contained m w ids)
  ]
