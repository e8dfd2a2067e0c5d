-- ===== src/Api/Middleware/Guards.antt =====
-- internal/api/middleware: what a handler behind RequireAuth and AdminOnly can rely on.
use mathlib.Core.Path.{subst}
use skybeam_mail.Prelude.{
  ◌≡◌, ◌⊎◌, refl, sym, ◌∙◌, inl, inr, true, Option, none, some, Text, Option-cases, Bool-cases,
}
use skybeam_mail.Store.World.{Env, World}
use skybeam_mail.Auth.{Account, Crypto, VerifyResult, verified, verify_token}
use skybeam_mail.Api.Response.{Response, respond_error, Code}
use skybeam_mail.Api.Middleware.{
  Request, Handler, bearer_token, respond_unauthorized, admit, check_token, require_auth,
  with_account, with_account_of, admin_only,
}

-- The token of a request and the account that VerifyToken gives for it.
pub record IsGuarded (env : Env) (c : Crypto) (r : Request) (w : World) (account : Account)
    : Type 0 where
  pub token : Text
  pub carried : bearer_token r.authorization ≡ some token
  pub genuine : (verify_token env c token w).0 ≡ verified account

-- The world once a token has been checked.
abbrev pub after_check : Env → Crypto → Option Text → World → World
after_check env c none w = w
after_check env c (some token) w = (verify_token env c token w).1

module _ (env : Env) (c : Crypto) (r : Request) where
  -- How a request that RequireAuth guards ends: with 401, or as the handler does.
  abbrev pub Guards : Handler → World → Response × World → Type 0
  Guards next w out =
      (out ≡ (respond_unauthorized, after_check env c (bearer_token r.authorization) w))
      ⊎ ((acc : Account) × IsGuarded env c r w acc
          × (out
              ≡ next (record r { account = some acc })
                  (after_check env c (bearer_token r.authorization) w)))

  admit_cases :
      (next : Handler) (token : Text) (result : VerifyResult) (w v : World)
      → bearer_token r.authorization ≡ some token
      → (verify_token env c token w).0 ≡ result
      → (admit env c next r result v ≡ (respond_unauthorized, v))
        ⊎ ((acc : Account) × IsGuarded env c r w acc
            × (admit env c next r result v ≡ next (record r { account = some acc }) v))
  unfolding admit
  admit_cases next token (VerifyResult.verified acc) w v e h =
      inr (acc, record { token = token; carried = e; genuine = h }, refl)
  admit_cases next token VerifyResult.unauthorized w v e h = inl refl
  admit_cases next token VerifyResult.expired w v e h = inl refl
  admit_cases next token VerifyResult.verify_failed w v e h = inl refl

  -- Behind RequireAuth a handler runs only where the request carries a bearer token and VerifyToken
  -- gives an account for it, and with that account in its context; else the response is 401.
  pub require_auth-Guards :
      (next : Handler) (w : World) → Guards next w (require_auth env c next r w)
  unfolding require_auth check_token
  require_auth-Guards next w = elim (Option-cases (bearer_token r.authorization)) [
    | inl missing ↦ inl (rw missing refl)
    | inr (token, found) ↦
        subst
          (λ t.
            (check_token env c next r t w ≡ (respond_unauthorized, after_check env c t w))
            ⊎ ((acc : Account) × IsGuarded env c r w acc
                × (check_token env c next r t w
                    ≡ next (record r { account = some acc }) (after_check env c t w))))
          (sym found)
          (admit_cases next token (verify_token env c token w).0 w (verify_token env c token w).1
            found refl)
  ]

  -- Behind RequireAuth and AdminOnly, as the admin routes are, a handler runs only for the account of
  -- a genuine token, and only if that account is an administrator's; else the response is 401 or 403,
  -- and the database is as checking the token leaves it.
  pub admin_only_guards :
      (next : Handler) (w : World)
      → let v = after_check env c (bearer_token r.authorization) w in
        let out = require_auth env c (admin_only next) r w in
        (out ≡ (respond_unauthorized, v))
        ⊎ (out ≡ (respond_error 403 Code.forbidden, v))
        ⊎ ((acc : Account) × IsGuarded env c r w acc
            × (acc.is_admin ≡ true)
            × (out ≡ next (record r { account = some acc }) v))
  unfolding admin_only with_account with_account_of
  admin_only_guards next w = elim (require_auth-Guards (admin_only next) w) [
    | inl refused ↦ inl refused
    | inr (acc, g, e) ↦ elim (Bool-cases acc.is_admin) [
      | inl admin ↦ inr (inr (acc, g, admin, e ∙ rw admin refl))
      | inr other ↦ inr (inl (e ∙ rw other refl))
    ]
  ]
