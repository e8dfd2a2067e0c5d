-- ===== src/Api/Middleware.antt =====
-- internal/api/middleware: RequireAuth, AdminOnly, CORS, and AccountFromContext.
pub mod Guards
use skybeam_mail.Prelude.{
  ℕ, ◌+◌, ◌-◌, Bool, true, false, ◌&&◌, ◌||◌, not, Option, none, some, List, [], ◌∷◌, ◌++◌, map,
  if◌then◌else◌, ◌==◌, leb, Text, codes, text_eq, trim_space,
}
use skybeam_mail.Store.World.{Env, M, pure, ◌>>=◌}
use skybeam_mail.Auth.{Account, Crypto, VerifyResult, verified, verify_token}
use skybeam_mail.Api.Response.{Response, respond, respond_error, panic, Code, empty}

-- The part of a request that the middleware reads: the method, the Authorization header (empty if
-- there is none), and the account in its context.
pub record Request : Type 0 where
  pub method : Text
  pub authorization : Text
  pub account : Option Account

abbrev pub Handler : Type 0
Handler = Request → M Response

-- `strings.SplitN(s, " ", 2)`: what stands before the first space, and what stands behind it, if
-- there is a space.
unfoldable pub split_space : Text → Text × Option Text
split_space [] = ([], none)
split_space (c ∷ s) =
    let (before, behind) = split_space s in if c == 32 then ([], some s) else (c ∷ before, behind)

-- The simple folding of `strings.EqualFold` for the letters of an ASCII word: besides the two cases,
-- the Kelvin sign folds to k and the long s to s.
unfoldable pub fold : ℕ → ℕ
fold c =
    if leb b'A' c && leb c b'Z'
    then c + 32
    else if c == 0x212a
    then b'k'
    else if c == 0x17f
    then b's'
    else c

-- `strings.EqualFold(s, "bearer")`
unfoldable pub is_bearer : Text → Bool
unfolding fold
is_bearer s = text_eq (map fold s) (codes "bearer")

-- `bearerToken`
unfoldable pub bearer_of : Text × Option Text → Option Text
bearer_of (scheme, none) = none
bearer_of (scheme, some token) = if is_bearer scheme then some (trim_space token) else none

unfoldable pub bearer_token : Text → Option Text
unfolding bearer_of
bearer_token h = bearer_of (split_space h)

abbrev pub respond_unauthorized : Response
respond_unauthorized = respond_error 401 Code.unauthorized

module _ (env : Env) (c : Crypto) (next : Handler) (r : Request) where
  unfoldable pub admit : VerifyResult → M Response
  admit (VerifyResult.verified account) = next (record r { account = some account })
  admit VerifyResult.unauthorized = pure respond_unauthorized
  admit VerifyResult.expired = pure respond_unauthorized
  admit VerifyResult.verify_failed = pure respond_unauthorized

  unfoldable pub check_token : Option Text → M Response
  check_token none = pure respond_unauthorized
  check_token (some token) = do result ← verify_token env c token; admit result

-- `RequireAuth`
unfoldable pub require_auth : Env → Crypto → Handler → Handler
require_auth env c next r = check_token env c next r (bearer_token r.authorization)

-- A handler that begins with AccountFromContext, which panics where the context holds no account.
unfoldable pub with_account_of : Option Account → (Account → M Response) → M Response
with_account_of none body = pure panic
with_account_of (some acc) body = body acc

unfoldable pub with_account : (Account → M Response) → Handler
with_account body r = with_account_of r.account body

-- `AdminOnly`. Its test for nil comes behind AccountFromContext, which never returns nil.
unfoldable pub admin_only : Handler → Handler
admin_only next r =
    with_account (λ acc. if acc.is_admin then next r else pure (respond_error 403 Code.forbidden)) r

-- `CORS`, less its headers.
unfoldable pub cors : Handler → Handler
cors next r = if text_eq r.method (codes "OPTIONS") then pure (respond 204 empty) else next r
