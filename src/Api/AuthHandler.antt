-- ===== src/Api/AuthHandler.antt =====
-- internal/api/handlers/auth.go. The request body is what `decode` gives, none for an error.
pub mod Headers
pub mod Emails
use skybeam_mail.Prelude.{
  is_empty, ℕ, ◌+◌, Bool, true, false, ◌&&◌, ◌||◌, Option, none, some, List, [], ◌∷◌, map, all,
  if◌then◌else◌, ltb, leb, Text, trim_space,
}
use skybeam_mail.Prelude.Int.{ℤ}
use skybeam_mail.Store.World.{Env, M, pure, ◌>>=◌}
use skybeam_mail.Auth.{Account, Crypto, LoginResult, logged_in, login, logout}
use skybeam_mail.Api.Response.{Response, respond, respond_error, no_content, Code, account, token}
use skybeam_mail.Api.Middleware.{Request, Handler, split_space, with_account}

pub record LoginBody : Type 0 where
  pub email : Text
  pub password : Text

-- `strings.ToLower`: ASCII letters one by one; a text with another character goes through the
-- Unicode table, which is a parameter.
unfoldable pub lower_ascii : ℕ → ℕ
lower_ascii c = if leb b'A' c && leb c b'Z' then c + 32 else c

unfoldable pub to_lower : (Text → Text) → Text → Text
unfolding lower_ascii
to_lower unicode_lower s = if all (λ c. ltb c 0x80) s then map lower_ascii s else unicode_lower s

unfoldable pub login_response : LoginResult → Response
login_response (LoginResult.logged_in t acc) = respond 200 (token t acc)
login_response LoginResult.invalid_credentials = respond_error 401 Code.invalid_credentials
login_response LoginResult.login_failed = respond_error 500 Code.server_error

-- `body.Email` after ToLower and TrimSpace.
unfoldable pub login_email : (Text → Text) → LoginBody → Text
login_email unicode_lower b = to_lower unicode_lower (trim_space b.email)

module _ (env : Env) (c : Crypto) (unicode_lower : Text → Text) (ttl : ℤ) where
  -- `AuthHandler.Login`
  unfoldable pub handle_login : Option LoginBody → M Response
  handle_login none = pure (respond_error 400 Code.invalid_body)
  handle_login (some b) =
      if is_empty (login_email unicode_lower b) || is_empty b.password
      then pure (respond_error 400 Code.missing_fields)
      else do
        result ← login env c ttl (login_email unicode_lower b) b.password
        pure (login_response result)

unfoldable pub logout_response : Bool → Response
logout_response err = if err then respond_error 500 Code.server_error else no_content

unfoldable pub logout_of : Env → Crypto → Option Text → M Response
logout_of env c none = pure (respond_error 400 Code.invalid_token)
logout_of env c (some rest) = do err ← logout env c rest; pure (logout_response err)

-- `AuthHandler.Logout`: the token is the second part of the header, as it stands.
unfoldable pub handle_logout : Env → Crypto → Handler
handle_logout env c r = logout_of env c (split_space r.authorization).1

-- `AuthHandler.Me`
unfoldable pub handle_me : Handler
handle_me = with_account (λ acc. pure (respond 200 (account acc)))
