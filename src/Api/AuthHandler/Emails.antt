-- ===== src/Api/AuthHandler/Emails.antt =====
-- internal/api/handlers/auth.go, Login: the email addresses that can log in.
use skybeam_mail.Prelude.{
  is_empty, ◌≡◌, ◌<◌, ◌⊎◌, inl, inr, true, ◌||◌, some, [], ◌∷◌, map, all, arith, Text, text_eq_iff,
  ltb, All, Bool-cases, trim_space,
}
use skybeam_mail.Prelude.Int.{ℤ}
use skybeam_mail.Store.Table.Laws.{find-some}
use skybeam_mail.Store.World.{Env, World}
use skybeam_mail.Auth.{Account, account_of, Crypto, LoginResult, logged_in, login, is_active_email}
use skybeam_mail.Auth.Login.{login-IsLogin}
use skybeam_mail.Api.Response.{respond, respond_error, Code, token}
use skybeam_mail.Api.AuthHandler.{
  LoginBody, lower_ascii, to_lower, login_response, login_email, handle_login,
}

-- No capital ASCII letter.
abbrev pub IsLower : Text → Type 0
IsLower = All (λ c. (c < b'A') ⊎ (b'Z' < c))

map-lower_ascii-IsLower : (s : Text) → IsLower (map lower_ascii s)
unfolding lower_ascii
map-lower_ascii-IsLower [] = tt
map-lower_ascii-IsLower (c ∷ s) = (ground arith, map-lower_ascii-IsLower s)

to_lower-IsLower :
    (unicode : Text → Text) (s : Text)
    → all (λ c. ltb c 0x80) s ≡ true
    → IsLower (to_lower unicode s)
unfolding to_lower
to_lower-IsLower unicode s e = rw e (map-lower_ascii-IsLower s)

response-logged_in :
    (r : LoginResult) (t : Text) (acc : Account)
    → login_response r ≡ respond 200 (token t acc)
    → r ≡ logged_in t acc
unfolding login_response
response-logged_in (LoginResult.logged_in u a) t acc e = cc
response-logged_in LoginResult.invalid_credentials t acc e = cc
response-logged_in LoginResult.login_failed t acc e = cc

module _ (env : Env) (c : Crypto) (unicode : Text → Text) (ttl : ℤ) (b : LoginBody) (t : Text)
    (acc : Account) where
  login_of_response :
      (w : World)
      → (handle_login env c unicode ttl (some b) w).0 ≡ respond 200 (token t acc)
      → (login env c ttl (login_email unicode b) b.password w).0 ≡ logged_in t acc
  unfolding handle_login
  login_of_response w e =
      elim (Bool-cases (is_empty (login_email unicode b) || is_empty b.password)) [
        | inl missing ↦
            let bad : respond_error 400 Code.missing_fields ≡ respond 200 (token t acc) =
              rw missing at e in
            cc
        | inr filled ↦ response-logged_in _ t acc (rw filled at e)
      ]

  -- A login with an ASCII email address that succeeds is one for an account whose stored email has no
  -- capital letter.
  pub handle_login-IsLower :
      (w : World)
      → all (λ u. ltb u 0x80) (trim_space b.email) ≡ true
      → (handle_login env c unicode ttl (some b) w).0 ≡ respond 200 (token t acc)
      → IsLower acc.email
  unfolding account_of login_email
  handle_login-IsLower w ascii e =
      let email = login_email unicode b in
      let h = login-IsLogin env c ttl email b.password t acc w (login_of_response w e) in
      let active = find-some (is_active_email email) w.db.accounts h.row h.found in
      let same : h.row.email ≡ email = ground (arith, text_eq_iff h.row.email email) in
      rw (h.account, same) (to_lower-IsLower unicode (trim_space b.email) ascii)
