-- ===== src/Auth/Succeeds.antt =====
-- internal/auth/service.go, Login: when it succeeds.
use skybeam_mail.Prelude.{
  ℕ, ◌+◌, ◌≡◌, refl, true, false, none, some, List, [], ◌∷◌, ◌++◌, any, Text, text_eq,
}
use skybeam_mail.Prelude.Int.{ℤ}
use skybeam_mail.Store.Rows.{Store, AccountRow, SessionRow}
use skybeam_mail.Store.Table.{find}
use skybeam_mail.Store.World.{Env, World, IsCalm, settle, time_now}
use skybeam_mail.Store.World.Calm.{query-some, exec-some}
use skybeam_mail.Auth.{
  Crypto, logged_in, account_of, hex, hash_token, generate_token, expiry, is_active_email,
  insert_session, store_session, check_password, login,
}

token_drawn :
    (c : Crypto) (bytes : List ℕ) → c.random ≡ some bytes → generate_token c ≡ some (hex bytes)
unfolding generate_token
token_drawn c bytes e = rw e refl

-- Where every call is answered and PostgreSQL takes the email, a login for an active account with the
-- email and a matching password succeeds, with the token of the random bytes, unless the token is one
-- that is in use.
pub login_succeeds :
    (env : Env) (c : Crypto) (ttl : ℤ) (email password : Text) (r : AccountRow) (bytes : List ℕ)
    (w : World)
    → IsCalm env
    → env.text_ok email ≡ true
    → find (is_active_email email) w.db.accounts ≡ some r
    → c.bcrypt_matches r.password_hash password ≡ true
    → c.random ≡ some bytes
    → any (λ s. text_eq s.token_hash (hash_token c (hex bytes))) w.db.sessions ≡ false
    → (login env c ttl email password w).0 ≡ logged_in (hex bytes) (account_of r)
unfolding login check_password store_session insert_session time_now
login_succeeds env c ttl email password r bytes w calm takes found matches drawn fresh =
    let looked =
      query-some env calm (email ∷ []) (λ db. find (is_active_email email) db.accounts) w
        (rw takes refl) in
    let v = settle w.db w in
    let hash = hash_token c (hex bytes) in
    let expires = expiry (env.tick v.calls).now ttl in
    let row : SessionRow = record {
      account_id = (account_of r).id;
      token_hash = hash;
      expires_at = expires;
      last_seen = none;
    } in
    let db' : Store = record w.db {
      sessions = w.db.sessions ++ row ∷ [];
      next_id = w.db.next_id + 1;
    } in
    let made =
      exec-some env calm (insert_session (account_of r).id hash expires) v db' (rw fresh refl) in
    rw (looked, found, matches, token_drawn c bytes drawn, made) refl
