-- ===== src/Api/AuthHandler/Headers.antt =====
-- internal/api/handlers/auth.go, Logout: the token that RequireAuth checks, and the one deleted.
use skybeam_mail.Prelude.{
  ℕ, ◌≡◌, ◌≢◌, refl, ◌∙◌, true, some, arith, Text, text_eq, text_eq_iff, trim_space,
}
use skybeam_mail.Store.Rows.{Store}
use skybeam_mail.Store.Table.Laws.{find-delete_other}
use skybeam_mail.Store.World.{Env, World, IsCalm}
use skybeam_mail.Store.World.Keeps.{Keeps, Keeps-exec}
use skybeam_mail.Auth.{
  Crypto, hash_token, delete_session, logout, session_account, verify_token, unauthorized,
}
use skybeam_mail.Auth.Sessions.{verify-logout}
use skybeam_mail.Api.Middleware.{Request, split_space, bearer_token, is_bearer}
use skybeam_mail.Api.AuthHandler.{logout_of, handle_logout}

-- Deleting the session of one hash leaves that of another.
delete_other :
    (hash other : Text) (now : ℕ) (db db' : Store)
    → hash ≢ other
    → delete_session hash now db ≡ some db'
    → session_account other db' ≡ session_account other db
unfolding delete_session session_account
delete_other hash other now db db' distinct e =
    let same =
      find-delete_other (λ s. text_eq s.token_hash hash) (λ s. text_eq s.token_hash other)
        db.sessions
        (λ s h.
          ground
            (arith, text_eq_iff s.token_hash hash, text_eq_iff s.token_hash other, distinct)) in
    ground (arith, same)

module _ (env : Env) (c : Crypto) (r : Request) (scheme rest : Text)
    (header : split_space r.authorization ≡ (scheme, some rest)) where
  -- Where the token stands in the header without white space round it, a logout whose call is
  -- answered ends its session: RequireAuth finds the same token there, and VerifyToken then refuses
  -- it.
  pub logout_ends_session :
      IsCalm env
      → env.text_ok (hash_token c rest) ≡ true
      → is_bearer scheme ≡ true
      → trim_space rest ≡ rest
      → (w : World)
      → (bearer_token r.authorization ≡ some rest)
        × ((verify_token env c rest (handle_logout env c r w).1).0 ≡ unauthorized)
  unfolding handle_logout logout_of bearer_token
  logout_ends_session calm takes bearer trimmed w =
      (rw (header, bearer, trimmed) refl, rw header (verify-logout env calm c rest takes w))

  session_kept :
      (rows : Store)
      → hash_token c rest ≢ hash_token c (trim_space rest)
      → Keeps
          (λ db.
            session_account (hash_token c (trim_space rest)) db
            ≡ session_account (hash_token c (trim_space rest)) rows)
          (logout env c rest)
  unfolding logout
  session_kept rows distinct =
      Keeps-exec _ env (delete_session (hash_token c rest)) λ now db db' h e.
        delete_other (hash_token c rest) (hash_token c (trim_space rest)) now db db' distinct e ∙ h

  -- RequireAuth trims the token and the logout does not. Where white space stands round the token in
  -- the header, and the two texts have different hashes, RequireAuth checks the trimmed token, and
  -- the logout leaves the session of that token as it was.
  pub logout_keeps_session :
      is_bearer scheme ≡ true
      → hash_token c rest ≢ hash_token c (trim_space rest)
      → (w : World)
      → (bearer_token r.authorization ≡ some (trim_space rest))
        × (session_account (hash_token c (trim_space rest)) (handle_logout env c r w).1.db
            ≡ session_account (hash_token c (trim_space rest)) w.db)
  unfolding handle_logout logout_of bearer_token
  logout_keeps_session bearer distinct w =
      (rw (header, bearer) refl, rw header ((session_kept w.db distinct).at w refl))
