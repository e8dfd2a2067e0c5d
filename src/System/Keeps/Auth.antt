-- ===== src/System/Keeps/Auth.antt =====
-- internal/auth/service.go: what every statement keeps, the service keeps.
use skybeam_mail.Prelude.{
  ℕ, refl, true, Text, Option, ◌≡◌, Option, none, some, [], ◌∷◌, Text, arith, Option-cases, inl,
  inr,
}
use skybeam_mail.Prelude.Int.{ℤ}
use skybeam_mail.Store.Rows.{Store, AccountRow}
use skybeam_mail.Store.Table.{find}
use skybeam_mail.Store.World.{Env, query, time_now}
use skybeam_mail.Auth.{
  Account, account_of, Crypto, generate_token, hash_token, expiry, is_active_email, session_account,
  store_session, check_password, login, logout, check_expiry, verify_token, create_admin,
}
use skybeam_mail.System.{
  Watched, login_leaves, Statement, executed, statement_leaves, logout_leaves,
}
use skybeam_mail.System.Keeps.{IsInvariant, Kept, exec-Kept, query-Kept}

module _ (env : Env) (P : Store → Type 0) {watched : Watched} (i : IsInvariant env watched P)
    (c : Crypto) where
  store_session-Kept :
      (ttl : ℤ) (acc : Account) (t : Option Text)
      → login_leaves watched c t ≡ true
      → Kept env P (store_session env c ttl acc t)
  unfolding store_session executed statement_leaves login_leaves time_now
  store_session-Kept ttl acc none l w h = h
  store_session-Kept ttl acc (some t) l w h =
      exec-Kept env P i
        (Statement.session_inserted acc.id (hash_token c t) (expiry (env.tick w.calls).now ttl)) l w
        h

  check_password-Kept :
      (ttl : ℤ) (password : Text) (row : Option (Option AccountRow))
      → login_leaves watched c (generate_token c) ≡ true
      → Kept env P (check_password env c ttl password row)
  unfolding check_password
  check_password-Kept ttl password none l w h = h
  check_password-Kept ttl password (some none) l w h = h
  check_password-Kept ttl password (some (some r)) l w h =
      ground (arith, store_session-Kept ttl (account_of r) (generate_token c) l w h)

  pub login-Kept :
      (ttl : ℤ) (email password : Text)
      → login_leaves watched c (generate_token c) ≡ true
      → Kept env P (login env c ttl email password)
  unfolding login
  login-Kept ttl email password l w h =
      let read = λ (db : Store). find (is_active_email email) db.accounts in
      let (row, v) = query env (email ∷ []) read w in
      check_password-Kept ttl password row l v (query-Kept env P (email ∷ []) read w h)

  pub logout-Kept :
      (t : Text) → logout_leaves watched c (some t) ≡ true → Kept env P (logout env c t)
  unfolding logout executed statement_leaves logout_leaves
  logout-Kept t leaves = exec-Kept env P i (Statement.session_deleted (hash_token c t)) leaves

  check_expiry-Kept :
      (hash : Text) (now : ℕ) (row : Option (Option (AccountRow × ℕ)))
      → Kept env P (check_expiry env c hash now row)
  unfolding check_expiry executed statement_leaves
  check_expiry-Kept hash now none w h = h
  check_expiry-Kept hash now (some none) w h = h
  check_expiry-Kept hash now (some (some (a, expires))) w h =
      ground (arith, exec-Kept env P i (Statement.session_touched hash now) refl w h)

  pub verify_token-Kept : (t : Text) → Kept env P (verify_token env c t)
  unfolding verify_token time_now
  verify_token-Kept t w h =
      let hash = hash_token c t in
      let (row, v) = query env (hash ∷ []) (session_account hash) w in
      check_expiry-Kept hash (env.tick w.calls).now row v
        (query-Kept env P (hash ∷ []) (session_account hash) w h)

  pub create_admin-Kept : (email password : Text) → Kept env P (create_admin env c email password)
  unfolding create_admin executed statement_leaves
  create_admin-Kept email password w h = elim (Option-cases (c.bcrypt_hash password)) [
    | inl e ↦ ground arith
    | inr (hash, e) ↦
        ground (arith, exec-Kept env P i (Statement.admin_upserted email hash) refl w h)
  ]
