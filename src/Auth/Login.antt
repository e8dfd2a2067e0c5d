-- ===== src/Auth/Login.antt =====
-- internal/auth/service.go, Login: when it succeeds, and what it leaves.
use mathlib.Core.Path.{subst}
use skybeam_mail.Prelude.{
  ℕ, ◌+◌, ◌≡◌, refl, sym, ◌∙◌, ap, true, Option, none, some, [], ◌∷◌, arith, Text, Bool-cases, inl,
  inr,
}
use skybeam_mail.Prelude.Int.{ℤ}
use skybeam_mail.Store.Rows.{Store, AccountRow}
use skybeam_mail.Store.Table.{find}
use skybeam_mail.Store.World.{Env, World, exec, query, time_now}
use skybeam_mail.Store.World.Answers.{exec-ok, query-some, query-world}
use skybeam_mail.Auth.{
  Account, account_of, Crypto, hash_token, generate_token, expiry, logged_in, invalid_credentials,
  login_failed, insert_session, is_active_email, store_session, check_password, login,
}

-- What a login that succeeds at time `t` has checked and done.
pub record IsLogin (c : Crypto) (ttl : ℤ) (email password token : Text) (acc : Account) (t : ℕ)
    (before after : Store) : Type 0 where
  pub row : AccountRow
  pub found : find (is_active_email email) before.accounts ≡ some row
  pub matches : c.bcrypt_matches row.password_hash password ≡ true
  pub account : acc ≡ account_of row
  pub drawn : generate_token c ≡ some token
  pub stored : insert_session acc.id (hash_token c token) (expiry t ttl) t before ≡ some after

module _ (env : Env) (c : Crypto) (ttl : ℤ) (email password token : Text) (acc : Account) where
  stored_session :
      (a : Account) (drawn : Option Text) (w : World)
      → (store_session env c ttl a drawn w).0 ≡ logged_in token acc
      → (drawn ≡ some token)
        × (acc ≡ a)
        × (insert_session a.id
              (hash_token c token)
              (expiry (env.tick w.calls).now ttl)
              (env.tick w.calls).now
              w.db
            ≡ some (store_session env c ttl a drawn w).1.db)
  unfolding store_session time_now
  stored_session a none w e = cc
  stored_session a (some t) w e =
      let st = insert_session a.id (hash_token c t) (expiry (env.tick w.calls).now ttl) in
      elim (Bool-cases (exec env st w).0) [
        | inl err ↦ let bad : login_failed ≡ logged_in token acc = rw err at e in cc
        | inr done ↦
            let good : logged_in t a ≡ logged_in token acc = rw done at e in
            let same : t ≡ token = ground arith in
            (ap some same, ground arith, rw (← same) (exec-ok env st w done))
      ]

  checked :
      (row : Option (Option AccountRow)) (w : World)
      → ((b : Option AccountRow) → row ≡ some b → b ≡ find (is_active_email email) w.db.accounts)
      → (check_password env c ttl password row w).0 ≡ logged_in token acc
      → IsLogin c ttl email password token acc
          (env.tick w.calls).now
          w.db
          (check_password env c ttl password row w).1.db
  unfolding check_password
  checked none w r e = cc
  checked (some none) w r e = cc
  checked (some (some a)) w r e = elim (Bool-cases (c.bcrypt_matches a.password_hash password)) [
    | inl good ↦
        let h = stored_session (account_of a) (generate_token c) w (rw good at e) in
        record {
          row = a;
          found = sym (r (some a) refl);
          matches = good;
          account = h.1;
          drawn = h.0;
          stored = rw good (rw h.1 h.2);
        }
    | inr bad ↦ let wrong : invalid_credentials ≡ logged_in token acc = rw bad at e in cc
  ]

  -- A login succeeds only for an active account with this very email address whose stored hash
  -- matches the password; the token is the random bytes in hex; and the session is then stored, under
  -- the token's hash, with the expiry at the time of the login plus the lifetime, in whole microseconds.
  pub login-IsLogin :
      (w : World)
      → (login env c ttl email password w).0 ≡ logged_in token acc
      → IsLogin c ttl email password token acc
          (env.tick (w.calls + 1)).now
          w.db
          (login env c ttl email password w).1.db
  unfolding login
  login-IsLogin w e =
      let read = λ (db : Store). find (is_active_email email) db.accounts in
      let q = query env (email ∷ []) read w in
      let same = query-world env (email ∷ []) read w in
      subst
        (λ u.
          IsLogin c ttl email password token acc (env.tick u.calls).now u.db
            (check_password env c ttl password q.0 q.1).1.db)
        same
        (checked q.0 q.1
          (λ b h. query-some env (email ∷ []) read w b h ∙ ap read (sym (ap (λ u. u.db) same))) e)
