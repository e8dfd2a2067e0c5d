-- ===== src/Cmd/Admin.antt =====
-- cmd/api/main.go, -setup-admin: the administrator that it leaves, and the administrator's login.
use skybeam_mail.Prelude.{
  ℕ, ◌≡◌, refl, ap, ◌∙◌, Bool, true, false, ◌&&◌, not, Bool-cases, inl, inr, Option, none, some,
  List, [], ◌∷◌, any, Text, is_empty, text_eq, text_eq_refl, arith,
}
use skybeam_mail.Prelude.Int.{ℤ}
use skybeam_mail.Store.Rows.{AccountRow}
use skybeam_mail.Store.Table.{find, update, upsert}
use skybeam_mail.Store.Table.Laws.{any-weaken, find-append_new}
use skybeam_mail.Store.World.{Env, World, IsCalm}
use skybeam_mail.Store.World.Calm.{query-some}
use skybeam_mail.Auth.{
  Account, account_of, Crypto, hex, hash_token, is_active_email, create_admin, check_password,
  login, invalid_credentials, logged_in,
}
use skybeam_mail.Auth.Admins.{new_admin, promote, IsUpserted, create_admin-IsUpserted}
use skybeam_mail.Auth.Succeeds.{login_succeeds}
use skybeam_mail.Config.{Environ, Dir, System, Config, Loaded, load}
use skybeam_mail.Cmd.{
  PoolAnswers, Opened, new_pool, Flags, Fatal, Started, set_up, with_pool, with_config, main,
}

abbrev pub has_email : Text → AccountRow → Bool
has_email email a = text_eq a.email email

-- An account with the email that is not active.
abbrev pub is_inactive : Text → AccountRow → Bool
is_inactive email a = text_eq a.email email && not a.is_active

module _ (env : Env) (c : Crypto) (flags : Flags) (w : World) where
  -- A run that ends with the administrator made has called CreateAdmin.
  abbrev Ran : Started × World → Type 0
  Ran out =
      let made = create_admin env c flags.setup_admin flags.password w in
      out.0 ≡ Started.admin_created → (made.0 ≡ false) × (out.1 ≡ made.1)

  set_up-Ran : Ran (set_up env c flags w)
  unfolding set_up
  set_up-Ran e = elim (Bool-cases (is_empty flags.password)) [
    | inl lacking ↦
        let bad : Started.fatal Fatal.no_password ≡ Started.admin_created = rw lacking at e in cc
    | inr given ↦ elim (Bool-cases (create_admin env c flags.setup_admin flags.password w).0) [
      | inl err ↦
          let bad : Started.fatal Fatal.admin_not_created ≡ Started.admin_created =
            rw (given, err) at e in
          cc
      | inr done ↦ (done, rw given refl)
    ]
  ]

  with_pool-Ran : (cfg : Config) (pool : Opened) → Ran (with_pool env c flags cfg pool w)
  unfolding with_pool
  with_pool-Ran cfg Opened.parse_failed e = cc
  with_pool-Ran cfg Opened.create_failed e = cc
  with_pool-Ran cfg Opened.ping_failed e = cc
  with_pool-Ran cfg (Opened.opened limits) e = elim (Bool-cases (is_empty flags.setup_admin)) [
    | inl absent ↦ let bad : Started.serving cfg ≡ Started.admin_created = rw absent at e in cc
    | inr asked ↦ let (done, same) = set_up-Ran (rw asked at e) in (done, rw asked same)
  ]

  with_config-Ran : (answers : PoolAnswers) (l : Loaded) → Ran (with_config env c flags answers l w)
  unfolding with_config
  with_config-Ran answers (Loaded.exits missing) e = cc
  with_config-Ran answers (Loaded.config cfg) e = with_pool-Ran cfg (new_pool answers) e

-- The rows of an email after CreateAdmin.
module _ (email hash : Text) where
  promoted-found :
      (rows : List AccountRow)
      → any (has_email email) rows ≡ true
      → any (is_inactive email) rows ≡ false
      → (r : AccountRow) × (find
            (is_active_email email)
            (update (has_email email) (promote hash) rows)
          ≡ some r)
        × (r.password_hash ≡ hash)
        × (r.is_admin ≡ true)
  unfolding find update
  promoted-found [] there active = cc
  promoted-found (a ∷ rows) there active = elim (Bool-cases (text_eq a.email email)) [
    | inl hit ↦
        let alive : a.is_active ≡ true = ground arith in
        (promote hash a, rw (hit, hit, alive) refl, refl, refl)
    | inr miss ↦
        let (r, found, hashed, admin) =
          promoted-found rows (rw miss at there) (rw miss at active) in
        (r, rw (miss, miss) found, hashed, admin)
  ]

  upserted-found :
      (id : ℕ) (rows : List AccountRow)
      → any (is_inactive email) rows ≡ false
      → (r : AccountRow) × (find
            (is_active_email email)
            (upsert (has_email email) (new_admin id email hash) (promote hash) rows)
          ≡ some r)
        × (r.password_hash ≡ hash)
        × (r.is_admin ≡ true)
  unfolding upsert
  upserted-found id rows active = elim (Bool-cases (any (has_email email) rows)) [
    | inl there ↦
        let (r, found, hashed, admin) = promoted-found rows there active in
        (r, rw there found, hashed, admin)
    | inr absent ↦
        let new = new_admin id email hash in
        let unused =
          any-weaken (is_active_email email) (has_email email) rows (λ a p. ground arith) absent in
        (
          new,
          rw absent (
              find-append_new (is_active_email email) rows new unused
                (rw (text_eq_refl email) refl)),
          refl,
          refl,
        )
  ]

  inactive-lost :
      (rows : List AccountRow)
      → any (is_active_email email) rows ≡ false
      → find (is_active_email email) (update (has_email email) (promote hash) rows) ≡ none
  unfolding find update
  inactive-lost [] h = refl
  inactive-lost (a ∷ rows) h = ground (arith, inactive-lost rows)

module _ (env : Env) (c : Crypto) (flags : Flags) (sys : System) (wd : Option Dir) (own : Environ)
    (answers : PoolAnswers) (w : World) where
  main-IsUpserted :
      (main env c flags sys wd own answers w).0 ≡ Started.admin_created
      → IsUpserted env c flags.setup_admin flags.password w.db
          (main env c flags sys wd own answers w).1.db
  unfolding main
  main-IsUpserted e =
      let (done, same) = with_config-Ran env c flags w answers (load sys wd own) e in
      rw same (create_admin-IsUpserted env c flags.setup_admin flags.password w done)

  -- Once the API has ended with the administrator created, a login with the email and the password of
  -- its flags succeeds, for an administrator: where every call is answered, no inactive account has
  -- the email, bcrypt matches a password with its own hash, and the random bytes of the login are not
  -- those of a token in use.
  pub main-login :
      (ttl : ℤ) (bytes : List ℕ)
      → IsCalm env
      → ((p h : Text) → c.bcrypt_hash p ≡ some h → c.bcrypt_matches h p ≡ true)
      → c.random ≡ some bytes
      → any (λ s. text_eq s.token_hash (hash_token c (hex bytes))) w.db.sessions ≡ false
      → any (is_inactive flags.setup_admin) w.db.accounts ≡ false
      → (main env c flags sys wd own answers w).0 ≡ Started.admin_created
      → (acc : Account) × (acc.is_admin ≡ true)
        × ((login env c ttl flags.setup_admin flags.password
              (main env c flags sys wd own answers w).1).0
            ≡ logged_in (hex bytes) acc)
  main-login ttl bytes calm matches drawn fresh active e =
      let made = main-IsUpserted e in
      let (r, found, hashed, admin) =
        upserted-found flags.setup_admin made.hash w.db.next_id w.db.accounts active in
      (
        account_of r,
        unfold account_of in admin,
        login_succeeds env c ttl flags.setup_admin flags.password r bytes
            (main env c flags sys wd own answers w).1 calm made.takes
            (ap (find (is_active_email flags.setup_admin)) made.accounts ∙ found)
            (ap (λ h. c.bcrypt_matches h flags.password) hashed
              ∙ matches flags.password made.hash made.hashed)
            drawn
            (ap (any (λ s. text_eq s.token_hash (hash_token c (hex bytes)))) made.sessions ∙ fresh),
      )

  -- Where the email is that of inactive accounts alone and every call is answered, a login with the
  -- email is refused for its credentials, whatever the password, although the API has ended with the
  -- administrator created.
  pub main-inactive :
      (ttl : ℤ) (password : Text)
      → IsCalm env
      → any (has_email flags.setup_admin) w.db.accounts ≡ true
      → any (is_active_email flags.setup_admin) w.db.accounts ≡ false
      → (main env c flags sys wd own answers w).0 ≡ Started.admin_created
      → (login env c ttl flags.setup_admin password (main env c flags sys wd own answers w).1).0
        ≡ invalid_credentials
  unfolding login check_password upsert
  main-inactive ttl password calm there dead e =
      let made = main-IsUpserted e in
      let v = (main env c flags sys wd own answers w).1 in
      let email = flags.setup_admin in
      let lost : find (is_active_email email) v.db.accounts ≡ none =
        ap (find (is_active_email email)) made.accounts
        ∙ rw there (inactive-lost email made.hash w.db.accounts dead) in
      let asked =
        query-some env calm (email ∷ []) (λ db. find (is_active_email email) db.accounts) v
          (rw made.takes refl) in
      rw (asked, lost) refl
