-- ===== src/Auth/Sessions.antt =====
-- internal/auth/service.go: a session from the login through the checks of its token to the logout.
use skybeam_mail.Prelude.{
  ℕ, ◌+◌, ◌≡◌, refl, ◌∙◌, ap, true, false, ◌&&◌, Option, none, some, List, [], ◌∷◌, ◌++◌, arith,
  any, Text, text_eq, text_eq_refl, Bool-cases, inl, inr, if◌then◌else◌, ltb, ◌==◌, ==-refl,
}
use skybeam_mail.Prelude.Int.{ℤ}
use skybeam_mail.Store.Rows.{Store, AccountRow, SessionRow}
use skybeam_mail.Store.Table.{find, delete}
use skybeam_mail.Store.Table.Distinct.{Distinct, same_number}
use skybeam_mail.Store.Table.Laws.{find-append_new, any_of_find, find-delete}
use skybeam_mail.Store.World.{Env, World, IsCalm, settle, time_now}
use skybeam_mail.Store.World.Calm.{query-some, exec-some}
use skybeam_mail.Auth.{
  Account, account_of, Crypto, hash_token, expiry, insert_session, is_active_email, logged_in,
  login, delete_session, logout, account_of_session, session_account, VerifyResult, verified,
  expired, unauthorized, check_expiry, verify_token,
}
use skybeam_mail.Auth.Login.{IsLogin, login-IsLogin}

-- accounts.id is the primary key.
abbrev pub HasIds : List AccountRow → Type 0
HasIds = Distinct (same_number (λ a. a.id))

-- An active account that a test finds is found by its id.
find_by_id :
    (email : Text) (rows : List AccountRow) (r : AccountRow)
    → HasIds rows
    → find (is_active_email email) rows ≡ some r
    → find (λ a. a.id == r.id && a.is_active) rows ≡ some r
unfolding find
find_by_id email [] r h e = cc
find_by_id email (x ∷ rows) r (d, h) e = elim (Bool-cases (is_active_email email x)) [
  | inl hit ↦
      let same : x ≡ r = ground arith in
      let active : r.is_active ≡ true = rw same at (active_of x hit) in
      rw (same, ==-refl r.id, active)
  | inr miss ↦
      let later : find (is_active_email email) rows ≡ some r = rw miss at e in
      elim (Bool-cases (x.id == r.id)) [
        | inl clash ↦
            let listed : any (λ b. b.id == x.id) rows ≡ true =
              any_of_find (is_active_email email) (λ b. b.id == x.id) rows r later (ground arith) in
            cc
        | inr other ↦ rw other (find_by_id email rows r h later)
      ]
]
  where
    active_of : (x : AccountRow) → is_active_email email x ≡ true → x.is_active ≡ true
    active_of x hit = ground arith

-- The session that a login stores, and what is left of the rest.
abbrev pub new_session : ℕ → Text → ℕ → SessionRow
new_session account hash expires = record {
  account_id = account;
  token_hash = hash;
  expires_at = expires;
  last_seen = none;
}

pub insert_session-some :
    (account : ℕ) (hash : Text) (expires now : ℕ) (db db' : Store)
    → insert_session account hash expires now db ≡ some db'
    → (any (λ s. text_eq s.token_hash hash) db.sessions ≡ false)
      × (db'.accounts ≡ db.accounts)
      × (db'.sessions ≡ db.sessions ++ new_session account hash expires ∷ [])
unfolding insert_session
insert_session-some account hash expires now db db' e = ground arith

module _ (c : Crypto) (token : Text) (ttl : ℤ) (email password : Text) (acc : Account) where
  pub session_after :
      (t : ℕ) (before after : Store)
      → HasIds before.accounts
      → IsLogin c ttl email password token acc t before after
      → (r : AccountRow) × (session_account (hash_token c token) after ≡ some (r, expiry t ttl))
        × (acc ≡ account_of r)
  unfolding session_account account_of_session account_of
  session_after t before after ids h =
      let hash = hash_token c token in
      let (free, same, more) =
        insert_session-some acc.id hash (expiry t ttl) t before after h.stored in
      let found =
        find-append_new (λ s. text_eq s.token_hash hash) before.sessions
          (new_session acc.id hash (expiry t ttl)) free (text_eq_refl hash) in
      let id : acc.id ≡ h.row.id = ap (λ a. a.id) h.account in
      let row = find_by_id email before.accounts h.row ids h.found in
      (h.row, rw (more, found, same, id, row, account_of_session) refl, h.account)

-- What VerifyToken answers to a token, from the row that its query gives.
unfoldable pub answer : ℕ → Option (AccountRow × ℕ) → VerifyResult
answer now none = unauthorized
answer now (some (a, expires_at)) = if ltb expires_at now then expired else verified (account_of a)

module _ (env : Env) (calm : IsCalm env) (c : Crypto) (token : Text)
    (takes : env.text_ok (hash_token c token) ≡ true) where
  check_expiry-answer :
      (now : ℕ) (row : Option (AccountRow × ℕ)) (w : World)
      → (check_expiry env c (hash_token c token) now (some row) w).0 ≡ answer now row
  unfolding check_expiry answer
  check_expiry-answer now none w = refl
  check_expiry-answer now (some (a, expires_at)) w = ground arith

  pub verify_token-answer :
      (w : World)
      → (verify_token env c token w).0
        ≡ answer (env.tick w.calls).now (session_account (hash_token c token) w.db)
  unfolding verify_token time_now
  verify_token-answer w =
      rw
        (query-some env calm (hash_token c token ∷ []) (session_account (hash_token c token)) w
          (rw takes))
        (check_expiry-answer (env.tick w.calls).now (session_account (hash_token c token) w.db)
          (settle w.db w))

  -- Where every call is answered and PostgreSQL takes the token's hash, VerifyToken refuses a token
  -- after its logout.
  pub verify-logout :
      (w : World) → (verify_token env c token (logout env c token w).1).0 ≡ unauthorized
  unfolding logout delete_session session_account account_of_session answer
  verify-logout w =
      let hash = hash_token c token in
      let db' : Store = record w.db {
        sessions = delete (λ s. text_eq s.token_hash hash) w.db.sessions;
      } in
      let gone = exec-some env calm (delete_session hash) w db' refl in
      rw (
        gone,
        verify_token-answer (settle db' w),
        find-delete (λ s. text_eq s.token_hash hash) w.db.sessions,
      )

  module _ (ttl : ℤ) (email password : Text) (acc : Account) where
    -- After a login that succeeded, the token is good until the expiry and no longer: where every call
    -- is answered, PostgreSQL takes the token's hash, accounts.id is a key and nothing has changed the
    -- database since, VerifyToken gives the account of the login, or ErrSessionExpired once the clock
    -- has passed the time of the login plus the lifetime, in whole microseconds.
    pub verify-login :
        (w v : World)
        → HasIds w.db.accounts
        → (login env c ttl email password w).0 ≡ logged_in token acc
        → v.db ≡ (login env c ttl email password w).1.db
        → (verify_token env c token v).0 ≡ (
            if ltb (expiry (env.tick (w.calls + 1)).now ttl) (env.tick v.calls).now
            then expired
            else verified acc)
    unfolding answer
    verify-login w v ids e same =
        let h = login-IsLogin env c ttl email password token acc w e in
        let (r, found, account) =
          session_after c token ttl email password acc _ w.db
            (login env c ttl email password w).1.db ids h in
        verify_token-answer v
        ∙ ap
            (λ (db : Store).
              answer (env.tick v.calls).now (session_account (hash_token c token) db))
            same
        ∙ ap (answer (env.tick v.calls).now) found
        ∙ rw account refl
