-- ===== src/Auth.antt =====
-- internal/auth/service.go: passwords, sessions and tokens.
pub mod Book
pub mod Sessions
pub mod Enters
pub mod Login
pub mod Admins
pub mod Succeeds
pub mod Samples
mod Tests
use skybeam_mail.Prelude.{
  ◌/◌, ◌*◌, ℕ, ◌+◌, ◌*◌, ◌/◌, ◌%◌, ◌-◌, Bool, true, false, ◌&&◌, ◌||◌, not, Option, none, some,
  List, [], ◌∷◌, ◌++◌, any, if◌then◌else◌, ◌==◌, ltb, Text, codes, text_eq,
}
use skybeam_mail.Prelude.Int.{ℤ, pos_part, neg_part, scale64}
use skybeam_mail.Store.Rows.{Store, AccountRow, SessionRow}
use skybeam_mail.Store.Table.{find, update, delete, upsert}
use skybeam_mail.Store.World.{Env, M, pure, ◌>>=◌, ◌>>◌, exec, query, time_now}

-- `Account`
pub record Account : Type 0 where
  pub id : ℕ
  pub email : Text
  pub display_name : Text
  pub dovecot_user : Text
  pub is_admin : Bool

unfoldable pub account_of : AccountRow → Account
account_of r = record {
  id = r.id;
  email = r.email;
  display_name = r.display_name;
  dovecot_user = r.dovecot_user;
  is_admin = r.is_admin;
}

-- What the code takes from elsewhere: bcrypt, SHA-256 and the random bytes of one `rand.Read`.
pub record Crypto : Type 0 where
  pub bcrypt_hash : Text → Option Text
  pub bcrypt_matches : Text → Text → Bool
  pub sha256 : Text → List ℕ
  pub random : Option (List ℕ)

-- `hex.EncodeToString`
unfoldable pub hex_digit : ℕ → ℕ
hex_digit d = if ltb d 10 then b'0' + d else b'a' + (d - 10)

unfoldable pub hex : List ℕ → Text
unfolding hex_digit
hex [] = []
hex (b ∷ bytes) = hex_digit (b / 16) ∷ hex_digit (b % 16) ∷ hex bytes

-- `hashToken`
unfoldable pub hash_token : Crypto → Text → Text
hash_token c token = hex (c.sha256 token)

-- `generateToken`, the token alone: its hash is `hash_token` of it.
unfoldable pub generate_token : Crypto → Option Text
generate_token c = elim c.random [ none ↦ none | some bytes ↦ some (hex bytes) ]

-- `NewService`: `time.Duration(sessionTTLDays) * 24 * time.Hour`, in int64.
unfoldable pub session_ttl : ℤ → ℤ
session_ttl days = scale64 days (24 * 3600 * 1_000_000_000)

-- `t.Add(d)`
unfoldable pub add_time : ℕ → ℤ → ℕ
add_time t d = t + pos_part d - neg_part d

-- The expiry as TIMESTAMPTZ keeps it, in whole microseconds.
unfoldable pub expiry : ℕ → ℤ → ℕ
unfolding add_time
expiry t d = add_time t d / 1_000 * 1_000

pub data LoginResult : Type 0 where
  logged_in : Text → Account → LoginResult
  -- ErrInvalidCredentials
  invalid_credentials : LoginResult
  -- any other error
  login_failed : LoginResult

-- INSERT INTO sessions; token_hash is UNIQUE, and expires_at comes in whole microseconds (expiry).
unfoldable pub insert_session : ℕ → Text → ℕ → ℕ → Store → Option Store
insert_session account_id token_hash expires_at now db =
    let row : SessionRow = record {
      account_id = account_id;
      token_hash = token_hash;
      expires_at = expires_at;
      last_seen = none;
    } in
    if any (λ s. text_eq s.token_hash token_hash) db.sessions
    then none
    else some (record db { sessions = db.sessions ++ row ∷ []; next_id = db.next_id + 1 })

-- DELETE FROM sessions
unfoldable pub delete_session : Text → ℕ → Store → Option Store
delete_session hash now db =
    some (record db { sessions = delete (λ s. text_eq s.token_hash hash) db.sessions })

abbrev pub is_active_email : Text → AccountRow → Bool
is_active_email email r = text_eq r.email email && r.is_active

module _ (env : Env) (c : Crypto) where
  unfoldable pub store_session : ℤ → Account → Option Text → M LoginResult
  store_session ttl acc none = pure login_failed
  store_session ttl acc (some token) = do
    now ← time_now env
    err ← exec env (insert_session acc.id (hash_token c token) (expiry now ttl))
    pure (if err then login_failed else logged_in token acc)

  unfoldable pub check_password : ℤ → Text → Option (Option AccountRow) → M LoginResult
  check_password ttl password none = pure login_failed
  check_password ttl password (some none) = pure invalid_credentials
  check_password ttl password (some (some r)) =
      if c.bcrypt_matches r.password_hash password
      then store_session ttl (account_of r) (generate_token c)
      else pure invalid_credentials

  -- `Login`
  unfoldable pub login : ℤ → Text → Text → M LoginResult
  login ttl email password = do
    row ← query env (email ∷ []) (λ db. find (is_active_email email) db.accounts)
    check_password ttl password row

  -- `Logout`, whether it returned an error.
  unfoldable pub logout : Text → M Bool
  logout token = exec env (delete_session (hash_token c token))

pub data VerifyResult : Type 0 where
  verified : Account → VerifyResult
  unauthorized expired verify_failed : VerifyResult

-- The row of the JOIN, with the session's expires_at.
unfoldable pub account_of_session : List AccountRow → Option SessionRow → Option (AccountRow × ℕ)
account_of_session accounts none = none
account_of_session accounts (some s) =
    elim (find (λ a. a.id == s.account_id && a.is_active) accounts) [
      | none ↦ none
      | some a ↦ some (a, s.expires_at)
    ]

unfoldable pub session_account : Text → Store → Option (AccountRow × ℕ)
session_account hash db =
    account_of_session db.accounts (find (λ s. text_eq s.token_hash hash) db.sessions)

-- UPDATE sessions SET last_seen
unfoldable pub touch_session : Text → ℕ → ℕ → Store → Option Store
touch_session hash seen now db = some (record db {
  sessions =
      update (λ s. text_eq s.token_hash hash) (λ s. record s { last_seen = some seen }) db.sessions;
})

module _ (env : Env) (c : Crypto) where
  unfoldable pub check_expiry : Text → ℕ → Option (Option (AccountRow × ℕ)) → M VerifyResult
  check_expiry hash now none = pure verify_failed
  check_expiry hash now (some none) = pure unauthorized
  check_expiry hash now (some (some (a, expires_at))) =
      if ltb expires_at now
      then pure expired
      else do exec env (touch_session hash now); pure (verified (account_of a))

  -- `VerifyToken`. The goroutine that sets last_seen is run at once: its result is not used.
  unfoldable pub verify_token : Text → M VerifyResult
  verify_token token = do
    now ← time_now env
    row ← query env (hash_token c token ∷ []) (session_account (hash_token c token))
    check_expiry (hash_token c token) now row

-- INSERT INTO accounts … ON CONFLICT (email) DO UPDATE; dovecot_user is UNIQUE too, and PostgreSQL can
-- refuse the text of the email.
unfoldable pub upsert_admin : Env → Text → Text → ℕ → Store → Option Store
upsert_admin env email hash now db =
    let row : AccountRow = record {
      id = db.next_id;
      email = email;
      display_name = codes "Admin";
      dovecot_user = email;
      password_hash = hash;
      is_admin = true;
      is_active = true;
    } in
    let db' = record db {
      accounts =
          upsert (λ a. text_eq a.email email) row
            (λ a. record a { password_hash = hash; is_admin = true }) db.accounts;
      next_id = db.next_id + 1;
    } in
    if not (env.text_ok email)
    then none
    else if any (λ a. text_eq a.email email) db.accounts
    then some db'
    else if any (λ a. text_eq a.dovecot_user email) db.accounts
    then none
    else some db'

-- `CreateAdmin`, whether it returned an error.
unfoldable pub create_admin : Env → Crypto → Text → Text → M Bool
create_admin env c email password = elim (c.bcrypt_hash password) [
  | none ↦ pure true
  | some hash ↦ exec env (upsert_admin env email hash)
]
