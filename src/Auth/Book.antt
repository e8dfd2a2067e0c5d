-- ===== src/Auth/Book.antt =====
-- internal/auth/service.go: what Login, Logout and VerifyToken promise, as a book of sessions. A book
-- gives an account and an expiry for the hash of a token, and forgets the table: its rows, their order,
-- last_seen and the ids. The accounts stay as they are.
pub mod Rows
pub mod Steps
pub mod Refines
mod Tests
use skybeam_mail.Prelude.{
  ℕ, ◌+◌, Bool, true, false, not, Option, none, some, List, [], ◌∷◌, if◌then◌else◌, ◌==◌, ◌&&◌, ltb,
  Text, text_eq,
}
use skybeam_mail.Prelude.Int.{ℤ}
use skybeam_mail.Store.Rows.{Store, AccountRow, SessionRow}
use skybeam_mail.Store.Table.{find}
use skybeam_mail.Store.World.{Env, World, M, pure, ◌>>=◌}
use skybeam_mail.Auth.{
  Account, account_of, Crypto, hash_token, generate_token, expiry, is_active_email, LoginResult,
  logged_in, invalid_credentials, login_failed, login, logout, VerifyResult, verified, unauthorized,
  expired, verify_failed, verify_token,
}

abbrev pub Book : Type 0
Book = Text → Option (ℕ × ℕ)

unfoldable pub enter : Text → ℕ → ℕ → Book → Book
enter hash account expires book h = if text_eq h hash then some (account, expires) else book h

unfoldable pub strike : Text → Book → Book
strike hash book h = if text_eq h hash then none else book h

-- The book that the table of sessions stands for.
abbrev pub entry_of : Option SessionRow → Option (ℕ × ℕ)
entry_of none = none
entry_of (some s) = some (s.account_id, s.expires_at)

abbrev pub book_of : List SessionRow → Book
book_of sessions h = entry_of (find (λ s. text_eq s.token_hash h) sessions)

-- A call of the service, with the random bytes that a login draws.
pub data Call : Type 0 where
  log_in : Option (List ℕ) → Text → Text → Call
  log_out : Text → Call
  verify : Text → Call

pub data Outcome : Type 0 where
  login_result : LoginResult → Outcome
  logout_error : Bool → Outcome
  verify_result : VerifyResult → Outcome

-- The promise of Login at a time, by the account that has the email.
module _ (c : Crypto) (ttl : ℤ) (t : ℕ) where
  unfoldable pub entered : Account → Option Text → Book → LoginResult × Book
  entered acc none book = (login_failed, book)
  entered acc (some token) book = elim (book (hash_token c token)) [
    | some entry ↦ (login_failed, book)
    | none ↦ (logged_in token acc, enter (hash_token c token) acc.id (expiry t ttl) book)
  ]

  unfoldable pub promised_login : Text → Option AccountRow → Book → LoginResult × Book
  promised_login password none book = (invalid_credentials, book)
  promised_login password (some r) book =
      if c.bcrypt_matches r.password_hash password
      then entered (account_of r) (generate_token c) book
      else (invalid_credentials, book)

-- The promise of each call, at a time and over the accounts.
module _ (text_ok : Text → Bool) (c : Crypto) (ttl : ℤ) (accounts : List AccountRow) (t : ℕ) where
  unfoldable pub promised_account : ℕ → Option AccountRow → VerifyResult
  promised_account expires none = unauthorized
  promised_account expires (some a) = if ltb expires t then expired else verified (account_of a)

  unfoldable pub promised_verify : Option (ℕ × ℕ) → VerifyResult
  promised_verify none = unauthorized
  promised_verify (some (account, expires)) =
      promised_account expires (find (λ a. a.id == account && a.is_active) accounts)

  unfoldable pub promised : Call → Book → Outcome × Book
  promised (Call.log_in drawn email password) book =
      let (result, after) =
        promised_login (record c { random = drawn }) ttl t password
          (find (is_active_email email) accounts) book in
      if text_ok email
      then (Outcome.login_result result, after)
      else (Outcome.login_result login_failed, book)
  promised (Call.log_out token) book =
      (Outcome.logout_error false, strike (hash_token c token) book)
  promised (Call.verify token) book = (
    Outcome.verify_result (
        if text_ok (hash_token c token)
        then promised_verify (book (hash_token c token))
        else verify_failed),
    book,
  )

-- The calls of the service.
module _ (env : Env) (c : Crypto) (ttl : ℤ) where
  unfoldable pub call : Call → M Outcome
  call (Call.log_in drawn email password) = do
    result ← login env (record c { random = drawn }) ttl email password
    pure (Outcome.login_result result)
  call (Call.log_out token) = do err ← logout env c token; pure (Outcome.logout_error err)
  call (Call.verify token) = do
    result ← verify_token env c token
    pure (Outcome.verify_result result)

  unfoldable pub calls : List Call → M (List Outcome)
  calls [] = pure []
  calls (x ∷ xs) = do outcome ← call x; outcomes ← calls xs; pure (outcome ∷ outcomes)

  -- The time that a call reads: VerifyToken before its query, Login behind it.
  unfoldable pub time_of : Call → World → ℕ
  time_of (Call.log_in drawn email password) w = (env.tick (w.calls + 1)).now
  time_of (Call.log_out token) w = (env.tick w.calls).now
  time_of (Call.verify token) w = (env.tick w.calls).now

  -- The promises of the calls in turn, each at the time that it reads.
  unfoldable pub promises : List AccountRow → List Call → World → Book → List Outcome × Book
  promises accounts [] w book = ([], book)
  promises accounts (x ∷ xs) w book =
      let (outcome, after) = promised env.text_ok c ttl accounts (time_of x w) x book in
      let (outcomes, final) = promises accounts xs (call x w).1 after in (outcome ∷ outcomes, final)
