-- ===== src/Api/Admin/Accounts.antt =====
-- internal/api/handlers/admin.go, CreateAccount, and internal/api/handlers/auth.go, Login: the account
-- that an administrator creates.
use skybeam_mail.Prelude.{
  is_empty, ℕ, ◌≡◌, refl, true, false, ◌||◌, Option, none, some, List, [], ◌∷◌, ◌++◌, any, Text,
  codes, text_eq, text_eq_refl, arith, Bool-cases, inl, inr,
}
use skybeam_mail.Prelude.Int.{ℤ}
use skybeam_mail.Store.Rows.{Store}
use skybeam_mail.Store.Table.{find}
use skybeam_mail.Store.Table.Laws.{any-weaken, find-append_new}
use skybeam_mail.Store.World.{Env, World, IsCalm, exec}
use skybeam_mail.Store.World.Answers.{exec-ok}
use skybeam_mail.Auth.{Crypto, account_of, hex, hash_token, is_active_email}
use skybeam_mail.Auth.Succeeds.{login_succeeds}
use skybeam_mail.Api.Response.{Response, respond, respond_error, Code, text, token}
use skybeam_mail.Api.AuthHandler.{login_email, login_response, handle_login}
use skybeam_mail.Api.Admin.{
  AccountBody, account_row, insert_account, created_response, create_hashed, handle_create_account,
}

abbrev pub created : Response
created = respond 201 (text (codes "account created"))

-- What a created account leaves.
record IsCreated (env : Env) (c : Crypto) (b : AccountBody) (before after : Store) : Type 0 where
  hash : Text
  hashed : c.bcrypt_hash b.password ≡ some hash
  takes : env.text_ok b.email ≡ true
  unused :
      any (λ a. text_eq a.email b.email || text_eq a.dovecot_user b.email) before.accounts ≡ false
  accounts : after.accounts ≡ before.accounts ++ account_row b hash before.next_id ∷ []
  sessions : after.sessions ≡ before.sessions
  filled : is_empty b.email || is_empty b.password ≡ false

insert_account-IsCreated :
    (env : Env) (b : AccountBody) (hash : Text) (now : ℕ) (db db' : Store)
    → insert_account env b hash now db ≡ some db'
    → (env.text_ok b.email ≡ true)
      × (any (λ a. text_eq a.email b.email || text_eq a.dovecot_user b.email) db.accounts ≡ false)
      × (db'.accounts ≡ db.accounts ++ account_row b hash db.next_id ∷ [])
      × (db'.sessions ≡ db.sessions)
unfolding insert_account
insert_account-IsCreated env b hash now db db' e =
    (ground arith, ground arith, ground arith, ground arith)

module _ (env : Env) (c : Crypto) (b : AccountBody) (w : World) where
  create_hashed-IsCreated :
      (hash : Option Text)
      → (create_hashed env b hash w).0 ≡ created
      → (h : Text) × (hash ≡ some h)
        × (insert_account env b h (env.tick w.calls).now w.db
            ≡ some (create_hashed env b hash w).1.db)
  unfolding create_hashed created_response
  create_hashed-IsCreated none e = cc
  create_hashed-IsCreated (some h) e = elim (Bool-cases (exec env (insert_account env b h) w).0) [
    | inl err ↦ let bad : respond_error 500 Code.db_error ≡ created = rw err at e in cc
    | inr done ↦ (h, refl, exec-ok env (insert_account env b h) w done)
  ]

  handle_create_account-IsCreated :
      (handle_create_account env c (some b) w).0 ≡ created
      → IsCreated env c b w.db (handle_create_account env c (some b) w).1.db
  unfolding handle_create_account
  handle_create_account-IsCreated e = elim (Bool-cases (is_empty b.email || is_empty b.password)) [
    | inl lacking ↦ let bad : respond_error 400 Code.invalid_body ≡ created = rw lacking at e in cc
    | inr filled ↦
        let (h, hashed, made) =
          create_hashed-IsCreated (c.bcrypt_hash b.password) (rw filled at e) in
        let (takes, unused, accounts, sessions) = insert_account-IsCreated env b h _ w.db _ made in
        record {
          hash = h;
          hashed = hashed;
          takes = takes;
          unused = unused;
          accounts = rw filled accounts;
          sessions = rw filled sessions;
          filled = filled;
        }
  ]

-- An account that CreateAccount has answered 201 for can log in at once: where every call is answered,
-- bcrypt matches a password with its own hash, the email is one that Login leaves as it is (lower case
-- and trimmed), and the random bytes are not those of a token in use, Login answers 200 with the token
-- of the bytes and the account's new row.
pub handle_create_account-login :
    (env : Env) (c : Crypto) (unicode : Text → Text) (ttl : ℤ) (b : AccountBody) (bytes : List ℕ)
    (w : World)
    → IsCalm env
    → ((p h : Text) → c.bcrypt_hash p ≡ some h → c.bcrypt_matches h p ≡ true)
    → c.random ≡ some bytes
    → login_email unicode (record { email = b.email; password = b.password }) ≡ b.email
    → any (λ s. text_eq s.token_hash (hash_token c (hex bytes))) w.db.sessions ≡ false
    → (handle_create_account env c (some b) w).0 ≡ created
    → (hash : Text) × (c.bcrypt_hash b.password ≡ some hash)
      × ((handle_login env c unicode ttl
            (some (record { email = b.email; password = b.password }))
            (handle_create_account env c (some b) w).1).0
          ≡ respond 200 (token (hex bytes) (account_of (account_row b hash w.db.next_id))))
unfolding handle_login login_response
handle_create_account-login env c unicode ttl b bytes w calm matches drawn plain fresh e =
    let v = (handle_create_account env c (some b) w).1 in
    let made = handle_create_account-IsCreated env c b w e in
    let row = account_row b made.hash w.db.next_id in
    let absent =
      any-weaken (is_active_email b.email)
        (λ a. text_eq a.email b.email || text_eq a.dovecot_user b.email) w.db.accounts
        (λ a p. ground arith) made.unused in
    let found : find (is_active_email b.email) v.db.accounts ≡ some row = rw made.accounts (
      find-append_new (is_active_email b.email) w.db.accounts row absent
        (unfold account_row in rw (text_eq_refl b.email) refl)) in
    let entered =
      login_succeeds env c ttl b.email b.password row bytes v calm made.takes found
        (unfold account_row in matches b.password made.hash made.hashed) drawn
        (rw made.sessions fresh) in
    (made.hash, made.hashed, rw (plain, made.filled, entered) refl)
