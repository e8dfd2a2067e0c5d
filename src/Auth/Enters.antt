-- ===== src/Auth/Enters.antt =====
-- internal/auth/service.go, Login: what a login that succeeds has found and stored, column by column.
use skybeam_mail.Prelude.{
  ℕ, ◌+◌, ◌-◌, ◌*◌, ◌/◌, ◌≡◌, ap, Bool, true, none, some, List, [], ◌∷◌, ◌++◌, arith, Text,
  text_eq_iff, Bool-cases, Option-cases, inl, inr,
}
use skybeam_mail.Prelude.Int.{ℤ, pos_part, neg_part}
use skybeam_mail.Store.Rows.{Store, AccountRow}
use skybeam_mail.Store.Table.{find}
use skybeam_mail.Store.Table.Laws.{find-some}
use skybeam_mail.Store.World.{Env, World}
use skybeam_mail.Auth.{
  Account, account_of, Crypto, hex, hash_token, generate_token, expiry, logged_in, is_active_email,
  login,
}
use skybeam_mail.Auth.Login.{login-IsLogin}
use skybeam_mail.Auth.Sessions.{insert_session-some}

-- What a login that succeeds at time `t` has found and left.
pub record Enters (c : Crypto) (ttl : ℤ) (email password token : Text) (acc : Account) (t : ℕ)
    (before after : Store) : Type 0 where
  pub row : AccountRow
  pub front : List AccountRow
  pub back : List AccountRow
  pub stored : before.accounts ≡ front ++ row ∷ back
  pub named : row.email ≡ email
  pub active : row.is_active ≡ true
  pub matches : c.bcrypt_matches row.password_hash password ≡ true
  pub same_id : acc.id ≡ row.id
  pub same_email : acc.email ≡ row.email
  pub same_rights : acc.is_admin ≡ row.is_admin
  pub bytes : List ℕ
  pub drawn : c.random ≡ some bytes
  pub shown : token ≡ hex bytes
  pub accounts : after.accounts ≡ before.accounts
  pub sessions :
      after.sessions
      ≡ before.sessions
        ++ record {
          account_id = row.id;
          token_hash = hex (c.sha256 token);
          expires_at = (t + pos_part ttl - neg_part ttl) / 1_000 * 1_000;
          last_seen = none;
        }
          ∷ []

-- A row that is found stands in the list.
find_splits :
    (p : AccountRow → Bool) (rows : List AccountRow) (r : AccountRow)
    → find p rows ≡ some r
    → (front : List AccountRow) × (back : List AccountRow) × (rows ≡ front ++ r ∷ back)
unfolding find
find_splits p [] r e = cc
find_splits p (x ∷ rows) r e = elim (Bool-cases (p x)) [
  | inl hit ↦
      let same : some x ≡ some r = rw hit at e in
      let eq_row : x ≡ r = cc in ([], rows, ap (λ y. y ∷ rows) eq_row)
  | inr miss ↦
      let (front, back, split) = find_splits p rows r (rw miss at e) in
      (x ∷ front, back, ap (λ ys. x ∷ ys) split)
]

drawn_bytes :
    (c : Crypto) (token : Text)
    → generate_token c ≡ some token
    → (bytes : List ℕ) × (c.random ≡ some bytes) × (token ≡ hex bytes)
unfolding generate_token
drawn_bytes c token e = elim (Option-cases c.random) [
  | inl dry ↦ let bad : none ≡ some token = rw dry at e in cc
  | inr (bytes, drawn) ↦
      let same : some (hex bytes) ≡ some token = rw drawn at e in (bytes, drawn, cc)
]

-- A login succeeds only for a row of accounts with this very email address that is active and whose
-- hash matches the password, and gives its id, email and rights; the token is the random bytes in hex;
-- and the login has left accounts as it was and has added one session, for this id, under the hash of
-- the token, with the expiry at the time of the login plus the lifetime, in whole microseconds.
pub login-Enters :
    (env : Env) (c : Crypto) (ttl : ℤ) (email password token : Text) (acc : Account) (w : World)
    → (login env c ttl email password w).0 ≡ logged_in token acc
    → Enters c ttl email password token acc
        (env.tick (w.calls + 1)).now
        w.db
        (login env c ttl email password w).1.db
unfolding account_of hash_token expiry
login-Enters env c ttl email password token acc w e =
    let h = login-IsLogin env c ttl email password token acc w e in
    let t = (env.tick (w.calls + 1)).now in
    let after = (login env c ttl email password w).1.db in
    let (front, back, split) = find_splits (is_active_email email) w.db.accounts h.row h.found in
    let met = find-some (is_active_email email) w.db.accounts h.row h.found in
    let (bytes, drawn, shown) = drawn_bytes c token h.drawn in
    let (_, same, more) =
      insert_session-some acc.id (hash_token c token) (expiry t ttl) t w.db after h.stored in
    let id : acc.id ≡ h.row.id = ap (λ a. a.id) h.account in
    record {
      row = h.row;
      front = front;
      back = back;
      stored = split;
      named = (text_eq_iff h.row.email email).0 (ground arith);
      active = ground arith;
      matches = h.matches;
      same_id = id;
      same_email = ap (λ a. a.email) h.account;
      same_rights = ap (λ a. a.is_admin) h.account;
      bytes = bytes;
      drawn = drawn;
      shown = shown;
      accounts = same;
      sessions = rw (← id) more;
    }
