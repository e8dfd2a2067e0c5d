-- ===== src/Auth/Admins.antt =====
-- internal/auth/service.go, CreateAdmin: the account that it leaves.
use skybeam_mail.Prelude.{
  ℕ, ◌≡◌, refl, true, false, some, Option-cases, any, All, Text, codes, text_eq, text_eq_refl, inl,
  inr, arith,
}
use skybeam_mail.Store.Rows.{Store, AccountRow}
use skybeam_mail.Store.Table.{select, upsert}
use skybeam_mail.Store.Table.Laws.{any-upsert_self}
use skybeam_mail.Store.Table.Picks.{All-select_upserted}
use skybeam_mail.Store.World.{Env, World, exec}
use skybeam_mail.Store.World.Answers.{exec-ok}
use skybeam_mail.Auth.{Crypto, upsert_admin, create_admin}

-- There is an account with the email, an administrator's with this password.
pub record IsAdmin (c : Crypto) (email password : Text) (db : Store) : Type 0 where
  pub hash : Text
  pub hashed : c.bcrypt_hash password ≡ some hash
  pub present : any (λ a. text_eq a.email email) db.accounts ≡ true
  pub promoted :
      All
        (λ a. (a.is_admin ≡ true) × (a.password_hash ≡ hash))
        (select (λ a. text_eq a.email email) db.accounts)

abbrev pub new_admin : ℕ → Text → Text → AccountRow
new_admin id email hash = record {
  id = id;
  email = email;
  display_name = codes "Admin";
  dovecot_user = email;
  password_hash = hash;
  is_admin = true;
  is_active = true;
}

abbrev pub promote : Text → AccountRow → AccountRow
promote hash a = record a { password_hash = hash; is_admin = true }

pub upsert_admin-accounts :
    (env : Env) (email hash : Text) (now : ℕ) (db db' : Store)
    → upsert_admin env email hash now db ≡ some db'
    → db'.accounts
      ≡ upsert
          (λ a. text_eq a.email email)
          (new_admin db.next_id email hash)
          (promote hash)
          db.accounts
unfolding upsert_admin
upsert_admin-accounts env email hash now db db' e = ground arith

-- Where CreateAdmin returns no error, there is an account with the email; and whoever had the email
-- before, the account is an administrator's, with the hash of the password given.
pub create_admin-IsAdmin :
    (env : Env) (c : Crypto) (email password : Text) (w : World)
    → (create_admin env c email password w).0 ≡ false
    → IsAdmin c email password (create_admin env c email password w).1.db
unfolding create_admin
create_admin-IsAdmin env c email password w e = elim (Option-cases (c.bcrypt_hash password)) [
  | inl failed ↦ let bad : true ≡ false = rw (failed, create_admin) at e in cc
  | inr (hash, hashed) ↦
      let st = upsert_admin env email hash in
      let made = exec-ok env st w (rw (hashed, create_admin) at e) in
      let rows =
        upsert_admin-accounts env email hash (env.tick w.calls).now w.db (exec env st w).1.db
          made in
      rw (hashed, create_admin)
        (record {
          hash = hash;
          hashed = hashed;
          present = rw rows (
              any-upsert_self (λ a. text_eq a.email email) (new_admin w.db.next_id email hash)
                (promote hash) w.db.accounts (text_eq_refl email) (λ a. refl));
          promoted = rw rows (
              All-select_upserted _ (λ a. text_eq a.email email) (new_admin w.db.next_id email hash)
                (promote hash) w.db.accounts (λ a. refl) (refl, refl) (λ a. (refl, refl)));
        })
]

-- What CreateAdmin leaves where it returns no error: the upserted accounts, and the sessions as they
-- were.
pub record IsUpserted (env : Env) (c : Crypto) (email password : Text) (before after : Store)
    : Type 0 where
  pub hash : Text
  pub hashed : c.bcrypt_hash password ≡ some hash
  pub takes : env.text_ok email ≡ true
  pub accounts :
      after.accounts
      ≡ upsert
          (λ a. text_eq a.email email)
          (new_admin before.next_id email hash)
          (promote hash)
          before.accounts
  pub sessions : after.sessions ≡ before.sessions

upsert_admin-takes :
    (env : Env) (email hash : Text) (now : ℕ) (db db' : Store)
    → upsert_admin env email hash now db ≡ some db'
    → (env.text_ok email ≡ true) × (db'.sessions ≡ db.sessions)
unfolding upsert_admin
upsert_admin-takes env email hash now db db' e = (ground arith, ground arith)

pub create_admin-IsUpserted :
    (env : Env) (c : Crypto) (email password : Text) (w : World)
    → (create_admin env c email password w).0 ≡ false
    → IsUpserted env c email password w.db (create_admin env c email password w).1.db
unfolding create_admin
create_admin-IsUpserted env c email password w e = elim (Option-cases (c.bcrypt_hash password)) [
  | inl failed ↦ let bad : true ≡ false = rw (failed, create_admin) at e in cc
  | inr (hash, hashed) ↦
      let st = upsert_admin env email hash in
      let made = exec-ok env st w (rw (hashed, create_admin) at e) in
      let now = (env.tick w.calls).now in
      let after = (exec env st w).1.db in
      let (takes, sessions) = upsert_admin-takes env email hash now w.db after made in
      rw (hashed, create_admin)
        (record {
          hash = hash;
          hashed = hashed;
          takes = takes;
          accounts = upsert_admin-accounts env email hash now w.db after made;
          sessions = sessions;
        })
]
