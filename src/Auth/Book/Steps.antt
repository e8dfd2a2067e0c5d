-- ===== src/Auth/Book/Steps.antt =====
-- internal/auth/service.go: what Logout, VerifyToken and the storing of a session do to the book.
use skybeam_mail.Prelude.{
  ℕ, ◌+◌, ◌≡◌, refl, sym, ap, ◌∙◌, true, false, Bool-cases, inl, inr, Option, none, some,
  Option-cases, List, [], ◌∷◌, ◌++◌, any, ◌==◌, ◌&&◌, ltb, Text, text_eq,
}
use skybeam_mail.Prelude.Int.{ℤ}
use skybeam_mail.Store.Rows.{Store, AccountRow, SessionRow}
use skybeam_mail.Store.Table.{find, update, delete}
use skybeam_mail.Store.World.{Env, World, IsCalm, settle, exec, time_now}
use skybeam_mail.Store.World.Calm.{query-some, query-refused, exec-some, exec-none}
use skybeam_mail.Auth.{
  Account, Crypto, hash_token, expiry, logged_in, login_failed, insert_session, store_session,
  delete_session, logout, account_of_session, session_account, touch_session, check_expiry,
  verify_token,
}
use skybeam_mail.Auth.Book.{
  Book, enter, strike, entry_of, book_of, Call, Outcome, entered, promised_account, promised_verify,
  promised,
}
use skybeam_mail.Auth.Book.Rows.{
  book_of-insert, book_of-delete, book_of-update, is_some, any-book_of,
}

-- What a call leaves: the accounts, and a table that stands for a book.
pub record Leaves (before after : World) (book : Book) : Type 0 where
  pub accounts : after.db.accounts ≡ before.db.accounts
  pub sessions : (h : Text) → book_of after.db.sessions h ≡ book h

module _ (env : Env) (calm : IsCalm env) (c : Crypto) (ttl : ℤ) where
  pub logout-strikes :
      (token : Text) (w : World)
      → ((logout env c token w).0 ≡ false)
        × Leaves w (logout env c token w).1 (strike (hash_token c token) (book_of w.db.sessions))
  unfolding logout delete_session
  logout-strikes token w =
      let hash = hash_token c token in
      let db' : Store = record w.db {
        sessions = delete (λ s. text_eq s.token_hash hash) w.db.sessions;
      } in
      let made = exec-some env calm (delete_session hash) w db' refl in
      rw made (refl, record { accounts = refl; sessions = book_of-delete hash w.db.sessions })

  touch-Leaves :
      (hash : Text) (seen : ℕ) (w : World)
      → Leaves w (exec env (touch_session hash seen) w).1 (book_of w.db.sessions)
  unfolding touch_session
  touch-Leaves hash seen w =
      let db' : Store = record w.db {
        sessions =
            update (λ s. text_eq s.token_hash hash) (λ s. record s { last_seen = some seen })
              w.db.sessions;
      } in
      let made = exec-some env calm (touch_session hash seen) w db' refl in
      rw made (record {
        accounts = refl;
        sessions = λ h.
            book_of-update hash w.db.sessions (λ s. record s { last_seen = some seen }) h
              (λ s. (refl, refl, refl));
      })

  checked :
      (hash : Text) (t : ℕ) (accounts : List AccountRow) (s : Option SessionRow) (w : World)
      → let out = check_expiry env c hash t (some (account_of_session accounts s)) w in
        (out.0 ≡ promised_verify env.text_ok c ttl accounts t (entry_of s))
        × Leaves w out.1 (book_of w.db.sessions)
  unfolding check_expiry promised_verify promised_account
  checked hash t accounts none w =
      let row : account_of_session accounts none ≡ none = unfold account_of_session in refl in
      rw row (refl, record { accounts = refl; sessions = λ h. refl })
  checked hash t accounts (some s) w =
      elim (Option-cases (find (λ a. a.id == s.account_id && a.is_active) accounts)) [
        | inl gone ↦
            let row : account_of_session accounts (some s) ≡ none =
              unfold account_of_session in rw (gone, account_of_session) refl in
            rw (row, gone) (refl, record { accounts = refl; sessions = λ h. refl })
        | inr (a, there) ↦
            let row : account_of_session accounts (some s) ≡ some (a, s.expires_at) =
              unfold account_of_session in rw (there, account_of_session) refl in
            elim (Bool-cases (ltb s.expires_at t)) [
              | inl late ↦
                  rw (row, there, late) (refl, record { accounts = refl; sessions = λ h. refl })
              | inr good ↦ rw (row, there, good) (refl, touch-Leaves hash t w)
            ]
      ]

  pub verify-promised :
      (token : Text) (w : World)
      → let hash = hash_token c token in
        let out = verify_token env c token w in
        (Outcome.verify_result out.0
          ≡ (promised env.text_ok c ttl w.db.accounts
              (env.tick w.calls).now
              (Call.verify token)
              (book_of w.db.sessions)).0)
        × Leaves w out.1 (book_of w.db.sessions)
  unfolding verify_token time_now promised session_account check_expiry
  verify-promised token w =
      let hash = hash_token c token in
      let read = λ (db : Store).
        account_of_session db.accounts (find (λ s. text_eq s.token_hash hash) db.sessions) in
      elim (Bool-cases (env.text_ok hash)) [
        | inl fits ↦
            let asked = query-some env calm (hash ∷ []) read w (rw fits refl) in
            let (answered, left) =
              checked hash (env.tick w.calls).now w.db.accounts
                (find (λ s. text_eq s.token_hash hash) w.db.sessions) (settle w.db w) in
            rw (asked, fits)
              (
                ap Outcome.verify_result answered,
                record { accounts = left.accounts; sessions = left.sessions },
              )
        | inr unfit ↦
            let refused = query-refused env calm (hash ∷ []) read w (rw unfit refl) in
            rw (refused, unfit) (refl, record { accounts = refl; sessions = λ h. refl })
      ]

  taken_failed :
      (acc : Account) (token : Text) (t : ℕ) (book : Book)
      → is_some (book (hash_token c token)) ≡ true
      → entered c ttl t acc (some token) book ≡ (login_failed, book)
  unfolding entered
  taken_failed acc token t book e = elim (Option-cases (book (hash_token c token))) [
    | inl free ↦ let bad : false ≡ true = rw free at e in cc
    | inr (entry, there) ↦ rw (there, entered) refl
  ]

  free_entered :
      (acc : Account) (token : Text) (t : ℕ) (book : Book)
      → is_some (book (hash_token c token)) ≡ false
      → entered c ttl t acc (some token) book
        ≡ (logged_in token acc, enter (hash_token c token) acc.id (expiry t ttl) book)
  unfolding entered
  free_entered acc token t book e = elim (Option-cases (book (hash_token c token))) [
    | inl free ↦ rw (free, entered) refl
    | inr (entry, there) ↦ let bad : true ≡ false = rw there at e in cc
  ]

  pub store-entered :
      (acc : Account) (drawn : Option Text) (w : World)
      → let out = store_session env c ttl acc drawn w in
        let want = entered c ttl (env.tick w.calls).now acc drawn (book_of w.db.sessions) in
        (out.0 ≡ want.0) × Leaves w out.1 want.1
  unfolding store_session time_now insert_session
  store-entered acc none w =
      unfold entered in (refl, record { accounts = refl; sessions = λ h. refl })
  store-entered acc (some token) w =
      let hash = hash_token c token in
      let expires = expiry (env.tick w.calls).now ttl in
      let row : SessionRow = record {
        account_id = acc.id;
        token_hash = hash;
        expires_at = expires;
        last_seen = none;
      } in
      let db' : Store = record w.db {
        sessions = w.db.sessions ++ row ∷ [];
        next_id = w.db.next_id + 1;
      } in
      let in_book = any-book_of w.db.sessions hash in
      elim (Bool-cases (any (λ s. text_eq s.token_hash hash) w.db.sessions)) [
        | inl used ↦
            let refused =
              exec-none env calm (insert_session acc.id hash expires) w (rw used refl) in
            rw
              (
                refused,
                taken_failed acc token (env.tick w.calls).now (book_of w.db.sessions)
                    (sym in_book ∙ used),
              )
              (refl, record { accounts = refl; sessions = λ h. refl })
        | inr free ↦
            let made =
              exec-some env calm (insert_session acc.id hash expires) w db' (rw free refl) in
            rw
              (
                made,
                free_entered acc token (env.tick w.calls).now (book_of w.db.sessions)
                    (sym in_book ∙ free),
              )
              (
                refl,
                record {
                  accounts = refl;
                  sessions = λ h. book_of-insert hash w.db.sessions row h refl free;
                },
              )
      ]
