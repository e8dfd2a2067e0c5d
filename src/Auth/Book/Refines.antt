-- ===== src/Auth/Book/Refines.antt =====
-- internal/auth/service.go: the calls on the table keep the promises of the book.
use skybeam_mail.Prelude.{
  ◌≡◌, refl, ap, ◌∙◌, Bool-cases, inl, inr, Option, none, some, List, [], ◌∷◌, Text,
}
use skybeam_mail.Prelude.Int.{ℤ}
use skybeam_mail.Store.Rows.{Store, AccountRow}
use skybeam_mail.Store.Table.{find}
use skybeam_mail.Store.World.{Env, World, IsCalm, settle}
use skybeam_mail.Store.World.Calm.{query-some, query-refused}
use skybeam_mail.Auth.{account_of, Crypto, generate_token, is_active_email, check_password, login}
use skybeam_mail.Auth.Book.{
  Book, book_of, Call, Outcome, promised_login, promised, call, calls, time_of, promises,
}
use skybeam_mail.Auth.Book.Steps.{Leaves, logout-strikes, verify-promised, store-entered}

module _ (env : Env) (calm : IsCalm env) where
  untouched : (w : World) → Leaves w w (book_of w.db.sessions)
  untouched w = record { accounts = refl; sessions = λ h. refl }

  password-promised :
      (c : Crypto) (ttl : ℤ) (password : Text) (row : Option AccountRow) (w : World)
      → let out = check_password env c ttl password (some row) w in
        let want =
          promised_login c ttl (env.tick w.calls).now password row (book_of w.db.sessions) in
        (out.0 ≡ want.0) × Leaves w out.1 want.1
  unfolding check_password promised_login
  password-promised c ttl password none w = (refl, untouched w)
  password-promised c ttl password (some r) w =
      elim (Bool-cases (c.bcrypt_matches r.password_hash password)) [
        | inl good ↦ rw good (store-entered env calm c ttl (account_of r) (generate_token c) w)
        | inr bad ↦ rw bad (refl, untouched w)
      ]

  module _ (c : Crypto) (ttl : ℤ) where
    -- Every call, where PostgreSQL answers it, does what the book promises at the time that it reads:
    -- its result is the promised one, and the table of sessions then stands for the promised book.
    call-promised :
        (x : Call) (w : World)
        → let out = call env c ttl x w in
          let want =
            promised env.text_ok c ttl w.db.accounts
              (time_of env c ttl x w)
              x
              (book_of w.db.sessions) in
          (out.0 ≡ want.0) × Leaves w out.1 want.1
    unfolding call promised time_of login
    call-promised (Call.log_in drawn email password) w =
        let read = λ (db : Store). find (is_active_email email) db.accounts in
        elim (Bool-cases (env.text_ok email)) [
          | inl fits ↦
              let asked = query-some env calm (email ∷ []) read w (rw fits refl) in
              let (answered, left) =
                password-promised (record c { random = drawn }) ttl password (read w.db)
                  (settle w.db w) in
              rw (asked, fits)
                (
                  ap Outcome.login_result answered,
                  record { accounts = left.accounts; sessions = left.sessions },
                )
          | inr unfit ↦
              let refused = query-refused env calm (email ∷ []) read w (rw unfit refl) in
              rw (refused, unfit)
                (unfold check_password in (refl, record { accounts = refl; sessions = λ h. refl }))
        ]
    call-promised (Call.log_out token) w =
        let (answered, left) = logout-strikes env calm c ttl token w in
        (ap Outcome.logout_error answered, left)
    call-promised (Call.verify token) w = verify-promised env calm c ttl token w

    calls-promised_from :
        (xs : List Call) (accounts : List AccountRow) (book : Book) (w : World)
        → w.db.accounts ≡ accounts
        → book_of w.db.sessions ≡ book
        → let out = calls env c ttl xs w in
          let want = promises env c ttl accounts xs w book in
          (out.0 ≡ want.0) × (book_of out.1.db.sessions ≡ want.1)
    unfolding calls promises
    calls-promised_from [] accounts book w same stands = (refl, stands)
    calls-promised_from (x ∷ xs) accounts book w same stands =
        let (answered, left) = call-promised x w in
        let want = λ (a : List AccountRow) (b : Book).
          promised env.text_ok c ttl a (time_of env c ttl x w) x b in
        let moved : want w.db.accounts (book_of w.db.sessions) ≡ want accounts book =
          ap (λ a. want a (book_of w.db.sessions)) same ∙ ap (want accounts) stands in
        let (rest, final) =
          calls-promised_from xs accounts (want accounts book).1 (call env c ttl x w).1
            (left.accounts ∙ same)
            ((λ i. λ h. left.sessions h i) ∙ ap (λ (p : Outcome × Book). p.1) moved) in
        let first : (call env c ttl x w).0 ≡ (want accounts book).0 =
          answered ∙ ap (λ (p : Outcome × Book). p.0) moved in
        (λ i. first i ∷ rest i, final)

    -- Where every call of the database is answered, any sequence of Login, Logout and VerifyToken gives
    -- the results that the book of sessions promises, and leaves a table that stands for the book that
    -- they leave: the table, its ids, its order and last_seen never show.
    pub calls-promised :
        (xs : List Call) (w : World)
        → let out = calls env c ttl xs w in
          let want = promises env c ttl w.db.accounts xs w (book_of w.db.sessions) in
          (out.0 ≡ want.0) × (book_of out.1.db.sessions ≡ want.1)
    calls-promised xs w = calls-promised_from xs w.db.accounts (book_of w.db.sessions) w refl refl
