-- ===== src/System/Keys/Accounts.antt =====
-- internal/auth/service.go and internal/api/handlers/admin.go: the keys of accounts under the statements
-- that write it.
use skybeam_mail.Prelude.{
  ℕ, ◌+◌, ◌≡◌, refl, false, ◌||◌, List, [], ◌∷◌, ◌++◌, arith, any, text_eq, Bool-cases, inl, inr,
}
use skybeam_mail.Store.Rows.{AccountRow}
use skybeam_mail.Store.Table.{upsert}
use skybeam_mail.Store.Table.Laws.{any-weaken}
use skybeam_mail.Store.Table.Distinct.{
  KeepsColumns, update-Distinct, snoc-Distinct, upsert-Distinct, snoc-IsDrawn, upsert-IsDrawn,
}
use skybeam_mail.System.Keys.{same_email, same_user, IsAccounts}

-- A new row with an email and a Dovecot user that no row has.
pub snoc-IsAccounts :
    (n : ℕ) (new : AccountRow) (rows : List AccountRow)
    → new.id ≡ n
    → any (λ a. text_eq a.email new.email || text_eq a.dovecot_user new.dovecot_user) rows ≡ false
    → IsAccounts n rows
    → IsAccounts (n + 1) (rows ++ new ∷ [])
snoc-IsAccounts n new rows e free (d, m, u) =
    let clash =
      λ (a : AccountRow). text_eq a.email new.email || text_eq a.dovecot_user new.dovecot_user in
    (
      snoc-IsDrawn (λ a. a.id) n new rows e d,
      snoc-Distinct same_email new rows
          (any-weaken (λ a. same_email a new) clash rows (λ a p. ground arith) free) m,
      snoc-Distinct same_user new rows
          (any-weaken (λ a. same_user a new) clash rows (λ a p. ground arith) free) u,
    )

-- An upsert on the email, where a row that has none of the emails has none of the Dovecot users either.
pub upsert-IsAccounts :
    (n : ℕ) (new : AccountRow) (f : AccountRow → AccountRow) (rows : List AccountRow)
    → new.id ≡ n
    → ((a : AccountRow) → (f a).id ≡ a.id)
    → KeepsColumns same_email f
    → KeepsColumns same_user f
    → (any (λ a. text_eq a.email new.email) rows ≡ false
        → any (λ a. text_eq a.dovecot_user new.dovecot_user) rows ≡ false)
    → IsAccounts n rows
    → IsAccounts (n + 1) (upsert (λ a. text_eq a.email new.email) new f rows)
unfolding upsert
upsert-IsAccounts n new f rows e i k l free (d, m, u) = (
  upsert-IsDrawn (λ a. a.id) n (λ a. text_eq a.email new.email) new f rows e i d,
  upsert-Distinct same_email (λ a. text_eq a.email new.email) new f rows (λ a. refl) k m,
  elim (Bool-cases (any (λ a. text_eq a.email new.email) rows)) [
    | inl old ↦ rw old (update-Distinct same_user (λ a. text_eq a.email new.email) f rows l u)
    | inr fresh ↦ rw fresh (snoc-Distinct same_user new rows (free fresh) u)
  ],
)
