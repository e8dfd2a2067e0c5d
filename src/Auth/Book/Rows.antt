-- ===== src/Auth/Book/Rows.antt =====
-- internal/auth/service.go: what the statements on the table of sessions do to the book.
use skybeam_mail.Prelude.{
  ℕ, ◌≡◌, refl, Bool, true, false, Bool-cases, inl, inr, Option, none, some, List, [], ◌∷◌, ◌++◌,
  any, Text, text_eq, text_eq_iff, arith,
}
use skybeam_mail.Store.Rows.{SessionRow}
use skybeam_mail.Store.Table.{find, update, delete}
use skybeam_mail.Auth.Book.{enter, strike, book_of}

text_eq_sym : (s t : Text) → text_eq s t ≡ text_eq t s
unfolding text_eq
text_eq_sym [] [] = refl
text_eq_sym [] (d ∷ t) = refl
text_eq_sym (c ∷ s) [] = refl
text_eq_sym (c ∷ s) (d ∷ t) = ground (arith, text_eq_sym s t)

module _ (hash : Text) where
  -- A row is of the hash that it has.
  same_hash :
      (x : SessionRow) (h : Text)
      → text_eq x.token_hash h ≡ true
      → text_eq h hash ≡ text_eq x.token_hash hash
  same_hash x h e = let same = (text_eq_iff x.token_hash h).0 e in rw same refl

  pub book_of-insert :
      (rows : List SessionRow) (new : SessionRow) (h : Text)
      → new.token_hash ≡ hash
      → any (λ s. text_eq s.token_hash hash) rows ≡ false
      → book_of (rows ++ new ∷ []) h ≡ enter hash new.account_id new.expires_at (book_of rows) h
  unfolding enter find
  book_of-insert [] new h e free = ground (arith, e, text_eq_sym new.token_hash h)
  book_of-insert (x ∷ rows) new h e free = elim (Bool-cases (text_eq x.token_hash h)) [
    | inl hit ↦ let other = same_hash x h hit in ground (arith, other)
    | inr miss ↦ rw (miss, book_of-insert rows new h e (ground arith)) refl
  ]

  pub book_of-delete :
      (rows : List SessionRow) (h : Text)
      → book_of (delete (λ s. text_eq s.token_hash hash) rows) h ≡ strike hash (book_of rows) h
  unfolding strike find delete
  book_of-delete [] h = ground arith
  book_of-delete (x ∷ rows) h = elim (Bool-cases (text_eq x.token_hash h)) [
    | inl hit ↦ let same = same_hash x h hit in ground (arith, same, book_of-delete rows h)
    | inr miss ↦ ground (arith, book_of-delete rows h)
  ]

  pub book_of-update :
      (rows : List SessionRow) (f : SessionRow → SessionRow) (h : Text)
      → ((s : SessionRow)
          → ((f s).token_hash ≡ s.token_hash)
            × ((f s).account_id ≡ s.account_id)
            × ((f s).expires_at ≡ s.expires_at))
      → book_of (update (λ s. text_eq s.token_hash hash) f rows) h ≡ book_of rows h
  unfolding find update
  book_of-update [] f h k = refl
  book_of-update (x ∷ rows) f h k = ground (arith, book_of-update rows f h k, k x)

-- The book has an entry for the hash exactly where the table has a row.
abbrev pub is_some : Option (ℕ × ℕ) → Bool
is_some none = false
is_some (some e) = true

pub any-book_of :
    (rows : List SessionRow) (hash : Text)
    → any (λ s. text_eq s.token_hash hash) rows ≡ is_some (book_of rows hash)
unfolding find
any-book_of [] hash = refl
any-book_of (x ∷ rows) hash = elim (Bool-cases (text_eq x.token_hash hash)) [
  | inl hit ↦ rw hit refl
  | inr miss ↦ rw (miss, any-book_of rows hash) refl
]
