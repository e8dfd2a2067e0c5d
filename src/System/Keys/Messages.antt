-- ===== src/System/Keys/Messages.antt =====
-- internal/api/handlers/messages.go and internal/watcher/service.go: the keys of message_view under the
-- statements that write it.
use skybeam_mail.Prelude.{
  ℕ, ◌+◌, ◌≡◌, refl, Bool, true, false, ◌&&◌, not, List, [], ◌∷◌, arith, any, ◌==◌, Text, text_eq,
  text_eq_iff, ==_iff, Bool-cases, inl, inr,
}
use skybeam_mail.Store.Rows.{MessageRow}
use skybeam_mail.Store.Table.{update, upsert}
use skybeam_mail.Store.Table.Distinct.{update-Distinct, update-IsDrawn, upsert-IsDrawn}
use skybeam_mail.Watcher.Mail.{Headers}
use skybeam_mail.Watcher.Scan.{Body, in_inbox, inbox_row}
use skybeam_mail.Watcher.Scan.Keys.{
  same_key, IsUnique, KeepsKey, KeepsKey-KeepsColumns, upsert-IsUnique,
}
use skybeam_mail.Api.Messages.{has_id, trash, trash_conflict}
use skybeam_mail.Api.Messages.Isolation.{HasMessageIds}
use skybeam_mail.System.Keys.{IsMessages}

pub update-IsMessages :
    (n id : ℕ) (f : MessageRow → MessageRow) (rows : List MessageRow)
    → ((r : MessageRow) → (f r).id ≡ r.id)
    → KeepsKey f
    → IsMessages n rows
    → IsMessages n (update (has_id id) f rows)
update-IsMessages n id f rows i k (d, u) = (
  update-IsDrawn (λ r. r.id) (has_id id) f n rows i d,
  update-Distinct same_key (has_id id) f rows (KeepsKey-KeepsColumns f k) u,
)

pub upsert-IsMessages :
    (n account : ℕ) (h : Headers) (size : ℕ) (b : Body) (now : ℕ) (f : MessageRow → MessageRow)
    (rows : List MessageRow)
    → ((r : MessageRow) → (f r).id ≡ r.id)
    → KeepsKey f
    → IsMessages n rows
    → IsMessages (n + 1) (upsert (in_inbox account h.uid) (inbox_row account h size b n now) f rows)
unfolding inbox_row
upsert-IsMessages n account h size b now f rows i k (d, u) = (
  upsert-IsDrawn (λ r. r.id) n (in_inbox account h.uid) (inbox_row account h size b n now) f rows
      refl i d,
  upsert-IsUnique account h size b n now f rows k u,
)

text_eq_sym : (s t : Text) → text_eq s t ≡ text_eq t s
text_eq_sym s t = ground (arith, text_eq_iff s t, text_eq_iff t s)

-- A row that the row r, once it is in Trash, meets on the key.
abbrev meets : ℕ → MessageRow → MessageRow → Bool
meets id r s =
    not (s.id == id)
    && s.account_id == r.account_id
    && text_eq s.dovecot_uid r.dovecot_uid
    && text_eq s.folder trash

-- The test of PostgreSQL, for the rows that are moved and those that they can meet apart.
abbrev conflict : ℕ → List MessageRow → List MessageRow → Bool
conflict id xs ys = any (λ r. has_id id r && any (meets id r) xs) ys

conflict-tail :
    (id : ℕ) (x : MessageRow) (xs ys : List MessageRow)
    → conflict id (x ∷ xs) ys ≡ false
    → conflict id xs ys ≡ false
conflict-tail id x xs [] e = refl
conflict-tail id x xs (y ∷ ys) e = ground (arith, conflict-tail id x xs ys)

abbrev to_trash : MessageRow → MessageRow
to_trash r = record r { folder = trash }

meets-same_key :
    (id : ℕ) (x s : MessageRow) → (s.id == id) ≡ false → meets id x s ≡ same_key (to_trash x) s
meets-same_key id x s e =
    ground (arith, text_eq_sym s.dovecot_uid x.dovecot_uid, text_eq_sym s.folder trash)

-- The moved row stands first.
moved_first :
    (id : ℕ) (x : MessageRow) (rows : List MessageRow)
    → any (has_id id) rows ≡ false
    → any (meets id x) rows ≡ false
    → any (same_key (to_trash x)) (update (has_id id) to_trash rows) ≡ false
unfolding update
moved_first id x [] e m = refl
moved_first id x (s ∷ rows) e m = ground (arith, meets-same_key id x s, moved_first id x rows)

meets-moved :
    (id : ℕ) (x s : MessageRow) → (x.id == id) ≡ false → meets id s x ≡ same_key x (to_trash s)
meets-moved id x s e = ground arith

-- The moved row stands behind.
moved_later :
    (id : ℕ) (x : MessageRow) (rows : List MessageRow)
    → (x.id == id) ≡ false
    → any (same_key x) rows ≡ false
    → conflict id (x ∷ []) rows ≡ false
    → any (same_key x) (update (has_id id) to_trash rows) ≡ false
unfolding update
moved_later id x [] e d c = refl
moved_later id x (s ∷ rows) e d c = ground (arith, meets-moved id x s, moved_later id x rows)

conflict-head :
    (id : ℕ) (x : MessageRow) (xs ys : List MessageRow)
    → conflict id (x ∷ xs) ys ≡ false
    → conflict id (x ∷ []) ys ≡ false
conflict-head id x xs [] e = refl
conflict-head id x xs (y ∷ ys) e = ground (arith, conflict-head id x xs ys)

any-has_id :
    (id : ℕ) (x : MessageRow) (rows : List MessageRow)
    → (x.id == id) ≡ true
    → any (has_id x.id) rows ≡ false
    → any (has_id id) rows ≡ false
any-has_id id x rows e d = let same : x.id ≡ id = (==_iff x.id id).0 e in rw (← same) d

to_trash-IsUnique :
    (id : ℕ) (rows : List MessageRow)
    → HasMessageIds rows
    → IsUnique rows
    → conflict id rows rows ≡ false
    → IsUnique (update (has_id id) to_trash rows)
unfolding update
to_trash-IsUnique id [] d u c = tt
to_trash-IsUnique id (x ∷ rows) (d, ds) (u, us) c =
    let behind : conflict id (x ∷ rows) rows ≡ false = ground arith in
    let rest = to_trash-IsUnique id rows ds us (conflict-tail id x rows rows behind) in
    elim (Bool-cases (x.id == id)) [
      | inl hit ↦ rw hit (moved_first id x rows (any-has_id id x rows hit d) (ground arith), rest)
      | inr miss ↦
          rw miss (moved_later id x rows miss u (conflict-head id x rows rows behind), rest)
    ]

-- Where PostgreSQL finds no row that the moved one would meet, the move leaves the keys as they were.
pub to_trash-IsMessages :
    (n id : ℕ) (rows : List MessageRow)
    → trash_conflict id rows ≡ false
    → IsMessages n rows
    → IsMessages n (update (has_id id) to_trash rows)
unfolding trash_conflict
to_trash-IsMessages n id rows c (d, u) = (
  update-IsDrawn (λ r. r.id) (has_id id) to_trash n rows (λ r. refl) d,
  to_trash-IsUnique id rows d.0 u c,
)
