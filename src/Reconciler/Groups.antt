-- ===== src/Reconciler/Groups.antt =====
-- internal/reconciler/service.go, refreshFolderCounts: the upserts of the groups, row by row.
use skybeam_mail.Prelude.{
  ℕ, ◌≡◌, refl, sym, ◌∙◌, true, false, List, [], ◌∷◌, any, All, All-append, Text, text_eq,
  text_eq_iff, text_eq_refl, ==-refl, arith, Bool-cases, inl, inr,
}
use mathlib.Core.Path.{subst}
use skybeam_mail.Store.Rows.{MessageRow, FolderRow}
use skybeam_mail.Store.Table.{select, update, upsert}
use skybeam_mail.Store.Table.Laws.{any-upsert, any-upsert_self, select-upsert}
use skybeam_mail.Reconciler.{
  groups, total_in, unread_in, has_key, group_row, recount, upsert_groups,
}

module _ (account now : ℕ) (live : List MessageRow) where
  -- A row of a folder, where it has this name, has the counts of the messages.
  abbrev pub Exact : Text → FolderRow → Type 0
  Exact name r =
      has_key account name r ≡ true
      → (r.total_count ≡ total_in name live) × (r.unread_count ≡ unread_in name live)

  same_name :
      (m name : Text) (r : FolderRow)
      → has_key account m r ≡ true
      → has_key account name r ≡ true
      → m ≡ name
  same_name m name r p q =
      let a = (text_eq_iff r.folder_name m).0 (ground arith) in
      let b = (text_eq_iff r.folder_name name).0 (ground arith) in sym a ∙ b

  recount-Exact :
      (m name : Text) (r : FolderRow)
      → has_key account m r ≡ true
      → Exact name (recount now live m r)
  recount-Exact m name r p q =
      subst (λ t. (total_in m live ≡ total_in t live) × (unread_in m live ≡ unread_in t live))
        (same_name m name r p q) (refl, refl)

  group_row-Exact : (m name : Text) → Exact name (group_row account now live m)
  unfolding group_row
  group_row-Exact m name q =
      subst (λ t. (total_in m live ≡ total_in t live) × (unread_in m live ≡ unread_in t live))
        ((text_eq_iff m name).0 (ground arith)) (refl, refl)

  update-Exact :
      (m name : Text) (rows : List FolderRow)
      → All (Exact name) rows
      → All (Exact name) (update (has_key account m) (recount now live m) rows)
  unfolding update
  update-Exact m name [] h = tt
  update-Exact m name (r ∷ rows) (p, h) = elim (Bool-cases (has_key account m r)) [
    | inl hit ↦ rw hit (recount-Exact m name r hit, update-Exact m name rows h)
    | inr miss ↦ rw miss (p, update-Exact m name rows h)
  ]

  update_self-Exact :
      (m : Text) (rows : List FolderRow)
      → All (Exact m) (update (has_key account m) (recount now live m) rows)
  unfolding update
  update_self-Exact m [] = tt
  update_self-Exact m (r ∷ rows) = elim (Bool-cases (has_key account m r)) [
    | inl hit ↦ rw hit (recount-Exact m m r hit, update_self-Exact m rows)
    | inr miss ↦
        rw miss ((λ q. let bad : false ≡ true = sym miss ∙ q in cc), update_self-Exact m rows)
  ]

  upsert-Exact :
      (m name : Text) (rows : List FolderRow)
      → All (Exact name) rows
      → All
          (Exact name)
          (upsert (has_key account m) (group_row account now live m) (recount now live m) rows)
  unfolding upsert
  upsert-Exact m name rows h = elim (Bool-cases (any (has_key account m) rows)) [
    | inl there ↦ rw there (update-Exact m name rows h)
    | inr absent ↦ rw absent (
        All-append (Exact name) rows (group_row account now live m ∷ []) h
          (group_row-Exact m name, tt))
  ]

  none-Exact :
      (m : Text) (rows : List FolderRow) → any (has_key account m) rows ≡ false → All (Exact m) rows
  none-Exact m [] e = tt
  none-Exact m (r ∷ rows) e = elim (Bool-cases (has_key account m r)) [
    | inl hit ↦ let bad : true ≡ false = rw hit at e in cc
    | inr miss ↦
        ((λ q. let bad : false ≡ true = sym miss ∙ q in cc), none-Exact m rows (rw miss at e))
  ]

  upsert_self-Exact :
      (m : Text) (rows : List FolderRow)
      → All
          (Exact m)
          (upsert (has_key account m) (group_row account now live m) (recount now live m) rows)
  unfolding upsert
  upsert_self-Exact m rows = elim (Bool-cases (any (has_key account m) rows)) [
    | inl there ↦ rw there (update_self-Exact m rows)
    | inr absent ↦ rw absent (
        All-append (Exact m) rows (group_row account now live m ∷ []) (none-Exact m rows absent)
          (group_row-Exact m m, tt))
  ]

  upsert_groups-Exact :
      (name : Text) (names : List Text) (rows : List FolderRow)
      → All (Exact name) rows
      → All (Exact name) (upsert_groups account now live names rows)
  unfolding upsert_groups
  upsert_groups-Exact name [] rows h = h
  upsert_groups-Exact name (m ∷ names) rows h =
      upsert_groups-Exact name names _ (upsert-Exact m name rows h)

  pub upsert_groups-Exact_named :
      (name : Text) (names : List Text) (rows : List FolderRow)
      → any (text_eq name) names ≡ true
      → All (Exact name) (upsert_groups account now live names rows)
  unfolding upsert_groups
  upsert_groups-Exact_named name [] rows e = cc
  upsert_groups-Exact_named name (m ∷ names) rows e = elim (Bool-cases (text_eq name m)) [
    | inl same ↦
        let e' : name ≡ m = (text_eq_iff name m).0 same in
        rw e' (upsert_groups-Exact m names _ (upsert_self-Exact m rows))
    | inr other ↦ upsert_groups-Exact_named name names _ (rw other at e)
  ]

  -- A key that is there stays there, and those of the groups are there.
  upsert_groups-has_key :
      (name : Text) (names : List Text) (rows : List FolderRow)
      → any (has_key account name) rows ≡ true
      → any (has_key account name) (upsert_groups account now live names rows) ≡ true
  unfolding upsert_groups
  upsert_groups-has_key name [] rows h = h
  upsert_groups-has_key name (m ∷ names) rows h = upsert_groups-has_key name names _ (
      any-upsert (has_key account m) (has_key account name) (group_row account now live m)
        (recount now live m) rows (λ r. refl) h)

  pub upsert_groups-has_key_named :
      (name : Text) (names : List Text) (rows : List FolderRow)
      → any (text_eq name) names ≡ true
      → any (has_key account name) (upsert_groups account now live names rows) ≡ true
  unfolding upsert_groups group_row
  upsert_groups-has_key_named name [] rows e = cc
  upsert_groups-has_key_named name (m ∷ names) rows e = elim (Bool-cases (text_eq name m)) [
    | inl same ↦
        let e' : name ≡ m = (text_eq_iff name m).0 same in
        rw e' (
          upsert_groups-has_key m names _ (
            any-upsert_self (has_key account m) (group_row account now live m) (recount now live m)
              rows (rw (==-refl account, text_eq_refl m) refl) (λ r. refl)))
    | inr other ↦ upsert_groups-has_key_named name names _ (rw other at e)
  ]

  -- A row with another name is left alone.
  no-key :
      (m name : Text) (r : FolderRow)
      → text_eq name m ≡ false
      → has_key account m r ≡ true
      → has_key account name r ≡ false
  no-key m name r e p = elim (Bool-cases (has_key account name r)) [
    | inl both ↦
        let bad : true ≡ false =
          sym ((text_eq_iff name m).1 (sym (same_name m name r p both))) ∙ e in
        cc
    | inr other ↦ other
  ]

  upsert-other :
      (m name : Text) (rows : List FolderRow)
      → text_eq name m ≡ false
      → select
          (has_key account name)
          (upsert (has_key account m) (group_row account now live m) (recount now live m) rows)
        ≡ select (has_key account name) rows
  unfolding group_row
  upsert-other m name rows e =
      let key : has_key account m (group_row account now live m) ≡ true =
        rw (==-refl account, text_eq_refl m) refl in
      select-upsert (has_key account m) (has_key account name) (group_row account now live m)
        (recount now live m) rows (no-key m name (group_row account now live m) e key)
        (λ r p. (no-key m name r e p, no-key m name r e p))

  pub upsert_groups-other :
      (name : Text) (names : List Text) (rows : List FolderRow)
      → any (text_eq name) names ≡ false
      → select (has_key account name) (upsert_groups account now live names rows)
        ≡ select (has_key account name) rows
  unfolding upsert_groups
  upsert_groups-other name [] rows e = refl
  upsert_groups-other name (m ∷ names) rows e =
      upsert_groups-other name names _ (ground arith) ∙ upsert-other m name rows (ground arith)

-- The groups are the folders of the rows.
pub any-groups :
    (name : Text) (rows : List MessageRow)
    → any (text_eq name) (groups rows) ≡ any (λ r. text_eq name r.folder) rows
unfolding groups
any-groups name [] = refl
any-groups name (r ∷ rows) = elim (Bool-cases (any (text_eq r.folder) (groups rows))) [
  | inl there ↦ rw there (elim (Bool-cases (text_eq name r.folder)) [
    | inl same ↦ rw same (
        subst (λ t. any (text_eq t) (groups rows) ≡ true) (sym ((text_eq_iff name r.folder).0 same))
          there)
    | inr other ↦ rw other (any-groups name rows)
  ])
  | inr fresh ↦ rw (fresh, any-groups name rows) refl
]
