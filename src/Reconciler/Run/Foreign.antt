-- ===== src/Reconciler/Run/Foreign.antt =====
-- internal/reconciler/service.go, refreshFolderCounts: the rows of other accounts.
use skybeam_mail.Prelude.{ℕ, ◌≡◌, refl, ◌∙◌, true, false, ◌==◌, List, [], ◌∷◌, any, Text, arith}
use skybeam_mail.Store.Rows.{MessageRow, FolderRow}
use skybeam_mail.Store.Table.{select}
use skybeam_mail.Store.Table.Laws.{any-upsert, select-upsert}
use skybeam_mail.Reconciler.{has_key, group_row, recount, upsert_groups}

module _ (account now : ℕ) (live : List MessageRow) (a : ℕ) (name : Text) where
  pub upsert_groups-foreign :
      (names : List Text) (rows : List FolderRow)
      → (a == account) ≡ false
      → select (has_key a name) (upsert_groups account now live names rows)
        ≡ select (has_key a name) rows
  unfolding upsert_groups group_row
  upsert_groups-foreign [] rows h = refl
  upsert_groups-foreign (m ∷ names) rows h =
      upsert_groups-foreign names _ h
      ∙ select-upsert (has_key account m) (has_key a name) (group_row account now live m)
          (recount now live m) rows (ground arith) (λ r p. (ground arith, ground arith))

  pub upsert_groups-kept_key :
      (names : List Text) (rows : List FolderRow)
      → any (has_key a name) rows ≡ true
      → any (has_key a name) (upsert_groups account now live names rows) ≡ true
  unfolding upsert_groups
  upsert_groups-kept_key [] rows h = h
  upsert_groups-kept_key (m ∷ names) rows h = upsert_groups-kept_key names _ (
      any-upsert (has_key account m) (has_key a name) (group_row account now live m)
        (recount now live m) rows (λ r. refl) h)
