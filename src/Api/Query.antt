-- ===== src/Api/Query.antt =====
-- internal/api/handlers: what the handlers share in reading a query string and the rows of a query.
use skybeam_mail.Prelude.{
  ℕ, ◌-◌, ◌*◌, Bool, true, false, ◌||◌, Option, none, some, List, [], ◌∷◌, if◌then◌else◌, leb,
}
use skybeam_mail.Prelude.Int.{ℤ, pos, pos_part, leb_ℤ, ltb_ℤ, wrap64}

-- `if limit <= 0 || limit > most { limit = fallback }`
unfoldable pub clamp_limit : ℕ → ℕ → ℤ → ℤ
clamp_limit most fallback limit =
    if leb_ℤ limit (pos 0) || ltb_ℤ (pos most) limit then pos fallback else limit

unfoldable pub clamp_page : ℤ → ℤ
clamp_page p = if ltb_ℤ p (pos 1) then pos 1 else p

-- `(page - 1) * limit` in int64, for a page and a limit that have been clamped.
unfoldable pub offset_of : ℤ → ℤ → ℤ
offset_of p limit = wrap64 ((pos_part p - 1) * pos_part limit)

-- ORDER BY date DESC, where NULL comes first.
unfoldable pub not_older : Option ℕ → Option ℕ → Bool
not_older none d = true
not_older (some t) none = false
not_older (some t) (some u) = leb u t

-- The loop over the rows. A row that has NULL where Scan wants a value fails to scan; `closes` says
-- whether the driver then closes the rows, so that Next ends the loop.
unfoldable pub scan_rows : {R : Type 0} → Bool → (R → Bool) → List R → List R
scan_rows closes scans [] = []
scan_rows closes scans (r ∷ rows) =
    let rest = scan_rows closes scans rows in
    if scans r then r ∷ rest else if closes then [] else rest
