-- ===== src/Watcher/Body/Laws.antt =====
-- internal/watcher/service.go, extractBody: when the loop over the parts ends, and with what.
use skybeam_mail.Prelude.{
  ℕ, zero, suc, ◌+◌, ◌<◌, ◌≡◌, ◌≢◌, refl, ◌∙◌, none, some, List, [], ◌∷◌, ◌++◌, if◌then◌else◌, Text,
  codes, false, text_eq, trim_space, length, append_assoc, append-nil, arith, text_eq_iff,
  Bool-cases, inl, inr, ◌⊎◌,
}
use skybeam_mail.Watcher.Body.{Part, read_parts, extract_body}

-- The text parts of a message in their order, one behind the other.
abbrev pub parts_of : Text → List Part → Text
parts_of wanted [] = []
parts_of wanted (Part.eof ∷ ps) = parts_of wanted ps
parts_of wanted (Part.failed ∷ ps) = parts_of wanted ps
parts_of wanted (Part.attachment ∷ ps) = parts_of wanted ps
parts_of wanted (Part.inline kind b ∷ ps) =
    (if text_eq kind wanted then b else []) ++ parts_of wanted ps

-- From call `i` on the reader gives these results, none of them the end, and then `io.EOF`.
abbrev pub Gives : (ℕ → Part) → ℕ → List Part → Type 0
Gives next i [] = next i ≡ Part.eof
Gives next i (p ∷ ps) = (next i ≡ p) × (p ≢ Part.eof) × Gives next (i + 1) ps

plain_not_html : text_eq (codes "text/plain") (codes "text/html") ≡ false
unfolding text_eq
plain_not_html = refl

-- What an inline part adds to the two bodies.
read_parts-inline :
    (f : ℕ) (next : ℕ → Part) (i : ℕ) (text html kind b : Text)
    → next i ≡ Part.inline kind b
    → read_parts (suc f) next i text html
      ≡ read_parts f next
          (i + 1)
          (text ++ (if text_eq kind (codes "text/plain") then b else []))
          (html ++ (if text_eq kind (codes "text/html") then b else []))
unfolding read_parts
read_parts-inline f next i text html kind b e =
    elim (Bool-cases (text_eq kind (codes "text/plain"))) [
      | inl plain ↦
          let same : kind ≡ codes "text/plain" = (text_eq_iff kind (codes "text/plain")).0 plain in
          let other : text_eq kind (codes "text/html") ≡ false = rw same plain_not_html in
          rw (e, read_parts, plain, other, append-nil html) refl
      | inr other ↦ elim (Bool-cases (text_eq kind (codes "text/html"))) [
        | inl html_part ↦ rw (e, read_parts, other, html_part, append-nil text) refl
        | inr neither ↦ rw (e, read_parts, other, neither, append-nil text, append-nil html) refl
      ]
    ]

read_parts-skip :
    (f : ℕ) (next : ℕ → Part) (i : ℕ) (text html : Text)
    → (next i ≡ Part.failed) ⊎ (next i ≡ Part.attachment)
    → read_parts (suc f) next i text html ≡ read_parts f next (i + 1) text html
unfolding read_parts
read_parts-skip f next i text html (inl e) = rw (e, read_parts)
read_parts-skip f next i text html (inr e) = rw (e, read_parts)

read_parts-Gives :
    (f : ℕ) (next : ℕ → Part) (i : ℕ) (text html : Text) (ps : List Part)
    → Gives next i ps
    → length ps < f
    → read_parts f next i text html
      ≡ some (
        trim_space (text ++ parts_of (codes "text/plain") ps),
        trim_space (html ++ parts_of (codes "text/html") ps),
      )
read_parts-Gives zero next i text html ps g h = elim h [ ]
read_parts-Gives (suc f) next i text html [] g h =
    unfold read_parts in rw (g, read_parts, append-nil text, append-nil html) refl
read_parts-Gives (suc f) next i text html (Part.eof ∷ ps) (e, n, g) h = absurd (n refl)
read_parts-Gives (suc f) next i text html (Part.failed ∷ ps) (e, n, g) h =
    read_parts-skip f next i text html (inl e)
    ∙ read_parts-Gives f next (i + 1) text html ps g (omega arith)
read_parts-Gives (suc f) next i text html (Part.attachment ∷ ps) (e, n, g) h =
    read_parts-skip f next i text html (inr e)
    ∙ read_parts-Gives f next (i + 1) text html ps g (omega arith)
read_parts-Gives (suc f) next i text html (Part.inline kind b ∷ ps) (e, n, g) h =
    let plain = if text_eq kind (codes "text/plain") then b else [] in
    let html_part = if text_eq kind (codes "text/html") then b else [] in
    read_parts-inline f next i text html kind b e
    ∙ read_parts-Gives f next (i + 1) (text ++ plain) (html ++ html_part) ps g (omega arith)
    ∙ rw
        (
          append_assoc text plain (parts_of (codes "text/plain") ps),
          append_assoc html html_part (parts_of (codes "text/html") ps),
        )
        refl

-- Where the reader reaches `io.EOF` after some results, fuel above their number is enough, and the
-- bodies are the text/plain and the text/html parts before it, in their order, without the white
-- space round each of the two; parts that fail and attachments are left out.
pub extract_body-Gives :
    (f : ℕ) (next : ℕ → Part) (ps : List Part)
    → Gives next 0 ps
    → length ps < f
    → extract_body f (some next)
      ≡ some (
        trim_space (parts_of (codes "text/plain") ps),
        trim_space (parts_of (codes "text/html") ps),
      )
unfolding extract_body
extract_body-Gives f next ps g h = read_parts-Gives f next 0 [] [] ps g h

endless_step :
    (f : ℕ) (next : ℕ → Part) (i : ℕ) (text html : Text)
    → next i ≢ Part.eof
    → ((t u : Text) → read_parts f next (i + 1) t u ≡ none)
    → (p : Part) → next i ≡ p
    → read_parts (suc f) next i text html ≡ none
endless_step f next i text html k rest Part.eof e = absurd (k e)
endless_step f next i text html k rest Part.failed e =
    read_parts-skip f next i text html (inl e) ∙ rest text html
endless_step f next i text html k rest Part.attachment e =
    read_parts-skip f next i text html (inr e) ∙ rest text html
endless_step f next i text html k rest (Part.inline kind b) e =
    read_parts-inline f next i text html kind b e ∙ rest _ _

read_parts-endless :
    (f : ℕ) (next : ℕ → Part) (i : ℕ) (text html : Text)
    → ((j : ℕ) → next j ≢ Part.eof)
    → read_parts f next i text html ≡ none
read_parts-endless zero next i text html k = unfold read_parts in refl
read_parts-endless (suc f) next i text html k =
    endless_step f next i text html (k i) (λ t u. read_parts-endless f next (i + 1) t u k) (next i)
      refl

-- A reader that never gives `io.EOF` keeps the loop going for ever, also where its calls only fail:
-- no fuel is enough.
pub extract_body-endless :
    (f : ℕ) (next : ℕ → Part) → ((j : ℕ) → next j ≢ Part.eof) → extract_body f (some next) ≡ none
unfolding extract_body
extract_body-endless f next k = read_parts-endless f next 0 [] [] k
