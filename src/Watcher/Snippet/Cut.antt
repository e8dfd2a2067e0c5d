-- ===== src/Watcher/Snippet/Cut.antt =====
-- internal/watcher/service.go, scanNewMessages: the cut of the snippet at byte 200.
use skybeam_mail.Prelude.{
  ℕ, zero, suc, ◌-◌, ◌+◌, ◌≤◌, ◌<◌, ◌≡◌, refl, ap, sym, true, [], ◌∷◌, ◌++◌, ltb, leb, take, length,
  Text, width, byte_length, arith, All, Bool-cases, inl, inr,
}
use skybeam_mail.Watcher.Snippet.{clean_text, stray, stray_bytes, byte_prefix, snippet}

-- A text that PostgreSQL takes as UTF-8: code points alone, and no stray byte.
abbrev pub IsUtf8 : Text → Type 0
IsUtf8 = All (λ c. c < 0x110000)

abbrev pub IsAscii : Text → Type 0
IsAscii = All (λ c. c < 0x80)

take-ascii :
    (n : ℕ) (s : Text) → IsAscii s → (byte_length s ≡ length s) × (byte_prefix n s ≡ take n s)
unfolding byte_prefix stray_bytes
take-ascii zero [] h = (refl, refl)
take-ascii (suc n) [] h = (refl, refl)
take-ascii zero (c ∷ s) (p, h) = ground (arith, take-ascii zero s h)
take-ascii (suc n) (c ∷ s) (p, h) = ground (arith, take-ascii n s h)

take-all : (n : ℕ) (s : Text) → length s ≤ n → take n s ≡ s
take-all zero [] h = refl
take-all zero (c ∷ s) h = absurd (omega arith)
take-all (suc n) [] h = refl
take-all (suc n) (c ∷ s) h = ap (λ t. c ∷ t) (take-all n s (omega arith))

-- Where the cleaned text is ASCII, the snippet is its first 200 characters.
pub snippet-ascii :
    (body : Text) → IsAscii (clean_text body) → snippet body ≡ take 200 (clean_text body)
unfolding snippet
snippet-ascii body h = elim (Bool-cases (ltb 200 (byte_length (clean_text body)))) [
  | inl long ↦ rw long (take-ascii 200 (clean_text body) h).1
  | inr short ↦ rw short (
      sym (take-all 200 (clean_text body) (ground (arith, (take-ascii 200 (clean_text body) h).0))))
]

-- The first bytes of a character that is not ASCII are stray.
take-stray-not-IsUtf8 : (n c : ℕ) → n < width c → 0 < n → ¬ IsUtf8 (take n (stray_bytes c))
unfolding stray_bytes stray
take-stray-not-IsUtf8 zero c h p u = absurd (omega arith)
take-stray-not-IsUtf8 (suc n) c h p u = ground arith

byte_prefix-cut :
    (n : ℕ) (p : Text) (c : ℕ) (s : Text)
    → byte_length p < n
    → n < byte_length p + width c
    → ¬ IsUtf8 (byte_prefix n (p ++ c ∷ s))
unfolding byte_prefix
byte_prefix-cut n [] c s h k u = elim (Bool-cases (leb (width c) n)) [
  | inl fits ↦ absurd (ground arith)
  | inr cut ↦ take-stray-not-IsUtf8 n c (omega arith) (omega arith) (rw cut at u)
]
byte_prefix-cut n (d ∷ p) c s h k u = elim (Bool-cases (leb (width d) n)) [
  | inl fits ↦
      let v : IsUtf8 (d ∷ byte_prefix (n - width d) (p ++ c ∷ s)) = rw fits at u in
      byte_prefix-cut (n - width d) p c s (ground arith) (ground arith) v.1
  | inr cut ↦ absurd (ground arith)
]

byte_length-split :
    (p : Text) (c : ℕ) (s : Text) → byte_length p + width c ≤ byte_length (p ++ c ∷ s)
byte_length-split [] c s = omega arith
byte_length-split (d ∷ p) c s = omega (arith, byte_length-split p c s)

-- Where a character of the cleaned text begins before byte 200 and ends behind it, the snippet is
-- not UTF-8.
pub snippet-cut :
    (body p : Text) (c : ℕ) (s : Text)
    → clean_text body ≡ p ++ c ∷ s
    → byte_length p < 200
    → 200 < byte_length p + width c
    → ¬ IsUtf8 (snippet body)
unfolding snippet
snippet-cut body p c s e h k u =
    let long : ltb 200 (byte_length (p ++ c ∷ s)) ≡ true =
      ground (arith, byte_length-split p c s) in
    byte_prefix-cut 200 p c s h k (rw (e, long) at u)
