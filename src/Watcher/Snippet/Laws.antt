-- ===== src/Watcher/Snippet/Laws.antt =====
-- internal/watcher/service.go, scanNewMessages: the words and the length of the snippet.
use skybeam_mail.Prelude.{
  ℕ, zero, suc, ◌-◌, ◌+◌, ◌≤◌, ◌<◌, ◌≡◌, refl, ap, ◌∙◌, true, false, List, [], ◌∷◌, ◌++◌,
  append_assoc, append-nil, map, leb, take, Text, width, byte_length, is_space, arith, All,
  Bool-cases, inl, inr,
}
use skybeam_mail.Watcher.Snippet.{
  unbroken, flush, fields_from, join_rest, join, clean_text, stray_bytes, byte_prefix, snippet,
}

-- A word: not empty, and without white space.
abbrev pub IsWord : Text → Type 0
IsWord [] = ⊥
IsWord (c ∷ s) = All (λ d. is_space d ≡ false) (c ∷ s)

abbrev pub HasNoSpace : Text → Type 0
HasNoSpace = All (λ d. is_space d ≡ false)

HasNoSpace-snoc : (s : Text) (c : ℕ) → HasNoSpace s → is_space c ≡ false → HasNoSpace (s ++ c ∷ [])
HasNoSpace-snoc [] c h e = (e, tt)
HasNoSpace-snoc (d ∷ s) c (p, h) e = (p, HasNoSpace-snoc s c h e)

flush-IsWord :
    (cur : Text) (ws : List Text) → HasNoSpace cur → All IsWord ws → All IsWord (flush cur ws)
unfolding flush
flush-IsWord [] ws h k = k
flush-IsWord (c ∷ cur) ws h k = (h, k)

fields_from-IsWord : (cur s : Text) → HasNoSpace cur → All IsWord (fields_from cur s)
unfolding fields_from
fields_from-IsWord cur [] h = flush-IsWord cur [] h tt
fields_from-IsWord cur (c ∷ s) h = elim (Bool-cases (is_space c)) [
  | inl blank ↦ rw blank (flush-IsWord cur (fields_from [] s) h (fields_from-IsWord [] s tt))
  | inr inside ↦ rw inside (fields_from-IsWord (cur ++ c ∷ []) s (HasNoSpace-snoc cur c h inside))
]

-- White space is left out of a word, so line breaks are too.
unbroken-word : (c : ℕ) → is_space c ≡ false → unbroken c ≡ c
unfolding unbroken is_space
unbroken-word c h = ground arith

map-unbroken-word :
    (s rest : Text) → HasNoSpace s → map unbroken (s ++ rest) ≡ s ++ map unbroken rest
map-unbroken-word [] rest h = refl
map-unbroken-word (c ∷ s) rest (p, h) = cc (unbroken-word c p, map-unbroken-word s rest h)

IsWord-HasNoSpace : (w : Text) → IsWord w → HasNoSpace w
IsWord-HasNoSpace [] h = elim h [ ]
IsWord-HasNoSpace (c ∷ s) h = h

unbroken_space : unbroken 32 ≡ 32
unfolding unbroken
unbroken_space = refl

map-unbroken-join_rest :
    (ws : List Text) → All IsWord ws → map unbroken (join_rest ws) ≡ join_rest ws
unfolding join_rest
map-unbroken-join_rest [] h = refl
map-unbroken-join_rest (w ∷ ws) (p, h) = cc (
  unbroken_space,
  map-unbroken-word w (join_rest ws) (IsWord-HasNoSpace w p),
  map-unbroken-join_rest ws h,
)

map-unbroken-join : (ws : List Text) → All IsWord ws → map unbroken (join ws) ≡ join ws
unfolding join
map-unbroken-join [] h = refl
map-unbroken-join (w ∷ ws) (p, h) =
    cc (map-unbroken-word w (join_rest ws) (IsWord-HasNoSpace w p), map-unbroken-join_rest ws h)

fields_from-word :
    (cur w rest : Text) → HasNoSpace w → fields_from cur (w ++ rest) ≡ fields_from (cur ++ w) rest
unfolding fields_from
fields_from-word cur [] rest h = rw (append-nil cur)
fields_from-word cur (c ∷ w) rest (p, h) = rw p (
    fields_from-word (cur ++ c ∷ []) w rest h
    ∙ ap (λ t. fields_from t rest) (append_assoc cur (c ∷ []) w))

flush-word : (w : Text) (ws : List Text) → IsWord w → flush w ws ≡ w ∷ ws
unfolding flush
flush-word [] ws h = elim h [ ]
flush-word (c ∷ w) ws h = refl

space_is_space : is_space 32 ≡ true
unfolding is_space
space_is_space = refl

fields_from-join_rest :
    (w : Text) (ws : List Text) → IsWord w → All IsWord ws → fields_from w (join_rest ws) ≡ w ∷ ws
unfolding fields_from join_rest
fields_from-join_rest w [] p h = flush-word w [] p
fields_from-join_rest w (v ∷ ws) p (q, h) = rw space_is_space (
    flush-word w _ p
    ∙ ap (λ t. w ∷ t)
        (fields_from-word [] v (join_rest ws) (IsWord-HasNoSpace v q)
          ∙ fields_from-join_rest v ws q h))

fields_from-join : (ws : List Text) → All IsWord ws → fields_from [] (join ws) ≡ ws
unfolding join
fields_from-join [] h = unfold fields_from flush in refl
fields_from-join (w ∷ ws) (p, h) =
    fields_from-word [] w (join_rest ws) (IsWord-HasNoSpace w p) ∙ fields_from-join_rest w ws p h

pub clean_text-join : (ws : List Text) → All IsWord ws → clean_text (join ws) ≡ join ws
unfolding clean_text
clean_text-join ws h = rw (map-unbroken-join ws h) (ap join (fields_from-join ws h))

-- The words of a cleaned text are those of the body, one space apart: cleaning it again changes
-- nothing.
pub clean_text_idempotent : (body : Text) → clean_text (clean_text body) ≡ clean_text body
unfolding clean_text
clean_text_idempotent body =
    clean_text-join (fields_from [] (map unbroken body))
      (fields_from-IsWord [] (map unbroken body) tt)

byte_length-append : (s t : Text) → byte_length (s ++ t) ≡ byte_length s + byte_length t
byte_length-append [] t = omega arith
byte_length-append (c ∷ s) t = omega (arith, byte_length-append s t)

-- The bytes of a cut character are stray, at least one each.
byte_length-take-stray : (n c : ℕ) → n < width c → byte_length (take n (stray_bytes c)) ≤ n
unfolding stray_bytes
byte_length-take-stray zero c h = omega arith
byte_length-take-stray (suc zero) c h = ground arith
byte_length-take-stray (suc (suc zero)) c h = ground arith
byte_length-take-stray (suc (suc (suc zero))) c h = ground arith
byte_length-take-stray (suc (suc (suc (suc n)))) c h = absurd (ground arith)

byte_length-byte_prefix : (n : ℕ) (s : Text) → byte_length (byte_prefix n s) ≤ n
unfolding byte_prefix
byte_length-byte_prefix n [] = omega arith
byte_length-byte_prefix n (c ∷ s) = elim (Bool-cases (leb (width c) n)) [
  | inl fits ↦ rw fits (ground (arith, byte_length-byte_prefix (n - width c) s))
  | inr cut ↦ rw cut (byte_length-take-stray n c (ground arith))
]

-- A snippet has at most 200 bytes, whatever the body.
pub byte_length-snippet : (body : Text) → byte_length (snippet body) ≤ 200
unfolding snippet
byte_length-snippet body = ground (arith, byte_length-byte_prefix 200 (clean_text body))
