-- ===== src/Watcher/Jsonb/Laws.antt =====
-- internal/watcher/service.go, toJSONB: what PostgreSQL reads from its literal.
use skybeam_mail.Prelude.{
  ℕ, ◌≡◌, ◌≢◌, ◌<◌, refl, ◌||◌, Option, none, some, List, [], ◌∷◌, ◌++◌, append_assoc, append-nil,
  arith, if◌then◌else◌, ◌==◌, ltb, Text, codes, All,
}
use skybeam_mail.Watcher.Jsonb.{jsonb_rest, to_jsonb}

-- A reader of JSON arrays of strings. An escape is not read: a text with a backslash or a control
-- character is refused. `in_string` stands inside a string, with what it has read of it.
data Mode : Type 0 where
  start first behind next done : Mode
  in_string : Text → Mode

read : Mode → List Text → Text → Option (List Text)
read Mode.done out [] = some out
read Mode.start out [] = none
read Mode.first out [] = none
read Mode.behind out [] = none
read Mode.next out [] = none
read (Mode.in_string cur) out [] = none
read Mode.start out (c ∷ s) = let rest = read Mode.first out s in if c == b'[' then rest else none
read Mode.first out (c ∷ s) =
    let close = read Mode.done out s in
    let open_ = read (Mode.in_string []) out s in
    if c == b']' then close else if c == b'"' then open_ else none
read Mode.next out (c ∷ s) =
    let open_ = read (Mode.in_string []) out s in if c == b'"' then open_ else none
read Mode.behind out (c ∷ s) =
    let close = read Mode.done out s in
    let more = read Mode.next out s in if c == b']' then close else if c == b',' then more else none
read (Mode.in_string cur) out (c ∷ s) =
    let close = read Mode.behind (out ++ cur ∷ []) s in
    let longer = read (Mode.in_string (cur ++ c ∷ [])) out s in
    if c == b'"' then close else if c == b'\\' || ltb c 32 then none else longer
read Mode.done out (c ∷ s) = none

pub read_array : Text → Option (List Text)
unfolding read
read_array s = read Mode.start [] s

-- A unit that a JSON string can hold as it is.
abbrev pub IsPlain : ℕ → Type 0
IsPlain c = (c ≢ b'"') × (c ≢ b'\\') × (31 < c)

abbrev pub IsPlainText : Text → Type 0
IsPlainText = All IsPlain

read_string :
    (cur : Text) (out : List Text) (s rest : Text)
    → IsPlainText s
    → read (Mode.in_string cur) out (s ++ b'"' ∷ rest)
      ≡ read Mode.behind (out ++ (cur ++ s) ∷ []) rest
unfolding read
read_string cur out [] rest h = rw (append-nil cur)
read_string cur out (c ∷ s) rest (p, h) =
    ground (arith, read_string (cur ++ c ∷ []) out s rest h, append_assoc cur (c ∷ []) s)

read_rest :
    (out ss : List Text)
    → All IsPlainText ss
    → read Mode.behind out (jsonb_rest ss) ≡ some (out ++ ss)
unfolding read jsonb_rest
read_rest out [] h = rw (append-nil out)
read_rest out (s ∷ ss) (p, h) =
    rw (append_assoc s (b'"' ∷ []) (jsonb_rest ss), read_string [] out s (jsonb_rest ss) p)
      (rw (read_rest (out ++ s ∷ []) ss h, append_assoc out (s ∷ []) ss) refl)

-- Where no address holds a double quote, a backslash or a control character, the literal is a JSON
-- array whose strings are the addresses, in their order.
pub read_array-to_jsonb : (ss : List Text) → All IsPlainText ss → read_array (to_jsonb ss) ≡ some ss
unfolding read_array to_jsonb
read_array-to_jsonb [] h = refl
read_array-to_jsonb (s ∷ ss) (p, h) =
    rw (append_assoc s (b'"' ∷ []) (jsonb_rest ss), read_string [] [] s (jsonb_rest ss) p)
      (read_rest (s ∷ []) ss h)

-- Nothing is escaped: one address that holds the three bytes `","` and two addresses give the same
-- literal, whatever stands round those bytes and whatever addresses follow.
pub to_jsonb-forged :
    (x y : Text) (ss : List Text)
    → to_jsonb ((x ++ codes "\",\"" ++ y) ∷ ss) ≡ to_jsonb (x ∷ y ∷ ss)
unfolding to_jsonb
to_jsonb-forged x y ss = simp append_assoc
