-- ===== src/Watcher/Snippet.antt =====
-- internal/watcher/service.go, scanNewMessages: the snippet of a plain text body.
pub mod Laws
pub mod Cut
use skybeam_mail.Prelude.{
  ℕ, zero, ◌-◌, ◌+◌, ◌/◌, ◌%◌, Bool, true, false, ◌||◌, List, [], ◌∷◌, ◌++◌, map, if◌then◌else◌,
  ◌==◌, ltb, leb, take, Text, width, byte_length, is_space,
}

-- The two ReplaceAll calls, on one unit.
unfoldable pub unbroken : ℕ → ℕ
unbroken c = if c == 10 || c == 13 then 32 else c

-- `strings.Fields`: the runs of units that are no white space; `cur` is the run so far.
unfoldable pub flush : Text → List Text → List Text
flush [] rest = rest
flush (c ∷ cur) rest = (c ∷ cur) ∷ rest

unfoldable pub fields_from : Text → Text → List Text
unfolding flush
fields_from cur [] = flush cur []
fields_from cur (c ∷ s) =
    let closed = flush cur (fields_from [] s) in
    let longer = fields_from (cur ++ c ∷ []) s in if is_space c then closed else longer

-- `strings.Join(words, " ")`
unfoldable pub join_rest : List Text → Text
join_rest [] = []
join_rest (w ∷ ws) = 32 ∷ w ++ join_rest ws

unfoldable pub join : List Text → Text
unfolding join_rest
join [] = []
join (w ∷ ws) = w ++ join_rest ws

unfoldable pub clean_text : Text → Text
clean_text body = join (fields_from [] (map unbroken body))

-- The bytes of a unit, each as a stray byte.
unfoldable pub stray : ℕ → ℕ
stray b = 0x110000 + b

unfoldable pub stray_bytes : ℕ → Text
unfolding stray
stray_bytes c =
    if ltb c 0x80
    then stray c ∷ []
    else if ltb c 0x800
    then stray (0xc0 + c / 64) ∷ stray (0x80 + c % 64) ∷ []
    else if ltb c 0x10000
    then stray (0xe0 + c / 4096) ∷ stray (0x80 + c / 64 % 64) ∷ stray (0x80 + c % 64) ∷ []
    else if ltb c 0x110000
    then stray (0xf0 + c / 262144)
      ∷ stray (0x80 + c / 4096 % 64)
      ∷ stray (0x80 + c / 64 % 64)
      ∷ stray (0x80 + c % 64)
      ∷ []
    else c ∷ []

-- `s[:n]`, which counts bytes: a character that the cut goes through leaves its first bytes.
unfoldable pub byte_prefix : ℕ → Text → Text
byte_prefix n [] = []
byte_prefix n (c ∷ s) =
    let rest = c ∷ byte_prefix (n - width c) s in
    if leb (width c) n then rest else take n (stray_bytes c)

unfoldable pub snippet : Text → Text
snippet body =
    let clean = clean_text body in
    if ltb 200 (byte_length clean) then byte_prefix 200 clean else clean
