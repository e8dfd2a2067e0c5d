-- ===== src/Prelude/Decimal.antt =====
-- `strconv.Atoi` and `fmt.Sprintf("%d", n)`.
use skybeam_mail.Prelude.{
  ℕ, zero, suc, ◌+◌, ◌-◌, ◌*◌, ◌/◌, ◌%◌, ◌^◌, ◌<◌, ◌≡◌, refl, ap, sym, ◌∙◌, ◌||◌, Option, none,
  some, [], ◌∷◌, ◌++◌, arith, ltb, ◌==◌, if◌then◌else◌, Text, codes, Bool-cases, inl, inr,
}
use skybeam_mail.Prelude.Int.{ℤ, pos, negsuc}

-- The value of a run of digits, up to the digit that takes it beyond uint64, where `strconv` stops
-- reading; none at any other byte before that.
digits_from : ℕ → Text → Option ℕ
digits_from n [] = some n
digits_from n (c ∷ s) =
    let m = n * 10 + (c - b'0') in
    let rest = digits_from m s in
    if ltb c b'0' || ltb b'9' c then none else if ltb m (2 ^ 64) then rest else some m

digits : Text → Option ℕ
unfolding digits_from
digits [] = none
digits (c ∷ s) = digits_from 0 (c ∷ s)

-- The value that `strconv.Atoi` returns when its error is dropped: 0 on a syntax error, and the
-- nearest int64 out of range.
saturate_pos : Option ℕ → ℤ
saturate_pos none = pos 0
saturate_pos (some n) = if ltb n (2 ^ 63) then pos n else pos (2 ^ 63 - 1)

saturate_neg : Option ℕ → ℤ
saturate_neg none = pos 0
saturate_neg (some zero) = pos 0
saturate_neg (some (suc n)) = if ltb n (2 ^ 63) then negsuc n else negsuc (2 ^ 63 - 1)

unfoldable pub atoi : Text → ℤ
unfolding digits saturate_pos saturate_neg
atoi [] = pos 0
atoi (c ∷ s) =
    if c == b'-'
    then saturate_neg (digits s)
    else if c == b'+'
    then saturate_pos (digits s)
    else saturate_pos (digits (c ∷ s))

-- `strconv.Atoi` with its error: none on a syntax error and out of range.
in_range_pos : Option ℕ → Option ℤ
in_range_pos none = none
in_range_pos (some n) = if ltb n (2 ^ 63) then some (pos n) else none

in_range_neg : Option ℕ → Option ℤ
in_range_neg none = none
in_range_neg (some zero) = some (pos 0)
in_range_neg (some (suc n)) = if ltb n (2 ^ 63) then some (negsuc n) else none

unfoldable pub atoi? : Text → Option ℤ
unfolding digits in_range_pos in_range_neg
atoi? [] = none
atoi? (c ∷ s) =
    if c == b'-'
    then in_range_neg (digits s)
    else if c == b'+'
    then in_range_pos (digits s)
    else in_range_pos (digits (c ∷ s))

-- The decimal digits of a number, on fuel; `itoa` gives it more than it has digits.
show : ℕ → ℕ → Text
show zero n = []
show (suc f) n =
    let more = show f (n / 10) in if ltb n 10 then (b'0' + n) ∷ [] else more ++ (b'0' + n % 10) ∷ []

unfoldable pub itoa : ℕ → Text
unfolding show
itoa n = show (suc n) n

-- The value of a text of digits, read from the left.
value : ℕ → Text → ℕ
value n [] = n
value n (c ∷ s) = value (n * 10 + (c - b'0')) s

value-append : (n : ℕ) (s : Text) (c : ℕ) → value n (s ++ c ∷ []) ≡ value n s * 10 + (c - b'0')
unfolding value
value-append n [] c = refl
value-append n (d ∷ s) c = value-append (n * 10 + (d - b'0')) s c

value-show : (f n : ℕ) → n < f → value 0 (show f n) ≡ n
unfolding show
value-show zero n h = elim h [ ]
value-show (suc f) n h = elim (Bool-cases (ltb n 10)) [
  | inl small ↦ rw small (unfold value in ground arith)
  | inr big ↦
      rw (big, value-append 0 (show f (n / 10)) (b'0' + n % 10))
        (ground (arith, value-show f (n / 10) (ground arith)))
]

-- Different numbers have different decimal texts.
pub itoa-injective : (m n : ℕ) → itoa m ≡ itoa n → m ≡ n
unfolding itoa
itoa-injective m n e =
    sym (value-show (suc m) m (omega arith)) ∙ ap (value 0) e ∙ value-show (suc n) n (omega arith)

itoa_test : itoa 1207 ≡ codes "1207"
unfolding itoa
itoa_test = refl

atoi_tests :
    (atoi (codes "-12") ≡ negsuc 11)
    × (atoi (codes "4x") ≡ pos 0)
    × (atoi (codes "9223372036854775808") ≡ pos (2 ^ 63 - 1))
unfolding atoi digits_from
atoi_tests = (refl, refl, refl)
