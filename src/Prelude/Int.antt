-- ===== src/Prelude/Int.antt =====
-- Go's `int` and `int64`: an integer with its sign, and the wrap-around at 64 bits.
use skybeam_mail.Prelude.{
  ℕ, suc, ◌+◌, ◌-◌, ◌*◌, ◌%◌, ◌^◌, ◌<◌, ◌≡◌, refl, Bool, arith, ltb, leb, if◌then◌else◌,
}

-- `negsuc n` is -(n + 1).
pub data ℤ : Type 0 where
  pos : ℕ → ℤ
  negsuc : ℕ → ℤ

abbrev pub pos_part : ℤ → ℕ
pos_part (pos n) = n
pos_part (negsuc n) = 0

abbrev pub neg_part : ℤ → ℕ
neg_part (pos n) = 0
neg_part (negsuc n) = suc n

abbrev pub ltb_ℤ : ℤ → ℤ → Bool
ltb_ℤ a b = ltb (pos_part a + neg_part b) (pos_part b + neg_part a)

abbrev pub leb_ℤ : ℤ → ℤ → Bool
leb_ℤ a b = leb (pos_part a + neg_part b) (pos_part b + neg_part a)

-- The int64 whose bit pattern is the remainder of a number modulo 2 ^ 64.
unfoldable pub wrap64 : ℕ → ℤ
wrap64 n = if ltb (n % 2 ^ 64) (2 ^ 63) then pos (n % 2 ^ 64) else negsuc (2 ^ 64 - 1 - n % 2 ^ 64)

-- `a * k` in int64, for a constant k.
unfoldable pub scale64 : ℤ → ℕ → ℤ
scale64 (pos n) k = wrap64 (n * k)
scale64 (negsuc n) k = wrap64 (2 ^ 64 - suc n * k % 2 ^ 64)

pub wrap64_exact : (n : ℕ) → n < 2 ^ 63 → wrap64 n ≡ pos n
unfolding wrap64
wrap64_exact n h = ground arith

wrap64_negative : wrap64 (2 ^ 64 - 2) ≡ negsuc 1
unfolding wrap64
wrap64_negative = refl
