-- ===== src/Cheerio/Ints.antt =====
-- Signed integers over the native numbers, under the library's names.
use quickjs_runtime.Common.{
  Bool, arith, false, if◌then◌else◌, leb, ltb, suc, true, ℕ, ◌%◌, ◌*◌, ◌+◌, ◌-◌, ◌/◌, ◌<◌, ◌==◌,
  ◌≡◌, ◌≤◌,
}

-- `negsuc n` is -(n + 1).
pub data ℤ : Type 0 where
  pos : ℕ → ℤ
  negsuc : ℕ → ℤ

abbrev pub pos_part : ℤ → ℕ
pos_part (pos n) = n
pos_part (negsuc n) = 0

abbrev pub neg_part : ℤ → ℕ
neg_part (pos n) = 0
neg_part (negsuc n) = suc n

-- a - b, as an integer.
abbrev pub sub_ℕ : ℕ → ℕ → ℤ
sub_ℕ a b = if leb b a then pos (a - b) else negsuc (b - a - 1)

infixl 65 ◌+ℤ◌ ◌-ℤ◌
infixl 70 ◌*ℤ◌
unfoldable pub ◌+ℤ◌ : ℤ → ℤ → ℤ
a +ℤ b = sub_ℕ (pos_part a + pos_part b) (neg_part a + neg_part b)

unfoldable pub ◌-ℤ◌ : ℤ → ℤ → ℤ
a -ℤ b = sub_ℕ (pos_part a + neg_part b) (neg_part a + pos_part b)

unfoldable pub ◌*ℤ◌ : ℤ → ℤ → ℤ
a *ℤ b =
    sub_ℕ (pos_part a * pos_part b + neg_part a * neg_part b)
      (pos_part a * neg_part b + neg_part a * pos_part b)

-- One lemma for each operation lets `omega` work with the operations shut, at any depth.
pub +ℤ_parts :
    (a b : ℤ)
    → pos_part (a +ℤ b) + neg_part a + neg_part b ≡ neg_part (a +ℤ b) + pos_part a + pos_part b
unfolding ◌+ℤ◌
+ℤ_parts a b = ground arith

pub -ℤ_parts :
    (a b : ℤ)
    → pos_part (a -ℤ b) + neg_part a + pos_part b ≡ neg_part (a -ℤ b) + pos_part a + neg_part b
unfolding ◌-ℤ◌
-ℤ_parts a b = ground arith

pub eq_of_parts : (a b : ℤ) → pos_part a + neg_part b ≡ pos_part b + neg_part a → a ≡ b
eq_of_parts a b h = ground arith

pub ruleset int_laws = (arith, +ℤ_parts, -ℤ_parts, eq_of_parts)

-- C's quotient, rounded to zero.
infixl 70 ◌/ℤ◌
unfoldable pub ◌/ℤ◌ : ℤ → ℤ → ℤ
pos x /ℤ pos y = pos (x / y)
pos x /ℤ negsuc y = sub_ℕ 0 (x / suc y)
negsuc x /ℤ pos y = sub_ℕ 0 (suc x / y)
negsuc x /ℤ negsuc y = pos (suc x / suc y)

abbrev pub eq_ℤ : ℤ → ℤ → Bool
eq_ℤ a b = (pos_part a + neg_part b) == (pos_part b + neg_part a)

abbrev pub is_nonneg : ℤ → Bool
is_nonneg (pos n) = true
is_nonneg (negsuc n) = false

-- 2 ^ 63.
abbrev pub int64_end : ℕ
int64_end = 9223372036854775808

abbrev pub IsInt64 : ℤ → Type 0
IsInt64 x = (pos_part x < int64_end) × (neg_part x ≤ int64_end)

-- The integer of 64 bits that is left of one: the numbers are taken modulo 2 ^ 64.
unfoldable pub int64 : ℤ → ℤ
int64 x =
    let u =
      (pos_part x + (18446744073709551616 - neg_part x % 18446744073709551616))
      % 18446744073709551616 in
    if ltb u int64_end then pos u else sub_ℕ u 18446744073709551616

pub int64-fits : (x : ℤ) → IsInt64 x → int64 x ≡ x
unfolding int64
int64-fits (pos n) (h, k) = ground arith
int64-fits (negsuc n) (h, k) = ground arith
