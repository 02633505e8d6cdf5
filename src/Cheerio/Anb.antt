-- ===== src/Cheerio/Anb.antt =====
-- `c_anb_match`: whether a position is one of those that `an+b` names.
--
-- `int64` is what 64 bits keep of a result, each after its operation: C++ leaves open what a result
-- out of the range is, and the usual wrap-around stands for it.
use native.Mathlib.Nat.{div-le_self, mul-div-le, mul-div_cancel}
use quickjs_runtime.Cheerio.Ints.{
  IsInt64, eq_of_parts, eq_ℤ, int64, int64-fits, int64_end, is_nonneg, neg_part, negsuc, pos,
  pos_part, sub_ℕ, ℤ, ◌*ℤ◌, ◌+ℤ◌, ◌-ℤ◌, ◌/ℤ◌,
}
use quickjs_runtime.Common.{
  ==_refl, Bool, Bool-cases, ap, arith, false, if◌then◌else◌, inl, inr, refl, suc, sym, true, zero,
  ℕ, ◌&&◌, ◌*◌, ◌+◌, ◌-◌, ◌/◌, ◌<◌, ◌↔◌, ◌∙◌, ◌≡◌, ◌≤◌,
}

unfoldable pub c_anb_match : ℤ → ℤ → ℕ → Bool
c_anb_match a b n =
    if eq_ℤ a (pos 0)
    then eq_ℤ (pos n) b
    else let m = int64 (int64 (pos n -ℤ b) /ℤ a) in
      is_nonneg m && eq_ℤ (int64 (int64 (a *ℤ m) +ℤ b)) (pos n)

-- The same test on integers without bounds.
unfoldable anb_unbounded : ℤ → ℤ → ℕ → Bool
anb_unbounded a b n =
    if eq_ℤ a (pos 0)
    then eq_ℤ (pos n) b
    else let m = (pos n -ℤ b) /ℤ a in is_nonneg m && eq_ℤ (a *ℤ m +ℤ b) (pos n)

-- The positions of `an+b`.
abbrev pub IsAnb : ℤ → ℤ → ℕ → Type 0
IsAnb a b n = (m : ℕ) × (a *ℤ pos m +ℤ b ≡ pos n)

zero_times : (m : ℕ) (b : ℤ) → pos 0 *ℤ pos m +ℤ b ≡ b
unfolding ◌*ℤ◌ ◌+ℤ◌
zero_times m b = ground arith

-- A product, rounded as C does, over its first factor.
times-quotient : (a : ℤ) (m : ℕ) → eq_ℤ a (pos 0) ≡ false → (a *ℤ pos m) /ℤ a ≡ pos m
unfolding ◌*ℤ◌ ◌/ℤ◌
times-quotient (pos zero) m h = ground arith
times-quotient (pos (suc k)) m h = ground (arith, mul-div_cancel m {n = suc k} (omega arith))
times-quotient (negsuc k) zero h = ground arith
times-quotient (negsuc k) (suc m) h =
    ground (arith, mul-div_cancel (suc m) {n = suc k} (omega arith))

add_sub : (x b : ℤ) → x +ℤ b -ℤ b ≡ x
unfolding ◌+ℤ◌ ◌-ℤ◌
add_sub x b = ground arith

eq_ℤ-sound : (a b : ℤ) → eq_ℤ a b ≡ true → a ≡ b
eq_ℤ-sound a b h = ground (arith, eq_of_parts a b)

is_nonneg-cases : (x : ℤ) → is_nonneg x ≡ true → (m : ℕ) × (x ≡ pos m)
is_nonneg-cases (pos m) h = (m, refl)
is_nonneg-cases (negsuc m) h = cc

both : (p q : Bool) → (p && q) ≡ true → (p ≡ true) × (q ≡ true)
both p q h = ground arith

IsAnb-match_sound : (a b : ℤ) (n : ℕ) → anb_unbounded a b n ≡ true → IsAnb a b n
unfolding anb_unbounded
IsAnb-match_sound a b n h = elim (Bool-cases (eq_ℤ a (pos 0))) [
  | inl p ↦
      (0, rw (eq_ℤ-sound a (pos 0) p) (zero_times 0 b ∙ sym (eq_ℤ-sound (pos n) b (ground arith))))
  | inr p ↦
      let q =
        both (is_nonneg ((pos n -ℤ b) /ℤ a)) (eq_ℤ (a *ℤ ((pos n -ℤ b) /ℤ a) +ℤ b) (pos n))
          (sym (rw p refl) ∙ h) in
      let (m, e) = is_nonneg-cases ((pos n -ℤ b) /ℤ a) q.0 in
      (
        m,
        ap (λ (t : ℤ). a *ℤ t +ℤ b) (sym e)
            ∙ eq_ℤ-sound (a *ℤ ((pos n -ℤ b) /ℤ a) +ℤ b) (pos n) q.1,
      )
]

IsAnb-match_complete : (a b : ℤ) (n : ℕ) → IsAnb a b n → anb_unbounded a b n ≡ true
unfolding anb_unbounded
IsAnb-match_complete a b n (m, h) = elim (Bool-cases (eq_ℤ a (pos 0))) [
  | inl p ↦
      let e =
        sym (zero_times m b) ∙ ap (λ (t : ℤ). t *ℤ pos m +ℤ b) (sym (eq_ℤ-sound a (pos 0) p)) ∙ h in
      rw (p, e) (==_refl (n + 0))
  | inr p ↦
      rw (p, ap (λ (t : ℤ). t -ℤ b) (sym h) ∙ add_sub (a *ℤ pos m) b, times-quotient a m p, h)
        (==_refl (n + 0))
]

-- A quotient is no larger than what is divided, and times the divisor it is no larger either.
quotient_le : (d a : ℤ) → pos_part (d /ℤ a) + neg_part (d /ℤ a) ≤ pos_part d + neg_part d
unfolding ◌/ℤ◌
quotient_le (pos x) (pos y) = ground (arith, div-le_self x y)
quotient_le (pos x) (negsuc y) = ground (arith, div-le_self x (suc y))
quotient_le (negsuc x) (pos y) = ground (arith, div-le_self (suc x) y)
quotient_le (negsuc x) (negsuc y) = ground (arith, div-le_self (suc x) (suc y))

minus_pos : (a b : ℕ) → pos_part (sub_ℕ a b) ≡ a - b
minus_pos a b = ground arith

minus_neg : (a b : ℕ) → neg_part (sub_ℕ a b) ≡ b - a
minus_neg a b = ground arith

pos_times :
    (a m : ℤ) (p q : ℕ)
    → pos_part m ≡ p
    → neg_part m ≡ q
    → pos_part (a *ℤ m) ≡ pos_part a * p + neg_part a * q - (pos_part a * q + neg_part a * p)
unfolding ◌*ℤ◌
pos_times a m p q e f = rw (minus_pos, e, f) refl

neg_times :
    (a m : ℤ) (p q : ℕ)
    → pos_part m ≡ p
    → neg_part m ≡ q
    → neg_part (a *ℤ m) ≡ pos_part a * q + neg_part a * p - (pos_part a * p + neg_part a * q)
unfolding ◌*ℤ◌
neg_times a m p q e f = rw (minus_neg, e, f) refl

times_le :
    (d a : ℤ) → (pos_part (a *ℤ (d /ℤ a)) ≤ pos_part d) × (neg_part (a *ℤ (d /ℤ a)) ≤ neg_part d)
unfolding ◌/ℤ◌
times_le (pos x) (pos y) =
    let product = mul-div-le x y in
    let above = pos_times (pos y) (pos (x / y)) (x / y) 0 refl refl in
    let below = neg_times (pos y) (pos (x / y)) (x / y) 0 refl refl in
    (omega (arith, product, above), omega (arith, product, below))
times_le (pos x) (negsuc y) =
    let q = x / suc y in
    let product = mul-div-le x (suc y) in
    let above = pos_times (negsuc y) (sub_ℕ 0 q) 0 q (ground arith) (ground arith) in
    let below = neg_times (negsuc y) (sub_ℕ 0 q) 0 q (ground arith) (ground arith) in
    (omega (arith, product, above), omega (arith, product, below))
times_le (negsuc x) (pos y) =
    let q = suc x / y in
    let product = mul-div-le (suc x) y in
    let above = pos_times (pos y) (sub_ℕ 0 q) 0 q (ground arith) (ground arith) in
    let below = neg_times (pos y) (sub_ℕ 0 q) 0 q (ground arith) (ground arith) in
    (omega (arith, product, above), omega (arith, product, below))
times_le (negsuc x) (negsuc y) =
    let q = suc x / suc y in
    let product = mul-div-le (suc x) (suc y) in
    let above = pos_times (negsuc y) (pos q) q 0 refl refl in
    let below = neg_times (negsuc y) (pos q) q 0 refl refl in
    (omega (arith, product, above), omega (arith, product, below))

-- What lies between 0 and n - b lies between b and n when b is added.
between :
    (x b : ℤ) (n : ℕ)
    → IsInt64 b
    → n < int64_end
    → pos_part x ≤ pos_part (pos n -ℤ b)
    → neg_part x ≤ neg_part (pos n -ℤ b)
    → IsInt64 (x +ℤ b)
unfolding ◌+ℤ◌ ◌-ℤ◌
between x b n (h, k) l p q = ground arith

difference_small :
    (b : ℤ) (n : ℕ)
    → IsInt64 b
    → IsInt64 (pos n -ℤ b)
    → pos_part (pos n -ℤ b) + neg_part (pos n -ℤ b) < int64_end
unfolding ◌-ℤ◌
difference_small b n (h, k) l = ground arith

-- Without overflow in `n - b`, nothing overflows.
anb_exact :
    (a b : ℤ) (n : ℕ)
    → IsInt64 b
    → n < int64_end
    → IsInt64 (pos n -ℤ b)
    → c_anb_match a b n ≡ anb_unbounded a b n
unfolding c_anb_match anb_unbounded
anb_exact a b n h l k = elim (Bool-cases (eq_ℤ a (pos 0))) [
  | inl p ↦ rw p refl
  | inr p ↦
      let d = pos n -ℤ b in
      let m = d /ℤ a in
      let fits = quotient_le d a in
      let (above, below) = times_le d a in
      let small = difference_small b n h k in
      let m_fits : IsInt64 m = (omega (arith, fits, small), omega (arith, fits, small)) in
      let product_fits : IsInt64 (a *ℤ m) =
        (omega (arith, above, small), omega (arith, below, small)) in
      let whole = between (a *ℤ m) b n h l above below in
      rw
        (
          p,
          int64-fits d k,
          int64-fits m m_fits,
          int64-fits (a *ℤ m) product_fits,
          int64-fits (a *ℤ m +ℤ b) whole,
        )
        refl
]

-- Where `b`, the position n and n - b are integers of 64 bits, `:nth-child(an+b)` and its kin hold of n
-- exactly when n is a·m + b for a natural number m, for every sign of a and b: the product and the sum
-- do not overflow.
pub c_anb_match_iff :
    (a b : ℤ) (n : ℕ)
    → IsInt64 b
    → n < int64_end
    → IsInt64 (pos n -ℤ b)
    → (c_anb_match a b n ≡ true) ↔ IsAnb a b n
c_anb_match_iff a b n h l k =
    let e = anb_exact a b n h l k in
    (λ q. IsAnb-match_sound a b n (sym e ∙ q), λ q. e ∙ IsAnb-match_complete a b n q)
