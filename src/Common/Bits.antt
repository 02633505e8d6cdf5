-- ===== src/Common/Bits.antt =====
-- `|` on native numbers: `(q << k) | r` for an `r` of at most `k` bits is a sum.
use Prim.Native.Nat.{
  ℕ, zero, suc, ◌+◌, ◌*◌, ◌/◌, ◌^◌, ◌≤◌, ◌<◌, max, bit_or, digits, bit_or-bitwise,
}
use mathlib.Core.Path.{◌≡◌, refl, ap, ◌∙◌}
use mathlib.Core.Bool.{Bool, true, false}
use native.Mathlib.Nat.{pow-suc}
use native.Mathlib.Omega.{arith}
use quickjs_runtime.Common.Tests.{if◌then◌else◌}

mul-pow-suc : (q k : ℕ) → q * 2 ^ suc k ≡ 2 * (q * 2 ^ k)
mul-pow-suc q k = omega (arith, ap (λ (t : ℕ). q * t) (pow-suc 2 k))

-- The digits of `x | r`, for an `x` whose last `k` digits are zero and an `r` of `k` digits.
or_digits_shifted :
    (n x k q r : ℕ) → x ≡ q * 2 ^ k → x ≤ n → r < 2 ^ k → digits (λ b. b) max n x r ≡ x + r
or_digits_shifted zero zero k q r e le lt = omega arith
or_digits_shifted (suc n) zero k q r e le lt = omega arith
or_digits_shifted zero (suc x) k q r e le lt = absurd (omega arith)
or_digits_shifted (suc n) (suc x) zero q r e le lt =
    let rest =
      or_digits_shifted n (suc x / 2) 0 (suc x / 2) (r / 2) (omega arith) (omega arith)
        (omega arith) in
    omega (arith, rest)
or_digits_shifted (suc n) (suc x) (suc k) q r e le lt =
    let half = mul-pow-suc q k in
    let rest =
      or_digits_shifted n (suc x / 2) k q (r / 2) (omega (arith, half)) (omega arith)
        (omega (arith, pow-suc 2 k)) in
    omega (arith, rest, half)

pub bit_or-shifted : (k q r : ℕ) → r < 2 ^ k → bit_or (q * 2 ^ k) r ≡ q * 2 ^ k + r
bit_or-shifted k q r h =
    bit_or-bitwise (q * 2 ^ k) r
    ∙ or_digits_shifted (q * 2 ^ k) (q * 2 ^ k) k q r refl (omega arith) h

-- To check a fact of every byte by evaluation.
unfoldable pub holds_to : (ℕ → Bool) → ℕ → Bool
holds_to test zero = true
holds_to test (suc k) = let earlier = holds_to test k in if test k then earlier else false

pub holds_to_sound : (test : ℕ → Bool) (k c : ℕ) → c < k → holds_to test k ≡ true → test c ≡ true
unfolding holds_to
holds_to_sound test zero c lt h = absurd (omega arith)
holds_to_sound test (suc k) c lt h = ground (arith, holds_to_sound test k c)
