-- ===== src/Fetch/HeaderOps/Names.antt =====
-- When two header names count as one: `x | 32` against ASCII case.
use quickjs_runtime.Common.{
  Bool, Bool-cases, [], ap, arith, if◌then◌else◌, inl, inr, map, refl, sym, true, ℕ, ◌&&◌, ◌++◌,
  ◌<◌, ◌==◌, ◌||◌, ◌↔◌, ◌∙◌, ◌∷◌, ◌≡◌, ◌≢◌,
}
use quickjs_runtime.Common.Bits.{holds_to, holds_to_sound}
use quickjs_runtime.Common.Bytes.{All, Bytes, between, to_lower}
use quickjs_runtime.Fetch.HeaderOps.{fold, header_name_eq, same_folded}

-- The comparison is the equality of the folded names.
pub header_name_eq_iff : (a b : Bytes) → (header_name_eq a b ≡ true) ↔ (map fold a ≡ map fold b)
unfolding header_name_eq same_folded
header_name_eq_iff [] [] = ground arith
header_name_eq_iff [] (y ∷ b) = ground arith
header_name_eq_iff (x ∷ a) [] = ground arith
header_name_eq_iff (x ∷ a) (y ∷ b) = ground (arith, header_name_eq_iff a b)

pub header_name_eq_refl : (a : Bytes) → header_name_eq a a ≡ true
header_name_eq_refl a = (header_name_eq_iff a a).1 refl

-- A name in the class of another is tested alike.
pub header_name_eq_cong :
    (a b c : Bytes) → header_name_eq a b ≡ true → header_name_eq a c ≡ header_name_eq b c
header_name_eq_cong a b c e = elim (Bool-cases (header_name_eq b c)) [
  | inl t ↦
      (header_name_eq_iff a c).1 ((header_name_eq_iff a b).0 e ∙ (header_name_eq_iff b c).0 t)
      ∙ sym t
  | inr f ↦ elim (Bool-cases (header_name_eq a c)) [
    | inl t ↦ absurd (
        ground (
          arith,
          f,
          (header_name_eq_iff b c).1
              (sym ((header_name_eq_iff a b).0 e) ∙ (header_name_eq_iff a c).0 t),
        ))
    | inr g ↦ g ∙ sym f
  ]
]

-- The characters of a field name (RFC 9110's `tchar`) other than `^`.
unfoldable pub is_plain : ℕ → Bool
is_plain c =
    between b'a' b'z' c
    || between b'A' b'Z' c
    || between b'0' b'9' c
    || c == b'!'
    || c == b'#'
    || c == b'$'
    || c == b'%'
    || c == b'&'
    || c == 39
    || c == b'*'
    || c == b'+'
    || c == b'-'
    || c == b'.'
    || c == b'_'
    || c == b'`'
    || c == b'|'
    || c == b'~'

-- On those characters `x | 32` has an inverse up to case.
unfold_letter : ℕ → ℕ
unfold_letter c = if c == 127 then b'_' else c

abbrev fold_fact : ℕ → Bool
fold_fact c =
    (if is_plain c then to_lower c == unfold_letter (fold c) else true)
    && (fold (to_lower c) == fold c)

fold_table : holds_to fold_fact 256 ≡ true
unfolding holds_to is_plain unfold_letter fold to_lower
fold_table = refl

fold_facts : (c : ℕ) → c < 256 → fold_fact c ≡ true
fold_facts c h = holds_to_sound fold_fact 256 c h fold_table

abbrev pub IsPlain : Bytes → Type 0
IsPlain = All (λ c. (c < 256) × (is_plain c ≡ true))

lower_of_fold : (a : Bytes) → IsPlain a → map to_lower a ≡ map unfold_letter (map fold a)
lower_of_fold [] h = refl
lower_of_fold (c ∷ a) h = cc (lower c h.0.0 h.0.1, lower_of_fold a h.1)
  where
    lower : (x : ℕ) → x < 256 → is_plain x ≡ true → to_lower x ≡ unfold_letter (fold x)
    lower x lt p = ground (arith, fold_facts x lt, p)

fold_of_lower : (a : Bytes) → IsPlain a → map fold a ≡ map fold (map to_lower a)
fold_of_lower [] h = refl
fold_of_lower (c ∷ a) h = cc (fold-lower c h.0.0, fold_of_lower a h.1)
  where
    fold-lower : (x : ℕ) → x < 256 → fold (to_lower x) ≡ fold x
    fold-lower x lt = ground (arith, fold_facts x lt)

-- For names of such characters the test is that of ASCII case-insensitive equality.
header_name_eq_lower :
    (a b : Bytes)
    → IsPlain a
    → IsPlain b
    → (header_name_eq a b ≡ true) ↔ (map to_lower a ≡ map to_lower b)
header_name_eq_lower a b ha hb = (
  λ e.
      lower_of_fold a ha
      ∙ ap (map unfold_letter) ((header_name_eq_iff a b).0 e)
      ∙ sym (lower_of_fold b hb),
  λ e. (header_name_eq_iff a b).1 (fold_of_lower a ha ∙ ap (map fold) e ∙ sym (fold_of_lower b hb)),
)

fold_caret : (a b : Bytes) → map fold (a ++ (b'^' ∷ b)) ≡ map fold (a ++ (b'~' ∷ b))
fold_caret [] b = unfold fold in refl
fold_caret (x ∷ a) b = cc (fold_caret a b)

tail_of : Bytes → Bytes
tail_of [] = []
tail_of (x ∷ xs) = xs

to_lower_caret : (a b : Bytes) → map to_lower (a ++ (b'^' ∷ b)) ≢ map to_lower (a ++ (b'~' ∷ b))
unfolding to_lower
to_lower_caret [] b e = ground arith
to_lower_caret (x ∷ a) b e = to_lower_caret a b (unfold tail_of in ap tail_of e)

-- `^` is a character of field names too, and it counts as `~`: names that differ there alone,
-- which no change of case makes equal, are one name to the program.
header_name_eq_caret :
    (a b : Bytes)
    → (header_name_eq (a ++ (b'^' ∷ b)) (a ++ (b'~' ∷ b)) ≡ true)
      × (map to_lower (a ++ (b'^' ∷ b)) ≢ map to_lower (a ++ (b'~' ∷ b)))
header_name_eq_caret a b = (
  (header_name_eq_iff (a ++ (b'^' ∷ b)) (a ++ (b'~' ∷ b))).1 (fold_caret a b),
  to_lower_caret a b,
)
