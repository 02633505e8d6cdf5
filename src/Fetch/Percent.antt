-- ===== src/Fetch/Percent.antt =====
-- include/fetch/types.hpp: `percent_decode`, and its round trip with the `percent_encode` of
-- include/qjsbind/web/utf8.hpp.
use quickjs_runtime.Common.{
  Bool, Bool-cases, Option, [], ap, arith, bit_or, false, get_or, if◌then◌else◌, inl, inr, none,
  refl, some, true, ℕ, ◌%◌, ◌*◌, ◌+◌, ◌-◌, ◌/◌, ◌<◌, ◌==◌, ◌^◌, ◌∙◌, ◌∷◌, ◌≡◌,
}
use quickjs_runtime.Common.Bits.{holds_to, holds_to_sound}
use quickjs_runtime.Common.Bytes.{All, Bytes, IsByte, between}
use quickjs_runtime.Web.Utf8.{is_unreserved, percent_encode, percent_encode_byte, upper_hex}

-- `hex`; `none` is -1.
unfoldable pub hex : ℕ → Option ℕ
hex c =
    if between b'0' b'9' c
    then some (c - b'0')
    else if between b'a' b'f' c
    then some (c - b'a' + 10)
    else if between b'A' b'F' c
    then some (c - b'A' + 10)
    else none

unfoldable pub hex_pair : Option ℕ → Option ℕ → Option ℕ
hex_pair (some h) (some l) = some (bit_or (h * 2 ^ 4) l % 256)
hex_pair _ _ = none

-- The byte that `c x y` spells, if `c` is `%` and two hexadecimal digits follow.
unfoldable pub escaped : ℕ → ℕ → ℕ → Option ℕ
escaped c x y = if c == b'%' then hex_pair (hex x) (hex y) else none

unfoldable pub percent_decode : Bytes → Bytes
percent_decode [] = []
percent_decode (c ∷ []) = c ∷ []
percent_decode (c ∷ x ∷ []) = c ∷ x ∷ []
percent_decode (c ∷ x ∷ y ∷ rest) =
    let after = percent_decode rest in
    let next = percent_decode (x ∷ y ∷ rest) in
    elim (escaped c x y) [ some v ↦ v ∷ after | none ↦ c ∷ next ]

opt_is : Option ℕ → ℕ → Bool
opt_is none v = false
opt_is (some u) v = u == v

opt_is_sound : (o : Option ℕ) (v : ℕ) → opt_is o v ≡ true → o ≡ some v
unfolding opt_is
opt_is_sound none v h = cc
opt_is_sound (some u) v h = ground arith

abbrev pub escape_of : ℕ → Option ℕ
escape_of c = escaped b'%' (get_or upper_hex (c / 2 ^ 4) 0) (get_or upper_hex (c % 2 ^ 4) 0)

escape_table : holds_to (λ c. opt_is (escape_of c) c) 256 ≡ true
unfolding holds_to opt_is escaped hex_pair hex
escape_table = refl

pub escape-of_byte : (c : ℕ) → c < 256 → escape_of c ≡ some c
escape-of_byte c h = opt_is_sound _ c (holds_to_sound _ 256 c h escape_table)

pub unreserved-ne_percent : (c : ℕ) → is_unreserved c ≡ true → (c == b'%') ≡ false
unfolding is_unreserved
unreserved-ne_percent c h = ground arith

pub percent_decode_plain :
    (c : ℕ) (s : Bytes) → (c == b'%') ≡ false → percent_decode (c ∷ s) ≡ c ∷ percent_decode s
unfolding percent_decode escaped
percent_decode_plain c [] h = refl
percent_decode_plain c (x ∷ []) h = refl
percent_decode_plain c (x ∷ y ∷ s) h = rw (h, percent_decode)

pub percent_decode_escape :
    (c : ℕ) (s : Bytes)
    → c < 256
    → percent_decode (b'%' ∷ get_or upper_hex (c / 2 ^ 4) 0 ∷ get_or upper_hex (c % 2 ^ 4) 0 ∷ s)
      ≡ c ∷ percent_decode s
unfolding percent_decode
percent_decode_escape c s h = rw (escape-of_byte c h, percent_decode)

-- Any bytes that were percent-encoded, a space as `%20`, are decoded to themselves.
pub percent_decode-encode : (s : Bytes) → All IsByte s → percent_decode (percent_encode s false) ≡ s
unfolding percent_encode percent_encode_byte
percent_decode-encode [] h = unfold percent_decode in refl
percent_decode-encode (c ∷ s) (hc, h) =
    let ih = percent_decode-encode s h in
    elim (Bool-cases (is_unreserved c)) [
      | inl u ↦ rw u (percent_decode_plain c _ (unreserved-ne_percent c u) ∙ ap (◌∷◌ c) ih)
      | inr n ↦ elim (Bool-cases (c == b' ')) [
        | inl p ↦ rw (n, p) (percent_decode_escape c _ hc ∙ ap (◌∷◌ c) ih)
        | inr p ↦ rw (n, p) (percent_decode_escape c _ hc ∙ ap (◌∷◌ c) ih)
      ]
    ]
