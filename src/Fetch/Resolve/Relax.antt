-- ===== src/Fetch/Resolve/Relax.antt =====
-- What `relax` makes of the part behind the authority.
use quickjs_runtime.Common.{
  Bool-cases, [], ap, arith, bit_or, false, get_or, inl, inr, none, refl, some, sym, true, ℕ, ◌%◌,
  ◌&&◌, ◌*◌, ◌+◌, ◌-◌, ◌/◌, ◌<◌, ◌==◌, ◌^◌, ◌||◌, ◌∙◌, ◌∷◌, ◌≡◌, ◌⊎◌,
}
use quickjs_runtime.Common.Bits.{holds_to, holds_to_sound}
use quickjs_runtime.Common.Bytes.{All, Bytes, IsByte, between}
use quickjs_runtime.Fetch.Percent.{
  escaped, hex, hex_pair, percent_decode, percent_decode_escape, percent_decode_plain,
}
use quickjs_runtime.Fetch.Resolve.{is_hex, is_safe, relax_byte, relax_from, two_hex}
use quickjs_runtime.Web.Utf8.{upper_hex}

hex_digits_safe : (c : ℕ) → is_hex c ≡ true → is_safe c ≡ true
unfolding is_hex is_safe
hex_digits_safe c h = ground arith

safe-ne_percent : (c : ℕ) → is_safe c ≡ true → (c == b'%') ≡ false
unfolding is_safe
safe-ne_percent c h = ground arith

hex-is_hex :
    (c : ℕ)
    → ((is_hex c ≡ true) × ((v : ℕ) × (hex c ≡ some v))) ⊎ ((is_hex c ≡ false) × (hex c ≡ none))
unfolding is_hex hex
hex-is_hex c = elim (Bool-cases (between b'0' b'9' c)) [
  | inl d ↦ rw d (inl (refl, (c - b'0', refl)))
  | inr d ↦ elim (Bool-cases (between b'a' b'f' c)) [
    | inl l ↦ rw (d, l) (inl (refl, (c - b'a' + 10, refl)))
    | inr l ↦ elim (Bool-cases (between b'A' b'F' c)) [
      | inl u ↦ rw (d, l, u) (inl (refl, (c - b'A' + 10, refl)))
      | inr u ↦ rw (d, l, u) (inr (refl, refl))
    ]
  ]
]

-- An escape that is spelled out is one byte to the decoder.
escaped-two_hex :
    (x y : ℕ) (rest : Bytes) → two_hex (x ∷ y ∷ rest) ≡ true → (v : ℕ) × (escaped b'%' x y ≡ some v)
unfolding two_hex escaped hex_pair
escaped-two_hex x y rest h = elim (hex-is_hex x) [
  | inl (_, (v, hx)) ↦ elim (hex-is_hex y) [
    | inl (_, (w, hy)) ↦ rw (hx, hy) (bit_or (v * 2 ^ 4) w % 256, refl)
    | inr (n, _) ↦ absurd (ground (arith, n, h))
  ]
  | inr (n, _) ↦ absurd (ground (arith, n, h))
]

escaped_not_two_hex :
    (x y : ℕ) (rest : Bytes) → two_hex (x ∷ y ∷ rest) ≡ false → escaped b'%' x y ≡ none
unfolding two_hex escaped hex_pair
escaped_not_two_hex x y rest h = elim (hex-is_hex x) [
  | inl (p, (v, hx)) ↦ elim (hex-is_hex y) [
    | inl (q, _) ↦ absurd (ground (arith, p, q, h))
    | inr (_, hy) ↦ rw (hx, hy)
  ]
  | inr (_, hx) ↦ rw hx
]

-- A `%` that no two digits follow stands for itself.
percent_decode_bare :
    (c : ℕ) (cs : Bytes)
    → (c == b'%' && two_hex cs) ≡ false
    → percent_decode (c ∷ cs) ≡ c ∷ percent_decode cs
percent_decode_bare c cs h = elim (Bool-cases (c == b'%')) [
  | inl e ↦ let p : c ≡ b'%' = ground (arith, e) in rw p (bare cs (ground (arith, e, h)))
  | inr n ↦ percent_decode_plain c cs n
]
  where
    bare : (cs : Bytes) → two_hex cs ≡ false → percent_decode (b'%' ∷ cs) ≡ b'%' ∷ percent_decode cs
    bare [] f = unfold percent_decode in refl
    bare (x ∷ []) f = unfold percent_decode in refl
    bare (x ∷ y ∷ rest) f =
        unfold percent_decode in rw (escaped_not_two_hex x y rest f, percent_decode)

-- `relax_byte` keeps a byte, or writes it as an escape.
relax_byte_keep :
    (c : ℕ) (rest : Bytes)
    → (is_safe c || (c == b'%' && two_hex rest)) ≡ true
    → relax_byte c rest ≡ c ∷ []
unfolding relax_byte
relax_byte_keep c rest h = rw h

relax_byte_escape :
    (c : ℕ) (rest : Bytes)
    → (is_safe c || (c == b'%' && two_hex rest)) ≡ false
    → relax_byte c rest
      ≡ b'%' ∷ get_or upper_hex (c / 2 ^ 4) 0 ∷ get_or upper_hex (c % 2 ^ 4) 0 ∷ []
unfolding relax_byte
relax_byte_escape c rest h = rw h

safe_keep : (c : ℕ) (rest : Bytes) → is_safe c ≡ true → relax_byte c rest ≡ c ∷ []
safe_keep c rest h = relax_byte_keep c rest (rw h)

two_hex-safe :
    (x y : ℕ) (rest : Bytes)
    → two_hex (x ∷ y ∷ rest) ≡ true
    → (is_safe x ≡ true) × (is_safe y ≡ true)
unfolding two_hex
two_hex-safe x y rest h =
    (hex_digits_safe x (ground (arith, h)), hex_digits_safe y (ground (arith, h)))

two_hex_parts :
    (x y : ℕ) (rest : Bytes) → two_hex (x ∷ y ∷ rest) ≡ true → (is_hex x ≡ true) × (is_hex y ≡ true)
unfolding two_hex
two_hex_parts x y rest h = ground (arith, h)

two_hex_join :
    (x y : ℕ) (rest : Bytes) → is_hex x ≡ true → is_hex y ≡ true → two_hex (x ∷ y ∷ rest) ≡ true
unfolding two_hex
two_hex_join x y rest hx hy = rw (hx, hy)

relax_from_escape :
    (x y : ℕ) (rest : Bytes)
    → two_hex (x ∷ y ∷ rest) ≡ true
    → relax_from (b'%' ∷ x ∷ y ∷ rest) ≡ b'%' ∷ x ∷ y ∷ relax_from rest
unfolding relax_from
relax_from_escape x y rest h =
    let (hx, hy) = two_hex-safe x y rest h in
    rw (
      relax_byte_keep b'%' (x ∷ y ∷ rest) (rw h (ground arith)),
      safe_keep x (y ∷ rest) hx,
      safe_keep y rest hy,
    )

relax_from_keep : (c : ℕ) (cs : Bytes) → is_safe c ≡ true → relax_from (c ∷ cs) ≡ c ∷ relax_from cs
unfolding relax_from
relax_from_keep c cs h = rw (safe_keep c cs h)

relax_from_write :
    (c : ℕ) (cs : Bytes)
    → (is_safe c || (c == b'%' && two_hex cs)) ≡ false
    → relax_from (c ∷ cs)
      ≡ b'%' ∷ get_or upper_hex (c / 2 ^ 4) 0 ∷ get_or upper_hex (c % 2 ^ 4) 0 ∷ relax_from cs
unfolding relax_from
relax_from_write c cs h = rw (relax_byte_escape c cs h)

percent_decode_triple :
    (v x y : ℕ) (s : Bytes)
    → escaped b'%' x y ≡ some v
    → percent_decode (b'%' ∷ x ∷ y ∷ s) ≡ v ∷ percent_decode s
unfolding percent_decode
percent_decode_triple v x y s e = rw (e, percent_decode)

-- At a byte that begins no escape.
relax_step :
    (c : ℕ) (cs : Bytes)
    → c < 256
    → (c == b'%' && two_hex cs) ≡ false
    → percent_decode (relax_from cs) ≡ percent_decode cs
    → percent_decode (relax_from (c ∷ cs)) ≡ percent_decode (c ∷ cs)
relax_step c cs hc f ih = elim (Bool-cases (is_safe c)) [
  | inl s ↦ rw (relax_from_keep c cs s) (
      percent_decode_plain c _ (safe-ne_percent c s)
      ∙ ap (◌∷◌ c) ih
      ∙ sym (percent_decode_plain c cs (safe-ne_percent c s)))
  | inr u ↦
      rw (relax_from_write c cs (rw (u, f)))
        (percent_decode_escape c _ hc ∙ ap (◌∷◌ c) ih ∙ sym (percent_decode_bare c cs f))
]

no_hex_nil : (c : ℕ) → (c == b'%' && two_hex []) ≡ false
unfolding two_hex
no_hex_nil c = ground arith

no_hex_one : (c x : ℕ) → (c == b'%' && two_hex (x ∷ [])) ≡ false
unfolding two_hex
no_hex_one c x = ground arith

-- Relaxing changes how bytes are written, and not what they stand for: the relaxed text decodes to
-- the bytes that the original decodes to.
pub percent_decode-relax_from :
    (s : Bytes) → All IsByte s → percent_decode (relax_from s) ≡ percent_decode s
percent_decode-relax_from [] h = unfold relax_from in refl
percent_decode-relax_from (c ∷ []) h =
    relax_step c [] h.0 (no_hex_nil c) (unfold relax_from in refl)
percent_decode-relax_from (c ∷ x ∷ []) h =
    relax_step c (x ∷ []) h.0 (no_hex_one c x) (percent_decode-relax_from (x ∷ []) h.1)
percent_decode-relax_from (c ∷ x ∷ y ∷ rest) (hc, hs) =
    let ih = percent_decode-relax_from (x ∷ y ∷ rest) hs in
    let ih_rest = percent_decode-relax_from rest hs.1.1 in
    elim (Bool-cases (c == b'%' && two_hex (x ∷ y ∷ rest))) [
      | inl t ↦ go t ih_rest
      | inr f ↦ relax_step c (x ∷ y ∷ rest) hc f ih
    ]
  where
    go :
        (c == b'%' && two_hex (x ∷ y ∷ rest)) ≡ true
        → percent_decode (relax_from rest) ≡ percent_decode rest
        → percent_decode (relax_from (c ∷ x ∷ y ∷ rest)) ≡ percent_decode (c ∷ x ∷ y ∷ rest)
    go t ih_rest =
        let e : c ≡ b'%' = ground (arith, t) in
        let two : two_hex (x ∷ y ∷ rest) ≡ true = ground (arith, t) in
        let (v, esc) = escaped-two_hex x y rest two in
        rw (e, relax_from_escape x y rest two)
          (percent_decode_triple v x y (relax_from rest) esc
            ∙ ap (◌∷◌ v) ih_rest
            ∙ sym (percent_decode_triple v x y rest esc))

-- Every byte of the relaxed text is one that the grammar takes there, or `%` before two digits.
pub data IsRelaxed : Bytes → Type 0 where
  nil : IsRelaxed []
  safe : {c : ℕ} {s : Bytes} → is_safe c ≡ true → IsRelaxed s → IsRelaxed (c ∷ s)
  escape :
      {x y : ℕ} {s : Bytes}
      → is_hex x ≡ true
      → is_hex y ≡ true
      → IsRelaxed s
      → IsRelaxed (b'%' ∷ x ∷ y ∷ s)

upper_hex-is_hex_table : holds_to (λ d. is_hex (get_or upper_hex d 0)) 16 ≡ true
unfolding holds_to is_hex
upper_hex-is_hex_table = refl

upper_hex-is_hex : (d : ℕ) → d < 16 → is_hex (get_or upper_hex d 0) ≡ true
upper_hex-is_hex d h =
    holds_to_sound (λ d. is_hex (get_or upper_hex d 0)) 16 d h upper_hex-is_hex_table

IsRelaxed-step :
    (c : ℕ) (cs : Bytes)
    → c < 256
    → (c == b'%' && two_hex cs) ≡ false
    → IsRelaxed (relax_from cs)
    → IsRelaxed (relax_from (c ∷ cs))
IsRelaxed-step c cs hc f r = elim (Bool-cases (is_safe c)) [
  | inl s ↦ rw (relax_from_keep c cs s) (safe s r)
  | inr u ↦ rw (relax_from_write c cs (rw (u, f))) (
      escape (upper_hex-is_hex (c / 2 ^ 4) (omega arith))
        (upper_hex-is_hex (c % 2 ^ 4) (omega arith)) r)
]

pub relax_from-IsRelaxed : (s : Bytes) → All IsByte s → IsRelaxed (relax_from s)
relax_from-IsRelaxed [] h = unfold relax_from in nil
relax_from-IsRelaxed (c ∷ []) h = IsRelaxed-step c [] h.0 (no_hex_nil c) (unfold relax_from in nil)
relax_from-IsRelaxed (c ∷ x ∷ []) h =
    IsRelaxed-step c (x ∷ []) h.0 (no_hex_one c x) (relax_from-IsRelaxed (x ∷ []) h.1)
relax_from-IsRelaxed (c ∷ x ∷ y ∷ rest) (hc, hs) =
    let ih = relax_from-IsRelaxed (x ∷ y ∷ rest) hs in
    let ih_rest = relax_from-IsRelaxed rest hs.1.1 in
    elim (Bool-cases (c == b'%' && two_hex (x ∷ y ∷ rest))) [
      | inl t ↦
          let e : c ≡ b'%' = ground (arith, t) in
          let two : two_hex (x ∷ y ∷ rest) ≡ true = ground (arith, t) in
          rw (e, relax_from_escape x y rest two)
            (escape (two_hex_parts x y rest two).0 (two_hex_parts x y rest two).1 ih_rest)
      | inr f ↦ IsRelaxed-step c (x ∷ y ∷ rest) hc f ih
    ]

-- A text that is relaxed already is left as it is, so relaxing twice is relaxing once.
relax_from_idem : (s : Bytes) → All IsByte s → relax_from (relax_from s) ≡ relax_from s
relax_from_idem s h = fixed (relax_from-IsRelaxed s h)
  where
    fixed : {t : Bytes} → IsRelaxed t → relax_from t ≡ t
    fixed nil = unfold relax_from in refl
    fixed (safe {c} {s = cs} g r) = relax_from_keep c cs g ∙ ap (◌∷◌ c) (fixed r)
    fixed (escape {x} {y} {s = cs} hx hy r) =
        relax_from_escape x y cs (two_hex_join x y cs hx hy) ∙ ap (λ u. b'%' ∷ x ∷ y ∷ u) (fixed r)
