-- ===== src/Fetch/Base64/RoundTrip.antt =====
-- Decoding what `base64_encode` wrote.
use mathlib.Core.List.{append-nil, append_assoc}
use quickjs_runtime.Common.{
  Bool, Option, [], ap, arith, bit_or, false, if◌then◌else◌, leb, none, refl, some, true, ℕ, ◌%◌,
  ◌*◌, ◌++◌, ◌+◌, ◌-◌, ◌/◌, ◌<◌, ◌==◌, ◌^◌, ◌∙◌, ◌∷◌, ◌≡◌,
}
use quickjs_runtime.Common.Bits.{bit_or-shifted, holds_to, holds_to_sound}
use quickjs_runtime.Common.Bytes.{All, Bytes, IsByte, find}
use quickjs_runtime.Fetch.Base64.{
  base64_decode, base64_encode, decode_loop, encode_group, letter, push_sextet, rev, top_byte,
}

opt_is : Option ℕ → ℕ → Bool
opt_is none v = false
opt_is (some u) v = u == v

opt_is_sound : (o : Option ℕ) (v : ℕ) → opt_is o v ≡ true → o ≡ some v
unfolding opt_is
opt_is_sound none v h = cc
opt_is_sound (some u) v h = ground arith

rev-letter_table : holds_to (λ v. opt_is (rev (letter v)) v) 64 ≡ true
unfolding holds_to rev letter opt_is find
rev-letter_table = refl

not_pad_table : holds_to (λ v. if letter v == b'=' then false else true) 64 ≡ true
unfolding holds_to letter
not_pad_table = refl

pub rev-letter : (v : ℕ) → v < 64 → rev (letter v) ≡ some v
rev-letter v h = opt_is_sound _ v (holds_to_sound _ 64 v h rev-letter_table)

pub letter-ne_pad : (v : ℕ) → v < 64 → (letter v == b'=') ≡ false
letter-ne_pad v h = ground (arith, holds_to_sound _ 64 v h not_pad_table)

-- `|` is `+` here, since the low six bits of the shifted word are clear.
pub push_sextet_sum : (buf v : ℕ) → v < 64 → push_sextet buf v ≡ buf * 64 % 2 ^ 32 + v
unfolding push_sextet
push_sextet_sum buf v h =
    let q = buf % 2 ^ 26 in
    let e : buf * 2 ^ 6 % 2 ^ 32 ≡ q * 2 ^ 6 = omega arith in
    rw e (bit_or-shifted 6 q v (omega arith) ∙ omega arith)

-- One letter of the alphabet, in the middle of a text.
decode-letter :
    (v : ℕ) (cs : Bytes) (buf bits : ℕ) (out : Bytes)
    → v < 64
    → decode_loop (letter v ∷ cs) buf bits out ≡ (
        let full = leb 8 (bits + 6) in
        decode_loop cs
          (push_sextet buf v)
          (if full then bits + 6 - 8 else bits + 6)
          (if full then out ++ (top_byte (push_sextet buf v) (bits + 6 - 8) ∷ []) else out))
decode-letter v cs buf bits out h =
    unfold decode_loop in rw (letter-ne_pad v h) (rw (rev-letter v h) refl)

-- What the last two sextets leave at each of the three places where a byte is taken.
module _ (buf u v : ℕ) (hu : u < 64) (hv : v < 64) where
  top_byte_four : top_byte (push_sextet (push_sextet buf u) v) 4 ≡ u * 4 % 256 + v / 16
  unfolding top_byte
  top_byte_four = omega (arith, push_sextet_sum buf u hu, push_sextet_sum (push_sextet buf u) v hv)

  top_byte_two : top_byte (push_sextet (push_sextet buf u) v) 2 ≡ u * 16 % 256 + v / 4
  unfolding top_byte
  top_byte_two = omega (arith, push_sextet_sum buf u hu, push_sextet_sum (push_sextet buf u) v hv)

  top_byte_zero : top_byte (push_sextet (push_sextet buf u) v) 0 ≡ u * 64 % 256 + v
  unfolding top_byte
  top_byte_zero = omega (arith, push_sextet_sum buf u hu, push_sextet_sum (push_sextet buf u) v hv)

-- Two, three and four letters in a row, from an empty bit buffer.
module _ (buf : ℕ) (out cs : Bytes) (p q : ℕ) (hp : p < 64) (hq : q < 64) where
  decode_two :
      decode_loop (letter p ∷ letter q ∷ cs) buf 0 out
      ≡ decode_loop cs (push_sextet (push_sextet buf p) q) 4 (out ++ ((p * 4 % 256 + q / 16) ∷ []))
  decode_two =
      decode-letter p (letter q ∷ cs) buf 0 out hp
      ∙ decode-letter q cs (push_sextet buf p) 6 out hq
      ∙ rw (top_byte_four buf p q hp hq)

decode_three :
    (buf : ℕ) (out cs : Bytes) (p q r : ℕ)
    → p < 64
    → q < 64
    → r < 64
    → decode_loop (letter p ∷ letter q ∷ letter r ∷ cs) buf 0 out
      ≡ decode_loop cs
          (push_sextet (push_sextet (push_sextet buf p) q) r)
          2
          ((out ++ ((p * 4 % 256 + q / 16) ∷ [])) ++ ((q * 16 % 256 + r / 4) ∷ []))
decode_three buf out cs p q r hp hq hr =
    decode_two buf out (letter r ∷ cs) p q hp hq
    ∙ decode-letter r cs (push_sextet (push_sextet buf p) q) 4 _ hr
    ∙ rw (top_byte_two (push_sextet buf p) q r hq hr)

decode_four :
    (buf : ℕ) (out cs : Bytes) (p q r s : ℕ)
    → p < 64
    → q < 64
    → r < 64
    → s < 64
    → decode_loop (letter p ∷ letter q ∷ letter r ∷ letter s ∷ cs) buf 0 out
      ≡ decode_loop cs (push_sextet (push_sextet (push_sextet (push_sextet buf p) q) r) s) 0 (
          ((out ++ ((p * 4 % 256 + q / 16) ∷ [])) ++ ((q * 16 % 256 + r / 4) ∷ []))
          ++ ((r * 64 % 256 + s) ∷ []))
decode_four buf out cs p q r s hp hq hr hs =
    decode_three buf out (letter s ∷ cs) p q r hp hq hr
    ∙ decode-letter s cs (push_sextet (push_sextet (push_sextet buf p) q) r) 2 _ hs
    ∙ rw (top_byte_zero (push_sextet (push_sextet buf p) q) r s hr hs)

-- The 24 bits of a group, as a sum.
group_word :
    (a b c : ℕ)
    → b < 256
    → c < 256
    → bit_or (bit_or (a * 2 ^ 16) (b * 2 ^ 8)) (c * 2 ^ 0) ≡ a * 65536 + b * 256 + c
group_word a b c hb hc =
    let inner : bit_or (a * 2 ^ 16) (b * 2 ^ 8) ≡ a * 2 ^ 16 + b * 2 ^ 8 =
      bit_or-shifted 16 a (b * 2 ^ 8) (omega arith) in
    let e : a * 2 ^ 16 + b * 2 ^ 8 ≡ (a * 2 ^ 8 + b) * 2 ^ 8 = omega arith in
    rw (inner, e) (bit_or-shifted 8 (a * 2 ^ 8 + b) (c * 2 ^ 0) (omega arith) ∙ omega arith)

-- The four letters of a group by the bytes they carry.
pub encode_group_three :
    (a b c : ℕ)
    → a < 256
    → b < 256
    → c < 256
    → encode_group a (some b) (some c)
      ≡ letter (a / 4)
        ∷ letter (a % 4 * 16 + b / 16)
        ∷ letter (b % 16 * 4 + c / 64)
        ∷ letter (c % 64)
        ∷ []
unfolding encode_group
encode_group_three a b c ha hb hc =
    let w = group_word a b c hb hc in
    let e1 : (a * 65536 + b * 256 + c) / 2 ^ 18 % 64 ≡ a / 4 = omega arith in
    let e2 : (a * 65536 + b * 256 + c) / 2 ^ 12 % 64 ≡ a % 4 * 16 + b / 16 = omega arith in
    let e3 : (a * 65536 + b * 256 + c) / 2 ^ 6 % 64 ≡ b % 16 * 4 + c / 64 = omega arith in
    let e4 : (a * 65536 + b * 256 + c) % 64 ≡ c % 64 = omega arith in rw w (cc (e1, e2, e3, e4))

pub encode_group_two :
    (a b : ℕ)
    → a < 256
    → b < 256
    → encode_group a (some b) none
      ≡ letter (a / 4) ∷ letter (a % 4 * 16 + b / 16) ∷ letter (b % 16 * 4) ∷ b'=' ∷ []
unfolding encode_group
encode_group_two a b ha hb =
    let w = group_word a b 0 hb (omega arith) in
    let e1 : (a * 65536 + b * 256 + 0) / 2 ^ 18 % 64 ≡ a / 4 = omega arith in
    let e2 : (a * 65536 + b * 256 + 0) / 2 ^ 12 % 64 ≡ a % 4 * 16 + b / 16 = omega arith in
    let e3 : (a * 65536 + b * 256 + 0) / 2 ^ 6 % 64 ≡ b % 16 * 4 = omega arith in
    rw w (cc (e1, e2, e3))

pub encode_group_one :
    (a : ℕ)
    → a < 256
    → encode_group a none none ≡ letter (a / 4) ∷ letter (a % 4 * 16) ∷ b'=' ∷ b'=' ∷ []
unfolding encode_group
encode_group_one a ha =
    let w = group_word a 0 0 (omega arith) (omega arith) in
    let e1 : (a * 65536 + 0 * 256 + 0) / 2 ^ 18 % 64 ≡ a / 4 = omega arith in
    let e2 : (a * 65536 + 0 * 256 + 0) / 2 ^ 12 % 64 ≡ a % 4 * 16 = omega arith in
    rw w (cc (e1, e2))

pub decode_pad :
    (cs : Bytes) (buf bits : ℕ) (out : Bytes) → decode_loop (b'=' ∷ cs) buf bits out ≡ some out
unfolding decode_loop
decode_pad cs buf bits out = refl

decode_loop-encode :
    (s : Bytes) (buf : ℕ) (out : Bytes)
    → All IsByte s
    → decode_loop (base64_encode s) buf 0 out ≡ some (out ++ s)
unfolding base64_encode
decode_loop-encode [] buf out h = unfold decode_loop in rw append-nil
decode_loop-encode (a ∷ []) buf out (ha, _) =
    let e : a / 4 * 4 % 256 + a % 4 * 16 / 16 ≡ a = omega arith in
    rw (encode_group_one a ha) (
      decode_two buf out (b'=' ∷ b'=' ∷ []) (a / 4) (a % 4 * 16) (omega arith) (omega arith)
      ∙ decode_pad _ _ _ _
      ∙ rw e)
decode_loop-encode (a ∷ b ∷ []) buf out (ha, (hb, _)) =
    let e : a / 4 * 4 % 256 + (a % 4 * 16 + b / 16) / 16 ≡ a = omega arith in
    let f : (a % 4 * 16 + b / 16) * 16 % 256 + b % 16 * 4 / 4 ≡ b = omega arith in
    rw (encode_group_two a b ha hb) (
      decode_three buf out (b'=' ∷ []) (a / 4) (a % 4 * 16 + b / 16) (b % 16 * 4) (omega arith)
        (omega arith) (omega arith)
      ∙ decode_pad _ _ _ _
      ∙ rw (e, f) (ap some (append_assoc out (a ∷ []) (b ∷ []))))
decode_loop-encode (a ∷ b ∷ c ∷ rest) buf out (ha, (hb, (hc, h))) =
    let e : a / 4 * 4 % 256 + (a % 4 * 16 + b / 16) / 16 ≡ a = omega arith in
    let f : (a % 4 * 16 + b / 16) * 16 % 256 + (b % 16 * 4 + c / 64) / 4 ≡ b = omega arith in
    let g : (b % 16 * 4 + c / 64) * 64 % 256 + c % 64 ≡ c = omega arith in
    rw (encode_group_three a b c ha hb hc) (
      decode_four buf out (base64_encode rest) (a / 4) (a % 4 * 16 + b / 16) (b % 16 * 4 + c / 64)
        (c % 64) (omega arith) (omega arith) (omega arith) (omega arith)
      ∙ decode_loop-encode rest _ _ h
      ∙ rw (e, f, g) (ap some (simp append_assoc)))

-- What `base64_encode` wrote of any bytes, `base64_decode` reads back.
pub base64_decode-encode : (s : Bytes) → All IsByte s → base64_decode (base64_encode s) ≡ some s
unfolding base64_decode
base64_decode-encode s h = decode_loop-encode s 0 [] h
