-- ===== src/Fetch/Base64/Digest.antt =====
-- What a match of digests means: the expected text decodes to the very bytes.
use quickjs_runtime.Common.{
  ==_iff, Bool-cases, Option-cases, [], ap, arith, if◌then◌else◌, inl, inr, leb, map, refl, some,
  sym, true, ℕ, ◌%◌, ◌*◌, ◌++◌, ◌+◌, ◌-◌, ◌/◌, ◌<◌, ◌==◌, ◌∙◌, ◌∷◌, ◌≡◌,
}
use quickjs_runtime.Common.Bits.{holds_to, holds_to_sound}
use quickjs_runtime.Common.Bytes.{All, Bytes, IsByte, bytes_eq_iff}
use quickjs_runtime.Fetch.Base64.{
  base64_decode, base64_encode, decode_loop, digest_matches, letter, norm, plain_letter,
  push_sextet, rev, strip_padding, top_byte,
}
use quickjs_runtime.Fetch.Base64.Accepts.{decode_loop_end, decode_loop_nil}
use quickjs_runtime.Fetch.Base64.RoundTrip.{
  base64_decode-encode, encode_group_one, encode_group_three, encode_group_two,
}

plain_table : holds_to (λ v. plain_letter (letter v) == letter v) 64 ≡ true
unfolding holds_to plain_letter letter
plain_table = refl

plain_letter-letter : (v : ℕ) → v < 64 → plain_letter (letter v) ≡ letter v
plain_letter-letter v h = (==_iff _ _).0 (holds_to_sound _ 64 v h plain_table)

plain_letter-pad : plain_letter b'=' ≡ b'='
unfolding plain_letter
plain_letter-pad = refl

-- The encoder writes plain letters only.
map-plain_letter-encode :
    (d : Bytes) → All IsByte d → map plain_letter (base64_encode d) ≡ base64_encode d
unfolding base64_encode
map-plain_letter-encode [] h = refl
map-plain_letter-encode (a ∷ []) (ha, _) = rw (encode_group_one a ha) (
    cc (
      plain_letter-letter (a / 4) (omega arith),
      plain_letter-letter (a % 4 * 16) (omega arith),
      plain_letter-pad,
    ))
map-plain_letter-encode (a ∷ b ∷ []) (ha, (hb, _)) = rw (encode_group_two a b ha hb) (
    cc (
      plain_letter-letter (a / 4) (omega arith),
      plain_letter-letter (a % 4 * 16 + b / 16) (omega arith),
      plain_letter-letter (b % 16 * 4) (omega arith),
      plain_letter-pad,
    ))
map-plain_letter-encode (a ∷ b ∷ c ∷ rest) (ha, (hb, (hc, h))) =
    rw (encode_group_three a b c ha hb hc) (
      cc (
        plain_letter-letter (a / 4) (omega arith),
        plain_letter-letter (a % 4 * 16 + b / 16) (omega arith),
        plain_letter-letter (b % 16 * 4 + c / 64) (omega arith),
        plain_letter-letter (c % 64) (omega arith),
        map-plain_letter-encode rest h,
      ))

-- Trailing padding says nothing to the decoder.
decode_loop_cong :
    (c : ℕ) (xs ys : Bytes)
    → ((buf bits : ℕ) (out : Bytes) → decode_loop xs buf bits out ≡ decode_loop ys buf bits out)
    → (buf bits : ℕ) (out : Bytes)
    → decode_loop (c ∷ xs) buf bits out ≡ decode_loop (c ∷ ys) buf bits out
unfolding decode_loop
decode_loop_cong c xs ys h buf bits out = elim (Option-cases (rev c)) [
  | inl e ↦ rw e
  | inr (v, e) ↦ rw e (
      ground (
        arith,
        h (push_sextet buf v) (if leb 8 (bits + 6) then bits + 6 - 8 else bits + 6) (
            if leb 8 (bits + 6)
            then out ++ (top_byte (push_sextet buf v) (bits + 6 - 8) ∷ [])
            else out),
      ))
]

decode_loop-strip_padding :
    (s : Bytes) (buf bits : ℕ) (out : Bytes)
    → decode_loop (strip_padding s) buf bits out ≡ decode_loop s buf bits out
unfolding strip_padding
decode_loop-strip_padding [] buf bits out = refl
decode_loop-strip_padding (c ∷ cs) buf bits out =
    go (strip_padding cs) (decode_loop_cong c (strip_padding cs) cs (decode_loop-strip_padding cs))
  where
    go :
        (t : Bytes)
        → ((buf bits : ℕ) (out : Bytes)
            → decode_loop (c ∷ t) buf bits out ≡ decode_loop (c ∷ cs) buf bits out)
        → decode_loop
            (elim t [ [] ↦ if c == b'=' then [] else c ∷ [] | d ∷ ds ↦ c ∷ d ∷ ds ])
            buf
            bits
            out
          ≡ decode_loop (c ∷ cs) buf bits out
    go [] h = elim (Bool-cases (c == b'=')) [
      | inl e ↦ rw e (decode_loop_nil buf bits out ∙ sym (decode_loop_end c cs buf bits out e))
      | inr e ↦ rw e (h buf bits out)
    ]
    go (d ∷ ds) h = h buf bits out

pub base64_decode-strip_padding : (s : Bytes) → base64_decode (strip_padding s) ≡ base64_decode s
unfolding base64_decode
base64_decode-strip_padding s = decode_loop-strip_padding s 0 0 []

-- When an expected text matches the digest's encoding, it spells that digest: read with the
-- URL-safe letters replaced, it decodes to the digest's bytes.
pub digest_matches_sound :
    (expected digest : Bytes)
    → All IsByte digest
    → digest_matches expected (base64_encode digest) ≡ true
    → base64_decode (map plain_letter expected) ≡ some digest
unfolding digest_matches norm
digest_matches_sound expected digest h m =
    let same = (bytes_eq_iff (norm expected) (norm (base64_encode digest))).0 m in
    sym (base64_decode-strip_padding (map plain_letter expected))
    ∙ ap base64_decode (same ∙ ap strip_padding (map-plain_letter-encode digest h))
    ∙ base64_decode-strip_padding (base64_encode digest)
    ∙ base64_decode-encode digest h
