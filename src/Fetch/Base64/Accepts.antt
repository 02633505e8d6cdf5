-- ===== src/Fetch/Base64/Accepts.antt =====
-- Which texts `base64_decode` takes, and how much it makes of them.
use quickjs_runtime.Common.{
  Bool, Bool-cases, Option, [], arith, false, if◌then◌else◌, inl, inr, leb, length, length-append,
  ltb, none, not, refl, some, suc, true, ℕ, ◌&&◌, ◌*◌, ◌++◌, ◌+◌, ◌-◌, ◌/◌, ◌<◌, ◌==◌, ◌||◌, ◌∙◌,
  ◌∷◌, ◌≡◌, ◌⊎◌,
}
use quickjs_runtime.Common.Bits.{holds_to, holds_to_sound}
use quickjs_runtime.Common.Bytes.{All, Bytes, IsByte, between, find}
use quickjs_runtime.Fetch.Base64.{base64_decode, decode_loop, push_sextet, rev, top_byte}

-- What stands before the first `=`.
abbrev pub payload : Bytes → Bytes
payload [] = []
payload (c ∷ cs) = if c == b'=' then [] else c ∷ payload cs

abbrev pub is_letter : ℕ → Bool
is_letter c =
    between b'A' b'Z' c || between b'a' b'z' c || between b'0' b'9' c || c == b'+' || c == b'/'

abbrev pub all_letters : Bytes → Bool
all_letters [] = true
all_letters (c ∷ cs) = is_letter c && all_letters cs

agrees : Option ℕ → Bool → Bool
agrees none b = not b
agrees (some v) b = b && ltb v 64

abbrev Agrees : Option ℕ → Bool → Type 0
Agrees o b = ((o ≡ none) × (b ≡ false)) ⊎ ((v : ℕ) × (o ≡ some v) × (b ≡ true))

agrees_sound : (o : Option ℕ) (b : Bool) → agrees o b ≡ true → Agrees o b
unfolding agrees
agrees_sound none b h = ground arith
agrees_sound (some v) b h = inr (v, refl, ground arith)

rev_table : holds_to (λ c. agrees (rev c) (is_letter c)) 256 ≡ true
unfolding holds_to agrees rev find
rev_table = refl

rev_letters : (c : ℕ) → c < 256 → Agrees (rev c) (is_letter c)
rev_letters c h = agrees_sound (rev c) (is_letter c) (holds_to_sound _ 256 c h rev_table)

-- A text whose payload has another character is refused.
decode_loop-none :
    (s : Bytes) (buf bits : ℕ) (out : Bytes)
    → All IsByte s
    → all_letters (payload s) ≡ false
    → decode_loop s buf bits out ≡ none
unfolding decode_loop
decode_loop-none [] buf bits out b h = cc
decode_loop-none (c ∷ cs) buf bits out b h = elim (rev_letters c b.0) [
  | inl (r, l) ↦ ground (arith, r, l)
  | inr (v, r, l) ↦ ground (
    arith,
    r,
    l,
    decode_loop-none cs (push_sextet buf v) (if leb 8 (bits + 6) then bits + 6 - 8 else bits + 6)
        (if leb 8 (bits + 6)
          then out ++ (top_byte (push_sextet buf v) (bits + 6 - 8) ∷ [])
          else out)
        b.1,
  )
]

-- Any other is read, whatever its length, and gives a byte for each eight bits.
abbrev pub Reads : Option Bytes → ℕ → Type 0
Reads r n = (out : Bytes) × (r ≡ some out) × (length out ≡ n)

-- The bits and the output after one more sextet.
abbrev bits_after : ℕ → ℕ
bits_after bits = if leb 8 (bits + 6) then bits + 6 - 8 else bits + 6

abbrev out_after : Bytes → ℕ → ℕ → Bytes
out_after out buf bits = if leb 8 (bits + 6) then out ++ (top_byte buf (bits + 6 - 8) ∷ []) else out

bits_after-lt : (bits : ℕ) → bits < 8 → bits_after bits < 8
bits_after-lt bits h = ground arith

length_after :
    (out : Bytes) (buf bits n : ℕ)
    → length (out_after out buf bits) + (bits_after bits + 6 * n) / 8
      ≡ length out + (bits + 6 * suc n) / 8
length_after out buf bits n = ground (arith, length-append out (top_byte buf (bits + 6 - 8) ∷ []))

decode_loop_step :
    (c : ℕ) (cs : Bytes) (buf bits : ℕ) (out : Bytes) (v : ℕ)
    → (c == b'=') ≡ false
    → rev c ≡ some v
    → decode_loop (c ∷ cs) buf bits out
      ≡ decode_loop cs
          (push_sextet buf v)
          (bits_after bits)
          (out_after out (push_sextet buf v) bits)
unfolding decode_loop
decode_loop_step c cs buf bits out v e r = rw (e, r)

pub decode_loop_end :
    (c : ℕ) (cs : Bytes) (buf bits : ℕ) (out : Bytes)
    → (c == b'=') ≡ true
    → decode_loop (c ∷ cs) buf bits out ≡ some out
unfolding decode_loop
decode_loop_end c cs buf bits out e = rw e

pub decode_loop_nil : (buf bits : ℕ) (out : Bytes) → decode_loop [] buf bits out ≡ some out
unfolding decode_loop
decode_loop_nil buf bits out = refl

decode_loop_some :
    (s : Bytes) (buf bits : ℕ) (out : Bytes)
    → All IsByte s
    → all_letters (payload s) ≡ true
    → bits < 8
    → Reads (decode_loop s buf bits out) (length out + (bits + 6 * length (payload s)) / 8)
decode_loop_some [] buf bits out b h lt = (out, decode_loop_nil buf bits out, omega arith)
decode_loop_some (c ∷ cs) buf bits out b h lt = elim (Bool-cases (c == b'=')) [
  | inl e ↦ rw e (out, decode_loop_end c cs buf bits out e, omega arith)
  | inr e ↦ elim (rev_letters c b.0) [
    | inl (r, l) ↦ absurd (ground (arith, e, l, h))
    | inr (v, r, l) ↦
        let buf' = push_sextet buf v in
        let (res, eq, len) =
          decode_loop_some cs buf' (bits_after bits) (out_after out buf' bits) b.1
            (ground (arith, e, l, h)) (bits_after-lt bits lt) in
        rw e (
          res,
          decode_loop_step c cs buf bits out v e r ∙ eq,
          len ∙ length_after out buf' bits (length (payload cs)),
        )
  ]
]

-- Whether a text is read depends on the characters before its first `=` alone: they must be
-- letters of the alphabet. Their number does not matter: a sextet that is left over, or bits of
-- one, are dropped, and so is all that stands behind the `=`.
pub base64_decode_accepts :
    (s : Bytes)
    → All IsByte s
    → (all_letters (payload s) ≡ true → Reads (base64_decode s) (6 * length (payload s) / 8))
      × (all_letters (payload s) ≡ false → base64_decode s ≡ none)
unfolding base64_decode
base64_decode_accepts s b = (
  λ h.
      let (out, e, len) = decode_loop_some s 0 0 [] b h (omega arith) in
      (out, e, omega (arith, len)),
  decode_loop-none s 0 0 [] b,
)
