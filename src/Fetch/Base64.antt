-- ===== src/Fetch/Base64.antt =====
-- include/fetch/types.hpp: `base64_decode`, `base64_encode` and `digest_matches`, and the copies of
-- the last two in `IntegritySource` (include/fetch/middleware.hpp).
pub mod RoundTrip
pub mod Accepts
pub mod Digest
use quickjs_runtime.Common.{
  Bool, Option, [], bit_or, get_or, if◌then◌else◌, leb, map, none, some, ℕ, ◌%◌, ◌*◌, ◌++◌, ◌+◌,
  ◌-◌, ◌/◌, ◌==◌, ◌^◌, ◌∷◌,
}
use quickjs_runtime.Common.Bytes.{Bytes, bytes_eq, codes, find}

abbrev pub alphabet : Bytes
alphabet = codes "ABCDEFGHIJKLMNOPQRSTUVWXYZabcdefghijklmnopqrstuvwxyz0123456789+/"

-- `t[i]`.
unfoldable pub letter : ℕ → ℕ
letter i = get_or alphabet i 0

-- `rev[c]`; `none` is -1.
unfoldable pub rev : ℕ → Option ℕ
rev c = find c alphabet

-- `buf = (buf << 6) | v` on the 32-bit pattern of the `int`.
unfoldable pub push_sextet : ℕ → ℕ → ℕ
push_sextet buf v = bit_or (buf * 2 ^ 6 % 2 ^ 32) v

-- The low eight bits of `buf >> bits`: at most seven bits are shifted out, so the sign is not seen.
unfoldable pub top_byte : ℕ → ℕ → ℕ
top_byte buf bits = buf / 2 ^ bits % 256

unfoldable pub decode_loop : Bytes → ℕ → ℕ → Bytes → Option Bytes
decode_loop [] buf bits out = some out
decode_loop (c ∷ cs) buf bits out = if c == b'=' then some out else elim (rev c) [
  | none ↦ none
  | some v ↦
      let buf' = push_sextet buf v in
      let full = leb 8 (bits + 6) in
      decode_loop cs buf' (if full then bits + 6 - 8 else bits + 6)
        (if full then out ++ (top_byte buf' (bits + 6 - 8) ∷ []) else out)
]

unfoldable pub base64_decode : Bytes → Option Bytes
base64_decode s = decode_loop s 0 0 []

-- What `b` adds to the 24 bits, at a place past the end nothing.
abbrev pub shifted : Option ℕ → ℕ → ℕ
shifted none k = 0
shifted (some b) k = b * 2 ^ k

abbrev pub letter_or_pad : Option ℕ → ℕ → ℕ
letter_or_pad none i = b'='
letter_or_pad (some b) i = letter i

-- One round of the loop, on the bytes at `i`, `i + 1` and `i + 2`.
unfoldable pub encode_group : ℕ → Option ℕ → Option ℕ → Bytes
encode_group a b c =
    let n = bit_or (bit_or (a * 2 ^ 16) (shifted b 8)) (shifted c 0) in
    letter (n / 2 ^ 18 % 64)
    ∷ letter (n / 2 ^ 12 % 64)
    ∷ letter_or_pad b (n / 2 ^ 6 % 64)
    ∷ letter_or_pad c (n % 64)
    ∷ []

unfoldable pub base64_encode : Bytes → Bytes
base64_encode [] = []
base64_encode (a ∷ []) = encode_group a none none
base64_encode (a ∷ b ∷ []) = encode_group a (some b) none
base64_encode (a ∷ b ∷ c ∷ rest) = encode_group a (some b) (some c) ++ base64_encode rest

-- The URL-safe letters stand for the plain ones.
unfoldable pub plain_letter : ℕ → ℕ
plain_letter c = if c == b'-' then b'+' else if c == b'_' then b'/' else c

-- `while (!s.empty() && s.back() == '=') s.pop_back();`
unfoldable pub strip_padding : Bytes → Bytes
strip_padding [] = []
strip_padding (c ∷ cs) = elim (strip_padding cs) [
  | [] ↦ if c == b'=' then [] else c ∷ []
  | d ∷ ds ↦ c ∷ d ∷ ds
]

unfoldable pub norm : Bytes → Bytes
norm s = strip_padding (map plain_letter s)

unfoldable pub digest_matches : Bytes → Bytes → Bool
digest_matches expected actual = bytes_eq (norm expected) (norm actual)
