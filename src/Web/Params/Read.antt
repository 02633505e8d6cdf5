-- ===== src/Web/Params/Read.antt =====
-- What `from_query` reads of bytes is bytes.
use mathlib.Core.Option.{some-injective}
use quickjs_runtime.Common.{
  Bool, Option, [], arith, drop, if_holds, length, none, refl, some, suc, take, true, zero, ℕ, ◌++◌,
  ◌<◌, ◌==◌, ◌∷◌, ◌≡◌,
}
use quickjs_runtime.Common.Bytes.{All, Bytes, IsByte, find}
use quickjs_runtime.Web.Params.{
  decoded_byte, from_query, hex_byte, hex_value, pairs_of_item, percent_decode, plain_byte,
  query_loop, split_item, without_mark,
}
use quickjs_runtime.Web.Params.Form.{All-append, All-drop, All-take}
use quickjs_runtime.Web.Params.RoundTrip.{IsPairBytes}

hex_byte_small : (x y : Option ℕ) (v : ℕ) → hex_byte x y ≡ some v → v < 256
unfolding hex_byte
hex_byte_small none y v h = cc
hex_byte_small (some x) none v h = cc
hex_byte_small (some x) (some y) v h = let e = some-injective _ _ h in omega (arith, e)

decoded_small : (c x y v : ℕ) → decoded_byte c x y ≡ some v → v < 256
unfolding decoded_byte
decoded_small c x y v h = ground (arith, hex_byte_small (hex_value x) (hex_value y) v)

plain_small : (plus : Bool) (c : ℕ) → c < 256 → plain_byte plus c < 256
unfolding plain_byte
plain_small plus c h = ground arith

either_bytes :
    (o : Option ℕ) (w : ℕ) (a n : Bytes)
    → ((v : ℕ) → o ≡ some v → v < 256)
    → w < 256
    → All IsByte a
    → All IsByte n
    → All IsByte (elim o [ some v ↦ v ∷ a | none ↦ w ∷ n ])
either_bytes none w a n f h ka kn = (h, kn)
either_bytes (some v) w a n f h ka kn = (f v refl, ka)

decode_bytes : (s : Bytes) (plus : Bool) → All IsByte s → All IsByte (percent_decode s plus)
unfolding percent_decode
decode_bytes [] plus h = tt
decode_bytes (c ∷ []) plus (hc, h) = (plain_small plus c hc, tt)
decode_bytes (c ∷ x ∷ []) plus h = (plain_small plus c h.0, (plain_small plus x h.1.0, tt))
decode_bytes (c ∷ x ∷ y ∷ rest) plus h =
    either_bytes (decoded_byte c x y) (plain_byte plus c) (percent_decode rest plus)
      (percent_decode (x ∷ y ∷ rest) plus) (decoded_small c x y) (plain_small plus c h.0)
      (decode_bytes rest plus h.1.1.1) (decode_bytes (x ∷ y ∷ rest) plus h.1)

split_bytes : (item : Bytes) (o : Option ℕ) → All IsByte item → IsPairBytes (split_item item o)
split_bytes item none h = (decode_bytes item true h, tt)
split_bytes item (some eq) h = (
  decode_bytes (take eq item) true (All-take IsByte eq item h),
  decode_bytes (drop (suc eq) item) true (All-drop IsByte (suc eq) item h),
)

item_bytes : (item : Bytes) → All IsByte item → All IsPairBytes (pairs_of_item item)
item_bytes [] h = tt
item_bytes (c ∷ item) h = (split_bytes (c ∷ item) (find b'=' (c ∷ item)) h, tt)

loop_bytes : (n : ℕ) (q : Bytes) → All IsByte q → All IsPairBytes (query_loop n q)
unfolding query_loop
loop_bytes zero q h = tt
loop_bytes (suc n) q h =
    elim (find b'&' q)
      as (λ o. All IsPairBytes (elim o [
        | none ↦ pairs_of_item q
        | some amp ↦ pairs_of_item (take amp q) ++ query_loop n (drop (suc amp) q)
      ])) [
        | none ↦ item_bytes q h
        | some amp ↦
            All-append IsPairBytes (pairs_of_item (take amp q)) (query_loop n (drop (suc amp) q))
              (item_bytes (take amp q) (All-take IsByte amp q h))
              (loop_bytes n (drop (suc amp) q) (All-drop IsByte (suc amp) q h))
      ]

unmark_bytes : (q : Bytes) → All IsByte q → All IsByte (without_mark q)
unmark_bytes [] h = tt
unmark_bytes (c ∷ q) h = if_holds (All IsByte) (c == b'?') q (c ∷ q) h.1 h

pub from_query_bytes : (q : Bytes) → All IsByte q → All IsPairBytes (from_query q)
unfolding from_query
from_query_bytes q h =
    loop_bytes (suc (length (without_mark q))) (without_mark q) (unmark_bytes q h)
