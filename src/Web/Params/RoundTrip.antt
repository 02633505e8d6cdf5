-- ===== src/Web/Params/RoundTrip.antt =====
use mathlib.Core.List.{append-nil}
use mathlib.Core.Path.{ap₂}
use quickjs_runtime.Common.{
  Bool, Bool-cases, Option-cases, [], and_true, ap, arith, drop, false, get_or, inl, inr, length,
  length-append, length-drop, none, not, refl, some, suc, take, true, zero, ℕ, ◌%◌, ◌&&◌, ◌++◌, ◌/◌,
  ◌<◌, ◌==◌, ◌^◌, ◌∙◌, ◌∷◌, ◌≡◌,
}
use quickjs_runtime.Common.Bits.{holds_to, holds_to_sound}
use quickjs_runtime.Common.Bytes.{All, Bytes, IsByte, contains, find, find-append, find-lt}
use quickjs_runtime.Fetch.Percent.{escape-of_byte, escaped, hex, hex_pair, unreserved-ne_percent}
use quickjs_runtime.Web.Params.{
  Pairs, decoded_byte, encode_pair, encode_rest, from_query, hex_byte, hex_value, pairs_of_item,
  percent_decode, plain_byte, query_loop, split_item, to_query, without_mark,
}
use quickjs_runtime.Web.Utf8.{is_unreserved, percent_encode, percent_encode_byte, upper_hex}

-- What `to_query` writes, `from_query` reads back.
take-append : (a b : Bytes) → take (length a) (a ++ b) ≡ a
take-append [] b = refl
take-append (x ∷ a) b = ap (◌∷◌ x) (take-append a b)

drop-append : (a b : Bytes) (c : ℕ) → drop (suc (length a)) (a ++ (c ∷ b)) ≡ b
drop-append [] b c = refl
drop-append (x ∷ a) b c = drop-append a b c

contains-append :
    (d : ℕ) (a b : Bytes)
    → contains d a ≡ false
    → contains d b ≡ false
    → contains d (a ++ b) ≡ false
unfolding contains
contains-append d [] b h k = k
contains-append d (x ∷ a) b h k = ground (arith, contains-append d a b)

find-none : (d : ℕ) (a : Bytes) → contains d a ≡ false → find d a ≡ none
unfolding contains find
find-none d [] h = refl
find-none d (x ∷ a) h = ground (arith, find-none d a)

-- A character that no byte is written with.
abbrev never_written : ℕ → Bool
never_written d = holds_to (λ c. not (contains d (percent_encode_byte true c))) 256

written : never_written b'&' && (never_written b'=' && never_written b'?') ≡ true
unfolding holds_to contains percent_encode_byte is_unreserved
written = refl

not-true : (b : Bool) → not b ≡ true → b ≡ false
not-true true h = cc
not-true false h = refl

encode_avoids :
    (d : ℕ) (s : Bytes)
    → never_written d ≡ true
    → All IsByte s
    → contains d (percent_encode s true) ≡ false
unfolding percent_encode
encode_avoids d [] t h = unfold contains in refl
encode_avoids d (c ∷ s) t (hc, h) =
    contains-append d (percent_encode_byte true c) (percent_encode s true)
      (not-true _ (holds_to_sound _ 256 c hc t)) (encode_avoids d s t h)

decoded_byte-escaped : (c x y : ℕ) → decoded_byte c x y ≡ escaped c x y
unfolding decoded_byte escaped hex_byte hex_pair hex_value hex
decoded_byte-escaped c x y = refl

decode_plain :
    (c : ℕ) (s : Bytes) (plus : Bool)
    → (c == b'%') ≡ false
    → percent_decode (c ∷ s) plus ≡ plain_byte plus c ∷ percent_decode s plus
unfolding percent_decode decoded_byte
decode_plain c [] plus h = refl
decode_plain c (x ∷ []) plus h = refl
decode_plain c (x ∷ y ∷ s) plus h = rw (h, percent_decode) refl

decode_escape :
    (c : ℕ) (s : Bytes) (plus : Bool)
    → c < 256
    → percent_decode
        (b'%' ∷ get_or upper_hex (c / 2 ^ 4) 0 ∷ get_or upper_hex (c % 2 ^ 4) 0 ∷ s)
        plus
      ≡ c ∷ percent_decode s plus
unfolding percent_decode
decode_escape c s plus h = rw (decoded_byte-escaped, escape-of_byte c h, percent_decode) refl

unreserved_plain : (c : ℕ) → is_unreserved c ≡ true → plain_byte true c ≡ c
unfolding is_unreserved plain_byte
unreserved_plain c h = ground arith

space_plain : (c : ℕ) → (c == b' ') ≡ true → plain_byte true b'+' ≡ c
unfolding plain_byte
space_plain c h = ground arith

decode-encode : (s : Bytes) → All IsByte s → percent_decode (percent_encode s true) true ≡ s
unfolding percent_encode percent_encode_byte
decode-encode [] h = unfold percent_decode in refl
decode-encode (c ∷ s) (hc, h) =
    let ih = decode-encode s h in
    elim (Bool-cases (is_unreserved c)) [
      | inl u ↦
          rw u
            (decode_plain c _ true (unreserved-ne_percent c u) ∙ ap₂ ◌∷◌ (unreserved_plain c u) ih)
      | inr n ↦ elim (Bool-cases (c == b' ')) [
        | inl p ↦ rw (n, p) (decode_plain b'+' _ true refl ∙ ap₂ ◌∷◌ (space_plain c p) ih)
        | inr p ↦ rw (n, p) (decode_escape c _ true hc ∙ ap (◌∷◌ c) ih)
      ]
    ]

pairs_of_split :
    (item : Bytes) (eq : ℕ)
    → find b'=' item ≡ some eq
    → pairs_of_item item ≡ split_item item (some eq) ∷ []
unfolding find
pairs_of_split [] eq h = cc
pairs_of_split (c ∷ item) eq h = rw h refl

abbrev pub IsPairBytes : Bytes × Bytes → Type 0
IsPairBytes p = All IsByte p.0 × All IsByte p.1

pairs_of_item-encode_pair :
    (p : Bytes × Bytes) → IsPairBytes p → pairs_of_item (encode_pair p) ≡ p ∷ []
pairs_of_item-encode_pair p h =
    let key = percent_encode p.0 true in
    let value = percent_encode p.1 true in
    pairs_of_split (encode_pair p) (length key) (
      find-append b'=' key value
        (encode_avoids b'=' p.0 (and_true _ _ (and_true _ _ written).1).0 h.0))
    ∙ rw (take-append, drop-append, decode-encode p.0 h.0, decode-encode p.1 h.1) refl

pair_avoids :
    (d : ℕ) (p : Bytes × Bytes)
    → never_written d ≡ true
    → (b'=' == d) ≡ false
    → IsPairBytes p
    → contains d (encode_pair p) ≡ false
pair_avoids d p t ne h =
    contains-append d (percent_encode p.0 true) (b'=' ∷ percent_encode p.1 true)
      (encode_avoids d p.0 t h.0) (unfold contains in rw (ne, encode_avoids d p.1 t h.1) refl)

encode_rest_avoids :
    (d : ℕ) (ps : Pairs)
    → never_written d ≡ true
    → (b'=' == d) ≡ false
    → (b'&' == d) ≡ false
    → All IsPairBytes ps
    → contains d (encode_rest ps) ≡ false
unfolding encode_rest contains
encode_rest_avoids d [] t ne na h = refl
encode_rest_avoids d (p ∷ ps) t ne na (hp, h) =
    let rest =
      contains-append d (encode_pair p) (encode_rest ps) (pair_avoids d p t ne hp)
        (encode_rest_avoids d ps t ne na h) in
    rw (na, rest) refl

query_loop_last :
    (n : ℕ) (p : Bytes × Bytes) → IsPairBytes p → query_loop (suc n) (encode_pair p) ≡ p ∷ []
unfolding query_loop
query_loop_last n p h =
    rw
      (
        find-none b'&' (encode_pair p) (pair_avoids b'&' p (and_true _ _ written).0 refl h),
        query_loop,
      )
      (pairs_of_item-encode_pair p h)

query_loop-encode :
    (n : ℕ) (p : Bytes × Bytes) (ps : Pairs)
    → IsPairBytes p
    → All IsPairBytes ps
    → length (encode_pair p ++ encode_rest ps) < n
    → query_loop n (encode_pair p ++ encode_rest ps) ≡ p ∷ ps
unfolding query_loop encode_rest
query_loop-encode zero p ps hp h lt = absurd (omega arith)
query_loop-encode (suc n) p [] hp h lt =
    ap (query_loop (suc n)) (append-nil (encode_pair p)) ∙ query_loop_last n p hp
query_loop-encode (suc n) p (p' ∷ ps) hp (hp', h) lt =
    let next = encode_pair p' ++ encode_rest ps in
    let found =
      find-append b'&' (encode_pair p) next (pair_avoids b'&' p (and_true _ _ written).0 refl hp) in
    let size = length-append (encode_pair p) (b'&' ∷ next) in
    let ih = query_loop-encode n p' ps hp' h (omega (arith, lt, size)) in
    rw (found, query_loop, take-append, drop-append, ih)
      (ap (λ l. l ++ (p' ∷ ps)) (pairs_of_item-encode_pair p hp))

unmarked : (q : Bytes) → contains b'?' q ≡ false → without_mark q ≡ q
unfolding contains
unmarked [] h = refl
unmarked (c ∷ q) h = ground (arith, h)

query_loop-to_query :
    (list : Pairs)
    → All IsPairBytes list
    → query_loop (suc (length (to_query list))) (to_query list) ≡ list
query_loop-to_query [] h = unfold query_loop find in refl
query_loop-to_query (p ∷ ps) (hp, h) =
    let text = encode_pair p ++ encode_rest ps in
    let le : length text < suc (length text) = omega arith in
    query_loop-encode (suc (length text)) p ps hp h le

to_query-unmarked :
    (list : Pairs) → All IsPairBytes list → without_mark (to_query list) ≡ to_query list
to_query-unmarked [] h = refl
to_query-unmarked (p ∷ ps) (hp, h) =
    let t = (and_true _ _ (and_true _ _ written).1).1 in
    unmarked (encode_pair p ++ encode_rest ps) (
      contains-append b'?' (encode_pair p) (encode_rest ps) (pair_avoids b'?' p t refl hp)
        (encode_rest_avoids b'?' ps t refl refl h))

-- Any pairs of byte strings, empty ones included, are read back from what `to_query` writes, with or
-- without a question mark before it.
pub from_query-to_query :
    (list : Pairs)
    → All IsPairBytes list
    → (from_query (to_query list) ≡ list) × (from_query (b'?' ∷ to_query list) ≡ list)
unfolding from_query
from_query-to_query list h =
    let whole = query_loop-to_query list h in (rw (to_query-unmarked list h) whole, whole)

loop_agrees : (n m : ℕ) (q : Bytes) → length q < n → length q < m → query_loop n q ≡ query_loop m q
unfolding query_loop
loop_agrees zero m q h k = absurd (omega arith)
loop_agrees (suc n) zero q h k = absurd (omega arith)
loop_agrees (suc n) (suc m) q h k = elim (Option-cases (find b'&' q)) [
  | inl e ↦ rw (e, query_loop) refl
  | inr (i, e) ↦
      let within = find-lt b'&' q e in
      let rest = length-drop (suc i) q in
      rw (e, query_loop)
        (ap (λ l. pairs_of_item (take i q) ++ l)
          (loop_agrees n m (drop (suc i) q) (omega (arith, h, within, rest))
            (omega (arith, k, within, rest))))
]

-- The loop over the items ends: with more turns than the text has characters, as `from_query` runs it,
-- the pairs do not depend on how many.
pub query_loop_ends :
    (n : ℕ) (q : Bytes) → length (without_mark q) < n → query_loop n (without_mark q) ≡ from_query q
unfolding from_query
query_loop_ends n q h =
    loop_agrees n (suc (length (without_mark q))) (without_mark q) h (omega arith)
