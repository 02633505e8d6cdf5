-- ===== src/Web/Params.antt =====
-- include/qjsbind/web/url.hpp: `URLSearchParams`, its codec and its list of pairs.
pub mod RoundTrip
pub mod Access
pub mod Form
pub mod Read
use quickjs_runtime.Common.{
  Bool, List, Option, [], bit_or, drop, false, if◌then◌else◌, length, ltb, none, some, suc, take,
  true, zero, ℕ, ◌%◌, ◌&&◌, ◌*◌, ◌++◌, ◌+◌, ◌-◌, ◌==◌, ◌^◌, ◌∷◌,
}
use quickjs_runtime.Common.Bytes.{Bytes, between, bytes_eq, find}
use quickjs_runtime.Fetch.Socks5.{done}
use quickjs_runtime.Web.Utf8.{percent_encode}

-- `none` is -1.
unfoldable pub hex_value : ℕ → Option ℕ
hex_value c =
    if between b'0' b'9' c
    then some (c - b'0')
    else if between b'a' b'f' c
    then some (c - b'a' + 10)
    else if between b'A' b'F' c
    then some (c - b'A' + 10)
    else none

unfoldable pub hex_byte : Option ℕ → Option ℕ → Option ℕ
hex_byte (some hi) (some lo) = some (bit_or (hi * 2 ^ 4) lo % 256)
hex_byte _ _ = none

-- The byte that `c x y` spells, if `c` is `%` and two hexadecimal digits follow.
unfoldable pub decoded_byte : ℕ → ℕ → ℕ → Option ℕ
decoded_byte c x y = if c == b'%' then hex_byte (hex_value x) (hex_value y) else none

unfoldable pub plain_byte : Bool → ℕ → ℕ
plain_byte plus_as_space c = if c == b'+' && plus_as_space then b' ' else c

unfoldable pub percent_decode : Bytes → Bool → Bytes
percent_decode [] plus = []
percent_decode (c ∷ []) plus = plain_byte plus c ∷ []
percent_decode (c ∷ x ∷ []) plus = plain_byte plus c ∷ plain_byte plus x ∷ []
percent_decode (c ∷ x ∷ y ∷ rest) plus =
    let after = percent_decode rest plus in
    let next = percent_decode (x ∷ y ∷ rest) plus in
    elim (decoded_byte c x y) [ some v ↦ v ∷ after | none ↦ plain_byte plus c ∷ next ]

abbrev pub Pairs : Type 0
Pairs = List (Bytes × Bytes)

abbrev pub encode_pair : Bytes × Bytes → Bytes
encode_pair p = percent_encode p.0 true ++ (b'=' ∷ percent_encode p.1 true)

-- The pairs behind the first: each with a `&` before it.
unfoldable pub encode_rest : Pairs → Bytes
encode_rest [] = []
encode_rest (p ∷ ps) = b'&' ∷ (encode_pair p ++ encode_rest ps)

abbrev pub form_encode : Pairs → Bytes
form_encode [] = []
form_encode (p ∷ ps) = encode_pair p ++ encode_rest ps

-- The key and the value of an item that is not empty, by the place of its first `=`.
abbrev pub split_item : Bytes → Option ℕ → Bytes × Bytes
split_item item none = (percent_decode item true, [])
split_item item (some eq) =
    (percent_decode (take eq item) true, percent_decode (drop (suc eq) item) true)

abbrev pub pairs_of_item : Bytes → Pairs
pairs_of_item [] = []
pairs_of_item (c ∷ item) = split_item (c ∷ item) (find b'=' (c ∷ item)) ∷ []

-- The loop over the items: `q` is what stands from `pos` on, and the fuel is the turns left.
unfoldable pub query_loop : ℕ → Bytes → Pairs
query_loop zero q = []
query_loop (suc n) q = elim (find b'&' q) [
  | none ↦ pairs_of_item q
  | some amp ↦ pairs_of_item (take amp q) ++ query_loop n (drop (suc amp) q)
]

abbrev pub without_mark : Bytes → Bytes
without_mark [] = []
without_mark (c ∷ q) = if c == b'?' then q else c ∷ q

unfoldable pub from_query : Bytes → Pairs
from_query q = query_loop (suc (length (without_mark q))) (without_mark q)

abbrev pub to_query : Pairs → Bytes
to_query list = form_encode list

abbrev pub append : Bytes → Bytes → Pairs → Pairs
append name value list = list ++ ((name, value) ∷ [])

unfoldable pub erase : Bytes → Pairs → Pairs
erase name [] = []
erase name ((k, v) ∷ list) = if bytes_eq k name then erase name list else (k, v) ∷ erase name list

unfoldable pub has : Bytes → Pairs → Bool
has name [] = false
has name ((k, v) ∷ list) = if bytes_eq k name then true else has name list

unfoldable pub get : Bytes → Pairs → Option Bytes
get name [] = none
get name ((k, v) ∷ list) = if bytes_eq k name then some v else get name list

unfoldable pub get_all : Bytes → Pairs → List Bytes
get_all name [] = []
get_all name ((k, v) ∷ list) =
    let rest = get_all name list in if bytes_eq k name then v ∷ rest else rest

-- The loop of `set`, whose flag says that a pair was replaced already.
unfoldable pub set_loop : Bytes → Bytes → Bool → Pairs → Pairs
set_loop name value replaced [] = if replaced then [] else (name, value) ∷ []
set_loop name value replaced ((k, v) ∷ list) =
    let kept = set_loop name value replaced list in
    let done = set_loop name value true list in
    if bytes_eq k name then (if replaced then done else (k, value) ∷ done) else (k, v) ∷ kept

abbrev pub set_param : Bytes → Bytes → Pairs → Pairs
set_param name value list = set_loop name value false list

-- `operator<` of two strings, by unsigned bytes.
unfoldable pub bytes_lt : Bytes → Bytes → Bool
bytes_lt _ [] = false
bytes_lt [] (y ∷ ys) = true
bytes_lt (x ∷ xs) (y ∷ ys) =
    let rest = bytes_lt xs ys in if ltb x y then true else if ltb y x then false else rest

-- `std::stable_sort` by the names, as an insertion.
unfoldable pub insert_sorted : Bytes × Bytes → Pairs → Pairs
insert_sorted p [] = p ∷ []
insert_sorted p (q ∷ list) =
    let rest = insert_sorted p list in if bytes_lt q.0 p.0 then q ∷ rest else p ∷ q ∷ list

unfoldable pub sort : Pairs → Pairs
sort [] = []
sort (p ∷ list) = insert_sorted p (sort list)
