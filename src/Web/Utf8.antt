-- ===== src/Web/Utf8.antt =====
-- include/qjsbind/web/utf8.hpp: `percent_encode`.
use quickjs_runtime.Common.{
  Bool, [], get_or, if◌then◌else◌, ℕ, ◌%◌, ◌&&◌, ◌++◌, ◌/◌, ◌==◌, ◌^◌, ◌||◌, ◌∷◌,
}
use quickjs_runtime.Common.Bytes.{Bytes, between, codes}

abbrev pub upper_hex : Bytes
upper_hex = codes "0123456789ABCDEF"

unfoldable pub is_unreserved : ℕ → Bool
is_unreserved c =
    (between b'A' b'Z' c || between b'a' b'z' c)
    || between b'0' b'9' c
    || (c == b'-' || c == b'_' || c == b'.' || c == b'~')

-- What is written for one byte.
unfoldable pub percent_encode_byte : Bool → ℕ → Bytes
percent_encode_byte space_as_plus c =
    if is_unreserved c
    then c ∷ []
    else if c == b' ' && space_as_plus
    then b'+' ∷ []
    else b'%' ∷ get_or upper_hex (c / 2 ^ 4) 0 ∷ get_or upper_hex (c % 2 ^ 4) 0 ∷ []

unfoldable pub percent_encode : Bytes → Bool → Bytes
percent_encode [] space_as_plus = []
percent_encode (c ∷ cs) space_as_plus =
    percent_encode_byte space_as_plus c ++ percent_encode cs space_as_plus
