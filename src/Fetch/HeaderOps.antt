-- ===== src/Fetch/HeaderOps.antt =====
-- include/fetch/types.hpp: the operations on header lists and the redirect tests.
pub mod Names
pub mod Strip
use Prim.Native.String.{String}
use quickjs_runtime.Common.{
  Bool, List, Option, [], bit_or, false, if◌then◌else◌, length, none, not, some, true, ℕ, ◌&&◌,
  ◌==◌, ◌||◌, ◌∷◌,
}
use quickjs_runtime.Common.Bytes.{Bytes, bytes_eq, codes, contains}
use quickjs_runtime.Fetch.Types.{Header, Headers}

-- `x | 32`.
unfoldable pub fold : ℕ → ℕ
fold x = bit_or x 32

unfoldable pub same_folded : Bytes → Bytes → Bool
same_folded [] b = true
same_folded (x ∷ a) [] = false
same_folded (x ∷ a) (y ∷ b) = fold x == fold y && same_folded a b

-- `std::equal` reads `b` as far as `a` goes.
unfoldable pub header_name_eq : Bytes → Bytes → Bool
header_name_eq a b = length a == length b && same_folded a b

unfoldable pub has_header : Headers → Bytes → Bool
has_header [] name = false
has_header (h ∷ hs) name = header_name_eq h.name name || has_header hs name

unfoldable pub is_named : Header → List Bytes → Bool
is_named h [] = false
is_named h (n ∷ ns) = header_name_eq h.name n || is_named h ns

unfoldable pub strip_headers : Headers → List Bytes → Headers
strip_headers [] names = []
strip_headers (h ∷ hs) names =
    let rest = strip_headers hs names in if is_named h names then rest else h ∷ rest

-- `std::remove_if` of blanks, then the letters folded by `c | 32`.
unfoldable pub fold_encoding : Bytes → Bytes
fold_encoding [] = []
fold_encoding (c ∷ cs) = let rest = fold_encoding cs in if c == b' ' then rest else fold c ∷ rest

unfoldable pub encoding_of : Bytes → Option Bytes
encoding_of v =
    if contains b',' v
    then none
    else let enc = fold_encoding v in
      if bytes_eq enc [] || bytes_eq enc (codes "identity") then none else some enc

unfoldable pub single_content_encoding : Headers → Option Bytes
single_content_encoding [] = none
single_content_encoding (h ∷ hs) =
    if header_name_eq h.name (codes "content-encoding")
    then encoding_of h.value
    else single_content_encoding hs

unfoldable pub is_redirect_status : ℕ → Bool
is_redirect_status s = s == 301 || s == 302 || s == 303 || s == 307 || s == 308

unfoldable pub status_requires_get : ℕ → Bytes → Bool
status_requires_get s method =
    if s == 303
    then not (bytes_eq method (codes "GET")) && not (bytes_eq method (codes "HEAD"))
    else if (s == 301 || s == 302) && bytes_eq method (codes "POST")
    then true
    else false

unfoldable pub location_of : Headers → Bytes
location_of [] = []
location_of (h ∷ hs) = if header_name_eq h.name (codes "location") then h.value else location_of hs

unfoldable pub without_body_headers : Headers → Headers
without_body_headers [] = []
without_body_headers (h ∷ hs) =
    let rest = without_body_headers hs in
    if not (header_name_eq h.name (codes "content-length"))
      && not (header_name_eq h.name (codes "content-type"))
      && not (header_name_eq h.name (codes "content-encoding"))
      && not (header_name_eq h.name (codes "content-language"))
      && not (header_name_eq h.name (codes "content-location"))
    then h ∷ rest
    else rest
