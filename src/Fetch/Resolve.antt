-- ===== src/Fetch/Resolve.antt =====
-- include/fetch/client.hpp: `resolve_url`, the target of a redirect.
pub mod Relax
use mathlib.Core.Option
use quickjs_runtime.Common.{
  Bool, Option, [], drop, false, get_or, if◌then◌else◌, map, none, not, some, suc, take, ℕ, ◌%◌,
  ◌&&◌, ◌++◌, ◌+◌, ◌/◌, ◌==◌, ◌^◌, ◌||◌, ◌∷◌,
}
use quickjs_runtime.Common.Bytes.{Bytes, between, bytes_eq, codes, contains, starts_with, to_lower}
use quickjs_runtime.Common.Result.{Result, err, ok, ◌>>=◌, ◌>>◌}
use quickjs_runtime.Fetch.Types.{Error, bad_base, bad_location, bad_resolution}
use quickjs_runtime.Fetch.Urls.{Urls}
use quickjs_runtime.Web.Utf8.{upper_hex}

-- `set_scheme` of the scheme in lower case.
unfoldable pub lower_scheme : (b : Urls) → b.Url → b.Url
lower_scheme b u = if b.has_scheme u then b.set_scheme (map to_lower (b.scheme u)) u else u

-- A host with a colon in it is an IPv6 literal.
unfoldable pub lower_host : (b : Urls) → b.Url → b.Url
lower_host b u =
    let host = b.encoded_host u in
    if not (bytes_eq host []) && not (contains b':' host)
    then b.set_encoded_host (map to_lower host) u
    else u

-- `while (p.size() > 1 && p[0] == '0') p.erase(p.begin());`
unfoldable pub strip_zeros : Bytes → Bytes
strip_zeros [] = []
strip_zeros (c ∷ []) = c ∷ []
strip_zeros (c ∷ d ∷ ds) = let rest = strip_zeros (d ∷ ds) in if c == b'0' then rest else c ∷ d ∷ ds

unfoldable pub is_secure : Bytes → Bool
is_secure s = bytes_eq s (codes "https") || bytes_eq s (codes "wss")

unfoldable pub is_known : Bytes → Bool
is_known s =
    bytes_eq s (codes "http")
    || bytes_eq s (codes "https")
    || bytes_eq s (codes "ws")
    || bytes_eq s (codes "wss")

unfoldable pub default_port : Bytes → Bytes
default_port s = if is_secure s then codes "443" else codes "80"

unfoldable pub drop_default_port : (b : Urls) → b.Url → b.Url
drop_default_port b u =
    if b.has_port u && b.has_scheme u
    then if is_known (b.scheme u)
      then if bytes_eq (strip_zeros (b.port u)) (default_port (b.scheme u))
        then b.remove_port u
        else u
      else u
    else u

unfoldable pub normalize_url : (b : Urls) → b.Url → b.Url
normalize_url b u = drop_default_port b (lower_host b (lower_scheme b u))

-- `is_safe`.
unfoldable pub is_safe : ℕ → Bool
is_safe c =
    between b'a' b'z' c
    || between b'A' b'Z' c
    || between b'0' b'9' c
    || c == b'-'
    || c == b'.'
    || c == b'_'
    || c == b'~'
    || c == b'!'
    || c == b'$'
    || c == b'&'
    || c == 39
    || c == b'('
    || c == b')'
    || c == b'*'
    || c == b'+'
    || c == b','
    || c == b';'
    || c == b'='
    || c == b':'
    || c == b'@'
    || c == b'/'
    || c == b'?'
    || c == b'#'
    || c == b'['
    || c == b']'

unfoldable pub is_hex : ℕ → Bool
is_hex c = between b'0' b'9' c || between b'a' b'f' c || between b'A' b'F' c

-- Two hexadecimal digits stand at the front.
unfoldable pub two_hex : Bytes → Bool
two_hex [] = false
two_hex (x ∷ []) = false
two_hex (x ∷ y ∷ rest) = is_hex x && is_hex y

-- What is written for one byte behind the authority, `rest` being the bytes that follow it.
unfoldable pub relax_byte : ℕ → Bytes → Bytes
relax_byte c rest =
    if is_safe c || (c == b'%' && two_hex rest)
    then c ∷ []
    else b'%' ∷ get_or upper_hex (c / 2 ^ 4) 0 ∷ get_or upper_hex (c % 2 ^ 4) 0 ∷ []

unfoldable pub relax_from : Bytes → Bytes
relax_from [] = []
relax_from (c ∷ cs) = relax_byte c cs ++ relax_from cs

-- `url.find("://")`.
unfoldable pub scheme_end : Bytes → Option ℕ
scheme_end [] = none
scheme_end (c ∷ cs) =
    if starts_with (codes "://") (c ∷ cs) then some 0 else Option.map suc (scheme_end cs)

-- `url.find_first_of("/?#", …)`, at the end if there is none.
unfoldable pub path_start : Bytes → ℕ
path_start [] = 0
path_start (c ∷ cs) = if c == b'/' || c == b'?' || c == b'#' then 0 else suc (path_start cs)

unfoldable pub auth_end : Bytes → ℕ
auth_end url = elim (scheme_end url) [ none ↦ 0 | some i ↦ i + 3 + path_start (drop (i + 3) url) ]

-- The bytes before `auth_end` are kept as they are.
unfoldable pub relax : Bytes → Bytes
relax url = take (auth_end url) url ++ relax_from (drop (auth_end url) url)

-- The strict grammar first, then the relaxed text.
unfoldable pub parse_or_relax : (b : Urls) → Bytes → Error → Result Error b.Url
parse_or_relax b text e = elim (b.parse_uri_reference text) [
  | some u ↦ ok u
  | none ↦ elim (b.parse_uri_reference (relax text)) [ some u ↦ ok u | none ↦ err e ]
]

unfoldable pub resolve_against : (b : Urls) → Bytes → b.Url → Result Error Bytes
resolve_against b base r = do
  rb ← parse_or_relax b base bad_base
  elim (b.resolve rb r) [ none ↦ err bad_resolution | some u ↦ ok (b.buffer (normalize_url b u)) ]

unfoldable pub resolve_url : Urls → Bytes → Bytes → Result Error Bytes
resolve_url b loc base = do
  r ← parse_or_relax b loc bad_location
  if b.has_scheme r then ok (b.buffer (normalize_url b r)) else resolve_against b base r
