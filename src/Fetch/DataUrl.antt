-- ===== src/Fetch/DataUrl.antt =====
-- include/fetch/types.hpp: `parse_data_url`.
pub mod RoundTrip
use mathlib.Core.Option
use quickjs_runtime.Common.{
  Bool, Option, [], drop, false, if◌then◌else◌, leb, map, none, not, some, take, true, ℕ, ◌&&◌, ◌+◌,
  ◌-◌, ◌==◌, ◌||◌, ◌∷◌,
}
use quickjs_runtime.Common.Bytes.{Bytes, bytes_eq, codes, contains, find, rfind, to_lower}
use quickjs_runtime.Fetch.Base64.{base64_decode}
use quickjs_runtime.Fetch.Percent.{percent_decode}

-- "data:" ends before this position. `fetch` calls the parser for URLs that begin so, hence the
-- comma stands there or later. (Below it, the unsigned length `comma - 5` wraps, and `substr`
-- takes all that follows.)
unfoldable pub meta_of : Bytes → ℕ → Bytes
meta_of url comma = if leb 5 comma then take (comma - 5) (drop 5 url) else drop 5 url

-- The `;base64` at the end of the meta part, with any case, and the meta part without it.
unfoldable pub split_base64 : Bytes → Bool × Bytes
split_base64 meta = elim (rfind b';' meta) [
  | none ↦ (false, meta)
  | some semi ↦
      if bytes_eq (map to_lower (drop (semi + 1) meta)) (codes "base64")
      then (true, take semi meta)
      else (false, meta)
]

-- The loop over the meta part; the flag is `in_param_value`.
unfoldable pub mime_loop : Bytes → Bool → Bytes
mime_loop [] in_param_value = []
mime_loop (c ∷ cs) in_param_value =
    let rest =
      mime_loop cs (if c == b';' then false else if c == b'=' then true else in_param_value) in
    if c == b';'
    then c ∷ rest
    else if c == b'='
    then c ∷ rest
    else if not in_param_value && (c == b' ' || c == b'\t')
    then rest
    else if not in_param_value
    then to_lower c ∷ rest
    else c ∷ rest

unfoldable pub mime_of : Bytes → Bytes
mime_of meta =
    if contains b'/' meta then mime_loop meta false else codes "text/plain;charset=US-ASCII"

-- `mime_out` and `body_out` on success; `none` is `false`.
unfoldable pub parse_data_url : Bytes → Option (Bytes × Bytes)
parse_data_url url = elim (find b',' url) [
  | none ↦ none
  | some comma ↦
      let data_part = drop (comma + 1) url in
      let (is_base64, meta) = split_base64 (meta_of url comma) in
      Option.map (λ body_out. (mime_of meta, body_out))
        (if is_base64 then base64_decode data_part else some (percent_decode data_part))
]
