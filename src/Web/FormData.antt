-- ===== src/Web/FormData.antt =====
-- include/qjsbind/web/formdata.hpp: the list of a form and its multipart text.
use mathlib.Core.Option
pub mod Disposition
pub mod Ends
pub mod Lists
pub mod RoundTrip
pub mod Search
use quickjs_runtime.Common.{
  Bool, List, Option, [], drop, false, if◌then◌else◌, length, map, none, not, some, suc, take, true,
  zero, ℕ, ◌&&◌, ◌++◌, ◌+◌, ◌==◌, ◌||◌, ◌∷◌,
}
use quickjs_runtime.Common.Bytes.{Bytes, bytes_eq, codes, find, starts_with, to_lower}

pub record Entry : Type 0 where
  pub name : Bytes
  pub bytes : Bytes
  pub type : Bytes
  pub filename : Bytes
  pub is_blob : Bool

-- `list.push_back`.
abbrev pub append_entry : Entry → List Entry → List Entry
append_entry e list = list ++ (e ∷ [])

-- The loop of `set_entry`, whose flag says that an entry was replaced already.
unfoldable pub set_entry_loop : Entry → Bool → List Entry → List Entry
set_entry_loop e replaced [] = if replaced then [] else e ∷ []
set_entry_loop e replaced (x ∷ list) =
    let kept = set_entry_loop e replaced list in
    let later = set_entry_loop e true list in
    if bytes_eq x.name e.name then (if replaced then later else e ∷ later) else x ∷ kept

abbrev pub set_entry : Entry → List Entry → List Entry
set_entry e list = set_entry_loop e false list

unfoldable pub erase_entry : Bytes → List Entry → List Entry
erase_entry name [] = []
erase_entry name (e ∷ list) =
    let rest = erase_entry name list in if bytes_eq e.name name then rest else e ∷ rest

unfoldable pub has_entry : Bytes → List Entry → Bool
has_entry name [] = false
has_entry name (e ∷ list) = if bytes_eq e.name name then true else has_entry name list

-- The values of `getAll`, as entries.
unfoldable pub get_all : Bytes → List Entry → List Entry
get_all name [] = []
get_all name (e ∷ list) =
    let rest = get_all name list in if bytes_eq e.name name then e ∷ rest else rest

abbrev pub crlf : Bytes
crlf = 13 ∷ 10 ∷ []

abbrev pub dashes : Bytes
dashes = codes "--"

-- 34 is the quotation mark, 92 the backslash.
unfoldable pub escape : Bytes → Bytes
escape [] = []
escape (c ∷ s) = let rest = escape s in if c == 34 || c == 92 then 92 ∷ c ∷ rest else c ∷ rest

abbrev pub quoted : Bytes → Bytes → Bytes
quoted s rest = 34 ∷ (escape s ++ (34 ∷ rest))

abbrev pub filename_part : Entry → Bytes
filename_part e = if e.is_blob then codes "; filename=" ++ quoted e.filename [] else []

-- What stands behind `Content-Disposition: `.
abbrev pub disposition_of : Entry → Bytes
disposition_of e = codes "form-data; name=" ++ quoted e.name (filename_part e)

abbrev pub type_line : Entry → Bytes
type_line e =
    if e.is_blob && not (bytes_eq e.type []) then codes "Content-Type: " ++ (e.type ++ crlf) else []

abbrev pub encode_part : Bytes → Entry → Bytes
encode_part boundary e =
    dashes
    ++ (boundary
        ++ (crlf
            ++ (codes "Content-Disposition: "
                ++ (disposition_of e ++ (crlf ++ (type_line e ++ (crlf ++ (e.bytes ++ crlf))))))))

unfoldable pub encode_multipart : List Entry → Bytes → Bytes
encode_multipart [] boundary = dashes ++ (boundary ++ (dashes ++ crlf))
encode_multipart (e ∷ list) boundary = encode_part boundary e ++ encode_multipart list boundary

-- `find` of a text; `none` is `npos`.
unfoldable pub find_text : Bytes → Bytes → Option ℕ
find_text key [] = if bytes_eq key [] then some 0 else none
find_text key (c ∷ s) =
    let later = find_text key s in if starts_with key (c ∷ s) then some 0 else Option.map suc later

-- The text before the first character with `stop`.
unfoldable pub until : (ℕ → Bool) → Bytes → Bytes
until stop [] = []
until stop (c ∷ s) = let rest = until stop s in if stop c then [] else c ∷ rest

abbrev pub is_line_end : ℕ → Bool
is_line_end c = c == b';' || c == b' ' || c == 13 || c == 10

abbrev pub unquoted : Bytes → Bytes
unquoted [] = []
unquoted (c ∷ s) = if c == 34 then s else c ∷ s

abbrev pub boundary_at : Bytes → Option ℕ → Bytes
boundary_at content_type none = []
boundary_at content_type (some p) =
    until (λ c. c == 34 || is_line_end c) (unquoted (drop (p + 9) content_type))

unfoldable pub extract_boundary : Bytes → Bytes
extract_boundary content_type =
    boundary_at content_type (find_text (codes "boundary=") (map to_lower content_type))

-- The loop that reads a quoted value: a backslash with a character behind it stands for that.
unfoldable pub read_quoted : Bytes → Bytes
read_quoted [] = []
read_quoted (c ∷ []) = if c == 34 then [] else c ∷ []
read_quoted (c ∷ d ∷ s) =
    let escaped = read_quoted s in
    let plain = read_quoted (d ∷ s) in
    if c == 34 then [] else if c == 92 then d ∷ escaped else c ∷ plain

abbrev pub read_value : Bytes → Bytes
read_value [] = []
read_value (c ∷ s) = if c == 34 then read_quoted s else until is_line_end (c ∷ s)

abbrev pub param_at : Bytes → ℕ → Option ℕ → Bytes
param_at s size none = []
param_at s size (some p) = read_value (drop (p + size) s)

unfoldable pub parse_disposition_param : Bytes → Bytes → Bytes
parse_disposition_param s key = param_at s (length key + 1) (find_text (key ++ (b'=' ∷ [])) s)

abbrev pub trim_value : Bytes → Bytes
trim_value [] = []
trim_value (c ∷ s) = let rest = trim_value s in if c == b' ' || c == 9 then rest else c ∷ s

-- The `content-disposition` and the `content-type` read so far.
pub record PartHeaders : Type 0 where
  pub disposition : Bytes
  pub type : Bytes

abbrev pub read_header : PartHeaders → Bytes → Bytes → PartHeaders
read_header h name value =
    if bytes_eq name (codes "content-disposition")
    then record h { disposition = value }
    else if bytes_eq name (codes "content-type")
    then record h { type = value }
    else h

abbrev pub read_line_at : PartHeaders → Bytes → Option ℕ → PartHeaders
read_line_at h line none = h
read_line_at h line (some colon) =
    read_header h (map to_lower (take colon line)) (trim_value (drop (suc colon) line))

abbrev pub read_line : PartHeaders → Bytes → PartHeaders
read_line h line = read_line_at h line (find b':' line)

-- The loop over the lines of a part's headers, with so many turns.
unfoldable pub read_headers : ℕ → PartHeaders → Bytes → PartHeaders
read_headers zero h hdrs = h
read_headers (suc n) h hdrs = elim (find_text crlf hdrs) [
  | none ↦ read_line h hdrs
  | some nl ↦ read_headers n (read_line h (take nl hdrs)) (drop (nl + 2) hdrs)
]

-- A byte order mark before the text of a string entry is dropped.
abbrev pub without_bom : Bytes → Bytes
without_bom content = if starts_with (239 ∷ 187 ∷ 191 ∷ []) content then drop 3 content else content

abbrev pub entry_of : PartHeaders → Bytes → Entry
entry_of h content =
    let filename = parse_disposition_param h.disposition (codes "filename") in
    let is_blob = not (bytes_eq filename []) || not (bytes_eq h.type []) in
    record {
      name = parse_disposition_param h.disposition (codes "name");
      bytes = if is_blob then content else without_bom content;
      type = if is_blob then h.type else [];
      filename = filename;
      is_blob = is_blob;
    }

-- The entry of a part, which its first empty line divides.
abbrev pub part_at : Bytes → Option ℕ → Option Entry
part_at part none = none
part_at part (some hdr_end) =
    let hdrs = take hdr_end part in
    some (
      entry_of (read_headers (suc (length hdrs)) (record { disposition = []; type = [] }) hdrs)
        (drop (hdr_end + 4) part))

abbrev pub read_part : Bytes → Option Entry
read_part part = part_at part (find_text (crlf ++ crlf) part)

-- Behind the last delimiter: padding and one line end at most.
abbrev pub is_end : Bytes → Bool
is_end rest =
    let padded = trim_value rest in
    bytes_eq (if starts_with crlf padded then drop 2 padded else padded) []

abbrev pub with_entry : Option Entry → Option (List Entry) → Option (List Entry)
with_entry (some e) (some list) = some (e ∷ list)
with_entry _ _ = none

-- The loop over the parts, with so many turns; `body` is what stands from `pos` on.
unfoldable pub parse_parts : ℕ → Bytes → Bytes → Option (List Entry)
parse_parts zero delim body = none
parse_parts (suc n) delim body =
    let after = drop (length delim) body in
    let content = drop 2 (trim_value after) in
    if starts_with delim body
    then if starts_with dashes after
      then if is_end (drop 2 after) then some [] else none
      else if starts_with crlf (trim_value after)
      then elim (find_text (crlf ++ delim) content) [
        | none ↦ none
        | some next ↦
            with_entry (read_part (take next content))
              (parse_parts n delim (drop (next + 2) content))
      ]
      else none
    else none

unfoldable pub parse_multipart : Bytes → Bytes → Option (List Entry)
parse_multipart body boundary =
    if bytes_eq boundary []
    then none
    else if bytes_eq body []
    then some []
    else parse_parts (suc (length body)) (dashes ++ boundary) body
