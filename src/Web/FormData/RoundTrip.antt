-- ===== src/Web/FormData/RoundTrip.antt =====
use mathlib.Core.List.{append_assoc}
use native.Mathlib.Nat.{suc-add, zero-add}
use quickjs_runtime.Common.{
  List, [], ap, arith, drop, false, length, length-append, map, none, refl, some, suc, sym, zero, ℕ,
  ◌++◌, ◌+◌, ◌<◌, ◌∙◌, ◌∷◌, ◌≡◌, ◌≤◌,
}
use quickjs_runtime.Common.Bytes.{
  All, Bytes, bytes_eq, codes, contains, find, starts_with, to_lower,
}
use quickjs_runtime.Fetch.DataUrl.RoundTrip.{contains-append, take-length}
use quickjs_runtime.Web.FormData.{
  Entry, PartHeaders, crlf, dashes, disposition_of, encode_multipart, encode_part, entry_of, escape,
  find_text, parse_disposition_param, parse_multipart, parse_parts, part_at, read_headers,
  read_line, read_part, with_entry,
}
use quickjs_runtime.Web.FormData.Disposition.{parse_disposition_param-name}
use quickjs_runtime.Web.FormData.Search.{
  find_text_absent, find_text_behind, find_text_more, starts_with-append,
}

-- A form of string entries, written and parsed.
-- The entry that `append` makes of a name and a string, as their UTF-8.
unfoldable pub string_entry : Bytes × Bytes → Entry
string_entry (name, text) = record {
  name = name;
  bytes = text;
  type = [];
  filename = [];
  is_blob = false;
}

abbrev pub disposition_line : Bytes → Bytes
disposition_line name =
    codes "Content-Disposition: form-data; name=" ++ (34 ∷ (escape name ++ (34 ∷ [])))

-- What stands between the delimiters.
abbrev pub part_text : Bytes × Bytes → Bytes
part_text (name, text) = disposition_line name ++ (crlf ++ (crlf ++ text))

-- A name without a carriage return, and without `filename=` in its header, a text that does not start
-- with a byte order mark, and a part in which the delimiter does not occur.
abbrev pub IsField : Bytes → Bytes × Bytes → Type 0
IsField boundary (name, text) =
    (contains 13 name ≡ false)
    × (find_text (codes "filename=") (disposition_of (string_entry (name, text))) ≡ none)
    × (starts_with (239 ∷ 187 ∷ 191 ∷ []) text ≡ false)
    × (find_text (crlf ++ (dashes ++ boundary))
          (part_text (name, text) ++ (crlf ++ (dashes ++ boundary)))
        ≡ some (length (part_text (name, text))))

contains-escape : (s : Bytes) → contains 13 s ≡ false → contains 13 (escape s) ≡ false
unfolding contains escape
contains-escape [] h = refl
contains-escape (c ∷ s) h = let ih = contains-escape s (ground (arith, h)) in ground (arith, h, ih)

line_plain : (name : Bytes) → contains 13 name ≡ false → contains 13 (disposition_line name) ≡ false
unfolding contains
line_plain name h = contains-append 13 (escape name) (34 ∷ []) ∙ rw (contains-escape name h) refl

drop_all : (a s : Bytes) → drop (length a) (a ++ s) ≡ s
drop_all [] s = refl
drop_all (x ∷ a) s = drop_all a s

drop_more : (a s : Bytes) (k : ℕ) → drop (length a + k) (a ++ s) ≡ drop k s
drop_more [] s k = rw (zero-add k) refl
drop_more (x ∷ a) s k = rw (suc-add (length a) k) (drop_more a s k)

read_line-disposition :
    (name : Bytes)
    → read_line (record { disposition = []; type = [] }) (disposition_line name) ≡ record {
      disposition = codes "form-data; name=" ++ (34 ∷ (escape name ++ (34 ∷ [])));
      type = [];
    }
unfolding find to_lower bytes_eq
read_line-disposition name = refl

abbrev nothing_read : PartHeaders
nothing_read = record { disposition = []; type = [] }

read_headers_one :
    (n : ℕ) (h : PartHeaders) (line : Bytes)
    → contains 13 line ≡ false
    → read_headers (suc n) h line ≡ read_line h line
unfolding read_headers
read_headers_one n h line plain = rw (find_text_absent 13 (10 ∷ []) line plain, read_headers) refl

header_end :
    (line text : Bytes)
    → contains 13 line ≡ false
    → find_text (crlf ++ crlf) (line ++ (crlf ++ (crlf ++ text))) ≡ some (length line)
unfolding find_text starts_with
header_end line text plain =
    find_text_behind 13 (10 ∷ 13 ∷ 10 ∷ []) line (13 ∷ 10 ∷ 13 ∷ 10 ∷ text) plain refl
    ∙ ap some (omega arith)

read_part_one :
    (line text : Bytes)
    → contains 13 line ≡ false
    → read_part (line ++ (crlf ++ (crlf ++ text)))
      ≡ some (entry_of (read_line nothing_read line) text)
read_part_one line text plain =
    let part = line ++ (crlf ++ (crlf ++ text)) in
    ap (part_at part) (header_end line text plain)
    ∙ rw
        (
          take-length line (crlf ++ (crlf ++ text)),
          drop_more line (crlf ++ (crlf ++ text)) 4,
          read_headers_one (length line) nothing_read line plain,
        )
        refl

no_filename :
    (disposition : Bytes)
    → find_text (codes "filename=") disposition ≡ none
    → parse_disposition_param disposition (codes "filename") ≡ []
unfolding parse_disposition_param
no_filename disposition h = rw h refl

entry_of_string :
    (disposition text : Bytes)
    → find_text (codes "filename=") disposition ≡ none
    → starts_with (239 ∷ 187 ∷ 191 ∷ []) text ≡ false
    → entry_of (record { disposition = disposition; type = [] }) text
      ≡ string_entry (parse_disposition_param disposition (codes "name"), text)
unfolding string_entry bytes_eq
entry_of_string disposition text no_file no_bom = rw (no_filename disposition no_file, no_bom) refl

read_part-string :
    (boundary name text : Bytes)
    → IsField boundary (name, text)
    → read_part (part_text (name, text)) ≡ some (string_entry (name, text))
unfolding string_entry
read_part-string boundary name text (plain, no_file, no_bom, fresh) =
    let e = string_entry (name, text) in
    read_part_one (disposition_line name) text (line_plain name plain)
    ∙ ap (λ h. some (entry_of h text)) (read_line-disposition name)
    ∙ ap some (entry_of_string (disposition_of e) text no_file no_bom)
    ∙ ap (λ n. some (string_entry (n, text))) (parse_disposition_param-name e)

regroup :
    (b line text rest : Bytes)
    → (b ++ (crlf ++ (line ++ (crlf ++ (crlf ++ (text ++ crlf)))))) ++ rest
      ≡ b ++ (crlf ++ ((line ++ (crlf ++ (crlf ++ text))) ++ (crlf ++ rest)))
regroup b line text rest =
    append_assoc b (crlf ++ (line ++ (crlf ++ (crlf ++ (text ++ crlf))))) rest
    ∙ ap (λ t. b ++ (crlf ++ t))
        (append_assoc line (crlf ++ (crlf ++ (text ++ crlf))) rest
          ∙ ap (λ t. line ++ (crlf ++ (crlf ++ t))) (append_assoc text crlf rest)
          ∙ sym (append_assoc line (crlf ++ (crlf ++ text)) (crlf ++ rest)))

-- A form is its first part, between delimiters, and the rest.
encode_part-string :
    (boundary : Bytes) (f : Bytes × Bytes) (rest : Bytes)
    → encode_part boundary (string_entry f) ++ rest
      ≡ (dashes ++ boundary) ++ (crlf ++ (part_text f ++ (crlf ++ rest)))
unfolding string_entry
encode_part-string boundary (name, text) rest =
    ap (λ t. dashes ++ t) (regroup boundary (disposition_line name) text rest)

-- The text of a form starts with the delimiter.
encode_starts :
    (boundary : Bytes) (fields : List (Bytes × Bytes))
    → (tail : Bytes) × (encode_multipart (map string_entry fields) boundary
        ≡ (dashes ++ boundary) ++ tail)
unfolding encode_multipart
encode_starts boundary [] = (dashes ++ crlf, refl)
encode_starts boundary (f ∷ fields) =
    let rest = encode_multipart (map string_entry fields) boundary in
    (crlf ++ (part_text f ++ (crlf ++ rest)), encode_part-string boundary f rest)

parse_parts_end :
    (n : ℕ) (delim : Bytes) → parse_parts (suc n) delim (delim ++ (dashes ++ crlf)) ≡ some []
unfolding parse_parts
parse_parts_end n delim =
    rw (starts_with-append delim (dashes ++ crlf), drop_all delim (dashes ++ crlf))
      (unfold starts_with bytes_eq in refl)

parse_parts_step :
    (n : ℕ) (delim part rest : Bytes)
    → find_text (crlf ++ delim) (part ++ (crlf ++ rest)) ≡ some (length part)
    → parse_parts (suc n) delim (delim ++ (crlf ++ (part ++ (crlf ++ rest))))
      ≡ with_entry (read_part part) (parse_parts n delim rest)
unfolding parse_parts starts_with
parse_parts_step n delim part rest found =
    let body = crlf ++ (part ++ (crlf ++ rest)) in
    rw (starts_with-append delim body, drop_all delim body)
      (rw found (
        rw (drop_all delim body)
          (rw (take-length part (crlf ++ rest), drop_more part (crlf ++ rest) 2) refl)))

-- The delimiter behind the first part is found where the part ends.
found_after :
    (boundary : Bytes) (f : Bytes × Bytes) (fields : List (Bytes × Bytes))
    → IsField boundary f
    → find_text
        (crlf ++ (dashes ++ boundary))
        (part_text f ++ (crlf ++ encode_multipart (map string_entry fields) boundary))
      ≡ some (length (part_text f))
found_after boundary f fields (plain, no_file, no_bom, fresh) =
    let delim = dashes ++ boundary in
    let (tail, e) = encode_starts boundary fields in
    ap (λ t. find_text (crlf ++ delim) (part_text f ++ (crlf ++ t))) e
    ∙ ap (find_text (crlf ++ delim)) (sym (append_assoc (part_text f) (crlf ++ delim) tail))
    ∙ find_text_more 13 (10 ∷ delim) (part_text f ++ (crlf ++ delim)) tail fresh

parts_read :
    (n : ℕ) (boundary : Bytes) (fields : List (Bytes × Bytes))
    → length fields < n
    → All (IsField boundary) fields
    → parse_parts n (dashes ++ boundary) (encode_multipart (map string_entry fields) boundary)
      ≡ some (map string_entry fields)
unfolding encode_multipart
parts_read zero boundary fields l h = absurd (omega arith)
parts_read (suc n) boundary [] l h = parse_parts_end n (dashes ++ boundary)
parts_read (suc n) boundary (f ∷ fields) l (h, hs) =
    let delim = dashes ++ boundary in
    let rest = encode_multipart (map string_entry fields) boundary in
    ap (parse_parts (suc n) delim) (encode_part-string boundary f rest)
    ∙ parse_parts_step n delim (part_text f) rest (found_after boundary f fields h)
    ∙ ap (λ p. with_entry p (parse_parts n delim rest)) (read_part-string boundary f.0 f.1 h)
    ∙ ap (with_entry (some (string_entry f))) (parts_read n boundary fields (omega arith) hs)

turns_enough :
    (boundary : Bytes) (fields : List (Bytes × Bytes))
    → length fields ≤ length (encode_multipart (map string_entry fields) boundary)
unfolding encode_multipart
turns_enough boundary [] = omega arith
turns_enough boundary (f ∷ fields) =
    let rest = encode_multipart (map string_entry fields) boundary in
    let ih = turns_enough boundary fields in
    let whole = length-append (encode_part boundary (string_entry f)) rest in
    omega (arith, ih, whole)

-- A form of string entries is what its multipart text is parsed to, in the order of its entries; names
-- may have quotation marks, backslashes and semicolons. The conditions: the boundary is not empty; no
-- name has a carriage return, and none makes `filename=` stand in its header; no text starts with a
-- byte order mark; and the delimiter does not occur in a part.
pub parse_multipart-encode_multipart :
    (boundary : Bytes) (fields : List (Bytes × Bytes))
    → bytes_eq boundary [] ≡ false
    → All (IsField boundary) fields
    → parse_multipart (encode_multipart (map string_entry fields) boundary) boundary
      ≡ some (map string_entry fields)
unfolding parse_multipart
parse_multipart-encode_multipart boundary fields some_boundary h =
    let (tail, e) = encode_starts boundary fields in
    let full : bytes_eq (encode_multipart (map string_entry fields) boundary) [] ≡ false =
      ap (λ t. bytes_eq t []) e ∙ (unfold bytes_eq in refl) in
    let enough = turns_enough boundary fields in
    rw (some_boundary, full) (parts_read _ boundary fields (omega (arith, enough)) h)
