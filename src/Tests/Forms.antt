-- ===== src/Tests/Forms.antt =====
use mathlib.Core.Option
use quickjs_runtime.Common.{
  List, [], arith, false, length, map, refl, some, true, ◌++◌, ◌<◌, ◌∷◌, ◌≡◌,
}
use quickjs_runtime.Common.Bytes.{
  All, Bytes, bytes_eq, codes, contains, find, starts_with, to_lower,
}
use quickjs_runtime.Web.FormData.{
  Entry, dashes, encode_multipart, erase_entry, escape, extract_boundary, find_text, get_all,
  has_entry, parse_disposition_param, parse_multipart, parse_parts, read_headers, read_quoted,
  set_entry, until,
}
use quickjs_runtime.Web.FormData.Ends.{parse_parts_ends}
use quickjs_runtime.Web.FormData.Lists.{set_entry_replaces}
use quickjs_runtime.Web.FormData.RoundTrip.{IsField, parse_multipart-encode_multipart, string_entry}

-- Examples of forms.
abbrev field : Bytes → Bytes → Entry
field name v = record { name = name; bytes = v; type = []; filename = []; is_blob = false }

abbrev upload : Entry
upload = record {
  name = codes "a\"b";
  bytes = codes "x";
  type = codes "text/plain";
  filename = codes "f";
  is_blob = true;
}

abbrev form : List Entry
form = field (codes "k") (codes "1") ∷ upload ∷ field (codes "k") (codes "2") ∷ []

form_round_trip : parse_multipart (encode_multipart form (codes "B")) (codes "B") ≡ some form
unfolding parse_multipart parse_parts read_headers find_text parse_disposition_param read_quoted
    until encode_multipart escape bytes_eq starts_with find to_lower
form_round_trip = refl

form_twice : has_entry (codes "k") form ≡ true
unfolding has_entry bytes_eq
form_twice = refl

boundary_read : extract_boundary (codes "multipart/form-data; Boundary=\"aB\"; x") ≡ codes "aB"
unfolding extract_boundary find_text until starts_with to_lower
boundary_read = refl

-- The key is looked for inside quoted values as well.
name_in_filename :
    parse_disposition_param (codes "form-data; filename=\"f\"; name=\"n\"") (codes "name")
    ≡ codes "f"
unfolding parse_disposition_param find_text read_quoted starts_with
name_in_filename = refl

set_entry_replaces_example :
    (get_all (codes "k") (set_entry (field (codes "k") (codes "3")) form)
      ≡ field (codes "k") (codes "3") ∷ [])
    × (erase_entry (codes "k") (set_entry (field (codes "k") (codes "3")) form)
        ≡ erase_entry (codes "k") form)
set_entry_replaces_example = set_entry_replaces (field (codes "k") (codes "3")) form

abbrev fields : List (Bytes × Bytes)
fields = (codes "a\"b;", codes "x") ∷ (codes "k", codes "1") ∷ []

fields-IsField : All (IsField (codes "B")) fields
unfolding contains find_text starts_with bytes_eq escape string_entry
fields-IsField = ((refl, refl, refl, refl), ((refl, refl, refl, refl), tt))

parse_multipart-encode_multipart_example :
    parse_multipart (encode_multipart (map string_entry fields) (codes "B")) (codes "B")
    ≡ some (map string_entry fields)
parse_multipart-encode_multipart_example =
    parse_multipart-encode_multipart (codes "B") fields (unfold bytes_eq in refl) fields-IsField

-- A name is cut at a line end, since `escape` leaves it as it is.
abbrev broken_name : Bytes
broken_name = codes "A" ++ (13 ∷ 10 ∷ codes "B")

name_cut :
    Option.map
      (map (λ (e : Entry). e.name))
      (parse_multipart (encode_multipart (field broken_name [] ∷ []) (codes "b")) (codes "b"))
    ≡ some (codes "A" ∷ [])
unfolding parse_multipart parse_parts read_headers find_text parse_disposition_param read_quoted
    encode_multipart escape bytes_eq starts_with find to_lower
name_cut = refl

abbrev one_field : Bytes
one_field = encode_multipart (field (codes "k") (codes "1") ∷ []) (codes "B")

one_field_lt : length one_field < 100
unfolding encode_multipart escape
one_field_lt = omega arith

one_field_full : bytes_eq one_field [] ≡ false
unfolding encode_multipart bytes_eq
one_field_full = refl

parse_parts_ends_example :
    parse_parts 100 (dashes ++ codes "B") one_field ≡ parse_multipart one_field (codes "B")
parse_parts_ends_example =
    parse_parts_ends 100 one_field (codes "B") (unfold bytes_eq in refl) one_field_full one_field_lt
