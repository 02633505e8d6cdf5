-- ===== src/Web/FormData/Ends.antt =====
use quickjs_runtime.Common.{
  Bool-cases, Option-cases, [], arith, drop, false, inl, inr, length, length-drop, refl, some, suc,
  take, true, zero, ℕ, ◌++◌, ◌+◌, ◌<◌, ◌∷◌, ◌≡◌, ◌≤◌,
}
use quickjs_runtime.Common.Bytes.{Bytes, bytes_eq, starts_with}
use quickjs_runtime.Web.FormData.{
  PartHeaders, crlf, dashes, find_text, parse_multipart, parse_parts, read_headers, read_line,
  trim_value,
}

-- The loop over the parts stops.
drop_le : (n : ℕ) (s : Bytes) → length (drop n s) ≤ length s
drop_le n s = let rest = length-drop n s in omega arith

trim_le : (s : Bytes) → length (trim_value s) ≤ length s
trim_le [] = omega arith
trim_le (c ∷ s) = let ih = trim_le s in ground arith

line_left : (s : Bytes) → starts_with crlf s ≡ true → length (drop 2 s) < length s
unfolding starts_with
line_left [] h = ground arith
line_left (c ∷ []) h = ground arith
line_left (c ∷ d ∷ s) h = ground arith

-- What is left for the next turn is shorter.
next_lt :
    (k n next : ℕ) (body : Bytes)
    → length body < suc n
    → starts_with crlf (trim_value (drop k body)) ≡ true
    → length (drop next (drop 2 (trim_value (drop k body)))) < n
next_lt k n next body h line =
    let padded = trim_value (drop k body) in
    let dropped = drop_le k body in
    let trimmed = trim_le (drop k body) in
    let shorter = line_left padded line in
    let rest = drop_le next (drop 2 padded) in omega (arith, h, dropped, trimmed, shorter, rest)

parts_agree :
    (n m : ℕ) (delim body : Bytes)
    → length body < n
    → length body < m
    → parse_parts n delim body ≡ parse_parts m delim body
unfolding parse_parts
parts_agree zero m delim body h k = absurd (omega arith)
parts_agree (suc n) zero delim body h k = absurd (omega arith)
parts_agree (suc n) (suc m) delim body h k =
    let after = drop (length delim) body in
    let content = drop 2 (trim_value after) in
    elim (Bool-cases (starts_with crlf (trim_value after))) [
      | inr other ↦ rw (other, parse_parts) refl
      | inl line ↦ elim (Option-cases (find_text (crlf ++ delim) content)) [
        | inl e ↦ rw (line, e, parse_parts) refl
        | inr (next, e) ↦
            let ih =
              parts_agree n m delim (drop (next + 2) content)
                (next_lt (length delim) n (next + 2) body h line)
                (next_lt (length delim) m (next + 2) body k line) in
            rw (line, e, parse_parts) (rw ih refl)
      ]
    ]

find_line_lt : (s : Bytes) {i : ℕ} → find_text crlf s ≡ some i → length (drop (i + 2) s) < length s
unfolding find_text bytes_eq
find_line_lt [] h = cc
find_line_lt (c ∷ s) {i} h = let rest = length-drop (i + 2) (c ∷ s) in omega arith

headers_agree :
    (n m : ℕ) (h : PartHeaders) (hdrs : Bytes)
    → length hdrs < n
    → length hdrs < m
    → read_headers n h hdrs ≡ read_headers m h hdrs
unfolding read_headers
headers_agree zero m h hdrs l k = absurd (omega arith)
headers_agree (suc n) zero h hdrs l k = absurd (omega arith)
headers_agree (suc n) (suc m) h hdrs l k = elim (Option-cases (find_text crlf hdrs)) [
  | inl e ↦ rw (e, read_headers) refl
  | inr (nl, e) ↦
      let shorter = find_line_lt hdrs e in
      rw (e, read_headers)
        (headers_agree n m (read_line h (take nl hdrs)) (drop (nl + 2) hdrs)
          (omega (arith, l, shorter)) (omega (arith, k, shorter)))
]

-- The loop over the parts of a body ends: with more turns than the body has bytes, as `parse_multipart`
-- runs it on a body and a boundary that are not empty, the form, or the failure, does not depend on
-- how many.
pub parse_parts_ends :
    (n : ℕ) (body boundary : Bytes)
    → bytes_eq boundary [] ≡ false
    → bytes_eq body [] ≡ false
    → length body < n
    → parse_parts n (dashes ++ boundary) body ≡ parse_multipart body boundary
unfolding parse_multipart
parse_parts_ends n body boundary some_boundary some_body h =
    rw some_boundary
      (rw some_body (parts_agree n (suc (length body)) (dashes ++ boundary) body h (omega arith)))
