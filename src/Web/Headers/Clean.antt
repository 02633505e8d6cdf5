-- ===== src/Web/Headers/Clean.antt =====
-- What a change of the list lets into it, by `append`, `set`, `delete` and `append_raw`.
use quickjs_runtime.Common.{
  Bool-cases, List, Option, [], arith, inl, inr, map, refl, true, ℕ, ◌++◌, ◌∷◌, ◌≡◌,
}
use quickjs_runtime.Common.Bytes.{Bytes, contains, to_lower}
use quickjs_runtime.Common.Result.{Result, Result-cases, err, ok}
use quickjs_runtime.Web.Headers.{
  HeadersError, HeadersImpl, all_chars, append, append_raw, erase, erase_all, guarded_change,
  is_http_token_char, is_line_char, normalize_name, normalize_value, set_header, trim_http_ws,
}

abbrev pub IsCleanText : Bytes → Type 0
IsCleanText s = all_chars is_line_char s ≡ true

abbrev pub IsClean : List (Bytes × Bytes) → Type 0
IsClean [] = Unit {0}
IsClean ((k, v) ∷ l) = IsCleanText k × IsCleanText v × IsClean l

abbrev pub CleanResult : Result HeadersError HeadersImpl → Type 0
CleanResult (ok h) = IsClean h.list
CleanResult (err e) = Unit {0}

IsClean-append : (l m : List (Bytes × Bytes)) → IsClean l → IsClean m → IsClean (l ++ m)
IsClean-append [] m h k = k
IsClean-append ((a, b) ∷ l) m (h, g, t) k = (h, g, IsClean-append l m t k)

IsClean-erase_all :
    (name : Bytes) (l : List (Bytes × Bytes)) → IsClean l → IsClean (erase_all name l)
unfolding erase_all
IsClean-erase_all name [] h = tt
IsClean-erase_all name ((k, v) ∷ l) (h, g, t) = ground (arith, IsClean-erase_all name l t)

token-line_char : (c : ℕ) → is_http_token_char c ≡ true → is_line_char (to_lower c) ≡ true
unfolding is_http_token_char to_lower contains
token-line_char c h = ground arith

tokens-clean : (s : Bytes) → all_chars is_http_token_char s ≡ true → IsCleanText (map to_lower s)
unfolding all_chars
tokens-clean [] h = refl
tokens-clean (c ∷ s) h = ground (arith, token-line_char c, tokens-clean s)

lower-clean : (s : Bytes) → IsCleanText s → IsCleanText (map to_lower s)
unfolding all_chars to_lower
lower-clean [] h = refl
lower-clean (c ∷ s) h = ground (arith, lower-clean s)

normalize_name-clean :
    (raw_name : Bytes) {n : Bytes} → normalize_name raw_name ≡ ok n → IsCleanText n
unfolding normalize_name
normalize_name-clean raw_name h = ground (arith, tokens-clean (trim_http_ws raw_name))

guarded_change-clean :
    (h : HeadersImpl) (name value : Bytes) (changed : List (Bytes × Bytes))
    → IsClean h.list
    → IsClean changed
    → CleanResult (guarded_change h name value changed)
unfolding guarded_change
guarded_change-clean h name value changed old new = ground arith

module _ (utf8_points : Bytes → Option (List ℕ)) where
  normalize_value-clean :
      (raw_value : Bytes) {v : Bytes} → normalize_value utf8_points raw_value ≡ ok v → IsCleanText v
  unfolding normalize_value
  normalize_value-clean raw_value h = ground arith

  append-clean :
      (h : HeadersImpl) (name_raw value_raw : Bytes)
      → IsClean h.list
      → CleanResult (append utf8_points h name_raw value_raw)
  unfolding append
  append-clean h name_raw value_raw old = elim (Result-cases (normalize_name name_raw)) [
    | inr (e, p) ↦ rw p tt
    | inl (name, p) ↦ elim (Result-cases (normalize_value utf8_points value_raw)) [
      | inr (e, q) ↦ rw (p, q) tt
      | inl (value, q) ↦
          rw (p, q)
            (guarded_change-clean h name value _ old (
              IsClean-append h.list ((name, value) ∷ []) old
                (normalize_name-clean name_raw p, normalize_value-clean value_raw q, tt)))
    ]
  ]

  set_header-clean :
      (h : HeadersImpl) (name_raw value_raw : Bytes)
      → IsClean h.list
      → CleanResult (set_header utf8_points h name_raw value_raw)
  unfolding set_header
  set_header-clean h name_raw value_raw old = elim (Result-cases (normalize_name name_raw)) [
    | inr (e, p) ↦ rw p tt
    | inl (name, p) ↦ elim (Result-cases (normalize_value utf8_points value_raw)) [
      | inr (e, q) ↦ rw (p, q) tt
      | inl (value, q) ↦
          rw (p, q)
            (guarded_change-clean h name value _ old (
              IsClean-append (erase_all name h.list) ((name, value) ∷ [])
                (IsClean-erase_all name h.list old)
                (normalize_name-clean name_raw p, normalize_value-clean value_raw q, tt)))
    ]
  ]

erase-clean : (h : HeadersImpl) (name_raw : Bytes) → IsClean h.list → CleanResult (erase h name_raw)
unfolding erase
erase-clean h name_raw old = elim (Result-cases (normalize_name name_raw)) [
  | inr (e, p) ↦ rw p tt
  | inl (name, p) ↦ rw p (guarded_change-clean h name [] _ old (IsClean-erase_all name h.list old))
]

append_raw-clean :
    (h : HeadersImpl) (name value : Bytes) → IsClean h.list → CleanResult (append_raw h name value)
unfolding append_raw
append_raw-clean h name value old = elim (Bool-cases (all_chars is_line_char name)) [
  | inr p ↦ rw p tt
  | inl p ↦ elim (Bool-cases (all_chars is_line_char value)) [
    | inr q ↦ rw (p, q) tt
    | inl q ↦
        rw (p, q)
          (IsClean-append h.list ((map to_lower name, value) ∷ []) old (lower-clean name p, q, tt))
  ]
]

-- Whatever names and values a script passes, a list without CR, LF and NUL in its names and values
-- still has none after `append`, `set`, `delete` or `append_raw`, under every guard.
pub changes-clean :
    (utf8_points : Bytes → Option (List ℕ)) (h : HeadersImpl) (name value : Bytes)
    → IsClean h.list
    → CleanResult (append utf8_points h name value)
      × CleanResult (set_header utf8_points h name value)
      × CleanResult (erase h name)
      × CleanResult (append_raw h name value)
changes-clean utf8_points h name value old = (
  append-clean utf8_points h name value old,
  set_header-clean utf8_points h name value old,
  erase-clean h name old,
  append_raw-clean h name value old,
)
