-- ===== src/Web/Headers.antt =====
-- include/qjsbind/web/headers.hpp: `HeadersImpl`, the list behind a JavaScript `Headers` object.
--
-- A TypeError that is thrown to JavaScript is an error here; the methods give the changed object.
-- `utf8_points` stands for the decoder of the utf8cpp library: the code points of a text, or
-- `none` where it throws.
pub mod Clean
pub mod Access
use quickjs_runtime.Common.{
  Bool, List, Option, [], false, if◌then◌else◌, leb, length, ltb, map, none, not, some, true, ℕ,
  ◌&&◌, ◌++◌, ◌==◌, ◌||◌, ◌∷◌,
}
use quickjs_runtime.Common.Bytes.{Bytes, between, bytes_eq, codes, contains, to_lower}
use quickjs_runtime.Common.Result.{Result, err, ok, ◌>>=◌, ◌>>◌}

pub data HeadersError : Type 0 where
  bad_name bad_name_char bad_value_char not_utf8 not_byte_string immutable_headers : HeadersError
  bad_raw_name bad_raw_value : HeadersError

pub data Guard : Type 0 where
  no_guard request request_no_cors response immutable : Guard

pub record HeadersImpl : Type 0 where
  pub guard : Guard
  pub list : List (Bytes × Bytes)

unfoldable pub is_method_override_header : Bytes → Bool
is_method_override_header n =
    bytes_eq n (codes "x-http-method-override")
    || bytes_eq n (codes "x-http-method")
    || bytes_eq n (codes "x-method-override")

unfoldable pub is_forbidden_response_header : Bytes → Bool
is_forbidden_response_header n = bytes_eq n (codes "set-cookie") || bytes_eq n (codes "set-cookie2")

unfoldable pub is_http_token_char : ℕ → Bool
is_http_token_char c =
    between b'a' b'z' c
    || between b'A' b'Z' c
    || between b'0' b'9' c
    || contains c (codes "!#$%&'*+-.^_`|~")

-- A text without the bytes at its two ends that `ws` takes.
unfoldable pub trim_left : (ℕ → Bool) → Bytes → Bytes
trim_left ws [] = []
trim_left ws (c ∷ cs) = let rest = trim_left ws cs in if ws c then rest else c ∷ cs

unfoldable pub trim_right : (ℕ → Bool) → Bytes → Bytes
trim_right ws [] = []
trim_right ws (c ∷ cs) = elim (trim_right ws cs) [
  | [] ↦ if ws c then [] else c ∷ []
  | d ∷ ds ↦ c ∷ d ∷ ds
]

abbrev pub is_blank : ℕ → Bool
is_blank c = c == b' ' || c == b'\t'

abbrev pub is_ws : ℕ → Bool
is_ws c = c == b' ' || c == b'\t' || c == b'\r' || c == b'\n'

unfoldable pub trim_http_ws : Bytes → Bytes
trim_http_ws s = trim_right is_blank (trim_left is_blank s)

unfoldable pub all_chars : (ℕ → Bool) → Bytes → Bool
all_chars p [] = true
all_chars p (c ∷ cs) = p c && all_chars p cs

unfoldable pub normalize_name : Bytes → Result HeadersError Bytes
normalize_name raw_name =
    let name = trim_http_ws raw_name in
    if bytes_eq name [] || ltb 128 (length name)
    then err bad_name
    else if all_chars is_http_token_char name
    then ok (map to_lower name)
    else err bad_name_char

-- No CR, LF or NUL.
abbrev pub is_line_char : ℕ → Bool
is_line_char c = not (c == b'\r' || c == b'\n' || c == 0)

unfoldable pub all_latin : List ℕ → Bool
all_latin [] = true
all_latin (p ∷ ps) = leb p 0xff && all_latin ps

module _ (utf8_points : Bytes → Option (List ℕ)) where
  unfoldable pub normalize_value : Bytes → Result HeadersError Bytes
  normalize_value raw_value =
      let value = trim_right is_ws (trim_left is_ws raw_value) in
      if all_chars is_line_char value
      then elim (utf8_points value) [
        | none ↦ err not_utf8
        | some points ↦ if all_latin points then ok value else err not_byte_string
      ]
      else err bad_value_char

-- `check_part`.
unfoldable pub is_forbidden_method : Bytes → Bool
is_forbidden_method part =
    let p = map to_lower (trim_http_ws part) in
    bytes_eq p (codes "trace") || bytes_eq p (codes "track") || bytes_eq p (codes "connect")

-- The loop over the value, `part` being what was read since the last comma.
unfoldable pub has_forbidden_part : Bytes → Bytes → Bool
has_forbidden_part [] part = is_forbidden_method part
has_forbidden_part (c ∷ cs) part =
    let rest = has_forbidden_part cs (if c == b',' then [] else part ++ (c ∷ [])) in
    if c == b',' && is_forbidden_method part then true else rest

unfoldable pub is_guard : Guard → Guard → Bool
is_guard no_guard no_guard = true
is_guard request request = true
is_guard request_no_cors request_no_cors = true
is_guard response response = true
is_guard immutable immutable = true
is_guard _ _ = false

unfoldable pub forbidden : Guard → Bytes → Bytes → Bool
forbidden g name value =
    if is_guard g request && is_method_override_header name && has_forbidden_part value []
    then true
    else if is_guard g request_no_cors
        && not (bytes_eq name (codes "accept"))
        && not (bytes_eq name (codes "accept-language"))
        && not (bytes_eq name (codes "content-language"))
        && not (bytes_eq name (codes "content-type"))
    then true
    else is_guard g response && is_forbidden_response_header name

unfoldable pub erase_all : Bytes → List (Bytes × Bytes) → List (Bytes × Bytes)
erase_all name [] = []
erase_all name ((k, v) ∷ l) =
    let rest = erase_all name l in if bytes_eq k name then rest else (k, v) ∷ rest

-- What a change does under a guard: it throws, is ignored, or is made.
unfoldable pub guarded_change :
    HeadersImpl → Bytes → Bytes → List (Bytes × Bytes) → Result HeadersError HeadersImpl
guarded_change h name value changed =
    if is_guard h.guard immutable
    then err immutable_headers
    else if forbidden h.guard name value
    then ok h
    else ok (record h { list = changed })

module _ (utf8_points : Bytes → Option (List ℕ)) where
  unfoldable pub append : HeadersImpl → Bytes → Bytes → Result HeadersError HeadersImpl
  append h name_raw value_raw = do
    name ← normalize_name name_raw
    value ← normalize_value utf8_points value_raw
    guarded_change h name value (h.list ++ ((name, value) ∷ []))

  unfoldable pub set_header : HeadersImpl → Bytes → Bytes → Result HeadersError HeadersImpl
  set_header h name_raw value_raw = do
    name ← normalize_name name_raw
    value ← normalize_value utf8_points value_raw
    guarded_change h name value (erase_all name h.list ++ ((name, value) ∷ []))

unfoldable pub erase : HeadersImpl → Bytes → Result HeadersError HeadersImpl
erase h name_raw = do
  name ← normalize_name name_raw
  guarded_change h name [] (erase_all name h.list)

unfoldable pub has_name : Bytes → List (Bytes × Bytes) → Bool
has_name name [] = false
has_name name ((k, v) ∷ l) = if bytes_eq k name then true else has_name name l

unfoldable pub has : HeadersImpl → Bytes → Result HeadersError Bool
has h name_raw = do
  name ← normalize_name name_raw
  ok (
      if is_guard h.guard response && is_forbidden_response_header name
      then false
      else has_name name h.list)

-- `out` and `first` after an entry, which is of the name or not.
unfoldable pub joined : Bool → Bool → Bytes → Bytes → Bytes
joined false first out v = out
joined true first out v = (if first then out else out ++ codes ", ") ++ v

-- The loop of `get`, with `out` and `first`.
unfoldable pub join : Bytes → List (Bytes × Bytes) → Bytes → Bool → Option Bytes
join name [] out first = if first then none else some out
join name ((k, v) ∷ l) out first =
    join name l (joined (bytes_eq k name) first out v) (not (bytes_eq k name) && first)

unfoldable pub get : HeadersImpl → Bytes → Result HeadersError (Option Bytes)
get h name_raw = do
  name ← normalize_name name_raw
  ok (
      if is_guard h.guard response && is_forbidden_response_header name
      then none
      else join name h.list [] true)

unfoldable pub append_raw : HeadersImpl → Bytes → Bytes → Result HeadersError HeadersImpl
append_raw h name value =
    if not (all_chars is_line_char name)
    then err bad_raw_name
    else if not (all_chars is_line_char value)
    then err bad_raw_value
    else ok (record h { list = h.list ++ ((map to_lower name, value) ∷ []) })

unfoldable pub get_set_cookie : List (Bytes × Bytes) → List Bytes
get_set_cookie [] = []
get_set_cookie ((k, v) ∷ l) =
    let rest = get_set_cookie l in if bytes_eq k (codes "set-cookie") then v ∷ rest else rest
