-- ===== src/Fetch/HeaderOps/Strip.antt =====
-- What a header list holds under each name after headers were removed.
use quickjs_runtime.Common.{
  Bool, Bool-cases, List, [], arith, false, if◌then◌else◌, inl, inr, refl, true, ◌||◌, ◌∷◌, ◌≡◌,
}
use quickjs_runtime.Common.Bytes.{Bytes, codes}
use quickjs_runtime.Fetch.HeaderOps.{header_name_eq, is_named, strip_headers, without_body_headers}
use quickjs_runtime.Fetch.HeaderOps.Names.{header_name_eq_cong}
use quickjs_runtime.Fetch.Types.{Header, Headers}

-- The values that a list holds under a name, in order.
abbrev pub values : Bytes → Headers → List Bytes
values name [] = []
values name (h ∷ hs) =
    let rest = values name hs in if header_name_eq h.name name then h.value ∷ rest else rest

-- A name counts as one of the listed names.
abbrev pub listed : Bytes → List Bytes → Bool
listed name [] = false
listed name (n ∷ ns) = header_name_eq name n || listed name ns

is_named-listed :
    (h : Header) (name : Bytes) (ns : List Bytes)
    → header_name_eq h.name name ≡ true
    → is_named h ns ≡ listed name ns
unfolding is_named
is_named-listed h name [] e = refl
is_named-listed h name (n ∷ ns) e =
    cc (header_name_eq_cong h.name name n e, is_named-listed h name ns e)

-- `strip_headers` removes exactly the headers under the listed names: a listed name has no value
-- left, and any other keeps all its values in their order.
pub values-strip_headers :
    (name : Bytes) (hs : Headers) (ns : List Bytes)
    → values name (strip_headers hs ns) ≡ (if listed name ns then [] else values name hs)
unfolding strip_headers
values-strip_headers name [] ns = ground arith
values-strip_headers name (h ∷ hs) ns = elim (Bool-cases (header_name_eq h.name name)) [
  | inl e ↦ rw e (ground (arith, e, is_named-listed h name ns e, values-strip_headers name hs ns))
  | inr e ↦ ground (arith, e, values-strip_headers name hs ns)
]

abbrev pub body_names : List Bytes
body_names =
    codes "content-length"
    ∷ codes "content-type"
    ∷ codes "content-encoding"
    ∷ codes "content-language"
    ∷ codes "content-location"
    ∷ []

pub without_body_headers-strip_headers :
    (hs : Headers) → without_body_headers hs ≡ strip_headers hs body_names
unfolding without_body_headers strip_headers is_named
without_body_headers-strip_headers [] = refl
without_body_headers-strip_headers (h ∷ hs) = ground (arith, without_body_headers-strip_headers hs)
