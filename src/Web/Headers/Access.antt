-- ===== src/Web/Headers/Access.antt =====
-- What `get` and `has` answer after a change of the list.
use quickjs_runtime.Common.{
  Bool, Bool-cases, List, Option, [], ap, arith, false, inl, inr, refl, some, sym, true, ℕ, ◌++◌,
  ◌∙◌, ◌∷◌, ◌≡◌,
}
use quickjs_runtime.Common.Bytes.{Bytes, bytes_eq, bytes_eq_iff, bytes_eq_refl}
use quickjs_runtime.Common.Result.{Result, ok, ◌>>=◌}
use quickjs_runtime.Web.Headers.{
  HeadersError, HeadersImpl, erase_all, forbidden, get, guarded_change, has_name, is_guard, join,
  joined, no_guard, normalize_name, normalize_value, set_header,
}

-- Nothing of the name is left by `erase_all`.
has_name-erase_all :
    (name : Bytes) (l : List (Bytes × Bytes)) → has_name name (erase_all name l) ≡ false
unfolding has_name erase_all
has_name-erase_all name [] = refl
has_name-erase_all name ((k, v) ∷ l) = ground (arith, has_name-erase_all name l)

-- An entry of another name.
join-skip :
    (name k v : Bytes) (l : List (Bytes × Bytes)) (out : Bytes) (first : Bool)
    → bytes_eq k name ≡ false
    → join name ((k, v) ∷ l) out first ≡ join name l out first
unfolding join joined
join-skip name k v l out first h = rw h refl

-- Another name's values are as they were.
join-erase_all :
    (name other : Bytes) (l : List (Bytes × Bytes)) (out : Bytes) (first : Bool)
    → bytes_eq name other ≡ false
    → join other (erase_all name l) out first ≡ join other l out first
unfolding join erase_all
join-erase_all name other [] out first h = refl
join-erase_all name other ((k, v) ∷ l) out first h = elim (Bool-cases (bytes_eq k name)) [
  | inl p ↦ rw p (
      join-erase_all name other l out first h
      ∙ sym (
          join-skip other k v l out first
            (ap (λ (t : Bytes). bytes_eq t other) ((bytes_eq_iff k name).0 p) ∙ h)))
  | inr p ↦ rw p (join-erase_all name other l _ _ h)
]

join-single_only :
    (name value : Bytes) (l : List (Bytes × Bytes))
    → has_name name l ≡ false
    → join name (l ++ ((name, value) ∷ [])) [] true ≡ some value
unfolding join has_name joined
join-single_only name value [] h = rw (bytes_eq_refl name) refl
join-single_only name value ((k, v) ∷ l) h = elim (Bool-cases (bytes_eq k name)) [
  | inl p ↦ ground arith
  | inr p ↦
      join-skip name k v (l ++ ((name, value) ∷ [])) [] true p
      ∙ join-single_only name value l (ground arith)
]

join-other_last :
    (name other value : Bytes) (l : List (Bytes × Bytes)) (out : Bytes) (first : Bool)
    → bytes_eq name other ≡ false
    → join other (l ++ ((name, value) ∷ [])) out first ≡ join other l out first
unfolding join
join-other_last name other value [] out first h = join-skip other name value [] out first h
join-other_last name other value ((k, v) ∷ l) out first h = join-other_last name other value l _ _ h

-- `Headers` as a script makes them.
abbrev pub unguarded : List (Bytes × Bytes) → HeadersImpl
unguarded list = record { guard = no_guard; list = list }

-- `get` of a header that a change gave.
abbrev pub got : Result HeadersError HeadersImpl → Bytes → Result HeadersError (Option Bytes)
got r name = r >>= λ h. get h name

module _ (utf8_points : Bytes → Option (List ℕ)) where
  -- In a list without a guard, `set` of a name and a value that are well formed makes `get` of that
  -- name, however it is spelled, give the one value, and leaves `get` of every other name as it was.
  pub get-set_header :
      (list : List (Bytes × Bytes)) (name_raw respelled other_raw value_raw : Bytes)
      {name other value : Bytes}
      → normalize_name name_raw ≡ ok name
      → normalize_name respelled ≡ ok name
      → normalize_value utf8_points value_raw ≡ ok value
      → normalize_name other_raw ≡ ok other
      → bytes_eq name other ≡ false
      → let h = unguarded list in
        let changed = set_header utf8_points h name_raw value_raw in
        (got changed respelled ≡ ok (some value)) × (got changed other_raw ≡ get h other_raw)
  unfolding set_header guarded_change forbidden is_guard get
  get-set_header list name_raw respelled other_raw value_raw {name} {other} {value} p p2 q r ne = (
    rw (p, q, p2, join-single_only name value (erase_all name list) (has_name-erase_all name list))
        refl,
    rw
        (
          p,
          q,
          r,
          join-other_last name other value (erase_all name list) [] true ne,
          join-erase_all name other list [] true ne,
        )
        refl,
  )
