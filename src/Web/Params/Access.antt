-- ===== src/Web/Params/Access.antt =====
use quickjs_runtime.Common.{
  Bool, Bool-cases, List, [], ap, arith, false, if◌then◌else◌, inl, inr, refl, some, true, ◌∙◌, ◌∷◌,
  ◌≡◌,
}
use quickjs_runtime.Common.Bytes.{Bytes, bytes_eq, bytes_eq_iff, bytes_eq_refl}
use quickjs_runtime.Web.Params.{
  Pairs, bytes_lt, erase, get, get_all, insert_sorted, set_loop, set_param, sort,
}

-- What the operations on the pairs do to the values of every name.
set_loop-erase :
    (name value : Bytes) (r : Bool) (l : Pairs)
    → erase name (set_loop name value r l) ≡ erase name l
unfolding set_loop erase
set_loop-erase name value true [] = refl
set_loop-erase name value false [] = rw (bytes_eq_refl name) refl
set_loop-erase name value r ((k, v) ∷ l) =
    ground (arith, set_loop-erase name value r l, set_loop-erase name value true l)

get_all-set_replaced :
    (name value : Bytes) (l : Pairs) → get_all name (set_loop name value true l) ≡ []
unfolding set_loop get_all
get_all-set_replaced name value [] = refl
get_all-set_replaced name value ((k, v) ∷ l) = ground (arith, get_all-set_replaced name value l)

get_all-set_first :
    (name value : Bytes) (l : Pairs) → get_all name (set_loop name value false l) ≡ value ∷ []
unfolding set_loop get_all
get_all-set_first name value [] = rw (bytes_eq_refl name) refl
get_all-set_first name value ((k, v) ∷ l) =
    ground (arith, get_all-set_first name value l, get_all-set_replaced name value l)

get-get_all :
    (name : Bytes) (l : Pairs) (v : Bytes) (vs : List Bytes)
    → get_all name l ≡ v ∷ vs
    → get name l ≡ some v
unfolding get get_all
get-get_all name [] v vs h = cc
get-get_all name ((k, w) ∷ l) v vs h = ground (arith, get-get_all name l v vs)

-- After `set`, the name has that value alone, `get` gives it, and the pairs of the other names are the
-- same in the same order.
pub set_param-access :
    (name value : Bytes) (l : Pairs)
    → let l' = set_param name value l in
      (get_all name l' ≡ value ∷ []) × (get name l' ≡ some value) × (erase name l' ≡ erase name l)
set_param-access name value l =
    let all = get_all-set_first name value l in
    (all, get-get_all name (set_param name value l) value [] all, set_loop-erase name value false l)

lt_irrefl : (a : Bytes) → bytes_lt a a ≡ false
unfolding bytes_lt
lt_irrefl [] = refl
lt_irrefl (x ∷ a) = ground (arith, lt_irrefl a)

lt_asymm : (a b : Bytes) → bytes_lt a b ≡ true → bytes_lt b a ≡ false
unfolding bytes_lt
lt_asymm a [] h = cc
lt_asymm [] (y ∷ b) h = refl
lt_asymm (x ∷ a) (y ∷ b) h = ground (arith, lt_asymm a b)

-- No name is less than the one before it.
unfoldable pub IsSorted : Pairs → Type 0
IsSorted [] = Unit
IsSorted (p ∷ []) = Unit
IsSorted (p ∷ q ∷ l) = (bytes_lt q.0 p.0 ≡ false) × IsSorted (q ∷ l)

tail-IsSorted : (q : Bytes × Bytes) (l : Pairs) → IsSorted (q ∷ l) → IsSorted l
unfolding IsSorted
tail-IsSorted q [] h = tt
tail-IsSorted q (r ∷ l) h = h.1

-- Either list that an insertion may go on with, behind a smaller name.
cons_either :
    (q p r : Bytes × Bytes) (rest l : Pairs) (b : Bool)
    → bytes_lt q.0 p.0 ≡ true
    → bytes_lt r.0 q.0 ≡ false
    → IsSorted (if b then r ∷ rest else p ∷ r ∷ l)
    → IsSorted (q ∷ (if b then r ∷ rest else p ∷ r ∷ l))
unfolding IsSorted
cons_either q p r rest l true lt h k = (h, k)
cons_either q p r rest l false lt h k = (lt_asymm q.0 p.0 lt, k)

cons-insert_sorted :
    (q p : Bytes × Bytes) (l : Pairs)
    → bytes_lt q.0 p.0 ≡ true
    → IsSorted (q ∷ l)
    → IsSorted (insert_sorted p l)
    → IsSorted (q ∷ insert_sorted p l)
unfolding insert_sorted IsSorted
cons-insert_sorted q p [] lt h k = (lt_asymm q.0 p.0 lt, tt)
cons-insert_sorted q p (r ∷ l) lt h k =
    cons_either q p r (insert_sorted p l) l (bytes_lt r.0 p.0) lt h.0 k

insert_either :
    (q p : Bytes × Bytes) (l : Pairs) (b : Bool)
    → bytes_lt q.0 p.0 ≡ b
    → IsSorted (q ∷ l)
    → IsSorted (insert_sorted p l)
    → IsSorted (if b then q ∷ insert_sorted p l else p ∷ q ∷ l)
insert_either q p l true e h k = cons-insert_sorted q p l e h k
insert_either q p l false e h k = unfold IsSorted in (e, h)

insert_sorted-IsSorted : (p : Bytes × Bytes) (l : Pairs) → IsSorted l → IsSorted (insert_sorted p l)
unfolding insert_sorted
insert_sorted-IsSorted p [] h = unfold IsSorted in tt
insert_sorted-IsSorted p (q ∷ l) h =
    insert_either q p l (bytes_lt q.0 p.0) refl h (insert_sorted-IsSorted p l (tail-IsSorted q l h))

-- A pair moves only past pairs of other names.
names_differ :
    (q p name : Bytes) → bytes_lt q p ≡ true → bytes_eq q name ≡ true → bytes_eq p name ≡ false
names_differ q p name lt e = elim (Bool-cases (bytes_eq p name)) [
  | inr n ↦ n
  | inl m ↦ absurd (cc ((bytes_eq_iff q name).0 e, (bytes_eq_iff p name).0 m, lt, lt_irrefl name))
]

get_all-insert_sorted :
    (name : Bytes) (p : Bytes × Bytes) (l : Pairs)
    → get_all name (insert_sorted p l) ≡ get_all name (p ∷ l)
unfolding insert_sorted get_all
get_all-insert_sorted name p [] = refl
get_all-insert_sorted name p (q ∷ l) =
    ground (arith, get_all-insert_sorted name p l, names_differ q.0 p.0 name)

get_all-sort : (name : Bytes) (l : Pairs) → get_all name (sort l) ≡ get_all name l
unfolding sort get_all
get_all-sort name [] = refl
get_all-sort name (p ∷ l) =
    get_all-insert_sorted name p (sort l)
    ∙ ap (λ t. if bytes_eq p.0 name then p.1 ∷ t else t) (get_all-sort name l)

sort-IsSorted : (l : Pairs) → IsSorted (sort l)
unfolding sort
sort-IsSorted [] = unfold IsSorted in tt
sort-IsSorted (p ∷ l) = insert_sorted-IsSorted p (sort l) (sort-IsSorted l)

-- `sort` orders the pairs by their names, and the values of every name stay the same in the same order.
pub sort_stable :
    (name : Bytes) (l : Pairs) → IsSorted (sort l) × (get_all name (sort l) ≡ get_all name l)
sort_stable name l = (sort-IsSorted l, get_all-sort name l)
