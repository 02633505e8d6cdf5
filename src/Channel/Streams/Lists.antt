-- ===== src/Channel/Streams/Lists.antt =====
-- What a stream gives as a list.
use mathlib.Core.List.{append-nil, append_assoc}
use mathlib.Core.Option.{some-injective}
use mathlib.Core.Path.{subst}
use quickjs_runtime.Channel.Streams.{
  filter_next, fold, folded, kept_or, map_next, mapped, scan_next, scanned, skip_first, skip_next,
  skip_while_next, skipped_or, take_next, take_while_next, vector_next, while_true,
}
use quickjs_runtime.Common.{
  Bool, List, Option, [], ap, arith, drop, false, if◌then◌else◌, length, map, none, refl, some, suc,
  sym, take, true, zero, ℕ, ◌++◌, ◌+◌, ◌∙◌, ◌∷◌, ◌≡◌, ◌≤◌,
}

module _ {A S : Type 0} (next : S → Option A × S) where
  -- A pull with the result `r`, and the pulls after it, give the values of the list and then the end.
  unfoldable pub Gives : Option A × S → List A → Type 0
  Gives r [] = r.0 ≡ none
  Gives r (x ∷ l) = (r.0 ≡ some x) × Gives (next r.1) l

module _ {A S : Type 0} (next : S → Option A × S) where
  if_Gives :
      (b : Bool) (p q : Option A × S) (l m : List A)
      → Gives next p l
      → Gives next q m
      → Gives next (if b then p else q) (if b then l else m)
  if_Gives true p q l m h k = h
  if_Gives false p q l m h k = k

module _ {A : Type 0} where
  abbrev pub keep_if : (A → Bool) → List A → List A
  keep_if f [] = []
  keep_if f (x ∷ l) = let rest = keep_if f l in if f x then x ∷ rest else rest

  abbrev pub take_while : (A → Bool) → List A → List A
  take_while f [] = []
  take_while f (x ∷ l) = let rest = take_while f l in if f x then x ∷ rest else []

  -- The list from the first value with `f` on.
  abbrev pub from_first : (A → Bool) → List A → List A
  from_first f [] = []
  from_first f (x ∷ l) = let rest = from_first f l in if f x then x ∷ l else rest

  abbrev pub scan : {B : Type 0} → (B → A → B) → B → List A → List B
  scan f acc [] = []
  scan f acc (x ∷ l) = f acc x ∷ scan f (f acc x) l

  abbrev pub fold_list : {B : Type 0} → (B → A → B) → B → List A → B
  fold_list f acc [] = acc
  fold_list f acc (x ∷ l) = fold_list f (f acc x) l

module _ {A : Type 0} where
  pub length-keep_if : (f : A → Bool) (l : List A) → length (keep_if f l) ≤ length l
  length-keep_if f [] = omega arith
  length-keep_if f (x ∷ l) = ground (arith, length-keep_if f l)

  pub length-take_while : (f : A → Bool) (l : List A) → length (take_while f l) ≤ length l
  length-take_while f [] = omega arith
  length-take_while f (x ∷ l) = ground (arith, length-take_while f l)

  pub length-from_first : (f : A → Bool) (l : List A) → length (from_first f l) ≤ length l
  length-from_first f [] = omega arith
  length-from_first f (x ∷ l) = ground (arith, length-from_first f l)

  pub length-scan :
      {B : Type 0} (f : B → A → B) (acc : B) (l : List A) → length (scan f acc l) ≡ length l
  length-scan f acc [] = refl
  length-scan f acc (x ∷ l) = ap suc (length-scan f (f acc x) l)

module _ {A S : Type 0} (next : S → Option A × S) where
  pub map-Gives :
      (f : A → A) (r : Option A × S) (l : List A)
      → Gives next r l
      → Gives (map_next next f) (mapped f r.0, r.1) (map f l)
  unfolding Gives
  map-Gives f r [] h = ap (mapped f) h
  map-Gives f r (x ∷ l) h = (ap (mapped f) h.0, map-Gives f (next r.1) l h.1)

  pub take-Gives :
      (s : S) (n : ℕ) (l : List A)
      → Gives next (next s) l
      → Gives (take_next next) (take_next next (s, n)) (take n l)
  unfolding Gives
  take-Gives s zero l h = refl
  take-Gives s (suc n) [] h = h
  take-Gives s (suc n) (x ∷ l) h = (h.0, take-Gives (next s).1 n l h.1)

  pub skipping-Gives :
      (k : ℕ) (r : Option A × S) (l : List A)
      → Gives next r l
      → Gives (skip_next next k) (r.0, (r.1, true)) l
  unfolding Gives
  skipping-Gives k r [] h = h
  skipping-Gives k r (x ∷ l) h = (h.0, skipping-Gives k (next r.1) l h.1)

  pub skip_first-Gives :
      (k : ℕ) (r : Option A × S) (l : List A)
      → Gives next r l
      → Gives next (skipped_or r (skip_first next k)) (drop (suc k) l)
  unfolding Gives skip_first
  skip_first-Gives k (none, s) [] h = refl
  skip_first-Gives k (none, s) (x ∷ l) h = cc
  skip_first-Gives k (some v, s) [] h = cc
  skip_first-Gives zero (some v, s) (x ∷ l) h = h.1
  skip_first-Gives (suc k) (some v, s) (x ∷ l) h = skip_first-Gives k (next s) l h.1

  pub take_while-Gives :
      (f : A → Bool) (r : Option A × S) (l : List A)
      → Gives next r l
      → Gives (take_while_next next f) (while_true f r) (take_while f l)
  unfolding Gives
  take_while-Gives f (none, s) [] h = refl
  take_while-Gives f (none, s) (x ∷ l) h = cc
  take_while-Gives f (some v, s) [] h = cc
  take_while-Gives f (some v, s) (x ∷ l) h =
      subst (λ y. Gives (take_while_next next f) (while_true f (some v, s)) (take_while f (y ∷ l)))
        (some-injective v x h.0)
        (if_Gives (take_while_next next f) (f v) (some v, (s, false)) (none, (s, true))
          (v ∷ take_while f l) [] (refl, take_while-Gives f (next s) l h.1) refl)

  pub keep-Gives :
      (m k : ℕ) (f : A → Bool) (r : Option A × S) (l : List A)
      → length l ≤ k
      → length l ≤ m
      → Gives next r l
      → Gives (filter_next next (suc m) f) (kept_or f r (filter_next next k f)) (keep_if f l)
  unfolding Gives filter_next
  keep-Gives m k f (none, s) [] a b h = refl
  keep-Gives m k f (none, s) (x ∷ l) a b h = cc
  keep-Gives m k f (some v, s) [] a b h = cc
  keep-Gives m zero f (some v, s) (x ∷ l) a b h = absurd (omega arith)
  keep-Gives m (suc k) f (some v, s) (x ∷ l) a b h =
      subst
        (λ y.
          Gives (filter_next next (suc m) f) (kept_or f (some v, s) (filter_next next (suc k) f))
            (keep_if f (y ∷ l)))
        (some-injective v x h.0)
        (if_Gives (filter_next next (suc m) f) (f v) (some v, s) (filter_next next (suc k) f s)
          (v ∷ keep_if f l) (keep_if f l)
          (refl, keep-Gives m m f (next s) l (omega arith) (omega arith) h.1)
          (keep-Gives m k f (next s) l (omega arith) (omega arith) h.1))

  pub first-Gives :
      (k : ℕ) (f : A → Bool) (r : Option A × S) (l : List A)
      → length l ≤ k
      → Gives next r l
      → Gives next (kept_or f r (filter_next next k f)) (from_first f l)
  unfolding Gives filter_next
  first-Gives k f (none, s) [] a h = refl
  first-Gives k f (none, s) (x ∷ l) a h = cc
  first-Gives k f (some v, s) [] a h = cc
  first-Gives zero f (some v, s) (x ∷ l) a h = absurd (omega arith)
  first-Gives (suc k) f (some v, s) (x ∷ l) a h =
      subst
        (λ y.
          Gives next (kept_or f (some v, s) (filter_next next (suc k) f)) (from_first f (y ∷ l)))
        (some-injective v x h.0)
        (if_Gives next (f v) (some v, s) (filter_next next (suc k) f s) (v ∷ l) (from_first f l)
          (refl, h.1) (first-Gives k f (next s) l (omega arith) h.1))

  pub skipped_while-Gives :
      (n : ℕ) (f : A → Bool) (r : Option A × S) (l : List A)
      → Gives next r l
      → Gives (skip_while_next next n f) (r.0, (r.1, false)) l
  unfolding Gives
  skipped_while-Gives n f r [] h = h
  skipped_while-Gives n f r (x ∷ l) h = (h.0, skipped_while-Gives n f (next r.1) l h.1)

  pub scan-Gives :
      {B : Type 0} (f : B → A → B) (acc : B) (r : Option A × S) (l : List A)
      → Gives next r l
      → Gives (scan_next next f) (scanned f acc r) (scan f acc l)
  unfolding Gives
  scan-Gives f acc (none, s) [] h = refl
  scan-Gives f acc (none, s) (x ∷ l) h = cc
  scan-Gives f acc (some v, s) [] h = cc
  scan-Gives f acc (some v, s) (x ∷ l) h =
      subst (λ y. Gives (scan_next next f) (scanned f acc (some v, s)) (scan f acc (y ∷ l)))
        (some-injective v x h.0) (refl, scan-Gives f (f acc v) (next s) l h.1)

  pub fold-Gives :
      {B : Type 0} (k : ℕ) (f : B → A → B) (acc : B) (r : Option A × S) (l : List A)
      → length l ≤ k
      → Gives next r l
      → folded f acc r (fold next k f) ≡ fold_list f acc l
  unfolding Gives fold
  fold-Gives k f acc (none, s) [] a h = refl
  fold-Gives k f acc (none, s) (x ∷ l) a h = cc
  fold-Gives k f acc (some v, s) [] a h = cc
  fold-Gives zero f acc (some v, s) (x ∷ l) a h = absurd (omega arith)
  fold-Gives (suc k) f acc (some v, s) (x ∷ l) a h =
      fold-Gives k f (f acc v) (next s) l (omega arith) h.1
      ∙ ap (λ y. fold_list f (f acc y) l) (some-injective v x h.0)

pub vector-Gives : {A : Type 0} (l : List A) → Gives vector_next (vector_next l) l
unfolding Gives
vector-Gives [] = refl
vector-Gives (x ∷ l) = (refl, vector-Gives l)

pub fold_list-collect :
    {A : Type 0} (out l : List A) → fold_list (λ o v. o ++ (v ∷ [])) out l ≡ out ++ l
fold_list-collect out [] = sym (append-nil out)
fold_list-collect out (x ∷ l) = fold_list-collect (out ++ (x ∷ [])) l ∙ append_assoc out (x ∷ []) l

pub fold_list-count :
    {A : Type 0} (n : ℕ) (l : List A) → fold_list (λ total v. total + 1) n l ≡ n + length l
fold_list-count n [] = omega arith
fold_list-count n (x ∷ l) = omega (arith, fold_list-count (n + 1) l)
