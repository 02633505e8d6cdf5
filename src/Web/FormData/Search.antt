-- ===== src/Web/FormData/Search.antt =====
use mathlib.Core.Option
use mathlib.Core.Option.{some-injective}
use quickjs_runtime.Common.{
  Bool, Option, [], ap, arith, false, if◌then◌else◌, inl, inr, length, none, refl, some, suc, true,
  ℕ, ◌&&◌, ◌++◌, ◌+◌, ◌==◌, ◌∙◌, ◌∷◌, ◌≡◌, ◌≤◌, ◌⊎◌,
}
use quickjs_runtime.Common.Bytes.{Bytes, bytes_eq, contains, starts_with}
use quickjs_runtime.Web.FormData.{find_text}

-- How a text is found in a longer one.
pub starts_with-append : (key s : Bytes) → starts_with key (key ++ s) ≡ true
unfolding starts_with
starts_with-append [] s = refl
starts_with-append (k ∷ key) s = ground (arith, starts_with-append key s)

starts_with_more :
    (key s t : Bytes) → length key ≤ length s → starts_with key (s ++ t) ≡ starts_with key s
unfolding starts_with
starts_with_more [] s t h = refl
starts_with_more (k ∷ key) [] t h = absurd (omega arith)
starts_with_more (k ∷ key) (c ∷ s) t h =
    ap (λ b. (k == c) && b) (starts_with_more key s t (omega arith))

starts_with_long : (key s : Bytes) → starts_with key s ≡ true → length key ≤ length s
unfolding starts_with
starts_with_long [] s h = omega arith
starts_with_long (k ∷ key) [] h = ground arith
starts_with_long (k ∷ key) (c ∷ s) h =
    let ih = starts_with_long key s (ground (arith, h)) in omega (arith, ih)

-- Where the first place is: here, or in the rest.
place :
    (b : Bool) (o : Option ℕ) {i : ℕ}
    → (if b then some 0 else Option.map suc o) ≡ some i
    → ((b ≡ true) × (0 ≡ i)) ⊎ ((b ≡ false) × ((j : ℕ) × (o ≡ some j) × (suc j ≡ i)))
place true o {i} h = inl (refl, some-injective 0 i h)
place false none h = cc
place false (some j) {i} h = inr (refl, (j, refl, some-injective (suc j) i h))

module _ (k : ℕ) (key : Bytes) where
  find_text_long :
      (s : Bytes) {i : ℕ} → find_text (k ∷ key) s ≡ some i → suc (length key) ≤ length s
  unfolding find_text bytes_eq
  find_text_long [] h = cc
  find_text_long (c ∷ s) h =
      elim (place (starts_with (k ∷ key) (c ∷ s)) (find_text (k ∷ key) s) h) [
        | inl (here, e) ↦ starts_with_long (k ∷ key) (c ∷ s) here
        | inr (later, (j, e, n)) ↦ let ih = find_text_long s e in omega (arith, ih)
      ]

  -- What was found is found at the same place when more stands behind.
  pub find_text_more :
      (s t : Bytes) {i : ℕ} → find_text (k ∷ key) s ≡ some i → find_text (k ∷ key) (s ++ t) ≡ some i
  unfolding find_text bytes_eq
  find_text_more [] t h = cc
  find_text_more (c ∷ s) t h =
      let long = find_text_long (c ∷ s) (unfold find_text in h) in
      let same = starts_with_more (k ∷ key) (c ∷ s) t long in
      elim (place (starts_with (k ∷ key) (c ∷ s)) (find_text (k ∷ key) s) h) [
        | inl (here, e) ↦ rw (same ∙ here) (ap some e)
        | inr (later, (j, e, n)) ↦ rw (same ∙ later, find_text_more s t e) (ap some n)
      ]

  passed :
      (x : ℕ) (t : Bytes)
      → (x == k) ≡ false
      → find_text (k ∷ key) (x ∷ t) ≡ Option.map suc (find_text (k ∷ key) t)
  unfolding find_text starts_with
  passed x t h = ground arith

  -- A text without the first character of what is looked for is passed over.
  pub find_text_behind :
      (a s : Bytes) {i : ℕ}
      → contains k a ≡ false
      → find_text (k ∷ key) s ≡ some i
      → find_text (k ∷ key) (a ++ s) ≡ some (length a + i)
  unfolding contains
  find_text_behind [] s h e = e ∙ ap some (omega arith)
  find_text_behind (x ∷ a) s {i} h e =
      let ih = find_text_behind a s (ground (arith, h)) e in
      passed x (a ++ s) (ground (arith, h)) ∙ rw ih (ap some (omega arith))

  pub find_text_absent : (a : Bytes) → contains k a ≡ false → find_text (k ∷ key) a ≡ none
  unfolding contains find_text starts_with bytes_eq
  find_text_absent [] h = refl
  find_text_absent (x ∷ a) h =
      let ih = find_text_absent a (ground (arith, h)) in ground (arith, h, ih)
