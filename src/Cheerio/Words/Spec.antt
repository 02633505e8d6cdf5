-- ===== src/Cheerio/Words/Spec.antt =====
-- What the tests of words and attributes mean.
use mathlib.Core.Path.{subst}
use quickjs_runtime.Cheerio.Words.{has_word}
use quickjs_runtime.Common.{
  Bool, Bool-cases, List, Option-cases, [], arith, drop, false, if◌then◌else◌, inl, inr, length,
  length-drop, none, refl, some, suc, sym, take, true, zero, ℕ, ◌<◌, ◌==◌, ◌↔◌, ◌∙◌, ◌∷◌, ◌≡◌, ◌≤◌,
  ◌⊎◌,
}
use quickjs_runtime.Common.Bytes.{Bytes, find, find-lt}

abbrev cons_first : ℕ → List Bytes → List Bytes
cons_first c [] = (c ∷ []) ∷ []
cons_first c (w ∷ ws) = (c ∷ w) ∷ ws

-- A text cut at its spaces.
abbrev pub words : Bytes → List Bytes
words [] = [] ∷ []
words (c ∷ s) = if c == b' ' then [] ∷ words s else cons_first c (words s)

abbrev pub AnyWord : (Bytes → Type 0) → List Bytes → Type 0
AnyWord P [] = ⊥
AnyWord P (w ∷ ws) = P w ⊎ AnyWord P ws

words-none : (s : Bytes) → find b' ' s ≡ none → words s ≡ s ∷ []
unfolding find
words-none [] h = refl
words-none (c ∷ s) h = elim (Option-cases (find b' ' s)) [
  | inl q ↦ ground (arith, words-none s q)
  | inr (j, q) ↦ ground arith
]

find-empty {ℓ} : {A : Type ℓ} {i : ℕ} → find b' ' [] ≡ some i → A
unfolding find
find-empty h = cc

find-first : (c : ℕ) (s : Bytes) {i : ℕ} → (c == b' ') ≡ true → find b' ' (c ∷ s) ≡ some i → 0 ≡ i
unfolding find
find-first c s p h = ground arith

find-later :
    (c : ℕ) (s : Bytes) {i j : ℕ}
    → (c == b' ') ≡ false
    → find b' ' s ≡ some j
    → find b' ' (c ∷ s) ≡ some i
    → suc j ≡ i
unfolding find
find-later c s p q h = ground arith

find-nowhere :
    (c : ℕ) (s : Bytes) → (c == b' ') ≡ false → find b' ' s ≡ none → find b' ' (c ∷ s) ≡ none
unfolding find
find-nowhere c s p q = ground arith

words-some :
    (s : Bytes) {i : ℕ} → find b' ' s ≡ some i → words s ≡ take i s ∷ words (drop (suc i) s)
words-some [] h = find-empty h
words-some (c ∷ s) {i} h = elim (Bool-cases (c == b' ')) [
  | inl p ↦ rw (p, sym (find-first c s p h)) refl
  | inr p ↦ elim (Option-cases (find b' ' s)) [
    | inl q ↦ cc (find-nowhere c s p q)
    | inr (j, q) ↦ rw (p, words-some s q, sym (find-later c s p q h)) refl
  ]
]

drop-shorter :
    (s : Bytes) (n i : ℕ) → length s ≤ n → find b' ' s ≡ some i → length (drop (suc i) s) < n
drop-shorter s n i h p = omega (arith, length-drop (suc i) s, find-lt b' ' s p)

has_word-last :
    (test : Bytes → Bool) (fuel : ℕ) (s : Bytes)
    → find b' ' s ≡ none
    → has_word test (suc fuel) s ≡ test s
unfolding has_word
has_word-last test fuel s q = rw (has_word, q) refl

has_word-hit :
    (test : Bytes → Bool) (fuel : ℕ) (s : Bytes) {i : ℕ}
    → find b' ' s ≡ some i
    → test (take i s) ≡ true
    → has_word test (suc fuel) s ≡ true
unfolding has_word
has_word-hit test fuel s q p = rw (has_word, q, p) refl

has_word-miss :
    (test : Bytes → Bool) (fuel : ℕ) (s : Bytes) {i : ℕ}
    → find b' ' s ≡ some i
    → test (take i s) ≡ false
    → has_word test (suc fuel) s ≡ has_word test fuel (drop (suc i) s)
unfolding has_word
has_word-miss test fuel s q p = rw (has_word, q, p) refl

AnyWord-single : (P : Bytes → Type 0) (s : Bytes) → AnyWord P (words s) → words s ≡ s ∷ [] → P s
AnyWord-single P s h e = elim (subst (AnyWord P) e h) [ inl p ↦ p | inr n ↦ elim n [ ] ]

has_word_sound :
    (test : Bytes → Bool) (fuel : ℕ) (s : Bytes)
    → has_word test fuel s ≡ true
    → AnyWord (λ w. test w ≡ true) (words s)
unfolding has_word
has_word_sound test zero s h = cc
has_word_sound test (suc fuel) s h = elim (Option-cases (find b' ' s)) [
  | inl q ↦ rw (words-none s q) (inl (sym (has_word-last test fuel s q) ∙ h))
  | inr (i, q) ↦ elim (Bool-cases (test (take i s))) [
    | inl p ↦ rw (words-some s q) (inl p)
    | inr p ↦
        rw (words-some s q) (
          inr (has_word_sound test fuel (drop (suc i) s) (sym (has_word-miss test fuel s q p) ∙ h)))
  ]
]

has_word_complete :
    (test : Bytes → Bool) (fuel : ℕ) (s : Bytes)
    → length s < fuel
    → AnyWord (λ w. test w ≡ true) (words s)
    → has_word test fuel s ≡ true
unfolding has_word
has_word_complete test zero s lt h = absurd (omega arith)
has_word_complete test (suc fuel) s lt h = elim (Option-cases (find b' ' s)) [
  | inl q ↦ has_word-last test fuel s q ∙ AnyWord-single (λ w. test w ≡ true) s h (words-none s q)
  | inr (i, q) ↦ elim (Bool-cases (test (take i s))) [
    | inl p ↦ has_word-hit test fuel s q p
    | inr p ↦ elim (subst (AnyWord (λ w. test w ≡ true)) (words-some s q) h) [
      | inl r ↦ absurd (ground arith)
      | inr r ↦
          has_word-miss test fuel s q p
          ∙ has_word_complete test fuel (drop (suc i) s)
              (omega (arith, drop-shorter s fuel i (omega arith) q)) r
    ]
  ]
]

-- The loop over the words is true exactly when the test holds of one of the words of the text.
pub has_word_iff :
    (test : Bytes → Bool) (s : Bytes)
    → (has_word test (suc (length s)) s ≡ true) ↔ AnyWord (λ w. test w ≡ true) (words s)
has_word_iff test s = (
  has_word_sound test (suc (length s)) s,
  has_word_complete test (suc (length s)) s (omega arith),
)
