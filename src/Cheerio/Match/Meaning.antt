-- ===== src/Cheerio/Match/Meaning.antt =====
-- Chains of selectors against the meaning of the combinators, for chains without the pseudo-classes
-- that hold a list of selectors.
use quickjs_runtime.Cheerio.Dom.{Dom, any_of, c_node_is_element}
use quickjs_runtime.Cheerio.Match.{
  Chain, Combinator, Matcher, Selector, any, attribute, child, class_name, close, contains_text,
  descendant, first_that, following, has_any, id, is_any, match_found, match_left, match_parent,
  match_simple, no_selector, not_any, nth, pseudo, pseudo_element, seg, sibling, tag, too_deep,
  unknown,
}
use quickjs_runtime.Common.{
  Bool, Bool-cases, List, Option, [], arith, false, inl, inr, none, refl, some, suc, true, ℕ, ◌&&◌,
  ◌∷◌, ◌≡◌, ◌⊎◌,
}

abbrev pub IsIn : ℕ → List ℕ → Type 0
IsIn p [] = ⊥
IsIn p (n ∷ ns) = (n ≡ p) ⊎ IsIn p ns

any_of_sound :
    (test : ℕ → Bool) (l : List ℕ) → any_of test l ≡ true → (p : ℕ) × IsIn p l × (test p ≡ true)
unfolding any_of
any_of_sound test [] h = cc
any_of_sound test (n ∷ ns) h = elim (Bool-cases (test n)) [
  | inl p ↦ (n, inl refl, p)
  | inr p ↦ let (m, i, q) = any_of_sound test ns (ground arith) in (m, inr i, q)
]

any_of_complete :
    (test : ℕ → Bool) (l : List ℕ) (p : ℕ) → IsIn p l → test p ≡ true → any_of test l ≡ true
unfolding any_of
any_of_complete test [] p i h = elim i [ ]
any_of_complete test (n ∷ ns) p (inl e) h = ground arith
any_of_complete test (n ∷ ns) p (inr i) h = ground (arith, any_of_complete test ns p i h)

pub both : {p q : Bool} → (p && q) ≡ true → (p ≡ true) × (q ≡ true)
both {p} {q} h = ground arith

pub and_true : {p q : Bool} → p ≡ true → q ≡ true → (p && q) ≡ true
and_true h k = ground arith

-- No `:not`, `:is`, `:where` or `:has`.
abbrev pub is_listless : Selector → Bool
is_listless (not_any l) = false
is_listless (is_any l) = false
is_listless (has_any l) = false
is_listless _ = true

abbrev pub is_listless_chain : Chain → Bool
is_listless_chain no_selector = true
is_listless_chain (seg s c left) = is_listless s && is_listless_chain left

-- The combinators of a chain, compounds not counted.
abbrev pub combinators : Chain → ℕ
combinators no_selector = 0
combinators (seg s close left) = combinators left
combinators (seg s c left) = suc (combinators left)

module _ (dom : Dom) (scope_node : ℕ) where
  abbrev pub Holds : Selector → ℕ → Type 0
  Holds s el = match_simple dom scope_node too_deep s el ≡ true

  abbrev pub IsElement : ℕ → Type 0
  IsElement p = c_node_is_element dom p ≡ true

  -- What a combinator asks of a property of the nodes.
  abbrev pub Related : Combinator → (ℕ → Type 0) → ℕ → Type 0
  Related close P el = ⊥
  Related descendant P el = (p : ℕ) × IsIn p (dom.parents el) × IsElement p × P p
  Related child P el = (p : ℕ) × (up : List ℕ) × (dom.parents el ≡ p ∷ up) × IsElement p × P p
  Related sibling P el =
      (p : ℕ) × (first_that (c_node_is_element dom) (dom.prevs el) ≡ some p) × P p
  Related following P el = (p : ℕ) × IsIn p (dom.prevs el) × IsElement p × P p

  -- The meaning of a chain, at its last element.
  abbrev pub Selects : Chain → ℕ → Type 0
  Selects no_selector el = Unit {0}
  Selects (seg s close left) el = Holds s el × Selects left el
  Selects (seg s c no_selector) el = Holds s el
  Selects (seg s c (seg s2 c2 left)) el = Holds s el × Related c (Selects (seg s2 c2 left)) el

  pub plain-simple :
      (below : Matcher) (s : Selector) (el : ℕ)
      → is_listless s ≡ true
      → match_simple dom scope_node below s el ≡ match_simple dom scope_node too_deep s el
  unfolding match_simple
  plain-simple below (not_any l) el h = cc
  plain-simple below (is_any l) el h = cc
  plain-simple below (has_any l) el h = cc
  plain-simple below any el h = refl
  plain-simple below (tag n) el h = refl
  plain-simple below (id n) el h = refl
  plain-simple below (class_name n) el h = refl
  plain-simple below (attribute n a) el h = refl
  plain-simple below (pseudo p) el h = refl
  plain-simple below (nth n a) el h = refl
  plain-simple below (contains_text c) el h = refl
  plain-simple below pseudo_element el h = refl
  plain-simple below unknown el h = refl

  first_that-parent :
      (below : Matcher) (left : Chain) (ps : List ℕ)
      → match_parent dom scope_node below left ps ≡ true
      → (p : ℕ) × (up : List ℕ) × (ps ≡ p ∷ up) × IsElement p × (below.chain left p ≡ true)
  unfolding match_parent
  first_that-parent below left [] h = cc
  first_that-parent below left (p ∷ up) h = let (e, q) = both h in (p, up, refl, e, q)

  found-some :
      (below : Matcher) (left : Chain) (o : Option ℕ)
      → match_found dom scope_node below left o ≡ true
      → (p : ℕ) × (o ≡ some p) × (below.chain left p ≡ true)
  unfolding match_found
  found-some below left none h = cc
  found-some below left (some p) h = (p, refl, h)

  -- What `match_left` asks is what the combinator means, of what the matcher below answers.
  pub match_left-Related :
      (below : Matcher) (c : Combinator) (s : Selector) (k : Combinator) (left : Chain) (el : ℕ)
      → match_left dom scope_node below c (seg s k left) el ≡ true
      → Related c (λ p. below.chain (seg s k left) p ≡ true) el
  unfolding match_left
  match_left-Related below close s k left el h = cc
  match_left-Related below descendant s k left el h =
      let (p, i, t) =
        any_of_sound (λ p. c_node_is_element dom p && below.chain (seg s k left) p) (dom.parents el)
          h in
      let (e, q) = both t in (p, i, e, q)
  match_left-Related below child s k left el h =
      first_that-parent below (seg s k left) (dom.parents el) h
  match_left-Related below sibling s k left el h =
      found-some below (seg s k left) (first_that (c_node_is_element dom) (dom.prevs el)) h
  match_left-Related below following s k left el h =
      let (p, i, t) =
        any_of_sound (λ p. c_node_is_element dom p && below.chain (seg s k left) p) (dom.prevs el)
          h in
      let (e, q) = both t in (p, i, e, q)

  pub Related-match_left :
      (below : Matcher) (c : Combinator) (s : Selector) (k : Combinator) (left : Chain) (el : ℕ)
      → Related c (λ p. below.chain (seg s k left) p ≡ true) el
      → match_left dom scope_node below c (seg s k left) el ≡ true
  unfolding match_left match_parent match_found
  Related-match_left below close s k left el h = elim h [ ]
  Related-match_left below descendant s k left el (p, i, e, q) =
      any_of_complete (λ p. c_node_is_element dom p && below.chain (seg s k left) p)
        (dom.parents el) p i (and_true e q)
  Related-match_left below child s k left el (p, up, r, e, q) = rw r (and_true e q)
  Related-match_left below sibling s k left el (p, r, q) = rw r q
  Related-match_left below following s k left el (p, i, e, q) =
      any_of_complete (λ p. c_node_is_element dom p && below.chain (seg s k left) p) (dom.prevs el)
        p i (and_true e q)

  pub Related-map :
      (P Q : ℕ → Type 0) (c : Combinator) (el : ℕ)
      → ((p : ℕ) → P p → Q p)
      → Related c P el
      → Related c Q el
  Related-map P Q close el f h = h
  Related-map P Q descendant el f (p, i, e, q) = (p, i, e, f p q)
  Related-map P Q child el f (p, up, r, e, q) = (p, up, r, e, f p q)
  Related-map P Q sibling el f (p, r, q) = (p, r, f p q)
  Related-map P Q following el f (p, i, e, q) = (p, i, e, f p q)
