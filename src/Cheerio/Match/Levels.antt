-- ===== src/Cheerio/Match/Levels.antt =====
-- `match_chain` through its levels of depth.
use quickjs_runtime.Cheerio.Dom.{Dom}
use quickjs_runtime.Cheerio.Match.{
  Chain, Combinator, Matcher, Selector, child, close, descendant, following, match_chain,
  match_left, match_simple, matcher, matcher_above, no_selector, seg, sibling, too_deep,
}
use quickjs_runtime.Cheerio.Match.Meaning.{
  Holds, Related, Related-map, Related-match_left, Selects, and_true, both, combinators,
  is_listless, is_listless_chain, match_left-Related, plain-simple,
}
use quickjs_runtime.Common.{
  Bool, arith, false, refl, suc, sym, true, zero, ℕ, ◌&&◌, ◌<◌, ◌↔◌, ◌∙◌, ◌≡◌, ◌≤◌,
}

module _ (dom : Dom) (scope_node : ℕ) where
  abbrev is_close : Combinator → Bool
  is_close close = true
  is_close _ = false

  chain-last :
      (below : Matcher) (s : Selector) (c : Combinator) (el : ℕ)
      → is_listless s ≡ true
      → match_chain dom scope_node below (seg s c no_selector) el
        ≡ match_simple dom scope_node too_deep s el
  unfolding match_chain match_left
  chain-last below s close el h = ground (arith, plain-simple dom scope_node below s el h)
  chain-last below s descendant el h = ground (arith, plain-simple dom scope_node below s el h)
  chain-last below s child el h = ground (arith, plain-simple dom scope_node below s el h)
  chain-last below s sibling el h = ground (arith, plain-simple dom scope_node below s el h)
  chain-last below s following el h = ground (arith, plain-simple dom scope_node below s el h)

  chain-compound :
      (below : Matcher) (s : Selector) (left : Chain) (el : ℕ)
      → is_listless s ≡ true
      → match_chain dom scope_node below (seg s close left) el
        ≡ (match_simple dom scope_node too_deep s el && match_chain dom scope_node below left el)
  unfolding match_chain
  chain-compound below s left el h = ground (arith, plain-simple dom scope_node below s el h)

  chain-related :
      (below : Matcher) (s : Selector) (c : Combinator) (left : Chain) (el : ℕ)
      → is_listless s ≡ true
      → is_close c ≡ false
      → match_chain dom scope_node below (seg s c left) el
        ≡ (match_simple dom scope_node too_deep s el && match_left dom scope_node below c left el)
  unfolding match_chain
  chain-related below s close left el h k = cc
  chain-related below s descendant left el h k =
      ground (arith, plain-simple dom scope_node below s el h)
  chain-related below s child left el h k = ground (arith, plain-simple dom scope_node below s el h)
  chain-related below s sibling left el h k =
      ground (arith, plain-simple dom scope_node below s el h)
  chain-related below s following left el h k =
      ground (arith, plain-simple dom scope_node below s el h)

  -- The chain of a matcher with a level.
  chain-level :
      (fuel : ℕ) (c : Chain) (el : ℕ)
      → (matcher dom scope_node (suc fuel)).chain c el
        ≡ match_chain dom scope_node (matcher dom scope_node fuel) c el
  unfolding matcher matcher_above
  chain-level fuel c el = refl

  Related-sound :
      (below : Matcher) (s : Selector) (c : Combinator) (s2 : Selector) (c2 : Combinator)
      (left : Chain) (el : ℕ)
      → is_listless s ≡ true
      → is_close c ≡ false
      → ((p : ℕ)
          → below.chain (seg s2 c2 left) p ≡ true
          → Selects dom scope_node (seg s2 c2 left) p)
      → match_chain dom scope_node below (seg s c (seg s2 c2 left)) el ≡ true
      → Holds dom scope_node s el
        × Related dom scope_node c (Selects dom scope_node (seg s2 c2 left)) el
  Related-sound below s c s2 c2 left el pl nc f h =
      let (a, b) = both (sym (chain-related below s c (seg s2 c2 left) el pl nc) ∙ h) in
      (
        a,
        Related-map dom scope_node (λ p. below.chain (seg s2 c2 left) p ≡ true)
            (Selects dom scope_node (seg s2 c2 left)) c el f
            (match_left-Related dom scope_node below c s2 c2 left el b),
      )

  Related-complete :
      (below : Matcher) (s : Selector) (c : Combinator) (s2 : Selector) (c2 : Combinator)
      (left : Chain) (el : ℕ)
      → is_listless s ≡ true
      → is_close c ≡ false
      → ((p : ℕ)
          → Selects dom scope_node (seg s2 c2 left) p
          → below.chain (seg s2 c2 left) p ≡ true)
      → Holds dom scope_node s el
        × Related dom scope_node c (Selects dom scope_node (seg s2 c2 left)) el
      → match_chain dom scope_node below (seg s c (seg s2 c2 left)) el ≡ true
  Related-complete below s c s2 c2 left el pl nc f (a, b) =
      chain-related below s c (seg s2 c2 left) el pl nc
      ∙ and_true a (
          Related-match_left dom scope_node below c s2 c2 left el (
            Related-map dom scope_node (Selects dom scope_node (seg s2 c2 left))
              (λ p. below.chain (seg s2 c2 left) p ≡ true) c el f b))

  below-false : (c : Chain) (el : ℕ) → (matcher dom scope_node 0).chain c el ≡ false
  unfolding matcher
  below-false c el = refl

  chain-none : (below : Matcher) (el : ℕ) → match_chain dom scope_node below no_selector el ≡ true
  unfolding match_chain
  chain-none below el = refl

  lift_sound :
      (c : Chain)
      → ((fuel el : ℕ)
          → match_chain dom scope_node (matcher dom scope_node fuel) c el ≡ true
          → Selects dom scope_node c el)
      → (fuel el : ℕ) → (matcher dom scope_node fuel).chain c el ≡ true
      → Selects dom scope_node c el
  lift_sound c f zero el h = cc (below-false c el)
  lift_sound c f (suc fuel) el h = f fuel el (sym (chain-level fuel c el) ∙ h)

  chain_sound :
      (c : Chain)
      → is_listless_chain c ≡ true
      → (fuel el : ℕ) → match_chain dom scope_node (matcher dom scope_node fuel) c el ≡ true
      → Selects dom scope_node c el
  chain_sound no_selector pl fuel el h = tt
  chain_sound (seg s close no_selector) pl fuel el h =
      (sym (chain-last (matcher dom scope_node fuel) s close el (both pl).0) ∙ h, tt)
  chain_sound (seg s close (seg s2 c2 left)) pl fuel el h =
      let (a, b) = both (
        sym (chain-compound (matcher dom scope_node fuel) s (seg s2 c2 left) el (both pl).0) ∙ h) in
      (a, chain_sound (seg s2 c2 left) (both pl).1 fuel el b)
  chain_sound (seg s descendant no_selector) pl fuel el h =
      sym (chain-last (matcher dom scope_node fuel) s descendant el (both pl).0) ∙ h
  chain_sound (seg s descendant (seg s2 c2 left)) pl fuel el h =
      Related-sound (matcher dom scope_node fuel) s descendant s2 c2 left el (both pl).0 refl
        (lift_sound (seg s2 c2 left) (chain_sound (seg s2 c2 left) (both pl).1) fuel) h
  chain_sound (seg s child no_selector) pl fuel el h =
      sym (chain-last (matcher dom scope_node fuel) s child el (both pl).0) ∙ h
  chain_sound (seg s child (seg s2 c2 left)) pl fuel el h =
      Related-sound (matcher dom scope_node fuel) s child s2 c2 left el (both pl).0 refl
        (lift_sound (seg s2 c2 left) (chain_sound (seg s2 c2 left) (both pl).1) fuel) h
  chain_sound (seg s sibling no_selector) pl fuel el h =
      sym (chain-last (matcher dom scope_node fuel) s sibling el (both pl).0) ∙ h
  chain_sound (seg s sibling (seg s2 c2 left)) pl fuel el h =
      Related-sound (matcher dom scope_node fuel) s sibling s2 c2 left el (both pl).0 refl
        (lift_sound (seg s2 c2 left) (chain_sound (seg s2 c2 left) (both pl).1) fuel) h
  chain_sound (seg s following no_selector) pl fuel el h =
      sym (chain-last (matcher dom scope_node fuel) s following el (both pl).0) ∙ h
  chain_sound (seg s following (seg s2 c2 left)) pl fuel el h =
      Related-sound (matcher dom scope_node fuel) s following s2 c2 left el (both pl).0 refl
        (lift_sound (seg s2 c2 left) (chain_sound (seg s2 c2 left) (both pl).1) fuel) h

  lift_complete :
      (c : Chain)
      → ((fuel el : ℕ)
          → combinators c ≤ fuel
          → Selects dom scope_node c el
          → match_chain dom scope_node (matcher dom scope_node fuel) c el ≡ true)
      → (fuel el : ℕ) → combinators c < fuel
      → Selects dom scope_node c el
      → (matcher dom scope_node fuel).chain c el ≡ true
  lift_complete c f zero el lt h = absurd (omega arith)
  lift_complete c f (suc fuel) el lt h = chain-level fuel c el ∙ f fuel el (omega arith) h

  chain_complete :
      (c : Chain)
      → is_listless_chain c ≡ true
      → (fuel el : ℕ) → combinators c ≤ fuel
      → Selects dom scope_node c el
      → match_chain dom scope_node (matcher dom scope_node fuel) c el ≡ true
  chain_complete no_selector pl fuel el le h = chain-none (matcher dom scope_node fuel) el
  chain_complete (seg s close no_selector) pl fuel el le (a, h) =
      chain-last (matcher dom scope_node fuel) s close el (both pl).0 ∙ a
  chain_complete (seg s close (seg s2 c2 left)) pl fuel el le (a, h) =
      chain-compound (matcher dom scope_node fuel) s (seg s2 c2 left) el (both pl).0
      ∙ and_true a (chain_complete (seg s2 c2 left) (both pl).1 fuel el le h)
  chain_complete (seg s descendant no_selector) pl fuel el le h =
      chain-last (matcher dom scope_node fuel) s descendant el (both pl).0 ∙ h
  chain_complete (seg s descendant (seg s2 c2 left)) pl fuel el le h =
      Related-complete (matcher dom scope_node fuel) s descendant s2 c2 left el (both pl).0 refl
        (λ p.
          lift_complete (seg s2 c2 left) (chain_complete (seg s2 c2 left) (both pl).1) fuel p
            (omega arith))
        h
  chain_complete (seg s child no_selector) pl fuel el le h =
      chain-last (matcher dom scope_node fuel) s child el (both pl).0 ∙ h
  chain_complete (seg s child (seg s2 c2 left)) pl fuel el le h =
      Related-complete (matcher dom scope_node fuel) s child s2 c2 left el (both pl).0 refl
        (λ p.
          lift_complete (seg s2 c2 left) (chain_complete (seg s2 c2 left) (both pl).1) fuel p
            (omega arith))
        h
  chain_complete (seg s sibling no_selector) pl fuel el le h =
      chain-last (matcher dom scope_node fuel) s sibling el (both pl).0 ∙ h
  chain_complete (seg s sibling (seg s2 c2 left)) pl fuel el le h =
      Related-complete (matcher dom scope_node fuel) s sibling s2 c2 left el (both pl).0 refl
        (λ p.
          lift_complete (seg s2 c2 left) (chain_complete (seg s2 c2 left) (both pl).1) fuel p
            (omega arith))
        h
  chain_complete (seg s following no_selector) pl fuel el le h =
      chain-last (matcher dom scope_node fuel) s following el (both pl).0 ∙ h
  chain_complete (seg s following (seg s2 c2 left)) pl fuel el le h =
      Related-complete (matcher dom scope_node fuel) s following s2 c2 left el (both pl).0 refl
        (λ p.
          lift_complete (seg s2 c2 left) (chain_complete (seg s2 c2 left) (both pl).1) fuel p
            (omega arith))
        h

-- A selector without `:not`, `:is`, `:where` and `:has` and with at most 64 combinators matches an
-- element exactly when the chain selects it: the simple selectors of its last compound hold of the
-- element, and there is an ancestor, a parent, a nearest earlier element or an earlier element, as
-- its combinator says, that the rest of the chain selects.
pub match_chain_iff :
    (dom : Dom) (scope_node : ℕ) (c : Chain) (el : ℕ)
    → is_listless_chain c ≡ true
    → combinators c ≤ 64
    → ((matcher dom scope_node 65).chain c el ≡ true) ↔ Selects dom scope_node c el
match_chain_iff dom scope_node c el pl le = (
  lift_sound dom scope_node c (chain_sound dom scope_node c pl) 65 el,
  lift_complete dom scope_node c (chain_complete dom scope_node c pl) 65 el (omega arith),
)
