-- ===== src/Cheerio/Match.antt =====
-- `CTreeMatcher`: whether an element matches a selector.
--
-- A chain of selectors is read from its last one to its first, as the matcher follows `prev`; each
-- carries the combinator that relates it to the one before it. The levels of `depth` are the levels
-- of a `Matcher`: what a call at one depth asks at the next depth it asks the matcher below.
pub mod Meaning
pub mod Levels
use mathlib.Core.Option
use quickjs_runtime.Cheerio.Anb.{c_anb_match}
use quickjs_runtime.Cheerio.Dom.{
  Dom, any_of, c_attr_exists, c_attr_value, c_child_index, c_node_is_element, c_node_name,
  c_text_content, c_type_index, count, is_document, same_type,
}
use quickjs_runtime.Cheerio.Ints.{ℤ}
use quickjs_runtime.Cheerio.Words.{Attribute, c_has_class, has_text, lowered, match_attribute}
use quickjs_runtime.Common.{
  Bool, List, Option, [], false, if◌then◌else◌, map, none, not, some, suc, true, zero, ℕ, ◌&&◌, ◌+◌,
  ◌==◌, ◌||◌, ◌∷◌,
}
use quickjs_runtime.Common.Bytes.{Bytes, bytes_eq, codes}

pub data Combinator : Type 0 where
  close descendant child sibling following : Combinator

pub data Pseudo : Type 0 where
  first_child last_child only_child first_of_type last_of_type only_of_type : Pseudo
  empty root scope link checked disabled enabled required optional other_pseudo : Pseudo

-- The pseudo-classes of positions.
pub data Nth : Type 0 where
  nth_child nth_last_child nth_of_type nth_last_of_type : Nth

pub record Contains : Type 0 where
  pub str : Bytes
  pub insensitive : Bool

mutual
  pub data Selector : Type 0 where
    any : Selector
    tag : Bytes → Selector
    id : Bytes → Selector
    class_name : Bytes → Selector
    attribute : Bytes → Attribute → Selector
    pseudo : Pseudo → Selector
    -- `an+b`, if lexbor gave it.
    nth : Nth → Option (ℤ × ℤ) → Selector
    not_any is_any has_any : SelectorList → Selector
    contains_text : Option Contains → Selector
    pseudo_element unknown : Selector

  -- A selector, its combinator, and the chain before it.
  pub data Chain : Type 0 where
    no_selector : Chain
    seg : Selector → Combinator → Chain → Chain

  -- `nil_list` is also the null pointer: `match_any_list` is false of both.
  pub data SelectorList : Type 0 where
    nil_list : SelectorList
    cons_list : Chain → SelectorList → SelectorList

-- What can be asked at a depth.
pub record Matcher : Type 0 where
  pub chain : Chain → ℕ → Bool
  pub any_list : SelectorList → ℕ → Bool
  pub has_descendant : SelectorList → ℕ → Bool

-- Beyond depth 64.
abbrev pub too_deep : Matcher
too_deep = record {
  chain = λ c el. false;
  any_list = λ l el. false;
  has_descendant = λ l el. false;
}

unfoldable pub any_chain : (Chain → ℕ → Bool) → SelectorList → ℕ → Bool
any_chain holds nil_list el = false
any_chain holds (cons_list no_selector l) el = any_chain holds l el
any_chain holds (cons_list (seg s c left) l) el =
    let rest = any_chain holds l el in if holds (seg s c left) el then true else rest

-- The first of a list that is an element.
unfoldable pub first_that : (ℕ → Bool) → List ℕ → Option ℕ
first_that test [] = none
first_that test (n ∷ ns) = let rest = first_that test ns in if test n then some n else rest

module _ (dom : Dom) (scope_node : ℕ) where
  unfoldable pub is_root : List ℕ → Bool
  is_root (p ∷ []) = is_document (dom.node_type p)
  is_root _ = false

  abbrev is_empty : List ℕ → Bool
  is_empty [] = true
  is_empty (c ∷ cs) = false

  abbrev is_one : Option ℕ → Bool
  is_one none = false
  is_one (some i) = i == 1

  unfoldable pub match_pseudo : Pseudo → ℕ → Bool
  match_pseudo first_child el = is_one (c_child_index dom el)
  match_pseudo last_child el = not (any_of (c_node_is_element dom) (dom.nexts el))
  match_pseudo only_child el =
      not (any_of (c_node_is_element dom) (dom.prevs el))
      && not (any_of (c_node_is_element dom) (dom.nexts el))
  match_pseudo first_of_type el = not (any_of (same_type dom el) (dom.prevs el))
  match_pseudo last_of_type el = not (any_of (same_type dom el) (dom.nexts el))
  match_pseudo only_of_type el =
      not (any_of (same_type dom el) (dom.prevs el))
      && not (any_of (same_type dom el) (dom.nexts el))
  match_pseudo empty el = is_empty (dom.children el)
  match_pseudo root el = is_root (dom.parents el)
  match_pseudo scope el = el == scope_node
  match_pseudo link el =
      (bytes_eq (c_node_name dom el) (codes "a")
        || bytes_eq (c_node_name dom el) (codes "area")
        || bytes_eq (c_node_name dom el) (codes "link"))
      && c_attr_exists dom el (codes "href")
  match_pseudo checked el =
      c_attr_exists dom el (codes "checked") || c_attr_exists dom el (codes "selected")
  match_pseudo disabled el = c_attr_exists dom el (codes "disabled")
  match_pseudo enabled el = not (c_attr_exists dom el (codes "disabled"))
  match_pseudo required el = c_attr_exists dom el (codes "required")
  match_pseudo optional el = not (c_attr_exists dom el (codes "required"))
  match_pseudo other_pseudo el = false

  -- The position that an `nth` pseudo-class counts.
  unfoldable pub position : Nth → ℕ → Option ℕ
  position nth_child el = c_child_index dom el
  position nth_last_child el =
      Option.map (λ i. suc (count (c_node_is_element dom) (dom.nexts el))) (c_child_index dom el)
  position nth_of_type el = some (c_type_index dom el)
  position nth_last_of_type el = some (count (same_type dom el) (dom.nexts el) + 1)

  unfoldable pub match_nth : Option (ℤ × ℤ) → Option ℕ → Bool
  match_nth none at = false
  match_nth (some anb) none = false
  match_nth (some (a, b)) (some n) = c_anb_match a b n

  unfoldable pub match_contains : Option Contains → Bytes → Bool
  match_contains none hay = false
  match_contains (some c) hay = has_text (lowered c.insensitive c.str) (lowered c.insensitive hay)

  -- `none` is a missing attribute.
  unfoldable pub match_text : Option Bytes → Bytes → Bool
  match_text none want = false
  match_text (some v) want = bytes_eq v want

  -- `match_simple` with `match_pseudo_function`; `below` answers at `depth + 1`.
  unfoldable pub match_simple : Matcher → Selector → ℕ → Bool
  match_simple below any el = true
  match_simple below (tag want) el = bytes_eq (c_node_name dom el) want
  match_simple below (id want) el = match_text (c_attr_value dom el (codes "id")) want
  match_simple below (class_name want) el =
      if bytes_eq want (codes "__lexbor_scope__")
      then el == scope_node
      else c_has_class (c_attr_value dom el (codes "class")) want
  match_simple below (attribute name a) el = match_attribute a (c_attr_value dom el name)
  match_simple below (pseudo p) el = match_pseudo p el
  match_simple below (nth which anb) el = match_nth anb (position which el)
  match_simple below (not_any l) el = not (below.any_list l el)
  match_simple below (is_any l) el = below.any_list l el
  match_simple below (has_any l) el = below.has_descendant l el
  match_simple below (contains_text c) el = match_contains c (c_text_content dom el)
  match_simple below pseudo_element el = false
  match_simple below unknown el = false

  unfoldable pub match_parent : Matcher → Chain → List ℕ → Bool
  match_parent below left [] = false
  match_parent below left (p ∷ up) = c_node_is_element dom p && below.chain left p

  unfoldable pub match_found : Matcher → Chain → Option ℕ → Bool
  match_found below left none = false
  match_found below left (some p) = below.chain left p

  -- The selectors of the last compound hold, and `left` is asked of the elements that its
  -- combinator leads to.
  unfoldable pub match_left : Matcher → Combinator → Chain → ℕ → Bool
  match_left below c no_selector el = true
  match_left below close left el = false
  match_left below descendant left el =
      any_of (λ p. c_node_is_element dom p && below.chain left p) (dom.parents el)
  match_left below child left el = match_parent below left (dom.parents el)
  match_left below sibling left el =
      match_found below left (first_that (c_node_is_element dom) (dom.prevs el))
  match_left below following left el =
      any_of (λ p. c_node_is_element dom p && below.chain left p) (dom.prevs el)

  -- `match_chain`: the loop back to `head` and forth again is one pass over the compound.
  unfoldable pub match_chain : Matcher → Chain → ℕ → Bool
  match_chain below no_selector el = true
  match_chain below (seg s close left) el = match_simple below s el && match_chain below left el
  match_chain below (seg s c left) el = match_simple below s el && match_left below c left el

  -- The loop of `has_descendant_match`.
  unfoldable pub any_below :
      (SelectorList → ℕ → Bool) → (SelectorList → ℕ → Bool) → SelectorList → List ℕ → Bool
  any_below any_list deeper l [] = false
  any_below any_list deeper l (c ∷ cs) =
      (c_node_is_element dom c && (any_list l c || deeper l c)) || any_below any_list deeper l cs

  -- The three mutually recursive methods at a depth, given them at the next depth.
  unfoldable pub matcher_above : Matcher → Matcher
  matcher_above below = record {
    chain = match_chain below;
    any_list = any_chain (match_chain below);
    has_descendant =
        λ l el. any_below (any_chain (match_chain below)) below.has_descendant l (dom.children el);
  }

  -- The methods at the depth 65 - `fuel`.
  unfoldable pub matcher : ℕ → Matcher
  matcher zero = too_deep
  matcher (suc fuel) = matcher_above (matcher fuel)
