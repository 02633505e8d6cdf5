-- ===== src/Cheerio/Query.antt =====
-- `c_query_all`: the descendants that match, in document order.
pub mod Order
use quickjs_runtime.Cheerio.Dom.{Dom, c_node_is_element}
use quickjs_runtime.Cheerio.Match.{SelectorList, matcher}
use quickjs_runtime.Common.{
  Bool, List, Option, [], if◌then◌else◌, none, some, suc, zero, ℕ, ◌&&◌, ◌++◌, ◌∷◌,
}

-- `kMaxNodes`.
abbrev pub max_nodes : ℕ
max_nodes = 100000

abbrev pub scope_of : Option ℕ → ℕ → ℕ
scope_of none root_node = root_node
scope_of (some s) root_node = s

module _ (dom : Dom) where
  -- `stack` is the source's vector from its back; the children go on it in reverse, so that the
  -- first is on top. `fuel` is `kMaxNodes` less `visited`.
  unfoldable pub query_loop : (ℕ → Bool) → ℕ → List ℕ → List ℕ
  query_loop matches zero stack = []
  query_loop matches (suc fuel) [] = []
  query_loop matches (suc fuel) (n ∷ stack) =
      let rest = query_loop matches fuel (dom.children n ++ stack) in
      if c_node_is_element dom n && matches n then n ∷ rest else rest

  unfoldable pub matches_any : ℕ → SelectorList → ℕ → Bool
  matches_any scope_node list el = (matcher dom scope_node 65).any_list list el

  unfoldable pub c_query_all : ℕ → SelectorList → Bool → Option ℕ → List ℕ
  c_query_all root_node list include_self scope_node =
      let matches = matches_any (scope_of scope_node root_node) list in
      let below = query_loop matches max_nodes (dom.children root_node) in
      if include_self && (c_node_is_element dom root_node && matches root_node)
      then root_node ∷ below
      else below
