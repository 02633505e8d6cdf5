-- ===== src/Cheerio/Query/Order.antt =====
-- The stack of `c_query_all` visits the nodes in document order.
use mathlib.Core.List.{append_assoc}
use quickjs_runtime.Cheerio.Dom.{Dom, c_node_is_element}
use quickjs_runtime.Cheerio.Match.{SelectorList}
use quickjs_runtime.Cheerio.Query.{c_query_all, matches_any, max_nodes, query_loop, scope_of}
use quickjs_runtime.Common.{
  Bool, List, Option, [], ap, false, if◌then◌else◌, refl, suc, sym, take, true, zero, ℕ, ◌&&◌, ◌++◌,
  ◌∙◌, ◌∷◌, ◌≡◌,
}

-- The trees of some siblings: the first node, what is below it, and the siblings after it.
pub data Forest : Type 0 where
  no_nodes : Forest
  tree : ℕ → Forest → Forest → Forest

-- Document order: a node comes before its descendants, and these before its next siblings.
abbrev pub preorder : Forest → List ℕ
preorder no_nodes = []
preorder (tree n below next) = n ∷ preorder below ++ preorder next

abbrev pub labels : Forest → List ℕ
labels no_nodes = []
labels (tree n below next) = n ∷ labels next

abbrev append_forest : Forest → Forest → Forest
append_forest no_nodes g = g
append_forest (tree n below next) g = tree n below (append_forest next g)

abbrev pub filter : (ℕ → Bool) → List ℕ → List ℕ
filter test [] = []
filter test (n ∷ ns) = if test n then n ∷ filter test ns else filter test ns

-- The forest is the one that the document's pointers make.
abbrev pub IsForest : Dom → Forest → Type 0
IsForest dom no_nodes = Unit {0}
IsForest dom (tree n below next) =
    (dom.children n ≡ labels below) × IsForest dom below × IsForest dom next

labels-append : (f g : Forest) → labels (append_forest f g) ≡ labels f ++ labels g
labels-append no_nodes g = refl
labels-append (tree n below next) g = rw (labels-append next g)

preorder-append : (f g : Forest) → preorder (append_forest f g) ≡ preorder f ++ preorder g
preorder-append no_nodes g = refl
preorder-append (tree n below next) g =
    ap (λ (t : List ℕ). n ∷ preorder below ++ t) (preorder-append next g)
    ∙ ap (λ (t : List ℕ). n ∷ t) (sym (append_assoc (preorder below) (preorder next) (preorder g)))

IsForest-append :
    (dom : Dom) (f g : Forest) → IsForest dom f → IsForest dom g → IsForest dom (append_forest f g)
IsForest-append dom no_nodes g h k = k
IsForest-append dom (tree n below next) g (c, b, r) k = (c, b, IsForest-append dom next g r k)

query_loop-step :
    (dom : Dom) (matches : ℕ → Bool) (fuel n : ℕ) (stack rest : List ℕ)
    → query_loop dom matches fuel (dom.children n ++ stack)
      ≡ filter (λ m. c_node_is_element dom m && matches m) rest
    → query_loop dom matches (suc fuel) (n ∷ stack)
      ≡ filter (λ m. c_node_is_element dom m && matches m) (n ∷ rest)
unfolding query_loop
query_loop-step dom matches fuel n stack rest h = rw (query_loop, h) refl

-- The loop gives the matches among the first nodes in document order.
query_loop-preorder :
    (dom : Dom) (matches : ℕ → Bool) (fuel : ℕ) (f : Forest)
    → IsForest dom f
    → query_loop dom matches fuel (labels f)
      ≡ filter (λ m. c_node_is_element dom m && matches m) (take fuel (preorder f))
unfolding query_loop
query_loop-preorder dom matches zero f h = refl
query_loop-preorder dom matches (suc fuel) no_nodes h = refl
query_loop-preorder dom matches (suc fuel) (tree n below next) (c, b, r) =
    query_loop-step dom matches fuel n (labels next) (take fuel (preorder below ++ preorder next)) (
      ap (λ (t : List ℕ). query_loop dom matches fuel t)
        (ap (λ (t : List ℕ). t ++ labels next) c ∙ sym (labels-append below next))
      ∙ query_loop-preorder dom matches fuel (append_forest below next)
          (IsForest-append dom below next b r)
      ∙ ap (λ (t : List ℕ). filter (λ m. c_node_is_element dom m && matches m) (take fuel t))
          (preorder-append below next))

abbrev pub self_first : Bool → ℕ → List ℕ
self_first true n = n ∷ []
self_first false n = []

-- A query gives, in document order, the elements that match a selector of the list,
-- among the first 100000 descendants of the root in document order, with the root itself before
-- them when it is asked for. The forest is any description of the nodes below the root.
pub c_query_all-preorder :
    (dom : Dom) (root_node : ℕ) (list : SelectorList) (include_self : Bool) (scope_node : Option ℕ)
    (f : Forest)
    → dom.children root_node ≡ labels f
    → IsForest dom f
    → c_query_all dom root_node list include_self scope_node
      ≡ filter
          (λ n. c_node_is_element dom n && matches_any dom (scope_of scope_node root_node) list n)
          (self_first include_self root_node ++ take max_nodes (preorder f))
unfolding c_query_all
c_query_all-preorder dom root_node list true scope_node f c h =
    rw
      (
        c,
        query_loop-preorder dom (matches_any dom (scope_of scope_node root_node) list) max_nodes f
            h,
      )
      refl
c_query_all-preorder dom root_node list false scope_node f c h =
    rw
      (
        c,
        query_loop-preorder dom (matches_any dom (scope_of scope_node root_node) list) max_nodes f
            h,
      )
      refl
