-- ===== src/Cheerio/Dom.antt =====
-- The tree that lexbor keeps, as the matcher reads it, and the helpers of lexbor_match.hpp.
--
-- A node is a number. The loops `for (p = el->parent; p; p = p->parent)` and their kin visit a
-- chain of pointers: the chain is a field here, in the order of the visits. The trees have no cycle.
use quickjs_runtime.Common.{
  Bool, List, Option, [], false, if◌then◌else◌, none, some, suc, true, zero, ℕ, ◌&&◌, ◌++◌, ◌+◌,
  ◌==◌, ◌||◌, ◌∷◌,
}
use quickjs_runtime.Common.Bytes.{Bytes, bytes_eq}

pub data NodeType : Type 0 where
  element text cdata_section document document_type document_fragment other : NodeType

-- lexbor's tree, which is not part of the repository.
pub record Dom : Type 0 where
  pub node_type : ℕ → NodeType
  pub tag_name : ℕ → Bytes
  -- The attribute, whose value may be absent.
  pub attr_by_name : ℕ → Bytes → Option (Option Bytes)
  pub text_content : ℕ → Bytes
  -- `parent`, its `parent`, and so on.
  pub parents : ℕ → List ℕ
  -- `prev`, its `prev`, and so on.
  pub prevs : ℕ → List ℕ
  -- `next`, its `next`, and so on.
  pub nexts : ℕ → List ℕ
  -- `first_child`, its `next`, and so on.
  pub children : ℕ → List ℕ

unfoldable pub is_element : NodeType → Bool
is_element element = true
is_element _ = false

unfoldable pub is_document : NodeType → Bool
is_document document = true
is_document _ = false

unfoldable pub any_of {ℓ} : {A : Type ℓ} → (A → Bool) → List A → Bool
any_of test [] = false
any_of test (x ∷ xs) = test x || any_of test xs

unfoldable pub count : (ℕ → Bool) → List ℕ → ℕ
count test [] = 0
count test (n ∷ ns) = let rest = count test ns in if test n then suc rest else rest

-- The place of `el` among the elements of a list, from `idx + 1`.
unfoldable pub index_from : (ℕ → Bool) → ℕ → ℕ → List ℕ → Option ℕ
index_from test el idx [] = none
index_from test el idx (c ∷ cs) =
    let found = index_from test el (suc idx) cs in
    let skipped = index_from test el idx cs in
    if test c then (if c == el then some (suc idx) else found) else skipped

unfoldable pub collect_all : (ℕ → Bytes) → List ℕ → Bytes
collect_all text_of [] = []
collect_all text_of (c ∷ cs) = text_of c ++ collect_all text_of cs

-- The `switch` on the type of a node, given its own text and its children's.
unfoldable pub collect : NodeType → Bytes → Bytes → Bytes
collect text own below = own
collect cdata_section own below = own
collect element own below = below
collect document own below = below
collect document_type own below = below
collect document_fragment own below = below
collect other own below = []

module _ (dom : Dom) where
  unfoldable pub c_node_is_element : ℕ → Bool
  c_node_is_element n = is_element (dom.node_type n)

  abbrev value_or_empty : Option (Option Bytes) → Option Bytes
  value_or_empty none = none
  value_or_empty (some none) = some []
  value_or_empty (some (some v)) = some v

  unfoldable pub c_attr_value : ℕ → Bytes → Option Bytes
  c_attr_value el name =
      if c_node_is_element el then value_or_empty (dom.attr_by_name el name) else none

  abbrev is_some : Option Bytes → Bool
  is_some none = false
  is_some (some v) = true

  unfoldable pub c_attr_exists : ℕ → Bytes → Bool
  c_attr_exists el name = is_some (c_attr_value el name)

  unfoldable pub c_node_name : ℕ → Bytes
  c_node_name n = if c_node_is_element n then dom.tag_name n else []

  abbrev index_below : ℕ → List ℕ → Option ℕ
  index_below el [] = none
  index_below el (parent ∷ up) = index_from c_node_is_element el 0 (dom.children parent)

  -- `none` is the source's -1.
  unfoldable pub c_child_index : ℕ → Option ℕ
  c_child_index el = index_below el (dom.parents el)

  unfoldable pub same_type : ℕ → ℕ → Bool
  same_type el p = c_node_is_element p && bytes_eq (c_node_name p) (c_node_name el)

  unfoldable pub c_type_index : ℕ → ℕ
  c_type_index el = count (same_type el) (dom.prevs el) + 1

  -- `fuel` is 65 less the `depth` of the source.
  unfoldable pub c_collect_text : ℕ → ℕ → Bytes
  c_collect_text zero n = []
  c_collect_text (suc fuel) n =
      collect (dom.node_type n) (dom.text_content n)
        (collect_all (c_collect_text fuel) (dom.children n))

  abbrev pub c_text_content : ℕ → Bytes
  c_text_content n = c_collect_text 65 n
