-- ===== src/Tests/Pages.antt =====
-- Examples for headers, streams and selectors.
use quickjs_runtime.Web.Tee
use quickjs_runtime.Web.Stream
use quickjs_runtime.Cheerio.Dom.{Dom, NodeType, c_node_is_element, document, element}
use quickjs_runtime.Cheerio.Match.{
  Chain, child, cons_list, descendant, matcher, nil_list, no_selector, seg, sibling, tag,
}
use quickjs_runtime.Cheerio.Match.Levels.{match_chain_iff}
use quickjs_runtime.Cheerio.Match.Meaning.{Selects}
use quickjs_runtime.Cheerio.Query.{c_query_all, matches_any, max_nodes}
use quickjs_runtime.Cheerio.Query.Order.{
  Forest, c_query_all-preorder, filter, no_nodes, preorder, self_first, tree,
}
use quickjs_runtime.Common.{
  List, Option, [], arith, false, none, refl, some, suc, take, true, zero, ℕ, ◌&&◌, ◌++◌, ◌↔◌, ◌∷◌,
  ◌≡◌,
}
use quickjs_runtime.Common.Bytes.{Bytes, bytes_eq, codes, contains, to_lower}
use quickjs_runtime.Common.Result.{ok}
use quickjs_runtime.Web.Headers.{
  HeadersImpl, all_chars, all_latin, append, append_raw, erase, get, is_http_token_char,
  normalize_name, normalize_value, set_header, trim_http_ws, trim_left, trim_right,
}
use quickjs_runtime.Web.Headers.Access.{get-set_header, got, unguarded}
use quickjs_runtime.Web.Headers.Clean.{CleanResult, IsClean, changes-clean}
use quickjs_runtime.Web.Stream.{fresh}
use quickjs_runtime.Web.Stream.Reads.{blocks_given, stream_reads_faithful, values_read}
use quickjs_runtime.Web.Tee.{destroys, gives, open_branch, side_a, side_b, tee, turn_with}
use quickjs_runtime.Web.Tee.Branches.{reads_start_pulls}

-- A document (0) with a `ul` (1) of two `li` (2, 3).
abbrev tag_of : ℕ → Bytes
tag_of zero = []
tag_of (suc zero) = codes "ul"
tag_of (suc (suc n)) = codes "li"

abbrev type_of : ℕ → NodeType
type_of zero = document
type_of (suc n) = element

abbrev up_from : ℕ → List ℕ
up_from zero = []
up_from (suc zero) = 0 ∷ []
up_from (suc (suc n)) = 1 ∷ 0 ∷ []

abbrev before : ℕ → List ℕ
before zero = []
before (suc zero) = []
before (suc (suc zero)) = []
before (suc (suc (suc n))) = 2 ∷ []

abbrev after : ℕ → List ℕ
after zero = []
after (suc zero) = []
after (suc (suc zero)) = 3 ∷ []
after (suc (suc (suc n))) = []

abbrev below : ℕ → List ℕ
below zero = 1 ∷ []
below (suc zero) = 2 ∷ 3 ∷ []
below (suc (suc n)) = []

abbrev page : Dom
page = record {
  node_type = type_of;
  tag_name = tag_of;
  attr_by_name = λ n name. none;
  text_content = λ n. [];
  parents = up_from;
  prevs = before;
  nexts = after;
  children = below;
}

-- `ul > li + li`.
abbrev second_item : Chain
second_item =
    seg (tag (codes "li")) sibling
      (seg (tag (codes "li")) child (seg (tag (codes "ul")) descendant no_selector))

match_chain_iff_example :
    ((matcher page 0 65).chain second_item 3 ≡ true) ↔ Selects page 0 second_item 3
match_chain_iff_example = match_chain_iff page 0 second_item 3 refl (omega arith)

abbrev page_forest : Forest
page_forest = tree 1 (tree 2 no_nodes (tree 3 no_nodes no_nodes)) no_nodes

c_query_all-preorder_example :
    c_query_all page 0 (cons_list second_item nil_list) false none
    ≡ filter
        (λ n. c_node_is_element page n && matches_any page 0 (cons_list second_item nil_list) n)
        (self_first false 0 ++ take max_nodes (preorder page_forest))
c_query_all-preorder_example =
    c_query_all-preorder page 0 (cons_list second_item nil_list) false none page_forest refl
      (refl, (refl, tt, (refl, tt, tt)), tt)

abbrev tee_events : List Tee.Event
tee_events =
    Tee.reads side_a
    ∷ Tee.reads side_b
    ∷ Tee.completes side_b (gives (codes "x"))
    ∷ Tee.cancels side_b
    ∷ Tee.completes side_a (gives (codes "y"))
    ∷ Tee.destroys side_a
    ∷ []

-- The other branch's pull is still in flight.
reads_start_pulls_example :
    let t = Tee.run tee (Tee.reads side_a ∷ []) in
    ((Tee.step t (Tee.reads side_b)).pulls ≡ t.pulls ++ (side_b ∷ []))
    × ((Tee.step t (Tee.reads side_b)).waiting ≡ [])
unfolding Tee.run Tee.step tee Tee.turn turn_with open_branch Tee.wait_or_pull
reads_start_pulls_example = reads_start_pulls (Tee.reads side_a ∷ []) side_b refl refl refl

-- Both reads have a pull in flight before one completes.
abbrev stream_events : List Stream.Event
stream_events =
    Stream.reads 1
    ∷ Stream.reads 2
    ∷ Stream.completes 2 (gives (codes "x"))
    ∷ Stream.cancels
    ∷ Stream.completes 1 (gives (codes "y"))
    ∷ []

stream_reads_faithful_example :
    values_read (Stream.run (fresh true) stream_events).ended
      ++ (Stream.run (fresh true) stream_events).queue
    ≡ blocks_given (fresh true) stream_events
stream_reads_faithful_example = stream_reads_faithful true stream_events

-- A decoder for ASCII.
abbrev ascii_points : Bytes → Option (List ℕ)
ascii_points s = some s

abbrev some_headers : HeadersImpl
some_headers = unguarded ((codes "a", codes "1") ∷ (codes "b", codes "2") ∷ [])

IsClean-start : IsClean some_headers.list
unfolding all_chars
IsClean-start = (refl, refl, (refl, refl, tt))

changes-clean_example :
    CleanResult (append ascii_points some_headers (codes "X-Y") (codes " v\r\n"))
    × CleanResult (set_header ascii_points some_headers (codes "X-Y") (codes " v\r\n"))
    × CleanResult (erase some_headers (codes "X-Y"))
    × CleanResult (append_raw some_headers (codes "X-Y") (codes " v\r\n"))
changes-clean_example =
    changes-clean ascii_points some_headers (codes "X-Y") (codes " v\r\n") IsClean-start

name_a : normalize_name (codes "A") ≡ ok (codes "a")
unfolding normalize_name trim_http_ws trim_left trim_right bytes_eq all_chars is_http_token_char
    contains to_lower
name_a = refl

name_b : normalize_name (codes " b") ≡ ok (codes "b")
unfolding normalize_name trim_http_ws trim_left trim_right bytes_eq all_chars is_http_token_char
    contains to_lower
name_b = refl

name_a_spaced : normalize_name (codes "a ") ≡ ok (codes "a")
unfolding normalize_name trim_http_ws trim_left trim_right bytes_eq all_chars is_http_token_char
    contains to_lower
name_a_spaced = refl

value_9 : normalize_value ascii_points (codes "9\n") ≡ ok (codes "9")
unfolding normalize_value trim_left trim_right all_chars all_latin
value_9 = refl

get-set_header_example :
    (got (set_header ascii_points some_headers (codes "A") (codes "9\n")) (codes "a ")
      ≡ ok (some (codes "9")))
    × (got (set_header ascii_points some_headers (codes "A") (codes "9\n")) (codes " b")
        ≡ get some_headers (codes " b"))
get-set_header_example =
    get-set_header ascii_points some_headers.list (codes "A") (codes "a ") (codes " b")
      (codes "9\n") name_a name_a_spaced value_9 name_b (unfold bytes_eq in refl)
