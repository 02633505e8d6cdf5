-- ===== src/Cheerio/Words.antt =====
-- The texts of selectors: `c_has_class` and the six tests of `match_attribute`.
pub mod Spec
pub mod Attributes
use mathlib.Core.List
use quickjs_runtime.Common.{
  Bool, Option, [], drop, false, if◌then◌else◌, leb, length, ltb, map, none, some, suc, take, true,
  zero, ℕ, ◌&&◌, ◌++◌, ◌-◌, ◌==◌, ◌||◌, ◌∷◌,
}
use quickjs_runtime.Common.Bytes.{Bytes, bytes_eq, codes, find, starts_with, to_lower}

-- The loop over the words of a text, cut at spaces: `fuel` bounds the words, of which a text has
-- at most one more than characters.
unfoldable pub has_word : (Bytes → Bool) → ℕ → Bytes → Bool
has_word test zero s = false
has_word test (suc fuel) s = elim (find b' ' s) [
  | none ↦ test s
  | some end ↦
      let rest = has_word test fuel (drop (suc end) s) in if test (take end s) then true else rest
]

-- `c_has_class`, at an element's `class` or without one.
unfoldable pub c_has_class : Option Bytes → Bytes → Bool
c_has_class none want = false
c_has_class (some attr) want = has_word (λ w. bytes_eq w want) (suc (length attr)) attr

unfoldable pub same_lowered : Bytes → Bytes → Bool
same_lowered [] [] = true
same_lowered (x ∷ xs) (y ∷ ys) = to_lower x == to_lower y && same_lowered xs ys
same_lowered _ _ = false

-- The lambda `eq`.
unfoldable pub eq : Bool → Bytes → Bytes → Bool
eq insensitive x y = if insensitive then same_lowered x y else bytes_eq x y

-- `find(needle) != npos`.
unfoldable pub has_text : Bytes → Bytes → Bool
has_text needle [] = starts_with needle []
has_text needle (c ∷ s) = starts_with needle (c ∷ s) || has_text needle s

abbrev pub lowered : Bool → Bytes → Bytes
lowered insensitive s = if insensitive then map to_lower s else s

-- `lxb_css_selector_match_t`.
pub data MatchKind : Type 0 where
  equal include dash prefix suffix substring : MatchKind

pub record Attribute : Type 0 where
  pub match : MatchKind
  pub value : Option Bytes
  pub insensitive : Bool

abbrev value_text : Option Bytes → Bytes
value_text none = []
value_text (some v) = v

unfoldable pub text_holds : MatchKind → Bool → Bytes → Bytes → Bool
text_holds equal insensitive value attr = bytes_eq attr value
text_holds include insensitive value attr =
    has_word (λ w. eq insensitive w value) (suc (length attr)) attr
text_holds dash insensitive value attr =
    let start = value ++ codes "-" in
    if eq insensitive attr value
    then true
    else ltb (length start) (length attr) && eq insensitive (take (length start) attr) start
text_holds prefix insensitive value attr =
    leb (length value) (length attr) && eq insensitive (take (length value) attr) value
text_holds suffix insensitive value attr =
    leb (length value) (length attr)
    && eq insensitive (drop (length attr - length value) attr) value
text_holds substring insensitive value attr =
    has_text (lowered insensitive value) (lowered insensitive attr)

-- `[attr]` is an `equal` without a value.
unfoldable pub value_holds : MatchKind → Bool → Option Bytes → Bytes → Bool
value_holds equal insensitive none attr = true
value_holds match insensitive value attr = text_holds match insensitive (value_text value) attr

-- `match_attribute`, at what `c_attr_value` gives.
unfoldable pub match_attribute : Attribute → Option Bytes → Bool
match_attribute a none = false
match_attribute a (some attr) = value_holds a.match a.insensitive a.value attr
