-- ===== src/Cheerio/Words/Attributes.antt =====
-- `match_attribute` against the meaning of the six operators.
use quickjs_runtime.Cheerio.Words.{
  MatchKind, c_has_class, dash, eq, equal, has_text, include, lowered, prefix, same_lowered,
  substring, suffix, text_holds,
}
use quickjs_runtime.Cheerio.Words.Spec.{AnyWord, has_word_iff, words}
use quickjs_runtime.Common.{
  Bool, Bool-cases, List, [], ap, arith, drop, false, inl, inr, leb, length, length-append,
  length-map, ltb, ltb→lt, lt→ltb, map, refl, some, suc, sym, take, take-append-drop, true, zero, ℕ,
  ◌&&◌, ◌++◌, ◌-◌, ◌<◌, ◌↔◌, ◌∙◌, ◌∷◌, ◌≡◌, ◌⊎◌,
}
use quickjs_runtime.Common.Bytes.{Bytes, bytes_eq, bytes_eq_iff, codes, starts_with, to_lower}

-- What an attribute selector asks of the attribute's text, letters lowered where it ignores case.
abbrev pub IsTextMatch : MatchKind → Bool → Bytes → Bytes → Type 0
IsTextMatch equal ins value attr = attr ≡ value
IsTextMatch include ins value attr = AnyWord (λ w. lowered ins w ≡ lowered ins value) (words attr)
IsTextMatch dash ins value attr =
    (lowered ins attr ≡ lowered ins value)
    ⊎ ((c : ℕ) × (rest : Bytes) × (lowered ins attr
          ≡ lowered ins (value ++ codes "-") ++ (c ∷ rest)))
IsTextMatch prefix ins value attr = (rest : Bytes) × (lowered ins attr ≡ lowered ins value ++ rest)
IsTextMatch suffix ins value attr =
    (front : Bytes) × (lowered ins attr ≡ front ++ lowered ins value)
IsTextMatch substring ins value attr =
    (front : Bytes) × (rest : Bytes) × (lowered ins attr ≡ front ++ lowered ins value ++ rest)

same_lowered_iff : (x y : Bytes) → (same_lowered x y ≡ true) ↔ (map to_lower x ≡ map to_lower y)
unfolding same_lowered
same_lowered_iff (x ∷ xs) (y ∷ ys) = ground (arith, same_lowered_iff xs ys)
same_lowered_iff [] [] = ground arith
same_lowered_iff [] (y ∷ ys) = ground arith
same_lowered_iff (x ∷ xs) [] = ground arith

eq_iff : (ins : Bool) (x y : Bytes) → (eq ins x y ≡ true) ↔ (lowered ins x ≡ lowered ins y)
unfolding eq
eq_iff true x y = same_lowered_iff x y
eq_iff false x y = bytes_eq_iff x y

-- The rest of a text behind a prefix.
starts_with_sound : (p s : Bytes) → starts_with p s ≡ true → (rest : Bytes) × (s ≡ p ++ rest)
unfolding starts_with
starts_with_sound [] s h = (s, refl)
starts_with_sound (c ∷ p) [] h = cc
starts_with_sound (c ∷ p) (d ∷ s) h =
    let (rest, e) = starts_with_sound p s (ground arith) in (rest, ground arith)

starts_with-append : (p rest : Bytes) → starts_with p (p ++ rest) ≡ true
unfolding starts_with
starts_with-append [] rest = refl
starts_with-append (c ∷ p) rest = ground (arith, starts_with-append p rest)

take-starts_with :
    (v a : Bytes) (ins : Bool)
    → (leb (length v) (length a) && eq ins (take (length v) a) v)
      ≡ starts_with (lowered ins v) (lowered ins a)
unfolding starts_with eq same_lowered bytes_eq
take-starts_with [] a true = ground arith
take-starts_with [] a false = ground arith
take-starts_with (c ∷ v) [] true = ground arith
take-starts_with (c ∷ v) [] false = ground arith
take-starts_with (c ∷ v) (d ∷ a) true = ground (arith, take-starts_with v a true)
take-starts_with (c ∷ v) (d ∷ a) false = ground (arith, take-starts_with v a false)

has_text_sound :
    (p s : Bytes)
    → has_text p s ≡ true
    → (front : Bytes) × (rest : Bytes) × (s ≡ front ++ p ++ rest)
unfolding has_text
has_text_sound p [] h = let (rest, e) = starts_with_sound p [] h in ([], rest, e)
has_text_sound p (c ∷ s) h = elim (Bool-cases (starts_with p (c ∷ s))) [
  | inl q ↦ let (rest, e) = starts_with_sound p (c ∷ s) q in ([], rest, e)
  | inr q ↦
      let (front, rest, e) = has_text_sound p s (ground arith) in (c ∷ front, rest, ground arith)
]

has_text-start : (p s : Bytes) → starts_with p s ≡ true → has_text p s ≡ true
unfolding has_text
has_text-start p [] h = h
has_text-start p (c ∷ s) h = ground arith

has_text-append : (p front rest : Bytes) → has_text p (front ++ p ++ rest) ≡ true
unfolding has_text
has_text-append p [] rest = has_text-start p (p ++ rest) (starts_with-append p rest)
has_text-append p (c ∷ front) rest = ground (arith, has_text-append p front rest)

map-drop : (k : ℕ) (s : Bytes) → map to_lower (drop k s) ≡ drop k (map to_lower s)
map-drop zero s = refl
map-drop (suc k) [] = refl
map-drop (suc k) (c ∷ s) = map-drop k s

lowered-drop : (ins : Bool) (k : ℕ) (s : Bytes) → lowered ins (drop k s) ≡ drop k (lowered ins s)
lowered-drop true k s = map-drop k s
lowered-drop false k s = refl

length-lowered : (ins : Bool) (s : Bytes) → length (lowered ins s) ≡ length s
length-lowered true s = length-map s to_lower
length-lowered false s = refl

drop-append : (a b : Bytes) → drop (length a) (a ++ b) ≡ b
drop-append [] b = refl
drop-append (c ∷ a) b = drop-append a b

both : {p q : Bool} → (p && q) ≡ true → (p ≡ true) × (q ≡ true)
both {p} {q} h = ground arith

and_true : {p q : Bool} → p ≡ true → q ≡ true → (p && q) ≡ true
and_true h k = ground arith

suffix_iff :
    (ins : Bool) (value attr : Bytes)
    → (text_holds suffix ins value attr ≡ true) ↔ IsTextMatch suffix ins value attr
unfolding text_holds
suffix_iff ins value attr = (
  λ h.
      let k = length attr - length value in
      let (le, e) = both h in
      (
        take k (lowered ins attr),
        sym (take-append-drop k (lowered ins attr))
            ∙ ap (λ (t : Bytes). take k (lowered ins attr) ++ t)
                (sym (lowered-drop ins k attr) ∙ (eq_iff ins (drop k attr) value).0 e),
      ),
  λ g.
      let (front, e) = g in
      let n =
        sym (length-lowered ins attr)
        ∙ ap (λ (t : Bytes). length t) e
        ∙ length-append front (lowered ins value) in
      let m = length-lowered ins value in
      and_true (ground arith) (
        (eq_iff ins (drop (length attr - length value) attr) value).1 (
          lowered-drop ins (length attr - length value) attr
          ∙ ap (λ (j : ℕ). drop j (lowered ins attr)) (omega (arith, n, m))
          ∙ ap (λ (t : Bytes). drop (length front) t) e
          ∙ drop-append front (lowered ins value))),
)

prefix_iff :
    (ins : Bool) (value attr : Bytes)
    → (text_holds prefix ins value attr ≡ true) ↔ IsTextMatch prefix ins value attr
unfolding text_holds
prefix_iff ins value attr = (
  λ h.
      starts_with_sound (lowered ins value) (lowered ins attr)
        (sym (take-starts_with value attr ins) ∙ h),
  λ g.
      let (rest, e) = g in
      take-starts_with value attr ins
      ∙ ap (λ (t : Bytes). starts_with (lowered ins value) t) e
      ∙ starts_with-append (lowered ins value) rest,
)

substring_iff :
    (ins : Bool) (value attr : Bytes)
    → (text_holds substring ins value attr ≡ true) ↔ IsTextMatch substring ins value attr
unfolding text_holds
substring_iff ins value attr = (
  has_text_sound (lowered ins value) (lowered ins attr),
  λ g.
      let (front, rest, e) = g in
      ap (λ (t : Bytes). has_text (lowered ins value) t) e
      ∙ has_text-append (lowered ins value) front rest,
)

AnyWord-map :
    (P Q : Bytes → Type 0) (ws : List Bytes)
    → ((w : Bytes) → P w → Q w)
    → AnyWord P ws
    → AnyWord Q ws
AnyWord-map P Q [] f n = n
AnyWord-map P Q (w ∷ ws) f (inl p) = inl (f w p)
AnyWord-map P Q (w ∷ ws) f (inr r) = inr (AnyWord-map P Q ws f r)

include_iff :
    (ins : Bool) (value attr : Bytes)
    → (text_holds include ins value attr ≡ true) ↔ IsTextMatch include ins value attr
unfolding text_holds
include_iff ins value attr = (
  λ h.
      AnyWord-map _ _ (words attr) (λ w. (eq_iff ins w value).0)
        ((has_word_iff (λ w. eq ins w value) attr).0 h),
  λ g.
      (has_word_iff (λ w. eq ins w value) attr).1
        (AnyWord-map _ _ (words attr) (λ w. (eq_iff ins w value).1) g),
)

dash_rest :
    (start attr : Bytes) (ins : Bool) (rest : Bytes)
    → length start < length attr
    → lowered ins attr ≡ lowered ins start ++ rest
    → (c : ℕ) × (more : Bytes) × (lowered ins attr ≡ lowered ins start ++ (c ∷ more))
dash_rest start attr ins (c ∷ more) lt e = (c, more, e)
dash_rest start attr ins [] lt e = absurd (
    omega (
      arith,
      lt,
      sym (length-lowered ins attr)
          ∙ ap (λ (t : Bytes). length t) e
          ∙ length-append (lowered ins start) [],
      length-lowered ins start,
    ))

-- The second test of `dash`.
abbrev dash_test : Bool → Bytes → Bytes → Bool
dash_test ins start attr =
    ltb (length start) (length attr) && eq ins (take (length start) attr) start

dash_test_sound :
    (ins : Bool) (start attr : Bytes)
    → dash_test ins start attr ≡ true
    → (c : ℕ) × (more : Bytes) × (lowered ins attr ≡ lowered ins start ++ (c ∷ more))
dash_test_sound ins start attr h =
    let (lt, e) = both h in
    let (rest, q) = starts_with_sound (lowered ins start) (lowered ins attr) (
      sym (take-starts_with start attr ins)
      ∙ and_true {p = leb (length start) (length attr)} (ground arith) e) in
    dash_rest start attr ins rest (ltb→lt (length start) (length attr) lt) q

dash_test_complete :
    (ins : Bool) (start attr : Bytes) (c : ℕ) (more : Bytes)
    → lowered ins attr ≡ lowered ins start ++ (c ∷ more)
    → dash_test ins start attr ≡ true
dash_test_complete ins start attr c more e =
    let n =
      sym (length-lowered ins attr)
      ∙ ap (λ (t : Bytes). length t) e
      ∙ length-append (lowered ins start) (c ∷ more) in
    let m = length-lowered ins start in
    let lt : length start < length attr = omega (arith, n, m) in
    and_true (lt→ltb (length start) (length attr) lt) (
      (both {p = leb (length start) (length attr)} (
        take-starts_with start attr ins
        ∙ ap (λ (t : Bytes). starts_with (lowered ins start) t) e
        ∙ starts_with-append (lowered ins start) (c ∷ more))).1)

dash_iff :
    (ins : Bool) (value attr : Bytes)
    → (text_holds dash ins value attr ≡ true) ↔ IsTextMatch dash ins value attr
unfolding text_holds
dash_iff ins value attr = elim (Bool-cases (eq ins attr value)) [
  | inl p ↦ (λ h. inl ((eq_iff ins attr value).0 p), λ g. rw p refl)
  | inr p ↦ (
    λ h. inr (dash_test_sound ins (value ++ codes "-") attr (sym (rw p refl) ∙ h)),
    λ g. elim g [
      | inl e ↦ absurd (ground (arith, (eq_iff ins attr value).1 e))
      | inr (c, more, e) ↦ rw p (dash_test_complete ins (value ++ codes "-") attr c more e)
    ],
  )
]

equal_iff :
    (ins : Bool) (value attr : Bytes)
    → (text_holds equal ins value attr ≡ true) ↔ IsTextMatch equal ins value attr
unfolding text_holds
equal_iff ins value attr = bytes_eq_iff attr value

-- An attribute test with an operator and a value holds of an attribute's text exactly when: for `=`
-- the texts are equal; for `~=` a word of the text is; for `|=` the text is the value, or the value
-- with a dash and at least one more character behind it; for `^=`, `$=` and `*=` the value is a
-- prefix, a suffix or a part of the text. With the `i` modifier letters are lowered first, but not
-- for `=`.
pub text_holds_iff :
    (match : MatchKind) (ins : Bool) (value attr : Bytes)
    → (text_holds match ins value attr ≡ true) ↔ IsTextMatch match ins value attr
text_holds_iff equal = equal_iff
text_holds_iff include = include_iff
text_holds_iff dash = dash_iff
text_holds_iff prefix = prefix_iff
text_holds_iff suffix = suffix_iff
text_holds_iff substring = substring_iff

-- An element has a class exactly when the class is one of the words of its `class` attribute.
c_has_class_iff :
    (attr want : Bytes)
    → (c_has_class (some attr) want ≡ true) ↔ AnyWord (λ w. w ≡ want) (words attr)
unfolding c_has_class
c_has_class_iff attr want = (
  λ h.
      AnyWord-map _ _ (words attr) (λ w. (bytes_eq_iff w want).0)
        ((has_word_iff (λ w. bytes_eq w want) attr).0 h),
  λ g.
      (has_word_iff (λ w. bytes_eq w want) attr).1
        (AnyWord-map _ _ (words attr) (λ w. (bytes_eq_iff w want).1) g),
)
