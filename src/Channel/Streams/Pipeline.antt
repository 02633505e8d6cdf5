-- ===== src/Channel/Streams/Pipeline.antt =====
use native.Mathlib.Nat.{zero-add}
use quickjs_runtime.Channel.Streams.{
  Stream, collect, count, filter_next, fold, from_vector, map_next, scan_next, skip_first,
  skip_next, skip_while_next, take_next, take_while_next,
}
use quickjs_runtime.Channel.Streams.Lists.{
  Gives, first-Gives, fold-Gives, fold_list-collect, fold_list-count, from_first, keep-Gives,
  keep_if, length-from_first, length-keep_if, length-scan, length-take_while, map-Gives, scan,
  scan-Gives, skip_first-Gives, skipped_while-Gives, skipping-Gives, take-Gives, take_while,
  take_while-Gives, vector-Gives,
}
use quickjs_runtime.Common.{
  Bool, List, [], arith, drop, false, length, length-drop, length-map, length-take, map, not, suc,
  take, true, zero, ℕ, ◌++◌, ◌+◌, ◌<◌, ◌∙◌, ◌∷◌, ◌≡◌, ◌≤◌,
}

-- Chains of those adapters of include/dart_cpp_bridge/stream.hpp that have one stream below them and
-- keep the type of its values, as a list of stages.
pub data Stage (A : Type 0) : Type 0 where
  mapping : (A → A) → Stage A
  filtering taking_while skipping_while : (A → Bool) → Stage A
  taking skipping : ℕ → Stage A
  scanning : (A → A → A) → A → Stage A

module _ {A : Type 0} where
  -- The adapter of a stage; `turns` bounds the loops of `filter` and `skip_while`.
  abbrev pub adapt : ℕ → Stage A → Stream A → Stream A
  adapt turns (mapping f) up = record { State = up.State; now = up.now; next = map_next up.next f }
  adapt turns (filtering f) up = record {
    State = up.State;
    now = up.now;
    next = filter_next up.next turns f;
  }
  adapt turns (taking_while f) up = record {
    State = up.State × Bool;
    now = (up.now, false);
    next = take_while_next up.next f;
  }
  adapt turns (skipping_while f) up = record {
    State = up.State × Bool;
    now = (up.now, true);
    next = skip_while_next up.next turns f;
  }
  adapt turns (taking n) up = record {
    State = up.State × ℕ;
    now = (up.now, n);
    next = take_next up.next;
  }
  adapt turns (skipping n) up = record {
    State = up.State × Bool;
    now = (up.now, false);
    next = skip_next up.next n;
  }
  adapt turns (scanning f acc) up = record {
    State = up.State × A;
    now = (up.now, acc);
    next = scan_next up.next f;
  }

  -- What the stage does to a list.
  abbrev pub on_list : Stage A → List A → List A
  on_list (mapping f) l = map f l
  on_list (filtering f) l = keep_if f l
  on_list (taking_while f) l = take_while f l
  on_list (skipping_while f) l = from_first (λ v. not (f v)) l
  on_list (taking n) l = take n l
  on_list (skipping n) l = drop n l
  on_list (scanning f acc) l = scan f acc l

  unfoldable pub built : ℕ → List (Stage A) → Stream A → Stream A
  built turns [] up = up
  built turns (stage ∷ stages) up = built turns stages (adapt turns stage up)

  unfoldable pub on_lists : List (Stage A) → List A → List A
  on_lists [] l = l
  on_lists (stage ∷ stages) l = on_lists stages (on_list stage l)

  abbrev StreamGives : Stream A → List A → Type 0
  StreamGives st l = Gives st.next (st.next st.now) l

  adapt-StreamGives :
      (m : ℕ) (stage : Stage A) (up : Stream A) (l : List A)
      → length l ≤ m
      → StreamGives up l
      → StreamGives (adapt (suc m) stage up) (on_list stage l)
  adapt-StreamGives m (mapping f) up l a h = map-Gives up.next f (up.next up.now) l h
  adapt-StreamGives m (filtering f) up l a h =
      unfold filter_next in keep-Gives up.next m m f (up.next up.now) l a a h
  adapt-StreamGives m (taking_while f) up l a h = take_while-Gives up.next f (up.next up.now) l h
  adapt-StreamGives m (skipping_while f) up l a h =
      skipped_while-Gives up.next (suc m) f (filter_next up.next (suc m) (λ v. not (f v)) up.now)
        (from_first (λ v. not (f v)) l)
        (unfold filter_next in first-Gives up.next m (λ v. not (f v)) (up.next up.now) l a h)
  adapt-StreamGives m (taking n) up l a h = take-Gives up.next up.now n l h
  adapt-StreamGives m (skipping zero) up l a h =
      unfold skip_first in skipping-Gives up.next 0 (up.next up.now) l h
  adapt-StreamGives m (skipping (suc n)) up l a h =
      skipping-Gives up.next (suc n) (skip_first up.next (suc n) up.now) (drop (suc n) l)
        (unfold skip_first in skip_first-Gives up.next n (up.next up.now) l h)
  adapt-StreamGives m (scanning f acc) up l a h = scan-Gives up.next f acc (up.next up.now) l h

  -- No stage makes a list longer.
  length-on_list :
      (stage : Stage A) (l : List A) (m : ℕ) → length l ≤ m → length (on_list stage l) ≤ m
  length-on_list (mapping f) l m h = omega (arith, length-map l f)
  length-on_list (filtering f) l m h = omega (arith, length-keep_if f l)
  length-on_list (taking_while f) l m h = omega (arith, length-take_while f l)
  length-on_list (skipping_while f) l m h = omega (arith, length-from_first (λ v. not (f v)) l)
  length-on_list (taking n) l m h = omega (arith, length-take n l)
  length-on_list (skipping n) l m h = omega (arith, length-drop n l)
  length-on_list (scanning f acc) l m h = omega (arith, length-scan f acc l)

  built-StreamGives :
      (m : ℕ) (stages : List (Stage A)) (up : Stream A) (l : List A)
      → length l ≤ m
      → StreamGives up l
      → StreamGives (built (suc m) stages up) (on_lists stages l) × (length (on_lists stages l) ≤ m)
  unfolding built on_lists
  built-StreamGives m [] up l a h = (h, a)
  built-StreamGives m (stage ∷ stages) up l a h =
      built-StreamGives m stages (adapt (suc m) stage up) (on_list stage l)
        (length-on_list stage l m a) (adapt-StreamGives m stage up l a h)

  -- A chain of `map`, `filter`, `take_while`, `skip_while`, `take`, `skip` and `scan`, in any order and
  -- number, each from values of one type to values of that type, on the stream of a vector: collected,
  -- it is what the list functions of its stages make of the vector, `count` is its length, and one turn
  -- more than the vector has values is enough for every loop.
  pub built_collects :
      (turns : ℕ) (stages : List (Stage A)) (values : List A)
      → length values < turns
      → let st = built turns stages (from_vector values) in
        (collect st.next turns st.now ≡ on_lists stages values)
        × (count st.next turns st.now ≡ length (on_lists stages values))
  built_collects zero stages values h = absurd (omega arith)
  built_collects (suc m) stages values h =
      let st = built (suc m) stages (from_vector values) in
      let (gives, small) =
        built-StreamGives m stages (from_vector values) values (omega arith)
          (vector-Gives values) in
      unfold fold in
      (
        fold-Gives st.next m (λ out v. out ++ (v ∷ [])) [] (st.next st.now) (on_lists stages values)
              small gives
            ∙ fold_list-collect [] (on_lists stages values),
        fold-Gives st.next m (λ total v. total + 1) 0 (st.next st.now) (on_lists stages values)
              small gives
            ∙ fold_list-count 0 (on_lists stages values)
            ∙ zero-add (length (on_lists stages values)),
      )
