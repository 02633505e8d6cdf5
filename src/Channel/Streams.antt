-- ===== src/Channel/Streams.antt =====
-- include/dart_cpp_bridge/stream.hpp: `co::stream::Stream`, its adapters and its terminators. A stream
-- is its state and what one `next()` gives and leaves; `none` is the end.
pub mod Lists
pub mod Pipeline
use quickjs_runtime.Common.{
  Bool, List, Option, [], false, if◌then◌else◌, none, not, some, suc, true, zero, ℕ, ◌++◌, ◌+◌, ◌∷◌,
}

pub record Stream (A : Type 0) : Type 1 where
  pub State : Type 0
  pub now : State
  pub next : State → Option A × State

module _ {A : Type 0} where
  -- `values` from `pos` on.
  abbrev pub vector_next : List A → Option A × List A
  vector_next [] = (none, [])
  vector_next (v ∷ values) = (some v, values)

  abbrev pub from_vector : List A → Stream A
  from_vector values = record { State = List A; now = values; next = vector_next }

  abbrev pub once : A → Stream A
  once value = from_vector (value ∷ [])

  abbrev pub mapped : {B : Type 0} → (A → B) → Option A → Option B
  mapped f none = none
  mapped f (some v) = some (f v)

module _ {A S : Type 0} where
  abbrev pub kept_or : (A → Bool) → Option A × S → (S → Option A × S) → Option A × S
  kept_or f (none, s) again = (none, s)
  kept_or f (some v, s) again = let rest = again s in if f v then (some v, s) else rest

  abbrev pub skipped_or : Option A × S → (S → Option A × S) → Option A × S
  skipped_or (none, s) again = (none, s)
  skipped_or (some v, s) again = again s

  abbrev pub while_true : (A → Bool) → Option A × S → Option A × (S × Bool)
  while_true f (none, s) = (none, (s, true))
  while_true f (some v, s) = if f v then (some v, (s, false)) else (none, (s, true))

  abbrev pub scanned : {B : Type 0} → (B → A → B) → B → Option A × S → Option B × (S × B)
  scanned f acc (none, s) = (none, (s, acc))
  scanned f acc (some v, s) = (some (f acc v), (s, f acc v))

  abbrev pub folded : {B : Type 0} → (B → A → B) → B → Option A × S → (B → S → B) → B
  folded f acc (none, s) again = acc
  folded f acc (some v, s) again = again (f acc v) s

module _ {A S : Type 0} (next : S → Option A × S) where
  abbrev pub map_next : {B : Type 0} → (A → B) → S → Option B × S
  map_next f s = (mapped f (next s).0, (next s).1)

  -- The loop of `filter`, for so many turns at most.
  unfoldable pub filter_next : ℕ → (A → Bool) → S → Option A × S
  filter_next zero f s = (none, s)
  filter_next (suc n) f s = kept_or f (next s) (filter_next n f)

  abbrev pub take_next : S × ℕ → Option A × (S × ℕ)
  take_next (s, zero) = (none, (s, zero))
  take_next (s, suc remaining) = ((next s).0, ((next s).1, remaining))

  -- The first pull: `remaining` values are dropped, then one is given.
  unfoldable pub skip_first : ℕ → S → Option A × S
  skip_first zero s = next s
  skip_first (suc remaining) s = skipped_or (next s) (skip_first remaining)

  abbrev pub skip_next : ℕ → S × Bool → Option A × (S × Bool)
  skip_next remaining (s, true) = ((next s).0, ((next s).1, true))
  skip_next remaining (s, false) = ((skip_first remaining s).0, ((skip_first remaining s).1, true))

  -- The flag is `done`.
  abbrev pub take_while_next : (A → Bool) → S × Bool → Option A × (S × Bool)
  take_while_next f (s, true) = (none, (s, true))
  take_while_next f (s, false) = while_true f (next s)

  -- The flag is `skipping`; its loop drops as long as `f` holds.
  abbrev pub skip_while_next : ℕ → (A → Bool) → S × Bool → Option A × (S × Bool)
  skip_while_next n f (s, false) = ((next s).0, ((next s).1, false))
  skip_while_next n f (s, true) = let r = filter_next n (λ v. not (f v)) s in (r.0, (r.1, false))

  abbrev pub scan_next : {B : Type 0} → (B → A → B) → S × B → Option B × (S × B)
  scan_next f (s, acc) = scanned f acc (next s)

  -- The loop of the terminators, for so many turns at most.
  unfoldable pub fold : {B : Type 0} → ℕ → (B → A → B) → B → S → B
  fold zero f acc s = acc
  fold (suc n) f acc s = folded f acc (next s) (fold n f)

  abbrev pub collect : ℕ → S → List A
  collect n s = fold n (λ out v. out ++ (v ∷ [])) [] s

  abbrev pub count : ℕ → S → ℕ
  count n s = fold n (λ total v. total + 1) 0 s

module _ {A B S T : Type 0} where
  abbrev pub paired : A → S → Option B × T → Option (A × B) × (S × T)
  paired a s (none, t) = (none, (s, t))
  paired a s (some v, t) = (some (a, v), (s, t))

  abbrev pub zipped : Option A × S → T → (T → Option B × T) → Option (A × B) × (S × T)
  zipped (none, s) t next = (none, (s, t))
  zipped (some a, s) t next = paired a s (next t)

module _ {A S T : Type 0} (first : S → Option A × S) (second : T → Option A × T) where
  abbrev pub merge_pull : S → T → Bool → Option A × (S × T)
  merge_pull s t true = ((first s).0, ((first s).1, t))
  merge_pull s t false = ((second t).0, (s, (second t).1))

  abbrev pub fall_back : Bool → Option A × (S × T) → Option A × (S × T × Bool)
  fall_back b (some v, (s, t)) = (some v, (s, t, b))
  fall_back b (none, (s, t)) = let r = merge_pull s t (not b) in (r.0, (r.1.0, r.1.1, b))

  -- The flag is `pull_first`, which is turned before it is looked at.
  abbrev pub merge_next : S × T × Bool → Option A × (S × T × Bool)
  merge_next (s, t, pull_first) = fall_back (not pull_first) (merge_pull s t (not pull_first))
