-- ===== src/Channel/Ring.antt =====
use quickjs_runtime.Common.{List, Option, [], length, none, some, ℕ, ◌++◌, ◌<◌, ◌∷◌, ◌≡◌, ◌≤◌}

-- rigtorp::MPMCQueue, which is not part of the repository, as include/dart_cpp_bridge/channel.hpp
-- uses it: under the mutex of the channel, so one call at a time.

-- A queue of fixed size. `try_push` gives `none` where it returns false.
pub record Ring (A : Type 0) : Type 1 where
  pub Queue : Type 0
  pub new : ℕ → Queue
  pub try_push : A → Queue → Option Queue
  pub try_pop : Queue → Option (A × Queue)

-- What the queue's documentation promises: first in, first out, and room for as many values as its
-- size says.
pub record RingLaws {A : Type 0} (R : Ring A) : Type 0 where
  pub contents : R.Queue → List A
  pub size : R.Queue → ℕ
  pub contents_new : (n : ℕ) → contents (R.new n) ≡ []
  pub size_new : (n : ℕ) → size (R.new n) ≡ n
  pub push_room :
      (v : A) (q : R.Queue)
      → length (contents q) < size q
      → (q' : R.Queue) × (R.try_push v q ≡ some q')
        × (contents q' ≡ contents q ++ (v ∷ []))
        × (size q' ≡ size q)
  pub push_full : (v : A) (q : R.Queue) → size q ≤ length (contents q) → R.try_push v q ≡ none
  pub pop_empty : (q : R.Queue) → contents q ≡ [] → R.try_pop q ≡ none
  pub pop_head :
      (q : R.Queue) (v : A) (rest : List A)
      → contents q ≡ v ∷ rest
      → (q' : R.Queue) × (R.try_pop q ≡ some (v, q')) × (contents q' ≡ rest) × (size q' ≡ size q)
