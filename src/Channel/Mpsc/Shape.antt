-- ===== src/Channel/Mpsc/Shape.antt =====
use quickjs_runtime.Channel.Line.{
  Entry, Line, accept_next, accepted, next_parked, only_accepted, parked, refusals, sent, waits,
  withdraw,
}
use quickjs_runtime.Channel.Mpsc.{Channel, complete_pending, is_queued, unlink_send}
use quickjs_runtime.Channel.Ring.{Ring, RingLaws}
use quickjs_runtime.Common.{
  Bool, List, Option, [], ap, arith, false, length, none, refl, some, true, ℕ, ◌++◌, ◌+◌, ◌<◌, ◌==◌,
  ◌||◌, ◌∷◌, ◌≡◌, ◌≤◌, ◌⊎◌,
}

-- The line of values that a state of include/dart_cpp_bridge/channel.hpp stands for, and which states
-- a channel reaches.
module _ {A : Type 0} where
  -- The buffered values, then those of the parked sends.
  abbrev pub row : List A → List (ℕ × A) → List (Entry A)
  row [] [] = []
  row [] ((op, v) ∷ ws) = parked op v ∷ row [] ws
  row (v ∷ l) ws = accepted v ∷ row l ws

  pub row-park :
      (l : List A) (ws : List (ℕ × A)) (op : ℕ) (v : A)
      → row l ws ++ (parked op v ∷ []) ≡ row l (ws ++ ((op, v) ∷ []))
  row-park [] [] op v = refl
  row-park [] (w ∷ ws) op v = ap (λ t. parked w.0 w.1 ∷ t) (row-park [] ws op v)
  row-park (x ∷ l) ws op v = ap (λ t. accepted x ∷ t) (row-park l ws op v)

  pub row-accept : (l : List A) (v : A) → row l [] ++ (accepted v ∷ []) ≡ row (l ++ (v ∷ [])) []
  row-accept [] v = refl
  row-accept (x ∷ l) v = ap (λ t. accepted x ∷ t) (row-accept l v)

  pub accept_next-row : (l : List A) → accept_next (row l []) ≡ row l []
  unfolding accept_next
  accept_next-row [] = refl
  accept_next-row (x ∷ l) = ap (λ t. accepted x ∷ t) (accept_next-row l)

  pub next_parked-row : (l : List A) → next_parked (row l []) ≡ []
  unfolding next_parked
  next_parked-row [] = refl
  next_parked-row (x ∷ l) = next_parked-row l

  pub accept_next-row_parked :
      (l : List A) (op : ℕ) (v : A) (ws : List (ℕ × A))
      → accept_next (row l ((op, v) ∷ ws)) ≡ row (l ++ (v ∷ [])) ws
  unfolding accept_next
  accept_next-row_parked [] op v ws = refl
  accept_next-row_parked (x ∷ l) op v ws =
      ap (λ t. accepted x ∷ t) (accept_next-row_parked l op v ws)

  pub next_parked-row_parked :
      (l : List A) (op : ℕ) (v : A) (ws : List (ℕ × A))
      → next_parked (row l ((op, v) ∷ ws)) ≡ sent op true ∷ []
  unfolding next_parked
  next_parked-row_parked [] op v ws = refl
  next_parked-row_parked (x ∷ l) op v ws = next_parked-row_parked l op v ws

  pub length-row : (l : List A) (ws : List (ℕ × A)) → length (row l ws) ≡ length l + length ws
  length-row [] [] = refl
  length-row [] (w ∷ ws) = omega (arith, length-row [] ws)
  length-row (x ∷ l) ws = omega (arith, length-row l ws)

  pub only_accepted-row : (l : List A) (ws : List (ℕ × A)) → only_accepted (row l ws) ≡ row l []
  unfolding only_accepted
  only_accepted-row [] [] = refl
  only_accepted-row [] (w ∷ ws) = only_accepted-row [] ws
  only_accepted-row (x ∷ l) ws = ap (λ t. accepted x ∷ t) (only_accepted-row l ws)

module _ {A : Type 0} (R : Ring A) where
  pub refusals-row : (l : List A) (ws : List (ℕ × A)) → refusals (row l ws) ≡ complete_pending R ws
  unfolding refusals
  refusals-row [] [] = refl
  refusals-row [] (w ∷ ws) = ap (λ t. sent w.0 false ∷ t) (refusals-row [] ws)
  refusals-row (x ∷ l) ws = refusals-row l ws

  pub waits-row :
      (op : ℕ) (l : List A) (ws : List (ℕ × A)) → waits op (row l ws) ≡ is_queued R op ws
  unfolding waits
  waits-row op [] [] = refl
  waits-row op [] (w ∷ ws) = ap (λ t. w.0 == op || t) (waits-row op [] ws)
  waits-row op (x ∷ l) ws = waits-row op l ws

  pub withdraw-row :
      (op : ℕ) (l : List A) (ws : List (ℕ × A))
      → withdraw op (row l ws) ≡ row l (unlink_send R op ws)
  unfolding withdraw
  withdraw-row op [] [] = refl
  withdraw-row op [] (w ∷ ws) = ground (arith, withdraw-row op [] ws)
  withdraw-row op (x ∷ l) ws = ap (λ t. accepted x ∷ t) (withdraw-row op l ws)

module _ {A : Type 0} {R : Ring A} (L : RingLaws R) where
  abbrev pub buffered : Bool → Option R.Queue → List A → List A
  buffered false b uq = uq
  buffered true none uq = []
  buffered true (some q) uq = L.contents q

  abbrev pub limit_of : Bool → ℕ → Option ℕ
  limit_of false cap = none
  limit_of true cap = some cap

  unfoldable pub view : Channel R → Line A
  view s = record {
    line = row (buffered s.bounded_mode s.bq s.uq) s.waiting;
    limit = limit_of s.bounded_mode s.capacity;
    slot = s.recv_slot;
    senders = s.senders;
    closed = s.closed;
    log = s.log;
  }

  -- A send waits only while the buffer is full, and `count` counts it.
  abbrev pub IsShapedOf : Bool → Option R.Queue → ℕ → ℕ → List (ℕ × A) → Type 0
  IsShapedOf false b cap n ws = ws ≡ []
  IsShapedOf true none cap n ws = (cap ≡ 0) × (n ≡ 0)
  IsShapedOf true (some q) cap n ws =
      (0 < cap)
      × (L.size q ≡ cap)
      × (n ≡ length (L.contents q))
      × (length (L.contents q) ≤ cap)
      × ((ws ≡ []) ⊎ (length (L.contents q) ≡ cap))

  unfoldable pub IsShaped : Channel R → Type 0
  IsShaped s = IsShapedOf s.bounded_mode s.bq s.capacity s.count s.waiting
