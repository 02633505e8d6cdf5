-- ===== src/Channel/Mpsc/Refine/Recv.antt =====
use mathlib.Core.List.{append-nil}
use quickjs_runtime.Channel.Line.{
  Entry, accept_next, accepted, line_recv, line_try_recv, next_parked, parked, receive, received,
  said, tail_of, try_receive, value_of,
}
use quickjs_runtime.Channel.Mpsc.{
  Channel, Taken, channel_try_recv, finish_recv, recv_start, refill, say, take_bounded, take_parked,
  take_unbounded, take_value, wake,
}
use quickjs_runtime.Channel.Mpsc.Shape.{
  IsShaped, IsShapedOf, accept_next-row, accept_next-row_parked, buffered, next_parked-row,
  next_parked-row_parked, row, view,
}
use quickjs_runtime.Channel.Ring.{Ring, RingLaws}
use quickjs_runtime.Common.{
  Bool, List, Option, [], ap, arith, false, inl, inr, length, length-append, none, refl, some, sym,
  true, ℕ, ◌++◌, ◌∙◌, ◌∷◌, ◌≡◌, ◌⊎◌,
}

-- What a receive takes out of a state of include/dart_cpp_bridge/channel.hpp is the head of its line.
List-cases : {A : Type 0} (l : List A) → (l ≡ []) ⊎ ((x : A) × (rest : List A) × (l ≡ x ∷ rest))
List-cases [] = inl refl
List-cases (x ∷ rest) = inr (x, rest, refl)

full_of_waiting :
    {A : Type 0} (l : List A) (cap op : ℕ) (w : A) (ws : List (ℕ × A))
    → ((op, w) ∷ ws ≡ []) ⊎ (length l ≡ cap)
    → length l ≡ cap
full_of_waiting l cap op w ws (inl e) = cc
full_of_waiting l cap op w ws (inr full) = full

module _ {A : Type 0} {R : Ring A} (L : RingLaws R) where
  -- What is taken of a line: its head, or nothing of an empty one.
  abbrev IsHead : List (Entry A) → Channel R → Taken R → Type 0
  IsHead l s t =
      ((e : Entry A) × (rest : List (Entry A)) × (l ≡ e ∷ rest)
        × (t.out ≡ some (value_of e))
        × (wake R t.claimed ≡ next_parked (e ∷ rest))
        × (view L t.after ≡ record (view L s) { line = tail_of (accept_next (e ∷ rest)) })
        × IsShaped L t.after)
      ⊎ ((l ≡ []) × (t ≡ record { out = none; claimed = none; after = s }))

  take_unbounded-IsHead :
      (s : Channel R) (uq : List A)
      → let t = record s { bounded_mode = false; waiting = []; uq = uq } in
        IsHead (row uq []) t (take_unbounded R t uq)
  unfolding view IsShaped next_parked accept_next
  take_unbounded-IsHead s [] = inr (refl, refl)
  take_unbounded-IsHead s (v ∷ uq) =
      inl (accepted v, row uq [], refl, refl, sym (next_parked-row uq), rw accept_next-row, refl)

  take_parked-IsHead :
      (s : Channel R) (ws : List (ℕ × A))
      → s.capacity ≡ 0
      → s.count ≡ 0
      → let t = record s { bounded_mode = true; bq = none; waiting = ws } in
        IsHead (row [] ws) t (take_parked R t ws)
  unfolding view IsShaped next_parked accept_next
  take_parked-IsHead s [] e n = inr (refl, refl)
  take_parked-IsHead s ((op, v) ∷ ws) e n =
      inl (parked op v, row [] ws, refl, refl, refl, refl, (e, n))

  refill-IsHead :
      (s : Channel R) (q q' : R.Queue) (v : A) (rest : List A) (ws : List (ℕ × A))
      → L.contents q ≡ v ∷ rest
      → L.contents q' ≡ rest
      → L.size q' ≡ L.size q
      → IsShapedOf L true (some q) s.capacity s.count ws
      → let t = record s { bounded_mode = true; bq = some q; waiting = ws } in
        IsHead (row (L.contents q) ws) t (refill R v q' t ws)
  unfolding view IsShaped
  refill-IsHead s q q' v rest [] e e' z h =
      let lq = ap length e in
      let lq' = ap length e' in
      inl (
        accepted v,
        row rest [],
        rw e refl,
        refl,
        sym (next_parked-row (v ∷ rest)),
        rw (e', accept_next-row (v ∷ rest)),
        (h.0, z ∙ h.1, omega (arith, h.2, lq, lq'), omega (arith, h.3, lq, lq'), inl refl),
      )
  refill-IsHead s q q' v rest ((op, w) ∷ ws) e e' z h =
      let lq = ap length e in
      let lq' = ap length e' in
      let full = full_of_waiting (L.contents q) s.capacity op w ws h.4 in
      let (q'', pushes, holds, z') = L.push_room w q' (omega (arith, z, lq, lq', full, h.1)) in
      let lq'' = ap length holds ∙ length-append (L.contents q') (w ∷ []) in
      inl (
        accepted v,
        row rest ((op, w) ∷ ws),
        rw e refl,
        refl,
        sym (next_parked-row_parked (v ∷ rest) op w ws),
        rw (pushes, holds, e', accept_next-row_parked (v ∷ rest) op w ws),
        rw pushes (
          h.0,
          z' ∙ z ∙ h.1,
          omega (arith, h.2, lq, lq', lq''),
          omega (arith, h.3, lq, lq', lq''),
          inr (omega (arith, full, lq, lq', lq'')),
        ),
      )

  take_ring-IsHead :
      (s : Channel R) (q : R.Queue) (ws : List (ℕ × A))
      → IsShapedOf L true (some q) s.capacity s.count ws
      → let t = record s { bounded_mode = true; bq = some q; waiting = ws } in
        IsHead (row (L.contents q) ws) t (take_bounded R t (some q))
  take_ring-IsHead s q ws h = elim (List-cases (L.contents q)) [
    | inr (v, rest, e) ↦
        let (q', pops, e', z) = L.pop_head q v rest e in
        rw pops (refill-IsHead s q q' v rest ws e e' z h)
    | inl e ↦ elim h.4 [
      | inl none_wait ↦ inr (rw (e, none_wait) refl, rw (L.pop_empty q e, none_wait) refl)
      | inr full ↦ absurd (omega (arith, h.0, full, ap length e))
    ]
  ]

  take-IsHead :
      (s : Channel R) (b : Bool) (q : Option R.Queue) (uq : List A) (ws : List (ℕ × A))
      → IsShapedOf L b q s.capacity s.count ws
      → let t = record s { bounded_mode = b; bq = q; uq = uq; waiting = ws } in
        IsHead (row (buffered L b q uq) ws) t (take_value R t)
  take-IsHead s false q uq ws h = rw h (take_unbounded-IsHead (record s { bq = q }) uq)
  take-IsHead s true none uq ws h = take_parked-IsHead (record s { uq = uq }) ws h.0 h.1
  take-IsHead s true (some q) uq ws h = take_ring-IsHead (record s { uq = uq }) q ws h

  recv_empty :
      (op : ℕ) (s : Channel R) (closed : Bool) (slot : Option ℕ)
      → let t = record s { closed = closed; recv_slot = slot } in
        view L (finish_recv R op t none none) ≡ receive op (view L t) []
  unfolding view
  recv_empty op s true slot = rw append-nil refl
  recv_empty op s false (some r) = rw append-nil refl
  recv_empty op s false none = rw append-nil refl

  recv_of_head :
      (op : ℕ) (s : Channel R) (l : List (Entry A)) (t : Taken R)
      → IsHead l s t
      → view L (finish_recv R op t.after t.claimed t.out) ≡ receive op (view L s) l
  unfolding view
  recv_of_head op s l t (inl (e, rest, el, out, woken, after, _)) =
      rw (el, out, woken)
        (ap (λ t. said t (next_parked (e ∷ rest) ++ (received op (some (value_of e)) ∷ []))) after)
  recv_of_head op s l t (inr (el, et)) = rw (el, et) (recv_empty op s s.closed s.recv_slot)

  pub recv_refines :
      (op : ℕ) (s : Channel R)
      → IsShaped L s
      → view L (recv_start R false op s) ≡ line_recv op (view L s)
  unfolding IsShaped view line_recv
  recv_refines op s h =
      recv_of_head op s (view L s).line (take_value R s)
        (take-IsHead s s.bounded_mode s.bq s.uq s.waiting h)

  try_recv_of_head :
      (op : ℕ) (s : Channel R) (l : List (Entry A)) (t : Taken R)
      → IsHead l s t
      → view L (say R t.after (wake R t.claimed ++ (received op t.out ∷ [])))
        ≡ try_receive op (view L s) l
  unfolding view
  try_recv_of_head op s l t (inl (e, rest, el, out, woken, after, _)) =
      rw (el, out, woken)
        (ap (λ t. said t (next_parked (e ∷ rest) ++ (received op (some (value_of e)) ∷ []))) after)
  try_recv_of_head op s l t (inr (el, et)) = rw (el, et) refl

  pub try_recv_refines :
      (op : ℕ) (s : Channel R)
      → IsShaped L s
      → view L (channel_try_recv R op s) ≡ line_try_recv op (view L s)
  unfolding IsShaped view
  try_recv_refines op s h =
      try_recv_of_head op s (view L s).line (take_value R s)
        (take-IsHead s s.bounded_mode s.bq s.uq s.waiting h)

  taken-IsShaped :
      (s : Channel R) (l : List (Entry A)) (t : Taken R)
      → IsShaped L s
      → IsHead l s t
      → IsShaped L t.after
  taken-IsShaped s l t h (inl (_, _, _, _, _, _, shaped)) = shaped
  taken-IsShaped s l t h (inr (_, et)) = rw et h

  pub take-IsShaped : (s : Channel R) → IsShaped L s → IsShaped L (take_value R s).after
  unfolding IsShaped view
  take-IsShaped s h =
      taken-IsShaped s (view L s).line (take_value R s) h
        (take-IsHead s s.bounded_mode s.bq s.uq s.waiting h)

  -- The fields that the completions of a receive change are not those of the shape.
  finish-IsShaped :
      (op : ℕ) (s : Channel R) (claimed : Option ℕ) (out : Option A) (closed : Bool)
      (slot : Option ℕ)
      → IsShaped L s
      → IsShaped L (finish_recv R op (record s { closed = closed; recv_slot = slot }) claimed out)
  unfolding IsShaped
  finish-IsShaped op s claimed (some v) closed slot h = h
  finish-IsShaped op s claimed none true slot h = h
  finish-IsShaped op s claimed none false (some r) h = h
  finish-IsShaped op s claimed none false none h = h

  pub recv-IsShaped : (op : ℕ) (s : Channel R) → IsShaped L s → IsShaped L (recv_start R false op s)
  recv-IsShaped op s h =
      let t = take_value R s in
      finish-IsShaped op t.after t.claimed t.out t.after.closed t.after.recv_slot
        (take-IsShaped s h)

  pub try_recv-IsShaped :
      (op : ℕ) (s : Channel R) → IsShaped L s → IsShaped L (channel_try_recv R op s)
  unfolding IsShaped
  try_recv-IsShaped op s h = take-IsShaped s h
