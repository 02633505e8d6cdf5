-- ===== src/Channel/Mpsc/Refine/Send.antt =====
-- A send of include/dart_cpp_bridge/channel.hpp does what the line says.
use native.Mathlib.Decide.{dec_lt}
use quickjs_runtime.Channel.Line.{join_line, line_send}
use quickjs_runtime.Channel.Mpsc.{Channel, buffer_or_park, queue_send}
use quickjs_runtime.Channel.Mpsc.Run.{start_send}
use quickjs_runtime.Channel.Mpsc.Shape.{
  IsShaped, IsShapedOf, buffered, length-row, row, row-accept, row-park, view,
}
use quickjs_runtime.Channel.Ring.{Ring, RingLaws}
use quickjs_runtime.Common.{
  Bool, List, Option, [], ap, arith, false, inl, inr, length, length-append, ltb, lt→ltb, none,
  refl, some, true, ℕ, ◌∙◌, ◌∷◌, ◌≡◌, ◌≤◌,
}

ge→ltb : (a b : ℕ) → b ≤ a → ltb a b ≡ false
ge→ltb a b h = ground arith

module _ {A : Type 0} {R : Ring A} (L : RingLaws R) where
  -- A state with the fields that a proof splits on written out.
  abbrev with_buffer : Channel R → Bool → Option R.Queue → List (ℕ × A) → Channel R
  with_buffer s b q ws = record s { bounded_mode = b; bq = q; waiting = ws }

  park_refines :
      (op : ℕ) (v : A) (s : Channel R) (q : Option R.Queue) (ws : List (ℕ × A))
      → s.capacity ≤ length (buffered L true q s.uq)
      → let t = with_buffer s true q ws in
        view L (queue_send R op v t)
        ≡ join_line op v (view L t) (ltb (length (row (buffered L true q s.uq) ws)) s.capacity)
  unfolding view
  park_refines op v s q ws full = rw (
    ge→ltb (length (row (buffered L true q s.uq) ws)) s.capacity
        (omega (arith, full, length-row (buffered L true q s.uq) ws)),
    row-park,
  )

  push_refines :
      (op : ℕ) (v : A) (s : Channel R) (q : R.Queue) (ws : List (ℕ × A))
      → IsShapedOf L true (some q) s.capacity s.count ws
      → let t = with_buffer s true (some q) ws in
        view L (buffer_or_park R op v t (some q))
        ≡ join_line op v (view L t) (ltb (length (row (L.contents q) ws)) s.capacity)
  unfolding view
  push_refines op v s q ws h = elim (dec_lt (length (L.contents q)) s.capacity) [
    | no ge ↦
        rw (L.push_full v q (omega (arith, h.1)), park_refines op v s (some q) ws (omega arith))
    | yes lt ↦ elim h.4 [
      | inr full ↦ absurd (omega (arith, full))
      | inl e ↦
          let (q', pushes, holds, _) = L.push_room v q (omega (arith, h.1)) in
          rw (
            e,
            pushes,
            holds,
            lt→ltb (length (row (L.contents q) [])) s.capacity
                (omega (arith, length-row (L.contents q) [])),
            row-accept,
          )
    ]
  ]

  send_case :
      (op : ℕ) (v : A) (s : Channel R) (b : Bool) (q : Option R.Queue) (ws : List (ℕ × A))
      (slot : Option ℕ) (closed : Bool)
      → IsShapedOf L b q s.capacity s.count ws
      → let t = record (with_buffer s b q ws) { recv_slot = slot; closed = closed } in
        view L (start_send R op v t) ≡ line_send op v (view L t)
  unfolding view line_send
  send_case op v s false q ws slot true h = refl
  send_case op v s true q ws slot true h = refl
  send_case op v s false q ws (some r) false h = refl
  send_case op v s true q ws (some r) false h = refl
  send_case op v s false q ws none false h = rw (h, row-accept)
  send_case op v s true none ws none false h =
      park_refines op v (record s { closed = false; recv_slot = none }) none ws (omega (arith, h.0))
  send_case op v s true (some q) ws none false h =
      push_refines op v (record s { closed = false; recv_slot = none }) q ws h

  pub send_refines :
      (op : ℕ) (v : A) (s : Channel R)
      → IsShaped L s
      → view L (start_send R op v s) ≡ line_send op v (view L s)
  unfolding IsShaped
  send_refines op v s h = send_case op v s s.bounded_mode s.bq s.waiting s.recv_slot s.closed h

  push-IsShaped :
      (op : ℕ) (v : A) (s : Channel R) (q : R.Queue) (ws : List (ℕ × A))
      → IsShapedOf L true (some q) s.capacity s.count ws
      → IsShaped L (buffer_or_park R op v (with_buffer s true (some q) ws) (some q))
  unfolding IsShaped
  push-IsShaped op v s q ws h = elim (dec_lt (length (L.contents q)) s.capacity) [
    | no ge ↦
        rw (L.push_full v q (omega (arith, h.1))) (h.0, h.1, h.2, h.3, inr (omega (arith, h.3)))
    | yes lt ↦ elim h.4 [
      | inr full ↦ absurd (omega (arith, full))
      | inl e ↦
          let (q', pushes, holds, z) = L.push_room v q (omega (arith, h.1)) in
          let longer = ap length holds ∙ length-append (L.contents q) (v ∷ []) in
          rw pushes (h.0, z ∙ h.1, omega (arith, h.2, longer), omega (arith, longer), inl e)
    ]
  ]

  send_case-IsShaped :
      (op : ℕ) (v : A) (s : Channel R) (b : Bool) (q : Option R.Queue) (ws : List (ℕ × A))
      (slot : Option ℕ) (closed : Bool)
      → IsShapedOf L b q s.capacity s.count ws
      → IsShaped L
          (start_send R op v (record (with_buffer s b q ws) { recv_slot = slot; closed = closed }))
  unfolding IsShaped
  send_case-IsShaped op v s false q ws slot true h = h
  send_case-IsShaped op v s true q ws slot true h = h
  send_case-IsShaped op v s false q ws (some r) false h = h
  send_case-IsShaped op v s true q ws (some r) false h = h
  send_case-IsShaped op v s false q ws none false h = h
  send_case-IsShaped op v s true none ws none false h = h
  send_case-IsShaped op v s true (some q) ws none false h =
      push-IsShaped op v (record s { closed = false; recv_slot = none }) q ws h

  pub send-IsShaped :
      (op : ℕ) (v : A) (s : Channel R) → IsShaped L s → IsShaped L (start_send R op v s)
  unfolding IsShaped
  send-IsShaped op v s h =
      send_case-IsShaped op v s s.bounded_mode s.bq s.waiting s.recv_slot s.closed h
