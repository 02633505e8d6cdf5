-- ===== src/Channel/Mpsc/Refine/Leave.antt =====
use quickjs_runtime.Channel.Line.{
  farewell, line_close, recv_stopped, released, send_stopped, stop_slot, stop_waiting, waits,
  withdraw,
}
use quickjs_runtime.Channel.Mpsc.{
  Channel, close_channel, complete_closed, destroy_send, is_queued, on_stop_recv, on_stop_send,
  release, say, stop_parked, unlink_send,
}
use quickjs_runtime.Channel.Mpsc.Shape.{
  IsShaped, IsShapedOf, only_accepted-row, refusals-row, view, waits-row, withdraw-row,
}
use quickjs_runtime.Channel.Ring.{Ring, RingLaws}
use quickjs_runtime.Common.{
  Bool, List, Option, [], ap, false, if_holds, if◌then◌else◌, inl, inr, none, refl, some, true, ℕ,
  ◌-◌, ◌==◌, ◌∙◌, ◌∷◌, ◌≡◌,
}

-- Stopped and destroyed operations, and the close of a channel, of
-- include/dart_cpp_bridge/channel.hpp do what the line says.
if_ap {ℓ κ} :
    {A : Type ℓ} {B : Type κ} (f : A → B) (b : Bool) (x y : A)
    → f (if b then x else y) ≡ (if b then f x else f y)
if_ap f true x y = refl
if_ap f false x y = refl

module _ {A : Type 0} {R : Ring A} (L : RingLaws R) where
  stop_send_case :
      (op : ℕ) (s : Channel R) (b : Bool)
      → view L (
          if b
          then say R (record s { waiting = unlink_send R op s.waiting }) (send_stopped op ∷ [])
          else s)
        ≡ stop_waiting op (view L s) b
  unfolding view
  stop_send_case op s false = refl
  stop_send_case op s true = rw (withdraw-row R) refl

  pub stop_send_refines :
      (op : ℕ) (s : Channel R)
      → view L (on_stop_send R op s) ≡ stop_waiting op (view L s) (waits op (view L s).line)
  unfolding view
  stop_send_refines op s = rw (waits-row R) (stop_send_case op s (is_queued R op s.waiting))

  pub destroy_send_refines :
      (op : ℕ) (s : Channel R)
      → view L (destroy_send R op s) ≡ (let t = view L s in record t { line = withdraw op t.line })
  unfolding view
  destroy_send_refines op s = rw (withdraw-row R) refl

  stop_recv_case :
      (op : ℕ) (s : Channel R) (slot : Option ℕ)
      → view L (stop_parked R op s slot) ≡ stop_slot op (view L s) slot
  unfolding view
  stop_recv_case op s none = refl
  stop_recv_case op s (some r) =
      if_ap (view L) (r == op) (say R (record s { recv_slot = none }) (recv_stopped op ∷ [])) s

  pub stop_recv_refines :
      (op : ℕ) (s : Channel R)
      → view L (on_stop_recv R op s) ≡ stop_slot op (view L s) (view L s).slot
  unfolding view
  stop_recv_refines op s = stop_recv_case op s s.recv_slot

  complete_closed-farewell : (slot : Option ℕ) → complete_closed R slot ≡ farewell slot
  complete_closed-farewell none = refl
  complete_closed-farewell (some r) = refl

  pub close_refines : (s : Channel R) → view L (close_channel R s) ≡ line_close (view L s)
  unfolding view line_close
  close_refines s =
      if_ap (view L) s.closed s _
      ∙ rw (only_accepted-row, refusals-row R, complete_closed-farewell) refl

  pub release_refines : (s : Channel R) → view L (release R s) ≡ released (view L s)
  unfolding view
  release_refines s =
      let s' = record s { senders = s.senders - 1 } in
      if_ap (view L) (s.senders == 1) (close_channel R s') s'
      ∙ ap (λ t. if s.senders == 1 then t else view L s') (close_refines s')

  shaped_nil :
      (b : Bool) (q : Option R.Queue) (cap n : ℕ) (ws : List (ℕ × A))
      → IsShapedOf L b q cap n ws
      → IsShapedOf L b q cap n []
  shaped_nil false q cap n ws h = refl
  shaped_nil true none cap n ws h = h
  shaped_nil true (some q) cap n ws h = (h.0, h.1, h.2, h.3, inl refl)

  shaped_unlink :
      (op : ℕ) (b : Bool) (q : Option R.Queue) (cap n : ℕ) (ws : List (ℕ × A))
      → IsShapedOf L b q cap n ws
      → IsShapedOf L b q cap n (unlink_send R op ws)
  shaped_unlink op b q cap n [] h = h
  shaped_unlink op false q cap n (w ∷ ws) h = cc
  shaped_unlink op true none cap n (w ∷ ws) h = h
  shaped_unlink op true (some q) cap n (w ∷ ws) (h, z, c, le, inl e) = cc
  shaped_unlink op true (some q) cap n (w ∷ ws) (h, z, c, le, inr full) = (h, z, c, le, inr full)

  pub destroy_send-IsShaped :
      (op : ℕ) (s : Channel R) → IsShaped L s → IsShaped L (destroy_send R op s)
  unfolding IsShaped
  destroy_send-IsShaped op s h = shaped_unlink op s.bounded_mode s.bq s.capacity s.count s.waiting h

  pub stop_send-IsShaped :
      (op : ℕ) (s : Channel R) → IsShaped L s → IsShaped L (on_stop_send R op s)
  unfolding IsShaped
  stop_send-IsShaped op s h =
      if_holds (IsShaped L) (is_queued R op s.waiting) _ s (destroy_send-IsShaped op s h) h

  stop_parked-IsShaped :
      (op : ℕ) (s : Channel R) (slot : Option ℕ)
      → IsShaped L s
      → IsShaped L (stop_parked R op s slot)
  unfolding IsShaped
  stop_parked-IsShaped op s none h = h
  stop_parked-IsShaped op s (some r) h = if_holds (IsShaped L) (r == op) _ s h h

  pub stop_recv-IsShaped :
      (op : ℕ) (s : Channel R) → IsShaped L s → IsShaped L (on_stop_recv R op s)
  stop_recv-IsShaped op s h = stop_parked-IsShaped op s s.recv_slot h

  pub close-IsShaped : (s : Channel R) → IsShaped L s → IsShaped L (close_channel R s)
  unfolding IsShaped
  close-IsShaped s h =
      if_holds (IsShaped L) s.closed s _ h
        (shaped_nil s.bounded_mode s.bq s.capacity s.count s.waiting h)

  pub release-IsShaped : (s : Channel R) → IsShaped L s → IsShaped L (release R s)
  unfolding IsShaped
  release-IsShaped s h =
      if_holds (IsShaped L) (s.senders == 1) _ _
        (close-IsShaped (record s { senders = s.senders - 1 }) h) h
