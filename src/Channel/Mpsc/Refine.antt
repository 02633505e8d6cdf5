-- ===== src/Channel/Mpsc/Refine.antt =====
-- The steps of a channel of include/dart_cpp_bridge/channel.hpp are the steps of its line.
pub mod Send
pub mod Recv
pub mod Leave
use quickjs_runtime.Channel.Line.{
  Event, clone_sender, close, drop_receiver, drop_recv, drop_send, line_run, line_step, open_line,
  recv, release_sender, send, stop_recv, stop_send, stopped_recv, stopped_send, try_recv,
}
use quickjs_runtime.Channel.Mpsc.{Channel, bounded, opened}
use quickjs_runtime.Channel.Mpsc.Refine.Leave.{
  close-IsShaped, close_refines, destroy_send-IsShaped, destroy_send_refines, release-IsShaped,
  release_refines, stop_recv-IsShaped, stop_recv_refines, stop_send-IsShaped, stop_send_refines,
}
use quickjs_runtime.Channel.Mpsc.Refine.Recv.{
  recv-IsShaped, recv_refines, try_recv-IsShaped, try_recv_refines,
}
use quickjs_runtime.Channel.Mpsc.Refine.Send.{send-IsShaped, send_refines}
use quickjs_runtime.Channel.Mpsc.Run.{run, step}
use quickjs_runtime.Channel.Mpsc.Shape.{IsShaped, view}
use quickjs_runtime.Channel.Ring.{Ring, RingLaws}
use quickjs_runtime.Common.{
  List, Option, [], ap, arith, inl, length, lt→ltb, none, refl, some, suc, zero, ℕ, ◌<◌, ◌∙◌, ◌∷◌,
  ◌≡◌,
}

module _ {A : Type 0} {R : Ring A} (L : RingLaws R) where
  pub step_refines :
      (e : Event A) (s : Channel R) → IsShaped L s → view L (step R e s) ≡ line_step e (view L s)
  unfolding step
  step_refines (send op v) s h = send_refines L op v s h
  step_refines (stopped_send op v) s h = unfold view in refl
  step_refines (stop_send op) s h = stop_send_refines L op s
  step_refines (drop_send op) s h = destroy_send_refines L op s
  step_refines (recv op) s h = recv_refines L op s h
  step_refines (stopped_recv op) s h = unfold view in refl
  step_refines (try_recv op) s h = try_recv_refines L op s h
  step_refines (stop_recv op) s h = stop_recv_refines L op s
  step_refines (drop_recv op) s h = unfold view in refl
  step_refines clone_sender s h = unfold view in refl
  step_refines release_sender s h = release_refines L s
  step_refines drop_receiver s h = close_refines L s
  step_refines close s h = close_refines L s

  pub step-IsShaped : (e : Event A) (s : Channel R) → IsShaped L s → IsShaped L (step R e s)
  unfolding step
  step-IsShaped (send op v) s h = send-IsShaped L op v s h
  step-IsShaped (stopped_send op v) s h = unfold IsShaped in h
  step-IsShaped (stop_send op) s h = stop_send-IsShaped L op s h
  step-IsShaped (drop_send op) s h = destroy_send-IsShaped L op s h
  step-IsShaped (recv op) s h = recv-IsShaped L op s h
  step-IsShaped (stopped_recv op) s h = unfold IsShaped in h
  step-IsShaped (try_recv op) s h = try_recv-IsShaped L op s h
  step-IsShaped (stop_recv op) s h = stop_recv-IsShaped L op s h
  step-IsShaped (drop_recv op) s h = unfold IsShaped in h
  step-IsShaped clone_sender s h = unfold IsShaped in h
  step-IsShaped release_sender s h = release-IsShaped L s h
  step-IsShaped drop_receiver s h = close-IsShaped L s h
  step-IsShaped close s h = close-IsShaped L s h

  pub run_refines :
      (es : List (Event A)) (s : Channel R)
      → IsShaped L s
      → view L (run R es s) ≡ line_run es (view L s)
  unfolding run line_run
  run_refines [] s h = refl
  run_refines (e ∷ es) s h =
      run_refines es (step R e s) (step-IsShaped e s h) ∙ ap (line_run es) (step_refines e s h)

  pub run-IsShaped : (es : List (Event A)) (s : Channel R) → IsShaped L s → IsShaped L (run R es s)
  unfolding run
  run-IsShaped [] s h = h
  run-IsShaped (e ∷ es) s h = run-IsShaped es (step R e s) (step-IsShaped e s h)

  ring-IsShaped :
      (cap : ℕ) → 0 < cap → IsShaped L (record (bounded R cap) { bq = some (R.new cap) })
  unfolding IsShaped
  ring-IsShaped cap h =
      let e = ap length (L.contents_new cap) in
      (h, L.size_new cap, omega (arith, e), omega (arith, e), inl refl)

  pub opened-IsShaped : (limit : Option ℕ) → IsShaped L (opened R limit)
  opened-IsShaped none = unfold IsShaped in refl
  opened-IsShaped (some zero) = unfold IsShaped in (refl, refl)
  opened-IsShaped (some (suc n)) =
      rw (lt→ltb 0 (suc n) (omega arith)) (ring-IsShaped (suc n) (omega arith))

  view-opened : (limit : Option ℕ) → view L (opened R limit) ≡ open_line limit
  unfolding view
  view-opened none = refl
  view-opened (some zero) = refl
  view-opened (some (suc n)) = rw (lt→ltb 0 (suc n) (omega arith), L.contents_new (suc n)) refl

  -- Under the laws of the queue, a channel of any capacity, or with none, that any sequence of events
  -- ran on stands for the line that the same events make: its buffer and its parked sends in order,
  -- the parked receive, the senders, whether it is closed, and each completion in its order.
  pub opened_refines :
      (limit : Option ℕ) (es : List (Event A))
      → view L (run R es (opened R limit)) ≡ line_run es (open_line limit)
  opened_refines limit es =
      run_refines es (opened R limit) (opened-IsShaped limit) ∙ ap (line_run es) (view-opened limit)
