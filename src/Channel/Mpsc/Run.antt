-- ===== src/Channel/Mpsc/Run.antt =====
use quickjs_runtime.Channel.Line.{
  Event, clone_sender, close, drop_receiver, drop_recv, drop_send, recv, release_sender, send,
  stop_recv, stop_send, stopped_recv, stopped_send, try_recv,
}
use quickjs_runtime.Channel.Mpsc.{
  Channel, channel_try_recv, close_channel, destroy_recv, destroy_send, on_stop_recv, on_stop_send,
  recv_start, release, send_start, try_send,
}
use quickjs_runtime.Channel.Ring.{Ring}
use quickjs_runtime.Common.{List, [], false, if◌then◌else◌, true, ℕ, ◌+◌, ◌∷◌}

-- A channel of include/dart_cpp_bridge/channel.hpp under a sequence of events. An unbounded channel
-- is handed out with a `Sender`, a bounded one with a `BoundedSender`.
module _ {A : Type 0} (R : Ring A) where
  abbrev pub start_send : ℕ → A → Channel R → Channel R
  start_send op v s = if s.bounded_mode then send_start R false op v s else try_send R op v s

  unfoldable pub step : Event A → Channel R → Channel R
  step (send op v) s = start_send op v s
  step (stopped_send op v) s = send_start R true op v s
  step (stop_send op) s = on_stop_send R op s
  step (drop_send op) s = destroy_send R op s
  step (recv op) s = recv_start R false op s
  step (stopped_recv op) s = recv_start R true op s
  step (try_recv op) s = channel_try_recv R op s
  step (stop_recv op) s = on_stop_recv R op s
  step (drop_recv op) s = destroy_recv R op s
  step clone_sender s = record s { senders = s.senders + 1 }
  step release_sender s = release R s
  step drop_receiver s = close_channel R s
  step close s = close_channel R s

  unfoldable pub run : List (Event A) → Channel R → Channel R
  run [] s = s
  run (e ∷ es) s = run es (step e s)
