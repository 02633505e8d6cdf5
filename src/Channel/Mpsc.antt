-- ===== src/Channel/Mpsc.antt =====
-- The state of include/dart_cpp_bridge/channel.hpp, `co::mpsc::State`, and the operation states of
-- its senders and receivers. A critical section under `mu` with the completions that it fires is
-- one step. An operation is in stage kQueued when it stands in `waiting` or in `recv_slot`.
pub mod Shape
pub mod Run
pub mod Refine
pub mod Promise
use quickjs_runtime.Channel.Line.{
  Completion, leave_slot, received, recv_stopped, recv_violation, send_stopped, sent,
}
use quickjs_runtime.Channel.Ring.{Ring}
use quickjs_runtime.Common.{
  Bool, List, Option, [], false, if◌then◌else◌, leb, ltb, none, some, true, ℕ, ◌++◌, ◌+◌, ◌-◌, ◌==◌,
  ◌||◌, ◌∷◌,
}

module _ {A : Type 0} (R : Ring A) where
  pub record Channel : Type 0 where
    pub capacity : ℕ
    pub bounded_mode : Bool
    pub bq : Option R.Queue
    pub uq : List A
    pub count : ℕ
    pub recv_slot : Option ℕ
    -- The intrusive list from `ws_head` to `ws_tail`: each node holds its value.
    pub waiting : List (ℕ × A)
    pub senders : ℕ
    pub closed : Bool
    pub log : List (Completion A)

  abbrev pub unbounded : Channel
  unbounded = record {
    capacity = 0;
    bounded_mode = false;
    bq = none;
    uq = [];
    count = 0;
    recv_slot = none;
    waiting = [];
    senders = 1;
    closed = false;
    log = [];
  }

  abbrev pub bounded : ℕ → Channel
  bounded cap = record unbounded {
    capacity = cap;
    bounded_mode = true;
    bq = if ltb 0 cap then some (R.new cap) else none;
  }

  -- A new channel: without a capacity `unbounded()`, with one `bounded(capacity)`.
  abbrev pub opened : Option ℕ → Channel
  opened none = unbounded
  opened (some cap) = bounded cap

  abbrev pub say : Channel → List (Completion A) → Channel
  say s cs = record s { log = s.log ++ cs }

  -- A sender that finds a parked receiver.
  abbrev pub deliver : ℕ → A → Channel → ℕ → Channel
  deliver op v s r = say (record s { recv_slot = none }) (received r (some v) ∷ sent op true ∷ [])

  abbrev pub send_unbounded : ℕ → A → Channel → Option ℕ → Channel
  send_unbounded op v s (some r) = deliver op v s r
  send_unbounded op v s none = say (record s { uq = s.uq ++ (v ∷ []) }) (sent op true ∷ [])

  abbrev pub try_send : ℕ → A → Channel → Channel
  try_send op v s =
      if s.closed then say s (sent op false ∷ []) else send_unbounded op v s s.recv_slot

  abbrev pub queue_send : ℕ → A → Channel → Channel
  queue_send op v s = record s { waiting = s.waiting ++ ((op, v) ∷ []) }

  abbrev pub pushed : ℕ → A → Channel → Option R.Queue → Channel
  pushed op v s (some q) = say (record s { bq = some q; count = s.count + 1 }) (sent op true ∷ [])
  pushed op v s none = queue_send op v s

  abbrev pub buffer_or_park : ℕ → A → Channel → Option R.Queue → Channel
  buffer_or_park op v s (some q) = pushed op v s (R.try_push v q)
  buffer_or_park op v s none = queue_send op v s

  abbrev pub send_bounded : ℕ → A → Channel → Option ℕ → Channel
  send_bounded op v s (some r) = deliver op v s r
  send_bounded op v s none = buffer_or_park op v s s.bq

  -- `send_opstate::start`, for a stop token that was triggered before or not.
  abbrev pub send_start : Bool → ℕ → A → Channel → Channel
  send_start stop_requested op v s =
      if stop_requested
      then say s (send_stopped op ∷ [])
      else if s.closed
      then say s (sent op false ∷ [])
      else send_bounded op v s s.recv_slot

  -- The value that the ring is given after a pop; the result of `try_push` is not looked at.
  abbrev pub push_ignored : A → R.Queue → Option R.Queue → R.Queue
  push_ignored v q (some q') = q'
  push_ignored v q none = q

  pub record Taken : Type 0 where
    pub out : Option A
    pub claimed : Option ℕ
    pub after : Channel

  -- After `try_pop` succeeded: the oldest parked value moves into the ring.
  abbrev pub refill : A → R.Queue → Channel → List (ℕ × A) → Taken
  refill v q s [] = record {
    out = some v;
    claimed = none;
    after = record s { bq = some q; count = s.count - 1 };
  }
  refill v q s ((op, w) ∷ ws) = record {
    out = some v;
    claimed = some op;
    after = record s {
      bq = some (push_ignored w q (R.try_push w q));
      count = s.count - 1 + 1;
      waiting = ws;
    };
  }

  abbrev pub take_parked : Channel → List (ℕ × A) → Taken
  take_parked s [] = record { out = none; claimed = none; after = s }
  take_parked s ((op, w) ∷ ws) = record {
    out = some w;
    claimed = some op;
    after = record s { waiting = ws };
  }

  abbrev pub popped : Channel → Option (A × R.Queue) → Taken
  popped s (some (v, q)) = refill v q s s.waiting
  popped s none = take_parked s s.waiting

  abbrev pub take_bounded : Channel → Option R.Queue → Taken
  take_bounded s (some q) = popped s (R.try_pop q)
  take_bounded s none = take_parked s s.waiting

  abbrev pub take_unbounded : Channel → List A → Taken
  take_unbounded s [] = record { out = none; claimed = none; after = s }
  take_unbounded s (v ∷ rest) = record {
    out = some v;
    claimed = none;
    after = record s { uq = rest };
  }

  abbrev pub take_value : Channel → Taken
  take_value s = if s.bounded_mode then take_bounded s s.bq else take_unbounded s s.uq

  abbrev pub wake : Option ℕ → List (Completion A)
  wake none = []
  wake (some op) = sent op true ∷ []

  abbrev pub channel_try_recv : ℕ → Channel → Channel
  channel_try_recv op s =
      let t = take_value s in say t.after (wake t.claimed ++ (received op t.out ∷ []))

  abbrev pub park_receiver : ℕ → Channel → Option ℕ → Channel
  park_receiver op s (some r) = say s (recv_violation op ∷ [])
  park_receiver op s none = record s { recv_slot = some op }

  abbrev pub finish_recv : ℕ → Channel → Option ℕ → Option A → Channel
  finish_recv op s claimed (some v) = say s (wake claimed ++ (received op (some v) ∷ []))
  finish_recv op s claimed none =
      let s' = say s (wake claimed) in
      if s'.closed then say s' (received op none ∷ []) else park_receiver op s' s'.recv_slot

  -- `recv_opstate::start`.
  abbrev pub recv_start : Bool → ℕ → Channel → Channel
  recv_start stop_requested op s =
      let t = take_value s in
      if stop_requested
      then say s (recv_stopped op ∷ [])
      else finish_recv op t.after t.claimed t.out

  abbrev pub unlink_send : ℕ → List (ℕ × A) → List (ℕ × A)
  unlink_send op [] = []
  unlink_send op ((i, v) ∷ ws) =
      let rest = unlink_send op ws in if i == op then ws else (i, v) ∷ rest

  abbrev pub is_queued : ℕ → List (ℕ × A) → Bool
  is_queued op [] = false
  is_queued op ((i, v) ∷ ws) = i == op || is_queued op ws

  -- `send_opstate::on_stop` and the destructor.
  abbrev pub on_stop_send : ℕ → Channel → Channel
  on_stop_send op s =
      if is_queued op s.waiting
      then say (record s { waiting = unlink_send op s.waiting }) (send_stopped op ∷ [])
      else s

  abbrev pub destroy_send : ℕ → Channel → Channel
  destroy_send op s = record s { waiting = unlink_send op s.waiting }

  abbrev pub stop_parked : ℕ → Channel → Option ℕ → Channel
  stop_parked op s none = s
  stop_parked op s (some r) =
      if r == op then say (record s { recv_slot = none }) (recv_stopped op ∷ []) else s

  abbrev pub on_stop_recv : ℕ → Channel → Channel
  on_stop_recv op s = stop_parked op s s.recv_slot

  abbrev pub destroy_recv : ℕ → Channel → Channel
  destroy_recv op s = record s { recv_slot = leave_slot op s.recv_slot }

  abbrev pub complete_closed : Option ℕ → List (Completion A)
  complete_closed none = []
  complete_closed (some r) = received r none ∷ []

  abbrev pub complete_pending : List (ℕ × A) → List (Completion A)
  complete_pending [] = []
  complete_pending ((op, v) ∷ ws) = sent op false ∷ complete_pending ws

  abbrev pub close_channel : Channel → Channel
  close_channel s =
      if s.closed
      then s
      else say (record s { recv_slot = none; waiting = []; closed = true })
          (complete_closed s.recv_slot ++ complete_pending s.waiting)

  -- `Sender::release` and `BoundedSender::release`.
  abbrev pub release : Channel → Channel
  release s =
      let s' = record s { senders = s.senders - 1 } in
      if s.senders == 1 then close_channel s' else s'

  abbrev pub remaining_capacity : Channel → ℕ
  remaining_capacity s = if leb s.capacity s.count then 0 else s.capacity - s.count
