-- ===== src/Channel/Line.antt =====
-- What a channel of include/dart_cpp_bridge/channel.hpp promises: one line of values, first in,
-- first out, of which those within the capacity are accepted and the senders of the others wait.
pub mod Order
pub mod Flow
pub mod Fifo
pub mod Keep
pub mod Limit
use quickjs_runtime.Common.{
  Bool, List, Option, [], false, if◌then◌else◌, length, ltb, none, some, true, ℕ, ◌++◌, ◌+◌, ◌-◌,
  ◌==◌, ◌||◌, ◌∷◌,
}

-- How a pending operation ends, by the number of the operation.
pub data Completion (A : Type 0) : Type 0 where
  sent : ℕ → Bool → Completion A
  send_stopped : ℕ → Completion A
  received : ℕ → Option A → Completion A
  recv_stopped recv_violation : ℕ → Completion A

-- What the owners of the two ends do. `stopped_send` and `stopped_recv` start an operation whose
-- stop token was triggered before; `drop_` destroys an operation that waits.
pub data Event (A : Type 0) : Type 0 where
  send stopped_send : ℕ → A → Event A
  recv stopped_recv try_recv stop_send drop_send stop_recv drop_recv : ℕ → Event A
  clone_sender release_sender drop_receiver close : Event A

-- A value in the line: its sender was told so, or waits.
pub data Entry (A : Type 0) : Type 0 where
  accepted : A → Entry A
  parked : ℕ → A → Entry A

pub record Line (A : Type 0) : Type 0 where
  pub line : List (Entry A)
  -- `none` is an unbounded channel.
  pub limit : Option ℕ
  pub slot : Option ℕ
  pub senders : ℕ
  pub closed : Bool
  pub log : List (Completion A)

abbrev pub room : Option ℕ → ℕ → Bool
room none n = true
room (some size) n = ltb n size

abbrev pub leave_slot : ℕ → Option ℕ → Option ℕ
leave_slot op none = none
leave_slot op (some r) = if r == op then none else some r

module _ {A : Type 0} where
  abbrev pub open_line : Option ℕ → Line A
  open_line limit = record {
    line = [];
    limit = limit;
    slot = none;
    senders = 1;
    closed = false;
    log = [];
  }

  abbrev pub said : Line A → List (Completion A) → Line A
  said s cs = record s { log = s.log ++ cs }

  abbrev pub join_line : ℕ → A → Line A → Bool → Line A
  join_line op v s true = said (record s { line = s.line ++ (accepted v ∷ []) }) (sent op true ∷ [])
  join_line op v s false = record s { line = s.line ++ (parked op v ∷ []) }

  -- To the receiver that waits, or to the end of the line.
  abbrev pub offer : ℕ → A → Line A → Option ℕ → Line A
  offer op v s (some r) = said (record s { slot = none }) (received r (some v) ∷ sent op true ∷ [])
  offer op v s none = join_line op v s (room s.limit (length s.line))

  unfoldable pub line_send : ℕ → A → Line A → Line A
  line_send op v s = if s.closed then said s (sent op false ∷ []) else offer op v s s.slot

  -- The oldest sender that waits is told that its value is accepted.
  unfoldable pub accept_next : List (Entry A) → List (Entry A)
  accept_next [] = []
  accept_next (accepted v ∷ l) = accepted v ∷ accept_next l
  accept_next (parked op v ∷ l) = accepted v ∷ l

  unfoldable pub next_parked : List (Entry A) → List (Completion A)
  next_parked [] = []
  next_parked (accepted v ∷ l) = next_parked l
  next_parked (parked op v ∷ l) = sent op true ∷ []

  abbrev pub value_of : Entry A → A
  value_of (accepted v) = v
  value_of (parked op v) = v

  abbrev pub wait_for : ℕ → Line A → Option ℕ → Line A
  wait_for op s (some r) = said s (recv_violation op ∷ [])
  wait_for op s none = record s { slot = some op }

  abbrev pub tail_of : List (Entry A) → List (Entry A)
  tail_of [] = []
  tail_of (e ∷ l) = l

  abbrev pub receive : ℕ → Line A → List (Entry A) → Line A
  receive op s (e ∷ l) =
      said (record s { line = tail_of (accept_next (e ∷ l)) })
        (next_parked (e ∷ l) ++ (received op (some (value_of e)) ∷ []))
  receive op s [] = if s.closed then said s (received op none ∷ []) else wait_for op s s.slot

  unfoldable pub line_recv : ℕ → Line A → Line A
  line_recv op s = receive op s s.line

  abbrev pub try_receive : ℕ → Line A → List (Entry A) → Line A
  try_receive op s (e ∷ l) = receive op s (e ∷ l)
  try_receive op s [] = said s (received op none ∷ [])

  abbrev pub stop_slot : ℕ → Line A → Option ℕ → Line A
  stop_slot op s none = s
  stop_slot op s (some r) =
      if r == op then said (record s { slot = none }) (recv_stopped op ∷ []) else s

  -- A value of a sender that waits, taken back.
  unfoldable pub withdraw : ℕ → List (Entry A) → List (Entry A)
  withdraw op [] = []
  withdraw op (accepted v ∷ l) = accepted v ∷ withdraw op l
  withdraw op (parked i v ∷ l) =
      let rest = withdraw op l in if i == op then l else parked i v ∷ rest

  unfoldable pub waits : ℕ → List (Entry A) → Bool
  waits op [] = false
  waits op (accepted v ∷ l) = waits op l
  waits op (parked i v ∷ l) = i == op || waits op l

  -- A stop request takes a parked send back; later it comes too late.
  abbrev pub stop_waiting : ℕ → Line A → Bool → Line A
  stop_waiting op s true = said (record s { line = withdraw op s.line }) (send_stopped op ∷ [])
  stop_waiting op s false = s

  unfoldable pub only_accepted : List (Entry A) → List (Entry A)
  only_accepted [] = []
  only_accepted (accepted v ∷ l) = accepted v ∷ only_accepted l
  only_accepted (parked op v ∷ l) = only_accepted l

  unfoldable pub refusals : List (Entry A) → List (Completion A)
  refusals [] = []
  refusals (accepted v ∷ l) = refusals l
  refusals (parked op v ∷ l) = sent op false ∷ refusals l

  abbrev pub farewell : Option ℕ → List (Completion A)
  farewell none = []
  farewell (some r) = received r none ∷ []

  unfoldable pub line_close : Line A → Line A
  line_close s =
      if s.closed
      then s
      else said (record s { line = only_accepted s.line; slot = none; closed = true })
          (farewell s.slot ++ refusals s.line)

  abbrev pub released : Line A → Line A
  released s =
      let s' = record s { senders = s.senders - 1 } in if s.senders == 1 then line_close s' else s'

  abbrev pub line_try_recv : ℕ → Line A → Line A
  line_try_recv op s = try_receive op s s.line

  abbrev pub line_step : Event A → Line A → Line A
  line_step (send op v) s = line_send op v s
  line_step (stopped_send op v) s = said s (send_stopped op ∷ [])
  line_step (stop_send op) s = stop_waiting op s (waits op s.line)
  line_step (drop_send op) s = record s { line = withdraw op s.line }
  line_step (recv op) s = line_recv op s
  line_step (stopped_recv op) s = said s (recv_stopped op ∷ [])
  line_step (try_recv op) s = line_try_recv op s
  line_step (stop_recv op) s = stop_slot op s s.slot
  line_step (drop_recv op) s = record s { slot = leave_slot op s.slot }
  line_step clone_sender s = record s { senders = s.senders + 1 }
  line_step release_sender s = released s
  line_step drop_receiver s = line_close s
  line_step close s = line_close s

  unfoldable pub line_run : List (Event A) → Line A → Line A
  line_run [] s = s
  line_run (e ∷ es) s = line_run es (line_step e s)
