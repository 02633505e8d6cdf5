-- ===== src/Web/Stream.antt =====
-- include/qjsbind/web/stream.hpp: `ReadableStreamImpl`, the state machine of a body's stream.
--
-- As in Tee, the code between two `co_await` is one step, a read is a number, and an event says what
-- a pull of the source ends with. Beside the fields of the class the state holds the calls of the
-- source's `cancel` and of `notify_reader_later`, the pulls in flight and the reads that ended. Whether the stream has a source at all
-- (`if (source)`) is a field.
pub mod Reads
use mathlib.Core.Option
use quickjs_runtime.Common.{
  Bool, List, Option, [], false, if◌then◌else◌, map, none, some, suc, true, ℕ, ◌++◌, ◌==◌, ◌∷◌,
}
use quickjs_runtime.Common.Bytes.{Bytes}
use quickjs_runtime.Web.Tee.{SourceResult, ends, gives, throws}

pub data State : Type 0 where
  readable closed errored : State

-- How a read ends.
pub data ReadResult : Type 0 where
  value : Bytes → ReadResult
  at_end : ReadResult
  stopped : ReadResult
  failed : ℕ → ReadResult

pub record ReadableStreamImpl : Type 0 where
  pub state : State
  pub has_source : Bool
  pub queue : List Bytes
  pub error : ℕ
  pub disturbed : Bool
  pub pumping : Bool
  pub stop_requested : Bool
  pub waiting : List ℕ
  pub pulls : List ℕ
  pub source_cancels : ℕ
  pub notifications : ℕ
  pub ended : List (ℕ × ReadResult)

unfoldable pub fresh : Bool → ReadableStreamImpl
fresh has_source = record {
  state = readable;
  has_source = has_source;
  queue = [];
  error = 0;
  disturbed = false;
  pumping = false;
  stop_requested = false;
  waiting = [];
  pulls = [];
  source_cancels = 0;
  notifications = 0;
  ended = [];
}

abbrev pub end_read : ℕ → ReadResult → ReadableStreamImpl → ReadableStreamImpl
end_read n r s = record s { ended = s.ended ++ ((n, r) ∷ []) }

unfoldable pub wait_or_pull : ℕ → ReadableStreamImpl → Bool → ReadableStreamImpl
wait_or_pull n s true = record s { waiting = s.waiting ++ (n ∷ []) }
wait_or_pull n s false = record s { pulls = s.pulls ++ (n ∷ []) }

-- What `read` does with an empty queue, by the state.
unfoldable pub turn_empty : ℕ → ReadableStreamImpl → State → ReadableStreamImpl
turn_empty n s closed = end_read n at_end s
turn_empty n s _ = wait_or_pull n s s.pumping

unfoldable pub turn_queue : ℕ → ReadableStreamImpl → List Bytes → ReadableStreamImpl
turn_queue n s (v ∷ rest) = end_read n (value v) (record s { queue = rest })
turn_queue n s [] = turn_empty n s s.state

unfoldable pub turn_state : ℕ → ReadableStreamImpl → State → ReadableStreamImpl
turn_state n s errored = end_read n (failed s.error) s
turn_state n s _ = turn_queue n s s.queue

-- The loop of `read` from its top to the end of the read or the next `co_await`.
unfoldable pub turn : ℕ → ReadableStreamImpl → ReadableStreamImpl
turn n s = if s.stop_requested then end_read n stopped s else turn_state n s s.state

unfoldable pub resume_all : List ℕ → ReadableStreamImpl → ReadableStreamImpl
resume_all [] s = s
resume_all (n ∷ ns) s = resume_all ns (turn n s)

unfoldable pub wake_all : ReadableStreamImpl → ReadableStreamImpl
wake_all s = resume_all s.waiting (record s { waiting = [] })

abbrev pub unguard : ReadableStreamImpl → ReadableStreamImpl
unguard s = record s { pumping = false }

abbrev pub notified : ReadableStreamImpl → ReadableStreamImpl
notified s = record s { notifications = suc s.notifications }

-- `if (source) source->cancel()`.
unfoldable pub cancel_source : ReadableStreamImpl → ReadableStreamImpl
cancel_source s = if s.has_source then record s { source_cancels = suc s.source_cancels } else s

-- An empty block is not queued.
abbrev pub queued : Bytes → ReadableStreamImpl → ReadableStreamImpl
queued [] s = s
queued (c ∷ cs) s = record s { queue = s.queue ++ ((c ∷ cs) ∷ []) }

-- `read` from the end of its pull.
unfoldable pub completed : ℕ → SourceResult → ReadableStreamImpl → ReadableStreamImpl
completed n (throws e) s =
    turn n (unguard (notified (wake_all (record s { state = errored; error = e }))))
completed n ends s = turn n (unguard (wake_all (notified (record s { state = closed }))))
completed n (gives blk) s = turn n (unguard (wake_all (queued blk s)))

unfoldable pub read : ℕ → ReadableStreamImpl → ReadableStreamImpl
read n s = turn n (record s { disturbed = true })

unfoldable pub close_readable : ReadableStreamImpl → State → ReadableStreamImpl
close_readable s readable = cancel_source (record s { state = closed })
close_readable s _ = s

-- The abort has arrived.
unfoldable pub on_stop : ReadableStreamImpl → ReadableStreamImpl
on_stop s = notified (wake_all (close_readable (record s { stop_requested = true }) s.state))

unfoldable pub cancel_in : ReadableStreamImpl → State → ReadableStreamImpl
cancel_in s readable =
    notified (wake_all (cancel_source (record s { state = closed; disturbed = true })))
cancel_in s _ = s

unfoldable pub cancel : ReadableStreamImpl → ReadableStreamImpl
cancel s = cancel_in s s.state

unfoldable pub without_pull : ℕ → List ℕ → Option (List ℕ)
without_pull n [] = none
without_pull n (p ∷ ps) =
    if p == n then some ps else Option.map (λ (l : List ℕ). p ∷ l) (without_pull n ps)

pub data Event : Type 0 where
  reads : ℕ → Event
  completes : ℕ → SourceResult → Event
  aborts cancels : Event

abbrev pub completes_pull :
    ℕ → SourceResult → ReadableStreamImpl → Option (List ℕ) → ReadableStreamImpl
completes_pull n r s none = s
completes_pull n r s (some pulls) = completed n r (record s { pulls = pulls })

unfoldable pub step : ReadableStreamImpl → Event → ReadableStreamImpl
step s (reads n) = read n s
step s (completes n r) = completes_pull n r s (without_pull n s.pulls)
step s aborts = on_stop s
step s cancels = cancel s

unfoldable pub run : ReadableStreamImpl → List Event → ReadableStreamImpl
run s [] = s
run s (e ∷ es) = run (step s e) es
