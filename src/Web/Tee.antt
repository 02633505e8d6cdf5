-- ===== src/Web/Tee.antt =====
-- include/qjsbind/web/stream.hpp: `TeeSource`, the two branches of a cloned body.
--
-- Everything runs on the io thread, so a method runs from one `co_await` to the next without
-- another in between. The state holds what the branches share, with, beside it, what each branch's
-- reads have given, the blocks that the source gave, the pulls in flight and the reads that ended.
-- The source is not part of the component: an event says what a pull of it gives, in any order.
pub mod Branches
use mathlib.Core.Option
use quickjs_runtime.Common.{
  Bool, List, Option, [], false, if◌then◌else◌, map, none, some, suc, true, ℕ, ◌&&◌, ◌++◌, ◌||◌,
  ◌∷◌,
}
use quickjs_runtime.Common.Bytes.{Bytes}

pub data Side : Type 0 where
  side_a side_b : Side

-- What the source's `read` ends with; an exception is a number.
pub data SourceResult : Type 0 where
  gives : Bytes → SourceResult
  ends : SourceResult
  throws : ℕ → SourceResult

pub record Branch : Type 0 where
  pub buf : List Bytes
  pub closed : Bool
  pub got : List Bytes

pub record Shared : Type 0 where
  pub a : Branch
  pub b : Branch
  pub done : Bool
  pub error : Option ℕ
  pub pumping : Bool
  -- The list from `head` to `tail`.
  pub waiting : List Side
  pub pulls : List Side
  pub source_cancels : ℕ
  pub log : List Bytes
  pub ended : List (Side × SourceResult)

unfoldable pub open_branch : Branch
open_branch = record { buf = []; closed = false; got = [] }

unfoldable pub tee : Shared
tee = record {
  a = open_branch;
  b = open_branch;
  done = false;
  error = none;
  pumping = false;
  waiting = [];
  pulls = [];
  source_cancels = 0;
  log = [];
  ended = [];
}

abbrev pub branch : Side → Shared → Branch
branch side_a t = t.a
branch side_b t = t.b

abbrev pub set_branch : Side → Branch → Shared → Shared
set_branch side_a br t = record t { a = br }
set_branch side_b br t = record t { b = br }

abbrev pub end_read : Side → SourceResult → Shared → Shared
end_read s r t = record t { ended = t.ended ++ ((s, r) ∷ []) }

abbrev pub popped : Branch → Bytes → List Bytes → Branch
popped br v rest = record br { buf = rest; got = br.got ++ (v ∷ []) }

unfoldable pub wait_or_pull : Side → Shared → Bool → Shared
wait_or_pull s t true = record t { waiting = t.waiting ++ (s ∷ []) }
wait_or_pull s t false = record t { pulls = t.pulls ++ (s ∷ []) }

-- The loop of `read` from its top to the end of the read or the next `co_await`. What follows
-- `wait_or_pull` is `completed`: the guard of a pull only resets `pumping`.
unfoldable pub turn_with : Side → Shared → Option ℕ → List Bytes → Shared
turn_with s t (some e) buf = end_read s (throws e) t
turn_with s t none (v ∷ rest) = end_read s (gives v) (set_branch s (popped (branch s t) v rest) t)
turn_with s t none [] =
    if t.done || (branch s t).closed then end_read s ends t else wait_or_pull s t t.pumping

unfoldable pub turn : Side → Shared → Shared
turn s t = turn_with s t t.error (branch s t).buf

unfoldable pub resume_all : List Side → Shared → Shared
resume_all [] t = t
resume_all (s ∷ ws) t = resume_all ws (turn s t)

unfoldable pub wake_all : Shared → Shared
wake_all t = resume_all t.waiting (record t { waiting = [] })

abbrev pub pushed_unless : Bool → Bytes → Branch → Branch
pushed_unless true blk br = br
pushed_unless false blk br = record br { buf = br.buf ++ (blk ∷ []) }

abbrev pub pushed : Bytes → Branch → Branch
pushed blk br = pushed_unless br.closed blk br

abbrev pub unguard : Shared → Shared
unguard t = record t { pumping = false }

-- `read` from the end of its pull.
unfoldable pub completed : Side → SourceResult → Shared → Shared
completed s (throws e) t = end_read s (throws e) (unguard (wake_all (record t { error = some e })))
completed s ends t = turn s (unguard (wake_all (record t { done = true })))
completed s (gives blk) t = turn s (
    unguard
      (wake_all (record t { a = pushed blk t.a; b = pushed blk t.b; log = t.log ++ (blk ∷ []) })))

unfoldable pub cancel_source : Shared → Shared
cancel_source t =
    if t.a.closed && t.b.closed then record t { source_cancels = suc t.source_cancels } else t

abbrev pub close_branch : Branch → Branch
close_branch br = record br { closed = true }

abbrev pub drop_branch : Branch → Branch
drop_branch br = record br { closed = true; buf = [] }

unfoldable pub cancel : Side → Shared → Shared
cancel s t = wake_all (cancel_source (set_branch s (close_branch (branch s t)) t))

-- The destructor of a branch.
unfoldable pub destroy : Side → Shared → Shared
destroy s t = cancel_source (set_branch s (drop_branch (branch s t)) t)

unfoldable pub is_side : Side → Side → Bool
is_side side_a side_a = true
is_side side_b side_b = true
is_side _ _ = false

-- One pull of the side is no longer in flight, if one was.
unfoldable pub without_pull : Side → List Side → Option (List Side)
without_pull s [] = none
without_pull s (p ∷ ps) =
    if is_side s p then some ps else Option.map (λ (l : List Side). p ∷ l) (without_pull s ps)

pub data Event : Type 0 where
  reads cancels destroys : Side → Event
  completes : Side → SourceResult → Event

abbrev pub completes_pull : Side → SourceResult → Shared → Option (List Side) → Shared
completes_pull s r t none = t
completes_pull s r t (some pulls) = completed s r (record t { pulls = pulls })

unfoldable pub step : Shared → Event → Shared
step t (reads s) = turn s t
step t (cancels s) = cancel s t
step t (destroys s) = destroy s t
step t (completes s r) = completes_pull s r t (without_pull s t.pulls)

unfoldable pub run : Shared → List Event → Shared
run t [] = t
run t (e ∷ es) = run (step t e) es
