-- ===== src/Channel/Mpsc/Promise.antt =====
use mathlib.Core.Option.{some-injective}
use mathlib.Core.Path.{subst}
use quickjs_runtime.Channel.Line.{Event, Line, line_run, only_accepted, open_line, value_of}
use quickjs_runtime.Channel.Line.Fifo.{run-IsPrompt, run_drops}
use quickjs_runtime.Channel.Line.Keep.{keeps_all, polls, polls_drain, run_moves}
use quickjs_runtime.Channel.Line.Limit.{limit-run}
use quickjs_runtime.Channel.Line.Order.{IsPrompt, IsSubsequence, delivered, flow, offered}
use quickjs_runtime.Channel.Mpsc.{Channel, opened, remaining_capacity}
use quickjs_runtime.Channel.Mpsc.Refine.{opened-IsShaped, opened_refines, run-IsShaped, run_refines}
use quickjs_runtime.Channel.Mpsc.Run.{run}
use quickjs_runtime.Channel.Mpsc.Shape.{
  IsShaped, IsShapedOf, buffered, length-row, limit_of, only_accepted-row, row, view,
}
use quickjs_runtime.Channel.Ring.{Ring, RingLaws}
use quickjs_runtime.Common.{
  Bool, List, Option, [], ap, arith, false, if◌then◌else◌, inl, inr, leb, length, length-map, map,
  none, refl, some, sym, true, ℕ, ◌++◌, ◌+◌, ◌-◌, ◌∙◌, ◌≡◌, ◌⊎◌,
}

-- What a channel of include/dart_cpp_bridge/channel.hpp promises of every sequence of events.
module _ {A : Type 0} {R : Ring A} (L : RingLaws R) where
  -- The channel that the events make of a new one.
  abbrev pub reached : Option ℕ → List (Event A) → Channel R
  reached limit es = run R es (opened R limit)

  -- The values in the channel, those of parked sends included, oldest first.
  abbrev pub stored : Channel R → List A
  stored c = map value_of (view L c).line

  flow-reached :
      (limit : Option ℕ) (es : List (Event A))
      → flow (view L (reached limit es)) ≡ flow (line_run es (open_line limit))
  flow-reached limit es = ap flow (opened_refines L limit es)

  open-IsPrompt : (limit : Option ℕ) → IsPrompt {A = A} (open_line limit)
  open-IsPrompt limit = unfold IsPrompt in inl refl

  -- Whatever the events, the values delivered to receives, then those still in the channel, are values
  -- that were offered to it, each at most once, in the order in which their sends started.
  pub reached_fifo :
      (limit : Option ℕ) (es : List (Event A))
      → let c = reached limit es in IsSubsequence (delivered c.log ++ stored c) (offered es)
  unfolding flow delivered view
  reached_fifo limit es =
      subst (λ l. IsSubsequence l (offered es)) (sym (flow-reached limit es))
        (run_drops es (open_line limit) (open-IsPrompt limit))

  -- A channel that is still open, of which no send was stopped or destroyed while it waited, has lost
  -- no value: those delivered, then those in the channel, are all that were offered. A stop or a
  -- destruction that comes after the send was accepted takes nothing away.
  pub reached_lossless :
      (limit : Option ℕ) (es : List (Event A))
      → keeps_all es (open_line limit) ≡ true
      → (reached limit es).closed ≡ false
      → let c = reached limit es in delivered c.log ++ stored c ≡ offered es
  unfolding flow delivered view
  reached_lossless limit es k c =
      flow-reached limit es
      ∙ run_moves es (open_line limit) (open-IsPrompt limit) k
          (ap (λ (t : Line A). t.closed) (sym (opened_refines L limit es)) ∙ c)

  prompt_stored : (c : Channel R) → IsPrompt (view L c) → (c.recv_slot ≡ none) ⊎ (stored c ≡ [])
  unfolding IsPrompt view
  prompt_stored c (inl e) = inl e
  prompt_stored c (inr e) = inr (ap (map value_of) e)

  -- A receive is parked only while the channel holds no value and no send waits: no wake-up is lost.
  pub reached_prompt :
      (limit : Option ℕ) (es : List (Event A))
      → let c = reached limit es in (c.recv_slot ≡ none) ⊎ (stored c ≡ [])
  reached_prompt limit es = prompt_stored (reached limit es) (
      subst IsPrompt (sym (opened_refines L limit es))
        (run-IsPrompt es (open_line limit) (open-IsPrompt limit)))

  -- From any state that events lead to, as many calls of `try_recv` as the channel holds values
  -- deliver all of them in order, those of the parked sends too.
  pub reached_drain :
      (limit : Option ℕ) (es : List (Event A))
      → let c = reached limit es in
        delivered (run R (polls (length (stored c))) c).log ≡ delivered c.log ++ stored c
  unfolding view
  reached_drain limit es =
      let c = reached limit es in
      let n = length-map (view L c).line value_of in
      let shaped = run-IsShaped L es (opened R limit) (opened-IsShaped L limit) in
      ap (λ k. delivered (run R (polls k) c).log) n
      ∙ ap (λ (t : Line A). delivered t.log)
          (run_refines L (polls (length (view L c).line)) c shaped)
      ∙ (polls_drain (view L c)).0

  room_exact :
      (b : Bool) (q : Option R.Queue) (uq : List A) (cap n limit : ℕ) (ws : List (ℕ × A))
      → limit_of L b cap ≡ some limit
      → IsShapedOf L b q cap n ws
      → (if leb cap n then 0 else cap - n) + length (only_accepted (row (buffered L b q uq) ws))
        ≡ limit
  room_exact false q uq cap n limit ws e h = cc
  room_exact true none uq cap n limit ws e h =
      let same = some-injective cap limit e in
      rw (only_accepted-row [] ws) (ground (arith, h.0, h.1, same))
  room_exact true (some q) uq cap n limit ws e h =
      let same = some-injective cap limit e in
      let stored = length-row (L.contents q) [] in
      rw (only_accepted-row (L.contents q) ws) (ground (arith, h.2, h.3, same, stored))

  -- In every state that events lead to, `remaining_capacity` and the number of the values accepted and
  -- not yet received make up the capacity, so no more than the capacity are ever accepted.
  pub reached_room :
      (cap : ℕ) (es : List (Event A))
      → let c = reached (some cap) es in
        remaining_capacity R c + length (only_accepted (view L c).line) ≡ cap
  unfolding view IsShaped
  reached_room cap es =
      let c = reached (some cap) es in
      room_exact c.bounded_mode c.bq c.uq c.capacity c.count cap c.waiting
        (ap (λ (t : Line A). t.limit) (opened_refines L (some cap) es)
          ∙ limit-run es (open_line (some cap)))
        (run-IsShaped L es (opened R (some cap)) (opened-IsShaped L (some cap)))
