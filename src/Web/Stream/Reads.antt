-- ===== src/Web/Stream/Reads.antt =====
-- What the reads of a stream give, whatever the order of reads, pulls, cancels and aborts.
use mathlib.Core.List.{append-nil, append_assoc}
use quickjs_runtime.Common.{
  Bool, List, Option, [], ap, false, if◌then◌else◌, none, refl, some, suc, sym, true, ℕ, ◌++◌, ◌∙◌,
  ◌∷◌, ◌≡◌,
}
use quickjs_runtime.Common.Bytes.{Bytes}
use quickjs_runtime.Web.Stream.{
  Event, ReadResult, ReadableStreamImpl, State, aborts, at_end, cancel, cancel_in, cancel_source,
  cancels, close_readable, closed, completed, completes, completes_pull, end_read, errored, failed,
  fresh, notified, on_stop, queued, read, readable, reads, resume_all, run, step, stopped, turn,
  turn_empty, turn_queue, turn_state, unguard, value, wait_or_pull, wake_all, without_pull,
}
use quickjs_runtime.Web.Tee.{SourceResult, ends, gives, throws}

-- The non-empty block that a pull ends with.
abbrev pub block_in : SourceResult → List Bytes
block_in (gives (c ∷ cs)) = (c ∷ cs) ∷ []
block_in _ = []

abbrev pub given_by_pull : SourceResult → Option (List ℕ) → List Bytes
given_by_pull r none = []
given_by_pull r (some pulls) = block_in r

-- What the source gives with an event: the block of a pull that was in flight.
abbrev pub given_by : ReadableStreamImpl → Event → List Bytes
given_by s (completes n r) = given_by_pull r (without_pull n s.pulls)
given_by s _ = []

unfoldable pub blocks_given : ReadableStreamImpl → List Event → List Bytes
blocks_given s [] = []
blocks_given s (e ∷ es) = given_by s e ++ blocks_given (step s e) es

abbrev pub value_in : ReadResult → List Bytes
value_in (value v) = v ∷ []
value_in _ = []

-- The blocks that reads ended with.
unfoldable pub values_read : List (ℕ × ReadResult) → List Bytes
values_read [] = []
values_read ((n, r) ∷ rs) = value_in r ++ values_read rs

values_read-append :
    (rs : List (ℕ × ReadResult)) (n : ℕ) (r : ReadResult)
    → values_read (rs ++ ((n, r) ∷ [])) ≡ values_read rs ++ value_in r
unfolding values_read
values_read-append [] n r = append-nil (value_in r)
values_read-append ((m, q) ∷ rs) n r =
    ap (λ (t : List Bytes). value_in q ++ t) (values_read-append rs n r)
    ∙ sym (append_assoc (value_in q) (values_read rs) (value_in r))

abbrev pub IsSound : List Bytes → ReadableStreamImpl → Type 0
IsSound log s = (values_read s.ended ++ s.queue ≡ log) × (s.pumping ≡ false) × (s.waiting ≡ [])

end_read-IsSound :
    {log : List Bytes} (n : ℕ) (r : ReadResult) (s : ReadableStreamImpl)
    → value_in r ≡ []
    → IsSound log s
    → IsSound log (end_read n r s)
end_read-IsSound n r s h (p, u, w) = (
  ap (λ (t : List Bytes). t ++ s.queue)
        (values_read-append s.ended n r
          ∙ ap (λ (t : List Bytes). values_read s.ended ++ t) h
          ∙ append-nil (values_read s.ended))
      ∙ p,
  u,
  w,
)

wait_or_pull-IsSound :
    {log : List Bytes} (n : ℕ) (s : ReadableStreamImpl) (pumping : Bool)
    → pumping ≡ false
    → IsSound log s
    → IsSound log (wait_or_pull n s pumping)
unfolding wait_or_pull
wait_or_pull-IsSound n s true h k = cc
wait_or_pull-IsSound n s false h k = k

turn_empty-IsSound :
    {log : List Bytes} (n : ℕ) (s : ReadableStreamImpl) (st : State)
    → IsSound log s
    → IsSound log (turn_empty n s st)
unfolding turn_empty
turn_empty-IsSound n s closed k = end_read-IsSound n at_end s refl k
turn_empty-IsSound n s readable k = wait_or_pull-IsSound n s s.pumping k.1 k
turn_empty-IsSound n s errored k = wait_or_pull-IsSound n s s.pumping k.1 k

turn_queue-IsSound :
    {log : List Bytes} (n : ℕ) (s : ReadableStreamImpl) (q : List Bytes)
    → s.queue ≡ q
    → IsSound log s
    → IsSound log (turn_queue n s q)
unfolding turn_queue
turn_queue-IsSound n s [] h k = turn_empty-IsSound n s s.state k
turn_queue-IsSound n s (v ∷ rest) h (p, u, w) = (
  ap (λ (t : List Bytes). t ++ rest) (values_read-append s.ended n (value v))
      ∙ append_assoc (values_read s.ended) (v ∷ []) rest
      ∙ ap (λ (t : List Bytes). values_read s.ended ++ t) (sym h)
      ∙ p,
  u,
  w,
)

turn_state-IsSound :
    {log : List Bytes} (n : ℕ) (s : ReadableStreamImpl) (st : State)
    → IsSound log s
    → IsSound log (turn_state n s st)
unfolding turn_state
turn_state-IsSound n s errored k = end_read-IsSound n (failed s.error) s refl k
turn_state-IsSound n s readable k = turn_queue-IsSound n s s.queue refl k
turn_state-IsSound n s closed k = turn_queue-IsSound n s s.queue refl k

either-IsSound :
    {log : List Bytes} (c : Bool) (x y : ReadableStreamImpl)
    → IsSound log x
    → IsSound log y
    → IsSound log (if c then x else y)
either-IsSound true x y h k = h
either-IsSound false x y h k = k

turn-IsSound :
    {log : List Bytes} (n : ℕ) (s : ReadableStreamImpl) → IsSound log s → IsSound log (turn n s)
unfolding turn
turn-IsSound n s k =
    either-IsSound s.stop_requested (end_read n stopped s) (turn_state n s s.state)
      (end_read-IsSound n stopped s refl k) (turn_state-IsSound n s s.state k)

resume_all-IsSound :
    {log : List Bytes} (ns : List ℕ) (s : ReadableStreamImpl)
    → IsSound log s
    → IsSound log (resume_all ns s)
unfolding resume_all
resume_all-IsSound [] s k = k
resume_all-IsSound (n ∷ ns) s k = resume_all-IsSound ns (turn n s) (turn-IsSound n s k)

wake_all-IsSound :
    {log : List Bytes} (s : ReadableStreamImpl) → IsSound log s → IsSound log (wake_all s)
unfolding wake_all
wake_all-IsSound s (p, u, w) = resume_all-IsSound s.waiting (record s { waiting = [] }) (p, u, refl)

unmoved : {log : List Bytes} (s : ReadableStreamImpl) → IsSound log s → IsSound (log ++ []) s
unmoved {log} s (p, u, w) = (p ∙ sym (append-nil log), u, w)

queued-IsSound :
    {log : List Bytes} (blk : Bytes) (s : ReadableStreamImpl)
    → IsSound log s
    → IsSound (log ++ block_in (gives blk)) (queued blk s)
queued-IsSound [] s k = unmoved s k
queued-IsSound (c ∷ cs) s (p, u, w) = (
  sym (append_assoc (values_read s.ended) s.queue ((c ∷ cs) ∷ []))
      ∙ ap (λ (t : List Bytes). t ++ ((c ∷ cs) ∷ [])) p,
  u,
  w,
)

turn-again :
    {log : List Bytes} (n : ℕ) (s : ReadableStreamImpl)
    → IsSound log s
    → IsSound log (turn n (unguard s))
turn-again n s (p, u, w) = turn-IsSound n (unguard s) (p, refl, w)

completed-IsSound :
    {log : List Bytes} (n : ℕ) (r : SourceResult) (s : ReadableStreamImpl)
    → IsSound log s
    → IsSound (log ++ block_in r) (completed n r s)
unfolding completed
completed-IsSound n (throws e) s k =
    let failing : ReadableStreamImpl = record s { state = errored; error = e } in
    turn-again n (notified (wake_all failing)) (wake_all-IsSound failing (unmoved s k))
completed-IsSound n ends s k =
    let ending : ReadableStreamImpl = notified (record s { state = closed }) in
    turn-again n (wake_all ending) (wake_all-IsSound ending (unmoved s k))
completed-IsSound n (gives blk) s k =
    turn-again n (wake_all (queued blk s))
      (wake_all-IsSound (queued blk s) (queued-IsSound blk s k))

cancel_source-IsSound :
    {log : List Bytes} (s : ReadableStreamImpl) → IsSound log s → IsSound log (cancel_source s)
unfolding cancel_source
cancel_source-IsSound s k =
    either-IsSound s.has_source (record s { source_cancels = suc s.source_cancels }) s k k

close_readable-IsSound :
    {log : List Bytes} (s : ReadableStreamImpl) (st : State)
    → IsSound log s
    → IsSound log (close_readable s st)
unfolding close_readable
close_readable-IsSound s readable k = cancel_source-IsSound (record s { state = closed }) k
close_readable-IsSound s closed k = k
close_readable-IsSound s errored k = k

cancel_in-IsSound :
    {log : List Bytes} (s : ReadableStreamImpl) (st : State)
    → IsSound log s
    → IsSound log (cancel_in s st)
unfolding cancel_in
cancel_in-IsSound s readable k =
    let closing : ReadableStreamImpl = record s { state = closed; disturbed = true } in
    wake_all-IsSound (cancel_source closing) (cancel_source-IsSound closing k)
cancel_in-IsSound s closed k = k
cancel_in-IsSound s errored k = k

completes_pull-IsSound :
    {log : List Bytes} (n : ℕ) (r : SourceResult) (s : ReadableStreamImpl) (o : Option (List ℕ))
    → IsSound log s
    → IsSound (log ++ given_by_pull r o) (completes_pull n r s o)
completes_pull-IsSound n r s none k = unmoved s k
completes_pull-IsSound n r s (some pulls) k = completed-IsSound n r (record s { pulls = pulls }) k

step-IsSound :
    {log : List Bytes} (s : ReadableStreamImpl) (e : Event)
    → IsSound log s
    → IsSound (log ++ given_by s e) (step s e)
unfolding step read on_stop cancel
step-IsSound s (reads n) k =
    let disturbing : ReadableStreamImpl = record s { disturbed = true } in
    unmoved (turn n disturbing) (turn-IsSound n disturbing k)
step-IsSound s (completes n r) k = completes_pull-IsSound n r s (without_pull n s.pulls) k
step-IsSound s aborts k =
    let stopping : ReadableStreamImpl = record s { stop_requested = true } in
    let woken = wake_all (close_readable stopping s.state) in
    unmoved (notified woken) (
      wake_all-IsSound (close_readable stopping s.state)
        (close_readable-IsSound stopping s.state k))
step-IsSound s cancels k = unmoved (cancel_in s s.state) (cancel_in-IsSound s s.state k)

run-IsSound :
    (es : List Event) (s : ReadableStreamImpl) (log : List Bytes)
    → IsSound log s
    → IsSound (log ++ blocks_given s es) (run s es)
unfolding run blocks_given
run-IsSound [] s log k = unmoved s k
run-IsSound (e ∷ es) s log k =
    let (p, u, w) = run-IsSound es (step s e) (log ++ given_by s e) (step-IsSound s e k) in
    (p ∙ append_assoc log (given_by s e) (blocks_given (step s e) es), u, w)

fresh-IsSound : (b : Bool) → IsSound [] (fresh b)
unfolding fresh values_read
fresh-IsSound b = (refl, refl, refl)

-- After any events since the stream was made, in any order, the blocks that reads ended with, as they
-- ended, and then the queue are the non-empty blocks of the pulls that ended, in their order: none is
-- lost, doubled or moved, also by pulls that complete after a cancel or an abort.
pub stream_reads_faithful :
    (has_source : Bool) (es : List Event)
    → values_read (run (fresh has_source) es).ended ++ (run (fresh has_source) es).queue
      ≡ blocks_given (fresh has_source) es
stream_reads_faithful b es = (run-IsSound es (fresh b) [] (fresh-IsSound b)).0
