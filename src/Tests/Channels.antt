-- ===== src/Tests/Channels.antt =====
-- Examples of the channels, with a queue that is a list.
use quickjs_runtime.Channel.Line.{
  Event, accept_next, close, drop_send, line_recv, line_run, line_send, only_accepted, open_line,
  received, recv, recv_violation, send, send_stopped, sent, stop_send, waits,
}
use quickjs_runtime.Channel.Line.Keep.{keeps_all, polls}
use quickjs_runtime.Channel.Line.Order.{IsSubsequence, delivered, offered}
use quickjs_runtime.Channel.Mpsc.{opened, remaining_capacity}
use quickjs_runtime.Channel.Mpsc.Promise.{
  reached, reached_drain, reached_fifo, reached_lossless, reached_prompt, reached_room, stored,
}
use quickjs_runtime.Channel.Mpsc.Refine.{opened_refines}
use quickjs_runtime.Channel.Mpsc.Run.{run, step}
use quickjs_runtime.Channel.Mpsc.Shape.{view}
use quickjs_runtime.Channel.Ring.{Ring, RingLaws}
use quickjs_runtime.Channel.Streams.{
  collect, count, fold, from_vector, merge_next, vector_next, zipped,
}
use quickjs_runtime.Channel.Streams.Pipeline.{
  Stage, built, built_collects, filtering, mapping, on_lists, scanning, skipping, taking,
}
use quickjs_runtime.Common.{
  List, Option, [], arith, false, if◌then◌else◌, length, ltb, lt→ltb, none, refl, some, true, ℕ,
  ◌*◌, ◌++◌, ◌+◌, ◌<◌, ◌∷◌, ◌≡◌, ◌≤◌, ◌⊎◌,
}

abbrev list_pop : ℕ → List ℕ → Option (ℕ × (ℕ × List ℕ))
list_pop n [] = none
list_pop n (v ∷ rest) = some (v, (n, rest))

abbrev list_ring : Ring ℕ
list_ring = record {
  Queue = ℕ × List ℕ;
  new = λ n. (n, []);
  try_push = λ v q. if ltb (length q.1) q.0 then some (q.0, q.1 ++ (v ∷ [])) else none;
  try_pop = λ q. list_pop q.0 q.1;
}

list_push_room :
    (v : ℕ) (q : ℕ × List ℕ)
    → length q.1 < q.0
    → (q' : ℕ × List ℕ) × (list_ring.try_push v q ≡ some q')
      × (q'.1 ≡ q.1 ++ (v ∷ []))
      × (q'.0 ≡ q.0)
list_push_room v q h = ((q.0, q.1 ++ (v ∷ [])), rw (lt→ltb (length q.1) q.0 h) refl, refl, refl)

list_push_full : (v : ℕ) (q : ℕ × List ℕ) → q.0 ≤ length q.1 → list_ring.try_push v q ≡ none
list_push_full v q h = ground arith

list_pop_empty : (n : ℕ) (l : List ℕ) → l ≡ [] → list_pop n l ≡ none
list_pop_empty n [] e = refl
list_pop_empty n (v ∷ l) e = cc

list_pop_head :
    (n : ℕ) (l : List ℕ) (v : ℕ) (rest : List ℕ)
    → l ≡ v ∷ rest
    → (q' : ℕ × List ℕ) × (list_pop n l ≡ some (v, q')) × (q'.1 ≡ rest) × (q'.0 ≡ n)
list_pop_head n l v rest e = rw e ((n, rest), refl, refl, refl)

abbrev list_ring_laws : RingLaws list_ring
list_ring_laws = record {
  contents = λ q. q.1;
  size = λ q. q.0;
  contents_new = λ n. refl;
  size_new = λ n. refl;
  push_room = list_push_room;
  push_full = list_push_full;
  pop_empty = λ q. list_pop_empty q.0 q.1;
  pop_head = λ q. list_pop_head q.0 q.1;
}

-- A channel of capacity 1: two sends, of which the second waits, and a receive.
abbrev two_sends : List (Event ℕ)
two_sends = send 1 10 ∷ send 2 20 ∷ []

abbrev sends_then_recv : List (Event ℕ)
sends_then_recv = send 1 10 ∷ send 2 20 ∷ recv 3 ∷ []

sends_then_recv_log :
    (run list_ring sends_then_recv (opened list_ring (some 1))).log
    ≡ sent 1 true ∷ sent 2 true ∷ received 3 (some 10) ∷ []
unfolding run step
sends_then_recv_log = refl

close_log :
    (run list_ring
      (send 1 10 ∷ send 2 20 ∷ close ∷ recv 3 ∷ recv 4 ∷ [])
      (opened list_ring (some 1))).log
    ≡ sent 1 true ∷ sent 2 false ∷ received 3 (some 10) ∷ received 4 none ∷ []
unfolding run step
close_log = refl

rendezvous_log :
    (run list_ring
      (recv 1 ∷ recv 2 ∷ send 3 30 ∷ send 4 40 ∷ stop_send 4 ∷ [])
      (opened list_ring (some 0))).log
    ≡ recv_violation 2 ∷ received 1 (some 30) ∷ sent 3 true ∷ send_stopped 4 ∷ []
unfolding run step
rendezvous_log = refl

opened_refines_example :
    view list_ring_laws (run list_ring sends_then_recv (opened list_ring (some 1)))
    ≡ line_run sends_then_recv (open_line (some 1))
opened_refines_example = opened_refines list_ring_laws (some 1) sends_then_recv

reached_fifo_example :
    let c = reached list_ring_laws (some 1) sends_then_recv in
    IsSubsequence (delivered c.log ++ stored list_ring_laws c) (offered sends_then_recv)
reached_fifo_example = reached_fifo list_ring_laws (some 1) sends_then_recv

-- Both sends were accepted when they are stopped and destroyed.
abbrev late_stops : List (Event ℕ)
late_stops = send 1 10 ∷ send 2 20 ∷ recv 3 ∷ stop_send 1 ∷ drop_send 2 ∷ []

reached_lossless_example :
    let c = reached list_ring_laws (some 1) late_stops in
    delivered c.log ++ stored list_ring_laws c ≡ offered late_stops
unfolding keeps_all run step line_send line_recv waits accept_next
reached_lossless_example = reached_lossless list_ring_laws (some 1) late_stops refl refl

reached_prompt_example :
    let c = reached list_ring_laws (some 1) (recv 3 ∷ []) in
    (c.recv_slot ≡ none) ⊎ (stored list_ring_laws c ≡ [])
reached_prompt_example = reached_prompt list_ring_laws (some 1) (recv 3 ∷ [])

reached_drain_example :
    let c = reached list_ring_laws (some 1) two_sends in
    delivered (run list_ring (polls (length (stored list_ring_laws c))) c).log
    ≡ delivered c.log ++ stored list_ring_laws c
reached_drain_example = reached_drain list_ring_laws (some 1) two_sends

reached_room_example :
    let c = reached list_ring_laws (some 1) two_sends in
    remaining_capacity list_ring c + length (only_accepted (view list_ring_laws c).line) ≡ 1
reached_room_example = reached_room list_ring_laws 1 two_sends

-- Squares of the numbers from 3 on, three at most.
abbrev stages : List (Stage ℕ)
stages =
    skipping 1
    ∷ filtering (λ v. ltb 2 v)
    ∷ mapping (λ v. v * v)
    ∷ scanning (λ acc v. acc + v) 0
    ∷ taking 3
    ∷ []

stages_list : on_lists stages (1 ∷ 2 ∷ 3 ∷ 4 ∷ 5 ∷ 6 ∷ []) ≡ 9 ∷ 25 ∷ 50 ∷ []
unfolding on_lists
stages_list = refl

built_collects_example :
    let st = built 9 stages (from_vector (1 ∷ 2 ∷ 3 ∷ 4 ∷ [])) in
    (collect st.next 9 st.now ≡ on_lists stages (1 ∷ 2 ∷ 3 ∷ 4 ∷ []))
    × (count st.next 9 st.now ≡ length (on_lists stages (1 ∷ 2 ∷ 3 ∷ 4 ∷ [])))
built_collects_example = built_collects 9 stages (1 ∷ 2 ∷ 3 ∷ 4 ∷ []) (omega arith)

abbrev ones : List ℕ
ones = 1 ∷ 2 ∷ []

abbrev tens : List ℕ
tens = 10 ∷ []

-- The second stream is pulled first.
merged : collect (merge_next vector_next vector_next) 9 (ones, tens, true) ≡ 10 ∷ 1 ∷ 2 ∷ []
unfolding fold
merged = refl

zipped_pairs : collect (λ s. zipped (vector_next s.0) s.1 vector_next) 9 (ones, tens) ≡ (1, 10) ∷ []
unfolding fold
zipped_pairs = refl
