-- ===== src/Channel/Line/Keep.antt =====
use mathlib.Core.List.{append-nil, append_assoc}
use quickjs_runtime.Channel.Line.{
  Entry, Event, Line, accept_next, accepted, clone_sender, close, drop_receiver, drop_recv,
  drop_send, line_close, line_recv, line_run, line_send, line_step, line_try_recv, parked, receive,
  recv, release_sender, send, stop_recv, stop_send, stop_slot, stop_waiting, stopped_recv,
  stopped_send, tail_of, try_receive, try_recv, value_of, waits,
}
use quickjs_runtime.Channel.Line.Fifo.{step-IsPrompt}
use quickjs_runtime.Channel.Line.Flow.{closed-close, keeps, step-Moves, try_receive-Moves}
use quickjs_runtime.Channel.Line.Order.{IsPrompt, delivered, flow, flow-Moves, offered, offered_by}
use quickjs_runtime.Common.{
  Bool, Bool-cases, List, Option, [], and_true, ap, arith, false, if_holds, inl, inr, length, map,
  none, refl, some, suc, sym, true, zero, ℕ, ◌&&◌, ◌++◌, ◌-◌, ◌==◌, ◌∙◌, ◌∷◌, ◌≡◌,
}

-- A line that stays open and from which nothing is withdrawn loses no value; and its values come out.
nil_of_length : {A : Type 0} (l : List A) → length l ≡ 0 → l ≡ []
nil_of_length [] h = refl
nil_of_length (x ∷ l) h = absurd (omega (arith, h))

module _ {A : Type 0} where
  receive_closed :
      (op : ℕ) (s : Line A) (l : List (Entry A)) → s.closed ≡ true → (receive op s l).closed ≡ true
  receive_closed op s (e ∷ l) h = h
  receive_closed op s [] h = rw h refl

  stop_slot_closed :
      (op : ℕ) (s : Line A) (slot : Option ℕ)
      → s.closed ≡ true
      → (stop_slot op s slot).closed ≡ true
  stop_slot_closed op s none h = h
  stop_slot_closed op s (some r) h = if_holds (λ (t : Line A). t.closed ≡ true) (r == op) _ s h h

  stop_waiting_closed :
      (op : ℕ) (s : Line A) (b : Bool) → s.closed ≡ true → (stop_waiting op s b).closed ≡ true
  stop_waiting_closed op s true h = h
  stop_waiting_closed op s false h = h

  try_receive_closed :
      (op : ℕ) (s : Line A) (l : List (Entry A))
      → s.closed ≡ true
      → (try_receive op s l).closed ≡ true
  try_receive_closed op s (e ∷ l) h = h
  try_receive_closed op s [] h = h

  step_closed : (e : Event A) (s : Line A) → s.closed ≡ true → (line_step e s).closed ≡ true
  step_closed (send op v) s h = unfold line_send in rw h refl
  step_closed (stopped_send op v) s h = h
  step_closed (recv op) s h = unfold line_recv in receive_closed op s s.line h
  step_closed (stopped_recv op) s h = h
  step_closed (try_recv op) s h = try_receive_closed op s s.line h
  step_closed (stop_send op) s h = stop_waiting_closed op s (waits op s.line) h
  step_closed (drop_send op) s h = h
  step_closed (stop_recv op) s h = stop_slot_closed op s s.slot h
  step_closed (drop_recv op) s h = h
  step_closed clone_sender s h = h
  step_closed release_sender s h =
      let t = record s { senders = s.senders - 1 } in
      if_holds (λ (t : Line A). t.closed ≡ true) (s.senders == 1) (line_close t) t (closed-close t)
        h
  step_closed drop_receiver s h = closed-close s
  step_closed close s h = closed-close s

  run_closed : (es : List (Event A)) (s : Line A) → s.closed ≡ true → (line_run es s).closed ≡ true
  unfolding line_run
  run_closed [] s h = h
  run_closed (e ∷ es) s h = run_closed es (line_step e s) (step_closed e s h)

  open_before :
      (es : List (Event A)) (s : Line A) → (line_run es s).closed ≡ false → s.closed ≡ false
  open_before es s h = elim (Bool-cases s.closed) [ inl c ↦ cc (run_closed es s c, h) | inr o ↦ o ]

  -- No send is stopped or destroyed while it waits, the events run from `s`.
  unfoldable pub keeps_all : List (Event A) → Line A → Bool
  keeps_all [] s = true
  keeps_all (e ∷ es) s = keeps e s && keeps_all es (line_step e s)

  pub run_moves :
      (es : List (Event A)) (s : Line A)
      → IsPrompt s
      → keeps_all es s ≡ true
      → (line_run es s).closed ≡ false
      → flow (line_run es s) ≡ flow s ++ offered es
  unfolding line_run offered keeps_all
  run_moves [] s h k c = sym (append-nil (flow s))
  run_moves (e ∷ es) s h k c =
      let (now, later) = and_true (keeps e s) (keeps_all es (line_step e s)) k in
      let t = line_step e s in
      let first = flow-Moves s t (offered_by e) (step-Moves e s h now (open_before es t c)) in
      run_moves es t (step-IsPrompt e s h) later c
      ∙ ap (λ l. l ++ offered es) first
      ∙ append_assoc (flow s) (offered_by e) (offered es)

  -- So many calls of `try_recv`.
  unfoldable pub polls : ℕ → List (Event A)
  polls zero = []
  polls (suc n) = try_recv 0 ∷ polls n

  length-tail_of :
      (e : Entry A) (l : List (Entry A)) → length (tail_of (accept_next (e ∷ l))) ≡ length l
  unfolding accept_next
  length-tail_of (parked op v) l = refl
  length-tail_of (accepted v) [] = refl
  length-tail_of (accepted v) (accepted w ∷ l) = ap suc (length-tail_of (accepted v) l)
  length-tail_of (accepted v) (parked op w ∷ l) = refl

  poll_length :
      (n : ℕ) (s : Line A) (l : List (Entry A))
      → length l ≡ suc n
      → length (try_receive 0 s l).line ≡ n
  poll_length n s [] h = absurd (omega (arith, h))
  poll_length n s (e ∷ l) h = omega (arith, h, length-tail_of e l)

  polls_line : (n : ℕ) (s : Line A) → length s.line ≡ n → length (line_run (polls n) s).line ≡ 0
  unfolding polls line_run
  polls_line zero s h = h
  polls_line (suc n) s h = polls_line n (line_try_recv 0 s) (poll_length n s s.line h)

  flow-polls : (n : ℕ) (s : Line A) → flow (line_run (polls n) s) ≡ flow s
  unfolding polls line_run
  flow-polls zero s = refl
  flow-polls (suc n) s =
      flow-polls n (line_try_recv 0 s)
      ∙ flow-Moves s (line_try_recv 0 s) [] (try_receive-Moves 0 s s.line refl)
      ∙ append-nil (flow s)

  flow_empty : (t : Line A) → t.line ≡ [] → flow t ≡ delivered t.log
  unfolding flow
  flow_empty t e = rw e (append-nil (delivered t.log))

  -- As many receives as there are values in the line deliver them all, in their order.
  pub polls_drain :
      (s : Line A)
      → let t = line_run (polls (length s.line)) s in
        (delivered t.log ≡ delivered s.log ++ map value_of s.line) × (t.line ≡ [])
  polls_drain s =
      let t = line_run (polls (length s.line)) s in
      let empty = nil_of_length t.line (polls_line (length s.line) s refl) in
      (sym (flow_empty t empty) ∙ flow-polls (length s.line) s ∙ (unfold flow in refl), empty)
