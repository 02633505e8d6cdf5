-- ===== src/Channel/Line/Fifo.antt =====
use mathlib.Core.List.{append-nil, append_assoc}
use mathlib.Core.Path.{subst}
use quickjs_runtime.Channel.Line.{
  Entry, Event, Line, accept_next, accepted, clone_sender, close, drop_receiver, drop_recv,
  drop_send, farewell, join_line, leave_slot, line_close, line_recv, line_run, line_send, line_step,
  offer, only_accepted, parked, receive, received, recv, recv_stopped, refusals, release_sender,
  released, room, said, send, sent, stop_recv, stop_send, stop_slot, stop_waiting, stopped_recv,
  stopped_send, tail_of, try_receive, try_recv, wait_for, waits, withdraw,
}
use quickjs_runtime.Channel.Line.Flow.{step-Drops}
use quickjs_runtime.Channel.Line.Order.{
  IsPrompt, IsSubsequence, flow, flow-Drops, offered, offered_by, subsequence_append,
  subsequence_of_eq, subsequence_refl, subsequence_trans,
}
use quickjs_runtime.Common.{
  Bool, List, Option, [], false, if_holds, inl, inr, length, none, refl, some, sym, true, ℕ, ◌++◌,
  ◌-◌, ◌==◌, ◌∷◌, ◌≡◌,
}

-- What a line promises of every sequence of events.
module _ {A : Type 0} where
  join-IsPrompt :
      (op : ℕ) (v : A) (s : Line A) (b : Bool) → s.slot ≡ none → IsPrompt (join_line op v s b)
  unfolding IsPrompt
  join-IsPrompt op v s true e = inl e
  join-IsPrompt op v s false e = inl e

  offer-IsPrompt :
      (op : ℕ) (v : A) (s : Line A) (slot : Option ℕ) → s.slot ≡ slot → IsPrompt (offer op v s slot)
  offer-IsPrompt op v s none e = join-IsPrompt op v s (room s.limit (length s.line)) e
  offer-IsPrompt op v s (some r) e = unfold IsPrompt in inl refl

  wait-IsPrompt :
      (op : ℕ) (s : Line A) (slot : Option ℕ) → s.line ≡ [] → IsPrompt (wait_for op s slot)
  unfolding IsPrompt
  wait-IsPrompt op s none e = inr e
  wait-IsPrompt op s (some r) e = inr e

  accept_next-nil : (e : Entry A) → tail_of (accept_next (e ∷ [])) ≡ []
  unfolding accept_next
  accept_next-nil (accepted v) = refl
  accept_next-nil (parked op v) = refl

  receive-IsPrompt :
      (op : ℕ) (s : Line A) (l : List (Entry A))
      → s.line ≡ l
      → IsPrompt s
      → IsPrompt (receive op s l)
  unfolding IsPrompt
  receive-IsPrompt op s [] e h =
      if_holds IsPrompt s.closed (said s (received op none ∷ [])) (wait_for op s s.slot) h
        (wait-IsPrompt op s s.slot e)
  receive-IsPrompt op s (x ∷ l) e (inl a) = inl a
  receive-IsPrompt op s (x ∷ l) e (inr b) = cc (b, e)

  try_receive-IsPrompt :
      (op : ℕ) (s : Line A) (l : List (Entry A))
      → s.line ≡ l
      → IsPrompt s
      → IsPrompt (try_receive op s l)
  try_receive-IsPrompt op s [] e h = unfold IsPrompt in h
  try_receive-IsPrompt op s (x ∷ l) e h = receive-IsPrompt op s (x ∷ l) e h

  leave-IsPrompt :
      (op : ℕ) (s : Line A) (slot : Option ℕ)
      → s.slot ≡ slot
      → IsPrompt s
      → IsPrompt (record s { slot = leave_slot op slot })
  unfolding IsPrompt
  leave-IsPrompt op s none e h = inl refl
  leave-IsPrompt op s (some r) e (inl a) = cc (a, e)
  leave-IsPrompt op s (some r) e (inr b) = inr b

  stop_slot-IsPrompt :
      (op : ℕ) (s : Line A) (slot : Option ℕ) → IsPrompt s → IsPrompt (stop_slot op s slot)
  stop_slot-IsPrompt op s none h = h
  stop_slot-IsPrompt op s (some r) h =
      if_holds IsPrompt (r == op) (said (record s { slot = none }) (recv_stopped op ∷ [])) s
        (unfold IsPrompt in inl refl) h

  withdraw-IsPrompt :
      (op : ℕ) (s : Line A) → IsPrompt s → IsPrompt (record s { line = withdraw op s.line })
  unfolding IsPrompt withdraw
  withdraw-IsPrompt op s (inl a) = inl a
  withdraw-IsPrompt op s (inr b) = inr (rw b refl)

  stop_waiting-IsPrompt :
      (op : ℕ) (s : Line A) (b : Bool) → IsPrompt s → IsPrompt (stop_waiting op s b)
  stop_waiting-IsPrompt op s true h = unfold IsPrompt in withdraw-IsPrompt op s h
  stop_waiting-IsPrompt op s false h = h

  close-IsPrompt : (s : Line A) → IsPrompt s → IsPrompt (line_close s)
  close-IsPrompt s h =
      unfold line_close in
      if_holds IsPrompt s.closed s
        (said (record s { line = only_accepted s.line; slot = none; closed = true })
          (farewell s.slot ++ refusals s.line))
        h (unfold IsPrompt in inl refl)

  release-IsPrompt : (s : Line A) → IsPrompt s → IsPrompt (released s)
  unfolding IsPrompt
  release-IsPrompt s h =
      let t = record s { senders = s.senders - 1 } in
      if_holds IsPrompt (s.senders == 1) (line_close t) t (close-IsPrompt t h) h

  pub step-IsPrompt : (e : Event A) (s : Line A) → IsPrompt s → IsPrompt (line_step e s)
  step-IsPrompt (send op v) s h =
      unfold line_send in
      if_holds IsPrompt s.closed (said s (sent op false ∷ [])) (offer op v s s.slot)
        (unfold IsPrompt in h) (offer-IsPrompt op v s s.slot refl)
  step-IsPrompt (recv op) s h = unfold line_recv in receive-IsPrompt op s s.line refl h
  step-IsPrompt (try_recv op) s h = try_receive-IsPrompt op s s.line refl h
  step-IsPrompt (stopped_send op v) s h = unfold IsPrompt in h
  step-IsPrompt (stopped_recv op) s h = unfold IsPrompt in h
  step-IsPrompt clone_sender s h = unfold IsPrompt in h
  step-IsPrompt (stop_send op) s h = stop_waiting-IsPrompt op s (waits op s.line) h
  step-IsPrompt (drop_send op) s h = withdraw-IsPrompt op s h
  step-IsPrompt (stop_recv op) s h = stop_slot-IsPrompt op s s.slot h
  step-IsPrompt (drop_recv op) s h = leave-IsPrompt op s s.slot refl h
  step-IsPrompt release_sender s h = release-IsPrompt s h
  step-IsPrompt drop_receiver s h = close-IsPrompt s h
  step-IsPrompt close s h = close-IsPrompt s h

  pub run-IsPrompt : (es : List (Event A)) (s : Line A) → IsPrompt s → IsPrompt (line_run es s)
  unfolding line_run
  run-IsPrompt [] s h = h
  run-IsPrompt (e ∷ es) s h = run-IsPrompt es (line_step e s) (step-IsPrompt e s h)

  pub run_drops :
      (es : List (Event A)) (s : Line A)
      → IsPrompt s
      → IsSubsequence (flow (line_run es s)) (flow s ++ offered es)
  unfolding line_run offered
  run_drops [] s h = subsequence_of_eq (sym (append-nil (flow s)))
  run_drops (e ∷ es) s h =
      let t = line_step e s in
      let first = flow-Drops s t (offered_by e) (step-Drops e s h) in
      let rest = run_drops es t (step-IsPrompt e s h) in
      subsequence_trans
        (subst (IsSubsequence (flow t ++ offered es))
          (append_assoc (flow s) (offered_by e) (offered es))
          (subsequence_append first (subsequence_refl (offered es))))
        rest
