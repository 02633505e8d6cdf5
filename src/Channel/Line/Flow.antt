-- ===== src/Channel/Line/Flow.antt =====
use mathlib.Core.List.{append-nil, map-append}
use quickjs_runtime.Channel.Line.{
  Completion, Entry, Event, Line, accept_next, accepted, clone_sender, close, drop_receiver,
  drop_recv, drop_send, farewell, join_line, line_close, line_recv, line_send, line_step,
  next_parked, offer, only_accepted, parked, receive, received, recv, recv_stopped, recv_violation,
  refusals, release_sender, room, said, send, send_stopped, sent, stop_recv, stop_send, stop_slot,
  stop_waiting, stopped_recv, stopped_send, tail_of, try_receive, try_recv, value_of, wait_for,
  waits, withdraw,
}
use quickjs_runtime.Channel.Line.Order.{
  Drops, Drops-of_Moves, IsPrompt, IsSubsequence, Moves, delivered, delivered-append,
  delivered-farewell, delivered-next_parked, delivered-refusals, done, keep, offered_by,
  only_accepted-IsSubsequence, silent, skip, values-accept_next, withdraw-IsSubsequence,
}
use quickjs_runtime.Common.{
  Bool, List, Option, [], ap, arith, false, if_holds, if◌then◌else◌, inl, inr, length, map, none,
  not, refl, some, sym, true, ℕ, ◌++◌, ◌-◌, ◌==◌, ◌∙◌, ◌∷◌, ◌≡◌, ◌⊎◌,
}

-- Each event moves the values of a line forward, in their order.
module _ {A : Type 0} where
  -- Events that take no value back: only a send that still waits loses its value when it is stopped
  -- or destroyed.
  abbrev pub keeps : Event A → Line A → Bool
  keeps (stop_send op) s = not (waits op s.line)
  keeps (drop_send op) s = not (waits op s.line)
  keeps _ s = true

  withdraw_none : (op : ℕ) (l : List (Entry A)) → not (waits op l) ≡ true → withdraw op l ≡ l
  unfolding waits withdraw
  withdraw_none op [] h = refl
  withdraw_none op (accepted v ∷ l) h = ap (◌∷◌ (accepted v)) (withdraw_none op l h)
  withdraw_none op (parked i v ∷ l) h = ground (arith, withdraw_none op l)

  join-Moves : (op : ℕ) (v : A) (s : Line A) (b : Bool) → Moves s (join_line op v s b) (v ∷ [])
  unfolding delivered
  join-Moves op v s true = (sent op true ∷ [], refl, map-append value_of s.line (accepted v ∷ []))
  join-Moves op v s false =
      silent s (join_line op v s false) (v ∷ []) refl
        (map-append value_of s.line (parked op v ∷ []))

  offer-Moves :
      (op : ℕ) (v : A) (s : Line A) (slot : Option ℕ)
      → (slot ≡ none) ⊎ (s.line ≡ [])
      → Moves s (offer op v s slot) (v ∷ [])
  unfolding delivered
  offer-Moves op v s none h = join-Moves op v s (room s.limit (length s.line))
  offer-Moves op v s (some r) (inl e) = cc
  offer-Moves op v s (some r) (inr e) = (received r (some v) ∷ sent op true ∷ [], refl, rw e refl)

  send_lost : (l : List A) (v : A) → IsSubsequence l (l ++ (v ∷ []))
  send_lost [] v = skip done
  send_lost (x ∷ l) v = keep (send_lost l v)

  send-Drops :
      (op : ℕ) (v : A) (s : Line A) (closed : Bool)
      → Moves s (offer op v s s.slot) (v ∷ [])
      → Drops s (if closed then said s (sent op false ∷ []) else offer op v s s.slot) (v ∷ [])
  unfolding delivered
  send-Drops op v s false h = Drops-of_Moves s (offer op v s s.slot) (v ∷ []) h
  send-Drops op v s true h = (sent op false ∷ [], refl, send_lost (map value_of s.line) v)

  still : (s s' : Line A) → s'.log ≡ s.log → s'.line ≡ s.line → Moves s s' []
  still s s' e f = silent s s' [] e (ap (map value_of) f ∙ sym (append-nil (map value_of s.line)))

  -- Completions that deliver no value, and a line with the same values.
  quiet :
      (s : Line A) (cs : List (Completion A)) (l : List (Entry A)) (slot : Option ℕ)
      → delivered cs ≡ []
      → map value_of l ≡ map value_of s.line
      → Moves s (said (record s { line = l; slot = slot }) cs) []
  quiet s cs l slot e f = (cs, refl, rw (e, f) (sym (append-nil (map value_of s.line))))

  values-tail_of :
      (e : Entry A) (l : List (Entry A))
      → map value_of (tail_of (accept_next (e ∷ l))) ≡ map value_of l
  unfolding accept_next
  values-tail_of (accepted v) l = values-accept_next l
  values-tail_of (parked op v) l = refl

  wait-Moves : (op : ℕ) (s : Line A) (slot : Option ℕ) → Moves s (wait_for op s slot) []
  unfolding delivered
  wait-Moves op s (some r) = quiet s (recv_violation op ∷ []) s.line s.slot refl refl
  wait-Moves op s none = still s (wait_for op s none) refl refl

  receive-Moves :
      (op : ℕ) (s : Line A) (l : List (Entry A)) → s.line ≡ l → Moves s (receive op s l) []
  unfolding delivered
  receive-Moves op s (e ∷ l) h =
      let cs = next_parked (e ∷ l) ++ (received op (some (value_of e)) ∷ []) in
      (
        cs,
        refl,
        rw (delivered-append, delivered-next_parked, values-tail_of, h)
            (sym (append-nil (map value_of (e ∷ l)))),
      )
  receive-Moves op s [] h =
      if_holds (λ t. Moves s t []) s.closed (said s (received op none ∷ [])) (wait_for op s s.slot)
        (quiet s (received op none ∷ []) s.line s.slot refl refl) (wait-Moves op s s.slot)

  pub try_receive-Moves :
      (op : ℕ) (s : Line A) (l : List (Entry A)) → s.line ≡ l → Moves s (try_receive op s l) []
  unfolding delivered
  try_receive-Moves op s (e ∷ l) h = receive-Moves op s (e ∷ l) h
  try_receive-Moves op s [] h = quiet s (received op none ∷ []) s.line s.slot refl refl

  stop_slot-Moves : (op : ℕ) (s : Line A) (slot : Option ℕ) → Moves s (stop_slot op s slot) []
  unfolding delivered
  stop_slot-Moves op s none = still s s refl refl
  stop_slot-Moves op s (some r) =
      if_holds (λ t. Moves s t []) (r == op) _ s
        (quiet s (recv_stopped op ∷ []) s.line none refl refl) (still s s refl refl)

  stop_waiting-Moves :
      (op : ℕ) (s : Line A) (b : Bool) → not b ≡ true → Moves s (stop_waiting op s b) []
  stop_waiting-Moves op s true h = cc
  stop_waiting-Moves op s false h = still s s refl refl

  stop_waiting-Drops : (op : ℕ) (s : Line A) (b : Bool) → Drops s (stop_waiting op s b) []
  unfolding delivered
  stop_waiting-Drops op s true =
      (send_stopped op ∷ [], refl, rw append-nil (withdraw-IsSubsequence op s.line))
  stop_waiting-Drops op s false = Drops-of_Moves s s [] (still s s refl refl)

  close-Drops : (s : Line A) → Drops s (line_close s) []
  unfolding line_close
  close-Drops s =
      if_holds (λ t. Drops s t []) s.closed s _ (Drops-of_Moves s s [] (still s s refl refl))
        (
          farewell s.slot ++ refusals s.line,
          refl,
          rw (delivered-append, delivered-farewell, delivered-refusals, append-nil)
              (only_accepted-IsSubsequence s.line),
        )

  pub closed-close : (s : Line A) → (line_close s).closed ≡ true
  unfolding line_close
  closed-close s = case_of s.closed refl
    where
      case_of :
          (b : Bool)
          → s.closed ≡ b
          → (if b
              then s
              else said
                  (record s { line = only_accepted s.line; slot = none; closed = true })
                  (farewell s.slot ++ refusals s.line)).closed
            ≡ true
      case_of true e = e
      case_of false e = refl

  send-Moves :
      (op : ℕ) (v : A) (s : Line A) (b : Bool)
      → s.closed ≡ b
      → Moves s (offer op v s s.slot) (v ∷ [])
      → let s' = if b then said s (sent op false ∷ []) else offer op v s s.slot in
        s'.closed ≡ false → Moves s s' (v ∷ [])
  send-Moves op v s false e h c = h
  send-Moves op v s true e h c = cc

  release-Moves :
      (s : Line A) (b : Bool)
      → let t = record s { senders = s.senders - 1 } in
        let s' = if b then line_close t else t in s'.closed ≡ false → Moves s s' []
  release-Moves s false c = still s (record s { senders = s.senders - 1 }) refl refl
  release-Moves s true c = cc (c, closed-close (record s { senders = s.senders - 1 }))

  release-Drops :
      (s : Line A) (b : Bool)
      → let t = record s { senders = s.senders - 1 } in Drops s (if b then line_close t else t) []
  release-Drops s false =
      let t = record s { senders = s.senders - 1 } in Drops-of_Moves s t [] (still s t refl refl)
  release-Drops s true = close-Drops (record s { senders = s.senders - 1 })

  -- The events that neither offer a value nor take one away.
  abbrev is_calm : Event A → Bool
  is_calm (stopped_send op v) = true
  is_calm (recv op) = true
  is_calm (stopped_recv op) = true
  is_calm (try_recv op) = true
  is_calm (stop_recv op) = true
  is_calm (drop_recv op) = true
  is_calm clone_sender = true
  is_calm _ = false

  calm-Moves : (e : Event A) (s : Line A) → is_calm e ≡ true → Moves s (line_step e s) []
  calm-Moves (stopped_send op v) s h =
      quiet s (send_stopped op ∷ []) s.line s.slot (unfold delivered in refl) refl
  calm-Moves (recv op) s h = unfold line_recv in receive-Moves op s s.line refl
  calm-Moves (stopped_recv op) s h =
      quiet s (recv_stopped op ∷ []) s.line s.slot (unfold delivered in refl) refl
  calm-Moves (try_recv op) s h = try_receive-Moves op s s.line refl
  calm-Moves (stop_recv op) s h = stop_slot-Moves op s s.slot
  calm-Moves (drop_recv op) s h = still s (line_step (drop_recv op) s) refl refl
  calm-Moves clone_sender s h = still s (line_step clone_sender s) refl refl
  calm-Moves (send op v) s h = cc
  calm-Moves (stop_send op) s h = cc
  calm-Moves (drop_send op) s h = cc
  calm-Moves release_sender s h = cc
  calm-Moves drop_receiver s h = cc
  calm-Moves close s h = cc

  pub step-Moves :
      (e : Event A) (s : Line A)
      → IsPrompt s
      → keeps e s ≡ true
      → (line_step e s).closed ≡ false
      → Moves s (line_step e s) (offered_by e)
  step-Moves (send op v) s h k c =
      unfold IsPrompt line_send in send-Moves op v s s.closed refl (offer-Moves op v s s.slot h) c
  step-Moves (stop_send op) s h k c = stop_waiting-Moves op s (waits op s.line) k
  step-Moves (drop_send op) s h k c =
      still s (line_step (drop_send op) s) refl (withdraw_none op s.line k)
  step-Moves release_sender s h k c = release-Moves s (s.senders == 1) c
  step-Moves drop_receiver s h k c = cc (c, closed-close s)
  step-Moves close s h k c = cc (c, closed-close s)
  step-Moves (stopped_send op v) s h k c = calm-Moves (stopped_send op v) s refl
  step-Moves (recv op) s h k c = calm-Moves (recv op) s refl
  step-Moves (stopped_recv op) s h k c = calm-Moves (stopped_recv op) s refl
  step-Moves (try_recv op) s h k c = calm-Moves (try_recv op) s refl
  step-Moves (stop_recv op) s h k c = calm-Moves (stop_recv op) s refl
  step-Moves (drop_recv op) s h k c = calm-Moves (drop_recv op) s refl
  step-Moves clone_sender s h k c = calm-Moves clone_sender s refl

  pub step-Drops : (e : Event A) (s : Line A) → IsPrompt s → Drops s (line_step e s) (offered_by e)
  step-Drops (send op v) s h =
      unfold IsPrompt line_send in send-Drops op v s s.closed (offer-Moves op v s s.slot h)
  step-Drops (stop_send op) s h = stop_waiting-Drops op s (waits op s.line)
  step-Drops (drop_send op) s h = (
    [],
    sym (append-nil s.log),
    unfold delivered in rw append-nil (withdraw-IsSubsequence op s.line),
  )
  step-Drops release_sender s h = release-Drops s (s.senders == 1)
  step-Drops drop_receiver s h = close-Drops s
  step-Drops close s h = close-Drops s
  step-Drops (stopped_send op v) s h =
      Drops-of_Moves s (line_step (stopped_send op v) s) [] (calm-Moves (stopped_send op v) s refl)
  step-Drops (recv op) s h =
      Drops-of_Moves s (line_step (recv op) s) [] (calm-Moves (recv op) s refl)
  step-Drops (stopped_recv op) s h =
      Drops-of_Moves s (line_step (stopped_recv op) s) [] (calm-Moves (stopped_recv op) s refl)
  step-Drops (try_recv op) s h =
      Drops-of_Moves s (line_step (try_recv op) s) [] (calm-Moves (try_recv op) s refl)
  step-Drops (stop_recv op) s h =
      Drops-of_Moves s (line_step (stop_recv op) s) [] (calm-Moves (stop_recv op) s refl)
  step-Drops (drop_recv op) s h =
      Drops-of_Moves s (line_step (drop_recv op) s) [] (calm-Moves (drop_recv op) s refl)
  step-Drops clone_sender s h =
      Drops-of_Moves s (line_step clone_sender s) [] (calm-Moves clone_sender s refl)
