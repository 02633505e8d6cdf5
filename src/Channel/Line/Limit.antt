-- ===== src/Channel/Line/Limit.antt =====
use quickjs_runtime.Channel.Line.{
  Entry, Event, Line, clone_sender, close, drop_receiver, drop_recv, drop_send, farewell, join_line,
  line_close, line_recv, line_run, line_send, line_step, offer, only_accepted, receive, received,
  recv, recv_stopped, refusals, release_sender, room, said, send, sent, stop_recv, stop_send,
  stop_slot, stop_waiting, stopped_recv, stopped_send, try_receive, try_recv, wait_for, waits,
}
use quickjs_runtime.Common.{
  Bool, List, Option, [], false, if_holds, if◌then◌else◌, length, none, refl, some, true, ℕ, ◌++◌,
  ◌-◌, ◌==◌, ◌∙◌, ◌∷◌, ◌≡◌,
}

-- No event changes the capacity of a line.
module _ {A : Type 0} where
  limit-join : (op : ℕ) (v : A) (s : Line A) (b : Bool) → (join_line op v s b).limit ≡ s.limit
  limit-join op v s true = refl
  limit-join op v s false = refl

  limit-offer :
      (op : ℕ) (v : A) (s : Line A) (slot : Option ℕ) → (offer op v s slot).limit ≡ s.limit
  limit-offer op v s none = limit-join op v s (room s.limit (length s.line))
  limit-offer op v s (some r) = refl

  limit-wait : (op : ℕ) (s : Line A) (slot : Option ℕ) → (wait_for op s slot).limit ≡ s.limit
  limit-wait op s none = refl
  limit-wait op s (some r) = refl

  if_limit :
      (b : Bool) (s x y : Line A)
      → x.limit ≡ s.limit
      → y.limit ≡ s.limit
      → (if b then x else y).limit ≡ s.limit
  if_limit b s x y h k = if_holds (λ (t : Line A). t.limit ≡ s.limit) b x y h k

  limit-receive : (op : ℕ) (s : Line A) (l : List (Entry A)) → (receive op s l).limit ≡ s.limit
  limit-receive op s (e ∷ l) = refl
  limit-receive op s [] =
      if_limit s.closed s (said s (received op none ∷ [])) (wait_for op s s.slot) refl
        (limit-wait op s s.slot)

  limit-try_receive :
      (op : ℕ) (s : Line A) (l : List (Entry A)) → (try_receive op s l).limit ≡ s.limit
  limit-try_receive op s (e ∷ l) = refl
  limit-try_receive op s [] = refl

  limit-stop_slot : (op : ℕ) (s : Line A) (slot : Option ℕ) → (stop_slot op s slot).limit ≡ s.limit
  limit-stop_slot op s none = refl
  limit-stop_slot op s (some r) =
      if_limit (r == op) s (said (record s { slot = none }) (recv_stopped op ∷ [])) s refl refl

  limit-stop_waiting : (op : ℕ) (s : Line A) (b : Bool) → (stop_waiting op s b).limit ≡ s.limit
  limit-stop_waiting op s true = refl
  limit-stop_waiting op s false = refl

  limit-close : (s : Line A) → (line_close s).limit ≡ s.limit
  unfolding line_close
  limit-close s =
      if_limit s.closed s s
        (said (record s { line = only_accepted s.line; slot = none; closed = true })
          (farewell s.slot ++ refusals s.line))
        refl refl

  limit-step : (e : Event A) (s : Line A) → (line_step e s).limit ≡ s.limit
  limit-step (send op v) s =
      unfold line_send in
      if_limit s.closed s (said s (sent op false ∷ [])) (offer op v s s.slot) refl
        (limit-offer op v s s.slot)
  limit-step (stopped_send op v) s = refl
  limit-step (stop_send op) s = limit-stop_waiting op s (waits op s.line)
  limit-step (drop_send op) s = refl
  limit-step (recv op) s = unfold line_recv in limit-receive op s s.line
  limit-step (stopped_recv op) s = refl
  limit-step (try_recv op) s = limit-try_receive op s s.line
  limit-step (stop_recv op) s = limit-stop_slot op s s.slot
  limit-step (drop_recv op) s = refl
  limit-step clone_sender s = refl
  limit-step release_sender s =
      let t = record s { senders = s.senders - 1 } in
      if_limit (s.senders == 1) s (line_close t) t (limit-close t) refl
  limit-step drop_receiver s = limit-close s
  limit-step close s = limit-close s

  pub limit-run : (es : List (Event A)) (s : Line A) → (line_run es s).limit ≡ s.limit
  unfolding line_run
  limit-run [] s = refl
  limit-run (e ∷ es) s = limit-run es (line_step e s) ∙ limit-step e s
