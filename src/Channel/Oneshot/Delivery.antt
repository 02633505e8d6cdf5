-- ===== src/Channel/Oneshot/Delivery.antt =====
use mathlib.Core.List.{append-nil}
use quickjs_runtime.Channel.Oneshot.{
  Happened, Oneshot, Outcome, Use, accepted_settle, channel, close, completed, destroy,
  destroy_recv, refused, send, send_error, set_error, set_value, settle, settle_open, settled_with,
  start, start_recv, start_with, use_all, use_once,
}
use quickjs_runtime.Common.{
  Bool, List, Option, [], ap, arith, false, if_holds, if◌then◌else◌, inl, inr, length, none, refl,
  some, sym, true, ◌++◌, ◌∙◌, ◌∷◌, ◌≡◌, ◌≤◌, ◌⊎◌,
}

-- What a oneshot channel of include/dart_cpp_bridge/channel.hpp delivers.
-- The receiver is not started, waits, or was destroyed while it waited.
abbrev IsFlagged : Bool → Bool → Bool → Type 0
IsFlagged waiting detached rx =
    ((waiting ≡ false) × (detached ≡ false) × (rx ≡ true))
    ⊎ ((waiting ≡ true) × (detached ≡ false) × (rx ≡ false))
    ⊎ ((waiting ≡ false) × (detached ≡ true) × (rx ≡ false))

module _ {A E : Type 0} where
  -- The settles that returned true, and the completions of the receiver's operation.
  unfoldable pub accepted_of : List (Happened A E) → List (Outcome A E)
  accepted_of [] = []
  accepted_of (settled_with o b ∷ log) = let rest = accepted_of log in if b then o ∷ rest else rest
  accepted_of (completed o ∷ log) = accepted_of log

  unfoldable pub completions : List (Happened A E) → List (Outcome A E)
  completions [] = []
  completions (settled_with o b ∷ log) = completions log
  completions (completed o ∷ log) = o ∷ completions log

  accepted_of-append :
      (l m : List (Happened A E)) → accepted_of (l ++ m) ≡ accepted_of l ++ accepted_of m
  unfolding accepted_of
  accepted_of-append [] m = refl
  accepted_of-append (settled_with o true ∷ l) m = ap (λ t. o ∷ t) (accepted_of-append l m)
  accepted_of-append (settled_with o false ∷ l) m = accepted_of-append l m
  accepted_of-append (completed o ∷ l) m = accepted_of-append l m

  completions-append :
      (l m : List (Happened A E)) → completions (l ++ m) ≡ completions l ++ completions m
  unfolding completions
  completions-append [] m = refl
  completions-append (settled_with o b ∷ l) m = completions-append l m
  completions-append (completed o ∷ l) m = ap (λ t. o ∷ t) (completions-append l m)

  abbrev IsSoundOf :
      Option (Outcome A E) → Bool → Bool → Bool → List (Outcome A E) → List (Outcome A E) → Type 0
  IsSoundOf none waiting detached rx acc comp =
      IsFlagged waiting detached rx × (acc ≡ []) × (comp ≡ [])
  IsSoundOf (some o) waiting detached rx acc comp =
      (waiting ≡ false) × (acc ≡ o ∷ []) × (comp ≡ (if rx then [] else o ∷ []))

  unfoldable IsSound : Oneshot A E → Type 0
  IsSound s = IsSoundOf s.payload s.waiting s.detached s.rx (accepted_of s.log) (completions s.log)

  sound_open :
      (s : Oneshot A E)
      → IsSoundOf none s.waiting s.detached s.rx (accepted_of s.log) (completions s.log)
      → IsFlagged s.waiting s.detached s.rx × (accepted_of s.log ≡ []) × (completions s.log ≡ [])
  sound_open s h = h

  refused-IsSound : (s : Oneshot A E) (o : Outcome A E) → IsSound s → IsSound (refused o s)
  unfolding IsSound accepted_of completions
  refused-IsSound s o h =
      rw
        (
          accepted_of-append,
          completions-append,
          append-nil (accepted_of s.log),
          append-nil (completions s.log),
        )
        h

  accepted-IsSound :
      (s : Oneshot A E) (o : Outcome A E) (w r : Bool)
      → IsFlagged w false r
      → accepted_of s.log ≡ []
      → completions s.log ≡ []
      → IsSound (accepted_settle o (record s { waiting = w; detached = false; rx = r }))
  unfolding IsSound accepted_of completions
  accepted-IsSound s o true false f a c =
      (refl, rw (accepted_of-append, a) refl, rw (completions-append, c) refl)
  accepted-IsSound s o false true f a c =
      (refl, rw (accepted_of-append, a) refl, rw (completions-append, c) refl)
  accepted-IsSound s o true true f a c = absurd (ground arith)
  accepted-IsSound s o false false f a c = absurd (ground arith)

  settle_open-IsSound :
      (s : Oneshot A E) (o : Outcome A E) (p : Option (Outcome A E)) (d : Bool)
      → let t = record s { payload = p; detached = d } in IsSound t → IsSound (settle_open o t p)
  settle_open-IsSound s o (some x) d h =
      refused-IsSound (record s { payload = some x; detached = d }) o h
  settle_open-IsSound s o none true h =
      refused-IsSound (record s { payload = none; detached = true }) o h
  settle_open-IsSound s o none false h =
      let (f, a, c) = sound_open (record s { detached = false }) (unfold IsSound in h) in
      accepted-IsSound s o s.waiting s.rx f a c

  settle-IsSound : (s : Oneshot A E) (o : Outcome A E) → IsSound s → IsSound (settle o s)
  settle-IsSound s o h =
      unfold settle in
      if_holds IsSound s.tx (settle_open o s s.payload) (refused o s)
        (settle_open-IsSound s o s.payload s.detached h) (refused-IsSound s o h)

  start-IsSound :
      (s : Oneshot A E) (p : Option (Outcome A E)) (w d : Bool)
      → IsSound (record s { payload = p; waiting = w; detached = d; rx = true })
      → IsSound (start_with (record s { payload = p; waiting = w; detached = d; rx = false }) p)
  unfolding IsSound accepted_of completions
  start-IsSound s none true d h = absurd (ground arith)
  start-IsSound s none false true h = absurd (ground arith)
  start-IsSound s none false false h = (inr (inl (refl, refl, refl)), h.1, h.2)
  start-IsSound s (some o) w d h =
      (h.0, rw (accepted_of-append, h.1) refl, rw (completions-append, h.2) refl)

  start_recv-IsSound :
      (s : Oneshot A E) (r : Bool)
      → IsSound (record s { rx = r })
      → IsSound (start_recv (record s { rx = r }))
  start_recv-IsSound s true h =
      unfold start_recv in start-IsSound s s.payload s.waiting s.detached h
  start_recv-IsSound s false h = unfold start_recv in h

  destroy-IsSound :
      (s : Oneshot A E) (p : Option (Outcome A E)) (w d r : Bool)
      → let t = record s { payload = p; waiting = w; detached = d; rx = r } in
        IsSound t → IsSound (destroy_recv t)
  unfolding IsSound destroy_recv
  destroy-IsSound s p false d r h = h
  destroy-IsSound s (some o) true d r h = cc
  destroy-IsSound s none true d true h = absurd (ground arith)
  destroy-IsSound s none true d false h = (inr (inr (refl, refl, refl)), h.1, h.2)

  use-IsSound : (u : Use A E) (s : Oneshot A E) → IsSound s → IsSound (use_once u s)
  unfolding use_once
  use-IsSound (send v) s h = settle-IsSound s (set_value (some v)) h
  use-IsSound (send_error e) s h = settle-IsSound s (set_error e) h
  use-IsSound close s h = settle-IsSound s (set_value none) h
  use-IsSound start s h = start_recv-IsSound s s.rx h
  use-IsSound destroy s h = destroy-IsSound s s.payload s.waiting s.detached s.rx h

  all-IsSound : (us : List (Use A E)) (s : Oneshot A E) → IsSound s → IsSound (use_all us s)
  unfolding use_all
  all-IsSound [] s h = h
  all-IsSound (u ∷ us) s h = all-IsSound us (use_once u s) (use-IsSound u s h)

  sound_delivers :
      (p : Option (Outcome A E)) (w d r : Bool) (acc comp : List (Outcome A E))
      → IsSoundOf p w d r acc comp
      → (length acc ≤ 1) × (comp ≡ (if r then [] else acc))
  sound_delivers none w d true acc comp h = (rw h.1 (omega arith), h.2)
  sound_delivers none w d false acc comp h = (rw h.1 (omega arith), h.2 ∙ sym h.1)
  sound_delivers (some o) w d r acc comp h =
      (rw h.1 (omega arith), h.2 ∙ ap (λ t. if r then [] else t) (sym h.1))

  -- Whatever the order in which the two ends are used: at most one send, error or close is accepted, and
  -- once the receiver was started its operation has completed with exactly what was accepted, once, or
  -- has not completed where nothing was.
  pub use_all_delivers :
      (us : List (Use A E))
      → let s = use_all us channel in
        (length (accepted_of s.log) ≤ 1)
        × (completions s.log ≡ (if s.rx then [] else accepted_of s.log))
  use_all_delivers us =
      let s = use_all us channel in
      sound_delivers s.payload s.waiting s.detached s.rx (accepted_of s.log) (completions s.log) (
        unfold IsSound in
        all-IsSound us channel
          (unfold IsSound accepted_of completions in (inl (refl, refl, refl), refl, refl)))
