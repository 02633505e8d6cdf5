-- ===== src/Channel/Line/Order.antt =====
use mathlib.Core.List.{append-nil, append_assoc}
use mathlib.Core.Path.{subst}
use quickjs_runtime.Channel.Line.{
  Completion, Entry, Event, Line, accept_next, accepted, farewell, next_parked, only_accepted,
  parked, received, recv_stopped, recv_violation, refusals, send, send_stopped, sent, value_of,
  withdraw,
}
use quickjs_runtime.Common.{
  List, Option, [], ap, if_holds, map, none, refl, some, sym, ℕ, ◌++◌, ◌==◌, ◌∙◌, ◌∷◌, ◌≡◌, ◌⊎◌,
}

-- The order of the values of a line: what is received and what stands in the line are the values
-- offered, in their order, less those withdrawn or refused.
module _ {ℓ} {A : Type ℓ} where
  pub data IsSubsequence : List A → List A → Type ℓ where
    done : IsSubsequence [] []
    skip : {x : A} {l m : List A} → IsSubsequence l m → IsSubsequence l (x ∷ m)
    keep : {x : A} {l m : List A} → IsSubsequence l m → IsSubsequence (x ∷ l) (x ∷ m)

  pub subsequence_refl : (l : List A) → IsSubsequence l l
  subsequence_refl [] = done
  subsequence_refl (x ∷ l) = keep (subsequence_refl l)

  pub subsequence_of_eq : {l m : List A} → l ≡ m → IsSubsequence l m
  subsequence_of_eq {l} e = subst (IsSubsequence l) e (subsequence_refl l)

  pub subsequence_append :
      {l m : List A}
      → IsSubsequence l m
      → {a b : List A} → IsSubsequence a b
      → IsSubsequence (l ++ a) (m ++ b)
  subsequence_append done h = h
  subsequence_append (skip k) h = skip (subsequence_append k h)
  subsequence_append (keep k) h = keep (subsequence_append k h)

  pub subsequence_trans :
      {m n : List A} → IsSubsequence m n → {l : List A} → IsSubsequence l m → IsSubsequence l n
  subsequence_trans done h = h
  subsequence_trans (skip k) h = skip (subsequence_trans k h)
  subsequence_trans (keep k) (skip h) = skip (subsequence_trans k h)
  subsequence_trans (keep k) (keep h) = keep (subsequence_trans k h)

module _ {A : Type 0} where
  -- The values of the completions of receives, in their order.
  unfoldable pub delivered : List (Completion A) → List A
  delivered [] = []
  delivered (received op (some v) ∷ cs) = v ∷ delivered cs
  delivered (_ ∷ cs) = delivered cs

  abbrev pub offered_by : Event A → List A
  offered_by (send op v) = v ∷ []
  offered_by _ = []

  unfoldable pub offered : List (Event A) → List A
  offered [] = []
  offered (e ∷ es) = offered_by e ++ offered es

  -- The values that went through the line so far, then those that stand in it.
  unfoldable pub flow : Line A → List A
  flow s = delivered s.log ++ map value_of s.line

  -- A receive waits only for an empty line.
  unfoldable pub IsPrompt : Line A → Type 0
  IsPrompt s = (s.slot ≡ none) ⊎ (s.line ≡ [])

  pub delivered-append :
      (a b : List (Completion A)) → delivered (a ++ b) ≡ delivered a ++ delivered b
  unfolding delivered
  delivered-append [] b = refl
  delivered-append (received op (some v) ∷ a) b = ap (λ t. v ∷ t) (delivered-append a b)
  delivered-append (received op none ∷ a) b = delivered-append a b
  delivered-append (sent op c ∷ a) b = delivered-append a b
  delivered-append (send_stopped op ∷ a) b = delivered-append a b
  delivered-append (recv_stopped op ∷ a) b = delivered-append a b
  delivered-append (recv_violation op ∷ a) b = delivered-append a b

  pub delivered-next_parked : (l : List (Entry A)) → delivered (next_parked l) ≡ []
  unfolding delivered next_parked
  delivered-next_parked [] = refl
  delivered-next_parked (accepted v ∷ l) = delivered-next_parked l
  delivered-next_parked (parked op v ∷ l) = refl

  pub delivered-refusals : (l : List (Entry A)) → delivered (refusals l) ≡ []
  unfolding delivered refusals
  delivered-refusals [] = refl
  delivered-refusals (accepted v ∷ l) = delivered-refusals l
  delivered-refusals (parked op v ∷ l) = delivered-refusals l

  pub delivered-farewell : (slot : Option ℕ) → delivered (farewell slot) ≡ []
  unfolding delivered
  delivered-farewell none = refl
  delivered-farewell (some r) = refl

  pub values-accept_next : (l : List (Entry A)) → map value_of (accept_next l) ≡ map value_of l
  unfolding accept_next
  values-accept_next [] = refl
  values-accept_next (accepted v ∷ l) = ap (λ t. v ∷ t) (values-accept_next l)
  values-accept_next (parked op v ∷ l) = refl

  pub withdraw-IsSubsequence :
      (op : ℕ) (l : List (Entry A)) → IsSubsequence (map value_of (withdraw op l)) (map value_of l)
  unfolding withdraw
  withdraw-IsSubsequence op [] = done
  withdraw-IsSubsequence op (accepted v ∷ l) = keep (withdraw-IsSubsequence op l)
  withdraw-IsSubsequence op (parked i v ∷ l) =
      if_holds (λ t. IsSubsequence (map value_of t) (v ∷ map value_of l)) (i == op) l
        (parked i v ∷ withdraw op l) (skip (subsequence_refl (map value_of l)))
        (keep (withdraw-IsSubsequence op l))

  pub only_accepted-IsSubsequence :
      (l : List (Entry A)) → IsSubsequence (map value_of (only_accepted l)) (map value_of l)
  unfolding only_accepted
  only_accepted-IsSubsequence [] = done
  only_accepted-IsSubsequence (accepted v ∷ l) = keep (only_accepted-IsSubsequence l)
  only_accepted-IsSubsequence (parked op v ∷ l) = skip (only_accepted-IsSubsequence l)

  -- A step that appends completions to the log, delivers from the front of the line and adds at its
  -- end.
  abbrev pub Moves : Line A → Line A → List A → Type 0
  Moves s s' o =
      (cs : List (Completion A)) × (s'.log ≡ s.log ++ cs)
      × (delivered cs ++ map value_of s'.line ≡ map value_of s.line ++ o)

  -- The same for a step that may lose values.
  abbrev pub Drops : Line A → Line A → List A → Type 0
  Drops s s' o =
      (cs : List (Completion A)) × (s'.log ≡ s.log ++ cs)
      × IsSubsequence (delivered cs ++ map value_of s'.line) (map value_of s.line ++ o)

  pub flow-Moves : (s s' : Line A) (o : List A) → Moves s s' o → flow s' ≡ flow s ++ o
  unfolding flow
  flow-Moves s s' o (cs, logged, moved) =
      rw
        (
          logged,
          delivered-append,
          append_assoc (delivered s.log) (delivered cs),
          moved,
          ← append_assoc (delivered s.log),
        )
        refl

  pub flow-Drops :
      (s s' : Line A) (o : List A) → Drops s s' o → IsSubsequence (flow s') (flow s ++ o)
  unfolding flow
  flow-Drops s s' o (cs, logged, moved) =
      rw
        (
          logged,
          delivered-append,
          append_assoc (delivered s.log) (delivered cs),
          append_assoc (delivered s.log) (map value_of s.line),
        )
        (subsequence_append (subsequence_refl (delivered s.log)) moved)

  pub Drops-of_Moves : (s s' : Line A) (o : List A) → Moves s s' o → Drops s s' o
  Drops-of_Moves s s' o (cs, logged, moved) = (cs, logged, subsequence_of_eq moved)

  pub silent :
      (s s' : Line A) (o : List A)
      → s'.log ≡ s.log
      → map value_of s'.line ≡ map value_of s.line ++ o
      → Moves s s' o
  unfolding delivered
  silent s s' o e f = ([], e ∙ sym (append-nil s.log), f)
