-- ===== src/Web/Tee/Branches.antt =====
-- What the two branches give, whatever the order of the reads, pulls, cancels and destructions.
use mathlib.Core.List.{append-nil, append_assoc}
use quickjs_runtime.Common.{
  Bool, List, Option, [], ap, false, if◌then◌else◌, none, refl, some, suc, sym, true, ℕ, ◌&&◌, ◌++◌,
  ◌||◌, ◌∙◌, ◌∷◌, ◌≡◌,
}
use quickjs_runtime.Common.Bytes.{Bytes}
use quickjs_runtime.Web.Tee.{
  Branch, Event, Shared, Side, SourceResult, branch, cancel, cancel_source, cancels, close_branch,
  completed, completes, completes_pull, destroy, destroys, drop_branch, end_read, ends, gives,
  open_branch, popped, pushed, pushed_unless, reads, resume_all, run, side_a, side_b, step, tee,
  throws, turn, turn_with, unguard, wait_or_pull, wake_all, without_pull,
}

-- What a branch has given and holds is what the source gave, up to where the branch was closed.
abbrev pub IsFaithful : List Bytes → Branch → Type 0
IsFaithful log br =
    (rest : List Bytes) × (br.got ++ (br.buf ++ rest) ≡ log) × (br.closed ≡ false → rest ≡ [])

abbrev pub IsSound : Shared → Type 0
IsSound t = IsFaithful t.log t.a × IsFaithful t.log t.b × (t.pumping ≡ false) × (t.waiting ≡ [])

popped-IsFaithful :
    (log : List Bytes) (br : Branch) (v : Bytes) (rest : List Bytes)
    → br.buf ≡ v ∷ rest
    → IsFaithful log br
    → IsFaithful log (popped br v rest)
popped-IsFaithful log br v rest e (more, p, q) = (
  more,
  append_assoc br.got (v ∷ []) (rest ++ more)
      ∙ ap (λ (t : List Bytes). br.got ++ (t ++ more)) (sym e)
      ∙ p,
  q,
)

pushed_unless-IsFaithful :
    (c : Bool) (log : List Bytes) (br : Branch) (blk : Bytes)
    → br.closed ≡ c
    → IsFaithful log br
    → IsFaithful (log ++ (blk ∷ [])) (pushed_unless c blk br)
pushed_unless-IsFaithful true log br blk e (more, p, q) = (
  more ++ (blk ∷ []),
  ap (λ (t : List Bytes). br.got ++ t) (sym (append_assoc br.buf more (blk ∷ [])))
      ∙ sym (append_assoc br.got (br.buf ++ more) (blk ∷ []))
      ∙ ap (λ (t : List Bytes). t ++ (blk ∷ [])) p,
  λ c. cc (e, c),
)
pushed_unless-IsFaithful false log br blk e (more, p, q) = (
  [],
  ap (λ (t : List Bytes). br.got ++ t) (append-nil (br.buf ++ (blk ∷ [])))
      ∙ sym (append_assoc br.got br.buf (blk ∷ []))
      ∙ ap (λ (t : List Bytes). t ++ (blk ∷ []))
          (ap (λ (t : List Bytes). br.got ++ t)
              (sym (append-nil br.buf) ∙ ap (λ (r : List Bytes). br.buf ++ r) (sym (q e)))
            ∙ p),
  λ c. refl,
)

wait_or_pull-IsSound :
    (s : Side) (t : Shared) (pumping : Bool)
    → pumping ≡ false
    → IsSound t
    → IsSound (wait_or_pull s t pumping)
unfolding wait_or_pull
wait_or_pull-IsSound s t true h k = cc
wait_or_pull-IsSound s t false h k = k

either-IsSound : (c : Bool) (x y : Shared) → IsSound x → IsSound y → IsSound (if c then x else y)
either-IsSound true x y h k = h
either-IsSound false x y h k = k

turn_with-IsSound :
    (s : Side) (t : Shared) (e : Option ℕ) (buf : List Bytes)
    → (branch s t).buf ≡ buf
    → IsSound t
    → IsSound (turn_with s t e buf)
unfolding turn_with
turn_with-IsSound s t (some e) buf h k = k
turn_with-IsSound side_a t none (v ∷ rest) h (a, b, p, w) =
    (popped-IsFaithful t.log t.a v rest h a, b, p, w)
turn_with-IsSound side_b t none (v ∷ rest) h (a, b, p, w) =
    (a, popped-IsFaithful t.log t.b v rest h b, p, w)
turn_with-IsSound s t none [] h k =
    either-IsSound (t.done || (branch s t).closed) (end_read s ends t) (wait_or_pull s t t.pumping)
      k (wait_or_pull-IsSound s t t.pumping k.2 k)

turn-IsSound : (s : Side) (t : Shared) → IsSound t → IsSound (turn s t)
unfolding turn
turn-IsSound s t k = turn_with-IsSound s t t.error (branch s t).buf refl k

resume_all-IsSound : (ws : List Side) (t : Shared) → IsSound t → IsSound (resume_all ws t)
unfolding resume_all
resume_all-IsSound [] t k = k
resume_all-IsSound (s ∷ ws) t k = resume_all-IsSound ws (turn s t) (turn-IsSound s t k)

wake_all-IsSound : (t : Shared) → IsSound t → IsSound (wake_all t)
unfolding wake_all
wake_all-IsSound t (a, b, p, w) =
    resume_all-IsSound t.waiting (record t { waiting = [] }) (a, b, p, refl)

unguard-IsSound : (t : Shared) → IsSound t → IsSound (unguard t)
unguard-IsSound t (a, b, p, w) = (a, b, refl, w)

completed-IsSound :
    (s : Side) (r : SourceResult) (t : Shared) → IsSound t → IsSound (completed s r t)
unfolding completed
completed-IsSound s (throws e) t k =
    unguard-IsSound (wake_all (record t { error = some e }))
      (wake_all-IsSound (record t { error = some e }) k)
completed-IsSound s ends t k =
    let woken = wake_all (record t { done = true }) in
    turn-IsSound s (unguard woken)
      (unguard-IsSound woken (wake_all-IsSound (record t { done = true }) k))
completed-IsSound s (gives blk) t (a, b, p, w) =
    let given : Shared = record t {
      a = pushed blk t.a;
      b = pushed blk t.b;
      log = t.log ++ (blk ∷ []);
    } in
    turn-IsSound s (unguard (wake_all given)) (
      unguard-IsSound (wake_all given) (
        wake_all-IsSound given (
          pushed_unless-IsFaithful t.a.closed t.log t.a blk refl a,
          pushed_unless-IsFaithful t.b.closed t.log t.b blk refl b,
          p,
          w,
        )))

cancel_source-IsSound : (t : Shared) → IsSound t → IsSound (cancel_source t)
unfolding cancel_source
cancel_source-IsSound t k =
    either-IsSound (t.a.closed && t.b.closed) (record t { source_cancels = suc t.source_cancels }) t
      k k

close-IsFaithful :
    (log : List Bytes) (br : Branch) → IsFaithful log br → IsFaithful log (close_branch br)
close-IsFaithful log br (more, p, q) = (more, p, λ c. cc)

drop-IsFaithful :
    (log : List Bytes) (br : Branch) → IsFaithful log br → IsFaithful log (drop_branch br)
drop-IsFaithful log br (more, p, q) = (br.buf ++ more, p, λ c. cc)

cancel-IsSound : (s : Side) (t : Shared) → IsSound t → IsSound (cancel s t)
unfolding cancel
cancel-IsSound side_a t (a, b, p, w) = wake_all-IsSound _ (
    cancel_source-IsSound (record t { a = close_branch t.a })
      (close-IsFaithful t.log t.a a, b, p, w))
cancel-IsSound side_b t (a, b, p, w) = wake_all-IsSound _ (
    cancel_source-IsSound (record t { b = close_branch t.b })
      (a, close-IsFaithful t.log t.b b, p, w))

destroy-IsSound : (s : Side) (t : Shared) → IsSound t → IsSound (destroy s t)
unfolding destroy
destroy-IsSound side_a t (a, b, p, w) =
    cancel_source-IsSound (record t { a = drop_branch t.a }) (drop-IsFaithful t.log t.a a, b, p, w)
destroy-IsSound side_b t (a, b, p, w) =
    cancel_source-IsSound (record t { b = drop_branch t.b }) (a, drop-IsFaithful t.log t.b b, p, w)

completes_pull-IsSound :
    (s : Side) (r : SourceResult) (t : Shared) (o : Option (List Side))
    → IsSound t
    → IsSound (completes_pull s r t o)
completes_pull-IsSound s r t none k = k
completes_pull-IsSound s r t (some pulls) k = completed-IsSound s r (record t { pulls = pulls }) k

step-IsSound : (t : Shared) (e : Event) → IsSound t → IsSound (step t e)
unfolding step
step-IsSound t (reads s) k = turn-IsSound s t k
step-IsSound t (cancels s) k = cancel-IsSound s t k
step-IsSound t (destroys s) k = destroy-IsSound s t k
step-IsSound t (completes s r) k = completes_pull-IsSound s r t (without_pull s t.pulls) k

run-IsSound : (t : Shared) (es : List Event) → IsSound t → IsSound (run t es)
unfolding run
run-IsSound t [] k = k
run-IsSound t (e ∷ es) k = run-IsSound (step t e) es (step-IsSound t e k)

tee-IsSound : IsSound tee
unfolding tee open_branch
tee-IsSound = (([], refl, λ c. refl), ([], refl, λ c. refl), refl, refl)

-- The member of the invariant for the loop of a read that has to wait or to pull.
pulls_again :
    (s : Side) (t : Shared) (error : Option ℕ) (buf : List Bytes)
    → error ≡ none
    → buf ≡ []
    → (t.done || (branch s t).closed) ≡ false
    → t.pumping ≡ false
    → turn_with s t error buf ≡ record t { pulls = t.pulls ++ (s ∷ []) }
unfolding turn_with wait_or_pull
pulls_again s t (some e) buf h k l p = cc
pulls_again s t none (v ∷ rest) h k l p = cc
pulls_again s t none [] h k l p = rw (l, p) refl

-- After any events since `tee`, a read of a branch that is open, with an empty buffer, while the source
-- has neither ended nor failed, starts one more pull of the source at once, however many pulls are in
-- flight already, those of the other branch included: it never waits for one of them.
pub reads_start_pulls :
    (es : List Event) (s : Side)
    → let t = run tee es in
      t.error ≡ none
      → (branch s t).buf ≡ []
      → (t.done || (branch s t).closed) ≡ false
      → ((step t (reads s)).pulls ≡ t.pulls ++ (s ∷ [])) × ((step t (reads s)).waiting ≡ [])
unfolding step turn
reads_start_pulls es s no_error nothing_kept is_open =
    let t = run tee es in
    let k = run-IsSound tee es tee-IsSound in
    let e = pulls_again s t t.error (branch s t).buf no_error nothing_kept is_open k.2 in
    (ap (λ (r : Shared). r.pulls) e, ap (λ (r : Shared). r.waiting) e ∙ k.3)
