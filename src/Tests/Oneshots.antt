-- ===== src/Tests/Oneshots.antt =====
use quickjs_runtime.Channel.Oneshot.{
  Use, channel, close, completed, destroy, destroy_recv, send, set_value, settle, settled_with,
  start, start_recv, use_all, use_once,
}
use quickjs_runtime.Channel.Oneshot.Delivery.{accepted_of, completions, use_all_delivers}
use quickjs_runtime.Common.{
  List, [], false, if◌then◌else◌, length, none, refl, some, true, ℕ, ◌∷◌, ◌≡◌, ◌≤◌,
}

-- Examples of oneshot channels.
-- The receiver waits, a value comes, and a second one is refused.
abbrev uses : List (Use ℕ ℕ)
uses = start ∷ send 7 ∷ send 8 ∷ close ∷ destroy ∷ []

uses_log :
    (use_all uses channel).log
    ≡ completed (set_value (some 7))
      ∷ settled_with (set_value (some 7)) true
      ∷ settled_with (set_value (some 8)) false
      ∷ settled_with (set_value none) false
      ∷ []
unfolding use_all use_once settle start_recv destroy_recv
uses_log = refl

cancelled_log :
    (use_all (start ∷ destroy ∷ send 7 ∷ []) (channel {A = ℕ} {E = ℕ})).log
    ≡ settled_with (set_value (some 7)) false ∷ []
unfolding use_all use_once settle start_recv destroy_recv
cancelled_log = refl

use_all_delivers_example :
    let s = use_all uses channel in
    (length (accepted_of s.log) ≤ 1)
    × (completions s.log ≡ (if s.rx then [] else accepted_of s.log))
use_all_delivers_example = use_all_delivers uses
