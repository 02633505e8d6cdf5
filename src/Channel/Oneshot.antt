-- ===== src/Channel/Oneshot.antt =====
-- include/dart_cpp_bridge/channel.hpp, `co::oneshot`: one value, or an error, for one receiver.
pub mod Delivery
use quickjs_runtime.Common.{
  Bool, List, Option, [], false, if◌then◌else◌, none, some, true, ◌++◌, ◌∷◌,
}

-- What the receiver's operation completes with: `set_value` of an optional, or `set_error`.
pub data Outcome (A E : Type 0) : Type 0 where
  set_value : Option A → Outcome A E
  set_error : E → Outcome A E

-- What happened: a settle of the sender returned true or false, or the operation completed.
pub data Happened (A E : Type 0) : Type 0 where
  settled_with : Outcome A E → Bool → Happened A E
  completed : Outcome A E → Happened A E

-- What the owners of the two ends do. The destructor of the sender is `close`.
pub data Use (A E : Type 0) : Type 0 where
  send : A → Use A E
  send_error : E → Use A E
  close start destroy : Use A E

pub record Oneshot (A E : Type 0) : Type 0 where
  -- The payload, with its status: `none` is kEmpty.
  pub payload : Option (Outcome A E)
  -- The operation of the receiver stands in `waiter`.
  pub waiting : Bool
  pub detached : Bool
  -- The sender and the receiver still hold the state.
  pub tx : Bool
  pub rx : Bool
  pub log : List (Happened A E)

module _ {A E : Type 0} where
  abbrev pub channel : Oneshot A E
  channel = record {
    payload = none;
    waiting = false;
    detached = false;
    tx = true;
    rx = true;
    log = [];
  }

  abbrev pub note : Oneshot A E → List (Happened A E) → Oneshot A E
  note s cs = record s { log = s.log ++ cs }

  abbrev pub refused : Outcome A E → Oneshot A E → Oneshot A E
  refused o s = note s (settled_with o false ∷ [])

  -- The payload is written, then the waiter is told; `deliver` runs before `settle` returns.
  abbrev pub accepted_settle : Outcome A E → Oneshot A E → Oneshot A E
  accepted_settle o s =
      note (record s { payload = some o; waiting = false; tx = false })
        ((if s.waiting then completed o ∷ [] else []) ++ (settled_with o true ∷ []))

  abbrev pub settle_open : Outcome A E → Oneshot A E → Option (Outcome A E) → Oneshot A E
  settle_open o s (some p) = refused o s
  settle_open o s none = if s.detached then refused o s else accepted_settle o s

  unfoldable pub settle : Outcome A E → Oneshot A E → Oneshot A E
  settle o s = if s.tx then settle_open o s s.payload else refused o s

  abbrev pub start_with : Oneshot A E → Option (Outcome A E) → Oneshot A E
  start_with s none = record s { waiting = true }
  start_with s (some o) = note s (completed o ∷ [])

  -- `connect` takes the receiver's state, so it is started once.
  unfoldable pub start_recv : Oneshot A E → Oneshot A E
  start_recv s = if s.rx then start_with (record s { rx = false }) s.payload else s

  unfoldable pub destroy_recv : Oneshot A E → Oneshot A E
  destroy_recv s = if s.waiting then record s { waiting = false; detached = true } else s

  unfoldable pub use_once : Use A E → Oneshot A E → Oneshot A E
  use_once (send v) s = settle (set_value (some v)) s
  use_once (send_error e) s = settle (set_error e) s
  use_once close s = settle (set_value none) s
  use_once start s = start_recv s
  use_once destroy s = destroy_recv s

  unfoldable pub use_all : List (Use A E) → Oneshot A E → Oneshot A E
  use_all [] s = s
  use_all (u ∷ us) s = use_all us (use_once u s)
