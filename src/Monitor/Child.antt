-- ===== src/Monitor/Child.antt =====
-- A child that comes, changes and goes while `watch_sub_path` of config_monitor.hpp watches it: the
-- handlers of cppzk.hpp and the callback `monitor`, in step with the server. A read sets its watch
-- when it completes and the node is there; a watch fires once.
pub mod Course
pub mod Word
use config_monitor.Base.{Bool, true, false, Option, none, some, List, [], ◌∷◌, ◌++◌, Text, ℕ}
use config_monitor.Zk.Types.{ZkEvent}
use config_monitor.Zk.Watch.{call_exists, call_get, call_children, on_event, on_completion}
use config_monitor.Zk.Watch.World.{Phase, waiting, armed, resent}
use config_monitor.Monitor.{ConfigMonitor, Notification, Reaction, ZkClient, ZkOutput, on_get}
use config_monitor.Monitor.Follows.{Node, event_between, content}

-- `phase` is none when there is neither a read nor a watch; `told` has the latest first.
pub record Child : Type 0 where
  pub node : Node
  pub monitor : ConfigMonitor
  pub phase : Option Phase
  pub told : List Notification

pub data Turn : Type 0 where
  becomes : Node → Turn
  reads : Turn

-- The calls that a completion or an event makes reach the monitor.
abbrev pub hear : List ZkOutput → Child → Child
hear [] c = c
hear (call_get cl ec eve path val ∷ rest) c =
    let r = on_get cl ec eve path val c.monitor in
    hear rest (record c { monitor = r.state; told = r.told ++ c.told })
hear (_ ∷ rest) c = hear rest c

abbrev pub sent_again : Bool → Option Phase
sent_again true = some waiting
sent_again false = none

abbrev pub set_by_read : Node → Option Phase
set_by_read none = none
set_by_read (some v) = some armed

abbrev pub with_client : Child → ZkClient → Child
with_client c z = record c { monitor = record c.monitor { client = z } }

-- The read and the watch of the path `p` have their user data at `id`.
module _ (p : Text) (id : ℕ) where
  unfoldable pub fire : ZkEvent → Node → Child → Option Child
  fire eve n c = elim (on_event id eve p c.monitor.client) [
    | none ↦ none
    | some (z, out) ↦
        some (hear out (record (with_client c z) { node = n; phase = sent_again (resent out) }))
  ]

  unfoldable pub arrive : Child → Option Child
  arrive c = elim (on_completion id (content c.node) c.monitor.client) [
    | none ↦ none
    | some (z, out) ↦ some (hear out (record (with_client c z) { phase = set_by_read c.node }))
  ]

  -- A change when the watch is set, and when it is not; a read that is out, and none.
  unfoldable pub turn_in : Option Phase → Turn → Child → Option Child
  unfolding fire arrive
  turn_in (some armed) (becomes n) c = elim (event_between c.node n) [
    | none ↦ some (record c { node = n })
    | some eve ↦ fire eve n c
  ]
  turn_in (some waiting) (becomes n) c = some (record c { node = n })
  turn_in none (becomes n) c = some (record c { node = n })
  turn_in (some waiting) reads c = arrive c
  turn_in (some armed) reads c = some c
  turn_in none reads c = some c

  abbrev pub turn : Turn → Child → Option Child
  turn t c = turn_in c.phase t c

  unfoldable pub turns : List Turn → Child → Option Child
  unfolding turn_in
  turns [] c = some c
  turns (t ∷ rest) c = elim (turn t c) [ none ↦ none | some c' ↦ turns rest c' ]
