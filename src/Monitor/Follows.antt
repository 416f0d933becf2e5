-- ===== src/Monitor/Follows.antt =====
-- A node that comes, changes and goes while `watch_path` of config_monitor.hpp watches it: the
-- handlers of cppzk.hpp and the callbacks of the monitor, in step with the server. The request for
-- the existence of the path sets its watch when it completes, and a watch fires once. Requests
-- complete with what the node then is, reads in their order.
pub mod Watched
pub mod Invariant
pub mod Turns
pub mod Settling
pub mod Current
pub mod Missed
use config_monitor.Base.{
  ℕ, Bool, true, false, Option, none, some, List, [], ◌∷◌, ◌++◌, Text, if◌then◌else◌,
}
use config_monitor.Zk.Types.{
  zok, znonode, ZkEvent, zk_created_event, zk_changed_event, zk_deleted_event,
}
use config_monitor.Zk.Watch.{
  awexists, awget, awget_children2, call_exists, call_get, call_children, Completion, stat, value,
  on_event, on_completion,
}
use config_monitor.Zk.Watch.World.{resent}
use config_monitor.Monitor.{
  Callback, ConfigMonitor, Notification, Reaction, ZkClient, ZkOutput, on_exists, on_get,
}

-- A path has no node, or one with a value or without.
abbrev pub Node : Type 0
Node = Option (Option Text)

-- `asking` is true while the request for the existence is out; `reading` has the user data of the
-- reads that are out; `told` has the latest notification first.
pub record Followed : Type 0 where
  pub node : Node
  pub monitor : ConfigMonitor
  pub asking : Bool
  pub reading : List ℕ
  pub told : List Notification

pub data Turn : Type 0 where
  becomes : Node → Turn
  answers : Turn
  reads : Turn

abbrev pub read_ids : List ZkOutput → List ℕ
read_ids [] = []
read_ids (awget path watching id ∷ rest) = id ∷ read_ids rest
read_ids (_ ∷ rest) = read_ids rest

abbrev pub absorb : Reaction → Followed → Followed
absorb r f = record f {
  monitor = r.state;
  reading = f.reading ++ read_ids r.sent;
  told = r.told ++ f.told;
}

-- The calls that a completion makes reach the monitor.
abbrev pub react : List ZkOutput → Followed → Followed
react [] f = f
react (call_exists cl ec eve ∷ rest) f = react rest (absorb (on_exists cl ec eve f.monitor) f)
react (call_get cl ec eve path val ∷ rest) f =
    react rest (absorb (on_get cl ec eve path val f.monitor) f)
react (_ ∷ rest) f = react rest f

abbrev pub with_client : Followed → ZkClient → Followed
with_client f c = record f { monitor = record f.monitor { client = c } }

-- What the C client tells of a change, and what its requests complete with.
abbrev pub event_between : Node → Node → Option ZkEvent
event_between none none = none
event_between none (some w) = some zk_created_event
event_between (some v) none = some zk_deleted_event
event_between (some v) (some w) = some zk_changed_event

abbrev pub existence : Node → Completion
existence none = stat znonode
existence (some v) = stat zok

abbrev pub content : Node → Completion
content none = value znonode none
content (some v) = value zok v

abbrev pub reads_of : List ℕ → List Turn
reads_of [] = []
reads_of (x ∷ xs) = reads ∷ reads_of xs

-- The watch of the path `p` has its user data at `id`. None is a look at data that is gone.
module _ (p : Text) (id : ℕ) where
  unfoldable pub fire : ZkEvent → Node → Followed → Option Followed
  fire eve n f = elim (on_event id eve p f.monitor.client) [
    | none ↦ none
    | some (c, out) ↦ some (record (with_client f c) { node = n; asking = resent out })
  ]

  unfoldable pub turn : Turn → Followed → Option Followed
  unfolding fire
  turn (becomes n) f =
      if f.asking then some (record f { node = n }) else elim (event_between f.node n) [
        | none ↦ some (record f { node = n })
        | some eve ↦ fire eve n f
      ]
  turn answers f =
      if f.asking
      then elim (on_completion id (existence f.node) f.monitor.client) [
        | none ↦ none
        | some (c, out) ↦ some (react out (record (with_client f c) { asking = false }))
      ]
      else some f
  turn reads f = elim f.reading [
    | [] ↦ some f
    | i ∷ rest ↦ elim (on_completion i (content f.node) f.monitor.client) [
      | none ↦ none
      | some (c, out) ↦ some (react out (record (with_client f c) { reading = rest }))
    ]
  ]

  unfoldable pub turns : List Turn → Followed → Option Followed
  unfolding turn
  turns [] f = some f
  turns (t ∷ rest) f = elim (turn t f) [ none ↦ none | some f' ↦ turns rest f' ]

  -- What is out arrives: the answer, then the reads that are out with it.
  unfoldable pub settle : Followed → Option Followed
  unfolding turn turns
  settle f = elim (turn answers f) [ none ↦ none | some f' ↦ turns (reads_of f'.reading) f' ]
