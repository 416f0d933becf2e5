-- ===== src/Monitor/Listings.antt =====
-- The children of a path that `watch_sub_path` of config_monitor.hpp watches, while the path stays:
-- the handlers of cppzk.hpp and the callback on listings, in step with the server. A listing sets
-- its watch when it completes, and a watch fires once, on any change of the children.
pub mod Steps
pub mod Follows
use config_monitor.Base.{
  ℕ, Bool, true, false, Option, none, some, List, [], ◌∷◌, ◌++◌, Text, if◌then◌else◌,
}
use config_monitor.Zk.Types.{no_error, zok, zk_dummy_event, zk_child_event}
use config_monitor.Zk.Watch.{call_exists, call_get, call_children, strings, on_event, on_completion}
use config_monitor.Zk.Watch.World.{resent}
use config_monitor.Monitor.{
  Callback, ConfigMonitor, ZkClient, ZkOutput, on_prefix, on_exists, on_children_listed,
}

-- `asking` is true while a listing is out; `sent` has the requests of the monitor, in their order.
pub record Listing : Type 0 where
  pub names : List Text
  pub monitor : ConfigMonitor
  pub asking : Bool
  pub sent : List ZkOutput

pub data Turn : Type 0 where
  becomes : List Text → Turn
  answers : Turn

-- The calls that a completion makes reach the monitor.
abbrev pub hear : List ZkOutput → Listing → Listing
hear [] l = l
hear (call_children cl ec sub_paths ∷ rest) l =
    let r = on_children_listed cl ec sub_paths l.monitor in
    hear rest (record l { monitor = r.state; sent = l.sent ++ r.sent })
hear (_ ∷ rest) l = hear rest l

abbrev pub with_client : Listing → ZkClient → Listing
with_client l c = record l { monitor = record l.monitor { client = c } }

-- The listing of `prefix` and its watch have their user data at `id`.
module _ (prefix : Text) (id : ℕ) where
  unfoldable pub fire : List Text → Listing → Option Listing
  fire names l = elim (on_event id zk_child_event prefix l.monitor.client) [
    | none ↦ none
    | some (c, out) ↦ some (record (with_client l c) { names = names; asking = resent out })
  ]

  unfoldable pub arrive : Listing → Option Listing
  arrive l = elim (on_completion id (strings zok (some l.names)) l.monitor.client) [
    | none ↦ none
    | some (c, out) ↦ some (hear out (record (with_client l c) { asking = false }))
  ]

  unfoldable pub turn_in : Bool → Turn → Listing → Option Listing
  unfolding fire arrive
  turn_in true (becomes names) l = some (record l { names = names })
  turn_in false (becomes names) l = fire names l
  turn_in true answers l = arrive l
  turn_in false answers l = some l

  unfoldable pub turns : List Turn → Listing → Option Listing
  unfolding turn_in
  turns [] l = some l
  turns (t ∷ rest) l = elim (turn_in l.asking t l) [ none ↦ none | some l' ↦ turns rest l' ]

-- What the answer leaves that finds the path: the listing is out.
abbrev pub first_listing : Text → Callback → List Text → ConfigMonitor → Listing
first_listing prefix cb names m = record {
  names = names;
  monitor = (on_exists (on_prefix prefix cb) no_error zk_dummy_event m).state;
  asking = true;
  sent = [];
}
