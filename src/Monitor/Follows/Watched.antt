-- ===== src/Monitor/Follows/Watched.antt =====
-- A watched node as the server sees it, with no handlers: whether the question for its existence is
-- out, and the event that the question follows.
use config_monitor.Base.{
  ◌≡◌, Bool, true, false, not, ◌||◌, none, some, List, [], ◌∷◌, if◌then◌else◌,
}
use config_monitor.Zk.Types.{ZkEvent, zk_dummy_event, is_dummy_event, is_delete_event}
use config_monitor.Monitor.Follows.{Node, Turn, becomes, answers, reads, event_between}

pub record Watched : Type 0 where
  pub node : Node
  pub asking : Bool
  pub event : ZkEvent

-- The question of `watch_path` follows no event.
abbrev pub first_asked : Node → Watched
first_asked n = record { node = n; asking = true; event = zk_dummy_event }

abbrev pub next : Turn → Watched → Watched
next (becomes n) w = if w.asking then record w { node = n } else elim (event_between w.node n) [
  | none ↦ record w { node = n }
  | some eve ↦ record { node = n; asking = true; event = eve }
]
next answers w = record w { asking = false }
next reads w = w

abbrev pub after : List Turn → Watched → Watched
after [] w = w
after (t ∷ ts) w = after ts (next t w)

-- The node is gone after a deletion, and there after another event.
abbrev pub agrees : ZkEvent → Node → Bool
agrees eve none = is_dummy_event eve || is_delete_event eve
agrees eve (some v) = not (is_delete_event eve)

abbrev pub IsUnmissed : Watched → Type 0
IsUnmissed w = w.asking ≡ true → agrees w.event w.node ≡ true

abbrev pub IsUnmissedBy : Turn → Watched → Type 0
IsUnmissedBy (becomes n) w = Unit
IsUnmissedBy answers w = IsUnmissed w
IsUnmissedBy reads w = Unit

-- Each answer, the one that is out at the end included, finds the node as the event before it left
-- it: there or gone.
abbrev pub AreUnmissed : List Turn → Watched → Type 0
AreUnmissed [] w = IsUnmissed w
AreUnmissed (t ∷ ts) w = IsUnmissedBy t w × AreUnmissed ts (next t w)
