-- ===== src/Monitor/Child/Course.antt =====
-- A watched child as the server sees it, with no handlers.
use config_monitor.Base.{none, some, List, [], ◌∷◌}
use config_monitor.Monitor.Follows.{Node}
use config_monitor.Monitor.Child.{Turn, becomes, reads}

-- A read is out, the watch is set, the watch has fired on the deletion, or a read found no node.
pub data Course : Type 0 where
  asked watched gone lost : Course

pub record Followed : Type 0 where
  pub node : Node
  pub course : Course

-- A change of a watched child. One that is watched is there.
abbrev pub fired : Node → Course
fired none = gone
fired (some v) = asked

abbrev pub found : Node → Course
found none = lost
found (some v) = watched

abbrev pub next_in : Course → Turn → Node → Followed
next_in watched (becomes n) old = record { node = n; course = fired n }
next_in asked (becomes n) old = record { node = n; course = asked }
next_in gone (becomes n) old = record { node = n; course = gone }
next_in lost (becomes n) old = record { node = n; course = lost }
next_in asked reads old = record { node = old; course = found old }
next_in watched reads old = record { node = old; course = watched }
next_in gone reads old = record { node = old; course = gone }
next_in lost reads old = record { node = old; course = lost }

abbrev pub next : Turn → Followed → Followed
next t f = next_in f.course t f.node

abbrev pub after : List Turn → Followed → Followed
after [] f = f
after (t ∷ ts) f = after ts (next t f)
