-- ===== src/Monitor/Tests.antt =====
-- Listings and a lost session of src/config_monitor.hpp.
mod Expired
mod Removed
mod Followed
mod Children
use config_monitor.Base.{
  ℕ, ◌≡◌, refl, true, false, not, ◌&&◌, none, some, List, [], ◌∷◌, ◌++◌, map, Text, text, text_eq,
  ◌==◌, contains, if◌then◌else◌,
}
use config_monitor.Base.{nat_eq, ◌||◌}
use native.Mathlib.Decide.{ℕ_discrete}
use config_monitor.Base.Dict.{lookup, keys}
use config_monitor.Zk.Types.{make_ec, zok, has_error}
use config_monitor.Monitor.{ConfigMonitor, on_children, on_children_listed, on_expired}
use config_monitor.Monitor.SubPaths.{
  Watches, was_listed, on_children_listed-Watches, on_children_listed_again,
}
use config_monitor.Monitor.Records.{watched_existence, on_expired-records}

abbrev pub prefix : Text
prefix = text "/a"

-- A monitor with a watch on a path and one on the sub-paths of another, listed once.
abbrev pub monitoring : ConfigMonitor
monitoring = record {
  client = record { heap = []; next = 2 };
  last_sub_path = (prefix, text "b" ∷ []) ∷ [];
  watch_record = (text "/c", 3) ∷ [];
  watch_sub_record = (prefix, 4) ∷ [];
}

fine : has_error (make_ec zok) ≡ false
unfolding has_error make_ec
fine = refl

listed_before : lookup prefix monitoring.last_sub_path ≡ some (text "b" ∷ [])
unfolding lookup text_eq ℕ_discrete
listed_before = refl

known : contains (text "b" ∷ []) (text "b") ≡ true
unfolding text_eq ℕ_discrete
known = refl

on_children_listed_again_example :
    (on_children_listed (on_children prefix 4) (make_ec zok) (text "b" ∷ []) monitoring).sent ≡ []
on_children_listed_again_example =
    on_children_listed_again prefix 4 (make_ec zok) (text "b" ∷ []) (text "b" ∷ []) monitoring fine
      listed_before (known, tt)

pub alone : (p : Text) → lookup {V = ℕ} p [] ≡ none
unfolding lookup
alone p = refl

on_expired-records_example :
    (let r = on_expired monitoring in
      ((p : Text) → lookup p r.state.watch_record ≡ lookup p monitoring.watch_record)
      × ((p : Text) → lookup p r.state.watch_sub_record ≡ lookup p monitoring.watch_sub_record)
      × (r.state.last_sub_path ≡ [])
      × (map watched_existence r.sent
          ≡ map some (keys monitoring.watch_record) ++ map some (keys monitoring.watch_sub_record)))
on_expired-records_example =
    on_expired-records monitoring (alone (text "/c"), tt) (alone prefix, tt)

-- A client that has set a watch for the existence of `/c`.
