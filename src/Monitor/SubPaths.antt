-- ===== src/Monitor/SubPaths.antt =====
-- The sub-paths that `watch_sub_path` of config_monitor.hpp monitors: what its callback on a
-- listing asks for, and what it remembers of it.
use config_monitor.Base.{
  ◌≡◌, refl, Bool, true, false, not, Option, none, some, List, [], ◌∷◌, arith, Text, text_eq, ◌==◌,
  contains, map, All, ◌&&◌, inl, inr, Option-cases, if◌then◌else◌,
}
use config_monitor.Base.Dict.{lookup, lookup-assign, lookup-emplace}
use config_monitor.Zk.Types.{ErrorCode, has_error}
use config_monitor.Zk.Delete.{child_path}
use config_monitor.Zk.Watch.{
  awexists, awget, awget_children2, call_exists, call_get, call_children, async_get_path_value,
}
use config_monitor.Monitor.{
  Callback, ConfigMonitor, ZkClient, ZkOutput, monitor, monitor_all, new_paths, on_children,
  on_children_listed,
}

-- A request for a value with a watch on the path, and the path.
abbrev pub watched_read : ZkOutput → Option Text
watched_read (awget path advanced id) = if advanced then some path else none
watched_read (awexists _ _) = none
watched_read (awget_children2 _ _ _) = none
watched_read (call_exists _ _ _) = none
watched_read (call_get _ _ _ _ _) = none
watched_read (call_children _ _ _) = none

-- The requests that watch exactly these children, one each and in order.
abbrev pub Watches : Text → List Text → List ZkOutput → Type 0
Watches prefix names sent =
    map watched_read sent ≡ map (λ name. some (child_path prefix name)) names

monitor_all-Watches :
    (prefix : Text) (cb : Callback) (names : List Text) (c : ZkClient)
    → Watches prefix names (monitor_all prefix cb names c).1
unfolding monitor_all async_get_path_value
monitor_all-Watches prefix cb [] c = refl
monitor_all-Watches prefix cb (n ∷ names) c =
    let (c', _) = async_get_path_value true (child_path prefix n) (monitor prefix cb) c in
    rw (monitor_all-Watches prefix cb names c')

contains_same :
    (known : List Text) (n name : Text)
    → (n == name) ≡ true
    → contains known n ≡ contains known name
contains_same known n name e = ground arith

contains-new_paths :
    (known names : List Text) (n : Text)
    → contains (new_paths known names) n ≡ (contains names n && not (contains known n))
unfolding new_paths
contains-new_paths known [] n = refl
contains-new_paths known (name ∷ names) n =
    ground (arith, contains-new_paths known names n, contains_same known n name)

new_paths_none :
    (known names : List Text)
    → All (λ n. contains known n ≡ true) names
    → new_paths known names ≡ []
unfolding new_paths
new_paths_none known [] all = refl
new_paths_none known (name ∷ names) (here, all) = ground (arith, new_paths_none known names all)

-- Is it a child that was listed the last time?
abbrev pub was_listed : Text → Text → ConfigMonitor → Bool
was_listed prefix n m = elim (lookup prefix m.last_sub_path) [
  | some known ↦ contains known n
  | none ↦ false
]

-- A listing without an error sends one watched read each for some names: those are the listed
-- names that were not listed the last time, and no others. It calls no callback of the user,
-- and it is what is remembered for the prefix; what is remembered for other prefixes stays.
pub on_children_listed-Watches :
    (prefix : Text) (cb : Callback) (ec : ErrorCode) (names : List Text) (m : ConfigMonitor)
    → has_error ec ≡ false
    → let r = on_children_listed (on_children prefix cb) ec names m in
      (asked : List Text) × Watches prefix asked r.sent
      × ((n : Text) → contains asked n ≡ (contains names n && not (was_listed prefix n m)))
      × (r.told ≡ [])
      × ((p : Text)
          → lookup p r.state.last_sub_path
            ≡ (if p == prefix then some names else lookup p m.last_sub_path))
unfolding on_children_listed
on_children_listed-Watches prefix cb ec names m fine =
    elim (Option-cases (lookup prefix m.last_sub_path)) [
      | inl e ↦ (
        names,
        ground (arith, monitor_all-Watches prefix cb names m.client),
        λ n. ground arith,
        ground arith,
        λ p. ground (arith, lookup-emplace p prefix names m.last_sub_path),
      )
      | inr (known, e) ↦ (
        new_paths known names,
        ground (arith, monitor_all-Watches prefix cb (new_paths known names) m.client),
        λ n. ground (arith, contains-new_paths known names n),
        ground arith,
        λ p. ground (arith, lookup-assign p prefix names m.last_sub_path),
      )
    ]

-- A later listing of the prefix without an error, in any state of the monitor that remembers
-- these names for it, sends nothing when each of its names is one of them: a child that was
-- deleted and made again between two listings, or together with the prefix, is not watched
-- again.
pub on_children_listed_again :
    (prefix : Text) (cb : Callback) (ec : ErrorCode) (names later : List Text) (m : ConfigMonitor)
    → has_error ec ≡ false
    → lookup prefix m.last_sub_path ≡ some names
    → All (λ n. contains names n ≡ true) later
    → (on_children_listed (on_children prefix cb) ec later m).sent ≡ []
unfolding on_children_listed monitor_all
on_children_listed_again prefix cb ec names later m fine known all =
    ground (arith, new_paths_none names later all)
