-- ===== src/Monitor/Records.antt =====
-- The callback for a lost session: config_monitor.hpp, `init`.
use config_monitor.Base.{
  ◌≡◌, refl, Option, none, some, List, [], ◌∷◌, ◌++◌, map, arith, Text, text_eq,
}
use config_monitor.Base.Dict.{Dict, lookup, lookup-assign, NodupKeys, lookup-nil, lookup-cons, keys}
use config_monitor.Zk.Watch.{
  watch_path_event, awexists, awget, awget_children2, call_exists, call_get, call_children,
}
use config_monitor.Monitor.{
  Callback, ConfigMonitor, ZkOutput, watch_path, watch_sub_path, rewatch_paths, rewatch_sub_paths,
  on_expired,
}

-- `rewatch_paths` puts each of its entries into the record of paths, and leaves the other records.
record Rewatched (l : Dict Text Callback) (m m' : ConfigMonitor) : Type 0 where
  path :
      (p : Text)
      → lookup p m'.watch_record
        ≡ elim (lookup p l) [ some cb ↦ some cb | none ↦ lookup p m.watch_record ]
  sub : m'.watch_sub_record ≡ m.watch_sub_record
  last : m'.last_sub_path ≡ m.last_sub_path

rewatch_paths-Rewatched :
    (l : Dict Text Callback) (m : ConfigMonitor)
    → NodupKeys l
    → Rewatched l m (rewatch_paths l m).state
unfolding rewatch_paths watch_path
rewatch_paths-Rewatched [] m u = record {
  path = λ p. ground (arith, lookup-nil {V = Callback} p);
  sub = refl;
  last = refl;
}
rewatch_paths-Rewatched ((k, cb) ∷ l) m (fresh, u) =
    let r = rewatch_paths-Rewatched l (watch_path k cb m).state u in
    record {
      path =
          λ p. ground (arith, lookup-cons p k cb l, lookup-assign p k cb m.watch_record, r.path p);
      sub = ground (arith, r.sub);
      last = ground (arith, r.last);
    }

-- The same of `rewatch_sub_paths`.
record Subwatched (l : Dict Text Callback) (m m' : ConfigMonitor) : Type 0 where
  sub :
      (p : Text)
      → lookup p m'.watch_sub_record
        ≡ elim (lookup p l) [ some cb ↦ some cb | none ↦ lookup p m.watch_sub_record ]
  path : m'.watch_record ≡ m.watch_record
  last : m'.last_sub_path ≡ m.last_sub_path

rewatch_sub_paths-Subwatched :
    (l : Dict Text Callback) (m : ConfigMonitor)
    → NodupKeys l
    → Subwatched l m (rewatch_sub_paths l m).state
unfolding rewatch_sub_paths watch_sub_path
rewatch_sub_paths-Subwatched [] m u = record {
  sub = λ p. ground (arith, lookup-nil {V = Callback} p);
  path = refl;
  last = refl;
}
rewatch_sub_paths-Subwatched ((k, cb) ∷ l) m (fresh, u) =
    let r = rewatch_sub_paths-Subwatched l (watch_sub_path k cb m).state u in
    record {
      sub = λ p.
          ground (arith, lookup-cons p k cb l, lookup-assign p k cb m.watch_sub_record, r.sub p);
      path = ground (arith, r.path);
      last = ground (arith, r.last);
    }

-- The path that an output asks the existence of, with a watch.
abbrev pub watched_existence : ZkOutput → Option Text
watched_existence (awexists path _) = some path
watched_existence (awget _ _ _) = none
watched_existence (awget_children2 _ _ _) = none
watched_existence (call_exists _ _ _) = none
watched_existence (call_get _ _ _ _ _) = none
watched_existence (call_children _ _ _) = none

rewatch_paths-sent :
    (l : Dict Text Callback) (m : ConfigMonitor)
    → map watched_existence (rewatch_paths l m).sent ≡ map some (keys l)
unfolding rewatch_paths watch_path watch_path_event keys
rewatch_paths-sent [] m = refl
rewatch_paths-sent ((k, cb) ∷ l) m = rw (rewatch_paths-sent l (watch_path k cb m).state)

rewatch_sub_paths-sent :
    (l : Dict Text Callback) (m : ConfigMonitor)
    → map watched_existence (rewatch_sub_paths l m).sent ≡ map some (keys l)
unfolding rewatch_sub_paths watch_sub_path watch_path_event keys
rewatch_sub_paths-sent [] m = refl
rewatch_sub_paths-sent ((k, cb) ∷ l) m = rw (rewatch_sub_paths-sent l (watch_sub_path k cb m).state)

map-append :
    (xs ys : List ZkOutput)
    → map watched_existence (xs ++ ys) ≡ map watched_existence xs ++ map watched_existence ys
map-append [] ys = refl
map-append (x ∷ xs) ys = rw (map-append xs ys)

-- After a lost session the monitor records the same callbacks for the same paths and sub-paths,
-- remembers no listing, and has asked once for the existence of every recorded path, those of
-- `watch_path` first. This holds when a record has no two entries for one path.
pub on_expired-records :
    (m : ConfigMonitor)
    → NodupKeys m.watch_record
    → NodupKeys m.watch_sub_record
    → let r = on_expired m in
      ((p : Text) → lookup p r.state.watch_record ≡ lookup p m.watch_record)
      × ((p : Text) → lookup p r.state.watch_sub_record ≡ lookup p m.watch_sub_record)
      × (r.state.last_sub_path ≡ [])
      × (map watched_existence r.sent
          ≡ map some (keys m.watch_record) ++ map some (keys m.watch_sub_record))
unfolding on_expired
on_expired-records m u v =
    let fresh : ConfigMonitor = record {
      client = m.client;
      last_sub_path = [];
      watch_record = [];
      watch_sub_record = [];
    } in
    let first = rewatch_paths m.watch_record fresh in
    let a = rewatch_paths-Rewatched m.watch_record fresh u in
    let b = rewatch_sub_paths-Subwatched m.watch_sub_record first.state v in
    (
      λ p. ground (arith, a.path p, b.path, lookup-nil {V = Callback} p),
      λ p. ground (arith, b.sub p, a.sub, lookup-nil {V = Callback} p),
      ground (arith, a.last, b.last),
      ground (
        arith,
        map-append first.sent (rewatch_sub_paths m.watch_sub_record first.state).sent,
        rewatch_paths-sent m.watch_record fresh,
        rewatch_sub_paths-sent m.watch_sub_record first.state,
      ),
    )
