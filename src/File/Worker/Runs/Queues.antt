-- ===== src/File/Worker/Runs/Queues.antt =====
-- What every run of the object of local_file.hpp keeps true: the maps are paired, and no task in
-- the queue takes a watch away.
use config_monitor.Base.{
  ℕ, ◌≡◌, sym, subst, inl, inr, Bool, true, false, Option, none, some, List, [], ◌∷◌, arith, Text,
  text_eq, All, All-append, returns, Option-cases, if◌then◌else◌,
}
use config_monitor.File.Types.{FileCreateMode, ok, not_exist}
use config_monitor.Zk.Types.{ℤ}
use config_monitor.File.Disk.{Disk, get_file_value-cases, get_path_children-cases}
use config_monitor.File.State.{
  LocFile, Callback, Task, create_task, delete_task, set_task, exists_task, get_task, sub_task,
  add_task,
}
use config_monitor.File.Request.{
  create_path, delete_path, set_path_value, ask_existence, ask_value, ask_children, watch_existence,
  watch_value, watch_children,
}
use config_monitor.Base.Dict.{lookup-nil}
use config_monitor.File.Worker.Rounds.{round-IsRound}
use config_monitor.File.Worker.Tasks.{Retains}
use config_monitor.File.Pairing.{IsPaired}
use config_monitor.File.Pairing.Requests.{
  watch_existence-IsPaired, watch_value-IsPaired, watch_children-IsPaired,
}
use config_monitor.File.Worker.Runs.{
  Step, disk_changes, creates, deletes, sets, asks_existence, asks_value, asks_children,
  watches_existence, watches_value, watches_children, works, Reachable, starts, goes_on,
}

module _ (d : Disk) where
  pub record IsSound (s : LocFile) : Type 0 where
    pub paired : IsPaired s
    pub retains : All Retains s.task_queue

  queued : (s : LocFile) (task : Task) → IsSound s → Retains task → IsSound (add_task task s)
  unfolding add_task
  queued s task v r = record {
    paired = record { exist = v.paired.exist; get = v.paired.get; sub = v.paired.sub };
    retains = All-append Retains s.task_queue (task ∷ []) v.retains (r, tt);
  }

  created_queue :
      (path value : Text) (mode : FileCreateMode) (cb : Callback) (ttl : ℤ) (s s' : LocFile)
      → create_path path value mode cb ttl s ≡ returns s'
      → add_task (create_task path value cb) s ≡ s'
  unfolding create_path
  created_queue path value mode cb ttl s s' e = ground arith

  asked_existence :
      (fs : d.Fs) (path : Text) (cb : Callback) (s s' : LocFile) (existed : Bool)
      → ask_existence d fs path cb s ≡ returns (s', existed)
      → IsSound s
      → IsSound s'
  unfolding ask_existence
  asked_existence fs path cb s s' existed e v = elim (Option-cases (d.exists fs path)) [
    | inl bad ↦ absurd (ground (arith, bad))
    | inr (b, seen) ↦
        let task = exists_task cb (if b then ok else not_exist) in
        let same : add_task task s ≡ s' = ground (arith, seen) in
        subst IsSound same (queued s task v tt)
  ]

  asked_value :
      (fs : d.Fs) (path : Text) (cb : Callback) (s s' : LocFile) (there : Bool)
      → ask_value d fs path cb s ≡ returns (s', there)
      → IsSound s
      → IsSound s'
  unfolding ask_value
  asked_value fs path cb s s' there e v = elim (get_file_value-cases d fs path) [
    | inl bad ↦ absurd (ground (arith, bad))
    | inr (none, gone) ↦
        let same : add_task (get_task cb not_exist none) s ≡ s' = ground (arith, gone) in
        subst IsSound same (queued s (get_task cb not_exist none) v tt)
    | inr (some value, found) ↦
        let same : add_task (get_task cb ok (some value)) s ≡ s' = ground (arith, found) in
        subst IsSound same (queued s (get_task cb ok (some value)) v tt)
  ]

  asked_children :
      (fs : d.Fs) (path : Text) (cb : Callback) (s s' : LocFile) (listed : Option (List Text))
      → ask_children d fs path cb s ≡ returns (s', listed)
      → IsSound s
      → IsSound s'
  unfolding ask_children
  asked_children fs path cb s s' listed e v = elim (Option-cases (d.exists fs path)) [
    | inl bad ↦ absurd (ground (arith, bad))
    | inr (false, gone) ↦
        let same : add_task (sub_task cb not_exist []) s ≡ s' = ground (arith, gone) in
        subst IsSound same (queued s (sub_task cb not_exist []) v tt)
    | inr (true, there) ↦ elim (get_path_children-cases d fs path) [
      | inl bad ↦ absurd (ground (arith, there, bad))
      | inr (l, found) ↦
          let same : add_task (sub_task cb ok l) s ≡ s' = ground (arith, there, found) in
          subst IsSound same (queued s (sub_task cb ok l) v tt)
    ]
  ]

  Step-IsSound : {fs fs' : d.Fs} {s s' : LocFile} → Step d fs s fs' s' → IsSound s → IsSound s'
  unfolding delete_path set_path_value watch_existence watch_value watch_children
  Step-IsSound disk_changes v = v
  Step-IsSound (creates {s = s} path value mode cb ttl e) v =
      subst IsSound (created_queue path value mode cb ttl s _ e)
        (queued s (create_task path value cb) v tt)
  Step-IsSound (deletes {s = s} path cb) v = queued s (delete_task path cb) v tt
  Step-IsSound (sets {s = s} path value cb) v = queued s (set_task path value cb) v tt
  Step-IsSound (asks_existence {fs} {s} {s'} path cb existed e) v =
      asked_existence fs path cb s s' existed e v
  Step-IsSound (asks_value {fs} {s} {s'} path cb there e) v = asked_value fs path cb s s' there e v
  Step-IsSound (asks_children {fs} {s} {s'} path cb listed e) v =
      asked_children fs path cb s s' listed e v
  Step-IsSound (watches_existence {fs} {s} path cb existed) v = record {
    paired = watch_existence-IsPaired path cb existed s v.paired;
    retains = v.retains;
  }
  Step-IsSound (watches_value {fs} {s} path cb timestamp) v = record {
    paired = watch_value-IsPaired path cb timestamp s v.paired;
    retains = v.retains;
  }
  Step-IsSound (watches_children {fs} {s} path cb names) v = record {
    paired = watch_children-IsPaired path cb names s v.paired;
    retains = v.retains;
  }
  Step-IsSound (works {fs} {fs'} {s} {s'} e) v = elim (round-IsRound d fs s v.paired) [
    | inl (bad, n) ↦ absurd (ground (arith, bad))
    | inr r ↦
        let ran = r.ran in
        let same : r.state ≡ s' = cc in
        subst IsSound same (record {
          paired = r.pairs v.retains;
          retains = subst (All Retains) (sym (r.queue v.retains)) tt;
        })
  ]

  pub Reachable-IsSound : {fs : d.Fs} {s : LocFile} → Reachable d fs s → IsSound s
  Reachable-IsSound (starts fs) = record {
    paired = record {
      exist = (tt, λ p v e. absurd (ground (arith, lookup-nil {V = Bool} p)));
      get = (tt, λ p v e. absurd (ground (arith, lookup-nil {V = ℕ} p)));
      sub = (tt, λ p v e. absurd (ground (arith, lookup-nil {V = List Text} p)));
    };
    retains = tt;
  }
  Reachable-IsSound (goes_on r step) = Step-IsSound step (Reachable-IsSound r)
