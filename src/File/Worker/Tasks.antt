-- ===== src/File/Worker/Tasks.antt =====
-- What the tasks of the queue of local_file.hpp leave, unless a call on the file system throws.
use config_monitor.Base.{
  ◌≡◌, ◌⊎◌, inl, inr, refl, ◌∙◌, true, false, List, [], ◌∷◌, map, eqb, All, returns, throws,
  filesystem_error, if◌then◌else◌, Bool-cases, Option-cases,
}
use config_monitor.File.Disk.{Disk, set_file_value, get_path_children-cases}
use config_monitor.File.State.{
  LocFile, Callback, Task, create_task, delete_task, set_task, exists_task, get_task, sub_task,
  remove_task, Call, created, done, existed, got, children, remove_monitor_get_path,
  remove_monitor_exist_path, remove_monitor_sub_path,
}
use config_monitor.File.Types.{ok, not_exist, already_exist, already_used}
use config_monitor.File.Task.{
  run_create, run_delete, run_set, run_remove, run_task, run_tasks, remove_children,
}
use config_monitor.File.Pairing.{IsPaired}
use config_monitor.File.Pairing.Requests.{cleared_path-IsPaired, cleared_sub_path-IsPaired}

-- The tasks that take no watch away.
abbrev pub Retains : Task → Type 0
Retains (remove_task p watch_type cb) = ⊥
Retains _ = Unit

-- The user whose callback a task, or a call, has.
abbrev pub callback_of : Task → Callback
callback_of (create_task p v cb) = cb
callback_of (delete_task p cb) = cb
callback_of (set_task p v cb) = cb
callback_of (exists_task cb err) = cb
callback_of (get_task cb err v) = cb
callback_of (sub_task cb err l) = cb
callback_of (remove_task p w cb) = cb

abbrev pub called_back : Call → Callback
called_back (created cb err p) = cb
called_back (done cb err) = cb
called_back (existed cb err eve) = cb
called_back (got cb err v) = cb
called_back (children cb err eve l) = cb

module _ (d : Disk) where
  record Finished (task : Task) (fs : d.Fs) (s : LocFile) : Type 0 where
    disk : d.Fs
    state : LocFile
    call : Call
    ran : run_task d task fs s ≡ returns (disk, state, call)
    back : called_back call ≡ callback_of task
    same : Retains task → state ≡ s
    paired : IsPaired s → IsPaired state

  abbrev Ended : Task → d.Fs → LocFile → Type 0
  Ended task fs s = (run_task d task fs s ≡ throws filesystem_error) ⊎ Finished task fs s

  -- A task that reads or writes the disk alone.
  plain :
      (task : Task) (fs fs' : d.Fs) (s : LocFile) (call : Call)
      → run_task d task fs s ≡ returns (fs', s, call)
      → called_back call ≡ callback_of task
      → Ended task fs s
  plain task fs fs' s call e back = inr (record {
    disk = fs';
    state = s;
    call = call;
    ran = e;
    back = back;
    same = λ r. refl;
    paired = λ v. v;
  })

  run_task-Ended : (task : Task) (fs : d.Fs) (s : LocFile) → Ended task fs s
  unfolding run_task run_create run_delete run_set run_remove
  run_task-Ended (create_task p v cb) fs s = elim (Option-cases (d.exists fs p)) [
    | inl bad ↦ inl (rw (run_task, run_create, bad) refl)
    | inr (true, there) ↦
        plain (create_task p v cb) fs fs s (created cb already_exist [])
          (rw (run_task, run_create, there) refl) refl
    | inr (false, free) ↦ elim (Option-cases (d.create_directories fs (d.parent_path p))) [
      | inl bad ↦ inl (rw (run_task, run_create, free, bad) refl)
      | inr (fs1, made) ↦
          let (fs', err) = set_file_value d fs1 p v in
          plain (create_task p v cb) fs fs' s (created cb err p)
            (rw (run_task, run_create, free, made) refl) refl
    ]
  ]
  run_task-Ended (delete_task p cb) fs s = elim (Option-cases (d.exists fs p)) [
    | inl bad ↦ inl (rw (run_task, run_delete, bad) refl)
    | inr (true, there) ↦
        let (fs', ec) = d.remove_all fs p in
        plain (delete_task p cb) fs fs' s (done cb (if ec then already_used else ok))
          (rw (run_task, run_delete, there) refl) refl
    | inr (false, free) ↦
        plain (delete_task p cb) fs fs s (done cb not_exist) (rw (run_task, run_delete, free) refl)
          refl
  ]
  run_task-Ended (set_task p v cb) fs s = elim (Option-cases (d.exists fs p)) [
    | inl bad ↦ inl (rw (run_task, run_set, bad) refl)
    | inr (true, there) ↦
        let (fs', err) = set_file_value d fs p v in
        plain (set_task p v cb) fs fs' s (done cb err) (rw (run_task, run_set, there) refl) refl
    | inr (false, free) ↦
        plain (set_task p v cb) fs fs s (done cb not_exist) (rw (run_task, run_set, free) refl) refl
  ]
  run_task-Ended (exists_task cb err) fs s = plain (exists_task cb err) fs _ s _ refl refl
  run_task-Ended (get_task cb err v) fs s = plain (get_task cb err v) fs _ s _ refl refl
  run_task-Ended (sub_task cb err l) fs s = plain (sub_task cb err l) fs _ s _ refl refl
  run_task-Ended (remove_task p w cb) fs s = elim (Bool-cases (eqb w 0)) [
    | inl path ↦ inr (record {
      disk = fs;
      state = remove_monitor_get_path p (remove_monitor_exist_path p s);
      call = done cb ok;
      ran = rw (run_task, run_remove, path) refl;
      back = refl;
      same = λ r. absurd r;
      paired = cleared_path-IsPaired p s;
    })
    | inr sub_path ↦ elim (get_path_children-cases d fs p) [
      | inl bad ↦ inl (rw (run_task, run_remove, sub_path, bad) refl)
      | inr (names, listed) ↦ inr (record {
        disk = fs;
        state = remove_children p names (remove_monitor_sub_path p (remove_monitor_exist_path p s));
        call = done cb ok;
        ran = rw (run_task, run_remove, sub_path, listed) refl;
        back = refl;
        same = λ r. absurd r;
        paired = cleared_sub_path-IsPaired p names s;
      })
    ]
  ]

  -- The tasks of a queue, in their order.
  pub record AllFinished (tasks : List Task) (fs : d.Fs) (s : LocFile) : Type 0 where
    pub disk : d.Fs
    pub state : LocFile
    pub calls : List Call
    pub ran : run_tasks d tasks fs s ≡ returns (disk, state, calls)
    pub back : map called_back calls ≡ map callback_of tasks
    pub same : All Retains tasks → state ≡ s
    pub paired : IsPaired s → IsPaired state

  pub run_tasks-AllFinished :
      (tasks : List Task) (fs : d.Fs) (s : LocFile)
      → (run_tasks d tasks fs s ≡ throws filesystem_error) ⊎ AllFinished tasks fs s
  unfolding run_tasks
  run_tasks-AllFinished [] fs s = inr (record {
    disk = fs;
    state = s;
    calls = [];
    ran = refl;
    back = refl;
    same = λ r. refl;
    paired = λ v. v;
  })
  run_tasks-AllFinished (task ∷ rest) fs s = elim (run_task-Ended task fs s) [
    | inl bad ↦ inl (rw (run_tasks, bad) refl)
    | inr t ↦ elim (run_tasks-AllFinished rest t.disk t.state) [
      | inl bad ↦ inl (rw (run_tasks, t.ran, bad) refl)
      | inr r ↦ inr (record {
        disk = r.disk;
        state = r.state;
        calls = t.call ∷ r.calls;
        ran = rw (run_tasks, t.ran, r.ran) refl;
        back = rw (t.back, r.back) refl;
        same = λ (here, later). r.same later ∙ t.same here;
        paired = λ v. r.paired (t.paired v);
      })
    ]
  ]
