-- ===== src/File/Task.antt =====
-- What a task does when the thread runs it: one call of its callback, and its effect on the disk
-- and on the maps.
pub mod Values
use config_monitor.Base.{
  ℕ, Bool, true, false, Option, none, some, List, [], ◌∷◌, ◌++◌, Text, eqb, if◌then◌else◌, Outcome,
  returns, throws, ◌>>=◌, filesystem_error,
}
use config_monitor.Zk.SplitPath.{slash}
use config_monitor.File.Types.{
  FileError, ok, not_exist, already_exist, already_used, FileEvent, dummy_event,
}
use config_monitor.File.Disk.{Disk, set_file_value, get_path_children}
use config_monitor.File.State.{
  LocFile, Callback, Task, create_task, delete_task, set_task, exists_task, get_task, sub_task,
  remove_task, Call, created, done, existed, got, children, remove_monitor_get_path,
  remove_monitor_exist_path, remove_monitor_sub_path,
}

-- The loop over the children of a path whose sub-paths were watched.
unfoldable pub remove_children : Text → List Text → LocFile → LocFile
unfolding remove_monitor_get_path
remove_children p [] s = s
remove_children p (child ∷ rest) s =
    remove_children p rest (remove_monitor_get_path (p ++ (slash ∷ child)) s)

module _ (d : Disk) where
  -- The lambda of `create_path`.
  unfoldable pub run_create : Text → Text → Callback → d.Fs → Outcome (d.Fs × Call)
  unfolding set_file_value
  run_create p v cb fs = elim (d.exists fs p) [
    | none ↦ throws filesystem_error
    | some true ↦ returns (fs, created cb already_exist [])
    | some false ↦ elim (d.create_directories fs (d.parent_path p)) [
      | none ↦ throws filesystem_error
      | some fs1 ↦ let (fs', err) = set_file_value d fs1 p v in returns (fs', created cb err p)
    ]
  ]

  unfoldable pub run_delete : Text → Callback → d.Fs → Outcome (d.Fs × Call)
  run_delete p cb fs = elim (d.exists fs p) [
    | none ↦ throws filesystem_error
    | some false ↦ returns (fs, done cb not_exist)
    | some true ↦
        let (fs', ec) = d.remove_all fs p in
        returns (fs', done cb (if ec then already_used else ok))
  ]

  unfoldable pub run_set : Text → Text → Callback → d.Fs → Outcome (d.Fs × Call)
  unfolding set_file_value
  run_set p v cb fs = elim (d.exists fs p) [
    | none ↦ throws filesystem_error
    | some false ↦ returns (fs, done cb not_exist)
    | some true ↦ let (fs', err) = set_file_value d fs p v in returns (fs', done cb err)
  ]

  unfoldable pub run_remove : d.Fs → Text → ℕ → LocFile → Outcome LocFile
  unfolding remove_children remove_monitor_get_path remove_monitor_exist_path
      remove_monitor_sub_path get_path_children
  run_remove fs p watch_type s =
      if eqb watch_type 0
      then returns (remove_monitor_get_path p (remove_monitor_exist_path p s))
      else get_path_children d fs p >>= λ names.
          returns
            (remove_children p names (remove_monitor_sub_path p (remove_monitor_exist_path p s)))

  -- What a task leaves: the disk, the state and the call of its callback.
  abbrev pub Ran : Type 0
  Ran = Outcome (d.Fs × LocFile × Call)

  unfoldable pub run_task : Task → d.Fs → LocFile → Ran
  unfolding run_create run_delete run_set run_remove
  run_task (create_task p v cb) fs s =
      run_create p v cb fs >>= λ (fs', call). returns (fs', s, call)
  run_task (delete_task p cb) fs s = run_delete p cb fs >>= λ (fs', call). returns (fs', s, call)
  run_task (set_task p v cb) fs s = run_set p v cb fs >>= λ (fs', call). returns (fs', s, call)
  run_task (exists_task cb err) fs s = returns (fs, s, existed cb err dummy_event)
  run_task (get_task cb err v) fs s = returns (fs, s, got cb err v)
  run_task (sub_task cb err l) fs s = returns (fs, s, children cb err dummy_event l)
  run_task (remove_task p watch_type cb) fs s =
      run_remove fs p watch_type s >>= λ s'. returns (fs, s', done cb ok)

  unfoldable pub run_tasks : List Task → d.Fs → LocFile → Outcome (d.Fs × LocFile × List Call)
  unfolding run_task
  run_tasks [] fs s = returns (fs, s, [])
  run_tasks (task ∷ rest) fs s = run_task task fs s >>= λ (fs', s', call).
      run_tasks rest fs' s' >>= λ (fs'', s'', calls). returns (fs'', s'', call ∷ calls)
