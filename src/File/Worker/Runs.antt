-- ===== src/File/Worker/Runs.antt =====
-- The object of local_file.hpp as it runs: operations of its users, changes of the disk by others,
-- and rounds of the thread, in any order. A round is one step; an operation that watches is two, one
-- for each of its sections under the lock, and the second may come at any time, with any value.
pub mod Queues
pub mod Answers
use config_monitor.Base.{
  ℕ, ◌≡◌, refl, sym, ap, subst, ◌∙◌, inl, inr, Bool, true, false, Option, none, some, List, [], ◌∷◌,
  ◌++◌, map, arith, Text, text_eq, All, All-append, if◌then◌else◌, Outcome, returns, throws,
  Bool-cases, Option-cases,
}
use config_monitor.File.Types.{FileError, FileCreateMode, ok, not_exist}
use config_monitor.Zk.Types.{ℤ}
use config_monitor.File.Disk.{Disk}
use config_monitor.File.State.{
  LocFile, Callback, empty, Task, create_task, delete_task, set_task, exists_task, get_task,
  sub_task, remove_task, Call, created, done, existed, got, children, add_task,
}
use config_monitor.File.Request.{
  create_path, delete_path, set_path_value, ask_existence, ask_value, ask_children, watch_existence,
  watch_value, watch_children,
}
use config_monitor.File.Task.{run_task, run_tasks, run_create, run_delete, run_set}
use config_monitor.File.Poll.{
  Notice, Polled, handle_monitor_exist, handle_monitor_get, handle_monitor_sub,
}
use config_monitor.Base.Dict.{lookup, lookup-nil}
use config_monitor.File.Worker.{round}

module _ (d : Disk) where
  -- The disk and the object before a step and after it. No step takes a watch away.
  pub data Step : d.Fs → LocFile → d.Fs → LocFile → Type 0 where
    disk_changes : {fs fs' : d.Fs} {s : LocFile} → Step fs s fs' s
    creates :
        {fs : d.Fs} {s s' : LocFile} (path value : Text) (mode : FileCreateMode) (cb : Callback)
        (ttl : ℤ)
        → create_path path value mode cb ttl s ≡ returns s'
        → Step fs s fs s'
    deletes :
        {fs : d.Fs} {s : LocFile} (path : Text) (cb : Callback)
        → Step fs s fs (delete_path path cb s)
    sets :
        {fs : d.Fs} {s : LocFile} (path value : Text) (cb : Callback)
        → Step fs s fs (set_path_value path value cb s)
    asks_existence :
        {fs : d.Fs} {s s' : LocFile} (path : Text) (cb : Callback) (existed : Bool)
        → ask_existence d fs path cb s ≡ returns (s', existed)
        → Step fs s fs s'
    asks_value :
        {fs : d.Fs} {s s' : LocFile} (path : Text) (cb : Callback) (there : Bool)
        → ask_value d fs path cb s ≡ returns (s', there)
        → Step fs s fs s'
    asks_children :
        {fs : d.Fs} {s s' : LocFile} (path : Text) (cb : Callback) (listed : Option (List Text))
        → ask_children d fs path cb s ≡ returns (s', listed)
        → Step fs s fs s'
    watches_existence :
        {fs : d.Fs} {s : LocFile} (path : Text) (cb : Callback) (existed : Bool)
        → Step fs s fs (watch_existence path cb existed s)
    watches_value :
        {fs : d.Fs} {s : LocFile} (path : Text) (cb : Callback) (timestamp : ℕ)
        → Step fs s fs (watch_value path cb timestamp s)
    watches_children :
        {fs : d.Fs} {s : LocFile} (path : Text) (cb : Callback) (names : List Text)
        → Step fs s fs (watch_children path cb names s)
    works :
        {fs fs' : d.Fs} {s s' : LocFile} {calls : List Call} {notices : List Notice}
        → round d fs s ≡ returns (fs', s', calls, notices)
        → Step fs s fs' s'

  -- What a run of steps from an object with no watch and no task leads to.
  pub data Reachable : d.Fs → LocFile → Type 0 where
    starts : (fs : d.Fs) → Reachable fs empty
    goes_on :
        {fs fs' : d.Fs} {s s' : LocFile} → Reachable fs s → Step fs s fs' s' → Reachable fs' s'
