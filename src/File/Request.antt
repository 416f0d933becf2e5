-- ===== src/File/Request.antt =====
-- The public operations of `loc_file`: what each leaves in the queue and in the maps. The template
-- argument `Advanced` is an argument. Where an operation reads the disk twice, both reads see
-- one state of it.
use config_monitor.Base.{
  ℕ, Bool, true, false, ◌&&◌, Option, none, some, List, [], Text, text_eq, if◌then◌else◌, Outcome,
  returns, throws, runtime_error, filesystem_error, ◌>>=◌,
}
use config_monitor.Base.Dict
use config_monitor.Zk.Types.{ℤ, is_negative}
use config_monitor.File.Types.{ok, not_exist, FileCreateMode, enable_ttl}
use config_monitor.File.Disk.{Disk, get_file_value, file_modify_time, get_path_children}
use config_monitor.File.State.{
  LocFile, Callback, create_task, delete_task, set_task, exists_task, get_task, sub_task,
  remove_task, add_task,
}

-- The mode is looked at for its time to live alone.
unfoldable pub create_path : Text → Text → FileCreateMode → Callback → ℤ → LocFile → Outcome LocFile
unfolding enable_ttl add_task
create_path path value mode cb ttl s =
    if enable_ttl mode && is_negative ttl
    then throws runtime_error
    else returns (add_task (create_task path value cb) s)

unfoldable pub delete_path : Text → Callback → LocFile → LocFile
unfolding add_task
delete_path path cb s = add_task (delete_task path cb) s

unfoldable pub set_path_value : Text → Text → Callback → LocFile → LocFile
unfolding add_task
set_path_value path value cb s = add_task (set_task path value cb) s

unfoldable pub remove_watches : Text → ℕ → Callback → LocFile → LocFile
unfolding add_task
remove_watches path watch_type cb s = add_task (remove_task path watch_type cb) s

-- The second section under the lock of an operation that watches, with what was read before it.
unfoldable pub watch_existence : Text → Callback → Bool → LocFile → LocFile
watch_existence path cb existed s = record s {
  monitor_exist_path = Dict.emplace path cb s.monitor_exist_path;
  last_existed_status = Dict.emplace path existed s.last_existed_status;
}

unfoldable pub watch_value : Text → Callback → ℕ → LocFile → LocFile
watch_value path cb timestamp s = record s {
  monitor_get_path = Dict.emplace path cb s.monitor_get_path;
  last_changed_time = Dict.emplace path timestamp s.last_changed_time;
}

unfoldable pub watch_children : Text → Callback → List Text → LocFile → LocFile
watch_children path cb children s = record s {
  monitor_sub_path = Dict.emplace path cb s.monitor_sub_path;
  last_path_children = Dict.emplace path children s.last_path_children;
}

-- An operation up to its first section under the lock: the state behind it, and what the second one
-- stores, if there is one.
module _ (d : Disk) (fs : d.Fs) where
  unfoldable pub ask_existence : Text → Callback → LocFile → Outcome (LocFile × Bool)
  unfolding add_task
  ask_existence path cb s = elim (d.exists fs path) [
    | none ↦ throws filesystem_error
    | some existed ↦
        returns (add_task (exists_task cb (if existed then ok else not_exist)) s, existed)
  ]

  unfoldable pub exists_path : Bool → Text → Callback → LocFile → Outcome LocFile
  unfolding ask_existence watch_existence
  exists_path advanced path cb s = ask_existence path cb s >>= λ (s', existed).
      returns (if advanced then watch_existence path cb existed s' else s')

  unfoldable pub ask_value : Text → Callback → LocFile → Outcome (LocFile × Bool)
  unfolding get_file_value add_task
  ask_value path cb s = get_file_value d fs path >>= λ (err, value). elim err [
    | ok ↦ returns (add_task (get_task cb ok (some value)) s, true)
    | _ ↦ returns (add_task (get_task cb not_exist none) s, false)
  ]

  unfoldable pub get_path_value : Bool → Text → Callback → LocFile → Outcome LocFile
  unfolding ask_value file_modify_time watch_value
  get_path_value advanced path cb s = ask_value path cb s >>= λ (s', there).
      returns
        (if there && advanced then watch_value path cb (file_modify_time d fs path).1 s' else s')

  unfoldable pub ask_children : Text → Callback → LocFile → Outcome (LocFile × Option (List Text))
  unfolding get_path_children add_task
  ask_children path cb s = elim (d.exists fs path) [
    | none ↦ throws filesystem_error
    | some false ↦ returns (add_task (sub_task cb not_exist []) s, none)
    | some true ↦ get_path_children d fs path >>= λ children.
        returns (add_task (sub_task cb ok children) s, some children)
  ]

  unfoldable pub get_sub_path : Bool → Text → Callback → LocFile → Outcome LocFile
  unfolding ask_children watch_children
  get_sub_path advanced path cb s = ask_children path cb s >>= λ (s', listed). elim listed [
    | none ↦ returns s'
    | some children ↦ returns (if advanced then watch_children path cb children s' else s')
  ]
