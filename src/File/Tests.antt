-- ===== src/File/Tests.antt =====
-- Tasks, polls and rounds of src/local_file/local_file.hpp on a disk in memory.
use config_monitor.Base.{
  ◌≡◌, refl, ◌⊎◌, Bool, true, false, Option, none, some, List, [], ◌∷◌, map, All, arith, Text, text,
  text_eq, returns, throws, bad_function_call, filesystem_error, ℕ, length, take, take_all, ap,
}
use native.Mathlib.Decide.{ℕ_discrete}
use config_monitor.Base.Dict
use config_monitor.Base.Dict.{Dict, lookup, lookup-assign, lookup-erase, assign}
use config_monitor.File.Types.{ok, not_exist, already_exist, already_used}
use config_monitor.File.Disk.{
  Disk, WriteLaws, RemoveLaws, IsCalm, file_result, get_file_value, get_path_children,
  set_file_value,
}
use config_monitor.File.State.{LocFile, empty, remove_task, Call, created, done}
use config_monitor.File.Task.{run_create, run_delete, run_set}
use config_monitor.File.Task.Values.{Holds, run_set-get_file_value, run_create-run_delete}
use config_monitor.File.Poll.{Notice, same_bool, handle_monitor_exist}
use config_monitor.File.Poll.Notices.{calls_for}
use config_monitor.File.Pairing.{IsPaired, HasCallbacks}
use config_monitor.File.Worker.{round}
use config_monitor.File.Worker.Idle.{
  CalmDisk, watched_of, looks, told_over, idle_rounds, idle_rounds-told_over,
}
use config_monitor.File.Request.{set_path_value}
use config_monitor.File.Worker.Runs.{Reachable, starts, goes_on, disk_changes, sets}
use config_monitor.File.Worker.Runs.Answers.{Reachable-round}
use config_monitor.File.Worker.Rounds.{IsDisturbed, round-IsPaired}
use config_monitor.File.Worker.Tasks.{Retains, called_back, callback_of}
use config_monitor.File.Worker.Removal.{round_revives}

-- Files in memory: each path with its value, no directories.
abbrev Files : Type 0
Files = Dict Text Text

abbrev is_some : Option Text → Bool
is_some none = false
is_some (some v) = true

abbrev size_of : Option Text → Option ℕ
size_of none = none
size_of (some v) = some (length v)

-- A buffer of `n` bytes that begins with these.
abbrev buffer : ℕ → Option Text → Text
buffer n none = []
buffer n (some v) = take n v

abbrev in_memory : Disk
in_memory = record {
  Fs = Files;
  exists = λ fs p. some (is_some (Dict.lookup p fs));
  open_read = λ fs p. is_some (Dict.lookup p fs);
  file_size = λ fs p. size_of (Dict.lookup p fs);
  fread = λ fs p n. buffer n (Dict.lookup p fs);
  open_write = λ fs p. some (Dict.assign p [] fs);
  fwrite = λ fs p v. (Dict.assign p v fs, true);
  last_write_time = λ fs p. none;
  entries = λ fs p. none;
  remove_all = λ fs p. (Dict.erase p fs, false);
  create_directories = λ fs p. some fs;
  parent_path = λ p. p;
}

written : (fs : Files) (p v : Text) → lookup p (assign p v fs) ≡ some v
written fs p v = ground (arith, lookup-assign p p v fs)

in_memory-WriteLaws : WriteLaws in_memory
in_memory-WriteLaws = record {
  exists-write = λ fs fs' p v e. rw (written fs' p v) refl;
  size-write = λ fs fs' p v e full. rw (written fs' p v) refl;
  bytes-write = λ fs fs' p v e full. rw (written fs' p v) (take_all (length v) v (omega arith));
}

value_read :
    (fs : Files) (p : Text) (v : Option Text)
    → lookup p fs ≡ v
    → get_file_value in_memory fs p ≡ returns (file_result v)
unfolding get_file_value
value_read fs p none e = rw (get_file_value, e) refl
value_read fs p (some v) e =
    rw (get_file_value, e)
      (rw (e) (ap (λ t. returns (ok, t)) (take_all (length v) v (omega arith))))

unfoldable in_memory-IsCalm : (fs : Files) → IsCalm in_memory fs
unfolding get_path_children
in_memory-IsCalm fs = record {
  existed = λ p. is_some (lookup p fs);
  exists_now = λ p. refl;
  value = λ p. lookup p fs;
  value_now = λ p. value_read fs p (lookup p fs) refl;
  listing = λ p. [];
  listing_now = λ p. refl;
}

abbrev file : Text
file = text "a"

abbrev one_file : Files
one_file = (file, text "old") ∷ []

run_set-get_file_value_example :
    (run_set in_memory file (text "new") 4 one_file ≡ throws filesystem_error)
      × (in_memory.exists one_file file ≡ none)
    ⊎ (run_set in_memory file (text "new") 4 one_file ≡ returns (one_file, done 4 not_exist))
      × ((in_memory.exists one_file file ≡ some false)
          ⊎ (in_memory.open_write one_file file ≡ none))
    ⊎ ((fs' fs'' : Files) × (run_set in_memory file (text "new") 4 one_file
          ≡ returns (fs'', done 4 ok))
        × (in_memory.exists one_file file ≡ some true)
        × (in_memory.open_write one_file file ≡ some fs')
        × Holds in_memory in_memory-WriteLaws fs' fs'' file (text "new"))
run_set-get_file_value_example =
    run_set-get_file_value in_memory in_memory-WriteLaws one_file file (text "new") 4

made :
    run_create in_memory file (text "v") 4 [] ≡ returns ((file, text "v") ∷ [], created 4 ok file)
unfolding run_create set_file_value lookup assign text_eq ℕ_discrete
made = refl

in_memory-RemoveLaws : RemoveLaws in_memory
in_memory-RemoveLaws = record {
  exists-remove_all = λ fs p fine. ground (arith, lookup-erase p p fs);
}

run_create-run_delete_example :
    ((fs' : Files) × Holds in_memory in_memory-WriteLaws fs'
        ((file, text "v") ∷ [])
        file
        (text "v"))
    × (file ≡ file)
    × (run_create in_memory file (text "w") 5 ((file, text "v") ∷ [])
        ≡ returns ((file, text "v") ∷ [], created 5 already_exist []))
    × ((gone : Files) × ((run_delete in_memory file 4 ((file, text "v") ∷ [])
            ≡ returns (gone, done 4 already_used))
          ⊎ (run_delete in_memory file 4 ((file, text "v") ∷ []) ≡ returns (gone, done 4 ok))
            × (run_delete in_memory file 5 gone ≡ returns (gone, done 5 not_exist))))
run_create-run_delete_example =
    run_create-run_delete in_memory in_memory-WriteLaws in_memory-RemoveLaws []
      ((file, text "v") ∷ []) file (text "v") (text "w") file 4 5 made

-- A monitor that watches whether the file is there, and last saw that it was not.
abbrev watching : LocFile
watching = record empty {
  last_existed_status = (file, false) ∷ [];
  monitor_exist_path = (file, 7) ∷ [];
}

watched : lookup file watching.last_existed_status ≡ some false
unfolding lookup text_eq ℕ_discrete
watched = refl

watching-HasCallbacks : HasCallbacks watching.last_existed_status watching.monitor_exist_path
unfolding lookup
watching-HasCallbacks p v e = (7, ground arith)

no_callbacks : {V : Type 0} → HasCallbacks {V = V} [] []
unfolding lookup
no_callbacks p v e = absurd (ground arith)

watching-IsPaired : IsPaired watching
unfolding lookup
watching-IsPaired = record {
  exist = ((refl, tt), watching-HasCallbacks);
  get = (tt, no_callbacks);
  sub = (tt, no_callbacks);
}

abbrev comes_and_goes : List (CalmDisk in_memory)
comes_and_goes = (one_file, in_memory-IsCalm one_file) ∷ ([], in_memory-IsCalm []) ∷ []

idle_rounds-told_over_example :
    (s' : LocFile) × (notices : List Notice) × (idle_rounds in_memory (one_file ∷ [] ∷ []) watching
      ≡ returns (s', notices))
    × ((p : Text) → watched_of p s' ≡ looks in_memory p comes_and_goes (watched_of p watching))
    × ((p : Text)
        → calls_for p notices ≡ told_over in_memory p comes_and_goes (watched_of p watching))
idle_rounds-told_over_example =
    idle_rounds-told_over in_memory comes_and_goes watching watching-IsPaired refl

round-IsPaired_example :
    ((round in_memory one_file watching ≡ throws filesystem_error)
      × IsDisturbed in_memory one_file watching)
    ⊎ ((fs' : Files) × (s' : LocFile) × (calls : List Call) × (notices : List Notice) × (round
            in_memory one_file watching
          ≡ returns (fs', s', calls, notices))
        × (All Retains [] → IsPaired s'))
round-IsPaired_example = round-IsPaired in_memory one_file watching watching-IsPaired

abbrev later_there : (fs : Files) → Bool
later_there fs = (in_memory-IsCalm fs).existed file

appeared : same_bool false (later_there one_file) ≡ false
unfolding lookup text_eq ℕ_discrete in_memory-IsCalm
appeared = refl

round_revives_example :
    (s' : LocFile) × (calls : List Call) × (notices : List Notice) × (round in_memory one_file
        (record watching { task_queue = remove_task file 0 4 ∷ [] })
      ≡ returns (one_file, s', calls, notices))
    × (lookup file s'.last_existed_status ≡ some (later_there one_file))
    × (lookup file s'.monitor_exist_path ≡ none)
    × ((later : Files) (c : IsCalm in_memory later) (t : LocFile)
        → same_bool (later_there one_file) (c.existed file) ≡ false
        → handle_monitor_exist in_memory later s'.last_existed_status s'.monitor_exist_path t
          ≡ throws bad_function_call)
round_revives_example =
    round_revives in_memory one_file (in_memory-IsCalm one_file) watching file false 4
      watching-IsPaired watched appeared

-- Another program writes a file, and a value is set.
abbrev setting : LocFile
setting = set_path_value file (text "new") 4 empty

Reachable-round_example :
    ((round in_memory one_file setting ≡ throws filesystem_error)
      × IsDisturbed in_memory one_file setting)
    ⊎ ((fs' : Files) × (s' : LocFile) × (calls : List Call) × (notices : List Notice) × (round
            in_memory one_file setting
          ≡ returns (fs', s', calls, notices))
        × (map called_back calls ≡ map callback_of setting.task_queue)
        × (s'.task_queue ≡ [])
        × Reachable in_memory fs' s')
Reachable-round_example =
    Reachable-round in_memory one_file setting
      (goes_on (goes_on (starts []) disk_changes) (sets file (text "new") 4))
