-- ===== src/File/State.antt =====
-- The fields of `loc_file` and the small functions on them. A callback is known by a number, and
-- calling it is an output. The mutex is not modelled: each function that takes it is one step.
use config_monitor.Base.{ℕ, Bool, Option, List, [], ◌∷◌, ◌++◌, Text, text_eq}
use config_monitor.Base.Dict
use config_monitor.Base.Dict.{Dict}
use config_monitor.File.Types.{FileError, FileEvent}

abbrev pub Callback : Type 0
Callback = ℕ

-- The tasks, by the lambda that makes them, with what it captures.
pub data Task : Type 0 where
  create_task : Text → Text → Callback → Task
  delete_task : Text → Callback → Task
  set_task : Text → Text → Callback → Task
  exists_task : Callback → FileError → Task
  get_task : Callback → FileError → Option Text → Task
  sub_task : Callback → FileError → List Text → Task
  remove_task : Text → ℕ → Callback → Task

-- A call of a callback, with its arguments.
pub data Call : Type 0 where
  created : Callback → FileError → Text → Call
  done : Callback → FileError → Call
  existed : Callback → FileError → FileEvent → Call
  got : Callback → FileError → Option Text → Call
  children : Callback → FileError → FileEvent → List Text → Call

pub record LocFile : Type 0 where
  pub last_existed_status : Dict Text Bool
  pub monitor_exist_path : Dict Text Callback
  pub last_changed_time : Dict Text ℕ
  pub monitor_get_path : Dict Text Callback
  pub last_path_children : Dict Text (List Text)
  pub monitor_sub_path : Dict Text Callback
  pub task_queue : List Task

abbrev pub empty : LocFile
empty = record {
  last_existed_status = [];
  monitor_exist_path = [];
  last_changed_time = [];
  monitor_get_path = [];
  last_path_children = [];
  monitor_sub_path = [];
  task_queue = [];
}

unfoldable pub add_task : Task → LocFile → LocFile
add_task task s = record s { task_queue = s.task_queue ++ (task ∷ []) }

unfoldable pub remove_monitor_get_path : Text → LocFile → LocFile
remove_monitor_get_path path s = record s {
  last_changed_time = Dict.erase path s.last_changed_time;
  monitor_get_path = Dict.erase path s.monitor_get_path;
}

unfoldable pub remove_monitor_exist_path : Text → LocFile → LocFile
remove_monitor_exist_path path s = record s {
  last_existed_status = Dict.erase path s.last_existed_status;
  monitor_exist_path = Dict.erase path s.monitor_exist_path;
}

unfoldable pub remove_monitor_sub_path : Text → LocFile → LocFile
remove_monitor_sub_path path s = record s {
  last_path_children = Dict.erase path s.last_path_children;
  monitor_sub_path = Dict.erase path s.monitor_sub_path;
}

unfoldable pub update_last_existed_status : Text → Bool → LocFile → LocFile
update_last_existed_status path status s = record s {
  last_existed_status = Dict.assign path status s.last_existed_status;
}

unfoldable pub update_last_changed_time : Text → ℕ → LocFile → LocFile
update_last_changed_time path timestamp s = record s {
  last_changed_time = Dict.assign path timestamp s.last_changed_time;
}

unfoldable pub updata_path_children : Text → List Text → LocFile → LocFile
updata_path_children path names s = record s {
  last_path_children = Dict.assign path names s.last_path_children;
}
