-- ===== src/File/Pairing/Requests.antt =====
-- The second sections of the operations, and the tasks, of local_file.hpp on paired maps.
use config_monitor.Base.{ℕ, Bool, List, [], ◌∷◌, ◌++◌, Text, text_eq}
use config_monitor.Zk.SplitPath.{slash}
use config_monitor.File.State.{
  LocFile, Callback, remove_monitor_get_path, remove_monitor_exist_path, remove_monitor_sub_path,
}
use config_monitor.File.Request.{watch_existence, watch_value, watch_children}
use config_monitor.File.Task.{remove_children}
use config_monitor.File.Pairing.{IsPaired, emplace-Paired, erase-Paired}

pub watch_existence-IsPaired :
    (path : Text) (cb : Callback) (existed : Bool) (s : LocFile)
    → IsPaired s
    → IsPaired (watch_existence path cb existed s)
unfolding watch_existence
watch_existence-IsPaired path cb existed s v = record {
  exist = emplace-Paired path _ cb s.last_existed_status s.monitor_exist_path v.exist;
  get = v.get;
  sub = v.sub;
}

pub watch_value-IsPaired :
    (path : Text) (cb : Callback) (timestamp : ℕ) (s : LocFile)
    → IsPaired s
    → IsPaired (watch_value path cb timestamp s)
unfolding watch_value
watch_value-IsPaired path cb timestamp s v = record {
  exist = v.exist;
  get = emplace-Paired path _ cb s.last_changed_time s.monitor_get_path v.get;
  sub = v.sub;
}

pub watch_children-IsPaired :
    (path : Text) (cb : Callback) (names : List Text) (s : LocFile)
    → IsPaired s
    → IsPaired (watch_children path cb names s)
unfolding watch_children
watch_children-IsPaired path cb names s v = record {
  exist = v.exist;
  get = v.get;
  sub = emplace-Paired path _ cb s.last_path_children s.monitor_sub_path v.sub;
}

pub cleared_path-IsPaired :
    (p : Text) (s : LocFile)
    → IsPaired s
    → IsPaired (remove_monitor_get_path p (remove_monitor_exist_path p s))
unfolding remove_monitor_get_path remove_monitor_exist_path
cleared_path-IsPaired p s v = record {
  exist = erase-Paired p s.last_existed_status s.monitor_exist_path v.exist;
  get = erase-Paired p s.last_changed_time s.monitor_get_path v.get;
  sub = v.sub;
}

remove_children-IsPaired :
    (p : Text) (names : List Text) (s : LocFile) → IsPaired s → IsPaired (remove_children p names s)
unfolding remove_children
remove_children-IsPaired p [] s v = v
remove_children-IsPaired p (child ∷ rest) s v = remove_children-IsPaired p rest _ (record {
  exist = v.exist;
  get = erase-Paired (p ++ (slash ∷ child)) s.last_changed_time s.monitor_get_path v.get;
  sub = v.sub;
})

pub cleared_sub_path-IsPaired :
    (p : Text) (names : List Text) (s : LocFile)
    → IsPaired s
    → IsPaired (remove_children p names (remove_monitor_sub_path p (remove_monitor_exist_path p s)))
unfolding remove_monitor_sub_path remove_monitor_exist_path
cleared_sub_path-IsPaired p names s v = remove_children-IsPaired p names _ (record {
  exist = erase-Paired p s.last_existed_status s.monitor_exist_path v.exist;
  get = v.get;
  sub = erase-Paired p s.last_path_children s.monitor_sub_path v.sub;
})
