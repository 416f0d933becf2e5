-- ===== src/File/Worker.antt =====
-- One round of the thread that `initialize` starts: the queue and the six maps are copied under
-- the lock, the tasks run, and the three handlers go over the copies made before. What is thrown leaves the
-- thread.
pub mod Tasks
pub mod Rounds
pub mod Removal
pub mod Runs
pub mod Idle
use config_monitor.Base.{List, [], ◌∷◌, ◌++◌, Outcome, returns, throws, ◌>>=◌}
use config_monitor.File.Disk.{Disk}
use config_monitor.File.State.{LocFile, Task, Call}
use config_monitor.File.Task.{run_tasks}
use config_monitor.File.Poll.{Notice, handle_monitor_exist, handle_monitor_get, handle_monitor_sub}

module _ (d : Disk) where
  -- What a round leaves: the disk, the state, the calls of the tasks and those of the handlers.
  abbrev pub Round : Type 0
  Round = Outcome (d.Fs × LocFile × List Call × List Notice)

  unfoldable pub round : d.Fs → LocFile → Round
  round fs s = run_tasks d s.task_queue fs (record s { task_queue = [] }) >>= λ (fs', s', calls).
      handle_monitor_exist d fs' s.last_existed_status s.monitor_exist_path s' >>= λ (s1, n1).
      handle_monitor_get d fs' s.last_changed_time s.monitor_get_path s1 >>= λ (s2, n2).
      handle_monitor_sub d fs' s.last_path_children s.monitor_sub_path s2 >>= λ (s3, n3).
      returns (fs', s3, calls, n1 ++ (n2 ++ n3))
