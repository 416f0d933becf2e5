-- ===== src/File/Worker/Runs/Answers.antt =====
-- The rounds of the object of local_file.hpp as it runs: what they answer.
use config_monitor.Base.{
  ◌≡◌, ◌⊎◌, inl, inr, List, [], map, text_eq, returns, throws, filesystem_error,
}
use config_monitor.File.Disk.{Disk}
use config_monitor.File.State.{LocFile, Call}
use config_monitor.File.Poll.{Notice}
use config_monitor.File.Worker.{round}
use config_monitor.File.Worker.Tasks.{callback_of, called_back}
use config_monitor.File.Worker.Rounds.{IsDisturbed, round-IsRound}
use config_monitor.File.Worker.Runs.{Reachable, goes_on, works}
use config_monitor.File.Worker.Runs.Queues.{Reachable-IsSound}

module _ (d : Disk) where
  -- After any run of operations that take no watch away, of changes of the disk by others and
  -- of rounds, from an object with no watch and no task: the next round throws nothing but the
  -- error of a call on the file system, in a task or when the handlers look at the disk behind
  -- the tasks; otherwise it returns, has called the callback of each queued task once, in the
  -- order of the queue, leaves no task, and the run goes on from there. An operation that
  -- watches takes the lock twice, and others may come between.
  pub Reachable-round :
      (fs : d.Fs) (s : LocFile)
      → Reachable d fs s
      → ((round d fs s ≡ throws filesystem_error) × IsDisturbed d fs s)
        ⊎ ((fs' : d.Fs) × (s' : LocFile) × (calls : List Call) × (notices : List Notice) × (round d
                fs s
              ≡ returns (fs', s', calls, notices))
            × (map called_back calls ≡ map callback_of s.task_queue)
            × (s'.task_queue ≡ [])
            × Reachable d fs' s')
  Reachable-round fs s r =
      let v = Reachable-IsSound d r in
      elim (round-IsRound d fs s v.paired) [
        | inl bad ↦ inl bad
        | inr t ↦ inr (
          t.disk,
          t.state,
          t.calls,
          t.notices,
          t.ran,
          t.told,
          t.queue v.retains,
          goes_on r (works t.ran),
        )
      ]
