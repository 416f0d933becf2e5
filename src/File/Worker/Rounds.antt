-- ===== src/File/Worker/Rounds.antt =====
-- A round of the thread of local_file.hpp on paired maps.
use config_monitor.Base.{
  ◌≡◌, ◌⊎◌, inl, inr, refl, sym, ap, subst, ◌∙◌, List, [], ◌++◌, map, text_eq, All, returns, throws,
  filesystem_error,
}
use config_monitor.File.Disk.{Disk, IsCalm}
use config_monitor.File.State.{LocFile, Call}
use config_monitor.File.Task.{run_tasks}
use config_monitor.File.Poll.{Notice}
use config_monitor.File.Worker.{round}
use config_monitor.File.Worker.Tasks.{Retains, callback_of, called_back, run_tasks-AllFinished}
use config_monitor.File.Pairing.{IsPaired, HasCallbacks}
use config_monitor.File.Pairing.Handlers.{
  handle_monitor_exist-Ends, handle_monitor_get-Ends, handle_monitor_sub-Ends,
}

module _ (d : Disk) where
  -- A task throws, or not every look at the disk behind the tasks succeeds.
  abbrev pub IsDisturbed : d.Fs → LocFile → Type 0
  IsDisturbed fs s =
      let tasks = run_tasks d s.task_queue fs (record s { task_queue = [] }) in
      (tasks ≡ throws filesystem_error)
      ⊎ ((fs' : d.Fs) × (s' : LocFile) × (calls : List Call) × (tasks ≡ returns (fs', s', calls))
          × (IsCalm d fs' → ⊥))

  -- What a round that returns leaves.
  pub record IsRound (fs : d.Fs) (s : LocFile) : Type 0 where
    pub disk : d.Fs
    pub state : LocFile
    pub calls : List Call
    pub notices : List Notice
    pub ran : round d fs s ≡ returns (disk, state, calls, notices)
    pub told : map called_back calls ≡ map callback_of s.task_queue
    pub pairs : All Retains s.task_queue → IsPaired state
    pub queue : All Retains s.task_queue → state.task_queue ≡ []

  pub round-IsRound :
      (fs : d.Fs) (s : LocFile)
      → IsPaired s
      → ((round d fs s ≡ throws filesystem_error) × IsDisturbed fs s) ⊎ IsRound fs s
  unfolding round
  round-IsRound fs s v =
      elim (run_tasks-AllFinished d s.task_queue fs (record s { task_queue = [] })) [
        | inl bad ↦ inl (rw (round, bad) refl, inl bad)
        | inr t ↦
            elim (handle_monitor_exist-Ends d t.disk s.last_existed_status s.monitor_exist_path
              t.state v.exist) [
                | inl (bad, n) ↦
                    inl (rw (round, t.ran, bad) refl, inr (t.disk, t.state, t.calls, t.ran, n))
                | inr a ↦
                    elim (handle_monitor_get-Ends d t.disk s.last_changed_time s.monitor_get_path
                      a.state v.get) [
                        | inl (bad, n) ↦ inl (
                          rw (round, t.ran, a.ran, bad) refl,
                          inr (t.disk, t.state, t.calls, t.ran, n),
                        )
                        | inr b ↦
                            elim (handle_monitor_sub-Ends d t.disk s.last_path_children
                              s.monitor_sub_path b.state v.sub) [
                                | inl (bad, n) ↦ inl (
                                  rw (round, t.ran, a.ran, b.ran, bad) refl,
                                  inr (t.disk, t.state, t.calls, t.ran, n),
                                )
                                | inr c ↦ inr (record {
                                  disk = t.disk;
                                  state = c.state;
                                  calls = t.calls;
                                  notices = a.notices ++ (b.notices ++ c.notices);
                                  ran = rw (round, t.ran, a.ran, b.ran, c.ran) refl;
                                  told = t.back;
                                  pairs = λ keep.
                                      let same = t.same keep in
                                      let at_start : IsPaired t.state =
                                        subst IsPaired (sym same)
                                          (record { exist = v.exist; get = v.get; sub = v.sub }) in
                                      let at_exist : HasCallbacks s.last_existed_status
                                          t.state.monitor_exist_path =
                                        subst
                                          (λ t.
                                            HasCallbacks s.last_existed_status t.monitor_exist_path)
                                          (sym same) v.exist.1 in
                                      let at_get : HasCallbacks s.last_changed_time
                                          a.state.monitor_get_path =
                                        subst (HasCallbacks s.last_changed_time)
                                          (sym (a.kept.0 ∙ ap (λ t. t.monitor_get_path) same))
                                          v.get.1 in
                                      let at_sub : HasCallbacks s.last_path_children
                                          b.state.monitor_sub_path =
                                        subst (HasCallbacks s.last_path_children)
                                          (sym (
                                            b.kept.0
                                            ∙ a.kept.1
                                            ∙ ap (λ t. t.monitor_sub_path) same))
                                          v.sub.1 in
                                      c.pairs at_sub (b.pairs at_get (a.pairs at_exist at_start));
                                  queue = λ keep.
                                      c.kept.2
                                      ∙ b.kept.3
                                      ∙ a.kept.2
                                      ∙ ap (λ t. t.task_queue) (t.same keep);
                                })
                              ]
                      ]
              ]
      ]

  -- On paired maps, whatever the tasks and the disk are, a round never calls an empty function:
  -- it throws the error of a call on the file system, and then a task has thrown it, or not
  -- every look at the disk behind the tasks succeeds; or it returns, and if no task takes a
  -- watch away, the maps are paired afterwards.
  pub round-IsPaired :
      (fs : d.Fs) (s : LocFile)
      → IsPaired s
      → ((round d fs s ≡ throws filesystem_error) × IsDisturbed fs s)
        ⊎ ((fs' : d.Fs) × (s' : LocFile) × (calls : List Call) × (notices : List Notice) × (round d
                fs s
              ≡ returns (fs', s', calls, notices))
            × (All Retains s.task_queue → IsPaired s'))
  round-IsPaired fs s v = elim (round-IsRound fs s v) [
    | inl bad ↦ inl bad
    | inr r ↦ inr (r.disk, r.state, r.calls, r.notices, r.ran, r.pairs)
  ]
