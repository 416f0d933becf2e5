-- ===== src/File/Worker/Removal.antt =====
-- local_file.hpp: a watch that is removed in the round that sees its status turn.
use config_monitor.Base.{
  ◌≡◌, inl, inr, Bool, false, some, none, List, [], ◌∷◌, ◌++◌, arith, Text, text_eq, returns,
  throws, bad_function_call,
}
use config_monitor.Base.Dict.{Dict, lookup, lookup-nil, lookup-cons, lookup-erase}
use config_monitor.File.Types.{ok}
use config_monitor.File.Disk.{Disk, IsCalm}
use config_monitor.File.State.{
  LocFile, Callback, remove_task, Call, done, update_last_existed_status, remove_monitor_get_path,
  remove_monitor_exist_path,
}
use config_monitor.File.Task.{run_task, run_remove, run_tasks}
use config_monitor.File.Poll.{Notice, same_bool, handle_monitor_exist}
use config_monitor.File.Poll.Watch.{tell-Told, lookup-updated}
use config_monitor.File.Poll.Exist.{turned_to, statuses_after, exist_polled}
use config_monitor.File.Worker.{round}
use config_monitor.File.Pairing.{IsPaired}
use config_monitor.File.Pairing.Handlers.{handle_monitor_get-Ends, handle_monitor_sub-Ends}

-- On a calm disk the handler throws as soon as a path that has turned has no callback.
handle_monitor_exist_throws :
    (d : Disk) (fs : d.Fs) (c : IsCalm d fs) (l : Dict Text Bool) (monitor : Dict Text Callback)
    (s : LocFile) (p : Text) (b : Bool)
    → lookup p l ≡ some b
    → lookup p monitor ≡ none
    → same_bool b (c.existed p) ≡ false
    → handle_monitor_exist d fs l monitor s ≡ throws bad_function_call
unfolding handle_monitor_exist
handle_monitor_exist_throws d fs c [] monitor s p b found lost turn =
    absurd (ground (arith, lookup-nil {V = Bool} p))
handle_monitor_exist_throws d fs c ((path, last) ∷ l) monitor s p b found lost turn = ground (
  arith,
  c.exists_now path,
  lookup-cons p path last l,
  handle_monitor_exist_throws d fs c l monitor s p b,
  handle_monitor_exist_throws d fs c l monitor (update_last_existed_status path (c.existed path) s)
      p b,
)

-- On paired maps and a disk at which no look throws, `remove_watches` of a path is the only
-- task of a round that sees the path appear or vanish: the round returns, the status of the
-- path is in its map again, and its callback is not. From there a poll that sees the path turn
-- again, on a disk at which no look throws, calls an empty function, and throws out of the
-- thread.
pub round_revives :
    (d : Disk) (fs : d.Fs) (c : IsCalm d fs) (s : LocFile) (p : Text) (b : Bool) (cb : Callback)
    → IsPaired s
    → lookup p s.last_existed_status ≡ some b
    → same_bool b (c.existed p) ≡ false
    → (s' : LocFile) × (calls : List Call) × (notices : List Notice) × (round d fs
          (record s { task_queue = remove_task p 0 cb ∷ [] })
        ≡ returns (fs, s', calls, notices))
      × (lookup p s'.last_existed_status ≡ some (c.existed p))
      × (lookup p s'.monitor_exist_path ≡ none)
      × ((later : d.Fs) (c' : IsCalm d later) (t : LocFile)
          → same_bool (c.existed p) (c'.existed p) ≡ false
          → handle_monitor_exist d later s'.last_existed_status s'.monitor_exist_path t
            ≡ throws bad_function_call)
unfolding round run_tasks run_task run_remove
round_revives d fs c s p b cb v watched turn =
    let cleared =
      remove_monitor_get_path p (remove_monitor_exist_path p (record s { task_queue = [] })) in
    let l = s.last_existed_status in
    let r = tell-Told same_bool turned_to c.existed l s.monitor_exist_path v.exist.0 v.exist.1 in
    let a : LocFile = record cleared {
      last_existed_status = statuses_after d fs c l cleared.last_existed_status;
    } in
    let now =
      lookup-updated same_bool turned_to c.existed l cleared.last_existed_status p v.exist.0 in
    elim (handle_monitor_get-Ends d fs s.last_changed_time s.monitor_get_path a v.get) [
      | inl (bad, n) ↦ absurd (n c)
      | inr g ↦
          elim (handle_monitor_sub-Ends d fs s.last_path_children s.monitor_sub_path g.state
            v.sub) [
              | inl (bad, n) ↦ absurd (n c)
              | inr h ↦
                  let stored : lookup p h.state.last_existed_status ≡ some (c.existed p) =
                    ground (arith, h.kept.0, g.kept.1, now) in
                  let lost : lookup p h.state.monitor_exist_path ≡ none =
                    ground (arith, h.kept.1, g.kept.2, lookup-erase p p s.monitor_exist_path) in
                  (
                    h.state,
                    done cb ok ∷ [],
                    r.notices ++ (g.notices ++ h.notices),
                    ground
                        (arith, exist_polled d fs c l s.monitor_exist_path cleared r, g.ran, h.ran),
                    stored,
                    lost,
                    λ later c' t again.
                        handle_monitor_exist_throws d later c' h.state.last_existed_status
                          h.state.monitor_exist_path t p (c.existed p) stored lost again,
                  )
            ]
    ]
