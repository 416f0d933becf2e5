-- ===== src/File/Worker/Idle.antt =====
-- Rounds of the thread with no tasks, and what they are for one path.
use config_monitor.Base.{
  ℕ, ◌≡◌, refl, ap, ◌∙◌, Bool, Option, List, [], ◌∷◌, ◌++◌, map, arith, Text, text_eq, returns,
  ◌>>=◌,
}
use config_monitor.Base.Dict.{lookup}
use config_monitor.File.Disk.{Disk, IsCalm}
use config_monitor.File.State.{LocFile, Callback, Call}
use config_monitor.File.Task.{run_tasks}
use config_monitor.File.Pairing.{IsPaired}
use config_monitor.File.Poll.{Notice, Polled, same_bool, same_texts, handle_monitor_get}
use config_monitor.File.Poll.Notices.{calls_for, calls_for-append}
use config_monitor.File.Poll.Watch.{
  expected_calls, expected, tell-Told, lookup-updated, updated-NodupKeys, updated-HasCallbacks,
}
use config_monitor.File.Poll.Exist.{turned_to, statuses_after, exist_polled}
use config_monitor.File.Poll.Values.{
  finding_at, told_all, time_after, callback_after, handle_monitor_get-Seen, HasCallbacks-Seen,
}
use config_monitor.File.Poll.Listings.{listed_now, listings_after, sub_polled}
use config_monitor.File.Worker.{round}

-- What is kept of one path: what was seen of it last and its callback, for each kind of watch.
pub record Watched : Type 0 where
  pub status : Option Bool
  pub status_callback : Option Callback
  pub time : Option ℕ
  pub value_callback : Option Callback
  pub listing : Option (List Text)
  pub listing_callback : Option Callback

abbrev pub watched_of : Text → LocFile → Watched
watched_of p s = record {
  status = lookup p s.last_existed_status;
  status_callback = lookup p s.monitor_exist_path;
  time = lookup p s.last_changed_time;
  value_callback = lookup p s.monitor_get_path;
  listing = lookup p s.last_path_children;
  listing_callback = lookup p s.monitor_sub_path;
}

module _ (d : Disk) where
  -- A disk at which no look throws.
  abbrev pub CalmDisk : Type 0
  CalmDisk = (fs : d.Fs) × IsCalm d fs

  -- One look at the path: what is kept, and what is told. A file whose time is new and that cannot
  -- be opened is told once and its watch is over.
  abbrev pub look : Text → CalmDisk → Watched → Watched
  look p (fs, c) w =
      let found = finding_at d fs c w.time p in
      record w {
        status = expected same_bool turned_to w.status w.status (c.existed p);
        time = time_after found w.time;
        value_callback = callback_after found w.value_callback;
        listing = expected same_texts listed_now w.listing w.listing (c.listing p);
      }

  abbrev pub told_by : Text → CalmDisk → Watched → List Call
  told_by p (fs, c) w =
      expected_calls same_bool turned_to w.status w.status_callback (c.existed p)
      ++ (told_all (finding_at d fs c w.time p) w.value_callback
          ++ expected_calls same_texts listed_now w.listing w.listing_callback (c.listing p))

  unfoldable pub looks : Text → List CalmDisk → Watched → Watched
  looks p [] w = w
  looks p (fs ∷ rest) w = looks p rest (look p fs w)

  unfoldable pub told_over : Text → List CalmDisk → Watched → List Call
  told_over p [] w = []
  told_over p (fs ∷ rest) w = told_by p fs w ++ told_over p rest (look p fs w)

  -- The rounds, on the disk as each of them finds it.
  unfoldable pub idle_rounds : List d.Fs → LocFile → Polled
  unfolding round
  idle_rounds [] s = returns (s, [])
  idle_rounds (fs ∷ rest) s =
      round d fs s >>= λ (_, s', _, n). idle_rounds rest s' >>= λ (s'', n'). returns (s'', n ++ n')

  record IsIdleRound (fs : d.Fs) (c : IsCalm d fs) (s : LocFile) : Type 0 where
    after : LocFile
    notices : List Notice
    ran : round d fs s ≡ returns (fs, after, [], notices)
    paired : IsPaired after
    empty : after.task_queue ≡ []
    kept : (p : Text) → watched_of p after ≡ look p (fs, c) (watched_of p s)
    told : (p : Text) → calls_for p notices ≡ told_by p (fs, c) (watched_of p s)

  idle-IsIdleRound :
      (fs : d.Fs) (c : IsCalm d fs) (s : LocFile)
      → IsPaired s
      → s.task_queue ≡ []
      → IsIdleRound fs c s
  unfolding round run_tasks
  idle-IsIdleRound fs c s k e =
      let (u1, h1) = k.exist in
      let (u2, h2) = k.get in
      let (u3, h3) = k.sub in
      let r1 =
        tell-Told same_bool turned_to c.existed s.last_existed_status s.monitor_exist_path u1 h1 in
      let r3 =
        tell-Told same_texts listed_now c.listing s.last_path_children s.monitor_sub_path u3 h3 in
      let s1 : LocFile = record s {
        task_queue = [];
        last_existed_status = statuses_after d fs c s.last_existed_status s.last_existed_status;
      } in
      let r2 = handle_monitor_get-Seen d fs c s.last_changed_time s.monitor_get_path s1 u2 h2 in
      let s2 : LocFile = record s1 {
        last_changed_time = r2.state.last_changed_time;
        monitor_get_path = r2.state.monitor_get_path;
      } in
      let got : handle_monitor_get d fs s.last_changed_time s.monitor_get_path s1
          ≡ returns (s2, r2.notices) =
        r2.ran ∙ ap (λ (t : LocFile). returns (t, r2.notices)) r2.frame in
      record {
        after = record s2 {
          last_path_children = listings_after d fs c s.last_path_children s.last_path_children;
        };
        notices = r1.notices ++ (r2.notices ++ r3.notices);
        ran =
            rw
              (
                e,
                exist_polled d fs c s.last_existed_status s.monitor_exist_path
                    (record s { task_queue = [] }) r1,
                got,
                sub_polled d fs c s.last_path_children s.monitor_sub_path s2 r3,
              )
              refl;
        paired = record {
          exist = (
            updated-NodupKeys same_bool turned_to c.existed _ _ u1,
            updated-HasCallbacks same_bool turned_to c.existed _ _ u1 h1,
          );
          get = (r2.nodup u2, HasCallbacks-Seen d fs c s1 h2 r2);
          sub = (
            updated-NodupKeys same_texts listed_now c.listing _ _ u3,
            updated-HasCallbacks same_texts listed_now c.listing _ _ u3 h3,
          );
        };
        empty = refl;
        kept = λ p. ground (
          arith,
          lookup-updated same_bool turned_to c.existed s.last_existed_status s.last_existed_status p
              u1,
          r2.stored p,
          r2.kept p,
          lookup-updated same_texts listed_now c.listing s.last_path_children s.last_path_children p
              u3,
        );
        told = λ p. ground (
          arith,
          calls_for-append p r1.notices (r2.notices ++ r3.notices),
          calls_for-append p r2.notices r3.notices,
          r1.told p,
          r2.told p,
          r3.told p,
        );
      }

  -- On paired maps and with no tasks queued, every run of rounds of the thread, each on a disk
  -- at which no look throws, returns; and for each path on its own, what is kept of it and what
  -- is told of it, in its order, are those of a watch of that path alone: a change of its
  -- existence is told, as a creation where it is now there and as a deletion where it is not,
  -- and stored, and so is a change of its listing; a new time of the file is told with the
  -- value and stored, or, if the file cannot be opened, told once as missing, and the watch of
  -- the value is over.
  pub idle_rounds-told_over :
      (states : List CalmDisk) (s : LocFile)
      → IsPaired s
      → s.task_queue ≡ []
      → (s' : LocFile) × (notices : List Notice) × (idle_rounds (map (λ c. c.0) states) s
          ≡ returns (s', notices))
        × ((p : Text) → watched_of p s' ≡ looks p states (watched_of p s))
        × ((p : Text) → calls_for p notices ≡ told_over p states (watched_of p s))
  unfolding idle_rounds looks told_over calls_for
  idle_rounds-told_over [] s k e = (s, [], refl, λ p. refl, λ p. refl)
  idle_rounds-told_over ((fs, c) ∷ rest) s k e =
      let r = idle-IsIdleRound fs c s k e in
      let (s', notices, ran, kept, told) = idle_rounds-told_over rest r.after r.paired r.empty in
      (
        s',
        r.notices ++ notices,
        rw (r.ran, ran) refl,
        λ p. kept p ∙ ap (looks p rest) (r.kept p),
        λ p. calls_for-append p r.notices notices ∙ rw (r.told p, told p, r.kept p) refl,
      )
