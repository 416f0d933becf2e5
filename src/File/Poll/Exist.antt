-- ===== src/File/Poll/Exist.antt =====
-- The watch on existence of local_file.hpp on a calm disk, as the shape of `Watch`.
use config_monitor.Base.{
  ◌≡◌, refl, inl, inr, Bool, true, false, [], ◌∷◌, arith, Text, text_eq, returns, ◌>>=◌, Bool-cases,
  Option-cases,
}
use config_monitor.Base.Dict.{Dict, lookup}
use config_monitor.File.Types.{ok, not_exist, created_event, deleted_event}
use config_monitor.File.Disk.{Disk, IsCalm}
use config_monitor.File.State.{LocFile, Callback, Call, existed, update_last_existed_status}
use config_monitor.File.Poll.{same_bool, turned, handle_monitor_exist}
use config_monitor.File.Poll.Watch.{tell, updated, Told}

-- The call for a path that is now there, and for one that is not.
abbrev pub turned_to : Bool → Bool → Callback → Call
turned_to last true cb = existed cb ok created_event
turned_to last false cb = existed cb not_exist deleted_event

turned-turned_to :
    (last now : Bool) (cb : Callback)
    → same_bool last now ≡ false
    → turned last cb ≡ turned_to last now cb
turned-turned_to true true cb h = absurd (cc)
turned-turned_to true false cb h = refl
turned-turned_to false true cb h = refl
turned-turned_to false false cb h = absurd (cc)

module _ (d : Disk) (fs : d.Fs) (c : IsCalm d fs) where
  abbrev pub statuses_after : Dict Text Bool → Dict Text Bool → Dict Text Bool
  statuses_after l seen = updated same_bool turned_to c.existed l seen

  abbrev pub ToldOf : Dict Text Bool → Dict Text Callback → Type 0
  ToldOf l monitor = Told same_bool turned_to c.existed l monitor

  handle_monitor_exist-tell :
      (l : Dict Text Bool) (monitor : Dict Text Callback) (s : LocFile)
      → handle_monitor_exist d fs l monitor s ≡ (
          tell same_bool turned_to c.existed l monitor >>= λ notices.
          returns
            (record s { last_existed_status = statuses_after l s.last_existed_status }, notices))
  unfolding handle_monitor_exist tell updated update_last_existed_status
  handle_monitor_exist-tell [] monitor s = refl
  handle_monitor_exist-tell ((path, last) ∷ l) monitor s =
      elim (Bool-cases (same_bool last (c.existed path))) [
        | inl quiet ↦
            ground (arith, c.exists_now path, quiet, handle_monitor_exist-tell l monitor s)
        | inr turn ↦ elim (Option-cases (lookup path monitor)) [
          | inl lost ↦ ground (arith, c.exists_now path, turn, lost)
          | inr (cb, found) ↦ ground (
            arith,
            c.exists_now path,
            turn,
            found,
            handle_monitor_exist-tell l monitor
                (update_last_existed_status path (c.existed path) s),
            turned-turned_to last (c.existed path) cb turn,
          )
        ]
      ]

  pub exist_polled :
      (l : Dict Text Bool) (monitor : Dict Text Callback) (s : LocFile) (r : ToldOf l monitor)
      → handle_monitor_exist d fs l monitor s
        ≡ returns
            (record s { last_existed_status = statuses_after l s.last_existed_status }, r.notices)
  exist_polled l monitor s r = rw (handle_monitor_exist-tell l monitor s, r.ran) refl
