-- ===== src/Monitor/Tests/Expired.antt =====
-- A round of the thread that finds the session expired and opens it again.
use config_monitor.Base.{ℕ, ◌≡◌, refl, true, some, [], ◌∷◌, ◌++◌, map, Text, text, text_eq, returns}
use config_monitor.Base.Dict.{lookup, keys}
use config_monitor.Zk.Types.{pos}
use config_monitor.Zk.Session.{Session, detect}
use config_monitor.Zk.Tests.Sessions.{cable, living, up, down, connecting}
use config_monitor.Monitor.{Reaction}
use config_monitor.Monitor.Records.{watched_existence}
use config_monitor.Monitor.Expiry.{InitArgs, detect_round, detect_round_recovers}
use config_monitor.Monitor.Tests.{prefix, monitoring, alone}

abbrev args : InitArgs
args = record {
  hosts = text "127.0.0.1:2181";
  session_timeout_ms = pos 40000;
  schema = text "digest";
  credential = text "root:111";
}

lost : (detect [] (down ∷ []) living).1 ≡ true
unfolding detect
lost = refl

still_running : (detect [] (down ∷ []) living).0.run ≡ true
unfolding detect
still_running = refl

detect_round_recovers_example :
    (s' : Session ℕ) × (r : Reaction) × (detect_round cable []
        (down ∷ [])
        (((connecting ∷ []) ∷ []) ++ ((up ∷ []) ∷ []))
        args
        living
        monitoring
      ≡ some (returns (s', r)))
    × (s'.is_conntected ≡ true)
    × (s'.need_detect ≡ true)
    × (s'.session_timeout_ms ≡ pos 30000)
    × ((p : Text) → lookup p r.state.watch_record ≡ lookup p monitoring.watch_record)
    × ((p : Text) → lookup p r.state.watch_sub_record ≡ lookup p monitoring.watch_sub_record)
    × (map watched_existence r.sent
        ≡ map some (keys monitoring.watch_record) ++ map some (keys monitoring.watch_sub_record))
detect_round_recovers_example =
    detect_round_recovers cable [] (down ∷ []) ((connecting ∷ []) ∷ []) (up ∷ []) [] args 7 living
      monitoring lost still_running refl ((λ e. cc, λ e. cc, tt), tt) refl refl
      (alone (text "/c"), tt) (alone prefix, tt)
