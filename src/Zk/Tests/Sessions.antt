-- ===== src/Zk/Tests/Sessions.antt =====
-- A session that is opened, lost and looked for.
use config_monitor.Base.{ℕ, ◌≡◌, refl, true, false, not, none, some, [], ◌∷◌, ◌++◌, text, returns}
use config_monitor.Zk.Types.{pos, zok}
use config_monitor.Zk.Session.{
  Happening, watched, connected_state, expired_session_state, other_state, Connector, Session,
  connect_server, detect,
}
use config_monitor.Zk.Session.Waiting.{last_verdict, connect_server_connects}
use config_monitor.Zk.Session.Expiry.{IsDetecting, detect_lem}

-- A client that always has a handle, accepts all credentials and negotiates 30 seconds.
abbrev pub cable : Connector
cable = record {
  Handle = ℕ;
  init = λ hosts timeout. some 7;
  add_auth = λ zh schema credential. zok;
  recv_timeout = λ zh. 30000;
  close = λ zh. zok;
  zoo_state = λ zh. zok;
}

abbrev pub opened : Session ℕ
opened = record {
  zh = none;
  hosts = text "127.0.0.1:2181";
  schema = text "digest";
  credential = text "root:111";
  session_timeout_ms = pos 40000;
  run = true;
  need_detect = false;
  is_conntected = false;
  detecting = false;
}

abbrev pub up : Happening
up = watched true connected_state

abbrev pub down : Happening
down = watched true expired_session_state

abbrev pub connecting : Happening
connecting = watched true (other_state 1)

connect_server_connects_example :
    (s' : Session ℕ) × (connect_server cable (((connecting ∷ []) ∷ []) ++ ((up ∷ []) ∷ [])) opened
      ≡ some (returns s'))
    × (s'.is_conntected ≡ true)
    × (s'.need_detect ≡ true)
    × (s'.session_timeout_ms ≡ pos 30000)
connect_server_connects_example =
    connect_server_connects cable 7 ((connecting ∷ []) ∷ []) (up ∷ []) [] opened refl refl refl
      ((λ e. cc, λ e. cc, tt), tt) refl refl

abbrev pub living : Session ℕ
living = record opened { zh = some 7; need_detect = true; is_conntected = true; detecting = true }

detect_lem_example :
    (let r = detect (connecting ∷ []) (down ∷ []) living in
      let seen = (connecting ∷ []) ++ (down ∷ []) in
      IsDetecting r.0 × (r.1 ≡ not (last_verdict seen true)))
detect_lem_example = detect_lem (connecting ∷ []) (down ∷ []) living refl
