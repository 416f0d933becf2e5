-- ===== src/Zk/Session.antt =====
-- The session of cppzk.hpp: `initialize`, `connect_server` with its watcher, and the thread that
-- `detect_expired_session` starts. What the C client and the destructor do meanwhile is a list of
-- happenings; a wait on them ends with none where the list ends first.
pub mod Waiting
pub mod Expiry
use native.Mathlib.Decide.{dec_lt}
use config_monitor.Base.{
  ℕ, ◌/◌, Bool, true, false, not, ◌&&◌, Option, none, some, List, [], ◌∷◌, Text, ltb, if◌then◌else◌,
  Outcome, returns, throws, ◌>>=◌, runtime_error,
}
use config_monitor.Zk.Types.{ℤ, pos, negsuc, Rc, failed, ErrorCode, make_ec}

-- The states that the watcher tells apart.
pub data ClientState : Type 0 where
  connected_state expired_session_state : ClientState
  other_state : ℕ → ClientState

-- The watcher is called with a type, `ZOO_SESSION_EVENT` or another one, and a state; or the
-- destructor sets `run_` to false.
pub data Happening : Type 0 where
  watched : Bool → ClientState → Happening
  destroyed : Happening

-- The calls of the C client: a null handle is none.
pub record Connector : Type 1 where
  pub Handle : Type 0
  pub init : Text → ℤ → Option Handle
  pub add_auth : Handle → Text → Text → Rc
  pub recv_timeout : Handle → ℕ
  pub close : Handle → Rc
  pub zoo_state : Handle → Rc

-- The fields of `cppzk` that belong to the session, in a build without OpenSSL, which leaves the
-- certificate aside; `detecting` is `of_`, the flag of `call_once`.
pub record Session (Handle : Type 0) : Type 0 where
  pub zh : Option Handle
  pub hosts : Text
  pub schema : Text
  pub credential : Text
  pub session_timeout_ms : ℤ
  pub run : Bool
  pub need_detect : Bool
  pub is_conntected : Bool
  pub detecting : Bool

module _ {H : Type 0} where
  -- The watcher that `connect_server` hands to the client.
  unfoldable pub watcher : Bool → ClientState → Session H → Session H
  watcher is_session connected_state s = if is_session then record s { is_conntected = true } else s
  watcher is_session expired_session_state s =
      if is_session then record s { need_detect = false; is_conntected = false } else s
  watcher is_session (other_state n) s = s

  unfoldable pub happen : Happening → Session H → Session H
  unfolding watcher
  happen (watched is_session state) s = watcher is_session state s
  happen destroyed s = record s { run = false }

  unfoldable pub happen_all : List Happening → Session H → Session H
  unfolding happen
  happen_all [] s = s
  happen_all (h ∷ rest) s = happen_all rest (happen h s)

  -- `while (!is_conntected_ && run_)`: before each test, what happened since the last one.
  unfoldable pub wait_connected : List (List Happening) → Session H → Option (Session H)
  unfolding happen_all
  wait_connected [] s = none
  wait_connected (now ∷ later) s =
      let s' = happen_all now s in
      let more = wait_connected later s' in if not s'.is_conntected && s'.run then more else some s'

abbrev pub is_empty : Text → Bool
is_empty [] = true
is_empty (x ∷ xs) = false

module _ (c : Connector) where
  abbrev pub Connected : Type 0
  Connected = Option (Outcome (Session c.Handle))

  -- Behind the wait: authentication, and the actual timeout.
  unfoldable pub authenticate : c.Handle → Session c.Handle → Outcome (Session c.Handle)
  authenticate zh s =
      let done = record s { need_detect = true; session_timeout_ms = pos (c.recv_timeout zh) } in
      if not (is_empty s.schema)
        && not (is_empty s.credential)
        && failed (c.add_auth zh s.schema s.credential)
      then throws runtime_error
      else returns done

  unfoldable pub connect_server : List (List Happening) → Session c.Handle → Connected
  unfolding wait_connected authenticate
  connect_server waits s = elim (c.init s.hosts s.session_timeout_ms) [
    | none ↦ some (throws runtime_error)
    | some zh ↦ elim (wait_connected waits (record s { zh = some zh })) [
      | none ↦ none
      | some s' ↦ some (authenticate zh s')
    ]
  ]

  unfoldable pub initialize :
      List (List Happening) → Text → ℤ → Text → Text → Session c.Handle → Connected
  unfolding connect_server
  initialize waits hosts session_timeout_ms schema credential s =
      elim (connect_server waits (record s {
        hosts = hosts;
        session_timeout_ms = session_timeout_ms;
        schema = schema;
        credential = credential;
      })) [
        | none ↦ none
        | some (throws e) ↦ some (throws e)
        | some (returns s') ↦ some (returns (record s' { detecting = true }))
      ]

  -- `clear_resource` and `handle_state`, on a handle.
  unfoldable pub clear_resource : c.Handle → ErrorCode
  unfolding make_ec
  clear_resource zh = make_ec (c.close zh)

  unfoldable pub handle_state : c.Handle → ErrorCode
  unfolding make_ec
  handle_state zh = make_ec (c.zoo_state zh)

-- The milliseconds that the thread sleeps in a round; a negative time is no sleep.
unfoldable pub pause : ℤ → ℕ
pause (pos timeout) = let interval = timeout / 5 in if ltb interval 3000 then interval else 3000
pause (negsuc n) = 0

-- A round of the thread up to the test of `is_conntected_`: what happened in the sleep, and what
-- happened in the read of `/zookeeper`, if it is made. Then, whether the user data is released and
-- `expired_cb_` is called.
module _ {H : Type 0} where
  unfoldable pub detect : List Happening → List Happening → Session H → Session H × Bool
  unfolding happen_all
  detect asleep reading s =
      let s' = happen_all asleep s in
      let s'' = if s'.need_detect then happen_all reading s' else s' in (s'', not s''.is_conntected)
