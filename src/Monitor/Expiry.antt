-- ===== src/Monitor/Expiry.antt =====
-- An expired session, from the thread of cppzk.hpp through the callback that `init` of
-- config_monitor.hpp sets.
use config_monitor.Base.{
  ◌≡◌, true, false, not, ◌&&◌, Option, none, some, List, ◌∷◌, ◌++◌, map, arith, Text, text_eq, All,
  if◌then◌else◌, Outcome, returns, throws,
}
use config_monitor.Base.Dict.{lookup, keys, NodupKeys}
use config_monitor.Zk.Types.{ℤ, pos, failed}
use config_monitor.Zk.Session.{Happening, Connector, Session, is_empty, initialize, detect}
use config_monitor.Zk.Session.Waiting.{IsQuiet, last_verdict, connect_server_connects}
use config_monitor.Zk.Session.Expiry.{detect_lost}
use config_monitor.Zk.Watch.{clear_releaser}
use config_monitor.Monitor.{ConfigMonitor, Reaction, quiet, on_expired}
use config_monitor.Monitor.Records.{watched_existence, on_expired-records}

-- The arguments that `init` keeps for the next call of `initialize`.
pub record InitArgs : Type 0 where
  pub hosts : Text
  pub session_timeout_ms : ℤ
  pub schema : Text
  pub credential : Text

module _ (c : Connector) where
  -- None while the session is not opened; what is thrown leaves the thread.
  abbrev pub Expired : Type 0
  Expired = Option (Outcome (Session c.Handle × Reaction))

  -- The callback: the handle is closed, by a call whose code is dropped, the session opened again,
  -- and the records watched again.
  unfoldable pub expired_cb :
      List (List Happening) → InitArgs → Session c.Handle → ConfigMonitor → Expired
  unfolding initialize
  expired_cb waits args s m =
      elim (initialize c waits args.hosts args.session_timeout_ms args.schema args.credential s) [
        | none ↦ none
        | some (throws e) ↦ some (throws e)
        | some (returns s') ↦ some (returns (s', on_expired m))
      ]

  -- A whole round of the thread; `releaser_` is cleared before the callback.
  unfoldable pub detect_round :
      List Happening
      → List Happening
      → List (List Happening)
      → InitArgs
      → Session c.Handle
      → ConfigMonitor
      → Expired
  unfolding expired_cb
  detect_round asleep reading waits args s m =
      let (s', lost) = detect asleep reading s in
      if lost
      then expired_cb waits args s' (record m { client = clear_releaser m.client })
      else some (returns (s', quiet m))

  -- A round of the thread finds the session expired, with the object not destroyed. The
  -- reconnection gets a handle; some poll of the wait ends with a notice of a connection, and
  -- none of the polls before it holds such a notice or the destructor; and the credentials are
  -- accepted, or there are none. When no record has two entries for one path, the round ends
  -- connected and detecting again, with the timeout negotiated and the same callbacks recorded
  -- for the same paths, and it has asked once for the existence of every recorded path.
  pub detect_round_recovers :
      (asleep reading : List Happening) (before : List (List Happening)) (now : List Happening)
      (later : List (List Happening)) (args : InitArgs) (zh : c.Handle) (s : Session c.Handle)
      (m : ConfigMonitor)
      → (detect asleep reading s).1 ≡ true
      → (detect asleep reading s).0.run ≡ true
      → c.init args.hosts args.session_timeout_ms ≡ some zh
      → All IsQuiet before
      → last_verdict now false ≡ true
      → (not (is_empty args.schema)
          && not (is_empty args.credential)
          && failed (c.add_auth zh args.schema args.credential))
        ≡ false
      → NodupKeys m.watch_record
      → NodupKeys m.watch_sub_record
      → (s' : Session c.Handle) × (r : Reaction) × (detect_round asleep reading
            (before ++ (now ∷ later))
            args
            s
            m
          ≡ some (returns (s', r)))
        × (s'.is_conntected ≡ true)
        × (s'.need_detect ≡ true)
        × (s'.session_timeout_ms ≡ pos (c.recv_timeout zh))
        × ((p : Text) → lookup p r.state.watch_record ≡ lookup p m.watch_record)
        × ((p : Text) → lookup p r.state.watch_sub_record ≡ lookup p m.watch_sub_record)
        × (map watched_existence r.sent
            ≡ map some (keys m.watch_record) ++ map some (keys m.watch_sub_record))
  unfolding detect_round initialize
  detect_round_recovers asleep reading before now later args zh s m lost alive opened still up auth
        u v =
      let t = (detect asleep reading s).0 in
      let t' : Session c.Handle = record t {
        hosts = args.hosts;
        session_timeout_ms = args.session_timeout_ms;
        schema = args.schema;
        credential = args.credential;
      } in
      let (s', went, up', det, time) =
        connect_server_connects c zh before now later t' opened (detect_lost asleep reading s lost)
          alive still up auth in
      let (paths, subs, none_listed, asked) =
        on_expired-records (record m { client = clear_releaser m.client }) u v in
      (
        record s' { detecting = true },
        on_expired (record m { client = clear_releaser m.client }),
        ground (arith, lost, went),
        up',
        det,
        time,
        paths,
        subs,
        asked,
      )
