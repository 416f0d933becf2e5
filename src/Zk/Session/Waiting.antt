-- ===== src/Zk/Session/Waiting.antt =====
-- The wait of `connect_server` in cppzk.hpp, and what stands behind it.
use config_monitor.Base.{
  ℕ, ◌*◌, ◌≤◌, ◌≡◌, ◌≢◌, refl, ◌∙◌, Bool, true, false, not, ◌&&◌, Option, none, some, List, [], ◌∷◌,
  ◌++◌, arith, All, if◌then◌else◌, returns,
}
use mathlib.Core.List.{append-nil}
use config_monitor.Zk.Types.{pos, failed}
use config_monitor.Zk.Session.{
  Happening, watched, destroyed, connected_state, expired_session_state, other_state, Connector,
  Session, happen_all, wait_connected, authenticate, connect_server, is_empty, pause,
}

-- What a happening says of the connection, if anything.
abbrev pub verdict : Happening → Option Bool
verdict (watched true connected_state) = some true
verdict (watched true expired_session_state) = some false
verdict (watched true (other_state n)) = none
verdict (watched false state) = none
verdict destroyed = none

-- The last word on the connection, or the given one.
abbrev pub last_verdict : List Happening → Bool → Bool
last_verdict [] b = b
last_verdict (h ∷ rest) b = last_verdict rest (elim (verdict h) [ none ↦ b | some v ↦ v ])

abbrev pub survives : List Happening → Bool
survives [] = true
survives (destroyed ∷ rest) = false
survives (watched t state ∷ rest) = survives rest

-- Neither a connection nor the destructor is seen.
abbrev pub IsQuiet : List Happening → Type 0
IsQuiet [] = Unit
IsQuiet (h ∷ rest) = (verdict h ≢ some true) × (h ≢ destroyed) × IsQuiet rest

module _ {H : Type 0} where
  pub happen_all-is_conntected :
      (hs : List Happening) (s : Session H)
      → (happen_all hs s).is_conntected ≡ last_verdict hs s.is_conntected
  unfolding happen_all
  happen_all-is_conntected [] s = refl
  happen_all-is_conntected (watched true connected_state ∷ hs) s = happen_all-is_conntected hs _
  happen_all-is_conntected (watched true expired_session_state ∷ hs) s =
      happen_all-is_conntected hs _
  happen_all-is_conntected (watched true (other_state n) ∷ hs) s = happen_all-is_conntected hs _
  happen_all-is_conntected (watched false connected_state ∷ hs) s = happen_all-is_conntected hs _
  happen_all-is_conntected (watched false expired_session_state ∷ hs) s =
      happen_all-is_conntected hs _
  happen_all-is_conntected (watched false (other_state n) ∷ hs) s = happen_all-is_conntected hs _
  happen_all-is_conntected (destroyed ∷ hs) s = happen_all-is_conntected hs _

  -- Everything but the three flags is left alone.
  pub happen_all_keeps :
      (hs : List Happening) (s : Session H)
      → ((happen_all hs s).schema ≡ s.schema)
        × ((happen_all hs s).credential ≡ s.credential)
        × ((happen_all hs s).hosts ≡ s.hosts)
        × ((happen_all hs s).zh ≡ s.zh)
        × ((happen_all hs s).run ≡ (s.run && survives hs))
  unfolding happen_all
  happen_all_keeps [] s = ground arith
  happen_all_keeps (watched true connected_state ∷ hs) s = happen_all_keeps hs _
  happen_all_keeps (watched true expired_session_state ∷ hs) s = happen_all_keeps hs _
  happen_all_keeps (watched true (other_state n) ∷ hs) s = happen_all_keeps hs _
  happen_all_keeps (watched false connected_state ∷ hs) s = happen_all_keeps hs _
  happen_all_keeps (watched false expired_session_state ∷ hs) s = happen_all_keeps hs _
  happen_all_keeps (watched false (other_state n) ∷ hs) s = happen_all_keeps hs _
  happen_all_keeps (destroyed ∷ hs) s =
      ground (arith, happen_all_keeps hs (record s { run = false }))

-- A round of the thread sleeps three seconds at most, and at most a fifth of the session timeout.
pub pause_bounds :
    (timeout : ℕ) → (pause (pos timeout) ≤ 3000) × (pause (pos timeout) * 5 ≤ timeout)
unfolding pause
pause_bounds timeout = ground arith

quiet_lem :
    (hs : List Happening) → IsQuiet hs → (last_verdict hs false ≡ false) × (survives hs ≡ true)
quiet_lem [] q = (refl, refl)
quiet_lem (watched true connected_state ∷ hs) (v, d, q) = absurd (v refl)
quiet_lem (watched true expired_session_state ∷ hs) (v, d, q) = quiet_lem hs q
quiet_lem (watched true (other_state n) ∷ hs) (v, d, q) = quiet_lem hs q
quiet_lem (watched false state ∷ hs) (v, d, q) = quiet_lem hs q
quiet_lem (destroyed ∷ hs) (v, d, q) = absurd (d refl)

module _ {H : Type 0} where
  wait_step :
      (now : List Happening) (later : List (List Happening)) (s : Session H)
      → wait_connected (now ∷ later) s ≡ (
          if not (last_verdict now s.is_conntected) && (s.run && survives now)
          then wait_connected later (happen_all now s)
          else some (happen_all now s))
  unfolding wait_connected
  wait_step now later s = rw (happen_all-is_conntected now s, (happen_all_keeps now s).4) refl

  -- A session that is not connected and not destroyed, with the texts of `s`.
  record IsWaiting (s s' : Session H) : Type 0 where
    down : s'.is_conntected ≡ false
    alive : s'.run ≡ true
    schema : s'.schema ≡ s.schema
    credential : s'.credential ≡ s.credential
    hosts : s'.hosts ≡ s.hosts
    zh : s'.zh ≡ s.zh

  wait_quiet :
      (before : List (List Happening)) (rest : List (List Happening)) (s s' : Session H)
      → All IsQuiet before
      → IsWaiting s s'
      → (t : Session H) × IsWaiting s t
        × (wait_connected (before ++ rest) s' ≡ wait_connected rest t)
  wait_quiet [] rest s s' quiet w = (s', w, refl)
  wait_quiet (now ∷ before) rest s s' (q, quiet) w =
      let (low, lives) = quiet_lem now q in
      let kept = happen_all_keeps now s' in
      let (t, v, e) = wait_quiet before rest s (happen_all now s') quiet (record {
        down = ground (arith, happen_all-is_conntected now s', w.down, low);
        alive = ground (arith, kept, w.alive, lives);
        schema = kept.0 ∙ w.schema;
        credential = kept.1 ∙ w.credential;
        hosts = kept.2 ∙ w.hosts;
        zh = kept.3 ∙ w.zh;
      }) in
      (t, v, ground (arith, wait_step now (before ++ rest) s', w.down, w.alive, low, lives, e))

nothing_left : {H : Type 0} (t : Session H) → wait_connected [] t ≡ none
unfolding wait_connected
nothing_left t = refl

IsWaiting-self :
    {H : Type 0} (s : Session H) → s.is_conntected ≡ false → s.run ≡ true → IsWaiting s s
IsWaiting-self s down alive = record {
  down = down;
  alive = alive;
  schema = refl;
  credential = refl;
  hosts = refl;
  zh = refl;
}

-- While no notice of a connection arrives and the object is not destroyed, `connect_server`
-- goes on waiting, however long it polls: it has no limit of time.
connect_server_waits :
    (c : Connector) (zh : c.Handle) (waits : List (List Happening)) (s : Session c.Handle)
    → c.init s.hosts s.session_timeout_ms ≡ some zh
    → s.is_conntected ≡ false
    → s.run ≡ true
    → All IsQuiet waits
    → connect_server c waits s ≡ none
unfolding connect_server
connect_server_waits c zh waits s opened down alive quiet =
    let s' = record s { zh = some zh } in
    let (t, v, e) = wait_quiet waits [] s' s' quiet (IsWaiting-self s' down alive) in
    ground (arith, opened, e, append-nil waits, nothing_left t)

-- When the client gives a handle, a notice of a connection is the last word before some poll,
-- in the polls before that one there is neither such a notice nor the destructor, and the
-- credentials are accepted, or there are none, `connect_server` returns: the session is
-- connected and to be detected, with the timeout that the client negotiated.
pub connect_server_connects :
    (c : Connector) (zh : c.Handle) (before : List (List Happening)) (now : List Happening)
    (later : List (List Happening)) (s : Session c.Handle)
    → c.init s.hosts s.session_timeout_ms ≡ some zh
    → s.is_conntected ≡ false
    → s.run ≡ true
    → All IsQuiet before
    → last_verdict now false ≡ true
    → (not (is_empty s.schema)
        && not (is_empty s.credential)
        && failed (c.add_auth zh s.schema s.credential))
      ≡ false
    → (s' : Session c.Handle) × (connect_server c (before ++ (now ∷ later)) s ≡ some (returns s'))
      × (s'.is_conntected ≡ true)
      × (s'.need_detect ≡ true)
      × (s'.session_timeout_ms ≡ pos (c.recv_timeout zh))
unfolding connect_server authenticate
connect_server_connects c zh before now later s opened down alive quiet up auth =
    let s0 = record s { zh = some zh } in
    let (t, v, e) = wait_quiet before (now ∷ later) s0 s0 quiet (IsWaiting-self s0 down alive) in
    let kept = happen_all_keeps now t in
    let connected : (happen_all now t).is_conntected ≡ true =
      ground (arith, happen_all-is_conntected now t, v.down, up) in
    let ended : wait_connected (before ++ (now ∷ later)) s0 ≡ some (happen_all now t) =
      ground (arith, e, wait_step now later t, v.down, up) in
    (
      record (happen_all now t) {
        need_detect = true;
        session_timeout_ms = pos (c.recv_timeout zh);
      },
      ground (arith, opened, ended, kept, v.schema, v.credential, auth),
      connected,
      refl,
      refl,
    )
