-- ===== src/Monitor/Paths.antt =====
-- A path that `watch_path` of config_monitor.hpp watches, from an event of the C client to the
-- user's callback.
use config_monitor.Base.{
  ℕ, ◌≡◌, refl, true, false, ◌||◌, Option, some, [], ◌∷◌, arith, Text, nat_eq,
}
use config_monitor.Base.Dict
use config_monitor.Base.Dict.{lookup, lookup-assign}
use config_monitor.Zk.Types.{
  zok, make_ec, has_error, ZkEvent, zk_dummy_event, zk_deleted_event, is_create_event,
  is_changed_event, is_session_event,
}
use config_monitor.Zk.Watch.{
  exists_userdata, wget_userdata, awexists, awget, call_exists, call_get, stat, value, on_event,
  on_completion, allocate, async_get_path_value,
}
use config_monitor.Monitor.{
  Callback, ConfigMonitor, ZkClient, changed, path_notice, on_path, read_path, on_exists, on_get,
}

-- The client once the watch at `id` has fired.
abbrev pub fired : ℕ → Text → Callback → ZkEvent → ZkClient → ZkClient
fired id p cb eve c = record c { heap = Dict.assign id (exists_userdata (on_path p cb) eve) c.heap }

-- An event of a watched path is followed by a question for its existence with the same data, and
-- the answer reaches the callback with the event.
pub asked_again :
    (c : ZkClient) (id : ℕ) (p : Text) (cb : Callback) (old eve : ZkEvent)
    → lookup id c.heap ≡ some (exists_userdata (on_path p cb) old)
    → is_session_event eve ≡ false
    → (on_event id eve p c ≡ some (fired id p cb eve c, awexists p id ∷ []))
      × (on_completion id (stat zok) (fired id p cb eve c)
          ≡ some (fired id p cb eve c, call_exists (on_path p cb) (make_ec zok) eve ∷ []))
unfolding on_event on_completion
asked_again c id p cb old eve found other = (
  ground (arith, found),
  ground (arith, lookup-assign id id (exists_userdata (on_path p cb) eve) c.heap),
)

-- For a path watched by `watch_path`, with its user data alive: when the node is deleted, and
-- is there again by the time the existence of the path, asked for on the deletion, is answered
-- with `ZOK`, the monitor sends no request and tells the user neither of the deletion nor of
-- the new node.
pub recreated_unseen :
    (m : ConfigMonitor) (c : ZkClient) (id : ℕ) (p : Text) (cb : Callback) (old : ZkEvent)
    → lookup id c.heap ≡ some (exists_userdata (on_path p cb) old)
    → (let c' = fired id p cb zk_deleted_event c in
        let r =
          on_exists (on_path p cb) (make_ec zok) zk_deleted_event (record m { client = c' }) in
        (on_event id zk_deleted_event p c ≡ some (c', awexists p id ∷ []))
        × (on_completion id (stat zok) c'
            ≡ some (c', call_exists (on_path p cb) (make_ec zok) zk_deleted_event ∷ []))
        × (r.sent ≡ [])
        × (r.told ≡ []))
unfolding on_exists make_ec is_session_event
recreated_unseen m c id p cb old found =
    let (went, answered) = asked_again c id p cb old zk_deleted_event found refl in
    (went, answered, refl, refl)

-- For a path watched by `watch_path`, with its user data alive: a created or changed event asks
-- for the existence of the path again; when that completes with `ZOK` the monitor sends one
-- read of the path and tells the user nothing yet; and when the read completes with `ZOK` and a
-- value, the user's callback is told `changed` with that value, once.
pub changed_told :
    (m : ConfigMonitor) (c : ZkClient) (id : ℕ) (p : Text) (cb : Callback) (old eve : ZkEvent)
    (v : Option Text)
    → lookup id c.heap ≡ some (exists_userdata (on_path p cb) old)
    → (is_create_event eve || is_changed_event eve) ≡ true
    → (let c' = fired id p cb eve c in
        let r = on_exists (on_path p cb) (make_ec zok) eve (record m { client = c' }) in
        (on_event id eve p c ≡ some (c', awexists p id ∷ []))
        × (on_completion id (stat zok) c'
            ≡ some (c', call_exists (on_path p cb) (make_ec zok) eve ∷ []))
        × (r.sent ≡ awget p false c.next ∷ [])
        × (r.told ≡ [])
        × ((c'' : ZkClient) × (on_completion c.next (value zok v) r.state.client
              ≡ some (c'', call_get (read_path cb) (make_ec zok) zk_dummy_event p v ∷ [])))
        × ((on_get (read_path cb) (make_ec zok) zk_dummy_event p v r.state).told
            ≡ path_notice cb changed v ∷ []))
unfolding on_exists on_get make_ec has_error is_create_event is_changed_event is_session_event
    on_completion allocate async_get_path_value
changed_told m c id p cb old eve v found change =
    let c' = fired id p cb eve c in
    let (went, answered) = asked_again c id p cb old eve found (ground arith) in
    let asking = allocate (wget_userdata (read_path cb) zk_dummy_event p false) c' in
    (
      went,
      answered,
      ground arith,
      ground arith,
      (
        record { heap = Dict.erase c.next asking.heap; next = asking.next },
        ground (
          arith,
          lookup-assign c.next c.next (wget_userdata (read_path cb) zk_dummy_event p false) c'.heap,
        ),
      ),
      refl,
    )
