-- ===== src/Monitor.antt =====
-- src/config_monitor.hpp, over `zk::cppzk`: what the callbacks of its watches do, and the records
-- that it keeps to watch again after a lost session. User callbacks are known by numbers.
pub mod SubPaths
pub mod Records
pub mod Paths
pub mod Follows
pub mod Child
pub mod Listings
pub mod Expiry
pub mod Facade
mod Tests
use config_monitor.Base.{
  ℕ, Bool, true, false, not, ◌&&◌, ◌||◌, Option, none, some, List, [], ◌∷◌, ◌++◌, Text, text_eq,
  contains, eqb, if◌then◌else◌,
}
use config_monitor.Base.Dict
use config_monitor.Base.Dict.{Dict}
use config_monitor.Zk.Types.{
  Rc, ErrorCode, has_error, ZkEvent, is_delete_event, is_dummy_event, is_create_event,
  is_changed_event,
}
use config_monitor.Zk.Delete.{child_path}
use config_monitor.Zk.Watch.{
  Client, Output, call_exists, call_get, call_children, async_get_path_value, watch_path_event,
  async_get_sub_path,
}

abbrev pub Callback : Type 0
Callback = ℕ

pub data PathEvent : Type 0 where
  changed del : PathEvent

-- The lambdas handed to `cppzk`, with what they capture.
pub data ExistsClosure : Type 0 where
  on_path : Text → Callback → ExistsClosure
  on_prefix : Text → Callback → ExistsClosure

pub data GetClosure : Type 0 where
  read_path : Callback → GetClosure
  monitor : Text → Callback → GetClosure
  forward : Option Callback → GetClosure

pub data ChildrenClosure : Type 0 where
  on_children : Text → Callback → ChildrenClosure

abbrev pub ZkClient : Type 0
ZkClient = Client ExistsClosure GetClosure ChildrenClosure

abbrev pub ZkOutput : Type 0
ZkOutput = Output ExistsClosure GetClosure ChildrenClosure

-- A call of a user's callback: of a watched path, or of a sub-path.
pub data Notification : Type 0 where
  path_notice : Callback → PathEvent → Option Text → Notification
  sub_path_notice : Callback → PathEvent → Text → Option Text → Notification
  value_notice : Callback → ErrorCode → Option Text → Notification

-- What a callback does: it calls the user, or sends requests.
pub record ConfigMonitor : Type 0 where
  pub client : ZkClient
  pub last_sub_path : Dict Text (List Text)
  pub watch_record : Dict Text Callback
  pub watch_sub_record : Dict Text Callback

-- The monitor afterwards, the requests sent and the user's callbacks called.
pub record Reaction : Type 0 where
  pub state : ConfigMonitor
  pub sent : List ZkOutput
  pub told : List Notification

abbrev pub quiet : ConfigMonitor → Reaction
quiet m = record { state = m; sent = []; told = [] }

abbrev pub tell : Notification → ConfigMonitor → Reaction
tell n m = record { state = m; sent = []; told = n ∷ [] }

abbrev pub send : (ZkClient × ZkOutput) → ConfigMonitor → Reaction
send (c, out) m = record { state = record m { client = c }; sent = out ∷ []; told = [] }

-- The callbacks of `watch_path` and of `watch_sub_path` on the existence of their paths.
unfoldable pub on_exists : ExistsClosure → ErrorCode → ZkEvent → ConfigMonitor → Reaction
unfolding has_error is_delete_event is_dummy_event is_create_event is_changed_event
    async_get_path_value async_get_sub_path
on_exists (on_path p cb) ec eve m =
    if has_error ec && is_delete_event eve
    then tell (path_notice cb del none) m
    else if is_dummy_event eve || (is_create_event eve || is_changed_event eve)
    then send (async_get_path_value false p (read_path cb) m.client) m
    else quiet m
on_exists (on_prefix prefix cb) ec eve m =
    if has_error ec
    then quiet m
    else if not (is_dummy_event eve) && not (is_create_event eve)
    then quiet m
    else send (async_get_sub_path true prefix (on_children prefix cb) m.client) m

-- The callbacks on a value that was read.
unfoldable pub on_get :
    GetClosure → ErrorCode → ZkEvent → Text → Option Text → ConfigMonitor → Reaction
unfolding has_error is_delete_event
on_get (read_path cb) ec eve path val m =
    if has_error ec then quiet m else tell (path_notice cb changed val) m
on_get (monitor prefix cb) ec eve path val m =
    if has_error ec && is_delete_event eve
    then tell (sub_path_notice cb del path none) m
    else if has_error ec
    then quiet m
    else tell (sub_path_notice cb changed path val) m
on_get (forward none) ec eve path val m = quiet m
on_get (forward (some cb)) ec eve path val m = tell (value_notice cb ec val) m

-- The lambda `monitor` for each of the paths.
unfoldable pub monitor_all : Text → Callback → List Text → ZkClient → ZkClient × List ZkOutput
unfolding async_get_path_value
monitor_all prefix cb [] c = (c, [])
monitor_all prefix cb (sub_path ∷ rest) c =
    let (c', out) = async_get_path_value true (child_path prefix sub_path) (monitor prefix cb) c in
    let (c'', outs) = monitor_all prefix cb rest c' in (c'', out ∷ outs)

-- The sub-paths that are not in the set.
unfoldable pub new_paths : List Text → List Text → List Text
new_paths known [] = []
new_paths known (sub_path ∷ rest) =
    let more = new_paths known rest in if contains known sub_path then more else sub_path ∷ more

-- The callback of `watch_sub_path` on a listing. A set is the list of its elements.
unfoldable pub on_children_listed :
    ChildrenClosure → ErrorCode → List Text → ConfigMonitor → Reaction
unfolding has_error monitor_all new_paths
on_children_listed (on_children prefix cb) ec sub_paths m =
    if has_error ec then quiet m else elim (Dict.lookup prefix m.last_sub_path) [
      | none ↦
          let (c, outs) = monitor_all prefix cb sub_paths m.client in
          record {
            state = record m {
              client = c;
              last_sub_path = Dict.emplace prefix sub_paths m.last_sub_path;
            };
            sent = outs;
            told = [];
          }
      | some known ↦
          let (c, outs) = monitor_all prefix cb (new_paths known sub_paths) m.client in
          record {
            state = record m {
              client = c;
              last_sub_path = Dict.assign prefix sub_paths m.last_sub_path;
            };
            sent = outs;
            told = [];
          }
    ]

-- `watch_path` and `watch_sub_path`.
unfoldable pub watch_path : Text → Callback → ConfigMonitor → Reaction
unfolding watch_path_event
watch_path path cb m =
    send (watch_path_event path (on_path path cb) m.client)
      (record m { watch_record = Dict.assign path cb m.watch_record })

unfoldable pub watch_sub_path : Text → Callback → ConfigMonitor → Reaction
unfolding watch_path_event
watch_sub_path path cb m =
    send (watch_path_event path (on_prefix path cb) m.client)
      (record m { watch_sub_record = Dict.assign path cb m.watch_sub_record })

-- The callback of `async_remove_watches`, before it calls the user's: whatever the code is, the
-- record is erased. `watch_path` is type 0.
unfoldable pub on_unwatched : Text → ℕ → ConfigMonitor → ConfigMonitor
on_unwatched p watch_type m =
    if eqb watch_type 0 then record m { watch_record = Dict.erase p m.watch_record } else record m {
      last_sub_path = Dict.erase p m.last_sub_path;
      watch_sub_record = Dict.erase p m.watch_sub_record;
    }

-- The callback for a lost session: `releaser_` is cleared and the session opened again, so that
-- the client starts with no data; then each record is watched again.
abbrev pub then_also : Reaction → (ConfigMonitor → Reaction) → Reaction
then_also r f =
    let next = f r.state in
    record { state = next.state; sent = r.sent ++ next.sent; told = r.told ++ next.told }

unfoldable pub rewatch_paths : Dict Text Callback → ConfigMonitor → Reaction
unfolding watch_path
rewatch_paths [] m = quiet m
rewatch_paths ((path, cb) ∷ rest) m = then_also (watch_path path cb m) (rewatch_paths rest)

unfoldable pub rewatch_sub_paths : Dict Text Callback → ConfigMonitor → Reaction
unfolding watch_sub_path
rewatch_sub_paths [] m = quiet m
rewatch_sub_paths ((path, cb) ∷ rest) m =
    then_also (watch_sub_path path cb m) (rewatch_sub_paths rest)

unfoldable pub on_expired : ConfigMonitor → Reaction
unfolding rewatch_paths rewatch_sub_paths
on_expired m =
    then_also
      (rewatch_paths m.watch_record (record {
        client = m.client;
        last_sub_path = [];
        watch_record = [];
        watch_sub_record = [];
      }))
      (rewatch_sub_paths m.watch_sub_record)
