-- ===== src/Monitor/Facade.antt =====
-- The operations of config_monitor.hpp that pass their arguments on to `zk::cppzk`, and wrap the
-- user's callback, which may be empty.
pub mod Calls
pub mod Removal
use config_monitor.Base.{
  ℕ, Bool, true, false, Option, none, some, List, [], ◌∷◌, Text, Outcome, ◌>>=◌, returns, throws,
}
use config_monitor.Zk.Types.{
  ℤ, Rc, ErrorCode, ZkCreateMode, zk_persistent, zk_ephemeral, zk_persistent_sequential,
  zk_ephemeral_sequential, zk_persistent_with_ttl, zk_persistent_sequential_with_ttl,
  zk_open_acl_unsafe, get_create_mode,
}
use config_monitor.Zk.Client.{Zoo}
use config_monitor.Zk.Create
use config_monitor.Zk.Create.{CreateArgs, Created, Ending, called, never_called, drive}
use config_monitor.Zk.Delete
use config_monitor.Zk.Delete.{Answer, answered, unanswered}
use config_monitor.Zk.Setter
use config_monitor.Zk.Setter.{ZooSet}
use config_monitor.Zk.Value
use config_monitor.Zk.Value.{ZooGet, Value}
use config_monitor.Zk.Watch
use config_monitor.Zk.Unwatch.{Log}
use config_monitor.Zk.Unwatch.Requests.{request_unwatch}
use config_monitor.Monitor.{Callback, ConfigMonitor, Reaction, forward, send, on_unwatched}

pub data WatchType : Type 0 where
  watch_path watch_sub_path : WatchType

-- `static_cast<int>(type)`
abbrev pub watch_number : WatchType → ℕ
watch_number watch_path = 0
watch_number watch_sub_path = 1

-- `create_mode`, whose constants are those of the file modes.
pub data CreateMode : Type 0 where
  persistent ephemeral persistent_sequential ephemeral_sequential : CreateMode
  persistent_with_ttl persistent_sequential_with_ttl : CreateMode

-- `static_cast<int>(mode)`
abbrev pub create_number : CreateMode → ℕ
create_number persistent = 0
create_number ephemeral = 1
create_number persistent_sequential = 2
create_number ephemeral_sequential = 3
create_number persistent_with_ttl = 5
create_number persistent_sequential_with_ttl = 6

-- A call of a user's callback.
pub data Called : Type 0 where
  created_call : Callback → ErrorCode → Text → Called
  operated_call : Callback → ErrorCode → Called

-- `if (cb) cb(ec, new_path)`, when the inner callback is called at all.
abbrev pub forward_created : Option Callback → Ending → List Called
forward_created none ending = []
forward_created (some cb) (called ec new_path) = created_call cb ec new_path ∷ []
forward_created (some cb) never_called = []

abbrev pub forward_operated : Option Callback → Answer → List Called
forward_operated none answer = []
forward_operated (some cb) (answered ec) = operated_call cb ec ∷ []
forward_operated (some cb) unanswered = []

-- `get_create_mode(static_cast<int>(mode))`; every number of a mode is a constant of the other type.
unfoldable pub zk_mode : CreateMode → ZkCreateMode
unfolding get_create_mode
zk_mode mode = elim (get_create_mode (create_number mode)) [ some m ↦ m | none ↦ zk_persistent ]

abbrev pub create_args : Text → Option Text → CreateMode → ℤ → CreateArgs
create_args path value mode ttl = record {
  path = path;
  value = value;
  mode = zk_mode mode;
  ttl = ttl;
  acl = zk_open_acl_unsafe;
}

module _ (z : Zoo) where
  unfoldable pub create_path : z.Server → Text → Option Text → CreateMode → ℤ → Outcome (Created z)
  unfolding zk_mode
  create_path s path value mode ttl = Create.create_path z s (create_args path value mode ttl)

  -- The chain of requests served one after the other, on fuel, and the calls of the user's callback.
  unfoldable pub async_create_path :
      ℕ
      → z.Server
      → Text
      → Option Callback
      → Option Text
      → CreateMode
      → ℤ
      → Outcome (Option (z.Server × List Called))
  unfolding zk_mode
  async_create_path fuel s path cb value mode ttl =
      Create.async_create_path (create_args path value mode ttl) >>= λ (r, p).
      returns (elim (drive z fuel s r p) [
        | none ↦ none
        | some (s', ending) ↦ some (s', forward_created cb ending)
      ])

  unfoldable pub del_path : ℕ → z.Server → Text → Option (z.Server × ErrorCode)
  del_path fuel s path = Delete.delete_path z fuel s path

  unfoldable pub async_del_path :
      ℕ → z.Server → Text → Option Callback → Option (z.Server × List Called)
  async_del_path fuel s path cb = elim (Delete.async_delete_path z fuel s path) [
    | none ↦ none
    | some (s', answer) ↦ some (s', forward_operated cb answer)
  ]

  unfoldable pub get_sub_path : z.Server → Text → ErrorCode × List Text
  get_sub_path s path = Delete.get_sub_path z s path

module _ {Server : Type 0} (w : ZooSet Server) where
  unfoldable pub set_path_value : Server → Text → Text → Server × ErrorCode
  set_path_value s path value = Setter.set_path_value w s path value

  unfoldable pub async_set_path_value :
      Server → Text → Text → Option Callback → Server × List Called
  async_set_path_value s path value cb =
      let (s', answer) = Setter.async_set_path_value w s path value in
      (s', forward_operated cb answer)

unfoldable pub get_path_value : (z : ZooGet) → z.Server → z.Server → Text → Value
get_path_value z s later path = Value.get_path_value z s later path

-- The user's callback is called by `on_get` with the closure `forward`.
unfoldable pub async_get_path_value : Text → Option Callback → ConfigMonitor → Reaction
async_get_path_value path cb m =
    send (Watch.async_get_path_value false path (forward cb) m.client) m

module _ (submit reply : Log → Rc) where
  -- The record is erased before the user's callback is called.
  unfoldable pub async_remove_watches :
      Option (Rc × Option (List Text))
      → Text
      → WatchType
      → Option Callback
      → ConfigMonitor
      → ConfigMonitor × List Called
  unfolding on_unwatched
  async_remove_watches listing path type cb m =
      elim (request_unwatch submit reply listing path (watch_number type)).1 [
        | unanswered ↦ (m, [])
        | answered ec ↦ (on_unwatched path (watch_number type) m, forward_operated cb (answered ec))
      ]

  -- It waits for a promise that its callback sets: none is a wait without end.
  unfoldable pub remove_watches :
      Option (Rc × Option (List Text))
      → Text
      → WatchType
      → ConfigMonitor
      → Option (ErrorCode × ConfigMonitor)
  unfolding on_unwatched
  remove_watches listing path type m =
      elim (request_unwatch submit reply listing path (watch_number type)).1 [
        | unanswered ↦ none
        | answered ec ↦ some (ec, on_unwatched path (watch_number type) m)
      ]
