-- ===== src/Monitor/Facade/Removal.antt =====
-- The removal of watches in config_monitor.hpp, with its wait.
use config_monitor.Base.{
  ◌≡◌, refl, false, Option, none, some, List, [], ◌∷◌, arith, Text, text_eq, ◌==◌, if◌then◌else◌,
}
use config_monitor.Base.Dict.{lookup, lookup-erase}
use config_monitor.Zk.Types.{Rc, failed}
use config_monitor.Zk.Unwatch.{Log, data_watch, any_watch, data_calls, async_remove_watches-calls}
use config_monitor.Zk.Unwatch as Unwatch
use config_monitor.Zk.Unwatch.Requests.{request_unwatch-async_remove_watches}
use config_monitor.Monitor.{ConfigMonitor, Callback, on_unwatched}
use config_monitor.Monitor.Facade.{
  WatchType, watch_path, watch_sub_path, watch_number, operated_call, remove_watches,
  async_remove_watches,
}

-- What is recorded once the watch of a path, or of its sub-paths, is gone.
pub record IsRemoved (type : WatchType) (path : Text) (m m' : ConfigMonitor) : Type 0 where
  pub paths :
      (q : Text)
      → lookup q m'.watch_record ≡ elim type [
        | watch_path ↦ if q == path then none else lookup q m.watch_record
        | watch_sub_path ↦ lookup q m.watch_record
      ]
  pub sub_paths :
      (q : Text)
      → lookup q m'.watch_sub_record ≡ elim type [
        | watch_path ↦ lookup q m.watch_sub_record
        | watch_sub_path ↦ if q == path then none else lookup q m.watch_sub_record
      ]
  pub listings :
      (q : Text)
      → lookup q m'.last_sub_path ≡ elim type [
        | watch_path ↦ lookup q m.last_sub_path
        | watch_sub_path ↦ if q == path then none else lookup q m.last_sub_path
      ]

on_unwatched-IsRemoved :
    (type : WatchType) (path : Text) (m : ConfigMonitor)
    → IsRemoved type path m (on_unwatched path (watch_number type) m)
unfolding on_unwatched
on_unwatched-IsRemoved watch_path path m = record {
  paths = λ q. lookup-erase q path m.watch_record;
  sub_paths = λ q. refl;
  listings = λ q. refl;
}
on_unwatched-IsRemoved watch_sub_path path m = record {
  paths = λ q. refl;
  sub_paths = λ q. lookup-erase q path m.watch_sub_record;
  listings = λ q. lookup-erase q path m.last_sub_path;
}

module _ (submit reply : Log → Rc) where
  -- When the client accepts every request and the listing completes, the blocking
  -- `remove_watches` of config_monitor returns, and its asynchronous form calls the user's
  -- callback once, with the same code and the same records: the entry of the path is gone from
  -- the records of its kind, whatever the code is, and every other entry is as it was.
  pub remove_watches_returns :
      (rc : Rc) (strings : Option (List Text)) (path : Text) (type : WatchType) (cb : Callback)
      (m : ConfigMonitor)
      → ((log : Log) → failed (submit log) ≡ false)
      → let ec = (Unwatch.async_remove_watches reply rc strings path (watch_number type)).1 in
        (m' : ConfigMonitor) × IsRemoved type path m m'
        × (remove_watches submit reply (some (rc, strings)) path type m ≡ some (ec, m'))
        × (async_remove_watches submit reply (some (rc, strings)) path type (some cb) m
            ≡ (m', operated_call cb ec ∷ []))
  unfolding remove_watches async_remove_watches
  remove_watches_returns rc strings path type cb m accepts =
      let e =
        request_unwatch-async_remove_watches submit reply rc strings path (watch_number type)
          accepts in
      (
        on_unwatched path (watch_number type) m,
        on_unwatched-IsRemoved type path m,
        ground (arith, e),
        ground (arith, e),
      )
