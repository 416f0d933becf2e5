-- ===== src/Monitor/Tests/Removed.antt =====
-- The removal of a watch that the client accepts, and of one that it refuses.
use config_monitor.Base.{◌≡◌, refl, some, [], ◌∷◌, text}
use config_monitor.Zk.Types.{zok}
use config_monitor.Zk.Unwatch as Unwatch
use config_monitor.Zk.Tests.Deletion.{no_watcher}
use config_monitor.Monitor.{ConfigMonitor}
use config_monitor.Monitor.Facade.{
  watch_sub_path, operated_call, remove_watches, async_remove_watches,
}
use config_monitor.Monitor.Facade.Removal.{IsRemoved, remove_watches_returns}
use config_monitor.Monitor.Tests.{prefix, monitoring}

remove_watches_returns_example :
    (let ec = (Unwatch.async_remove_watches no_watcher zok (some (text "b" ∷ [])) prefix 1).1 in
      (m' : ConfigMonitor) × IsRemoved watch_sub_path prefix monitoring m'
      × (remove_watches
            (λ log. zok)
            no_watcher
            (some (zok, some (text "b" ∷ [])))
            prefix
            watch_sub_path
            monitoring
          ≡ some (ec, m'))
      × (async_remove_watches
            (λ log. zok)
            no_watcher
            (some (zok, some (text "b" ∷ [])))
            prefix
            watch_sub_path
            (some 9)
            monitoring
          ≡ (m', operated_call 9 ec ∷ [])))
remove_watches_returns_example =
    remove_watches_returns (λ log. zok) no_watcher zok (some (text "b" ∷ [])) prefix watch_sub_path
      9 monitoring (λ log. refl)
