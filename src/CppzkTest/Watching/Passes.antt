-- ===== src/CppzkTest/Watching/Passes.antt =====
-- The tests of `watch_path` on any server that keeps what zookeeper.h says.
use config_monitor.Base.{
  ◌≡◌, refl, ◌∙◌, false, none, some, [], ◌∷◌, arith, Text, text, text_eq, ◌==◌, length-append,
  ◌>>=◌,
}
use config_monitor.Zk.SplitPath.{slash}
use config_monitor.Zk.Delete.{child_path}
use config_monitor.Zk.Setter as Setter
use config_monitor.Zk.Ensemble.{Ensemble, EnsembleLaws}
use config_monitor.Zk.Ensemble.Creation.{node}
use config_monitor.Zk.Ensemble.Deletion.{IsChildless, delete_path-node}
use config_monitor.Monitor.{Callback, ConfigMonitor}
use config_monitor.Monitor.Facade.{del_path, set_path_value}
use config_monitor.CppzkTest.{passed}
use config_monitor.CppzkTest.Facts.{itself}
use config_monitor.CppzkTest.Watching.{
  watch_prefix, test_watch_exist_path, test_watch_not_exist_path_then_create,
  test_watch_exist_path_change_value, test_watch_exist_path_delete_path,
}
use config_monitor.CppzkTest.Watching.Arrivals.{at_watched, watches_lem, sees_lem, deletion_lem}

below_watched : (n : Text) → (child_path watch_prefix n == watch_prefix) ≡ false
below_watched n = ground (arith, length-append watch_prefix (slash ∷ n))

module _ (e : Ensemble) (laws : EnsembleLaws e) (pro : Callback) (m : ConfigMonitor) where
  watch_exist_passes :
      (s : e.zoo.Server)
      → node e laws s watch_prefix ≡ none
      → test_watch_exist_path e pro m s ≡ passed
  unfolding test_watch_exist_path
  watch_exist_passes s free =
      let (s', made, holds, _) = at_watched e laws pro m s none free in
      let (_, _, arrived, _) = watches_lem e laws pro m s' (some none) holds in
      rw (made, arrived) refl

  watch_create_passes :
      (s : e.zoo.Server)
      → node e laws s watch_prefix ≡ none
      → test_watch_not_exist_path_then_create e pro m s ≡ passed
  unfolding test_watch_not_exist_path_then_create
  watch_create_passes s free =
      let value = text "5201314" in
      let (m', eve, arrived, k) = watches_lem e laws pro m s none free in
      let (s', made, holds, _) = at_watched e laws pro m s (some value) free in
      let (_, noted) = sees_lem e laws pro m s' (some value) none m' [] eve holds k in
      rw (made, arrived, noted, itself) refl

  watch_change_passes :
      (s : e.zoo.Server)
      → node e laws s watch_prefix ≡ none
      → test_watch_exist_path_change_value e pro m s ≡ passed
  unfolding test_watch_exist_path_change_value set_path_value Setter.set_path_value
  watch_change_passes s free =
      let new_value = text "this is changed test" in
      let (s', made, holds, _) = at_watched e laws pro m s (some (text "5201314")) free in
      let (m', eve, arrived, k) =
        watches_lem e laws pro m s' (some (some (text "5201314"))) holds in
      let ok = laws.set_there s' watch_prefix new_value (λ q. cc) in
      let s'' = (e.set.set s' watch_prefix new_value).0 in
      let now = laws.writes.stored s' watch_prefix new_value ok in
      let (_, noted) =
        sees_lem e laws pro m s'' (some new_value) (some (some (text "5201314"))) m' [] eve now
          (record { holds = k.holds; kind = k.kind; fresh = λ out. absurd (cc) }) in
      rw (made, arrived, noted, itself) refl

  watch_deletion_passes :
      (s : e.zoo.Server)
      → node e laws s watch_prefix ≡ none
      → IsChildless e laws s watch_prefix
      → test_watch_exist_path_delete_path e pro m s ≡ passed
  unfolding test_watch_exist_path_delete_path del_path
  watch_deletion_passes s free childless =
      let value = text "5201314" in
      let (s', made, holds, others) = at_watched e laws pro m s (some value) free in
      let (m', eve, arrived, k) = watches_lem e laws pro m s' (some (some value)) holds in
      let (s'', done, gone, _) =
        delete_path-node e laws s' watch_prefix (λ q. cc)
          (λ n h. others (child_path watch_prefix n) (below_watched n) ∙ childless n h) in
      let (_, noted) =
        deletion_lem e laws pro m s'' (some value) m' [] eve gone
          (record { holds = k.holds; kind = k.kind; fresh = λ out. absurd (cc) }) in
      rw (made, ◌>>=◌, del_path, done, arrived, noted) refl

  -- The tests of `watch_path` pass.
  abbrev pub WatchesPass : e.zoo.Server → Type 0
  WatchesPass s =
      (test_watch_exist_path e pro m s ≡ passed)
      × (test_watch_not_exist_path_then_create e pro m s ≡ passed)
      × (test_watch_exist_path_change_value e pro m s ≡ passed)
      × (test_watch_exist_path_delete_path e pro m s ≡ passed)

  pub watch_tests_pass :
      (s : e.zoo.Server)
      → node e laws s watch_prefix ≡ none
      → IsChildless e laws s watch_prefix
      → WatchesPass s
  watch_tests_pass s free childless = (
    watch_exist_passes s free,
    watch_create_passes s free,
    watch_change_passes s free,
    watch_deletion_passes s free childless,
  )
