-- ===== src/CppzkTest/Answers.antt =====
-- The tests of unit_test/cppzk_ut.cpp for deletion of a missing path and for asynchronous reading,
-- on any server that keeps what zookeeper.h says.
use config_monitor.Base.{◌≡◌, none, some, arith, text, text_eq}
use config_monitor.Zk.Types.{has_error, make_ec}
use config_monitor.Zk.Delete.{delete_path, recursive_get_sub_path, get_sub_path}
use config_monitor.Zk.Ensemble.{Ensemble, EnsembleLaws}
use config_monitor.Zk.Ensemble.Creation.{node}
use config_monitor.Monitor.{Callback, ConfigMonitor}
use config_monitor.Monitor.Facade.{del_path}
use config_monitor.Monitor.Facade.Calls.{async_del_path_told, async_get_path_value_told}
use config_monitor.CppzkTest.Facts.{itself, at_child}
use config_monitor.CppzkTest.{
  passed, prefix, first_child, got_by, test_del_not_exist_path, test_async_del_not_exist_path,
  test_async_get_path_value, test_async_get_not_exist_path_value,
}

module _ (e : Ensemble) (laws : EnsembleLaws e) where
  -- Deleting a missing path fails with the code of its listing.
  del_path-missing :
      (s : e.zoo.Server)
      → node e laws s prefix ≡ none
      → del_path e.zoo 1 s prefix ≡ some (s, make_ec (e.zoo.get_children s prefix).0)
  unfolding del_path delete_path recursive_get_sub_path get_sub_path has_error make_ec
  del_path-missing s free = ground (arith, laws.lists_missing s prefix free)

  pub del_not_exist_passes :
      (s : e.zoo.Server) → node e laws s prefix ≡ none → test_del_not_exist_path e s ≡ passed
  unfolding test_del_not_exist_path has_error make_ec
  del_not_exist_passes s free =
      ground (arith, del_path-missing s free, laws.lists_missing s prefix free)

  pub async_del_not_exist_passes :
      (pro : Callback) (s : e.zoo.Server)
      → node e laws s prefix ≡ none
      → test_async_del_not_exist_path e pro s ≡ passed
  unfolding test_async_del_not_exist_path has_error make_ec
  async_del_not_exist_passes pro s free = ground (
    arith,
    async_del_path_told e.zoo laws.deletes 0 s prefix pro,
    del_path-missing s free,
    laws.lists_missing s prefix free,
  )

  got_by_completed :
      (pro : Callback) (m : ConfigMonitor) (s : e.zoo.Server)
      → got_by e pro m s first_child
        ≡ (let (rc, v) = e.complete_get s first_child in some (make_ec rc, v))
  unfolding got_by
  got_by_completed pro m s =
      let (rc, v) = e.complete_get s first_child in
      let (_, _, (c, done, _, told)) = async_get_path_value_told first_child pro m rc v in
      ground (arith, done, told)

  pub async_get_not_exist_passes :
      (pro : Callback) (m : ConfigMonitor) (s : e.zoo.Server)
      → node e laws s first_child ≡ none
      → test_async_get_not_exist_path_value e pro m s ≡ passed
  unfolding test_async_get_not_exist_path_value has_error make_ec
  async_get_not_exist_passes pro m s free =
      ground (arith, got_by_completed pro m s, laws.answers_get s first_child, free)

  pub async_get_path_value_passes :
      (pro : Callback) (m : ConfigMonitor) (s : e.zoo.Server)
      → node e laws s prefix ≡ none
      → node e laws s first_child ≡ none
      → test_async_get_path_value e pro m s ≡ passed
  unfolding test_async_get_path_value has_error make_ec
  async_get_path_value_passes pro m s above free =
      let (s', made, holds) = at_child e laws s (some (text "5201314")) above free in
      ground (
        arith,
        made,
        got_by_completed pro m s',
        laws.answers_get s' first_child,
        holds,
        itself (text "5201314"),
      )
