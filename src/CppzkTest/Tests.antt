-- ===== src/CppzkTest/Tests.antt =====
-- The tests of unit_test/cppzk_ut.cpp on a server with no nodes.
use config_monitor.Base.{refl, []}
use config_monitor.Base.Dict.{lookup}
use config_monitor.Monitor.{ConfigMonitor}
use config_monitor.CppzkTest.Passes.{SynchronousPass, AsynchronousPass, cppzk_tests_pass}
use config_monitor.CppzkTest.Watching.Passes.{WatchesPass}
use config_monitor.Zk.Tests.Keeper.{keeper, keeper-EnsembleLaws, keeper-GetLaws}

abbrev idle : ConfigMonitor
idle = record {
  client = record { heap = []; next = 0 };
  last_sub_path = [];
  watch_record = [];
  watch_sub_record = [];
}

cppzk_tests_pass_example :
    SynchronousPass keeper keeper-EnsembleLaws []
    × (AsynchronousPass keeper keeper-EnsembleLaws 1 idle [])
    × WatchesPass keeper keeper-EnsembleLaws 1 idle []
unfolding keeper-EnsembleLaws keeper-GetLaws lookup
cppzk_tests_pass_example =
    cppzk_tests_pass keeper keeper-EnsembleLaws 1 idle [] refl (λ r h. refl) refl (λ n h. refl)
