-- ===== src/CppzkTest/Deletion.antt =====
-- unit_test/cppzk_ut.cpp: the tests of deletion, as runs over a server.
pub mod Passes
use config_monitor.Base.{none, some, Text, text, Outcome, returns, ◌>>=◌}
use config_monitor.Zk.Types.{negsuc}
use config_monitor.Zk.Ensemble.{Ensemble}
use config_monitor.Monitor.{Callback}
use config_monitor.Monitor.Facade.{persistent, create_path, del_path, async_del_path}
use config_monitor.CppzkTest.{Run, prefix, is_ok, awaited_code}

abbrev pub ascent : Text
ascent = text "/test/1/2/3/4/5/6/7/8/9"

abbrev pub descent : Text
descent = text "/test/9/8/7/6/5/4/3/2/1"

module _ (e : Ensemble) where
  abbrev pub make_tree : e.zoo.Server → Outcome e.zoo.Server
  make_tree s = create_path e.zoo s prefix none persistent (negsuc 0) >>= λ (s1, _, _).
      create_path e.zoo s1 ascent none persistent (negsuc 0) >>= λ (s2, _, _).
      create_path e.zoo s2 descent none persistent (negsuc 0) >>= λ (s3, _, _). returns s3

  -- The walk goes down ten levels, `prefix` the first.
  unfoldable pub test_del_path : e.zoo.Server → Run
  test_del_path s = make_tree s >>= λ s'. elim (del_path e.zoo 10 s' prefix) [
    | none ↦ returns none
    | some (s'', ec) ↦ returns (some (is_ok ec))
  ]

  unfoldable pub test_async_del_path : Callback → e.zoo.Server → Run
  test_async_del_path pro s = make_tree s >>= λ s'.
      elim (async_del_path e.zoo 9 s' prefix (some pro)) [
        | none ↦ returns none
        | some (s'', calls) ↦ elim (awaited_code calls) [
          | none ↦ returns none
          | some ec ↦ returns (some (is_ok ec))
        ]
      ]
