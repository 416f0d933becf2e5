-- ===== src/CppzkTest/Watching.antt =====
-- unit_test/cppzk_ut.cpp: the tests of `watch_path`, as runs over a server and the handlers of the
-- watch. Where a test sleeps or waits, all that is out arrives. A promise that is set twice throws,
-- and one that is not set is waited for without end: then the run is none.
pub mod Arrivals
pub mod Passes
use config_monitor.Base.{
  Bool, true, false, not, ◌&&◌, Option, none, some, List, [], ◌∷◌, Text, text, if◌then◌else◌,
  returns, ◌>>=◌,
}
use config_monitor.Zk.Types.{negsuc, failed}
use config_monitor.Zk.Ensemble.{Ensemble}
use config_monitor.Monitor.{
  Callback, ConfigMonitor, PathEvent, changed, del, Notification, path_notice, watch_path,
}
use config_monitor.Monitor.Facade.{persistent, create_path, del_path, set_path_value}
use config_monitor.Monitor.Follows.{Node, Followed, becomes, turn, settle}
use config_monitor.Monitor.Follows.Current.{started}
use config_monitor.CppzkTest.{Run, is_bare, is_value}

abbrev pub watch_prefix : Text
watch_prefix = text "/watch_test"

-- `eve == cm::path_event::changed`
abbrev pub is_changed : PathEvent → Bool
is_changed changed = true
is_changed del = false

-- `eve == cm::path_event::del`
abbrev pub is_deleted : PathEvent → Bool
is_deleted eve = not (is_changed eve)

-- `auto [eve, val] = pro->get_future().get()`
abbrev pub noticed : List Notification → Option (PathEvent × Option Text)
noticed (path_notice cb eve val ∷ []) = some (eve, val)
noticed _ = none

-- The expectations on what the promise was set to.
abbrev pub expect : (PathEvent → Option Text → Bool) → Option Followed → Run
expect good none = returns none
expect good (some f) = elim (noticed f.told) [
  | none ↦ returns none
  | some (eve, val) ↦ returns (some (good eve val))
]

module _ (e : Ensemble) where
  -- What the server has at the watched path.
  abbrev pub node_at : e.zoo.Server → Node
  node_at s = let (rc, val) = e.complete_get s watch_prefix in if failed rc then none else some val

  -- `watch_path`, and what comes of it.
  unfoldable pub watches : Callback → ConfigMonitor → e.zoo.Server → Option Followed
  watches pro m s =
      settle watch_prefix m.client.next (started (node_at s) (watch_path watch_prefix pro m).state)

  -- The server is now `s`, and what comes of it.
  unfoldable pub sees : ConfigMonitor → e.zoo.Server → Option Followed → Option Followed
  sees m s none = none
  sees m s (some f) = elim (turn watch_prefix m.client.next (becomes (node_at s)) f) [
    | none ↦ none
    | some f' ↦ settle watch_prefix m.client.next f'
  ]

  -- `if (pro)`: what is told before there is a promise is dropped.
  abbrev pub drop_told : Option Followed → Option Followed
  drop_told none = none
  drop_told (some f) = some (record f { told = [] })

  unfoldable pub test_watch_exist_path : Callback → ConfigMonitor → e.zoo.Server → Run
  test_watch_exist_path pro m s =
      create_path e.zoo s watch_prefix none persistent (negsuc 0) >>= λ (s', _, _).
      expect (λ eve val. is_changed eve && is_bare val) (watches pro m s')

  unfoldable pub test_watch_not_exist_path_then_create :
      Callback → ConfigMonitor → e.zoo.Server → Run
  test_watch_not_exist_path_then_create pro m s =
      let before = watches pro m s in
      create_path e.zoo s watch_prefix (some (text "5201314")) persistent (negsuc 0)
      >>= λ (s', _, _).
          expect (λ eve val. is_changed eve && is_value val (text "5201314")) (sees m s' before)

  unfoldable pub test_watch_exist_path_change_value : Callback → ConfigMonitor → e.zoo.Server → Run
  test_watch_exist_path_change_value pro m s =
      create_path e.zoo s watch_prefix (some (text "5201314")) persistent (negsuc 0)
      >>= λ (s', _, _).
          let (s'', _) = set_path_value e.set s' watch_prefix (text "this is changed test") in
          expect (λ eve val. is_changed eve && is_value val (text "this is changed test"))
            (sees m s'' (drop_told (watches pro m s')))

  -- Nothing is below the path, so that one level of the walk is enough.
  unfoldable pub test_watch_exist_path_delete_path : Callback → ConfigMonitor → e.zoo.Server → Run
  test_watch_exist_path_delete_path pro m s =
      create_path e.zoo s watch_prefix (some (text "5201314")) persistent (negsuc 0)
      >>= λ (s', _, _). elim (del_path e.zoo 1 s' watch_prefix) [
        | none ↦ returns none
        | some (s'', _) ↦
            expect (λ eve val. is_deleted eve && is_bare val)
              (sees m s'' (drop_told (watches pro m s')))
      ]
