-- ===== src/CppzkTest/Passes.antt =====
-- The tests of unit_test/cppzk_ut.cpp on any server that keeps what zookeeper.h says.
use config_monitor.Base.{◌≡◌, refl, none, some, [], ◌∷◌, arith, Text, text, text_eq}
use config_monitor.Zk.Types.{negsuc, has_error, make_ec}
use config_monitor.Zk.Setter as Setter
use config_monitor.Zk.Ensemble.{Ensemble, EnsembleLaws}
use config_monitor.Zk.Ensemble.Deletion.{IsChildless, IsShallow}
use config_monitor.CppzkTest.Deletion.{test_del_path, test_async_del_path}
use config_monitor.CppzkTest.Deletion.Passes.{del_path_passes, async_del_path_passes}
use config_monitor.Zk.Ensemble.Creation.{node, IsAllowed, untouched-IsAllowed}
use config_monitor.Monitor.{Callback, ConfigMonitor}
use config_monitor.Monitor.Facade.{persistent, persistent_sequential, set_path_value}
use config_monitor.Monitor.Facade.Calls.{async_create_path_told}
use config_monitor.CppzkTest.Facts.{
  itself, at_prefix, at_child, at_grandchild, numbered, reads, set_told,
}
use config_monitor.CppzkTest.Answers.{
  del_not_exist_passes, async_del_not_exist_passes, async_get_path_value_passes,
  async_get_not_exist_passes,
}
use config_monitor.CppzkTest.Watching.{watch_prefix}
use config_monitor.CppzkTest.Watching.Passes.{WatchesPass, watch_tests_pass}
use config_monitor.CppzkTest.{
  passed, prefix, first_child, grandchild, test_create_path,
  test_create_persistent_sequential_path_with_value, test_create_exist_path, test_async_create_path,
  test_async_create_exist_path, test_async_create_persistent_sequential_path_with_value,
  test_set_path_value, test_set_not_exist_path_value, test_async_set_path_value,
  test_async_set_not_exist_path_value, test_get_path_value, test_get_not_exist_path_value,
  test_del_not_exist_path, test_async_del_not_exist_path, test_async_get_path_value,
  test_async_get_not_exist_path_value,
}

module _ (e : Ensemble) (laws : EnsembleLaws e) where
  abbrev pub IsFree : e.zoo.Server → Text → Type 0
  IsFree s path = node e laws s path ≡ none

  create_path_passes : (s : e.zoo.Server) → IsFree s prefix → test_create_path e s ≡ passed
  unfolding test_create_path has_error make_ec
  create_path_passes s free =
      let (s', made, holds) = at_prefix e laws s free in
      rw (made, reads e laws s' prefix (some none) holds, itself) refl

  create_exist_path_passes :
      (s : e.zoo.Server)
      → IsAllowed e laws s [] (text "test" ∷ text "1" ∷ text "2" ∷ [])
      → test_create_exist_path e s ≡ passed
  unfolding test_create_exist_path has_error make_ec text_eq
  create_exist_path_passes s allows =
      let (s', r, s'', made, again) = at_grandchild e laws s allows in rw (made, again) refl

  sequential_passes :
      (s : e.zoo.Server)
      → IsAllowed e laws s [] (text "test" ∷ text "1" ∷ [])
      → test_create_persistent_sequential_path_with_value e s ≡ passed
  unfolding test_create_persistent_sequential_path_with_value has_error make_ec
  sequential_passes s allows =
      let (s', new_path, made, other, holds) = numbered e laws s allows in
      rw (made, holds, other, itself) refl

  set_path_value_passes :
      (s : e.zoo.Server) → IsFree s prefix → IsFree s first_child → test_set_path_value e s ≡ passed
  unfolding test_set_path_value has_error make_ec set_path_value Setter.set_path_value
  set_path_value_passes s above free =
      let (s', made, holds) = at_child e laws s none above free in
      let ok = laws.set_there s' first_child (text "123456") (λ q. cc) in
      let now = laws.writes.stored s' first_child (text "123456") ok in
      rw
        (
          made,
          ok,
          reads e laws (e.set.set s' first_child (text "123456")).0 first_child _ now,
          itself,
        )
        refl

  set_not_exist_passes :
      (s : e.zoo.Server) → IsFree s first_child → test_set_not_exist_path_value e s ≡ passed
  unfolding test_set_not_exist_path_value has_error make_ec set_path_value Setter.set_path_value
  set_not_exist_passes s free = rw (laws.set_missing s first_child (text "5201314") free) refl

  get_path_value_passes :
      (s : e.zoo.Server) → IsFree s prefix → IsFree s first_child → test_get_path_value e s ≡ passed
  unfolding test_get_path_value has_error make_ec
  get_path_value_passes s above free =
      let (s', made, holds) = at_child e laws s (some (text "5201314")) above free in
      rw (made, reads e laws s' first_child (some (some (text "5201314"))) holds, itself) refl

  get_not_exist_passes :
      (s : e.zoo.Server) → IsFree s first_child → test_get_not_exist_path_value e s ≡ passed
  unfolding test_get_not_exist_path_value has_error make_ec
  get_not_exist_passes s free = rw (reads e laws s first_child none free) refl

  async_create_path_passes :
      (pro : Callback) (s : e.zoo.Server)
      → IsFree s prefix
      → test_async_create_path e pro s ≡ passed
  unfolding test_async_create_path has_error make_ec
  async_create_path_passes pro s free =
      let (s', made, holds) = at_prefix e laws s free in
      rw
        (
          (async_create_path_told e.zoo laws.creates laws.accepts_create s prefix pro none
              persistent (negsuc 0)).0,
          made,
          reads e laws s' prefix (some none) holds,
          itself,
        )
        refl

  async_create_exist_path_passes :
      (pro : Callback) (s : e.zoo.Server)
      → IsAllowed e laws s [] (text "test" ∷ text "1" ∷ text "2" ∷ [])
      → test_async_create_exist_path e pro s ≡ passed
  unfolding test_async_create_exist_path has_error make_ec text_eq
  async_create_exist_path_passes pro s allows =
      let (s', r, s'', made, again) = at_grandchild e laws s allows in
      rw
        (
          made,
          (async_create_path_told e.zoo laws.creates laws.accepts_create s' grandchild pro none
              persistent (negsuc 0)).0,
          again,
        )
        refl

  async_sequential_passes :
      (pro : Callback) (s : e.zoo.Server)
      → IsAllowed e laws s [] (text "test" ∷ text "1" ∷ [])
      → test_async_create_persistent_sequential_path_with_value e pro s ≡ passed
  unfolding test_async_create_persistent_sequential_path_with_value has_error make_ec
  async_sequential_passes pro s allows =
      let (s', new_path, made, other, holds) = numbered e laws s allows in
      rw
        (
          (async_create_path_told e.zoo laws.creates laws.accepts_create s first_child pro
              (some (text "123456")) persistent_sequential (negsuc 0)).0,
          made,
          holds,
          other,
          itself,
        )
        refl

  async_set_path_value_passes :
      (pro : Callback) (s : e.zoo.Server)
      → IsFree s prefix
      → IsFree s first_child
      → test_async_set_path_value e pro s ≡ passed
  unfolding test_async_set_path_value has_error make_ec
  async_set_path_value_passes pro s above free =
      let v = text "5201314" in
      let (s', made, holds) = at_child e laws s none above free in
      let ok = laws.set_there s' first_child v (λ q. cc) in
      let now = laws.writes.stored s' first_child v ok in
      ground (
        arith,
        made,
        set_told e laws pro s' first_child v,
        ok,
        reads e laws (e.set.set s' first_child v).0 first_child (some (some v)) now,
        itself v,
      )

  async_set_not_exist_passes :
      (pro : Callback) (s : e.zoo.Server)
      → IsFree s first_child
      → test_async_set_not_exist_path_value e pro s ≡ passed
  unfolding test_async_set_not_exist_path_value has_error make_ec
  async_set_not_exist_passes pro s free =
      let v = text "5201314" in
      ground (arith, set_told e laws pro s first_child v, laws.set_missing s first_child v free)

  -- The tests of the synchronous operations pass, and those of the asynchronous ones.
  abbrev pub SynchronousPass : e.zoo.Server → Type 0
  SynchronousPass s =
      (test_create_path e s ≡ passed)
      × (test_create_persistent_sequential_path_with_value e s ≡ passed)
      × (test_create_exist_path e s ≡ passed)
      × (test_set_path_value e s ≡ passed)
      × (test_set_not_exist_path_value e s ≡ passed)
      × (test_get_path_value e s ≡ passed)
      × (test_get_not_exist_path_value e s ≡ passed)
      × (test_del_path e s ≡ passed)
      × (test_del_not_exist_path e s ≡ passed)

  abbrev pub AsynchronousPass : Callback → ConfigMonitor → e.zoo.Server → Type 0
  AsynchronousPass pro m s =
      (test_async_create_path e pro s ≡ passed)
      × (test_async_create_persistent_sequential_path_with_value e pro s ≡ passed)
      × (test_async_create_exist_path e pro s ≡ passed)
      × (test_async_set_path_value e pro s ≡ passed)
      × (test_async_set_not_exist_path_value e pro s ≡ passed)
      × (test_async_del_path e pro s ≡ passed)
      × (test_async_del_not_exist_path e pro s ≡ passed)
      × (test_async_get_path_value e pro m s ≡ passed)
      × (test_async_get_not_exist_path_value e pro m s ≡ passed)

  -- On every server that obeys `EnsembleLaws` and has neither `/test` nor `/watch_test`,
  -- nothing below the first and no child of the other, the tests of cppzk_ut.cpp for creation,
  -- writing, reading and deletion pass, those of the asynchronous forms included, and so do
  -- those for a watched path that is there, is made, is changed and is deleted, from any state
  -- of the monitor: each run ends, and all that it expects holds.
  pub cppzk_tests_pass :
      (pro : Callback) (m : ConfigMonitor) (s : e.zoo.Server)
      → IsFree s prefix
      → IsShallow e laws s prefix 0
      → IsFree s watch_prefix
      → IsChildless e laws s watch_prefix
      → SynchronousPass s × (AsynchronousPass pro m s) × WatchesPass e laws pro m s
  cppzk_tests_pass pro m s free low free'' childless =
      let free' : IsFree s first_child = low (text "1") (omega arith) in
      let below : IsAllowed e laws s prefix (text "1" ∷ text "2" ∷ []) =
        untouched-IsAllowed e laws s prefix (text "1" ∷ text "2" ∷ []) (λ r. low r (omega arith))
          (refl, (refl, tt)) in
      let two : IsAllowed e laws s [] (text "test" ∷ text "1" ∷ []) =
        (refl, rw free refl, (below.0, below.1, tt)) in
      let three : IsAllowed e laws s [] (text "test" ∷ text "1" ∷ text "2" ∷ []) =
        (refl, rw free refl, below) in
      (
        (
          create_path_passes s free,
          sequential_passes s two,
          create_exist_path_passes s three,
          set_path_value_passes s free free',
          set_not_exist_passes s free',
          get_path_value_passes s free free',
          get_not_exist_passes s free',
          del_path_passes e laws s free low,
          del_not_exist_passes e laws s free,
        ),
        (
          async_create_path_passes pro s free,
          async_sequential_passes pro s two,
          async_create_exist_path_passes pro s three,
          async_set_path_value_passes pro s free free',
          async_set_not_exist_passes pro s free',
          async_del_path_passes e laws pro s free low,
          async_del_not_exist_passes e laws pro s free,
          async_get_path_value_passes e laws pro m s free free',
          async_get_not_exist_passes e laws pro m s free',
        ),
        watch_tests_pass e laws pro m s free'' childless,
      )
