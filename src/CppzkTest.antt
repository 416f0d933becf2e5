-- ===== src/CppzkTest.antt =====
-- unit_test/cppzk_ut.cpp: the tests of creation, writing, reading and the deletion of a missing
-- path, as runs over a server. A run is none where it waits without end; a test passes if all that
-- it expects is true.
pub mod Answers
pub mod Facts
pub mod Deletion
pub mod Passes
pub mod Watching
mod Tests
use config_monitor.Base.{
  ℕ, Bool, true, false, not, ◌&&◌, Option, none, some, List, [], ◌∷◌, ◌++◌, Text, text, text_eq,
  ◌==◌, if◌then◌else◌, Outcome, returns, throws, ◌>>=◌, bad_optional_access,
}
use config_monitor.Zk.Types.{ℤ, negsuc, ErrorCode, has_error}
use config_monitor.Zk.SplitPath.{count}
use config_monitor.Zk.Ensemble.{Ensemble, reader}
use config_monitor.Zk.Watch.{call_get, value, on_completion}
use config_monitor.Monitor.{Callback, ConfigMonitor, Notification, value_notice, on_get}
use config_monitor.Monitor.Facade.{
  CreateMode, persistent, persistent_sequential, Called, created_call, operated_call, create_path,
  async_create_path, del_path, async_del_path, set_path_value, async_set_path_value, get_path_value,
  async_get_path_value,
}

abbrev pub Run : Type 0
Run = Outcome (Option Bool)

abbrev pub passed : Run
passed = returns (some true)

abbrev pub prefix : Text
prefix = text "/test"

abbrev pub first_child : Text
first_child = text "/test/1"

abbrev pub grandchild : Text
grandchild = text "/test/1/2"

-- `ec.value() == 0`
abbrev pub is_ok : ErrorCode → Bool
is_ok ec = not (has_error ec)

-- `val.has_value() == false`, and `val == value`.
abbrev pub is_bare : Option Text → Bool
is_bare none = true
is_bare (some v) = false

abbrev pub is_value : Option Text → Text → Bool
is_value none expected = false
is_value (some v) expected = v == expected

-- `pro.get_future().get()` on a promise that a callback sets: the arguments of its one call.
abbrev pub awaited : List Called → Option (ErrorCode × Text)
awaited (created_call cb ec new_path ∷ []) = some (ec, new_path)
awaited _ = none

abbrev pub awaited_code : List Called → Option ErrorCode
awaited_code (operated_call cb ec ∷ []) = some ec
awaited_code _ = none

abbrev pub told_value : List Notification → Option (ErrorCode × Option Text)
told_value (value_notice cb ec val ∷ []) = some (ec, val)
told_value _ = none

-- `val.value() == value`
abbrev pub has_value : Option Text → Text → Outcome Bool
has_value none expected = throws bad_optional_access
has_value (some v) expected = returns (v == expected)

module _ (e : Ensemble) where
  abbrev read : e.zoo.Server → Text → Outcome (ErrorCode × Option Text)
  read s path = get_path_value (reader e) s s path

  -- The last lines of the tests of creation without a value, and of a sequence with one.
  abbrev check_bare : e.zoo.Server → ErrorCode → Text → Run
  check_bare s ec new_path = read s new_path >>= λ (gec, val).
      returns (some (is_ok ec && (new_path == prefix) && is_ok gec && is_bare val))

  abbrev check_numbered : e.zoo.Server → ErrorCode → Text → Text → Run
  check_numbered s ec new_path expected = read s new_path >>= λ (gec, val).
      returns
        (some (is_ok ec && not (new_path == first_child) && is_ok gec && is_value val expected))

  unfoldable pub test_create_path : e.zoo.Server → Run
  test_create_path s =
      create_path e.zoo s prefix none persistent (negsuc 0) >>= λ (s', ec, new_path).
      check_bare s' ec new_path

  unfoldable pub test_create_persistent_sequential_path_with_value : e.zoo.Server → Run
  test_create_persistent_sequential_path_with_value s =
      create_path e.zoo s first_child (some (text "123456")) persistent_sequential (negsuc 0)
      >>= λ (s', ec, new_path). check_numbered s' ec new_path (text "123456")

  unfoldable pub test_create_exist_path : e.zoo.Server → Run
  test_create_exist_path s =
      create_path e.zoo s grandchild none persistent (negsuc 0) >>= λ (s', _, _).
      create_path e.zoo s' grandchild none persistent (negsuc 0) >>= λ (s'', ec, new_path).
      returns (some (not (is_ok ec) && (new_path == [])))

  unfoldable pub test_async_create_path : Callback → e.zoo.Server → Run
  test_async_create_path pro s =
      async_create_path e.zoo (count prefix) s prefix (some pro) none persistent (negsuc 0)
      >>= λ run. elim run [
        | none ↦ returns none
        | some (s', calls) ↦ elim (awaited calls) [
          | none ↦ returns none
          | some (ec, new_path) ↦ check_bare s' ec new_path
        ]
      ]

  unfoldable pub test_async_create_exist_path : Callback → e.zoo.Server → Run
  test_async_create_exist_path pro s =
      create_path e.zoo s grandchild none persistent (negsuc 0) >>= λ (s', _, _).
      async_create_path e.zoo (count grandchild) s' grandchild (some pro) none persistent (negsuc 0)
      >>= λ run. elim run [
        | none ↦ returns none
        | some (s'', calls) ↦ elim (awaited calls) [
          | none ↦ returns none
          | some (ec, new_path) ↦ returns (some (not (is_ok ec) && (new_path == [])))
        ]
      ]

  unfoldable pub test_async_create_persistent_sequential_path_with_value :
      Callback → e.zoo.Server → Run
  test_async_create_persistent_sequential_path_with_value pro s =
      async_create_path e.zoo (count first_child) s first_child (some pro) (some (text "123456"))
        persistent_sequential (negsuc 0)
      >>= λ run. elim run [
        | none ↦ returns none
        | some (s', calls) ↦ elim (awaited calls) [
          | none ↦ returns none
          | some (ec, new_path) ↦ check_numbered s' ec new_path (text "123456")
        ]
      ]

  unfoldable pub test_set_path_value : e.zoo.Server → Run
  test_set_path_value s =
      create_path e.zoo s first_child none persistent (negsuc 0) >>= λ (s', _, _).
      let (s'', ec) = set_path_value e.set s' first_child (text "123456") in
      read s'' first_child >>= λ (gec, val).
      returns (some (is_ok ec && is_ok gec && is_value val (text "123456")))

  unfoldable pub test_set_not_exist_path_value : e.zoo.Server → Run
  test_set_not_exist_path_value s =
      let (s', ec) = set_path_value e.set s first_child (text "5201314") in
      returns (some (not (is_ok ec)))

  unfoldable pub test_async_set_path_value : Callback → e.zoo.Server → Run
  test_async_set_path_value pro s =
      create_path e.zoo s first_child none persistent (negsuc 0) >>= λ (s', _, _).
      let (s'', calls) = async_set_path_value e.set s' first_child (text "5201314") (some pro) in
      elim (awaited_code calls) [
        | none ↦ returns none
        | some ec ↦ read s'' first_child >>= λ (gec, val).
            returns (some (is_ok ec && is_ok gec && is_value val (text "5201314")))
      ]

  unfoldable pub test_async_set_not_exist_path_value : Callback → e.zoo.Server → Run
  test_async_set_not_exist_path_value pro s =
      let (s', calls) = async_set_path_value e.set s first_child (text "5201314") (some pro) in
      elim (awaited_code calls) [ none ↦ returns none | some ec ↦ returns (some (not (is_ok ec))) ]

  unfoldable pub test_get_path_value : e.zoo.Server → Run
  test_get_path_value s =
      create_path e.zoo s first_child (some (text "5201314")) persistent (negsuc 0)
      >>= λ (s', _, _). read s' first_child >>= λ (ec, val).
          has_value val (text "5201314") >>= λ same. returns (some (is_ok ec && same))

  unfoldable pub test_get_not_exist_path_value : e.zoo.Server → Run
  test_get_not_exist_path_value s =
      read s first_child >>= λ (ec, val). returns (some (not (is_ok ec) && is_bare val))

  -- The path is missing, so that one level of the walk is enough.
  unfoldable pub test_del_not_exist_path : e.zoo.Server → Run
  test_del_not_exist_path s = elim (del_path e.zoo 1 s prefix) [
    | none ↦ returns none
    | some (s', ec) ↦ returns (some (not (is_ok ec)))
  ]

  unfoldable pub test_async_del_not_exist_path : Callback → e.zoo.Server → Run
  test_async_del_not_exist_path pro s = elim (async_del_path e.zoo 0 s prefix (some pro)) [
    | none ↦ returns none
    | some (s', calls) ↦ elim (awaited_code calls) [
      | none ↦ returns none
      | some ec ↦ returns (some (not (is_ok ec)))
    ]
  ]

  -- `async_get_path_value` up to the arguments of the user's callback: the completion of its one
  -- request, and the call that it makes.
  unfoldable pub got_by :
      Callback → ConfigMonitor → e.zoo.Server → Text → Option (ErrorCode × Option Text)
  got_by pro m s path =
      let r = async_get_path_value path (some pro) m in
      let (rc, val) = e.complete_get s path in
      elim (on_completion m.client.next (value rc val) r.state.client) [
        | some (c, call_get cl ec eve p v ∷ []) ↦
            told_value (on_get cl ec eve p v (record r.state { client = c })).told
        | _ ↦ none
      ]

  unfoldable pub test_async_get_path_value : Callback → ConfigMonitor → e.zoo.Server → Run
  test_async_get_path_value pro m s =
      create_path e.zoo s first_child (some (text "5201314")) persistent (negsuc 0)
      >>= λ (s', _, _). elim (got_by pro m s' first_child) [
        | none ↦ returns none
        | some (ec, val) ↦
            has_value val (text "5201314") >>= λ same. returns (some (is_ok ec && same))
      ]

  unfoldable pub test_async_get_not_exist_path_value : Callback → ConfigMonitor → e.zoo.Server → Run
  test_async_get_not_exist_path_value pro m s = elim (got_by pro m s first_child) [
    | none ↦ returns none
    | some (ec, val) ↦ returns (some (not (is_ok ec) && is_bare val))
  ]
