-- ===== src/Zk/Types.antt =====
-- cppzk_redeclare.h: the enumerations and error codes that the wrapper shares with the C client,
-- and the predicates on them at the end of cppzk.hpp.
use config_monitor.Base.{ℕ, zero, suc, Bool, true, false, Option, none, some}

-- A C++ `int` where the wrapper keeps -1, and `int64_t ttl`. `negsuc n` is -(n + 1).
pub data ℤ : Type 0 where
  pos : ℕ → ℤ
  negsuc : ℕ → ℤ

abbrev pub is_negative : ℤ → Bool
is_negative (pos n) = false
is_negative (negsuc n) = true

-- What a call of the C client returns: the codes that the wrapper tests, and the others by number.
pub data Rc : Type 0 where
  zok znonode znodeexists : Rc
  other : ℕ → Rc

-- `std::error_category`: that of a default `std::error_code`, and that of `zk::category()`.
pub data Category : Type 0 where
  system zk_category : Category

pub record ErrorCode : Type 0 where
  pub value : Rc
  pub category : Category

-- `std::error_code{}`
abbrev pub no_error : ErrorCode
no_error = record { value = zok; category = system }

pub data ZkEvent : Type 0 where
  zk_dummy_event zk_created_event zk_deleted_event zk_changed_event zk_child_event : ZkEvent
  zk_session_event zk_notwatching_event : ZkEvent

pub data ZkAcl : Type 0 where
  zk_open_acl_unsafe zk_read_acl_unsafe zk_creator_all_acl : ZkAcl

pub data ZkCreateMode : Type 0 where
  zk_persistent zk_ephemeral zk_persistent_sequential zk_ephemeral_sequential : ZkCreateMode
  zk_container zk_persistent_with_ttl zk_persistent_sequential_with_ttl : ZkCreateMode

-- `(int)mode`
abbrev pub mode_number : ZkCreateMode → ℕ
mode_number zk_persistent = 0
mode_number zk_ephemeral = 1
mode_number zk_persistent_sequential = 2
mode_number zk_ephemeral_sequential = 3
mode_number zk_container = 4
mode_number zk_persistent_with_ttl = 5
mode_number zk_persistent_sequential_with_ttl = 6

unfoldable pub make_ec : Rc → ErrorCode
make_ec err = record { value = err; category = zk_category }

-- `explicit operator bool` of `std::error_code`.
abbrev pub failed : Rc → Bool
failed zok = false
failed znonode = true
failed znodeexists = true
failed (other n) = true

unfoldable pub has_error : ErrorCode → Bool
has_error ec = failed ec.value

unfoldable pub is_no_node : ErrorCode → Bool
is_no_node ec = elim ec.value [ znonode ↦ true | _ ↦ false ]

unfoldable pub is_node_exist : ErrorCode → Bool
is_node_exist ec = elim ec.value [ znodeexists ↦ true | _ ↦ false ]

-- `(rc != ZOK) && (rc != ZNODEEXISTS)`, of both ways to create a path.
abbrev pub create_error : Rc → Bool
create_error zok = false
create_error znodeexists = false
create_error znonode = true
create_error (other n) = true

unfoldable pub is_dummy_event : ZkEvent → Bool
is_dummy_event zk_dummy_event = true
is_dummy_event _ = false

unfoldable pub is_create_event : ZkEvent → Bool
is_create_event zk_created_event = true
is_create_event _ = false

unfoldable pub is_delete_event : ZkEvent → Bool
is_delete_event zk_deleted_event = true
is_delete_event _ = false

unfoldable pub is_changed_event : ZkEvent → Bool
is_changed_event zk_changed_event = true
is_changed_event _ = false

unfoldable pub is_session_event : ZkEvent → Bool
is_session_event zk_session_event = true
is_session_event _ = false

unfoldable pub is_notwatching_event : ZkEvent → Bool
is_notwatching_event zk_notwatching_event = true
is_notwatching_event _ = false

-- The static cast of `get_create_mode`; a number that names no mode gives none.
unfoldable pub get_create_mode : ℕ → Option ZkCreateMode
get_create_mode zero = some zk_persistent
get_create_mode (suc zero) = some zk_ephemeral
get_create_mode (suc (suc zero)) = some zk_persistent_sequential
get_create_mode (suc (suc (suc zero))) = some zk_ephemeral_sequential
get_create_mode (suc (suc (suc (suc zero)))) = some zk_container
get_create_mode (suc (suc (suc (suc (suc zero))))) = some zk_persistent_with_ttl
get_create_mode (suc (suc (suc (suc (suc (suc zero)))))) = some zk_persistent_sequential_with_ttl
get_create_mode (suc (suc (suc (suc (suc (suc (suc n))))))) = none

-- `enable_ttl`, of both ways to create a path.
unfoldable pub enable_ttl : ZkCreateMode → Bool
enable_ttl zk_persistent_with_ttl = true
enable_ttl zk_persistent_sequential_with_ttl = true
enable_ttl _ = false
