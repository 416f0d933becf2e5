-- ===== src/File/Types.antt =====
-- local_file_declare.hpp, and the predicates of local_file.hpp on its enumerations.
use config_monitor.Base.{ℕ, zero, suc, Bool, true, false, Option, none, some, Text, text}

pub data FileError : Type 0 where
  ok not_exist already_exist already_used : FileError

pub data FileEvent : Type 0 where
  dummy_event created_event deleted_event changed_event child_event : FileEvent

pub data FileCreateMode : Type 0 where
  persistent ephemeral persistent_sequential ephemeral_sequential : FileCreateMode
  persistent_with_ttl persistent_sequential_with_ttl : FileCreateMode

-- `file_error_category::message`; a number that names no constant takes the default, as
-- `already_used` does.
unfoldable pub message : FileError → Text
message ok = text "ok"
message not_exist = text "file not exist"
message already_exist = text "file already_exist"
message already_used = text "unrecognized error"

-- `static_cast<int>(err)`
abbrev pub error_number : FileError → ℕ
error_number ok = 0
error_number not_exist = 1
error_number already_exist = 2
error_number already_used = 3

unfoldable pub is_no_error : FileError → Bool
is_no_error ok = true
is_no_error _ = false

unfoldable pub is_no_node : FileError → Bool
is_no_node not_exist = true
is_no_node _ = false

unfoldable pub is_dummy_event : FileEvent → Bool
is_dummy_event dummy_event = true
is_dummy_event _ = false

unfoldable pub is_create_event : FileEvent → Bool
is_create_event created_event = true
is_create_event _ = false

unfoldable pub is_delete_event : FileEvent → Bool
is_delete_event deleted_event = true
is_delete_event _ = false

-- The static cast of `get_create_mode`; 4 and the numbers above 6 name no mode.
unfoldable pub get_create_mode : ℕ → Option FileCreateMode
get_create_mode zero = some persistent
get_create_mode (suc zero) = some ephemeral
get_create_mode (suc (suc zero)) = some persistent_sequential
get_create_mode (suc (suc (suc zero))) = some ephemeral_sequential
get_create_mode (suc (suc (suc (suc zero)))) = none
get_create_mode (suc (suc (suc (suc (suc zero))))) = some persistent_with_ttl
get_create_mode (suc (suc (suc (suc (suc (suc zero)))))) = some persistent_sequential_with_ttl
get_create_mode (suc (suc (suc (suc (suc (suc (suc n))))))) = none

unfoldable pub enable_ttl : FileCreateMode → Bool
enable_ttl persistent_with_ttl = true
enable_ttl persistent_sequential_with_ttl = true
enable_ttl _ = false
