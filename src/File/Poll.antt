-- ===== src/File/Poll.antt =====
-- `handle_monitor_exist`, `handle_monitor_get` and `handle_monitor_sub`: one look at every watched
-- path. The loops go over a copy of the map that the caller made; `monitor[path]` on a missing key is
-- an empty function, and calling it throws. Each call is noted with the path that it is about.
pub mod Notices
pub mod Watch
pub mod Exist
pub mod Values
pub mod Listings
use config_monitor.Base.{
  ℕ, Bool, true, false, Option, none, some, List, [], ◌∷◌, ◌++◌, Text, text_eq, nat_eq, ◌==◌, eqb,
  if◌then◌else◌, Outcome, returns, throws, ◌>>=◌, bad_function_call, filesystem_error, Eq,
}
use config_monitor.Base.Dict
use config_monitor.Base.Dict.{Dict}
use config_monitor.File.Types.{
  FileError, ok, not_exist, FileEvent, created_event, deleted_event, child_event,
}
use config_monitor.File.Disk.{Disk, get_file_value, file_modify_time, get_path_children}
use config_monitor.File.State.{
  LocFile, Callback, Call, existed, got, children, remove_monitor_get_path,
  update_last_existed_status, update_last_changed_time, updata_path_children,
}

abbrev pub Notice : Type 0
Notice = Text × Call

abbrev pub Polled : Type 0
Polled = Outcome (LocFile × List Notice)

-- `monitor[path](...)`, and the rest of the loop.
abbrev pub notify : Dict Text Callback → Text → (Callback → Call) → Polled → Polled
notify monitor path call rest = elim (Dict.lookup path monitor) [
  | none ↦ throws bad_function_call
  | some cb ↦ rest >>= λ (s, calls). returns (s, (path, call cb) ∷ calls)
]

abbrev pub same_bool : Bool → Bool → Bool
same_bool true b = b
same_bool false true = false
same_bool false false = true

-- The lists compare as sequences.
abbrev pub same_texts : List Text → List Text → Bool
same_texts [] [] = true
same_texts [] (y ∷ ys) = false
same_texts (x ∷ xs) [] = false
same_texts (x ∷ xs) (y ∷ ys) = if x == y then same_texts xs ys else false

-- The arguments of the call when the status turned from `last` to its opposite.
abbrev pub turned : Bool → Callback → Call
turned true cb = existed cb not_exist deleted_event
turned false cb = existed cb ok created_event

module _ (d : Disk) (fs : d.Fs) where
  unfoldable pub handle_monitor_exist : Dict Text Bool → Dict Text Callback → LocFile → Polled
  unfolding update_last_existed_status
  handle_monitor_exist [] monitor s = returns (s, [])
  handle_monitor_exist ((path, last) ∷ rest) monitor s =
      let same = handle_monitor_exist rest monitor s in
      elim (d.exists fs path) [
        | none ↦ throws filesystem_error
        | some now ↦
            let changed =
              handle_monitor_exist rest monitor (update_last_existed_status path now s) in
            if same_bool last now then same else notify monitor path (turned last) changed
      ]

  unfoldable pub handle_monitor_get : Dict Text ℕ → Dict Text Callback → LocFile → Polled
  unfolding file_modify_time get_file_value remove_monitor_get_path update_last_changed_time
  handle_monitor_get [] monitor s = returns (s, [])
  handle_monitor_get ((path, last) ∷ rest) monitor s =
      let now = (file_modify_time d fs path).1 in
      let same = handle_monitor_get rest monitor s in
      let gone = handle_monitor_get rest monitor (remove_monitor_get_path path s) in
      let changed = handle_monitor_get rest monitor (update_last_changed_time path now s) in
      if eqb last now
      then same
      else get_file_value d fs path >>= λ (err, value). elim err [
        | ok ↦ notify monitor path (λ cb. got cb ok (some value)) changed
        | _ ↦ notify monitor path (λ cb. got cb not_exist none) gone
      ]

  unfoldable pub handle_monitor_sub : Dict Text (List Text) → Dict Text Callback → LocFile → Polled
  unfolding get_path_children updata_path_children
  handle_monitor_sub [] monitor s = returns (s, [])
  handle_monitor_sub ((path, last) ∷ rest) monitor s =
      let same = handle_monitor_sub rest monitor s in
      get_path_children d fs path >>= λ now.
      let changed = handle_monitor_sub rest monitor (updata_path_children path now s) in
      if same_texts last now
      then same
      else notify monitor path (λ cb. children cb ok child_event now) changed
