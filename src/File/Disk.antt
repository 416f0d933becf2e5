-- ===== src/File/Disk.antt =====
-- The calls of the C and C++ libraries on the file system, over an unknown state, and what
-- local_file.hpp makes of them: `get_file_value`, `set_file_value`, `file_modify_time` and
-- `get_path_children`. A call without an error code throws `filesystem_error`: there it is none.
use config_monitor.Base.{
  ℕ, ◌≡◌, ◌⊎◌, inl, inr, refl, Bool, true, false, Option, none, some, List, [], ◌∷◌, Text, length,
  if◌then◌else◌, Outcome, returns, throws, ◌>>=◌, filesystem_error, Bool-cases, Option-cases,
}
use config_monitor.File.Types.{FileError, ok, not_exist}

pub record Disk : Type 1 where
  pub Fs : Type 0
  -- `std::filesystem::exists`; none if it throws.
  pub exists : Fs → Text → Option Bool
  -- `fopen(path, "rb")`: whether it opens.
  pub open_read : Fs → Text → Bool
  -- `file_size`; none if it throws, as for a directory.
  pub file_size : Fs → Text → Option ℕ
  -- `fread` into a string of so many zero bytes: the string afterwards.
  pub fread : Fs → Text → ℕ → Text
  -- `fopen(path, "wb+")`: the disk with the file emptied, or none if it does not open.
  pub open_write : Fs → Text → Option Fs
  -- `fwrite` and `fclose` on the file just opened, and whether they report no error.
  pub fwrite : Fs → Text → Text → Fs × Bool
  -- `last_write_time` in nanoseconds, or none on an error.
  pub last_write_time : Fs → Text → Option ℕ
  -- `directory_iterator`: none on an error when it is made; then each step gives a file name with
  -- `is_regular_file`, or none if the step or the test throws.
  pub entries : Fs → Text → Option (List (Option (Text × Bool)))
  -- `remove_all`, and whether it reports an error.
  pub remove_all : Fs → Text → Fs × Bool
  -- `create_directories`; none if it throws, as for an empty path.
  pub create_directories : Fs → Text → Option Fs
  pub parent_path : Text → Text

-- What the libraries say of a write: an opened file exists, and if neither `fwrite` nor `fclose`
-- reports an error, the file has these bytes.
pub record WriteLaws (d : Disk) : Type 0 where
  pub exists-write :
      (fs fs' : d.Fs) (p v : Text)
      → d.open_write fs p ≡ some fs'
      → d.exists (d.fwrite fs' p v).0 p ≡ some true
  pub size-write :
      (fs fs' : d.Fs) (p v : Text)
      → d.open_write fs p ≡ some fs'
      → (d.fwrite fs' p v).1 ≡ true
      → d.file_size (d.fwrite fs' p v).0 p ≡ some (length v)
  pub bytes-write :
      (fs fs' : d.Fs) (p v : Text)
      → d.open_write fs p ≡ some fs'
      → (d.fwrite fs' p v).1 ≡ true
      → d.fread (d.fwrite fs' p v).0 p (length v) ≡ v

-- What they say of a removal without an error: nothing is left at the path.
pub record RemoveLaws (d : Disk) : Type 0 where
  pub exists-remove_all :
      (fs : d.Fs) (p : Text)
      → (d.remove_all fs p).1 ≡ false
      → d.exists (d.remove_all fs p).0 p ≡ some false

-- A file that does not open, and the bytes of one that does.
abbrev pub file_result : Option Text → FileError × Text
file_result none = (not_exist, [])
file_result (some value) = (ok, value)

module _ (d : Disk) where
  unfoldable pub get_file_value : d.Fs → Text → Outcome (FileError × Text)
  get_file_value fs path =
      if d.open_read fs path
      then elim (d.file_size fs path) [
        | none ↦ throws filesystem_error
        | some size ↦ returns (ok, d.fread fs path size)
      ]
      else returns (not_exist, [])

  -- What `fwrite` and `fclose` report is not looked at.
  unfoldable pub set_file_value : d.Fs → Text → Text → d.Fs × FileError
  set_file_value fs path value = elim (d.open_write fs path) [
    | none ↦ (fs, not_exist)
    | some fs' ↦ ((d.fwrite fs' path value).0, ok)
  ]

  unfoldable pub file_modify_time : d.Fs → Text → FileError × ℕ
  file_modify_time fs path = elim (d.last_write_time fs path) [
    | none ↦ (not_exist, 0)
    | some timestamp ↦ (ok, timestamp)
  ]

  unfoldable regular : List (Option (Text × Bool)) → Outcome (List Text)
  regular [] = returns []
  regular (none ∷ rest) = throws filesystem_error
  regular (some (name, is_regular) ∷ rest) =
      regular rest >>= λ more. returns (if is_regular then name ∷ more else more)

  unfoldable pub get_path_children : d.Fs → Text → Outcome (List Text)
  unfolding regular
  get_path_children fs path = elim (d.entries fs path) [
    | none ↦ returns []
    | some dirs ↦ regular dirs
  ]

  pub get_file_value-cases :
      (fs : d.Fs) (p : Text)
      → (get_file_value fs p ≡ throws filesystem_error)
        ⊎ ((v : Option Text) × (get_file_value fs p ≡ returns (file_result v)))
  unfolding get_file_value
  get_file_value-cases fs p = elim (Bool-cases (d.open_read fs p)) [
    | inl opens ↦ elim (Option-cases (d.file_size fs p)) [
      | inl bad ↦ inl (rw (opens, bad) refl)
      | inr (n, fine) ↦ inr (some (d.fread fs p n), rw (opens, fine) refl)
    ]
    | inr shut ↦ inr (none, rw shut refl)
  ]

  regular-cases :
      (dirs : List (Option (Text × Bool)))
      → (regular dirs ≡ throws filesystem_error) ⊎ ((l : List Text) × (regular dirs ≡ returns l))
  unfolding regular
  regular-cases [] = inr ([], refl)
  regular-cases (none ∷ rest) = inl refl
  regular-cases (some (name, is_regular) ∷ rest) = elim (regular-cases rest) [
    | inl bad ↦ inl (rw (regular, bad) refl)
    | inr (l, fine) ↦ inr (if is_regular then name ∷ l else l, rw (regular, fine) refl)
  ]

  pub get_path_children-cases :
      (fs : d.Fs) (p : Text)
      → (get_path_children fs p ≡ throws filesystem_error)
        ⊎ ((l : List Text) × (get_path_children fs p ≡ returns l))
  unfolding get_path_children
  get_path_children-cases fs p = elim (Option-cases (d.entries fs p)) [
    | inl shut ↦ inr ([], rw (shut, get_path_children) refl)
    | inr (dirs, listed) ↦ rw (listed, get_path_children) (regular-cases dirs)
  ]

  -- A disk on which no look at a path throws, with what the looks find.
  pub record IsCalm (fs : d.Fs) : Type 0 where
    pub existed : Text → Bool
    pub exists_now : (p : Text) → d.exists fs p ≡ some (existed p)
    pub value : Text → Option Text
    pub value_now : (p : Text) → get_file_value fs p ≡ returns (file_result (value p))
    pub listing : Text → List Text
    pub listing_now : (p : Text) → get_path_children fs p ≡ returns (listing p)
