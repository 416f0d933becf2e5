-- ===== src/Zk/SplitPath.antt =====
-- `split_path` of cppzk.hpp, lines 671 to 718: the run-time version and the template.
pub mod Ancestors
pub mod Depth
pub mod Names
use config_monitor.Base.{
  ℕ, zero, suc, ◌+◌, ◌-◌, ◌≡◌, Bool, true, false, Option, none, some, List, [], ◌∷◌, ◌++◌, Text,
  length, take, pop_front, eqb, if◌then◌else◌, Outcome, returns, throws, invalid_argument,
}

abbrev pub slash : ℕ
slash = b'/'

-- `std::count(path.begin(), path.end(), '/')`
unfoldable pub count : Text → ℕ
count [] = 0
count (x ∷ xs) = if eqb x slash then suc (count xs) else count xs

-- `path.find_last_of('/')`, with `none` for `npos`.
unfoldable pub find_last_of : Text → Option ℕ
find_last_of [] = none
find_last_of (x ∷ xs) = elim (find_last_of xs) [
  | some i ↦ some (suc i)
  | none ↦ if eqb x slash then some 0 else none
]

-- The loop `while (pos != npos)`, on fuel: each round cuts the path at its last slash.
unfoldable pub split_loop : ℕ → Text → List Text → List Text
unfolding find_last_of
split_loop zero path acc = acc
split_loop (suc fuel) path acc = elim (find_last_of path) [
  | none ↦ acc
  | some p ↦ split_loop fuel (take p path) (take p path ∷ acc)
]

-- `pop_front` and `emplace_back(src_path)` follow the loop.
unfoldable pub split_path : Text → Outcome (List Text)
unfolding count split_loop
split_path path =
    if eqb (count path) 0
    then throws invalid_argument
    else if eqb (count path) 1
    then returns (path ∷ [])
    else returns (pop_front (split_loop (suc (length path)) path []) ++ (path ∷ []))

-- The loop of the template: `none` where it would write past the `room` places left in `p`.
unfoldable pub fill_loop : ℕ → ℕ → Text → Option (List Text)
unfolding find_last_of
fill_loop zero room path = some []
fill_loop (suc fuel) room path = elim (find_last_of path) [
  | none ↦ some []
  | some p ↦ elim room [
    | zero ↦ none
    | suc left ↦ elim (fill_loop fuel left (take p path)) [
      | none ↦ none
      | some rest ↦ some (take p path ∷ rest)
    ]
  ]
]

-- Places of an array of `std::string_view` that were never written hold the empty view.
abbrev pub pad : ℕ → List Text → List Text
pad zero xs = []
pad (suc n) [] = [] ∷ pad n []
pad (suc n) (x ∷ xs) = x ∷ pad n xs

-- `split_path<PathDepth>`; `none` is a write out of bounds.
unfoldable pub split_path_depth : ℕ → Text → Option (List Text)
unfolding fill_loop
split_path_depth depth path =
    if eqb depth 1 then some (path ∷ []) else elim (fill_loop (suc (length path)) depth path) [
      | none ↦ none
      | some p ↦ some (pad (depth - 1) p)
    ]
