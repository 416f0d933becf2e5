-- ===== src/Zk/Delete.antt =====
-- `get_sub_path`, `recursive_get_sub_path`, `delete_path` and their asynchronous forms, of
-- cppzk.hpp. The walk over the server's tree takes fuel, one unit for each level.
pub mod Listing
pub mod Equivalence
pub mod Nodes
pub mod Paths
pub mod Removal
use config_monitor.Base.{
  ℕ, zero, suc, ◌≡◌, Bool, true, false, Option, none, some, List, [], ◌∷◌, ◌++◌, map, Text, length,
  pop_front, if◌then◌else◌,
}
use config_monitor.Zk.Types.{Rc, zok, failed, ErrorCode, no_error, make_ec, has_error, zk_category}
use config_monitor.Zk.SplitPath.{slash}
use config_monitor.Zk.Client.{Zoo, or_nil}

-- `path + "/" + name`
abbrev pub child_path : Text → Text → Text
child_path path name = path ++ (slash ∷ name)

-- `subs[0]`; an empty deque cannot be.
abbrev pub front : List Text → Text
front [] = []
front (p ∷ rest) = p

-- A walk: none when the fuel is out, else the error code and the deque `subs`.
abbrev pub Walk : Type 0
Walk = Option (ErrorCode × List Text)

-- The loop over the children, with the recursive call as an argument.
unfoldable pub walk_children : (Text → List Text → Walk) → List Text → List Text → Walk
unfolding has_error
walk_children visit [] subs = some (no_error, subs)
walk_children visit (sub ∷ rest) subs = elim (visit sub subs) [
  | none ↦ none
  | some (rec, subs') ↦
      let more = walk_children visit rest (subs' ++ (sub ∷ [])) in
      if has_error rec then some (rec, subs') else more
]

module _ (z : Zoo) where
  -- A completed request; `data` is read only if the code is `ZOK`.
  unfoldable pub get_sub_path : z.Server → Text → ErrorCode × List Text
  unfolding make_ec
  get_sub_path s path =
      let (rc, strings) = z.get_children s path in
      if failed rc then (make_ec rc, []) else (make_ec rc, map (child_path path) strings)

  unfoldable pub recursive_get_sub_path : ℕ → z.Server → Text → List Text → Walk
  unfolding get_sub_path walk_children has_error
  recursive_get_sub_path zero s path subs = none
  recursive_get_sub_path (suc fuel) s path subs =
      let (ec, sub_paths) = get_sub_path s path in
      let walked = walk_children (recursive_get_sub_path fuel s) sub_paths subs in
      if has_error ec then some (ec, subs) else walked

  -- The loop of `delete_path`.
  unfoldable pub delete_all : z.Server → List Text → z.Server × ErrorCode
  unfolding make_ec
  delete_all s [] = (s, no_error)
  delete_all s (sub ∷ rest) =
      let (s', rc) = z.delete s sub in
      let more = delete_all s' rest in if failed rc then (s', make_ec rc) else more

  unfoldable pub delete_path : ℕ → z.Server → Text → Option (z.Server × ErrorCode)
  unfolding delete_all
  delete_path fuel s path = elim (recursive_get_sub_path fuel s path []) [
    | none ↦ none
    | some (ec, subs) ↦
        if has_error ec then some (s, ec) else some (delete_all s (subs ++ (path ∷ [])))
  ]

  -- `async_recursive_get_sub_path`: what its completion calls the callback with. On an error the
  -- second argument is empty.
  unfoldable pub listed : ℕ → z.Server → Text → Rc → Option (List Text) → Walk
  unfolding recursive_get_sub_path make_ec
  listed fuel s prefix_path rc strings =
      if failed rc
      then some (make_ec rc, [])
      else elim (walk_children (recursive_get_sub_path fuel s)
          (map (child_path prefix_path) (or_nil strings)) []) [
            | none ↦ none
            | some (ec, subs) ↦ if has_error ec then some (ec, []) else some (make_ec rc, subs)
          ]

-- What the completion of `async_delete_path` does: it ends with a code, or goes on with `subs`.
pub data DeleteReaction : Type 0 where
  finished : ErrorCode → DeleteReaction
  deletes : List Text → DeleteReaction

-- `if (rc || ud->subs.empty())`, behind `pop_front`; `rc` is `ZOK` here.
abbrev continue : List Text → Rc → DeleteReaction
continue [] rc = finished (record { value = rc; category = zk_category })
continue (p ∷ rest) rc = deletes (p ∷ rest)

unfoldable pub delete_completion : List Text → Rc → DeleteReaction
unfolding make_ec
delete_completion subs rc =
    if failed rc then finished (make_ec rc) else continue (pop_front subs) rc

-- The callback of an asynchronous operation is called with a code, or is never called: the code
-- that an asynchronous call returns is dropped.
pub data Answer : Type 0 where
  answered : ErrorCode → Answer
  unanswered : Answer

module _ (z : Zoo) where
  -- The chain of deletions, each request served in turn, on fuel.
  unfoldable pub delete_chain : ℕ → z.Server → List Text → Option (z.Server × Answer)
  unfolding delete_completion
  delete_chain zero s subs = none
  delete_chain (suc fuel) s subs = elim (failed (z.submit_delete s (front subs))) [
    | true ↦ some (s, unanswered)
    | false ↦
        let (s', rc) = z.complete_delete s (front subs) in
        elim (delete_completion subs rc) [
          | finished ec ↦ some (s', answered ec)
          | deletes rest ↦ delete_chain fuel s' rest
        ]
  ]

  -- The callback that `async_delete_path` hands to the listing.
  unfoldable pub delete_listed :
      z.Server → Text → ErrorCode → List Text → Option (z.Server × Answer)
  unfolding delete_chain has_error
  delete_listed s prefix ec subs =
      if has_error ec
      then some (s, answered ec)
      else delete_chain (suc (length subs)) s (subs ++ (prefix ∷ []))

  unfoldable pub async_delete_path : ℕ → z.Server → Text → Option (z.Server × Answer)
  unfolding listed delete_listed
  async_delete_path fuel s path = elim (failed (z.submit_children s path)) [
    | true ↦ some (s, unanswered)
    | false ↦
        let (rc, strings) = z.complete_children s path in
        elim (listed z fuel s path rc strings) [
          | none ↦ none
          | some (ec, subs) ↦ delete_listed s path ec subs
        ]
  ]
