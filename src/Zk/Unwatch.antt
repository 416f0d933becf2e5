-- ===== src/Zk/Unwatch.antt =====
-- `remove_watches` and `async_remove_watches` of cppzk.hpp: which paths the client is asked to
-- unwatch. The client is a function from the calls made so far to the code of the last one.
pub mod Requests
use mathlib.Core.List.{append_assoc, append_cancel_left}
use config_monitor.Base.{
  ℕ, suc, ◌+◌, ◌≡◌, ◌≢◌, refl, ap, ◌∙◌, inl, inr, false, Option, none, some, List, [], ◌∷◌, ◌++◌,
  map, arith, Text, eqb, All, All-append, Bool-cases, if◌then◌else◌,
}
use config_monitor.Zk.Types.{Rc, zok, failed, ErrorCode, make_ec, has_error}
use config_monitor.Zk.SplitPath.Names.{count-append}
use config_monitor.Zk.SplitPath.{slash, count}
use config_monitor.Zk.Client.{Zoo, or_nil}
use config_monitor.Zk.Delete.Paths.{not-below_self}
use config_monitor.Zk.Delete.{child_path, get_sub_path}

-- `ZWATCHTYPE_CHILD`, `ZWATCHTYPE_DATA` and `ZWATCHTYPE_ANY`.
pub data WatcherType : Type 0 where
  child_watch data_watch any_watch : WatcherType

abbrev pub UnwatchCall : Type 0
UnwatchCall = Text × WatcherType

abbrev pub Log : Type 0
Log = List UnwatchCall

count-slash : (p : Text) → count (slash ∷ p) ≡ suc (count p)
unfolding count
count-slash p = refl

-- A path with the same path put in front of it again is no child of that path.
child_path_twice :
    (path m n : Text) → count n ≡ 0 → child_path path (child_path path m) ≢ child_path path n
child_path_twice path m n free e =
    let inner : slash ∷ child_path path m ≡ slash ∷ n = append_cancel_left path _ _ e in
    let same : child_path path m ≡ n = cc in
    omega (arith, ap count same, count-append path (slash ∷ m), count-slash m, free)

-- The type in the request for the front of `subs`: the prefix stands last.
abbrev pub type_of : List Text → WatcherType
type_of (p ∷ q ∷ rest) = data_watch
type_of _ = any_watch

module _ (reply : Log → Rc) where
  -- The loop over `sub_paths`; each entry has `path` and a slash put in front of it.
  unfoldable pub unwatch_loop : Text → Log → List Text → Log × Option Rc
  unwatch_loop path log [] = (log, none)
  unwatch_loop path log (sub ∷ rest) =
      let log' = log ++ ((child_path path sub, data_watch) ∷ []) in
      let more = unwatch_loop path log' rest in
      if failed (reply log') then (log', some (reply log')) else more

  -- The last call of the branch for sub-paths.
  abbrev unwatch_end : Text → Log × Option Rc → Log × ErrorCode
  unwatch_end path (log, some rc) = (log, make_ec rc)
  unwatch_end path (log, none) =
      let log' = log ++ ((path, child_watch) ∷ []) in (log', make_ec (reply log'))

  unfoldable pub remove_watches : (z : Zoo) → z.Server → Text → ℕ → Log × ErrorCode
  unfolding unwatch_loop get_sub_path has_error make_ec
  remove_watches z s path watch_type =
      let (ec, sub_paths) = get_sub_path z s path in
      let log : Log = (path, data_watch) ∷ [] in
      if eqb watch_type 0
      then (log, make_ec (reply log))
      else if has_error ec
      then ([], ec)
      else unwatch_end path (unwatch_loop path [] sub_paths)

  -- The chain of completions: the request for the front of `subs` is out. The code is read behind
  -- the last one alone.
  unfoldable pub unwatch_chain : Log → List Text → Log × ErrorCode
  unfolding make_ec
  unwatch_chain log [] = (log, make_ec (reply log))
  unwatch_chain log (p ∷ []) =
      let log' = log ++ ((p, type_of (p ∷ [])) ∷ []) in (log', make_ec (reply log'))
  unwatch_chain log (p ∷ q ∷ rest) =
      unwatch_chain (log ++ ((p, type_of (p ∷ q ∷ rest)) ∷ [])) (q ∷ rest)

  -- What `async_remove_watches` asks for and calls back with, when the client accepts each
  -- request. The listing, a request of its own, has completed with `rc` and `strings`.
  unfoldable pub async_remove_watches : Rc → Option (List Text) → Text → ℕ → Log × ErrorCode
  unfolding unwatch_chain make_ec
  async_remove_watches rc strings path watch_type =
      let log : Log = (path, data_watch) ∷ [] in
      if eqb watch_type 0
      then (log, make_ec (reply log))
      else if failed rc
      then ([], make_ec rc)
      else unwatch_chain [] (map (child_path path) (or_nil strings) ++ (path ∷ []))

  unfoldable pub data_calls : Text → List Text → Log
  data_calls path = map (λ n. (child_path path n, data_watch))

  unwatch_chain-data_calls :
      (path : Text) (names : List Text) (log : Log)
      → (let all = log ++ (data_calls path names ++ ((path, any_watch) ∷ [])) in
          unwatch_chain log (map (child_path path) names ++ (path ∷ []))
          ≡ (all, make_ec (reply all)))
  unfolding unwatch_chain data_calls
  unwatch_chain-data_calls path [] log = refl
  unwatch_chain-data_calls path (n ∷ []) log =
      ap (λ (l : Log). (l, make_ec (reply l)))
        (append_assoc log ((child_path path n, data_watch) ∷ []) ((path, any_watch) ∷ []))
  unwatch_chain-data_calls path (n ∷ m ∷ names) log =
      unwatch_chain-data_calls path (m ∷ names) (log ++ ((child_path path n, data_watch) ∷ []))
      ∙ ap (λ (l : Log). (l, make_ec (reply l)))
          (append_assoc log ((child_path path n, data_watch) ∷ [])
            (data_calls path (m ∷ names) ++ ((path, any_watch) ∷ [])))

  -- When the listing completes with `ZOK`, removing the watch of sub-paths ends with one call
  -- for each child, by its full path, and one for the path itself, whatever their codes are;
  -- the callback has the code of the last.
  pub async_remove_watches-calls :
      (strings : Option (List Text)) (path : Text) (watch_type : ℕ)
      → watch_type ≢ 0
      → (let all = data_calls path (or_nil strings) ++ ((path, any_watch) ∷ []) in
          async_remove_watches zok strings path watch_type ≡ (all, make_ec (reply all)))
  unfolding async_remove_watches
  async_remove_watches-calls strings path watch_type h =
      let sub_paths : eqb watch_type 0 ≡ false = ground arith in
      rw sub_paths (unwatch_chain-data_calls path (or_nil strings) [])

  Misses : Text → Text → Log → Type 0
  Misses path n = All (λ call. call.0 ≢ child_path path n)

  unwatch_loop-Misses :
      (path n : Text) (names : List Text) (log : Log)
      → count n ≡ 0
      → Misses path n log
      → Misses path n (unwatch_loop path log (map (child_path path) names)).0
  unfolding unwatch_loop Misses
  unwatch_loop-Misses path n [] log free h = h
  unwatch_loop-Misses path n (m ∷ names) log free h = elim (Bool-cases (failed (reply log'))) [
    | inl bad ↦ rw bad all
    | inr good ↦ rw good (unwatch_loop-Misses path n names log' free all)
  ]
    where
      log' : Log
      log' = log ++ ((child_path path (child_path path m), data_watch) ∷ [])

      all : All (λ call. call.0 ≢ child_path path n) log'
      all =
          All-append (λ (call : UnwatchCall). call.0 ≢ child_path path n) log
            ((child_path path (child_path path m), data_watch) ∷ []) h
            (child_path_twice path m n free, tt)

  unwatch_end-Misses :
      (path n : Text) (r : Log × Option Rc)
      → Misses path n r.0
      → Misses path n (unwatch_end path r).0
  unfolding Misses
  unwatch_end-Misses path n (log, some rc) h = h
  unwatch_end-Misses path n (log, none) h =
      All-append (λ (call : UnwatchCall). call.0 ≢ child_path path n) log ((path, child_watch) ∷ [])
        h (not-below_self path n, tt)

  -- For the watch type of sub-paths the synchronous form never asks for a child of the path, by
  -- a name without a slash: the listing gives full paths, and the loop puts the path in front
  -- of them once more.
  pub remove_watches_misses :
      (z : Zoo) (s : z.Server) (path : Text) (watch_type : ℕ) (n : Text)
      → watch_type ≢ 0
      → count n ≡ 0
      → All (λ call. call.0 ≢ child_path path n) (remove_watches z s path watch_type).0
  unfolding remove_watches Misses
  remove_watches_misses z s path watch_type n h free =
      elim (Bool-cases (failed (z.get_children s path).0)) [
        | inl bad ↦ rw (sub_paths, bad, bad) tt
        | inr good ↦
            rw (sub_paths, good, good)
              (unwatch_end-Misses path n
                (unwatch_loop path [] (map (child_path path) (z.get_children s path).1))
                (unwatch_loop-Misses path n (z.get_children s path).1 [] free tt))
      ]
    where
      sub_paths : eqb watch_type 0 ≡ false
      sub_paths = ground arith
