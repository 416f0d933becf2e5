-- ===== src/Zk/Tests/Deletion.antt =====
-- `delete_path` and `remove_watches` on the server of two nodes.
use native.Mathlib.Decide.{ℕ_discrete}
use mathlib.Core.Option
use config_monitor.Base.{
  none, ◌≡◌, ◌≢◌, refl, true, false, not, ◌&&◌, ◌||◌, Option, some, List, [], ◌∷◌, ◌++◌, arith,
  Text, text, text_eq, ◌==◌, contains, All,
}
use config_monitor.Zk.Types.{Rc, zok, other, no_error, make_ec}
use config_monitor.Zk.SplitPath.{count}
use config_monitor.Zk.Unwatch.Requests.{request_unwatch, request_unwatch-calls}
use config_monitor.Zk.Delete.{
  answered, child_path, recursive_get_sub_path, delete_path, async_delete_path,
}
use config_monitor.Zk.Delete.Listing.{
  Forest, bare, child, postorder, recursive_get_sub_path-postorder,
}
use config_monitor.Zk.Delete.Equivalence.{answer, async_delete_path-delete_path}
use config_monitor.Zk.Delete.Removal.{delete_path-removes}
use config_monitor.Zk.Unwatch.{Log, data_watch, any_watch, remove_watches, remove_watches_misses}
use config_monitor.Zk.Tests.Shelf.{
  outer, inner, Nodes2, on_shelf, shelf, shelf-DeleteLaws, shelf-NodeLaws,
}

abbrev below_outer : Forest
below_outer = child (text "b") bare bare

abbrev full : Nodes2
full = (true, true)

outer_listed : (shelf false).get_children full outer ≡ (zok, text "b" ∷ [])
unfolding text_eq ℕ_discrete
outer_listed = refl

inner_listed : (shelf false).get_children full inner ≡ (zok, [])
unfolding text_eq ℕ_discrete
inner_listed = refl

bare_b : count (text "b") ≡ 0
unfolding count
bare_b = refl

recursive_get_sub_path-postorder_example :
    recursive_get_sub_path (shelf false) 2 full outer []
    ≡ some (no_error, [] ++ postorder outer below_outer)
recursive_get_sub_path-postorder_example =
    recursive_get_sub_path-postorder (shelf false) full 2 outer below_outer [] outer_listed
      (inner_listed, tt, tt) (omega arith)

async_delete_path-delete_path_example :
    async_delete_path (shelf false) 2 full outer
    ≡ Option.map
        (answer (shelf false) (shelf-DeleteLaws false))
        (delete_path (shelf false) 3 full outer)
async_delete_path-delete_path_example =
    async_delete_path-delete_path (shelf false) (shelf-DeleteLaws false) 2 full outer

outer_there : on_shelf full outer ≡ true
unfolding text_eq ℕ_discrete
outer_there = refl

delete_path-removes_example :
    (s' : Nodes2) × (delete_path (shelf false) 2 full outer ≡ some (s', no_error))
    × ((q : Text)
        → on_shelf s' q
          ≡ (on_shelf full q && not (contains (postorder outer below_outer) q || q == outer)))
unfolding shelf-NodeLaws
delete_path-removes_example =
    delete_path-removes (shelf false) (shelf-NodeLaws false) full 2 outer below_outer outer_there
      (bare_b, refl, tt, tt) outer_listed (inner_listed, tt, tt) (omega arith)

abbrev two_children : Option (List Text)
two_children = some (text "b" ∷ text "c" ∷ [])

abbrev pub no_watcher : Log → Rc
no_watcher log = other 121

remove_watches_misses_example :
    All
      (λ call. call.0 ≢ child_path outer (text "b"))
      (remove_watches no_watcher (shelf false) full outer 1).0
remove_watches_misses_example =
    remove_watches_misses no_watcher (shelf false) full outer 1 (text "b") (λ e. cc) bare_b

-- The chain of requests when the client accepts each.
request_unwatch-calls_example :
    (let one : Log = (outer, data_watch) ∷ [] in
      request_unwatch (λ log. zok) no_watcher none outer 0
      ≡ (one, answered (make_ec (no_watcher one))))
    × (let all : Log =
          (child_path outer (text "b"), data_watch)
          ∷ (child_path outer (text "c"), data_watch)
          ∷ (outer, any_watch)
          ∷ [] in
        request_unwatch (λ log. zok) no_watcher (some (zok, two_children)) outer 1
        ≡ (all, answered (make_ec (no_watcher all))))
request_unwatch-calls_example =
    request_unwatch-calls (λ log. zok) no_watcher none two_children outer 1 (λ log. refl) (λ e. cc)
