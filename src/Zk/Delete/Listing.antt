-- ===== src/Zk/Delete/Listing.antt =====
-- `recursive_get_sub_path` of cppzk.hpp on a finite tree.
use mathlib.Core.List.{append-nil, append_assoc}
use config_monitor.Base.{
  ℕ, zero, suc, ◌≤◌, ◌<◌, ◌≡◌, ap, ◌∙◌, some, List, [], ◌∷◌, ◌++◌, map, arith, Text, max,
}
use config_monitor.Zk.Types.{Rc, zok, no_error}
use config_monitor.Zk.Client.{Zoo}
use config_monitor.Zk.Delete.{child_path, Walk, walk_children, recursive_get_sub_path}

-- The nodes below a path: each child's name, the nodes below it, and its later siblings.
pub data Forest : Type 0 where
  bare : Forest
  child : Text → Forest → Forest → Forest

abbrev pub names : Forest → List Text
names bare = []
names (child n below later) = n ∷ names later

-- The number of levels.
abbrev pub height : Forest → ℕ
height bare = 0
height (child n below later) = max (suc (height below)) (height later)

-- A server on which the forest stands below `path`, as its listings show it.
abbrev pub Below : (Text → Rc × List Text) → Text → Forest → Type 0
Below ls path bare = Unit
Below ls path (child n below later) =
    (ls (child_path path n) ≡ (zok, names below))
    × Below ls (child_path path n) below
    × Below ls path later

-- The paths of a forest, each one behind all that stand below it.
unfoldable pub postorder : Text → Forest → List Text
postorder path bare = []
postorder path (child n below later) =
    postorder (child_path path n) below ++ (child_path path n ∷ postorder path later)

module _ (z : Zoo) (s : z.Server) where
  -- One call, from the loop over its children.
  visit :
      (fuel : ℕ) (path : Text) (f : Forest) (subs : List Text) {r : Walk}
      → z.get_children s path ≡ (zok, names f)
      → walk_children (recursive_get_sub_path z fuel s) (map (child_path path) (names f)) subs ≡ r
      → recursive_get_sub_path z (suc fuel) s path subs ≡ r
  unfolding recursive_get_sub_path
  visit fuel path f subs e w = rw (ap (λ r. r.0) e, ap (λ r. r.1) e) w

  walk_children-postorder :
      (fuel : ℕ) (path : Text) (f : Forest) (subs : List Text)
      → Below (z.get_children s) path f
      → height f ≤ fuel
      → walk_children (recursive_get_sub_path z fuel s) (map (child_path path) (names f)) subs
        ≡ some (no_error, subs ++ postorder path f)
  unfolding walk_children postorder
  walk_children-postorder fuel path bare subs b h = rw append-nil
  walk_children-postorder zero path (child n below later) subs b h = absurd (omega arith)
  walk_children-postorder (suc fuel) path (child n below later) subs b h =
      let here = child_path path n in
      let visited : recursive_get_sub_path z (suc fuel) s here subs
          ≡ some (no_error, subs ++ postorder here below) =
        visit fuel here below subs b.0
          (walk_children-postorder fuel here below subs b.1 (omega arith)) in
      let rest =
        walk_children-postorder (suc fuel) path later
          ((subs ++ postorder here below) ++ (here ∷ [])) b.2 (omega arith) in
      rw (visited, walk_children)
        (rest
          ∙ ap (λ l. some (no_error, l))
              (append_assoc (subs ++ postorder here below) (here ∷ []) (postorder path later)
                ∙ append_assoc subs (postorder here below) (here ∷ postorder path later)))

  -- When the listings of a path and of all below it are those of a finite tree, with fuel for
  -- its levels, the walk appends the post-order of the tree to `subs` and reports no error.
  pub recursive_get_sub_path-postorder :
      (fuel : ℕ) (path : Text) (f : Forest) (subs : List Text)
      → z.get_children s path ≡ (zok, names f)
      → Below (z.get_children s) path f
      → height f < fuel
      → recursive_get_sub_path z fuel s path subs ≡ some (no_error, subs ++ postorder path f)
  recursive_get_sub_path-postorder zero path f subs e b h = absurd (omega arith)
  recursive_get_sub_path-postorder (suc fuel) path f subs e b h =
      visit fuel path f subs e (walk_children-postorder fuel path f subs b (omega arith))
