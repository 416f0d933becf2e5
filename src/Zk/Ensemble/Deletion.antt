-- ===== src/Zk/Ensemble/Deletion.antt =====
-- `delete_path` of cppzk.hpp for a path with few levels below it, on a server of nodes and values.
use mathlib.Core.List.{append_assoc}
use config_monitor.Base.{
  ℕ, zero, suc, ◌≤◌, ◌<◌, ◌≡◌, ◌≢◌, refl, ap, ◌∙◌, true, false, Option, none, some, List, [], ◌∷◌,
  ◌++◌, arith, Text, text_eq, ◌==◌, ◌&&◌, ◌||◌, not, contains, All,
}
use config_monitor.Zk.Types.{Rc, zok, no_error}
use config_monitor.Zk.SplitPath.{slash, count}
use config_monitor.Zk.SplitPath.Names.{count-append}
use config_monitor.Zk.Delete.{child_path, delete_path}
use config_monitor.Zk.Delete.Listing.{Forest, bare, child, names, height, Below, postorder}
use config_monitor.Zk.Delete.Paths.{IsNamed}
use config_monitor.Zk.Delete.Removal.{delete_path-removes}
use config_monitor.Zk.Ensemble.{Ensemble, EnsembleLaws, IsDistinct, is_there}
use config_monitor.Zk.Ensemble.Creation.{node}

absent : (v : Option (Option Text)) → is_there v ≡ false → v ≡ none
absent none e = refl
absent (some v) e = absurd (cc)

pub present : (v : Option (Option Text)) → v ≢ none → is_there v ≡ true
present none there = absurd (there refl)
present (some v) there = refl

pub standing : (v : Option (Option Text)) → is_there v ≡ true → v ≢ none
standing none e = absurd (cc)
standing (some v) e = λ q. cc

no_names :
    (l : List Text)
    → All (λ n. count n ≡ 0) l
    → ((n : Text) → count n ≡ 0 → contains l n ≡ false)
    → l ≡ []
no_names [] plain other = refl
no_names (n ∷ rest) (h, hs) other = absurd (ground (arith, other n h))

-- The tree that listings show, of this many levels.
planted : (Text → Forest) → List Text → Forest
planted below [] = bare
planted below (n ∷ l) = child n (below n) (planted below l)

tree : (Text → List Text) → ℕ → Text → Forest
unfolding planted
tree ls zero p = bare
tree ls (suc k) p = planted (λ n. tree ls k (child_path p n)) (ls p)

names-planted : (below : Text → Forest) (l : List Text) → names (planted below l) ≡ l
unfolding planted
names-planted below [] = refl
names-planted below (n ∷ l) = ap (λ t. n ∷ t) (names-planted below l)

height-planted :
    (below : Text → Forest) (k : ℕ) (l : List Text)
    → ((n : Text) → height (below n) ≤ k)
    → height (planted below l) ≤ suc k
unfolding planted
height-planted below k [] h = omega arith
height-planted below k (n ∷ l) h = omega (arith, h n, height-planted below k l h)

height-tree : (ls : Text → List Text) (k : ℕ) (p : Text) → height (tree ls k p) ≤ k
unfolding tree
height-tree ls zero p = omega arith
height-tree ls (suc k) p =
    height-planted (λ n. tree ls k (child_path p n)) k (ls p)
      (λ n. height-tree ls k (child_path p n))

planted-IsNamed :
    (below : Text → Forest) (l : List Text)
    → ((n : Text) → IsNamed (below n))
    → All (λ n. count n ≡ 0) l
    → IsDistinct l
    → IsNamed (planted below l)
unfolding planted
planted-IsNamed below [] w plain d = tt
planted-IsNamed below (n ∷ l) w (h, hs) (first, d) =
    (h, rw (names-planted below l) first, w n, planted-IsNamed below l w hs d)

planted-Below :
    (ls : Text → Rc × List Text) (below : Text → Forest) (p : Text) (l : List Text)
    → All
        (λ n. (ls (child_path p n) ≡ (zok, names (below n))) × Below ls (child_path p n) (below n))
        l
    → Below ls p (planted below l)
unfolding planted
planted-Below ls below p [] b = tt
planted-Below ls below p (n ∷ l) ((e, b), bs) = (e, b, planted-Below ls below p l bs)

module _ (e : Ensemble) (laws : EnsembleLaws e) where
  abbrev pub IsChildless : e.zoo.Server → Text → Type 0
  IsChildless s p = (n : Text) → count n ≡ 0 → node e laws s (child_path p n) ≡ none

  -- There are at most this many levels below the path.
  abbrev pub IsShallow : e.zoo.Server → Text → ℕ → Type 0
  IsShallow s p k = (r : Text) → k ≤ count r → node e laws s (child_path p r) ≡ none

  module _ (s : e.zoo.Server) where
    abbrev ls : Text → List Text
    ls p = (e.zoo.get_children s p).1

    listing :
        (p : Text) → node e laws s p ≢ none → IsChildless s p → e.zoo.get_children s p ≡ (zok, [])
    listing p there childless =
        let ok = laws.lists_there s p there in
        let none_listed = no_names (ls p) (laws.lists_names s p) (λ n h. ground (
          arith,
          laws.nodes.listed s p n ok h,
          laws.nodes_there s (child_path p n),
          childless n h,
        )) in
        cc

    tree-IsNamed : (k : ℕ) (p : Text) → IsNamed (tree ls k p)
    unfolding tree
    tree-IsNamed zero p = tt
    tree-IsNamed (suc k) p =
        planted-IsNamed (λ n. tree ls k (child_path p n)) (ls p)
          (λ n. tree-IsNamed k (child_path p n)) (laws.lists_names s p) (laws.lists_distinct s p)

    IsShallow-child :
        (k : ℕ) (p n : Text) → count n ≡ 0 → IsShallow s p (suc k) → IsShallow s (child_path p n) k
    unfolding count
    IsShallow-child k p n plain low r h =
        ap (node e laws s) (append_assoc p (slash ∷ n) (slash ∷ r))
        ∙ low (n ++ (slash ∷ r)) (omega (arith, count-append n (slash ∷ r), plain, h))

    abbrev Shows : (k : ℕ) → Text → Type 0
    Shows k p =
        (e.zoo.get_children s p ≡ (zok, names (tree ls k p)))
        × Below (e.zoo.get_children s) p (tree ls k p)

    -- Names that a listing holds lead to nodes.
    children :
        (p : Text) (l : List Text) {P : Text → Type 0}
        → (e.zoo.get_children s p).0 ≡ zok
        → All (λ n. count n ≡ 0) l
        → ((n : Text) → contains l n ≡ true → contains (ls p) n ≡ true)
        → ((n : Text) → count n ≡ 0 → node e laws s (child_path p n) ≢ none → P n)
        → All P l
    children p [] ok plain sub h = tt
    children p (n ∷ l) ok (hn, hs) sub h = (
      h n hn (
          standing (node e laws s (child_path p n)) (
            ground
              (arith, laws.nodes.listed s p n ok hn, laws.nodes_there s (child_path p n), sub n))),
      children p l ok hs (λ m q. sub m (ground arith)) h,
    )

    tree-Shows : (k : ℕ) (p : Text) → node e laws s p ≢ none → IsShallow s p k → Shows k p
    unfolding tree
    tree-Shows zero p there low = (listing p there (λ n h. low n (omega arith)), tt)
    tree-Shows (suc k) p there low =
        let below = λ (n : Text). tree ls k (child_path p n) in
        let ok = laws.lists_there s p there in
        let same : names (planted below (ls p)) ≡ ls p = names-planted below (ls p) in
        (
          rw (same) cc,
          planted-Below (e.zoo.get_children s) below p (ls p) (
              children p (ls p) ok (laws.lists_names s p) (λ n h. h)
                (λ n plain stands.
                  tree-Shows k (child_path p n) stands (IsShallow-child k p n plain low))),
        )

  removed :
      (s : e.zoo.Server) (fuel : ℕ) (p : Text) (f : Forest)
      → node e laws s p ≢ none
      → IsNamed f
      → e.zoo.get_children s p ≡ (zok, names f)
      → Below (e.zoo.get_children s) p f
      → height f < fuel
      → (s' : e.zoo.Server) × (delete_path e.zoo fuel s p ≡ some (s', no_error))
        × (node e laws s' p ≡ none)
        × ((q : Text)
            → is_there (node e laws s' q)
              ≡ (is_there (node e laws s q) && not (contains (postorder p f) q || q == p)))
  removed s fuel p f there named shown below high =
      let (s', done, left) =
        delete_path-removes e.zoo laws.nodes s fuel p f
          (laws.nodes_there s p ∙ present (node e laws s p) there) named shown below high in
      (
        s',
        done,
        absent (node e laws s' p) (ground (arith, left p, laws.nodes_there s' p)),
        λ q. ground (arith, left q, laws.nodes_there s q, laws.nodes_there s' q),
      )

  pub delete_path-node :
      (s : e.zoo.Server) (p : Text)
      → node e laws s p ≢ none
      → IsChildless s p
      → (s' : e.zoo.Server) × (delete_path e.zoo 1 s p ≡ some (s', no_error))
        × (node e laws s' p ≡ none)
        × ((q : Text) → (q == p) ≡ false → is_there (node e laws s' q) ≡ is_there (node e laws s q))
  unfolding postorder
  delete_path-node s p there childless =
      let (s', done, gone, left) =
        removed s 1 p bare there tt (listing s p there childless) tt (omega arith) in
      (s', done, gone, λ q other. ground (arith, left q, other))

  pub delete_path-tree :
      (s : e.zoo.Server) (k : ℕ) (p : Text)
      → node e laws s p ≢ none
      → IsShallow s p k
      → (s' : e.zoo.Server) × (delete_path e.zoo (suc k) s p ≡ some (s', no_error))
        × (node e laws s' p ≡ none)
  delete_path-tree s k p there low =
      let (shown, below) = tree-Shows s k p there low in
      let (s', done, gone, _) =
        removed s (suc k) p (tree (ls s) k p) there (tree-IsNamed s k p) shown below
          (omega (arith, height-tree (ls s) k p)) in
      (s', done, gone)
