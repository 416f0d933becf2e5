-- ===== src/Zk/Delete/Removal.antt =====
-- `delete_path` of cppzk.hpp on a finite tree.
use mathlib.Core.List.{append_assoc, append-nil}
use config_monitor.Base.{
  ℕ, ◌<◌, ◌≡◌, refl, sym, ◌∙◌, true, false, not, ◌&&◌, ◌||◌, Option, none, some, List, [], ◌∷◌,
  ◌++◌, arith, Text, text_eq, ◌==◌, contains, All,
}
use config_monitor.Zk.Types.{zok, no_error, has_error}
use config_monitor.Zk.SplitPath.{slash, count}
use config_monitor.Zk.Client.{Zoo}
use config_monitor.Zk.Delete.{child_path, delete_all, delete_path, recursive_get_sub_path}
use config_monitor.Zk.Delete.Listing.{
  Forest, bare, child, names, height, Below, postorder, recursive_get_sub_path-postorder,
}
use config_monitor.Zk.Delete.Nodes.{
  NodeLaws, Deletable, push_all, contains-push_all, Deletable-append, delete_all-Deletable,
}
use config_monitor.Zk.Delete.Paths.{
  IsNamed, extension, Fresh, child_unique, not-below_self, postorder-shape, contains-append,
  postorder-child,
}

module _ (z : Zoo) (laws : NodeLaws z) (s : z.Server) where
  open laws use {exists}

  -- The children of a path that is listed are there.
  abbrev Standing : Text → List Text → Type 0
  Standing path = All (λ n. exists s (child_path path n) ≡ true)

  -- The children that a listing names are the only ones.
  Complete : Text → Forest → Type 0
  Complete path f = (n : Text) → count n ≡ 0 → exists s (child_path path n) ≡ contains (names f) n

  complete : (path : Text) (f : Forest) → z.get_children s path ≡ (zok, names f) → Complete path f
  unfolding Complete
  complete path f e n free = ground (arith, laws.listed s path n)

  standing :
      (path : Text) (f g : Forest)
      → Complete path f
      → IsNamed g
      → ((n : Text) → contains (names g) n ≡ true → contains (names f) n ≡ true)
      → Standing path (names g)
  unfolding Complete
  standing path f bare c w sub = tt
  standing path f (child n below later) c w sub =
      (ground (arith, c n w.0, sub n), standing path f later c w.3 (λ m h. sub m (ground arith)))

  -- What is fresh for the children of a fresh child.
  Fresh-below :
      (done : List Text) (here : Text) (f : Forest)
      → ((r : Option Text) → contains done (here ++ extension r) ≡ false)
      → Fresh done here f
  Fresh-below done here bare h = tt
  Fresh-below done here (child m below later) h = (
    λ r. rw (append_assoc here (slash ∷ m) (extension r)) (h (some (m ++ extension r))),
    Fresh-below done here later h,
  )

  -- A child and all below it leave its later siblings fresh.
  Fresh-later :
      (done : List Text) (path n : Text) (below later : Forest)
      → count n ≡ 0
      → contains (names later) n ≡ false
      → IsNamed later
      → Fresh done path later
      → Fresh (child_path path n ∷ push_all (postorder (child_path path n) below) done) path later
  Fresh-later done path n below bare a d w h = tt
  Fresh-later done path n below (child m deep later) a d w h =
      (λ r. elsewhere r, Fresh-later done path n below later a (ground arith) w.3 h.1)
    where
      here : Text
      here = child_path path n

      apart : (r t : Option Text) → child_path path m ++ extension r ≡ here ++ extension t → ⊥
      apart r t e = ground (arith, child_unique path m n r t w.0 a e)

      not_here : (r : Option Text) → child_path path m ++ extension r ≡ here → ⊥
      not_here r e = apart r none (e ∙ sym (append-nil here))

      not_deep :
          (r : Option Text)
          → contains (postorder here below) (child_path path m ++ extension r) ≡ true
          → ⊥
      not_deep r c =
          let (k, t, _, e) = postorder-shape here below _ c in
          apart r (some (k ++ extension t)) (e ∙ append_assoc here (slash ∷ k) (extension t))

      elsewhere :
          (r : Option Text)
          → contains
              (here ∷ push_all (postorder here below) done)
              (child_path path m ++ extension r)
            ≡ false
      elsewhere r = ground (
        arith,
        contains-push_all (postorder here below) done (child_path path m ++ extension r),
        not_here r,
        not_deep r,
        h.0 r,
      )

  -- A node, once all below it are gone.
  node_last :
      (done : List Text) (here : Text) (f : Forest) (later : List Text)
      → exists s here ≡ true
      → z.get_children s here ≡ (zok, names f)
      → contains done here ≡ false
      → Deletable (exists s) (here ∷ push_all (postorder here f) done) later
      → Deletable (exists s) (push_all (postorder here f) done) (here ∷ later)
  unfolding Complete
  node_last done here f later there e fresh rest = (there, still, kids, rest)
    where
      not_deep : contains (postorder here f) here ≡ true → ⊥
      not_deep c =
          let (k, t, _, eq) = postorder-shape here f here c in
          not-below_self here (k ++ extension t) (eq ∙ append_assoc here (slash ∷ k) (extension t))

      still : contains (push_all (postorder here f) done) here ≡ false
      still = ground (arith, contains-push_all (postorder here f) done here, not_deep)

      kids :
          (n : Text)
          → count n ≡ 0
          → exists s (child_path here n) ≡ true
          → contains (push_all (postorder here f) done) (child_path here n) ≡ true
      kids n free h = ground (
        arith,
        complete here f e n free,
        postorder-child here f n,
        contains-push_all (postorder here f) done (child_path here n),
      )

  postorder-Deletable :
      (done : List Text) (path : Text) (f : Forest)
      → IsNamed f
      → Below (z.get_children s) path f
      → Standing path (names f)
      → Fresh done path f
      → Deletable (exists s) done (postorder path f)
  unfolding postorder
  postorder-Deletable done path bare w b st fr = tt
  postorder-Deletable done path (child n below later) w b st fr =
      Deletable-append (exists s) done (postorder here below) (here ∷ postorder path later)
        (postorder-Deletable done here below w.2 b.1
          (standing here below below (complete here below b.0) w.2 (λ m h. h))
          (Fresh-below done here below fr.0))
        (node_last done here below (postorder path later) st.0 b.0
          (rw (append-nil here) at (fr.0 none))
          (postorder-Deletable (here ∷ push_all (postorder here below) done) path later w.3 b.2 st.1
            (Fresh-later done path n below later w.0 w.1 w.3 fr.1)))
    where
      here : Text
      here = child_path path n

  Fresh-nil : (path : Text) (f : Forest) → Fresh [] path f
  Fresh-nil path bare = tt
  Fresh-nil path (child n below later) = (λ r. refl, Fresh-nil path later)

  -- On a server that obeys `NodeLaws`, for a path that is there with a finite tree below it
  -- whose names hold no slash and differ from their siblings, and with fuel for its levels,
  -- `delete_path` reports no error; afterwards the path and the paths below it are gone, and
  -- any other is there if and only if it was.
  pub delete_path-removes :
      (fuel : ℕ) (path : Text) (f : Forest)
      → exists s path ≡ true
      → IsNamed f
      → z.get_children s path ≡ (zok, names f)
      → Below (z.get_children s) path f
      → height f < fuel
      → (s' : z.Server) × (delete_path z fuel s path ≡ some (s', no_error))
        × ((q : Text)
            → exists s' q ≡ (exists s q && not (contains (postorder path f) q || q == path)))
  unfolding delete_path has_error
  delete_path-removes fuel path f there w e b h =
      (final, rw (walked, delete_path) finished, λ q. after q)
    where
      subs : List Text
      subs = postorder path f ++ (path ∷ [])

      final : z.Server
      final = (delete_all z s subs).0

      walked : recursive_get_sub_path z fuel s path [] ≡ some (no_error, postorder path f)
      walked = recursive_get_sub_path-postorder z s fuel path f [] e b h

      gone :
          ((delete_all z s subs).1 ≡ no_error)
          × ((q : Text) → exists (delete_all z s subs).0 q ≡ (exists s q && not (contains subs q)))
      gone =
          delete_all-Deletable z laws (exists s) s [] subs (λ q. ground arith)
            (Deletable-append (exists s) [] (postorder path f) (path ∷ [])
              (postorder-Deletable [] path f w b
                (standing path f f (complete path f e) w (λ m c. c)) (Fresh-nil path f))
              (node_last [] path f [] there e refl tt))

      finished : some (delete_all z s subs) ≡ some (final, no_error)
      finished = ground (arith, gone.0)

      after :
          (q : Text)
          → exists final q ≡ (exists s q && not (contains (postorder path f) q || q == path))
      after q = ground (arith, gone.1 q, contains-append (postorder path f) (path ∷ []) q)
