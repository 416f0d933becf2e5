-- ===== src/Zk/Delete/Paths.antt =====
-- Where the paths of a forest stand: each below one child, and no two children share one.
use mathlib.Core.List.{append_assoc, append-nil, append_cancel_left}
use config_monitor.Base.{
  ◌≡◌, refl, sym, ap, ◌∙◌, ◌≢◌, inl, inr, true, false, ◌||◌, Option, none, some, List, [], ◌∷◌,
  ◌++◌, arith, Text, text_eq, ◌==◌, contains, All, length, length-append, Bool-cases,
}
use config_monitor.Zk.SplitPath.{slash, count}
use config_monitor.Zk.Delete.{child_path}
use config_monitor.Zk.Delete.Listing.{Forest, bare, child, names, postorder}

-- Names of siblings differ, and hold no slash.
abbrev pub IsNamed : Forest → Type 0
IsNamed bare = Unit
IsNamed (child n below later) =
    (count n ≡ 0) × (contains (names later) n ≡ false) × IsNamed below × IsNamed later

-- What may stand behind a path: nothing, or a slash and more.
abbrev pub extension : Option Text → Text
extension none = []
extension (some r) = slash ∷ r

-- No path of `done` is, or lies below, a child of `path` in the forest.
abbrev pub Fresh : List Text → Text → Forest → Type 0
Fresh done path f =
    All (λ n. (r : Option Text) → contains done (child_path path n ++ extension r) ≡ false)
      (names f)

-- Two names in front of extensions are told apart.
name_unique :
    (m n : Text) (r t : Option Text)
    → count m ≡ 0
    → count n ≡ 0
    → m ++ extension r ≡ n ++ extension t
    → m ≡ n
unfolding count
name_unique [] [] r t a b e = refl
name_unique [] (y ∷ n) none t a b e = cc
name_unique [] (y ∷ n) (some r) t a b e = absurd (ground arith)
name_unique (x ∷ m) [] r none a b e = cc
name_unique (x ∷ m) [] r (some t) a b e = absurd (ground arith)
name_unique (x ∷ m) (y ∷ n) r t a b e =
    let tails : m ++ extension r ≡ n ++ extension t = ground arith in
    ground (arith, name_unique m n r t (ground arith) (ground arith) tails)

pub child_unique :
    (path m n : Text) (r t : Option Text)
    → count m ≡ 0
    → count n ≡ 0
    → child_path path m ++ extension r ≡ child_path path n ++ extension t
    → m ≡ n
child_unique path m n r t a b e =
    let inner : slash ∷ (m ++ extension r) ≡ slash ∷ (n ++ extension t) =
      append_cancel_left path (slash ∷ (m ++ extension r)) (slash ∷ (n ++ extension t)) (
        sym (append_assoc path (slash ∷ m) (extension r))
        ∙ e
        ∙ append_assoc path (slash ∷ n) (extension t)) in
    name_unique m n r t a b (cc)

pub not-below_self : (path r : Text) → path ≢ path ++ (slash ∷ r)
not-below_self path r e = omega (arith, ap length e, length-append path (slash ∷ r))

pub contains-append :
    (xs ys : List Text) (q : Text) → contains (xs ++ ys) q ≡ (contains xs q || contains ys q)
contains-append [] ys q = refl
contains-append (x ∷ xs) ys q = ground (arith, contains-append xs ys q)

-- Each path of the post-order lies below a child.
pub postorder-shape :
    (path : Text) (f : Forest) (q : Text)
    → contains (postorder path f) q ≡ true
    → (n : Text) × (r : Option Text) × (contains (names f) n ≡ true)
      × (q ≡ child_path path n ++ extension r)
unfolding postorder
postorder-shape path bare q h = cc
postorder-shape path (child n below later) q h =
    elim (Bool-cases (contains (postorder here below) q)) [
      | inl deep ↦
          let (m, r, _, e) = postorder-shape here below q deep in
          (
            n,
            some (m ++ extension r),
            ground arith,
            e ∙ append_assoc here (slash ∷ m) (extension r),
          )
      | inr shallow ↦ elim (Bool-cases (q == here)) [
        | inl same ↦ (n, none, ground arith, ground (arith, append-nil here))
        | inr other ↦
            let (m, r, listed, e) = postorder-shape path later q (side shallow other) in
            (m, r, ground arith, e)
      ]
    ]
  where
    here : Text
    here = child_path path n

    side :
        contains (postorder here below) q ≡ false
        → (q == here) ≡ false
        → contains (postorder path later) q ≡ true
    side a b =
        ground (arith, contains-append (postorder here below) (here ∷ postorder path later) q)

-- Each child is in it.
pub postorder-child :
    (path : Text) (f : Forest) (n : Text)
    → contains (names f) n ≡ true
    → contains (postorder path f) (child_path path n) ≡ true
unfolding postorder
postorder-child path bare n h = cc
postorder-child path (child m below later) n h = ground (
  arith,
  contains-append (postorder (child_path path m) below) (child_path path m ∷ postorder path later)
      (child_path path n),
  postorder-child path later n,
)
