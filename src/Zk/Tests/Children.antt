-- ===== src/Zk/Tests/Children.antt =====
-- The children of a path in a dictionary of nodes.
use config_monitor.Base.{
  ◌≡◌, inl, inr, refl, Bool, false, ◌&&◌, Option, false, none, some, List, [], ◌∷◌, ◌++◌, arith,
  Text, text_eq, ◌==◌, eqb, contains, if◌then◌else◌, All, Option-cases, Bool-cases,
}
use config_monitor.Base.Dict.{Dict, lookup}
use config_monitor.Zk.SplitPath.{slash, count}
use config_monitor.Zk.Delete.{child_path}
use config_monitor.Zk.Ensemble.{is_there, IsDistinct}

-- What stands behind `p` in a path.
strip : Text → Text → Option Text
strip [] q = some q
strip (c ∷ p) [] = none
strip (c ∷ p) (x ∷ q) = if eqb c x then strip p q else none

abbrev after_slash : Option Text → Option Text
after_slash none = none
after_slash (some []) = none
after_slash (some (c ∷ n)) = if eqb c slash && eqb (count n) 0 then some n else none

child_name : Text → Text → Option Text
child_name p q = after_slash (strip p q)

unfoldable pub children_of : Text → Dict Text (Option Text) → List Text
unfolding child_name strip
children_of p [] = []
children_of p ((q, v) ∷ s) = elim (child_name p q) [
  | none ↦ children_of p s
  | some n ↦ let later = children_of p s in if contains later n then later else n ∷ later
]

strip-append : (p n : Text) → strip p (p ++ n) ≡ some n
unfolding strip
strip-append [] n = refl
strip-append (c ∷ p) n = ground (arith, strip-append p n)

strip_eq : (p q n : Text) → strip p q ≡ some n → q ≡ p ++ n
unfolding strip
strip_eq [] q n e = cc
strip_eq (c ∷ p) [] n e = absurd (ground arith)
strip_eq (c ∷ p) (x ∷ q) n e = ground (arith, strip_eq p q n)

child_name-child_path : (p n : Text) → count n ≡ 0 → child_name p (child_path p n) ≡ some n
unfolding child_name
child_name-child_path p n plain = rw (strip-append p (slash ∷ n)) (ground (arith, plain))

after_slash_eq :
    (r : Option Text) (n : Text) → after_slash r ≡ some n → (r ≡ some (slash ∷ n)) × (count n ≡ 0)
after_slash_eq none n e = absurd (cc)
after_slash_eq (some []) n e = absurd (cc)
after_slash_eq (some (c ∷ m)) n e = ground arith

child_name_eq : (p q n : Text) → child_name p q ≡ some n → (q ≡ child_path p n) × (count n ≡ 0)
unfolding child_name
child_name_eq p q n e =
    let (found, plain) = after_slash_eq (strip p q) n e in (strip_eq p q (slash ∷ n) found, plain)

-- A test of paths is a test of names.
abbrev is_name : Text → Option Text → Bool
is_name n none = false
is_name n (some n') = n == n'

same_child : (p q n : Text) → count n ≡ 0 → (child_path p n == q) ≡ is_name n (child_name p q)
same_child p q n plain = elim (Option-cases (child_name p q)) [
  | inl none_there ↦ ground (arith, child_name-child_path p n plain)
  | inr (n', found) ↦
      let (e, _) = child_name_eq p q n' found in
      ground (arith, e, found, child_name-child_path p n plain)
]

pub contains-children_of :
    (p : Text) (s : Dict Text (Option Text)) (n : Text)
    → count n ≡ 0
    → is_there (lookup (child_path p n) s) ≡ contains (children_of p s) n
unfolding children_of lookup
contains-children_of p [] n plain = refl
contains-children_of p ((q, v) ∷ s) n plain =
    ground (arith, same_child p q n plain, contains-children_of p s n plain)

pub plain-children_of :
    (p : Text) (s : Dict Text (Option Text)) → All (λ n. count n ≡ 0) (children_of p s)
unfolding children_of
plain-children_of p [] = tt
plain-children_of p ((q, v) ∷ s) = elim (Option-cases (child_name p q)) [
  | inl none_there ↦ rw (children_of, none_there) (plain-children_of p s)
  | inr (n, found) ↦ elim (Bool-cases (contains (children_of p s) n)) [
    | inl again ↦ rw (children_of, found, again) (plain-children_of p s)
    | inr first ↦
        rw (children_of, found, first) ((child_name_eq p q n found).1, plain-children_of p s)
  ]
]

pub IsDistinct-children_of : (p : Text) (s : Dict Text (Option Text)) → IsDistinct (children_of p s)
unfolding children_of
IsDistinct-children_of p [] = tt
IsDistinct-children_of p ((q, v) ∷ s) = elim (Option-cases (child_name p q)) [
  | inl none_there ↦ rw (children_of, none_there) (IsDistinct-children_of p s)
  | inr (n, found) ↦ elim (Bool-cases (contains (children_of p s) n)) [
    | inl again ↦ rw (children_of, found, again) (IsDistinct-children_of p s)
    | inr first ↦ rw (children_of, found, first) (first, IsDistinct-children_of p s)
  ]
]
