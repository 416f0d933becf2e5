-- ===== src/Zk/SplitPath/Depth.antt =====
-- The template `split_path<PathDepth>` against the run-time `split_path`.
use mathlib.Core.List.{reverse-append, reverse-cons}
use config_monitor.Base.{
  ℕ, zero, suc, ◌-◌, ◌<◌, ◌≤◌, ◌≡◌, refl, ap, inl, inr, none, some, List, [], ◌∷◌, ◌++◌, reverse,
  arith, Text, length, length-append, take, length-take, pop_front, leb, if◌then◌else◌, returns,
  Option-cases,
}
use config_monitor.Zk.SplitPath.{count, find_last_of, split_path, fill_loop, pad, split_path_depth}
use config_monitor.Zk.SplitPath.Ancestors.{
  slash_prefixes, length-slash_prefixes, LastSlash, find_last_of-LastSlash, split_path-eq-prefixes,
}

reverse-snoc : (l : List Text) (q : Text) → reverse (l ++ (q ∷ [])) ≡ q ∷ reverse l
reverse-snoc l q = reverse-append l (q ∷ [])

length-snoc : (l : List Text) (q : Text) → length (l ++ (q ∷ [])) ≡ suc (length l)
length-snoc l q = omega (arith, length-append l (q ∷ []))

-- The loop of the template stores the prefixes, longest first, if there is a place for each.
fill_loop-reverse :
    (fuel room : ℕ) (p : Text)
    → length p < fuel
    → fill_loop fuel room p
      ≡ (if leb (length (slash_prefixes p)) room then some (reverse (slash_prefixes p)) else none)
unfolding fill_loop
fill_loop-reverse zero room p h = absurd (omega arith)
fill_loop-reverse (suc fuel) zero p h = elim (Option-cases (find_last_of p)) [
  | inl e ↦
      let now : LastSlash p none = rw e at (find_last_of-LastSlash p) in rw (e, fill_loop) (rw now)
  | inr (i, e) ↦
      let now : LastSlash p (some i) = rw e at (find_last_of-LastSlash p) in
      rw (e, fill_loop, now.1) (ground (arith, length-snoc (slash_prefixes (take i p)) (take i p)))
]
fill_loop-reverse (suc fuel) (suc left) p h = elim (Option-cases (find_last_of p)) [
  | inl e ↦
      let now : LastSlash p none = rw e at (find_last_of-LastSlash p) in
      rw (e, fill_loop) (rw now (ground arith))
  | inr (i, e) ↦
      let now : LastSlash p (some i) = rw e at (find_last_of-LastSlash p) in
      let ih = fill_loop-reverse fuel left (take i p) (omega (arith, now.0, length-take i p)) in
      rw (e, fill_loop, now.1, ih, reverse-snoc, length-snoc) (ground arith)
]

pad-snoc : (l : List Text) (q : Text) → pad (length l) (l ++ (q ∷ [])) ≡ l
pad-snoc [] q = refl
pad-snoc (a ∷ l) q = ap (◌∷◌ a) (pad-snoc l q)

length-reverse : (l : List Text) → length (reverse l) ≡ length l
length-reverse [] = refl
length-reverse (a ∷ l) =
    omega (arith, ap length (reverse-cons a l), length-snoc (reverse l) a, length-reverse l)

pad-reverse : (n : ℕ) (l : List Text) → length l ≡ suc n → pad n (reverse l) ≡ reverse (pop_front l)
pad-reverse n [] h = absurd (omega arith)
pad-reverse n (a ∷ l) h =
    let k : n ≡ length (reverse l) = omega (arith, length-reverse l) in
    rw (reverse-cons a l, k) (pad-snoc (reverse l) a)

-- For a path with `depth` slashes, at least two, the template gives the proper ancestors that
-- the run-time version lists before the path itself, in the opposite order.
pub split_path_depth-reverse :
    (depth : ℕ) (p : Text)
    → 2 ≤ depth
    → count p ≡ depth
    → (above : List Text) × (split_path p ≡ returns (above ++ (p ∷ [])))
      × (split_path_depth depth p ≡ some (reverse above))
unfolding split_path_depth
split_path_depth-reverse depth p two d = (
  pop_front (slash_prefixes p),
  ground (arith, split_path-eq-prefixes p),
  rw (fill_loop-reverse (suc (length p)) depth p (omega arith))
      (ground (arith, length-slash_prefixes p, pad-reverse (depth - 1) (slash_prefixes p))),
)

-- With more slashes than `depth`, at least two, the template writes past the end of its array.
pub split_path_depth_overrun :
    (depth : ℕ) (p : Text) → 2 ≤ depth → depth < count p → split_path_depth depth p ≡ none
unfolding split_path_depth
split_path_depth_overrun depth p two d =
    rw (fill_loop-reverse (suc (length p)) depth p (omega arith))
      (ground (arith, length-slash_prefixes p))
