-- ===== src/Zk/SplitPath/Ancestors.antt =====
-- The run-time `split_path` of cppzk.hpp, and the prefixes of a path before its slashes.
use mathlib.Core.List.{map-append, append_assoc, append-nil}
use config_monitor.Base.{
  ℕ, zero, suc, ◌-◌, ◌<◌, ◌≡◌, ◌≢◌, refl, sym, ap, ◌∙◌, inl, inr, Option, none, some, List, [], ◌∷◌,
  ◌++◌, map, arith, Text, length, length-append, length-map, take, length-take, pop_front, eqb,
  if◌then◌else◌, returns, throws, invalid_argument, Option-cases, Bool-cases, true, false,
}
use config_monitor.Zk.SplitPath.{slash, count, find_last_of, split_loop, split_path}

-- The prefixes before each slash, shortest first, in one pass from the front.
unfoldable pub slash_prefixes : Text → List Text
slash_prefixes [] = []
slash_prefixes (x ∷ xs) =
    if eqb x slash
    then [] ∷ map (λ q. x ∷ q) (slash_prefixes xs)
    else map (λ q. x ∷ q) (slash_prefixes xs)

pub length-slash_prefixes : (p : Text) → length (slash_prefixes p) ≡ count p
unfolding slash_prefixes count
length-slash_prefixes [] = refl
length-slash_prefixes (x ∷ xs) =
    ground (arith, length-slash_prefixes xs, length-map (λ (q : Text). x ∷ q) (slash_prefixes xs))

map_snoc :
    (x : ℕ) (l : List Text) (p : Text)
    → map (λ q. x ∷ q) (l ++ (p ∷ [])) ≡ map (λ q. x ∷ q) l ++ ((x ∷ p) ∷ [])
map_snoc x l p = rw map-append

-- What one look for the last slash says of the prefixes.
abbrev pub LastSlash : Text → Option ℕ → Type 0
LastSlash p none = slash_prefixes p ≡ []
LastSlash p (some i) =
    (i < length p) × (slash_prefixes p ≡ slash_prefixes (take i p) ++ (take i p ∷ []))

snoc :
    (x : ℕ) (xs : Text) (i : ℕ)
    → slash_prefixes xs ≡ slash_prefixes (take i xs) ++ (take i xs ∷ [])
    → slash_prefixes (x ∷ xs) ≡ slash_prefixes (x ∷ take i xs) ++ ((x ∷ take i xs) ∷ [])
unfolding slash_prefixes
snoc x xs i h = elim (Bool-cases (eqb x slash)) [
  | inl e ↦ rw (e, h) (rw map-append)
  | inr e ↦ rw (e, h) (rw map-append)
]

pub find_last_of-LastSlash : (p : Text) → LastSlash p (find_last_of p)
unfolding slash_prefixes find_last_of
find_last_of-LastSlash [] = refl
find_last_of-LastSlash (x ∷ xs) = elim (Option-cases (find_last_of xs)) [
  | inl e ↦
      let ih : LastSlash xs none = rw e at (find_last_of-LastSlash xs) in rw e (ground (arith, ih))
  | inr (i, e) ↦
      let ih : LastSlash xs (some i) = rw e at (find_last_of-LastSlash xs) in
      rw e (omega (arith, ih.0), snoc x xs i ih.1)
]

-- The loop has room for every round, and collects the prefixes in front of what it was given.
split_loop-slash_prefixes :
    (fuel : ℕ) (p : Text) (acc : List Text)
    → length p < fuel
    → split_loop fuel p acc ≡ slash_prefixes p ++ acc
unfolding split_loop
split_loop-slash_prefixes zero p acc h = absurd (omega arith)
split_loop-slash_prefixes (suc fuel) p acc h = elim (Option-cases (find_last_of p)) [
  | inl e ↦
      let now : LastSlash p none = rw e at (find_last_of-LastSlash p) in rw (e, split_loop) (rw now)
  | inr (i, e) ↦
      let now : LastSlash p (some i) = rw e at (find_last_of-LastSlash p) in
      let ih =
        split_loop-slash_prefixes fuel (take i p) (take i p ∷ acc)
          (omega (arith, now.0, length-take i p)) in
      rw (e, split_loop)
        (ih ∙ sym (ap (λ l. l ++ acc) now.1 ∙ append_assoc (slash_prefixes (take i p)) _ _))
]

pop_front_one : (l : List Text) → length l ≡ 1 → pop_front l ≡ []
pop_front_one [] h = absurd (omega arith)
pop_front_one (a ∷ []) h = refl
pop_front_one (a ∷ b ∷ l) h = absurd (omega arith)

-- A path with no slash is refused. Any other is split into the prefixes before its slashes, the
-- first slash excepted, shortest first, with the whole path at the end.
pub split_path-eq-prefixes :
    (p : Text)
    → split_path p ≡ (
        if eqb (count p) 0
        then throws invalid_argument
        else returns (pop_front (slash_prefixes p) ++ (p ∷ [])))
unfolding split_path
split_path-eq-prefixes p =
    rw (split_loop-slash_prefixes (suc (length p)) p [] (omega arith), append-nil)
      (ground (arith, pop_front_one (slash_prefixes p), length-slash_prefixes p))

-- Each path of the list, followed by a slash, begins the next one.
abbrev pub IsChain : List Text → Type 0
IsChain [] = Unit
IsChain (a ∷ []) = Unit
IsChain (a ∷ b ∷ r) = ((rest : Text) × (b ≡ a ++ (slash ∷ rest))) × IsChain (b ∷ r)

IsChain-map : (x : ℕ) (l : List Text) → IsChain l → IsChain (map (λ q. x ∷ q) l)
IsChain-map x [] c = tt
IsChain-map x (a ∷ []) c = tt
IsChain-map x (a ∷ b ∷ r) ((rest, e), c) = ((rest, ap (◌∷◌ x) e), IsChain-map x (b ∷ r) c)

IsChain-cons_nil :
    (x : ℕ) (l : List Text)
    → x ≡ slash
    → IsChain (map (λ q. x ∷ q) l)
    → IsChain ([] ∷ map (λ q. x ∷ q) l)
IsChain-cons_nil x [] e c = tt
IsChain-cons_nil x (a ∷ l) e c = ((a, ap (λ y. y ∷ a) e), c)

prefixes-IsChain : (p : Text) → IsChain (slash_prefixes p ++ (p ∷ []))
unfolding slash_prefixes
prefixes-IsChain [] = tt
prefixes-IsChain (x ∷ xs) = elim (Bool-cases (eqb x slash)) [
  | inl e ↦
      rw (e, ← map_snoc x (slash_prefixes xs) xs)
        (IsChain-cons_nil x (slash_prefixes xs ++ (xs ∷ [])) (ground arith)
          (IsChain-map x _ (prefixes-IsChain xs)))
  | inr e ↦ rw (e, ← map_snoc x (slash_prefixes xs) xs) (IsChain-map x _ (prefixes-IsChain xs))
]

IsChain-pop_front : (l : List Text) → IsChain l → IsChain (pop_front l)
IsChain-pop_front [] c = tt
IsChain-pop_front (a ∷ []) c = tt
IsChain-pop_front (a ∷ b ∷ r) c = c.1

pop_front-snoc :
    (l : List Text) (p : Text) → length l ≢ 0 → pop_front l ++ (p ∷ []) ≡ pop_front (l ++ (p ∷ []))
pop_front-snoc [] p h = absurd (h refl)
pop_front-snoc (a ∷ l) p h = refl

length-pop_front : (l : List Text) → length (pop_front l) ≡ length l - 1
length-pop_front [] = omega arith
length-pop_front (a ∷ l) = omega arith

-- What `split_path` promises of its list: one entry for each slash, each entry and a slash begin
-- the next, and the path itself stands at the end.
pub record IsSplit (p : Text) (l : List Text) : Type 0 where
  pub size : length l ≡ count p
  pub chain : IsChain l
  pub whole : (above : List Text) × (l ≡ above ++ (p ∷ []))

-- Whatever `split_path` returns is the split of its path: one entry for each slash, each entry
-- followed by a slash begins the next one, and the last is the path.
pub split_path-IsSplit : (p : Text) {l : List Text} → split_path p ≡ returns l → IsSplit p l
split_path-IsSplit p {l} e = elim (Bool-cases (eqb (count p) 0)) [
  | inl z ↦ absurd (thrown z)
  | inr n ↦
      let same : pop_front (slash_prefixes p) ++ (p ∷ []) ≡ l =
        ground (arith, split_path-eq-prefixes p) in
      rw (← same) (record {
        size = omega (
          arith,
          length-append (pop_front (slash_prefixes p)) (p ∷ []),
          length-pop_front (slash_prefixes p),
          length-slash_prefixes p,
          nonzero n,
        );
        chain =
            rw
              (pop_front-snoc (slash_prefixes p) p
                (λ z. nonzero n (sym (length-slash_prefixes p) ∙ z)))
              (IsChain-pop_front _ (prefixes-IsChain p));
        whole = (pop_front (slash_prefixes p), refl);
      })
]
  where
    thrown : eqb (count p) 0 ≡ true → ⊥
    thrown z = ground (arith, split_path-eq-prefixes p)

    nonzero : eqb (count p) 0 ≡ false → count p ≢ 0
    nonzero n = ground arith
