-- ===== src/Zk/SplitPath/Names.antt =====
-- `split_path` of a path put together from names.
use mathlib.Core.List.{map-append, append_assoc, append-nil}
use config_monitor.Base.{
  ℕ, ◌≤◌, ◌<◌, ◌+◌, inl, inr, text_eq, ◌==◌, Bool-cases, ◌≡◌, refl, sym, ap, ◌∙◌, false, List, [],
  ◌∷◌, ◌++◌, map, arith, Text, All, length, length-append, pop_front, eqb, returns,
}
use config_monitor.Zk.SplitPath.{slash, count, split_path}
use config_monitor.Zk.SplitPath.Ancestors.{
  slash_prefixes, length-slash_prefixes, split_path-eq-prefixes,
}

-- The path below `base` by the names, and all paths on the way to it.
abbrev pub target : Text → List Text → Text
target base [] = base
target base (name ∷ names) = target (base ++ (slash ∷ name)) names

abbrev pub ladder : Text → List Text → List Text
ladder base [] = []
ladder base (name ∷ names) = (base ++ (slash ∷ name)) ∷ ladder (base ++ (slash ∷ name)) names

abbrev pub AreNames : List Text → Type 0
AreNames = All (λ name. count name ≡ 0)

pub count-append : (p q : Text) → count (p ++ q) ≡ count p + count q
unfolding count
count-append [] q = omega arith
count-append (x ∷ p) q = ground (arith, count-append p q)

pub count-target :
    (base : Text) (names : List Text)
    → AreNames names
    → count (target base names) ≡ count base + length names
unfolding count
count-target base [] plain = omega arith
count-target base (name ∷ names) (p, ps) =
    omega
      (arith, count-append base (slash ∷ name), p, count-target (base ++ (slash ∷ name)) names ps)

-- A path with more slashes than a ladder has rungs is none of them.
pub higher_apart :
    (q base : Text) (names : List Text)
    → AreNames names
    → count base + length names < count q
    → All (λ r. (q == r) ≡ false) (ladder base names)
unfolding count
higher_apart q base [] plain h = tt
higher_apart q base (name ∷ names) (p, ps) h =
    let more : count (base ++ (slash ∷ name)) ≡ count base + 1 =
      omega (arith, count-append base (slash ∷ name), p) in
    (
      elim (Bool-cases (q == (base ++ (slash ∷ name)))) [
        | inl same ↦
            let eq : q ≡ base ++ (slash ∷ name) = ground (arith, same) in
            absurd (omega (arith, ap count eq, more, h))
        | inr other ↦ other
      ],
      higher_apart q (base ++ (slash ∷ name)) names ps (omega (arith, more, h)),
    )

pub target-append : (a b : Text) (names : List Text) → target (a ++ b) names ≡ a ++ target b names
target-append a b [] = refl
target-append a b (name ∷ names) =
    ap (λ base. target base names) (append_assoc a b (slash ∷ name))
    ∙ target-append a (b ++ (slash ∷ name)) names

ladder-append :
    (a b : Text) (names : List Text) → ladder (a ++ b) names ≡ map (λ q. a ++ q) (ladder b names)
ladder-append a b [] = refl
ladder-append a b (name ∷ names) =
    rw (append_assoc) (rw (ladder-append a (b ++ (slash ∷ name)) names))

pub length-target : (base : Text) (names : List Text) → length base ≤ length (target base names)
length-target base [] = omega arith
length-target base (name ∷ names) =
    omega (arith, length-target (base ++ (slash ∷ name)) names, length-append base (slash ∷ name))

map_id : (l : List Text) → map (λ r. r) l ≡ l
map_id [] = refl
map_id (x ∷ l) = rw (map_id l)

map_behind :
    (x : ℕ) (name : Text) (l : List Text)
    → map (λ q. x ∷ q) (map (λ r. name ++ r) l) ≡ map (λ r. (x ∷ name) ++ r) l
map_behind x name [] = refl
map_behind x name (q ∷ l) = rw (map_behind x name l)

slash_prefixes-append :
    (name q : Text)
    → count name ≡ 0
    → slash_prefixes (name ++ q) ≡ map (λ r. name ++ r) (slash_prefixes q)
unfolding slash_prefixes count
slash_prefixes-append [] q h = rw (map_id)
slash_prefixes-append (x ∷ name) q h =
    let (other, rest) : (eqb x slash ≡ false) × (count name ≡ 0) = ground arith in
    rw (other, slash_prefixes-append name q rest) (map_behind x name (slash_prefixes q))

-- One name in front of a path.
prefixes-cons :
    (name q : Text)
    → count name ≡ 0
    → slash_prefixes ((slash ∷ name) ++ q) ≡ [] ∷ map (λ r. (slash ∷ name) ++ r) (slash_prefixes q)
unfolding slash_prefixes
prefixes-cons name q h =
    rw (slash_prefixes-append name q h)
      (ap (λ l. [] ∷ l) (map_behind slash name (slash_prefixes q)))

target-cons :
    (name : Text) (names : List Text)
    → target (slash ∷ name) names ≡ (slash ∷ name) ++ target [] names
target-cons name names =
    ap (λ base. target base names) (sym (append-nil (slash ∷ name)))
    ∙ target-append (slash ∷ name) [] names

ladder-cons :
    (name : Text) (names : List Text)
    → ladder (slash ∷ name) names ≡ map (λ q. (slash ∷ name) ++ q) (ladder [] names)
ladder-cons name names =
    ap (λ base. ladder base names) (sym (append-nil (slash ∷ name)))
    ∙ ladder-append (slash ∷ name) [] names

prefixes-ladder :
    (names : List Text)
    → AreNames names
    → slash_prefixes (target [] names) ++ (target [] names ∷ []) ≡ [] ∷ ladder [] names
unfolding slash_prefixes
prefixes-ladder [] h = refl
prefixes-ladder (name ∷ names) (h, hs) =
    let f : Text → Text = λ q. (slash ∷ name) ++ q in
    let whole : List Text = slash_prefixes (target [] names) in
    ap (λ t. slash_prefixes t ++ (t ∷ [])) (target-cons name names)
    ∙ ap (λ l. l ++ (f (target [] names) ∷ [])) (prefixes-cons name (target [] names) h)
    ∙ ap (λ l. [] ∷ l) (sym (map-append f whole (target [] names ∷ [])))
    ∙ ap (λ l. [] ∷ map f l) (prefixes-ladder names hs)
    ∙ ap (λ l. [] ∷ l)
        (rw (append-nil) (ap (λ l. (slash ∷ name) ∷ l) (sym (ladder-cons name names))))

pub split_path-target :
    (name : Text) (names : List Text)
    → AreNames (name ∷ names)
    → split_path (target [] (name ∷ names)) ≡ returns (ladder [] (name ∷ names))
split_path-target name names (h, hs) =
    let p = target [] (name ∷ names) in
    let before : List Text = map (λ r. (slash ∷ name) ++ r) (slash_prefixes (target [] names)) in
    let e : slash_prefixes p ≡ [] ∷ before =
      ap slash_prefixes (target-cons name names) ∙ prefixes-cons name (target [] names) h in
    let l : before ++ (p ∷ []) ≡ ladder [] (name ∷ names) =
      ap (λ s. pop_front (s ++ (p ∷ []))) (sym e)
      ∙ ap pop_front (prefixes-ladder (name ∷ names) (h, hs)) in
    let some_slash : eqb (count p) 0 ≡ false =
      ground (arith, ap length e, length-slash_prefixes p) in
    split_path-eq-prefixes p ∙ rw (some_slash, e) (ap returns l)
