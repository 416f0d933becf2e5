-- ===== src/Zk/Tests/Shelf.antt =====
-- A server with two nodes at most, `/a` and `/a/b`, that keeps what zookeeper.h promises.
use config_monitor.Base.{
  ℕ, ◌-◌, ◌≡◌, refl, Bool, true, false, not, ◌&&◌, ◌||◌, Option, none, some, List, [], ◌∷◌, arith,
  Text, text, text_eq, ◌==◌, contains, take, take_all, if◌then◌else◌, inl, inr, ◌⊎◌, ◌≢◌, ◌∙◌,
}
use config_monitor.Zk.Types.{Rc, zok, znonode, znodeexists, other, failed, create_error}
use config_monitor.Zk.SplitPath.{count}
use config_monitor.Zk.Client.{CreateRequest, Zoo, CreateLaws, DeleteLaws, or_empty}
use config_monitor.Zk.Delete.{child_path}
use config_monitor.Zk.Create.{buffer_len}
use config_monitor.Zk.Create.Effects.{Nodes}
use config_monitor.Zk.Delete.Nodes.{NodeLaws}

abbrev pub outer : Text
outer = text "/a"

abbrev pub inner : Text
inner = text "/a/b"

-- Whether `/a` is there, and whether `/a/b` is.
abbrev pub Nodes2 : Type 0
Nodes2 = Bool × Bool

abbrev pub on_shelf : Nodes2 → Text → Bool
on_shelf (a, b) p = if p == outer then a else if p == inner then b else false

abbrev put : Nodes2 → Text → Option (List ℕ) → Nodes2 × Rc × Option Text
put (a, b) p v =
    if p == outer
    then (if a then ((a, b), znodeexists, none) else ((true, b), zok, some p))
    else if p == inner
    then (if b then ((a, b), znodeexists, none) else ((a, true), zok, some p))
    else ((a, b), other 8, none)

abbrev drop_node : Nodes2 → Text → Nodes2 × Rc
drop_node (a, b) p =
    if p == outer
    then (if a && not b then ((false, b), zok) else ((a, b), other 111))
    else if p == inner
    then (if b then ((a, false), zok) else ((a, b), znonode))
    else ((a, b), znonode)

abbrev children_of : Nodes2 → Text → Rc × List Text
children_of (a, b) p =
    if p == outer && a
    then (zok, if b then text "b" ∷ [] else [])
    else if p == inner && b
    then (zok, [])
    else (znonode, [])

-- A picky client refuses a request for any other path at once.
abbrev pub taken : Bool → Text → Rc
taken picky p = if picky && not (p == outer || p == inner) then other 8 else zok

abbrev pub shelf : Bool → Zoo
shelf picky = record {
  Server = Nodes2;
  create2_ttl = λ s r n.
      let (s', rc, name) = put s r.path r.value in
      if failed (taken picky r.path)
      then (s, taken picky r.path, [])
      else (s', rc, take (n - 1) (or_empty name));
  submit_create = λ s r. taken picky r.path;
  complete_create = λ s r. put s r.path r.value;
  delete = drop_node;
  submit_delete = λ s p. zok;
  complete_delete = drop_node;
  get_children = children_of;
  submit_children = λ s p. zok;
  complete_children = λ s p. let (rc, l) = children_of s p in (rc, some l);
}

pub shelf-CreateLaws : (picky : Bool) → CreateLaws (shelf picky)
shelf-CreateLaws picky = record {
  refused = λ s r n e. ground arith;
  awaited = λ s r n e. ground arith;
  named = λ s r. ground arith;
  unnamed = λ s r e. ground arith;
}

pub shelf-DeleteLaws : (picky : Bool) → DeleteLaws (shelf picky)
shelf-DeleteLaws picky = record {
  accepts_children = λ s p. refl;
  accepts_delete = λ s p. refl;
  children_rc = λ s p. refl;
  children_names = λ s p. refl;
  deleted = λ s p. refl;
}

pub take_all_of : (p : Text) → take (buffer_len p - 1) p ≡ p
take_all_of p = take_all (buffer_len p - 1) p (omega arith)

pub stored :
    (picky : Bool) (s : Nodes2) (r : CreateRequest) (n : ℕ)
    → create_error ((shelf picky).create2_ttl s r n).1 ≡ false
    → on_shelf ((shelf picky).create2_ttl s r n).0 r.path ≡ true
stored picky s r n e = ground arith

pub stored_name :
    (picky : Bool) (s : Nodes2) (r : CreateRequest)
    → failed ((shelf picky).create2_ttl s r (buffer_len r.path)).1 ≡ false
    → on_shelf
        ((shelf picky).create2_ttl s r (buffer_len r.path)).0
        ((shelf picky).create2_ttl s r (buffer_len r.path)).2
      ≡ true
stored_name picky s r e = ground (arith, take_all_of r.path)

pub kept :
    (picky : Bool) (s : Nodes2) (r : CreateRequest) (n : ℕ) (q : Text)
    → on_shelf s q ≡ true
    → on_shelf ((shelf picky).create2_ttl s r n).0 q ≡ true
kept picky s r n q e = ground arith

unfoldable pub shelf-Nodes : (picky : Bool) → Nodes (shelf picky)
shelf-Nodes picky = record {
  exists = on_shelf;
  persistent = λ s r n m e. stored picky s r n e;
  named = stored_name picky;
  kept = kept picky;
}

-- A path is one of the two, or neither.
which : (p : Text) → (p ≡ outer) ⊎ ((p ≡ inner) ⊎ ((p ≢ outer) × (p ≢ inner)))
which p = ground (arith, text_eq.dec p outer, text_eq.dec p inner)

abbrev drop_first : Bool → Bool → Nodes2 × Rc
drop_first a b = if a && not b then ((false, b), zok) else ((a, b), other 111)

abbrev drop_second : Bool → Bool → Nodes2 × Rc
drop_second a b = if b then ((a, false), zok) else ((a, b), znonode)

drop_outer : (s : Nodes2) → drop_node s outer ≡ drop_first s.0 s.1
drop_outer s = ground arith

drop_inner : (s : Nodes2) → drop_node s inner ≡ drop_second s.0 s.1
drop_inner s = ground arith

drop_other : (s : Nodes2) (p : Text) → p ≢ outer → p ≢ inner → drop_node s p ≡ (s, znonode)
drop_other s p m n = ground arith

-- A deletion that succeeds removes its path, and no other.
abbrev Removes : Nodes2 → Text → Text → Type 0
Removes s p q =
    (drop_node s p).1 ≡ zok → on_shelf (drop_node s p).0 q ≡ (on_shelf s q && not (q == p))

removed_outer : (s : Nodes2) (q : Text) → Removes s outer q
removed_outer s q e = rw (drop_outer s) (gone s.0 s.1 (rw (drop_outer s) at e))
  where
    gone :
        (a b : Bool)
        → (drop_first a b).1 ≡ zok
        → on_shelf (drop_first a b).0 q ≡ (on_shelf (a, b) q && not (q == outer))
    gone true false h = ground arith
    gone true true h = absurd (ground arith)
    gone false b h = absurd (ground arith)

removed_inner : (s : Nodes2) (q : Text) → Removes s inner q
removed_inner s q e = rw (drop_inner s) (gone s.0 s.1 (rw (drop_inner s) at e))
  where
    gone :
        (a b : Bool)
        → (drop_second a b).1 ≡ zok
        → on_shelf (drop_second a b).0 q ≡ (on_shelf (a, b) q && not (q == inner))
    gone a true h = elim (which q) [
      | inl o ↦ rw o (ground arith)
      | inr (inl i) ↦ rw i (ground arith)
      | inr (inr (m, n)) ↦ ground arith
    ]
    gone a false h = absurd (ground arith)

pub removed : (s : Nodes2) (p q : Text) → Removes s p q
removed s p q e = elim (which p) [
  | inl o ↦ rw o (removed_outer s q (rw o at e))
  | inr (inl i) ↦ rw i (removed_inner s q (rw i at e))
  | inr (inr (m, n)) ↦ absurd (ground (arith, drop_other s p m n))
]

is_outer : (s : Nodes2) → s.0 ≡ on_shelf s outer
is_outer s = ground arith

is_inner : (s : Nodes2) → s.1 ≡ on_shelf s inner
is_inner s = ground arith

bare_b : count (text "b") ≡ 0
unfolding count
bare_b = refl

emptied : (a b : Bool) → a ≡ true → b ≡ false → (drop_first a b).1 ≡ zok
emptied a b there alone = ground arith

pub removable :
    (s : Nodes2) (p : Text)
    → on_shelf s p ≡ true
    → ((n : Text) → count n ≡ 0 → on_shelf s (child_path p n) ≡ false)
    → (drop_node s p).1 ≡ zok
removable s p there alone = elim (which p) [
  | inl o ↦
      rw (o, drop_outer s)
        (emptied s.0 s.1 (is_outer s ∙ (rw o at there))
          (is_inner s ∙ (rw o at alone) (text "b") bare_b))
  | inr (inl i) ↦ rw (i, drop_inner s) (ground (arith, is_inner s ∙ (rw i at there)))
  | inr (inr (m, n)) ↦ absurd (ground arith)
]

shut_children :
    (s : Nodes2)
    → children_of s outer
      ≡ (if s.0 then (zok, if s.1 then text "b" ∷ [] else []) else (znonode, []))
shut_children s = ground arith

within_outer :
    (s : Nodes2) (n : Text)
    → on_shelf s (child_path outer n) ≡ (if n == text "b" then s.1 else false)
within_outer s n = elim (text_eq.dec n (text "b")) [
  | yes b ↦ rw b (ground arith)
  | no k ↦ ground arith
]

within_inner : (s : Nodes2) (n : Text) → on_shelf s (child_path inner n) ≡ false
within_inner s n = ground arith

pub listed :
    (s : Nodes2) (p n : Text)
    → (children_of s p).0 ≡ zok
    → on_shelf s (child_path p n) ≡ contains (children_of s p).1 n
listed s p n e = elim (which p) [
  | inl o ↦ rw o (rw (within_outer s n) (ground (arith, shut_children s, rw o at e)))
  | inr (inl i) ↦ rw i (rw (within_inner s n) (ground (arith, rw i at e)))
  | inr (inr (m, k)) ↦ absurd (ground arith)
]

unfoldable pub shelf-NodeLaws : (picky : Bool) → NodeLaws (shelf picky)
shelf-NodeLaws picky = record {
  exists = on_shelf;
  removable = removable;
  removed = removed;
  listed = λ s p n e free. listed s p n e;
}
