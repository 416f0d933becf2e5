-- ===== src/Zk/Ensemble.antt =====
-- The nodes and values that the synchronous operations of cppzk.hpp share, on one server.
pub mod Creation
pub mod Deletion
pub mod RoundTrip
pub mod Sequence
use config_monitor.Base.{
  ℕ, ◌≡◌, ◌≢◌, ◌⊎◌, Bool, true, false, not, ◌&&◌, eqb, leb, ltb, Option, none, some, List, [], ◌∷◌,
  Text, contains, text_eq, ◌==◌, if◌then◌else◌, All,
}
use config_monitor.Zk.Types.{ℤ, Rc, zok, znonode, znodeexists, failed, zk_open_acl_unsafe}
use config_monitor.Zk.SplitPath.{count}
use config_monitor.Zk.Client.{Zoo, CreateRequest, CreateLaws, DeleteLaws}
use config_monitor.Zk.Delete.{child_path}
use config_monitor.Zk.Delete.Nodes.{NodeLaws}
use config_monitor.Zk.Value.{ZooGet, GetLaws}
use config_monitor.Zk.Setter.{ZooSet, SetLaws}

-- The calls of the C client on the same server.
pub record Ensemble : Type 1 where
  pub zoo : Zoo
  pub get : zoo.Server → Text → ℕ → Rc × Text × ℤ × ℕ
  pub set : ZooSet zoo.Server
  -- What the completion of `zoo_awget` is called with.
  pub complete_get : zoo.Server → Text → Rc × Option Text

abbrev pub reader : Ensemble → ZooGet
reader e = record { Server = e.zoo.Server; get = e.get }

abbrev pub is_there : Option (Option Text) → Bool
is_there none = false
is_there (some v) = true

abbrev pub IsDistinct : List Text → Type 0
IsDistinct [] = Unit
IsDistinct (n ∷ rest) = (contains rest n ≡ false) × IsDistinct rest

-- A byte that a path may hold: no control character, and none beyond those of ASCII.
abbrev printable : Text → Bool
printable [] = true
printable (c ∷ rest) = (leb 32 c && ltb c 127) && printable rest

-- A name for a node: not empty, and neither `.` nor `..`.
abbrev pub is_node_name : Text → Bool
is_node_name [] = false
is_node_name (c ∷ []) = not (eqb c 46) && printable (c ∷ [])
is_node_name (c ∷ b ∷ []) = not (eqb c 46 && eqb b 46) && printable (c ∷ b ∷ [])
is_node_name (c ∷ b ∷ a ∷ rest) = printable (c ∷ b ∷ a ∷ rest)

-- What zookeeper.h says of them, for a client that accepts every request and may delete and write
-- the nodes that it finds, where a node that `grants` can have children and lets this client make them: a node with
-- a valid name and an open list is created below one that grants, or below the root, unless it is
-- there itself, and grants then; a persistent one has the name
-- asked for, a sequential one another name; a value is set exactly where there is a node;
-- a listing names each child once, and a node without any can be deleted.
pub record EnsembleLaws (e : Ensemble) : Type 0 where
  pub creates : CreateLaws e.zoo
  pub reads : GetLaws (reader e)
  pub writes : SetLaws (reader e) reads e.set
  pub deletes : DeleteLaws e.zoo
  pub nodes : NodeLaws e.zoo
  pub nodes_there : (s : e.zoo.Server) (p : Text) → nodes.exists s p ≡ is_there (reads.node s p)
  pub lists_there :
      (s : e.zoo.Server) (p : Text) → reads.node s p ≢ none → (e.zoo.get_children s p).0 ≡ zok
  pub lists_names :
      (s : e.zoo.Server) (p : Text) → All (λ n. count n ≡ 0) (e.zoo.get_children s p).1
  pub lists_distinct : (s : e.zoo.Server) (p : Text) → IsDistinct (e.zoo.get_children s p).1
  pub answers_get :
      (s : e.zoo.Server) (p : Text)
      → e.complete_get s p ≡ elim (reads.node s p) [ none ↦ (znonode, none) | some v ↦ (zok, v) ]
  pub lists_missing :
      (s : e.zoo.Server) (p : Text)
      → reads.node s p ≡ none
      → failed (e.zoo.get_children s p).0 ≡ true
  pub accepts_create :
      (s : e.zoo.Server) (r : CreateRequest) → failed (e.zoo.submit_create s r) ≡ false
  pub accepts_set : (s : e.zoo.Server) (p v : Text) → failed (e.set.submit_set s p v) ≡ false
  pub grants : e.zoo.Server → Text → Bool
  pub made :
      (s : e.zoo.Server) (r : CreateRequest) (parent name : Text)
      → r.path ≡ child_path parent name
      → count name ≡ 0
      → is_node_name name ≡ true
      → r.acl ≡ zk_open_acl_unsafe
      → (parent ≡ []) ⊎ (reads.node s parent ≢ none) × (grants s parent ≡ true)
      → r.mode ≡ 0
      → reads.node s r.path ≡ none
      → ((e.zoo.complete_create s r).1 ≡ zok)
        × ((e.zoo.complete_create s r).2 ≡ some r.path)
        × ((q : Text)
            → reads.node (e.zoo.complete_create s r).0 q
              ≡ (if q == r.path then some r.value else reads.node s q))
        × ((q : Text)
            → grants (e.zoo.complete_create s r).0 q ≡ (if q == r.path then true else grants s q))
  pub taken :
      (s : e.zoo.Server) (r : CreateRequest) (parent name : Text)
      → r.path ≡ child_path parent name
      → count name ≡ 0
      → is_node_name name ≡ true
      → r.acl ≡ zk_open_acl_unsafe
      → (parent ≡ []) ⊎ (reads.node s parent ≢ none) × (grants s parent ≡ true)
      → r.mode ≡ 0
      → reads.node s r.path ≢ none
      → e.zoo.complete_create s r ≡ (s, znodeexists, none)
  pub numbered :
      (s : e.zoo.Server) (r : CreateRequest) (parent name : Text)
      → r.path ≡ child_path parent name
      → count name ≡ 0
      → is_node_name name ≡ true
      → r.acl ≡ zk_open_acl_unsafe
      → (parent ≡ []) ⊎ (reads.node s parent ≢ none) × (grants s parent ≡ true)
      → r.mode ≡ 2
      → (new_path : Text) × ((e.zoo.complete_create s r).1 ≡ zok)
        × ((e.zoo.complete_create s r).2 ≡ some new_path)
        × ((new_path == r.path) ≡ false)
        × (reads.node (e.zoo.complete_create s r).0 new_path ≡ some r.value)
  pub set_there :
      (s : e.zoo.Server) (p v : Text) → reads.node s p ≢ none → failed (e.set.set s p v).1 ≡ false
  pub set_missing :
      (s : e.zoo.Server) (p v : Text) → reads.node s p ≡ none → failed (e.set.set s p v).1 ≡ true
