-- ===== src/Zk/Delete/Nodes.antt =====
-- The nodes of a server, and a list of paths that the loop of `delete_path` can delete in order.
use config_monitor.Base.{
  ◌≡◌, refl, Bool, true, false, not, ◌&&◌, ◌||◌, List, [], ◌∷◌, ◌++◌, arith, Text, text_eq, ◌==◌,
  contains,
}
use config_monitor.Zk.Types.{zok, no_error}
use config_monitor.Zk.SplitPath.{count}
use config_monitor.Zk.Client.{Zoo}
use config_monitor.Zk.Delete.{child_path, delete_all}

-- What the server promises of its nodes where this client may delete all of them: a node with no
-- child can be deleted, a deletion removes one node, and a listing names the children. A name holds
-- no slash. The paths are those below a node other than `/`, whose children have paths of one slash.
pub record NodeLaws (z : Zoo) : Type 0 where
  pub exists : z.Server → Text → Bool
  pub removable :
      (s : z.Server) (p : Text)
      → exists s p ≡ true
      → ((n : Text) → count n ≡ 0 → exists s (child_path p n) ≡ false)
      → (z.delete s p).1 ≡ zok
  pub removed :
      (s : z.Server) (p q : Text)
      → (z.delete s p).1 ≡ zok
      → exists (z.delete s p).0 q ≡ (exists s q && not (q == p))
  pub listed :
      (s : z.Server) (p n : Text)
      → (z.get_children s p).0 ≡ zok
      → count n ≡ 0
      → exists s (child_path p n) ≡ contains (z.get_children s p).1 n

-- The list can be deleted from the front when `done` is gone already: each entry is there, is not
-- in `done`, and its children all are.
abbrev pub Deletable : (Text → Bool) → List Text → List Text → Type 0
Deletable ex done [] = Unit
Deletable ex done (q ∷ l) =
    (ex q ≡ true)
    × (contains done q ≡ false)
    × ((n : Text)
        → count n ≡ 0
        → ex (child_path q n) ≡ true
        → contains done (child_path q n) ≡ true)
    × Deletable ex (q ∷ done) l

pub push_all : List Text → List Text → List Text
push_all [] done = done
push_all (x ∷ xs) done = push_all xs (x ∷ done)

pub contains-push_all :
    (xs done : List Text) (q : Text)
    → contains (push_all xs done) q ≡ (contains done q || contains xs q)
unfolding push_all
contains-push_all [] done q = ground arith
contains-push_all (x ∷ xs) done q = ground (arith, contains-push_all xs (x ∷ done) q)

pub Deletable-append :
    (ex : Text → Bool) (done xs ys : List Text)
    → Deletable ex done xs
    → Deletable ex (push_all xs done) ys
    → Deletable ex done (xs ++ ys)
unfolding push_all
Deletable-append ex done [] ys a b = b
Deletable-append ex done (x ∷ xs) ys (e, c, d, a) b =
    (e, c, d, Deletable-append ex (x ∷ done) xs ys a b)

module _ (z : Zoo) (laws : NodeLaws z) where
  open laws use {exists}

  pub delete_all-Deletable :
      (ex : Text → Bool) (s : z.Server) (done l : List Text)
      → ((q : Text) → exists s q ≡ (ex q && not (contains done q)))
      → Deletable ex done l
      → ((delete_all z s l).1 ≡ no_error)
        × ((q : Text) → exists (delete_all z s l).0 q ≡ (exists s q && not (contains l q)))
  unfolding delete_all
  delete_all-Deletable ex s done [] inv d = (refl, λ q. ground arith)
  delete_all-Deletable ex s done (p ∷ l) inv (e, c, kids, d) =
      let gone : (z.delete s p).1 ≡ zok =
        laws.removable s p (ground (arith, inv p))
          (λ n h. ground (arith, inv (child_path p n), kids n h)) in
      let (ok, rest) =
        delete_all-Deletable ex (z.delete s p).0 (p ∷ done) l
          (λ q. ground (arith, inv q, laws.removed s p q gone)) d in
      (rw gone ok, λ q. rw gone (ground (arith, rest q, laws.removed s p q gone)))
