-- ===== src/Zk/Delete/Equivalence.antt =====
-- `async_delete_path` of cppzk.hpp against `delete_path`.
use mathlib.Core.Option
use config_monitor.Base.{
  ℕ, zero, suc, ◌≡◌, refl, inl, inr, true, false, none, some, List, [], ◌∷◌, ◌++◌, map, arith, Text,
  length, length-append, Bool-cases, Option-cases,
}
use config_monitor.Zk.Types.{
  Rc, zok, failed, ErrorCode, make_ec, has_error, zk_category, znonode, znodeexists, other,
}
use config_monitor.Zk.Client.{Zoo, DeleteLaws, or_nil}
use config_monitor.Zk.Delete.{
  child_path, Walk, walk_children, recursive_get_sub_path, delete_all, delete_path, Answer,
  answered, delete_chain, async_delete_path,
}

failed_zok : (rc : Rc) → failed rc ≡ false → rc ≡ zok
failed_zok zok h = refl
failed_zok znonode h = cc
failed_zok znodeexists h = cc
failed_zok (other n) h = cc

-- An error of a walk is of ZooKeeper's category.
abbrev IsZk : Walk → Type 0
IsZk none = Unit
IsZk (some (ec, subs)) = has_error ec ≡ true → ec.category ≡ zk_category

walk_children-IsZk :
    (visit : Text → List Text → Walk)
    → ((sub : Text) (subs : List Text) → IsZk (visit sub subs))
    → (l subs : List Text) → IsZk (walk_children visit l subs)
unfolding walk_children
walk_children-IsZk visit h [] subs = λ e. cc
walk_children-IsZk visit h (sub ∷ rest) subs = elim (Option-cases (visit sub subs)) [
  | inl e ↦ rw (e, walk_children) tt
  | inr ((ec, l), e) ↦
      let now : IsZk (some (ec, l)) = rw e at (h sub subs) in
      elim (Bool-cases (has_error ec)) [
        | inl bad ↦ rw (e, walk_children) (rw bad now)
        | inr good ↦
            rw (e, walk_children) (rw good (walk_children-IsZk visit h rest (l ++ (sub ∷ []))))
      ]
]

recursive_get_sub_path-IsZk :
    (z : Zoo) (fuel : ℕ) (s : z.Server) (path : Text) (subs : List Text)
    → IsZk (recursive_get_sub_path z fuel s path subs)
unfolding recursive_get_sub_path
recursive_get_sub_path-IsZk z zero s path subs = tt
recursive_get_sub_path-IsZk z (suc fuel) s path subs =
    elim (Bool-cases (failed (z.get_children s path).0)) [
      | inl bad ↦ rw (bad, bad) (λ e. refl)
      | inr good ↦
          rw (good, good)
            (walk_children-IsZk (recursive_get_sub_path z fuel s)
              (recursive_get_sub_path-IsZk z fuel s) _ subs)
    ]

module _ (z : Zoo) (laws : DeleteLaws z) where
  -- The callback gets the code of the synchronous result, always in ZooKeeper's category.
  abbrev pub answer : z.Server × ErrorCode → z.Server × Answer
  answer (s, ec) = (s, answered (make_ec ec.value))

  delete_chain-delete_all :
      (s : z.Server) (p : Text) (rest : List Text)
      → delete_chain z (suc (length rest)) s (p ∷ rest) ≡ some (answer (delete_all z s (p ∷ rest)))
  unfolding delete_chain delete_all
  delete_chain-delete_all s p [] =
      ground
        (arith, laws.accepts_delete s p, laws.deleted s p, failed_zok (z.complete_delete s p).1)
  delete_chain-delete_all s p (q ∷ rest) = ground (
    arith,
    laws.accepts_delete s p,
    laws.deleted s p,
    delete_chain-delete_all (z.complete_delete s p).0 q rest,
  )

  snoc_chain :
      (s : z.Server) (subs : List Text) (p : Text)
      → delete_chain z (suc (length subs)) s (subs ++ (p ∷ []))
        ≡ some (answer (delete_all z s (subs ++ (p ∷ []))))
  snoc_chain s [] p = delete_chain-delete_all s p []
  snoc_chain s (q ∷ subs) p =
      let grown : length (subs ++ (p ∷ [])) ≡ suc (length subs) =
        omega (arith, length-append subs (p ∷ [])) in
      rw (← grown) (delete_chain-delete_all s q (subs ++ (p ∷ [])))

  -- The two walks over the children are one.
  abbrev walked : ℕ → z.Server → Text → Walk
  walked fuel s path =
      walk_children (recursive_get_sub_path z fuel s)
        (map (child_path path) (or_nil (z.complete_children s path).1)) []

  -- On a server that obeys `DeleteLaws`, with the same fuel below the first level,
  -- `async_delete_path` and `delete_path` run out of it together, and otherwise leave the same
  -- server and report the same code.
  pub async_delete_path-delete_path :
      (fuel : ℕ) (s : z.Server) (path : Text)
      → async_delete_path z fuel s path ≡ Option.map answer (delete_path z (suc fuel) s path)
  unfolding async_delete_path delete_path
  async_delete_path-delete_path fuel s path = elim (Option-cases (walked fuel s path)) [
    | inl e ↦ ground (
      arith,
      e,
      laws.accepts_children s path,
      laws.children_rc s path,
      laws.children_names s path,
    )
    | inr ((ec, subs), e) ↦
        let zk : IsZk (some (ec, subs)) = rw e at (
          walk_children-IsZk (recursive_get_sub_path z fuel s)
            (recursive_get_sub_path-IsZk z fuel s)
            (map (child_path path) (or_nil (z.complete_children s path).1)) []) in
        ground (
          arith,
          e,
          zk,
          laws.accepts_children s path,
          laws.children_rc s path,
          laws.children_names s path,
          snoc_chain s subs path,
        )
  ]
