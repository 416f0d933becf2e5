-- ===== src/Zk/Ensemble/RoundTrip.antt =====
-- `create_path` and then `delete_path` of cppzk.hpp, on a server of nodes and values.
use mathlib.Core.Path.{subst}
use config_monitor.Base.{
  ◌≡◌, sym, ap, ◌∙◌, false, none, some, List, [], ◌∷◌, arith, Text, text_eq, ◌==◌, returns,
  Bool-cases, inl, inr,
}
use config_monitor.Zk.Types.{zok, no_error, make_ec, zk_persistent, zk_open_acl_unsafe}
use config_monitor.Zk.SplitPath.{slash, count}
use config_monitor.Zk.SplitPath.Names.{
  target, ladder, AreNames, count-append, count-target, higher_apart,
}
use config_monitor.Zk.Create.{CreateArgs, create_path}
use config_monitor.Zk.Delete.{child_path, delete_path}
use config_monitor.Zk.Ensemble.{Ensemble, EnsembleLaws, is_there}
use config_monitor.Zk.Ensemble.Creation.{
  node, IsApart, IsAllowed, Stays, apart_last, create_path-node,
}
use config_monitor.Zk.Ensemble.Deletion.{IsChildless, present, standing, delete_path-node}

module _ (e : Ensemble) (laws : EnsembleLaws e) where
  child_apart :
      (path name : Text) (names : List Text) (n : Text)
      → AreNames (name ∷ names)
      → path ≡ target [] (name ∷ names)
      → count n ≡ 0
      → IsApart e laws (child_path path n) (ladder [] (name ∷ names))
  unfolding count
  child_apart path name names n plain split h =
      higher_apart (child_path path n) [] (name ∷ names) plain (
        omega (
          arith,
          ap count split,
          count-target [] (name ∷ names) plain,
          count-append path (slash ∷ n),
          h,
        ))

  -- What was there is no path that was free, and stays when only that goes.
  Stays-removed :
      (s s' s'' : e.zoo.Server) (p : Text)
      → node e laws s p ≡ none
      → Stays e laws s s'
      → ((q : Text) → (q == p) ≡ false → is_there (node e laws s'' q) ≡ is_there (node e laws s' q))
      → Stays e laws s s''
  Stays-removed s s' s'' p free stays left q there = elim (Bool-cases (q == p)) [
    | inl same ↦
        let eq : q ≡ p = ground (arith, same) in absurd (there (ap (node e laws s) eq ∙ free))
    | inr other ↦
        standing (node e laws s'' q) (left q other ∙ present (node e laws s' q) (stays q there))
  ]

  -- On a server that obeys `EnsembleLaws`, for a persistent path with an open list, put
  -- together from valid slash-free names, that is free and has no children, where each node
  -- that is there already on the way to it grants, `create_path` returns `ZOK` and the path,
  -- and `delete_path` then reports no error; afterwards the path is gone, what was there before
  -- the creation is there, and a path that is neither this one nor an ancestor of it is there
  -- if and only if it was.
  pub create_path-delete_path :
      (s : e.zoo.Server) (a : CreateArgs) (name : Text) (names : List Text)
      → AreNames (name ∷ names)
      → a.path ≡ target [] (name ∷ names)
      → a.mode ≡ zk_persistent
      → a.acl ≡ zk_open_acl_unsafe
      → IsAllowed e laws s [] (name ∷ names)
      → node e laws s a.path ≡ none
      → IsChildless e laws s a.path
      → (s' s'' : e.zoo.Server) × (create_path e.zoo s a ≡ returns (s', make_ec zok, a.path))
        × (delete_path e.zoo 1 s' a.path ≡ some (s'', no_error))
        × (node e laws s'' a.path ≡ none)
        × Stays e laws s s''
        × ((q : Text)
            → IsApart e laws q (ladder [] (name ∷ names))
            → is_there (node e laws s'' q) ≡ is_there (node e laws s q))
  create_path-delete_path s a name names plain split mode unsafe allows free childless =
      let (s', made, holds, others, stays, _) =
        create_path-node e laws s a name names plain split mode unsafe allows in
      let (s'', done, gone, left) =
        delete_path-node e laws s' a.path (λ q. cc)
          (λ n h.
            others (child_path a.path n) (child_apart a.path name names n plain split h)
            ∙ childless n h) in
      (
        s',
        s'',
        rw free at made,
        done,
        gone,
        Stays-removed s s' s'' a.path free stays left,
        λ q apart.
            left q
              (subst (λ r. (q == r) ≡ false) (sym split) (apart_last e laws q [] name names apart))
            ∙ ap is_there (others q apart),
      )
