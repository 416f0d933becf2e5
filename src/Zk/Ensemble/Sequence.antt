-- ===== src/Zk/Ensemble/Sequence.antt =====
-- `create_path` of cppzk.hpp in the mode that puts a number behind the path, on a server of nodes and
-- values.
use config_monitor.Base.{
  ◌+◌, ◌≤◌, ◌≡◌, inl, refl, ap, ◌∙◌, false, List, [], ◌∷◌, arith, Text, text_eq, ◌==◌, length,
  take_all, returns,
}
use config_monitor.Zk.Types.{zok, make_ec, zk_persistent_sequential, zk_open_acl_unsafe}
use config_monitor.Zk.SplitPath.{split_path}
use config_monitor.Zk.SplitPath.Names.{target, ladder, AreNames, split_path-target}
use config_monitor.Zk.Create.{CreateArgs, last_request, buffer_len, create_path, check_ttl}
use config_monitor.Zk.Value.{get_path_value, get_path_value-node, read_of}
use config_monitor.Zk.Ensemble.{Ensemble, EnsembleLaws, reader}
use config_monitor.Zk.Ensemble.Creation.{
  IsAllowed, climb, created, create_path-create_split, create_split-last,
}

module _ (e : Ensemble) (laws : EnsembleLaws e) where
  numbers : (a : CreateArgs) → a.mode ≡ zk_persistent_sequential → check_ttl a ≡ returns tt
  unfolding check_ttl
  numbers a mode = rw (mode) refl

  -- A sequential path gets another name, of ten more bytes at most, which fits the buffer.
  pub create_path_numbered :
      (s : e.zoo.Server) (a : CreateArgs) (name : Text) (names : List Text)
      → AreNames (name ∷ names)
      → a.path ≡ target [] (name ∷ names)
      → a.mode ≡ zk_persistent_sequential
      → a.acl ≡ zk_open_acl_unsafe
      → IsAllowed e laws s [] (name ∷ names)
      → (s' : e.zoo.Server) × (new_path : Text) × (create_path e.zoo s a
          ≡ returns (s', make_ec zok, new_path))
        × ((new_path == a.path) ≡ false)
        × (get_path_value (reader e) s' s' new_path ≡ returns (make_ec zok, a.value))
  create_path_numbered s a name names h path mode unsafe allows =
      let (s', went, up) = climb e laws s a.acl [] name names (inl refl) h unsafe allows in
      let r = last_request a a.path in
      let (new_path, rc, named, other, holds) =
        laws.numbered s' r up.parent up.name (path ∙ up.split) up.plain up.fit unsafe up.room
          (rw mode refl) in
      let s'' = (e.zoo.complete_create s' r).0 in
      let short : length new_path ≤ length a.path + 10 = rw named at (laws.creates.named s' r) in
      (
        s'',
        new_path,
        create_path-create_split e laws s a (ladder [] (name ∷ names)) (numbers a mode)
              (ap split_path path ∙ split_path-target name names h)
            ∙ ap returns (create_split-last e laws s s' a (ladder [] (name ∷ names)) went)
            ∙ rw (created e laws s' r (buffer_len a.path)) (
                rw (rc, named)
                  (ap (λ t. returns (s'', make_ec zok, t))
                    (take_all _ new_path (omega (arith, short))))),
        other,
        get_path_value-node (reader e) laws.reads s'' s'' new_path refl ∙ ap read_of holds,
      )
