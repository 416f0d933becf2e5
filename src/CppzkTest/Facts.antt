-- ===== src/CppzkTest/Facts.antt =====
-- What the operations in the tests of unit_test/cppzk_ut.cpp do on any server that keeps what
-- zookeeper.h says.
use config_monitor.Base.{
  ◌≡◌, refl, ap, ◌∙◌, true, false, Option, none, some, List, [], ◌∷◌, arith, Text, text, text_eq,
  ◌==◌, returns,
}
use config_monitor.Zk.Types.{negsuc, zok, znodeexists, ErrorCode, make_ec}
use config_monitor.Zk.SplitPath.{count}
use config_monitor.Zk.SplitPath.Names.{target, ladder, AreNames}
use config_monitor.Zk.Value.{read_of, get_path_value-node}
use config_monitor.Zk.Setter as Setter
use config_monitor.Zk.Ensemble.{Ensemble, EnsembleLaws, reader}
use config_monitor.Zk.Ensemble.Sequence.{create_path_numbered}
use config_monitor.Zk.Ensemble.Creation.{
  node, IsApart, Stays, Opens, IsAllowed, IsAllowed-later, outcome_of, value_after,
  create_path-node,
}
use config_monitor.Monitor.{Callback}
use config_monitor.Monitor.Facade.{
  persistent, persistent_sequential, zk_mode, operated_call, create_path, async_set_path_value,
  get_path_value,
}
use config_monitor.CppzkTest.{prefix, first_child, grandchild}

pub itself : (t : Text) → (t == t) ≡ true
itself t = ground arith

module _ (e : Ensemble) (laws : EnsembleLaws e) where
  pub created :
      (s : e.zoo.Server) (name : Text) (names : List Text) (value : Option Text)
      → AreNames (name ∷ names)
      → IsAllowed e laws s [] (name ∷ names)
      → let path = target [] (name ∷ names) in
        let old = node e laws s path in
        (s' : e.zoo.Server) × (create_path e.zoo s path value persistent (negsuc 0)
          ≡ (let (ec, new_path) = outcome_of e laws old path in returns (s', ec, new_path)))
        × (node e laws s' path ≡ some (value_after e laws old value))
        × ((q : Text)
            → IsApart e laws q (ladder [] (name ∷ names))
            → node e laws s' q ≡ node e laws s q)
        × Stays e laws s s'
        × Opens e laws s s'
  unfolding create_path zk_mode
  created s name names value h allows =
      create_path-node e laws s _ name names h refl refl refl allows

  pub at_prefix :
      (s : e.zoo.Server)
      → node e laws s prefix ≡ none
      → (s' : e.zoo.Server) × (create_path e.zoo s prefix none persistent (negsuc 0)
          ≡ returns (s', make_ec zok, prefix))
        × (node e laws s' prefix ≡ some none)
  unfolding count
  at_prefix s free =
      let (s', made, holds, _, _, _) =
        created s (text "test") [] none (refl, tt) (refl, rw free refl, tt) in
      (s', rw free at made, rw free at holds)

  pub at_child :
      (s : e.zoo.Server) (value : Option Text)
      → node e laws s prefix ≡ none
      → node e laws s first_child ≡ none
      → (s' : e.zoo.Server) × (create_path e.zoo s first_child value persistent (negsuc 0)
          ≡ returns (s', make_ec zok, first_child))
        × (node e laws s' first_child ≡ some value)
  unfolding count
  at_child s value above free =
      let (s', made, holds, _, _, _) =
        created s (text "test") (text "1" ∷ []) value (refl, (refl, tt))
          (refl, rw above refl, (refl, rw free refl, tt)) in
      (s', rw free at made, rw free at holds)

  pub at_grandchild :
      (s : e.zoo.Server)
      → IsAllowed e laws s [] (text "test" ∷ text "1" ∷ text "2" ∷ [])
      → (s' : e.zoo.Server) × (r : ErrorCode × Text) × (s'' : e.zoo.Server) × (create_path e.zoo s
            grandchild none persistent
            (negsuc 0)
          ≡ returns (s', r.0, r.1))
        × (create_path e.zoo s' grandchild none persistent (negsuc 0)
            ≡ returns (s'', make_ec znodeexists, []))
  unfolding count
  at_grandchild s allows =
      let names : AreNames (text "test" ∷ text "1" ∷ text "2" ∷ []) = (refl, (refl, (refl, tt))) in
      let (s', made, holds, _, _, opens) =
        created s (text "test") (text "1" ∷ text "2" ∷ []) none names allows in
      let (s'', again, _, _, _, _) =
        created s' (text "test") (text "1" ∷ text "2" ∷ []) none names
          (IsAllowed-later e laws s s' [] (text "test" ∷ text "1" ∷ text "2" ∷ []) opens allows) in
      (s', _, s'', made, rw holds at again)

  pub numbered :
      (s : e.zoo.Server)
      → IsAllowed e laws s [] (text "test" ∷ text "1" ∷ [])
      → (s' : e.zoo.Server) × (new_path : Text) × (create_path e.zoo s first_child
            (some (text "123456"))
            persistent_sequential
            (negsuc 0)
          ≡ returns (s', make_ec zok, new_path))
        × ((new_path == first_child) ≡ false)
        × (get_path_value (reader e) s' s' new_path ≡ returns (make_ec zok, some (text "123456")))
  unfolding create_path zk_mode count get_path_value
  numbered s allows =
      create_path_numbered e laws s _ (text "test") (text "1" ∷ []) (refl, (refl, tt)) refl refl
        refl allows

  pub reads :
      (s : e.zoo.Server) (path : Text) (v : Option (Option Text))
      → node e laws s path ≡ v
      → get_path_value (reader e) s s path ≡ read_of v
  unfolding get_path_value
  reads s path v h = get_path_value-node (reader e) laws.reads s s path refl ∙ ap read_of h

  pub set_told :
      (pro : Callback) (s : e.zoo.Server) (path v : Text)
      → async_set_path_value e.set s path v (some pro)
        ≡ (let (s', rc) = e.set.set s path v in (s', operated_call pro (make_ec rc) ∷ []))
  unfolding async_set_path_value Setter.async_set_path_value
  set_told pro s path v =
      ground
        (arith, laws.accepts_set s path v, laws.writes.awaited s path v (laws.accepts_set s path v))
