-- ===== src/CppzkTest/Deletion/Passes.antt =====
-- The tests of deletion on any server that keeps what zookeeper.h says.
use config_monitor.Base.{
  All, true, ◌≤◌, ◌≡◌, ◌≢◌, refl, ◌∙◌, none, List, [], ◌∷◌, arith, Text, text, text_eq, length,
  returns, ◌>>=◌,
}
use config_monitor.Zk.Types.{negsuc, has_error, make_ec, ErrorCode}
use config_monitor.Zk.SplitPath.{slash, count}
use config_monitor.Zk.SplitPath.Names.{target, AreNames, count-append, higher_apart}
use config_monitor.Zk.Delete.{child_path}
use config_monitor.Zk.Ensemble.{Ensemble, EnsembleLaws, is_node_name}
use config_monitor.Zk.Ensemble.Creation.{
  node, Opens, IsAllowed, IsAllowed-later, untouched-IsAllowed,
}
use config_monitor.Zk.Ensemble.Deletion.{IsShallow, delete_path-tree}
use config_monitor.Monitor.{Callback}
use config_monitor.Monitor.Facade.{persistent, create_path, del_path}
use config_monitor.Monitor.Facade.Calls.{async_del_path_told}
use config_monitor.CppzkTest.{passed, prefix}
use config_monitor.CppzkTest.Facts.{created}
use config_monitor.CppzkTest.Deletion.{make_tree, test_del_path, test_async_del_path}

module _ (e : Ensemble) (laws : EnsembleLaws e) where
  -- A path of at most ten names, made, leaves the tree that shallow.
  grown :
      (s : e.zoo.Server) (name : Text) (names : List Text)
      → AreNames (name ∷ names)
      → length names ≤ 9
      → IsAllowed e laws s [] (name ∷ names)
      → IsShallow e laws s prefix 9
      → node e laws s prefix ≢ none
      → (s' : e.zoo.Server) × (new_path : Text) × (ec : ErrorCode) × (create_path e.zoo s
            (target [] (name ∷ names))
            none
            persistent
            (negsuc 0)
          ≡ returns (s', ec, new_path))
        × IsShallow e laws s' prefix 9
        × (node e laws s' prefix ≢ none)
        × Opens e laws s s'
  unfolding count
  grown s name names plain short allows low there =
      let (s', made, _, others, stays, opens) = created e laws s name names none plain allows in
      (
        s',
        _,
        _,
        made,
        λ r h.
            others (child_path prefix r) (
              higher_apart (child_path prefix r) [] (name ∷ names) plain
                (omega (arith, count-append prefix (slash ∷ r), h, short)))
            ∙ low r h,
        stays prefix there,
        opens,
      )

  abbrev digits : List Text
  digits =
      text "1"
      ∷ text "2"
      ∷ text "3"
      ∷ text "4"
      ∷ text "5"
      ∷ text "6"
      ∷ text "7"
      ∷ text "8"
      ∷ text "9"
      ∷ []

  abbrev digits_back : List Text
  digits_back =
      text "9"
      ∷ text "8"
      ∷ text "7"
      ∷ text "6"
      ∷ text "5"
      ∷ text "4"
      ∷ text "3"
      ∷ text "2"
      ∷ text "1"
      ∷ []

  plain_digits : AreNames (text "test" ∷ digits) × AreNames (text "test" ∷ digits_back)
  unfolding count
  plain_digits = (
    (refl, (refl, (refl, (refl, (refl, (refl, (refl, (refl, (refl, (refl, tt)))))))))),
    (refl, (refl, (refl, (refl, (refl, (refl, (refl, (refl, (refl, (refl, tt)))))))))),
  )

  fit_digits :
      All (λ n. is_node_name n ≡ true) digits × All (λ n. is_node_name n ≡ true) digits_back
  fit_digits = (
    (refl, (refl, (refl, (refl, (refl, (refl, (refl, (refl, (refl, tt))))))))),
    (refl, (refl, (refl, (refl, (refl, (refl, (refl, (refl, (refl, tt))))))))),
  )

  tree_made :
      (s : e.zoo.Server)
      → node e laws s prefix ≡ none
      → IsShallow e laws s prefix 0
      → (s' : e.zoo.Server) × (make_tree e s ≡ returns s')
        × IsShallow e laws s' prefix 9
        × (node e laws s' prefix ≢ none)
  unfolding count
  tree_made s free low =
      let up : IsAllowed e laws s [] (text "test" ∷ digits) = (
        refl,
        rw free refl,
        untouched-IsAllowed e laws s prefix digits (λ r. low r (omega arith)) fit_digits.0,
      ) in
      let down : IsAllowed e laws s [] (text "test" ∷ digits_back) = (
        refl,
        rw free refl,
        untouched-IsAllowed e laws s prefix digits_back (λ r. low r (omega arith)) fit_digits.1,
      ) in
      let (s1, made1, holds, others, _, opens1) =
        created e laws s (text "test") [] none (refl, tt) (refl, rw free refl, tt) in
      let low1 : IsShallow e laws s1 prefix 9 = λ r h.
        others (child_path prefix r) (
          higher_apart (child_path prefix r) [] (text "test" ∷ []) (refl, tt)
            (omega (arith, count-append prefix (slash ∷ r), h)))
        ∙ low r (omega arith) in
      let (s2, _, _, made2, low2, there2, opens2) =
        grown s1 (text "test") digits plain_digits.0 (omega arith)
          (IsAllowed-later e laws s s1 [] (text "test" ∷ digits) opens1 up) low1 (λ q. cc) in
      let (s3, _, _, made3, low3, there3, _) =
        grown s2 (text "test") digits_back plain_digits.1 (omega arith)
          (IsAllowed-later e laws s s2 [] (text "test" ∷ digits_back) (λ q h. opens2 q (opens1 q h))
            down)
          low2 there2 in
      (s3, rw (made1, ◌>>=◌, made2, made3) refl, low3, there3)

  pub del_path_passes :
      (s : e.zoo.Server)
      → node e laws s prefix ≡ none
      → IsShallow e laws s prefix 0
      → test_del_path e s ≡ passed
  unfolding test_del_path del_path has_error
  del_path_passes s free low =
      let (s', made, low', there) = tree_made s free low in
      let (_, done, _) = delete_path-tree e laws s' 9 prefix there low' in
      rw (made, ◌>>=◌, del_path, done) refl

  pub async_del_path_passes :
      (pro : Callback) (s : e.zoo.Server)
      → node e laws s prefix ≡ none
      → IsShallow e laws s prefix 0
      → test_async_del_path e pro s ≡ passed
  unfolding test_async_del_path del_path has_error make_ec
  async_del_path_passes pro s free low =
      let (s', made, low', there) = tree_made s free low in
      let (_, done, _) = delete_path-tree e laws s' 9 prefix there low' in
      rw (made, ◌>>=◌, async_del_path_told e.zoo laws.deletes 9 s' prefix pro, del_path, done) refl
