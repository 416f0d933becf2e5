-- ===== src/CppzkTest/Watching/Arrivals.antt =====
-- What the watch of the tests of `watch_path` tells once all is there, on any server that keeps what
-- zookeeper.h says.
use config_monitor.Base.{
  ℕ, ◌≡◌, refl, ◌∙◌, true, false, Option, none, some, List, [], ◌∷◌, arith, Text, text, text_eq,
  ◌==◌, returns,
}
use config_monitor.Zk.Types.{
  ZkEvent, zk_dummy_event, zk_created_event, zk_changed_event, zk_deleted_event, zok, negsuc,
  make_ec, is_delete_event,
}
use config_monitor.Zk.SplitPath.{count}
use config_monitor.Zk.Ensemble.{Ensemble, EnsembleLaws}
use config_monitor.Zk.Ensemble.Creation.{node}
use config_monitor.Monitor.{
  Callback, ConfigMonitor, Notification, changed, del, path_notice, watch_path,
}
use config_monitor.Monitor.Facade.{persistent, create_path}
use config_monitor.Monitor.Follows.{Node}
use config_monitor.Monitor.Follows.Invariant.{IsFollowing}
use config_monitor.Monitor.Follows.Turns.{state, becomes_goes}
use config_monitor.Monitor.Follows.Settling.{settle_lem}
use config_monitor.Monitor.Follows.Current.{started-IsFollowing}
use config_monitor.CppzkTest.Facts.{created}
use config_monitor.CppzkTest.Watching.{watch_prefix, node_at, watches, sees}

module _ (e : Ensemble) (laws : EnsembleLaws e) (pro : Callback) (m : ConfigMonitor) where
  abbrev pub id : ℕ
  id = m.client.next

  abbrev pub told_of : Node → List Notification
  told_of none = []
  told_of (some v) = path_notice pro changed v ∷ []

  -- All has arrived, and this has been told.
  abbrev pub IsQuiet : Node → ConfigMonitor → List Notification → ZkEvent → Type 0
  IsQuiet n m' told eve = IsFollowing watch_prefix id pro false eve m' [] told

  pub at_watched :
      (s : e.zoo.Server) (value : Option Text)
      → node e laws s watch_prefix ≡ none
      → (s' : e.zoo.Server) × (create_path e.zoo s watch_prefix value persistent (negsuc 0)
          ≡ returns (s', make_ec zok, watch_prefix))
        × (node e laws s' watch_prefix ≡ some value)
        × ((q : Text) → (q == watch_prefix) ≡ false → node e laws s' q ≡ node e laws s q)
  unfolding count
  at_watched s value free =
      let (s', made, holds, others, _, _) =
        created e laws s (text "watch_test") [] value (refl, tt) (refl, rw free refl, tt) in
      (s', rw free at made, rw free at holds, λ q d. others q (d, tt))

  pub node_at-node : (s : e.zoo.Server) → node_at e s ≡ node e laws s watch_prefix
  node_at-node s = ground (arith, laws.answers_get s watch_prefix)

  pub watches_lem :
      (s : e.zoo.Server) (n : Node)
      → node e laws s watch_prefix ≡ n
      → (m' : ConfigMonitor) × (eve : ZkEvent) × (watches e pro m s
          ≡ some (state watch_prefix id pro n m' false [] (told_of n)))
        × IsQuiet n m' (told_of n) eve
  unfolding watches is_delete_event
  watches_lem s none holds =
      let (m', done, k) =
        settle_lem watch_prefix id pro none true zk_dummy_event
          (watch_path watch_prefix pro m).state [] [] (started-IsFollowing m watch_prefix pro) in
      (m', zk_dummy_event, rw (node_at-node s ∙ holds) done, k)
  watches_lem s (some v) holds =
      let (m', done, k) =
        settle_lem watch_prefix id pro (some v) true zk_dummy_event
          (watch_path watch_prefix pro m).state [] [] (started-IsFollowing m watch_prefix pro) in
      (m', zk_dummy_event, rw (node_at-node s ∙ holds) done, k)

  -- A node that is made, or set.
  pub sees_lem :
      (s : e.zoo.Server) (v : Option Text) (n : Node) (m' : ConfigMonitor)
      (told : List Notification) (eve : ZkEvent)
      → node e laws s watch_prefix ≡ some v
      → IsQuiet n m' told eve
      → (m'' : ConfigMonitor) × (sees e m s (some (state watch_prefix id pro n m' false [] told))
          ≡ some
              (state watch_prefix id pro (some v) m'' false [] (path_notice pro changed v ∷ told)))
  unfolding sees is_delete_event
  sees_lem s v none m' told eve holds k =
      let (m1, went, k1) = becomes_goes watch_prefix id pro m' [] told (some v) none false eve k in
      let (m2, done, _) =
        settle_lem watch_prefix id pro (some v) true zk_created_event m1 [] told k1 in
      (m2, rw (sees, node_at-node s ∙ holds, went) done)
  sees_lem s v (some u) m' told eve holds k =
      let (m1, went, k1) =
        becomes_goes watch_prefix id pro m' [] told (some v) (some u) false eve k in
      let (m2, done, _) =
        settle_lem watch_prefix id pro (some v) true zk_changed_event m1 [] told k1 in
      (m2, rw (sees, node_at-node s ∙ holds, went) done)

  -- A node that is deleted.
  pub deletion_lem :
      (s : e.zoo.Server) (u : Option Text) (m' : ConfigMonitor) (told : List Notification)
      (eve : ZkEvent)
      → node e laws s watch_prefix ≡ none
      → IsQuiet (some u) m' told eve
      → (m'' : ConfigMonitor) × (sees e m s
            (some (state watch_prefix id pro (some u) m' false [] told))
          ≡ some (state watch_prefix id pro none m'' false [] (path_notice pro del none ∷ told)))
  unfolding sees is_delete_event
  deletion_lem s u m' told eve holds k =
      let (m1, went, k1) = becomes_goes watch_prefix id pro m' [] told none (some u) false eve k in
      let (m2, done, _) = settle_lem watch_prefix id pro none true zk_deleted_event m1 [] told k1 in
      (m2, rw (sees, node_at-node s ∙ holds, went) done)
