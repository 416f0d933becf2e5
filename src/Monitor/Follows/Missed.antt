-- ===== src/Monitor/Follows/Missed.antt =====
-- Changes of a watched node that the callback of `watch_path` takes for nothing.
use mathlib.Core.Path.{subst}
use config_monitor.Base.{ℕ, ◌≡◌, refl, sym, true, false, Option, none, some, List, [], ◌∷◌, Text}
use config_monitor.Zk.Types.{ZkEvent, is_delete_event}
use config_monitor.Monitor.{Callback, ConfigMonitor, Notification, watch_path}
use config_monitor.Monitor.Follows.{Node, Followed, Turn, becomes, turns, settle}
use config_monitor.Monitor.Follows.Watched.{first_asked, after, AreUnmissed}
use config_monitor.Monitor.Follows.Invariant.{IsFollowing, Says}
use config_monitor.Monitor.Follows.Turns.{state, becomes_goes}
use config_monitor.Monitor.Follows.Settling.{final, settle_lem, settle-Says}
use config_monitor.Monitor.Follows.Current.{started, started-IsFollowing, ran}

module _ (p : Text) (id : ℕ) (cb : Callback) where
  -- Two changes at once, and then what is out arrives.
  abbrev pub Leaves : Node → Node → Followed → Type 0
  Leaves n1 n2 f =
      (f1 f2 : Followed) × (turns p id (becomes n1 ∷ becomes n2 ∷ []) f ≡ some f1)
      × (settle p id f1 ≡ some f2)
      × (f2.node ≡ n2)
      × (f2.told ≡ f.told)

  module _ (v : Option Text) (eve : ZkEvent) (m : ConfigMonitor) (told : List Notification)
      (k : IsFollowing p id cb false eve m [] told) where
    changed_then_deleted :
        (u : Option Text) → Leaves (some u) none (state p id cb (some v) m false [] told)
    unfolding turns is_delete_event
    changed_then_deleted u =
        let (m1, went, k1) = becomes_goes p id cb m [] told (some u) (some v) false eve k in
        let (m2, goes, k2) = becomes_goes p id cb m1 [] told none (some u) true _ k1 in
        let (m3, done, _) = settle_lem p id cb none true _ m2 [] told k2 in
        (_, _, rw (turns, went, goes) refl, done, refl, refl)

    deleted_then_made :
        (u : Option Text) → Leaves none (some u) (state p id cb (some v) m false [] told)
    unfolding turns is_delete_event
    deleted_then_made u =
        let (m1, went, k1) = becomes_goes p id cb m [] told none (some v) false eve k in
        let (m2, goes, k2) = becomes_goes p id cb m1 [] told (some u) none true _ k1 in
        let (m3, done, _) = settle_lem p id cb (some u) true _ m2 [] told k2 in
        (_, _, rw (turns, went, goes) refl, done, refl, refl)

-- When such a sequence of changes, answers and reads from `watch_path`, each answer finding the
-- node as the event before it left it, ends with a node that is there, then once all has
-- arrived the latest word is `changed` with its value. If the node is then changed and deleted
-- before the answer to the question that the change raises, the user is told no more, though
-- the node is gone; and if it is then deleted and made again before that answer, no more
-- either, though it is a new node.
pub watch_path_misses :
    (m : ConfigMonitor) (p : Text) (cb : Callback) (n : Node) (ts : List Turn) (v : Option Text)
    (u : Option Text)
    → AreUnmissed ts (first_asked n)
    → (after ts (first_asked n)).node ≡ some v
    → let id = m.client.next in
      (f f' : Followed) × (turns p id ts (started n (watch_path p cb m).state) ≡ some f)
      × (settle p id f ≡ some f')
      × Says p id cb (some v) f'.told
      × Leaves p id cb (some u) none f'
      × Leaves p id cb none (some u) f'
watch_path_misses m p cb n ts v u a there =
    let id = m.client.next in
    let w = after ts (first_asked n) in
    let (m1, reading, told, all, k, keeps) =
      ran p id cb ts (first_asked n) (watch_path p cb m).state [] [] (started-IsFollowing m p cb) in
    let (m2, done, k2) = settle_lem p id cb w.node w.asking w.event m1 reading told k in
    let (last, now) = keeps a tt in
    let said = settle-Says p id cb w.node w.asking w.event m1 reading told k last now in
    let told' = final p id cb w.node w.asking w.event m1 reading told in
    (
      _,
      _,
      all,
      done,
      subst (λ x. Says p id cb x told') there said,
      subst (λ x. Leaves p id cb (some u) none (state p id cb x m2 false [] told')) (sym there)
          (changed_then_deleted p id cb v w.event m2 told' k2 u),
      subst (λ x. Leaves p id cb none (some u) (state p id cb x m2 false [] told')) (sym there)
          (deleted_then_made p id cb v w.event m2 told' k2 u),
    )
