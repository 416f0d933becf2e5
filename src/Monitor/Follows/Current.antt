-- ===== src/Monitor/Follows/Current.antt =====
-- What the user has been told of a node that comes, changes and goes.
use config_monitor.Base.{
  ℕ, ◌≡◌, inr, refl, Bool, true, false, none, some, List, [], ◌∷◌, ◌++◌, arith, Text, nat_eq,
}
use config_monitor.Base.Dict.{lookup-assign}
use config_monitor.Zk.Types.{ZkEvent, zk_dummy_event, is_dummy_event}
use config_monitor.Zk.Watch.{allocate, watch_path_event}
use config_monitor.Monitor.{Callback, ConfigMonitor, Notification, watch_path}
use config_monitor.Monitor.Follows.{
  Node, Followed, Turn, becomes, answers, reads, turn, turns, settle,
}
use config_monitor.Monitor.Follows.Watched.{
  Watched, first_asked, next, after, IsUnmissedBy, IsUnmissed, AreUnmissed,
}
use config_monitor.Monitor.Follows.Invariant.{IsFollowing, Says, IsCurrent, watcher}
use config_monitor.Monitor.Follows.Turns.{state, at, change, Went, becomes_goes, read_tells}
use config_monitor.Monitor.Follows.Settling.{answers_go, answers-IsCurrent, settle_lem, settle-Says}

module _ (p : Text) (id : ℕ) (cb : Callback) where
  becomes-IsCurrent :
      (n' n : Node) (asking : Bool) (eve : ZkEvent) (reading : List ℕ) (told : List Notification)
      → IsCurrent p id cb n asking reading told
      → let w = next (becomes n') (at p id cb n asking eve) in
        IsCurrent p id cb w.node w.asking reading told
  becomes-IsCurrent n' n true eve reading told now = tt
  becomes-IsCurrent none none false eve reading told now = now
  becomes-IsCurrent (some w) none false eve reading told now = tt
  becomes-IsCurrent none (some v) false eve reading told now = tt
  becomes-IsCurrent (some w) (some v) false eve reading told now = tt

  read-IsCurrent :
      (n : Node) (asking : Bool) (x : ℕ) (xs : List ℕ) (told : List Notification)
      → IsCurrent p id cb n asking (x ∷ xs) told
      → IsCurrent p id cb n asking xs (change p id cb n ++ told)
  read-IsCurrent n true x xs told now = tt
  read-IsCurrent none false x xs told now = now
  read-IsCurrent (some v) false x xs told now = inr (told, refl)

  -- The reads that are out after a turn, and what has been told.
  abbrev Turned : Turn → Watched → ConfigMonitor → List ℕ → List Notification → Type 0
  Turned t w m reading told =
      (reading' : List ℕ) × (told' : List Notification) × Went p id cb t
        (state p id cb w.node m w.asking reading told) (next t w) reading' told'
      × (IsUnmissedBy t w
          → IsCurrent p id cb w.node w.asking reading told
          → IsCurrent p id cb (next t w).node (next t w).asking reading' told')

  turned :
      (t : Turn) (w : Watched) (m : ConfigMonitor) (reading : List ℕ) (told : List Notification)
      → IsFollowing p id cb w.asking w.event m reading told
      → Turned t w m reading told
  unfolding turn
  turned (becomes n) w m reading told k = (
    reading,
    told,
    becomes_goes p id cb m reading told n w.node w.asking w.event k,
    λ _ now. becomes-IsCurrent n w.node w.asking w.event reading told now,
  )
  turned answers w m reading told k = (
    _,
    _,
    answers_go p id cb w.node w.asking w.event m reading told k,
    answers-IsCurrent p id cb w.node w.asking w.event m reading told k,
  )
  turned reads w m [] told k = ([], told, (m, refl, k), λ _ now. now)
  turned reads w m (x ∷ xs) told k = (
    xs,
    _,
    read_tells p id cb m xs told w.node w.asking w.event x k,
    λ _ now. read-IsCurrent w.node w.asking x xs told now,
  )

  -- All the turns, from a state that follows `w`.
  abbrev pub Ran : List Turn → Watched → ConfigMonitor → List ℕ → List Notification → Type 0
  Ran ts w m reading told =
      let w' = after ts w in
      (m' : ConfigMonitor) × (reading' : List ℕ) × (told' : List Notification) × (turns p id ts
          (state p id cb w.node m w.asking reading told)
        ≡ some (state p id cb w'.node m' w'.asking reading' told'))
      × IsFollowing p id cb w'.asking w'.event m' reading' told'
      × (AreUnmissed ts w
          → IsCurrent p id cb w.node w.asking reading told
          → IsUnmissed w' × IsCurrent p id cb w'.node w'.asking reading' told')

  pub ran :
      (ts : List Turn) (w : Watched) (m : ConfigMonitor) (reading : List ℕ)
      (told : List Notification)
      → IsFollowing p id cb w.asking w.event m reading told
      → Ran ts w m reading told
  unfolding turns
  ran [] w m reading told k = (m, reading, told, refl, k, λ a now. (a, now))
  ran (t ∷ ts) w m reading told k =
      let (reading1, told1, (m1, went, k1), keep) = turned t w m reading told k in
      let (m', reading', told', all, k', keeps) = ran ts (next t w) m1 reading1 told1 k1 in
      (m', reading', told', rw (turns, went) all, k', λ (a, rest) now. keeps rest (keep a now))

-- What `watch_path` starts from: the request for the existence is out.
abbrev pub started : Node → ConfigMonitor → Followed
started n m = record { node = n; monitor = m; asking = true; reading = []; told = [] }

pub started-IsFollowing :
    (m : ConfigMonitor) (p : Text) (cb : Callback)
    → IsFollowing p m.client.next cb true zk_dummy_event (watch_path p cb m).state [] []
unfolding watch_path watch_path_event allocate is_dummy_event
started-IsFollowing m p cb = record {
  holds = record {
    watching = ground (
      arith,
      lookup-assign m.client.next m.client.next (watcher p m.client.next cb zk_dummy_event)
          m.client.heap,
    );
    known = omega arith;
    readers = tt;
    old = tt;
    order = tt;
  };
  kind = refl;
  fresh = λ out dummy. (refl, refl);
}

module _ (m : ConfigMonitor) (p : Text) (cb : Callback) (n : Node) (ts : List Turn) where
  -- From `watch_path` on a path, whatever its node is: for every sequence of changes of the node,
  -- of answers and of reads in their order, no handler looks at data that is gone, and neither
  -- does one when what is then out arrives.
  pub watch_path_runs :
      let id = m.client.next in
      (f f' : Followed) × (turns p id ts (started n (watch_path p cb m).state) ≡ some f)
      × (settle p id f ≡ some f')
      × (f'.node ≡ (after ts (first_asked n)).node)
  watch_path_runs =
      let id = m.client.next in
      let w = after ts (first_asked n) in
      let (m1, reading, told, all, k, _) =
        ran p id cb ts (first_asked n) (watch_path p cb m).state [] []
          (started-IsFollowing m p cb) in
      let (m2, done, _) = settle_lem p id cb w.node w.asking w.event m1 reading told k in
      (_, _, all, done, refl)

  -- From `watch_path` on a path, whatever its node is, and for every sequence of changes of the
  -- node, of answers about its existence and of reads in their order: when each answer, the one
  -- that is out at the end included, finds the node as the event before it left it, gone after
  -- a deletion and there after another, then no handler looks at data that is gone, and once
  -- what is out has arrived the latest word to the user is `changed` with the value of the
  -- node, or, if there is no node, `del` or nothing at all.
  pub watch_path_follows :
      AreUnmissed ts (first_asked n)
      → let id = m.client.next in
        (f f' : Followed) × (turns p id ts (started n (watch_path p cb m).state) ≡ some f)
        × (settle p id f ≡ some f')
        × (f'.node ≡ (after ts (first_asked n)).node)
        × Says p id cb f'.node f'.told
  watch_path_follows a =
      let id = m.client.next in
      let w = after ts (first_asked n) in
      let (m1, reading, told, all, k, keeps) =
        ran p id cb ts (first_asked n) (watch_path p cb m).state [] []
          (started-IsFollowing m p cb) in
      let (m2, done, _) = settle_lem p id cb w.node w.asking w.event m1 reading told k in
      let (last, now) = keeps a tt in
      (
        _,
        _,
        all,
        done,
        refl,
        settle-Says p id cb w.node w.asking w.event m1 reading told k last now,
      )
