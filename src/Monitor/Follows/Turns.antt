-- ===== src/Monitor/Follows/Turns.antt =====
-- Each turn of a watched node: what the user is told, and which reads are out.
use mathlib.Core.List.{append-nil}
use config_monitor.Base.{
  ℕ, ◌≡◌, refl, Bool, true, false, ◌||◌, Option, none, some, List, [], ◌∷◌, ◌++◌, arith, Text,
  nat_eq,
}
use config_monitor.Base.Dict
use config_monitor.Base.Dict.{lookup}
use config_monitor.Zk.Types.{
  Rc, zok, znonode, make_ec, has_error, ZkEvent, zk_dummy_event, zk_created_event, zk_deleted_event,
  zk_changed_event, is_dummy_event, is_create_event, is_changed_event, is_delete_event,
  is_session_event,
}
use config_monitor.Zk.Watch.{
  awget, call_exists, call_get, on_completion, allocate, async_get_path_value,
}
use config_monitor.Monitor.{
  Callback, ConfigMonitor, ZkClient, Notification, changed, del, path_notice, on_path, read_path,
  on_exists, on_get,
}
use config_monitor.Monitor.Paths.{fired, asked_again}
use config_monitor.Monitor.Follows.{
  Node, Followed, Turn, becomes, answers, reads, existence, content, turn, fire,
}
use config_monitor.Monitor.Follows.Watched.{Watched, next}
use config_monitor.Monitor.Follows.Invariant.{
  IsReader, IsFollowing, watcher, reader, is_news, HasData-fired, HasData-allocate, HasData-erase,
}

abbrev code_of : Node → Rc
code_of none = znonode
code_of (some v) = zok

module _ (p : Text) (id : ℕ) (cb : Callback) where
  abbrev pub state : Node → ConfigMonitor → Bool → List ℕ → List Notification → Followed
  state n m asking reading told = record {
    node = n;
    monitor = m;
    asking = asking;
    reading = reading;
    told = told;
  }

  -- After the turn the program follows `w`, has these reads out and has told this.
  abbrev pub Went : Turn → Followed → Watched → List ℕ → List Notification → Type 0
  Went t f w reading told =
      (m' : ConfigMonitor) × (turn p id t f ≡ some (state w.node m' w.asking reading told))
      × IsFollowing p id cb w.asking w.event m' reading told

  abbrev pub at : Node → Bool → ZkEvent → Watched
  at n asking eve = record { node = n; asking = asking; event = eve }

  -- What the callbacks do.
  news_read :
      (eve : ZkEvent) (rc : Rc) (m : ConfigMonitor)
      → is_news p id cb eve ≡ true
      → is_delete_event eve ≡ false
      → on_exists (on_path p cb) (make_ec rc) eve m ≡ record {
        state = record m { client = allocate (reader p id cb) m.client };
        sent = awget p false m.client.next ∷ [];
        told = [];
      }
  unfolding on_exists has_error make_ec async_get_path_value
  news_read eve rc m n d = ground arith

  exists_completes :
      (n : Node) (c : ZkClient) (eve : ZkEvent)
      → lookup id c.heap ≡ some (watcher p id cb eve)
      → on_completion id (existence n) c
        ≡ some (c, call_exists (on_path p cb) (make_ec (code_of n)) eve ∷ [])
  unfolding on_completion
  exists_completes none c eve h = rw (h) refl
  exists_completes (some v) c eve h = rw (h) refl

  abbrev held : Node → Option Text
  held none = none
  held (some v) = v

  read_completes :
      (n : Node) (i : ℕ) (c : ZkClient)
      → IsReader p id cb c i
      → on_completion i (content n) c
        ≡ some (
          record c { heap = Dict.erase i c.heap },
          call_get (read_path cb) (make_ec (code_of n)) zk_dummy_event p (held n) ∷ [],
        )
  unfolding on_completion
  read_completes none i c h = ground arith
  read_completes (some v) i c h = ground arith

  -- What is told of a node after its deletion, and of one that is read.
  abbrev pub deletion : Node → List Notification
  deletion none = path_notice cb del none ∷ []
  deletion (some v) = []

  abbrev pub change : Node → List Notification
  change none = []
  change (some v) = path_notice cb changed v ∷ []

  deleted_told :
      (n : Node) (eve : ZkEvent) (m : ConfigMonitor)
      → is_delete_event eve ≡ true
      → on_exists (on_path p cb) (make_ec (code_of n)) eve m
        ≡ record { state = m; sent = []; told = deletion n }
  unfolding on_exists make_ec has_error is_delete_event is_dummy_event is_create_event
      is_changed_event
  deleted_told none zk_deleted_event m d = refl
  deleted_told (some v) zk_deleted_event m d = refl
  deleted_told n eve m d = absurd (cc)

  change_told :
      (n : Node) (m : ConfigMonitor)
      → on_get (read_path cb) (make_ec (code_of n)) zk_dummy_event p (held n) m
        ≡ record { state = m; sent = []; told = change n }
  unfolding on_get make_ec has_error
  change_told none m = refl
  change_told (some v) m = refl

  module _ (m : ConfigMonitor) (reading : List ℕ) (told : List Notification) where
    -- A change fires the watch, if it is set.
    fires :
        (eve' eve : ZkEvent) (n' n : Node)
        → IsFollowing p id cb false eve m reading told
        → is_session_event eve' ≡ false
        → is_dummy_event eve' ≡ false
        → (is_create_event eve' || (is_changed_event eve' || is_delete_event eve')) ≡ true
        → (m' : ConfigMonitor) × (fire p id eve' n' (state n m false reading told)
            ≡ some (state n' m' true reading told))
          × IsFollowing p id cb true eve' m' reading told
    unfolding fire
    fires eve' eve n' n k other real kind =
        let (went, _) = asked_again m.client id p cb eve eve' k.holds.watching other in
        (
          record m { client = fired id p cb eve' m.client },
          rw (fire, went) refl,
          record {
            holds = HasData-fired p id cb m.client reading eve eve' k.holds;
            kind = ground arith;
            fresh = λ out dummy. absurd (cc);
          },
        )

    pub becomes_goes :
        (n' n : Node) (asking : Bool) (eve : ZkEvent)
        → IsFollowing p id cb asking eve m reading told
        → Went
            (becomes n')
            (state n m asking reading told)
            (next (becomes n') (at n asking eve))
            reading
            told
    unfolding turn is_session_event is_dummy_event is_create_event is_changed_event is_delete_event
    becomes_goes n' n true eve k = (m, refl, k)
    becomes_goes none none false eve k = (m, refl, k)
    becomes_goes (some w) none false eve k =
        fires zk_created_event eve (some w) none k refl refl refl
    becomes_goes none (some v) false eve k =
        fires zk_deleted_event eve none (some v) k refl refl refl
    becomes_goes (some w) (some v) false eve k =
        fires zk_changed_event eve (some w) (some v) k refl refl refl

    -- The answer after no deletion has the path read.
    pub answer_reads :
        (n : Node) (eve : ZkEvent)
        → IsFollowing p id cb true eve m reading told
        → is_delete_event eve ≡ false
        → Went answers
            (state n m true reading told)
            (at n false eve)
            (reading ++ (m.client.next ∷ []))
            told
    unfolding turn
    answer_reads n eve k d = (
      record m { client = allocate (reader p id cb) m.client },
      rw
          (
            exists_completes n m.client eve k.holds.watching,
            news_read eve (code_of n) m (ground (arith, k.kind)) d,
          )
          refl,
      record {
        holds = HasData-allocate p id cb m.client reading eve k.holds;
        kind = k.kind;
        fresh = λ out dummy. absurd (cc);
      },
    )

    -- The answer after a deletion tells of it, unless the node is there again.
    pub answer_tells :
        (n : Node) (eve : ZkEvent)
        → IsFollowing p id cb true eve m reading told
        → is_delete_event eve ≡ true
        → Went answers (state n m true reading told) (at n false eve) reading (deletion n ++ told)
    unfolding turn
    answer_tells n eve k d = (
      m,
      rw (exists_completes n m.client eve k.holds.watching, deleted_told n eve m d, append-nil)
          refl,
      record { holds = k.holds; kind = k.kind; fresh = λ out dummy. absurd (cc) },
    )

    -- A read tells the value, if there is a node.
    pub read_tells :
        (n : Node) (asking : Bool) (eve : ZkEvent) (i : ℕ)
        → IsFollowing p id cb asking eve m (i ∷ reading) told
        → Went reads
            (state n m asking (i ∷ reading) told)
            (at n asking eve)
            reading
            (change n ++ told)
    unfolding turn
    read_tells n asking eve i k =
        let c' : ZkClient = record m.client { heap = Dict.erase i m.client.heap } in
        (
          record m { client = c' },
          rw
              (
                turn,
                read_completes n i m.client k.holds.readers.0,
                change_told n (record m { client = c' }),
                append-nil,
              )
              refl,
          record {
            holds = HasData-erase p id cb m.client i reading eve k.holds;
            kind = k.kind;
            fresh = λ out dummy.
                let none_out : (i ∷ reading) ≡ [] = (k.fresh out dummy).0 in absurd (cc none_out);
          },
        )
