-- ===== src/Monitor/Child/Word.antt =====
-- What the user has been told of a watched child that comes, changes and goes.
use config_monitor.Base.{
  ℕ, ◌≡◌, ◌≢◌, ◌⊎◌, inr, refl, true, false, Option, none, some, List, [], ◌∷◌, ◌++◌, arith, Text,
  nat_eq, text_eq,
}
use config_monitor.Base.Dict
use config_monitor.Base.Dict.{lookup, lookup-assign, lookup-erase}
use config_monitor.Zk.Types.{
  no_error, make_ec, has_error, ZkEvent, zk_changed_event, is_delete_event, is_session_event,
}
use config_monitor.Zk.Watch.{wget_userdata, on_event, on_completion}
use config_monitor.Zk.Watch.World.{Phase, waiting, armed}
use config_monitor.Monitor.{
  Callback, ConfigMonitor, ZkClient, Notification, changed, del, sub_path_notice, monitor,
  on_children, on_get, on_children_listed,
}
use config_monitor.Monitor.Follows.{Node}
use config_monitor.Monitor.Child.{Child, Turn, becomes, reads, turn_in, turns}
use config_monitor.Monitor.Child.Course.{
  Course, asked, watched, gone, lost, Followed, next_in, next, after,
}

module _ (prefix p : Text) (id : ℕ) (cb : Callback) where
  abbrev pub state : Node → ConfigMonitor → Option Phase → List Notification → Child
  state n m phase told = record { node = n; monitor = m; phase = phase; told = told }

  abbrev pub phase_of : Course → Option Phase
  phase_of asked = some waiting
  phase_of watched = some armed
  phase_of gone = none
  phase_of lost = none

  -- Nothing has been told, or a value last.
  abbrev pub IsUntold : List Notification → Type 0
  IsUntold told =
      (told ≡ [])
      ⊎ ((v : Option Text) × (rest : List Notification) × (told
            ≡ sub_path_notice cb changed p v ∷ rest))

  -- The latest word: the value of a child that is watched, and the deletion of one whose watch has
  -- fired on it. A child that a read did not find has not been told to be gone.
  abbrev pub Word : Course → Node → List Notification → Type 0
  Word asked n told = IsUntold told
  Word watched none told = ⊥
  Word watched (some v) told =
      (rest : List Notification) × (told ≡ sub_path_notice cb changed p v ∷ rest)
  Word gone n told = (rest : List Notification) × (told ≡ sub_path_notice cb del p none ∷ rest)
  Word lost n told = IsUntold told

  abbrev HasReader : ZkClient → Type 0
  HasReader c =
      (eve : ZkEvent) × (lookup id c.heap ≡ some (wget_userdata (monitor prefix cb) eve p true))
      × (is_delete_event eve ≡ false)

  abbrev pub HasData : Course → ZkClient → Type 0
  HasData asked c = HasReader c
  HasData watched c = HasReader c
  HasData gone c = lookup id c.heap ≡ none
  HasData lost c = Unit

  abbrev Went : Turn → Course → Node → ConfigMonitor → List Notification → Type 0
  Went t k n m told =
      let f = next_in k t n in
      (m' : ConfigMonitor) × (told' : List Notification) × (turn_in p id (phase_of k) t
          (state n m (phase_of k) told)
        ≡ some (state f.node m' (phase_of f.course) told'))
      × HasData f.course m'.client
      × Word f.course f.node told'

  fired_again :
      (v w : Option Text) (m : ConfigMonitor) (told : List Notification)
      → HasData watched m.client
      → Word watched (some v) told
      → Went (becomes (some w)) watched (some v) m told
  unfolding turn_in on_event is_delete_event is_session_event lookup Dict.assign
  fired_again v w m told (eve, h, _) (rest, said) =
      let u = wget_userdata (monitor prefix cb) zk_changed_event p true in
      (
        record m { client = record m.client { heap = Dict.assign id u m.client.heap } },
        told,
        rw (turn_in, h) refl,
        (zk_changed_event, ground (arith, lookup-assign id id u m.client.heap), refl),
        inr (v, rest, said),
      )

  deleted :
      (v : Option Text) (m : ConfigMonitor) (told : List Notification)
      → HasData watched m.client
      → Went (becomes none) watched (some v) m told
  unfolding turn_in on_event is_delete_event is_session_event on_get make_ec has_error lookup
      Dict.erase
  deleted v m told (eve, h, _) = (
    record m { client = record m.client { heap = Dict.erase id m.client.heap } },
    sub_path_notice cb del p none ∷ told,
    rw (turn_in, h) refl,
    ground (arith, lookup-erase id id m.client.heap),
    (told, refl),
  )

  read_found :
      (v : Option Text) (m : ConfigMonitor) (told : List Notification)
      → HasData asked m.client
      → Went reads asked (some v) m told
  unfolding turn_in on_completion on_get make_ec has_error lookup
  read_found v m told (eve, h, live) =
      (m, sub_path_notice cb changed p v ∷ told, rw (turn_in, h) refl, (eve, h, live), (told, refl))

  read_lost :
      (m : ConfigMonitor) (told : List Notification)
      → HasData asked m.client
      → Word asked none told
      → Went reads asked none m told
  unfolding turn_in on_completion on_get make_ec has_error
  read_lost m told (eve, h, live) said = (m, told, ground (arith, h, live), tt, said)

  went :
      (t : Turn) (k : Course) (n : Node) (m : ConfigMonitor) (told : List Notification)
      → HasData k m.client
      → Word k n told
      → Went t k n m told
  unfolding turn_in
  went (becomes (some w)) watched (some v) m told h said = fired_again v w m told h said
  went (becomes none) watched (some v) m told h said = deleted v m told h
  went (becomes n') watched none m told h said = absurd said
  went (becomes n') asked n m told h said = (m, told, refl, h, said)
  went (becomes n') gone n m told h said = (m, told, refl, h, said)
  went (becomes n') lost n m told h said = (m, told, refl, h, said)
  went reads watched n m told h said = (m, told, refl, h, said)
  went reads gone n m told h said = (m, told, refl, h, said)
  went reads lost n m told h said = (m, told, refl, h, said)
  went reads asked (some v) m told h said = read_found v m told h
  went reads asked none m told h said = read_lost m told h said

  pub ran :
      (ts : List Turn) (f : Followed) (m : ConfigMonitor) (told : List Notification)
      → HasData f.course m.client
      → Word f.course f.node told
      → let f' = after ts f in
        (m' : ConfigMonitor) × (told' : List Notification) × (turns p id ts
            (state f.node m (phase_of f.course) told)
          ≡ some (state f'.node m' (phase_of f'.course) told'))
        × HasData f'.course m'.client
        × Word f'.course f'.node told'
  unfolding turns
  ran [] f m told h said = (m, told, refl, h, said)
  ran (t ∷ ts) f m told h said =
      let (m1, told1, one, h1, said1) = went t f.course f.node m told h said in
      let (m2, told2, all, h2, said2) = ran ts (next t f) m1 told1 h1 said1 in
      (m2, told2, rw (turns, one) all, h2, said2)

  pub settled : (ts : List Turn) (f : Followed) → (after (ts ++ (reads ∷ [])) f).course ≢ asked
  settled [] f = ended f.course f.node
    where
      ended : (k : Course) (n : Node) → (next_in k reads n).course ≢ asked
      ended asked none = λ e. cc
      ended asked (some v) = λ e. cc
      ended watched n = λ e. cc
      ended gone n = λ e. cc
      ended lost n = λ e. cc
  settled (t ∷ ts) f = settled ts (next t f)

-- What the listing leaves of a new child: its read is out.
abbrev pub listed : Text → Text → Callback → ConfigMonitor → ConfigMonitor
listed prefix name cb m = (on_children_listed (on_children prefix cb) no_error (name ∷ []) m).state
