-- ===== src/Zk/Watch/World.antt =====
-- The client and its user data in step with the C client: requests, completions and watch events.
use config_monitor.Base.{
  ℕ, ◌≡◌, Bool, true, false, ◌&&◌, Option, none, some, List, [], ◌∷◌, Text, nat_eq, if◌then◌else◌,
}
use config_monitor.Base.Dict.{Dict, lookup, assign, erase}
use config_monitor.Zk.Types.{ZkEvent, is_session_event}
use config_monitor.Zk.Watch.{
  Userdata, exists_userdata, wget_userdata, get_children_userdata, Client, Output, awexists, awget,
  awget_children2, Handled, Completion, stat, value, strings, allocate, on_event, on_completion,
}

-- What the C client holds for a context: a request whose completion is to come, or a watch that is
-- set. A watch fires once, and a request completes once.
pub data Phase : Type 0 where
  waiting armed : Phase

module _ {E G C : Type 0} where
  -- Whether the request for such data carries a watcher.
  abbrev pub watches : Option (Userdata E G C) → Bool
  watches none = true
  watches (some (exists_userdata cb eve)) = true
  watches (some (wget_userdata cb eve path advanced)) = advanced
  watches (some (get_children_userdata cb path advanced)) = advanced

  -- A completion is of the kind of its request.
  abbrev pub fits : Completion → Option (Userdata E G C) → Bool
  fits k none = true
  fits (stat rc) (some (exists_userdata cb eve)) = true
  fits (value rc v) (some (wget_userdata cb eve path advanced)) = true
  fits (strings rc l) (some (get_children_userdata cb path advanced)) = true
  fits k (some u) = false

  -- A handler that sends a request for its context leaves the context waiting.
  abbrev pub resent : List (Output E G C) → Bool
  resent (awexists p id ∷ rest) = true
  resent (awget p w id ∷ rest) = true
  resent (awget_children2 p w id ∷ rest) = true
  resent _ = false

pub record World (E G C : Type 0) : Type 0 where
  pub client : Client E G C
  pub slots : Dict ℕ Phase

-- What can happen next. `completes` says whether the request set its watch.
pub data Event (E G C : Type 0) : Type 0 where
  starts : Userdata E G C → Event E G C
  completes : ℕ → Completion → Bool → Event E G C
  fires : ℕ → ZkEvent → Text → Event E G C

abbrev pub completed_slot : ℕ → Bool → Dict ℕ Phase → Dict ℕ Phase
completed_slot id set slots = if set then assign id armed slots else erase id slots

module _ {E G C : Type 0} where
  abbrev pub after_completion : ℕ → Bool → World E G C → Handled E G C → Option (World E G C)
  after_completion id set w none = none
  after_completion id set w (some (c, out)) =
      some (record { client = c; slots = completed_slot id set w.slots })

  abbrev pub after_event : ℕ → World E G C → Handled E G C → Option (World E G C)
  after_event id w none = none
  after_event id w (some (c, out)) = some (record {
    client = c;
    slots = if resent out then assign id waiting w.slots else erase id w.slots;
  })

  -- One step; what the client does not do changes nothing. None is a look at data that is gone.
  unfoldable pub step : World E G C → Event E G C → Option (World E G C)
  unfolding allocate
  step w (starts u) =
      some (record { client = allocate u w.client; slots = assign w.client.next waiting w.slots })
  step w (completes id k set) = elim (lookup id w.slots) [
    | some waiting ↦
        let u = lookup id w.client.heap in
        if fits k u
        then after_completion id (set && watches u) w (on_completion id k w.client)
        else some w
    | _ ↦ some w
  ]
  step w (fires id eve path) = elim (lookup id w.slots) [
    | some armed ↦
        if is_session_event eve then some w else after_event id w (on_event id eve path w.client)
    | _ ↦ some w
  ]

  -- Whatever the client holds a context for is alive.
  abbrev pub Alive : Dict ℕ Phase → Dict ℕ (Userdata E G C) → Type 0
  Alive slots heap =
      (id : ℕ) (ph : Phase)
      → lookup id slots ≡ some ph
      → (u : Userdata E G C) × (lookup id heap ≡ some u)

  abbrev pub IsAlive : World E G C → Type 0
  IsAlive w = Alive w.slots w.client.heap

  -- No data that is gone was looked at, and all is alive again.
  abbrev pub IsSafe : Option (World E G C) → Type 0
  IsSafe none = ⊥
  IsSafe (some w) = IsAlive w

  -- Any number of steps, in any order.
  unfoldable pub run : World E G C → List (Event E G C) → Option (World E G C)
  run w [] = some w
  run w (e ∷ rest) = elim (step w e) [ none ↦ none | some w' ↦ run w' rest ]
