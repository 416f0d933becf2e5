-- ===== src/Zk/Watch/Safety.antt =====
-- The watches of cppzk.hpp against what the C client may do: which user data is alive.
use config_monitor.Base.{
  ℕ, ◌≡◌, refl, inl, inr, Bool, true, false, ◌&&◌, Option, none, some, List, [], ◌∷◌, arith, Text,
  nat_eq, ◌==◌, Bool-cases, Option-cases,
}
use config_monitor.Base.Dict.{Dict, lookup, assign, erase, lookup-assign, lookup-erase}
use config_monitor.Zk.Types.{ZkEvent, is_session_event, is_delete_event}
use config_monitor.Zk.Watch.{
  Userdata, exists_userdata, wget_userdata, get_children_userdata, Completion, stat, value, strings,
  on_event, on_completion,
}
use config_monitor.Zk.Watch.World.{
  Phase, waiting, armed, watches, fits, World, Event, starts, completes, fires, after_completion,
  after_event, step, Alive, IsAlive, IsSafe, run,
}

false_ne_true : false ≡ true → ⊥
false_ne_true h = cc

module _ {E G C : Type 0} where
  Alive-assign :
      (id : ℕ) (ph : Phase) (u : Userdata E G C) (slots : Dict ℕ Phase)
      (heap : Dict ℕ (Userdata E G C))
      → Alive slots heap
      → Alive (assign id ph slots) (assign id u heap)
  Alive-assign id ph u slots heap a j q e = elim (Bool-cases (j == id)) [
    | inl same ↦ (u, ground (arith, same, lookup-assign j id u heap))
    | inr other ↦
        let (v, had) = a j q (ground (arith, other, lookup-assign j id ph slots)) in
        (v, ground (arith, other, had, lookup-assign j id u heap))
  ]

  Alive-slot :
      (id : ℕ) (ph : Phase) {u : Userdata E G C} (slots : Dict ℕ Phase)
      (heap : Dict ℕ (Userdata E G C))
      → lookup id heap ≡ some u
      → Alive slots heap
      → Alive (assign id ph slots) heap
  Alive-slot id ph {u} slots heap here a j q e = elim (Bool-cases (j == id)) [
    | inl same ↦ (u, ground (arith, same, here))
    | inr other ↦ a j q (ground (arith, other, lookup-assign j id ph slots))
  ]

  Alive-erase :
      (id : ℕ) (slots : Dict ℕ Phase) (heap : Dict ℕ (Userdata E G C))
      → Alive slots heap
      → Alive (erase id slots) heap
  Alive-erase id slots heap a j q e = a j q (ground (arith, lookup-erase j id slots))

  Alive-free :
      (id : ℕ) (slots : Dict ℕ Phase) (heap : Dict ℕ (Userdata E G C))
      → Alive slots heap
      → Alive (erase id slots) (erase id heap)
  Alive-free id slots heap a j q e =
      let (u, had) = a j q (ground (arith, lookup-erase j id slots)) in
      (u, ground (arith, had, lookup-erase j id slots, lookup-erase j id heap))

  completion-IsSafe :
      (w : World E G C) (id : ℕ) (k : Completion) (set : Bool) (u : Userdata E G C)
      → lookup id w.client.heap ≡ some u
      → fits k (some u) ≡ true
      → IsAlive w
      → IsSafe (after_completion id (set && watches (some u)) w (on_completion id k w.client))
  unfolding on_completion
  completion-IsSafe w id (stat rc) true (exists_userdata cb eve) e f a =
      rw (e, on_completion) (Alive-slot id armed w.slots w.client.heap e a)
  completion-IsSafe w id (stat rc) false (exists_userdata cb eve) e f a =
      rw (e, on_completion) (Alive-erase id w.slots w.client.heap a)
  completion-IsSafe w id (value rc v) true (wget_userdata cb eve path true) e f a =
      rw (e, on_completion) (Alive-slot id armed w.slots w.client.heap e a)
  completion-IsSafe w id (value rc v) false (wget_userdata cb eve path true) e f a =
      rw (e, on_completion) (Alive-erase id w.slots w.client.heap a)
  completion-IsSafe w id (value rc v) true (wget_userdata cb eve path false) e f a =
      rw (e, on_completion) (Alive-free id w.slots w.client.heap a)
  completion-IsSafe w id (value rc v) false (wget_userdata cb eve path false) e f a =
      rw (e, on_completion) (Alive-free id w.slots w.client.heap a)
  completion-IsSafe w id (strings rc l) true (get_children_userdata cb path true) e f a =
      rw (e, on_completion) (Alive-slot id armed w.slots w.client.heap e a)
  completion-IsSafe w id (strings rc l) false (get_children_userdata cb path true) e f a =
      rw (e, on_completion) (Alive-erase id w.slots w.client.heap a)
  completion-IsSafe w id (strings rc l) true (get_children_userdata cb path false) e f a =
      rw (e, on_completion) (Alive-free id w.slots w.client.heap a)
  completion-IsSafe w id (strings rc l) false (get_children_userdata cb path false) e f a =
      rw (e, on_completion) (Alive-free id w.slots w.client.heap a)
  completion-IsSafe w id (stat rc) set (wget_userdata cb eve path adv) e f a =
      absurd (false_ne_true f)
  completion-IsSafe w id (stat rc) set (get_children_userdata cb path adv) e f a =
      absurd (false_ne_true f)
  completion-IsSafe w id (value rc v) set (exists_userdata cb eve) e f a = absurd (false_ne_true f)
  completion-IsSafe w id (value rc v) set (get_children_userdata cb path adv) e f a =
      absurd (false_ne_true f)
  completion-IsSafe w id (strings rc l) set (exists_userdata cb eve) e f a =
      absurd (false_ne_true f)
  completion-IsSafe w id (strings rc l) set (wget_userdata cb eve path adv) e f a =
      absurd (false_ne_true f)

  event-IsSafe :
      (w : World E G C) (id : ℕ) (eve : ZkEvent) (path : Text) (u : Userdata E G C)
      → lookup id w.client.heap ≡ some u
      → is_session_event eve ≡ false
      → IsAlive w
      → IsSafe (after_event id w (on_event id eve path w.client))
  unfolding on_event
  event-IsSafe w id eve path (exists_userdata cb last) e f a =
      rw (f, e, on_event) (Alive-assign id waiting _ w.slots w.client.heap a)
  event-IsSafe w id eve path (wget_userdata cb last p adv) e f a =
      elim (Bool-cases (is_delete_event eve)) [
        | inl gone ↦ rw (f, e, on_event) (rw gone (Alive-free id w.slots w.client.heap a))
        | inr kept ↦
            rw (f, e, on_event) (rw kept (Alive-assign id waiting _ w.slots w.client.heap a))
      ]
  event-IsSafe w id eve path (get_children_userdata cb p adv) e f a =
      elim (Bool-cases (is_delete_event eve)) [
        | inl gone ↦ rw (f, e, on_event) (rw gone (Alive-free id w.slots w.client.heap a))
        | inr kept ↦ rw (f, e, on_event) (rw kept (Alive-slot id waiting w.slots w.client.heap e a))
      ]

  completes-IsSafe :
      (w : World E G C) (id : ℕ) (k : Completion) (set : Bool) (o : Option Phase)
      → lookup id w.slots ≡ o
      → IsAlive w
      → IsSafe (step w (completes id k set))
  unfolding step
  completes-IsSafe w id k set none s a = rw (s, step) a
  completes-IsSafe w id k set (some armed) s a = rw (s, step) a
  completes-IsSafe w id k set (some waiting) s a =
      let (u, e) = a id waiting s in
      elim (Bool-cases (fits k (some u))) [
        | inl right ↦ rw (s, step) (rw e (rw right (completion-IsSafe w id k set u e right a)))
        | inr wrong ↦ rw (s, step) (rw e (rw wrong a))
      ]

  fires-IsSafe :
      (w : World E G C) (id : ℕ) (eve : ZkEvent) (path : Text) (o : Option Phase)
      → lookup id w.slots ≡ o
      → IsAlive w
      → IsSafe (step w (fires id eve path))
  unfolding step
  fires-IsSafe w id eve path none s a = rw (s, step) a
  fires-IsSafe w id eve path (some waiting) s a = rw (s, step) a
  fires-IsSafe w id eve path (some armed) s a =
      let (u, e) = a id armed s in
      elim (Bool-cases (is_session_event eve)) [
        | inl session ↦ rw (s, step) (rw session a)
        | inr other ↦ rw (s, step) (rw other (event-IsSafe w id eve path u e other a))
      ]

  step-IsSafe : (w : World E G C) (e : Event E G C) → IsAlive w → IsSafe (step w e)
  unfolding step
  step-IsSafe w (starts u) a = Alive-assign w.client.next waiting u w.slots w.client.heap a
  step-IsSafe w (completes id k set) a = completes-IsSafe w id k set (lookup id w.slots) refl a
  step-IsSafe w (fires id eve path) a = fires-IsSafe w id eve path (lookup id w.slots) refl a

  -- From a state in which the client holds no context of dead data, no run of operations,
  -- completions and watch events looks at data that is gone, and the state stays so.
  pub run-IsSafe :
      (w : World E G C) (events : List (Event E G C)) → IsAlive w → IsSafe (run w events)
  unfolding run
  run-IsSafe w [] a = a
  run-IsSafe w (e ∷ rest) a = elim (Option-cases (step w e)) [
    | inl fault ↦ absurd (rw fault at (step-IsSafe w e a))
    | inr (w', went) ↦ rw (went, IsSafe) (run-IsSafe w' rest (rw went at (step-IsSafe w e a)))
  ]
