-- ===== src/Monitor/Follows/Settling.antt =====
-- What is out arrives: what the user is told in the end.
use config_monitor.Base.{
  ℕ, ◌≡◌, inl, inr, refl, Bool, true, false, none, some, List, [], ◌∷◌, ◌++◌, arith, Text,
  Bool-cases,
}
use config_monitor.Zk.Types.{ZkEvent, is_delete_event}
use config_monitor.Monitor.{Callback, ConfigMonitor, Notification, changed, path_notice}
use config_monitor.Monitor.Follows.{Node, Followed, answers, reads_of, turn, turns, settle}
use config_monitor.Monitor.Follows.Watched.{agrees}
use config_monitor.Monitor.Follows.Invariant.{IsFollowing, Says, IsCurrent, snoc_nonempty}
use config_monitor.Monitor.Follows.Turns.{
  state, at, change, deletion, Went, answer_reads, answer_tells, read_tells,
}

module _ (p : Text) (id : ℕ) (cb : Callback) where
  -- Each of the reads tells what the node is.
  abbrev pub repeated : Node → List ℕ → List Notification → List Notification
  repeated n [] told = told
  repeated n (x ∷ xs) told = repeated n xs (change p id cb n ++ told)

  pub repeated_gone : (xs : List ℕ) (told : List Notification) → repeated none xs told ≡ told
  repeated_gone [] told = refl
  repeated_gone (x ∷ xs) told = repeated_gone xs told

  abbrev Drains : Node → ZkEvent → Followed → List Notification → Type 0
  Drains n eve f told =
      (m' : ConfigMonitor) × (turns p id (reads_of f.reading) f
        ≡ some (state p id cb n m' false [] told))
      × IsFollowing p id cb false eve m' [] told

  drained :
      (n : Node) (eve : ZkEvent) (m : ConfigMonitor) (xs : List ℕ) (told : List Notification)
      → IsFollowing p id cb false eve m xs told
      → Drains n eve (state p id cb n m false xs told) (repeated n xs told)
  unfolding turns
  drained n eve m [] told k = (m, refl, k)
  drained n eve m (x ∷ xs) told k =
      let (m1, went, k1) = read_tells p id cb m xs told n false eve x k in
      let (m', all, k') = drained n eve m1 xs (change p id cb n ++ told) k1 in
      (m', rw (turns, went) all, k')

  -- What is told once the answer is there, and which reads are then out.
  abbrev answered_reads : Bool → Bool → ConfigMonitor → List ℕ → List ℕ
  answered_reads true false m reading = reading ++ (m.client.next ∷ [])
  answered_reads _ _ m reading = reading

  abbrev answered_told : Node → Bool → Bool → List Notification → List Notification
  answered_told n true true told = deletion p id cb n ++ told
  answered_told n _ _ told = told

  pub answers_go :
      (n : Node) (asking : Bool) (eve : ZkEvent) (m : ConfigMonitor) (reading : List ℕ)
      (told : List Notification)
      → IsFollowing p id cb asking eve m reading told
      → Went p id cb answers
          (state p id cb n m asking reading told)
          (at p id cb n false eve)
          (answered_reads asking (is_delete_event eve) m reading)
          (answered_told n asking (is_delete_event eve) told)
  unfolding turn
  answers_go n false eve m reading told k = (m, refl, k)
  answers_go n true eve m reading told k = elim (Bool-cases (is_delete_event eve)) [
    | inl d ↦ rw (d) (answer_tells p id cb m reading told n eve k d)
    | inr d ↦ rw (d) (answer_reads p id cb m reading told n eve k d)
  ]

  -- An answer that agrees leaves the latest word right, or has it on its way.
  pub answers-IsCurrent :
      (n : Node) (asking : Bool) (eve : ZkEvent) (m : ConfigMonitor) (reading : List ℕ)
      (told : List Notification)
      → IsFollowing p id cb asking eve m reading told
      → (asking ≡ true → agrees eve n ≡ true)
      → IsCurrent p id cb n asking reading told
      → IsCurrent p id cb n false
          (answered_reads asking (is_delete_event eve) m reading)
          (answered_told n asking (is_delete_event eve) told)
  answers-IsCurrent n false eve m reading told k a now = now
  answers-IsCurrent none true eve m reading told k a now = elim (Bool-cases (is_delete_event eve)) [
    | inl d ↦ rw (d) (inr (told, refl))
    | inr d ↦ let (_, silent) = k.fresh refl (ground (arith, a refl)) in rw (d) (inl silent)
  ]
  answers-IsCurrent (some v) true eve m reading told k a now =
      let d : is_delete_event eve ≡ false = ground (arith, a refl) in
      rw (d) (inl (snoc_nonempty reading m.client.next))

  -- The reads that are out say what the node is.
  Says-repeated :
      (n : Node) (xs : List ℕ) (told : List Notification)
      → IsCurrent p id cb n false xs told
      → Says p id cb n (repeated n xs told)
  Says-repeated none xs told now = rw (repeated_gone xs told) now
  Says-repeated (some v) [] told (inl out) = absurd (out refl)
  Says-repeated (some v) [] told (inr said) = said
  Says-repeated (some v) (x ∷ xs) told now =
      Says-repeated (some v) xs (path_notice cb changed v ∷ told) (inr (told, refl))

  -- What is told in the end.
  abbrev pub final :
      Node → Bool → ZkEvent → ConfigMonitor → List ℕ → List Notification → List Notification
  final n asking eve m reading told =
      repeated n (answered_reads asking (is_delete_event eve) m reading)
        (answered_told n asking (is_delete_event eve) told)

  pub settle_lem :
      (n : Node) (asking : Bool) (eve : ZkEvent) (m : ConfigMonitor) (reading : List ℕ)
      (told : List Notification)
      → IsFollowing p id cb asking eve m reading told
      → (m' : ConfigMonitor) × (settle p id (state p id cb n m asking reading told)
          ≡ some (state p id cb n m' false [] (final n asking eve m reading told)))
        × IsFollowing p id cb false eve m' [] (final n asking eve m reading told)
  unfolding settle
  settle_lem n asking eve m reading told k =
      let (m1, went, k1) = answers_go n asking eve m reading told k in
      let (m', all, k') =
        drained n eve m1 (answered_reads asking (is_delete_event eve) m reading)
          (answered_told n asking (is_delete_event eve) told) k1 in
      (m', rw (settle, went) all, k')

  pub settle-Says :
      (n : Node) (asking : Bool) (eve : ZkEvent) (m : ConfigMonitor) (reading : List ℕ)
      (told : List Notification)
      → IsFollowing p id cb asking eve m reading told
      → (asking ≡ true → agrees eve n ≡ true)
      → IsCurrent p id cb n asking reading told
      → Says p id cb n (final n asking eve m reading told)
  settle-Says n asking eve m reading told k a now =
      Says-repeated n (answered_reads asking (is_delete_event eve) m reading)
        (answered_told n asking (is_delete_event eve) told)
        (answers-IsCurrent n asking eve m reading told k a now)
