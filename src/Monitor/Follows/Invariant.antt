-- ===== src/Monitor/Follows/Invariant.antt =====
-- What stays true while a node comes, changes and goes under a watch: the data of the watch and of
-- the reads that are out, and what is current.
use config_monitor.Base.{
  ℕ, suc, ◌<◌, ◌≡◌, ◌≢◌, ◌⊎◌, inl, inr, refl, Bool, true, false, ◌||◌, none, some, List, [], ◌∷◌,
  ◌++◌, arith, Text, nat_eq, All, All-append,
}
use config_monitor.Base.Dict
use config_monitor.Base.Dict.{lookup, lookup-assign, lookup-erase}
use config_monitor.Zk.Types.{
  ZkEvent, zk_dummy_event, is_dummy_event, is_create_event, is_changed_event, is_delete_event,
}
use config_monitor.Zk.Watch.{Userdata, exists_userdata, wget_userdata, allocate}
use config_monitor.Monitor.{
  Callback, ConfigMonitor, ZkClient, Notification, ExistsClosure, GetClosure, ChildrenClosure,
  changed, del, path_notice, on_path, read_path,
}
use config_monitor.Monitor.Paths.{fired}
use config_monitor.Monitor.Follows.{Node}

-- Each number is below all those behind it.
abbrev pub Ascending : List ℕ → Type 0
Ascending [] = Unit
Ascending (i ∷ rest) = All (λ j. i < j) rest × Ascending rest

pub Ascending-snoc :
    (xs : List ℕ) (n : ℕ) → Ascending xs → All (λ i. i < n) xs → Ascending (xs ++ (n ∷ []))
Ascending-snoc [] n a b = (tt, tt)
Ascending-snoc (x ∷ xs) n (l, a) (h, b) =
    (All-append _ xs (n ∷ []) l (h, tt), Ascending-snoc xs n a b)

pub below_suc : (n : ℕ) (xs : List ℕ) → All (λ i. i < n) xs → All (λ i. i < suc n) xs
below_suc n [] h = tt
below_suc n (x ∷ xs) (h, hs) = (omega arith, below_suc n xs hs)

pub snoc_nonempty : (xs : List ℕ) (n : ℕ) → (xs ++ (n ∷ [])) ≢ []
snoc_nonempty [] n = ground arith
snoc_nonempty (x ∷ xs) n = ground arith

pub List-cases : (xs : List ℕ) → (xs ≡ []) ⊎ ((x : ℕ) × (rest : List ℕ) × (xs ≡ x ∷ rest))
List-cases [] = inl refl
List-cases (x ∷ rest) = inr (x, rest, refl)

module _ (p : Text) (id : ℕ) (cb : Callback) where
  abbrev pub reader : Userdata ExistsClosure GetClosure ChildrenClosure
  reader = wget_userdata (read_path cb) zk_dummy_event p false

  abbrev pub watcher : ZkEvent → Userdata ExistsClosure GetClosure ChildrenClosure
  watcher eve = exists_userdata (on_path p cb) eve

  abbrev pub IsReader : ZkClient → ℕ → Type 0
  IsReader c i = lookup i c.heap ≡ some reader

  -- The data of the watch, and of the reads that are out.
  pub record HasData (eve : ZkEvent) (c : ZkClient) (reading : List ℕ) : Type 0 where
    pub watching : lookup id c.heap ≡ some (watcher eve)
    pub known : id < c.next
    pub readers : All (IsReader c) reading
    pub old : All (λ i. i < c.next) reading
    pub order : Ascending reading

  -- The latest word is what the node is. Nothing need be said of a node that was never there.
  abbrev pub Says : Node → List Notification → Type 0
  Says none told =
      (told ≡ []) ⊎ ((rest : List Notification) × (told ≡ path_notice cb del none ∷ rest))
  Says (some v) told = (rest : List Notification) × (told ≡ path_notice cb changed v ∷ rest)

  -- The latest word is, or the reads that are out will give it, or the question is out.
  abbrev pub IsCurrent : Node → Bool → List ℕ → List Notification → Type 0
  IsCurrent n true reading told = Unit
  IsCurrent none false reading told = Says none told
  IsCurrent (some v) false reading told = (reading ≢ []) ⊎ Says (some v) told

  -- The events that the client gives for a node.
  abbrev pub is_news : ZkEvent → Bool
  is_news eve = is_dummy_event eve || (is_create_event eve || is_changed_event eve)

  -- What the program has, while the question for the existence is out or not, after the event.
  pub record IsFollowing (asking : Bool) (eve : ZkEvent) (m : ConfigMonitor) (reading : List ℕ)
      (told : List Notification) : Type 0 where
    pub holds : HasData eve m.client reading
    pub kind : (is_news eve || is_delete_event eve) ≡ true
    pub fresh : asking ≡ true → is_dummy_event eve ≡ true → (reading ≡ []) × (told ≡ [])

  -- The readers once the data of the watch is written again, new data is put at `next`, or the
  -- data of a lower number is taken away.
  readers-assign :
      (c : ZkClient) (xs : List ℕ) (eve old : ZkEvent)
      → lookup id c.heap ≡ some (watcher old)
      → All (IsReader c) xs
      → All (IsReader (fired id p cb eve c)) xs
  readers-assign c [] eve old w h = tt
  readers-assign c (x ∷ xs) eve old w (h, hs) =
      (ground (arith, lookup-assign x id (watcher eve) c.heap), readers-assign c xs eve old w hs)

  readers-allocate :
      (c : ZkClient) (xs : List ℕ)
      → All (λ i. i < c.next) xs
      → All (IsReader c) xs
      → All (IsReader (allocate reader c)) xs
  unfolding allocate
  readers-allocate c [] b h = tt
  readers-allocate c (x ∷ xs) (b, bs) (h, hs) =
      (ground (arith, lookup-assign x c.next reader c.heap), readers-allocate c xs bs hs)

  readers-erase :
      (c : ZkClient) (i : ℕ) (xs : List ℕ)
      → All (λ j. i < j) xs
      → All (IsReader c) xs
      → All (IsReader (record c { heap = Dict.erase i c.heap })) xs
  readers-erase c i [] b h = tt
  readers-erase c i (x ∷ xs) (b, bs) (h, hs) =
      (ground (arith, lookup-erase x i c.heap), readers-erase c i xs bs hs)

  pub HasData-fired :
      (c : ZkClient) (xs : List ℕ) (old eve : ZkEvent)
      → HasData old c xs
      → HasData eve (fired id p cb eve c) xs
  HasData-fired c xs old eve h = record {
    watching = ground (arith, lookup-assign id id (watcher eve) c.heap);
    known = h.known;
    readers = readers-assign c xs eve old h.watching h.readers;
    old = h.old;
    order = h.order;
  }

  pub HasData-allocate :
      (c : ZkClient) (xs : List ℕ) (eve : ZkEvent)
      → HasData eve c xs
      → HasData eve (allocate reader c) (xs ++ (c.next ∷ []))
  unfolding allocate
  HasData-allocate c xs eve h = record {
    watching = ground (arith, h.watching, h.known, lookup-assign id c.next reader c.heap);
    known = omega (arith, h.known);
    readers =
        All-append (IsReader (allocate reader c)) xs (c.next ∷ [])
          (readers-allocate c xs h.old h.readers)
          (ground (arith, lookup-assign c.next c.next reader c.heap), tt);
    old = All-append _ xs (c.next ∷ []) (below_suc c.next xs h.old) (omega arith, tt);
    order = Ascending-snoc xs c.next h.order h.old;
  }

  pub HasData-erase :
      (c : ZkClient) (i : ℕ) (rest : List ℕ) (eve : ZkEvent)
      → HasData eve c (i ∷ rest)
      → HasData eve (record c { heap = Dict.erase i c.heap }) rest
  HasData-erase c i rest eve h =
      let (here, later) = h.readers in
      let (fresh, olds) = h.old in
      let (least, order) = h.order in
      record {
        watching = ground (arith, h.watching, here, lookup-erase id i c.heap);
        known = h.known;
        readers = readers-erase c i rest least later;
        old = olds;
        order = order;
      }
