-- ===== src/Monitor/Listings/Steps.antt =====
-- Each turn of a watched listing: what is asked for, and what is remembered.
use config_monitor.Base.{
  ℕ, ◌<◌, ◌≡◌, refl, Bool, true, false, ◌||◌, some, List, [], ◌∷◌, ◌++◌, arith, Text, text_eq,
  nat_eq, contains, inl, inr, Option-cases,
}
use mathlib.Core.List.{map-append}
use config_monitor.Base.Dict.{lookup, lookup-assign}
use config_monitor.Zk.Types.{
  zok, make_ec, has_error, zk_dummy_event, is_delete_event, is_session_event,
}
use config_monitor.Zk.Watch.{
  get_children_userdata, wget_userdata, on_event, on_completion, allocate, async_get_path_value,
}
use config_monitor.Zk.Delete.{child_path}
use config_monitor.Zk.Delete.Paths.{contains-append}
use config_monitor.Monitor.{
  Callback, ConfigMonitor, ZkClient, ZkOutput, on_children, monitor, monitor_all, new_paths,
  on_children_listed,
}
use config_monitor.Monitor.SubPaths.{Watches, was_listed, on_children_listed-Watches}
use config_monitor.Monitor.Listings.{Listing, Turn, becomes, answers, turn_in}

-- The names that the server lists in the end, and those that it ever listed.
abbrev pub last_names : List Turn → List Text → List Text
last_names [] names = names
last_names (becomes names' ∷ ts) names = last_names ts names'
last_names (answers ∷ ts) names = last_names ts names

abbrev pub ever_listed : List Turn → List Text → Text → Bool
ever_listed [] names n = contains names n
ever_listed (becomes names' ∷ ts) names n = contains names n || ever_listed ts names' n
ever_listed (answers ∷ ts) names n = ever_listed ts names n

fine : has_error (make_ec zok) ≡ false
unfolding has_error make_ec
fine = refl

module _ (prefix : Text) (id : ℕ) (cb : Callback) where
  abbrev pub state : List Text → ConfigMonitor → Bool → List ZkOutput → Listing
  state names m asking sent = record { names = names; monitor = m; asking = asking; sent = sent }

  -- The data of the watch.
  abbrev pub HasData : ZkClient → Type 0
  HasData c =
      (lookup id c.heap ≡ some (get_children_userdata (on_children prefix cb) prefix true))
      × (id < c.next)

  monitor_all-HasData :
      (names : List Text) (c : ZkClient) → HasData c → HasData (monitor_all prefix cb names c).0
  unfolding monitor_all async_get_path_value allocate
  monitor_all-HasData [] c h = h
  monitor_all-HasData (n ∷ names) c (h, known) =
      let u = wget_userdata (monitor prefix cb) zk_dummy_event (child_path prefix n) true in
      monitor_all-HasData names (allocate u c)
        (ground (arith, lookup-assign id c.next u c.heap), omega (arith, known))

  listed-HasData :
      (names : List Text) (m : ConfigMonitor)
      → HasData m.client
      → HasData (on_children_listed (on_children prefix cb) (make_ec zok) names m).state.client
  unfolding on_children_listed make_ec has_error
  listed-HasData names m h = elim (Option-cases (lookup prefix m.last_sub_path)) [
    | inl e ↦ ground (arith, monitor_all-HasData names m.client h)
    | inr (known, e) ↦ ground (arith, monitor_all-HasData (new_paths known names) m.client h)
  ]

  -- These children have been asked for, with those that the last listing named among them.
  pub record Follows (names : List Text) (m : ConfigMonitor) (asking : Bool) (sent : List ZkOutput)
      (asked : List Text) : Type 0 where
    pub held : HasData m.client
    pub reads : Watches prefix asked sent
    pub covers : (n : Text) → was_listed prefix n m ≡ true → contains asked n ≡ true
    pub current : asking ≡ false → lookup prefix m.last_sub_path ≡ some names

  pub record Went (t : Turn) (names : List Text) (m : ConfigMonitor) (asking : Bool)
      (sent : List ZkOutput) (asked : List Text) : Type 0 where
    pub monitor' : ConfigMonitor
    pub asking' : Bool
    pub sent' : List ZkOutput
    pub asked' : List Text
    pub went :
        turn_in prefix id asking t (state names m asking sent)
        ≡ some (state (last_names (t ∷ []) names) monitor' asking' sent')
    pub follows : Follows (last_names (t ∷ []) names) monitor' asking' sent' asked'
    pub real : (n : Text) → contains asked' n ≡ true → (contains asked n || contains names n) ≡ true
    pub settled : t ≡ answers → asking' ≡ false

  arrives :
      (names : List Text) (m : ConfigMonitor) (sent : List ZkOutput) (asked : List Text)
      → Follows names m true sent asked
      → Went answers names m true sent asked
  unfolding turn_in on_completion
  arrives names m sent asked k =
      let r = on_children_listed (on_children prefix cb) (make_ec zok) names m in
      let (new, watches, which, _, kept) =
        on_children_listed-Watches prefix cb (make_ec zok) names m fine in
      record {
        monitor' = r.state;
        asking' = false;
        sent' = sent ++ r.sent;
        asked' = asked ++ new;
        went = ground (arith, k.held.0);
        follows = record {
          held = listed-HasData names m k.held;
          reads = simp (map-append, k.reads, watches);
          covers = λ n listed.
              ground (arith, kept prefix, which n, k.covers n, contains-append asked new n);
          current = λ e. ground (arith, kept prefix);
        };
        real = λ n there. ground (arith, which n, contains-append asked new n);
        settled = λ e. refl;
      }

  fires :
      (names' names : List Text) (m : ConfigMonitor) (sent : List ZkOutput) (asked : List Text)
      → Follows names m false sent asked
      → Went (becomes names') names m false sent asked
  unfolding turn_in on_event is_session_event is_delete_event
  fires names' names m sent asked k = record {
    monitor' = m;
    asking' = true;
    sent' = sent;
    asked' = asked;
    went = ground (arith, k.held.0);
    follows = record {
      held = k.held;
      reads = k.reads;
      covers = k.covers;
      current = λ e. absurd (cc);
    };
    real = λ n there. ground arith;
    settled = λ e. absurd (cc);
  }

  pub turned :
      (t : Turn) (names : List Text) (m : ConfigMonitor) (asking : Bool) (sent : List ZkOutput)
      (asked : List Text)
      → Follows names m asking sent asked
      → Went t names m asking sent asked
  unfolding turn_in
  turned (becomes names') names m true sent asked k = record {
    monitor' = m;
    asking' = true;
    sent' = sent;
    asked' = asked;
    went = refl;
    follows = record {
      held = k.held;
      reads = k.reads;
      covers = k.covers;
      current = λ e. absurd (cc);
    };
    real = λ n there. ground arith;
    settled = λ e. absurd (cc);
  }
  turned (becomes names') names m false sent asked k = fires names' names m sent asked k
  turned answers names m true sent asked k = arrives names m sent asked k
  turned answers names m false sent asked k = record {
    monitor' = m;
    asking' = false;
    sent' = sent;
    asked' = asked;
    went = refl;
    follows = k;
    real = λ n there. ground arith;
    settled = λ e. refl;
  }
