-- ===== src/File/Pairing/Handlers.antt =====
-- The three handlers of local_file.hpp on copies that are paired, and the live maps behind them.
use config_monitor.Base.{
  ℕ, ◌≡◌, ◌⊎◌, refl, ◌∙◌, inl, inr, Bool, none, some, List, [], ◌∷◌, arith, Text, text_eq, eqb,
  Bool-cases, Option-cases, returns, throws, filesystem_error,
}
use config_monitor.Base.Dict
use config_monitor.Base.Dict.{Dict, lookup, NodupKeys, lookup-cons, lookup-erase}
use config_monitor.File.Types.{ok, not_exist, child_event}
use config_monitor.File.Disk.{
  Disk, get_file_value-cases, get_path_children-cases, file_modify_time, IsCalm,
}
use config_monitor.File.State.{
  LocFile, Callback, Call, got, children, update_last_existed_status, remove_monitor_get_path,
  update_last_changed_time, updata_path_children,
}
use config_monitor.File.Poll.{
  Notice, Polled, notify, same_bool, same_texts, turned, handle_monitor_exist, handle_monitor_get,
  handle_monitor_sub,
}
use config_monitor.File.Pairing.{HasCallbacks, Paired, IsPaired, assign-Paired, erase-Paired}

-- A run of a handler from `s`: it returns, and what it leaves.
pub record Handled (keeps : LocFile → LocFile → Type 0) (live : Type 0) (s : LocFile) (run : Polled)
    : Type 0 where
  pub state : LocFile
  pub notices : List Notice
  pub ran : run ≡ returns (state, notices)
  pub pairs : live → IsPaired s → IsPaired state
  pub kept : keeps s state

-- The callbacks of the entries behind the first.
module _ {ℓ} {V : Type ℓ} where
  pub head_callback :
      (k : Text) (v : V) (d : Dict Text V) (monitor : Dict Text Callback)
      → HasCallbacks ((k, v) ∷ d) monitor
      → (cb : Callback) × (lookup k monitor ≡ some cb)
  head_callback k v d monitor h = h k v (ground (arith, lookup-cons k k v d))

  pub tail_callbacks :
      (k : Text) (v : V) (d : Dict Text V) (monitor : Dict Text Callback)
      → lookup k d ≡ none
      → HasCallbacks ((k, v) ∷ d) monitor
      → HasCallbacks d monitor
  tail_callbacks k v d monitor fresh h p w e = h p w (ground (arith, lookup-cons p k v d))

  -- Erasing a key that the map does not have takes no callback from it.
  pub erase_callbacks :
      (k : Text) (d : Dict Text V) (monitor : Dict Text Callback)
      → lookup k d ≡ none
      → HasCallbacks d monitor
      → HasCallbacks d (Dict.erase k monitor)
  erase_callbacks k d monitor fresh h p w e =
      let (cb, had) = h p w e in (cb, ground (arith, lookup-erase p k monitor))

abbrev pub ExistKeeps : LocFile → LocFile → Type 0
ExistKeeps s t =
    (t.monitor_get_path ≡ s.monitor_get_path)
    × (t.monitor_sub_path ≡ s.monitor_sub_path)
    × (t.task_queue ≡ s.task_queue)

abbrev pub GetKeeps : LocFile → LocFile → Type 0
GetKeeps s t =
    (t.monitor_sub_path ≡ s.monitor_sub_path)
    × (t.last_existed_status ≡ s.last_existed_status)
    × (t.monitor_exist_path ≡ s.monitor_exist_path)
    × (t.task_queue ≡ s.task_queue)

abbrev pub SubKeeps : LocFile → LocFile → Type 0
SubKeeps s t =
    (t.last_existed_status ≡ s.last_existed_status)
    × (t.monitor_exist_path ≡ s.monitor_exist_path)
    × (t.task_queue ≡ s.task_queue)

-- A handler on a disk either returns so, or a look at the disk throws, which is then not calm.
abbrev pub Ends :
    (d : Disk) → d.Fs → (LocFile → LocFile → Type 0) → Type 0 → LocFile → Polled → Type 0
Ends d fs keeps live s run =
    ((run ≡ throws filesystem_error) × (IsCalm d fs → ⊥)) ⊎ Handled keeps live s run

module _ (d : Disk) (fs : d.Fs) where
  -- One entry that is due: the rest runs from the updated state `s'`, and its callback comes first.
  notify-Ends :
      (keeps : LocFile → LocFile → Type 0) (live live' : Type 0) (s s' : LocFile)
      (monitor : Dict Text Callback) (path : Text) (call : Callback → Call) (run rest : Polled)
      (cb : Callback)
      → run ≡ notify monitor path call rest
      → lookup path monitor ≡ some cb
      → (live → live' × (IsPaired s → IsPaired s'))
      → ((t : LocFile) → keeps s' t → keeps s t)
      → Ends d fs keeps live' s' rest
      → Ends d fs keeps live s run
  notify-Ends keeps live live' s s' monitor path call run rest cb e found step same (inl (bad, n)) =
      inl (ground (arith, e, found, bad), n)
  notify-Ends keeps live live' s s' monitor path call run rest cb e found step same (inr r) =
      inr (record {
        state = r.state;
        notices = (path, call cb) ∷ r.notices;
        ran = ground (arith, e, found, r.ran);
        pairs = λ l v. r.pairs (step l).0 ((step l).1 v);
        kept = same r.state r.kept;
      })

  skip-Ends :
      (keeps : LocFile → LocFile → Type 0) (live live' : Type 0) (s : LocFile) (run rest : Polled)
      → run ≡ rest
      → (live → live')
      → Ends d fs keeps live' s rest
      → Ends d fs keeps live s run
  skip-Ends keeps live live' s run rest e weaken (inl (bad, n)) = inl (e ∙ bad, n)
  skip-Ends keeps live live' s run rest e weaken (inr r) = inr (record {
    state = r.state;
    notices = r.notices;
    ran = e ∙ r.ran;
    pairs = λ l v. r.pairs (weaken l) v;
    kept = r.kept;
  })

  pub handle_monitor_exist-Ends :
      (l : Dict Text Bool) (monitor : Dict Text Callback) (s : LocFile)
      → Paired l monitor
      → Ends d fs ExistKeeps
          (HasCallbacks l s.monitor_exist_path)
          s
          (handle_monitor_exist d fs l monitor s)
  unfolding handle_monitor_exist
  handle_monitor_exist-Ends [] monitor s v =
      inr (record {
        state = s;
        notices = [];
        ran = refl;
        pairs = λ _ w. w;
        kept = (refl, refl, refl);
      })
  handle_monitor_exist-Ends ((path, last) ∷ l) monitor s ((fresh, u), h) =
      let (cb, found) = head_callback path last l monitor h in
      let next = tail_callbacks path last l monitor fresh h in
      elim (Option-cases (d.exists fs path)) [
        | inl bad ↦
            inl (rw (handle_monitor_exist, bad) refl, λ c. let e = c.exists_now path in absurd (cc))
        | inr (now, seen) ↦ elim (Bool-cases (same_bool last now)) [
          | inl quiet ↦
              skip-Ends ExistKeeps _ _ s _ _ (rw (handle_monitor_exist, seen, quiet) refl)
                (tail_callbacks path last l s.monitor_exist_path fresh)
                (handle_monitor_exist-Ends l monitor s (u, next))
          | inr turn ↦
              notify-Ends ExistKeeps _ _ s (update_last_existed_status path now s) monitor path
                (turned last) _ _ cb (rw (handle_monitor_exist, seen, turn) refl) found
                (λ live. (
                  tail_callbacks path last l s.monitor_exist_path fresh live,
                  λ v. record {
                    exist =
                        assign-Paired path now s.last_existed_status s.monitor_exist_path
                          (head_callback path last l s.monitor_exist_path live).1 v.exist;
                    get = v.get;
                    sub = v.sub;
                  },
                ))
                (λ t k. k)
                (handle_monitor_exist-Ends l monitor (update_last_existed_status path now s)
                  (u, next))
        ]
      ]

  pub handle_monitor_get-Ends :
      (l : Dict Text ℕ) (monitor : Dict Text Callback) (s : LocFile)
      → Paired l monitor
      → Ends d fs GetKeeps
          (HasCallbacks l s.monitor_get_path)
          s
          (handle_monitor_get d fs l monitor s)
  unfolding handle_monitor_get
  handle_monitor_get-Ends [] monitor s v = inr (record {
    state = s;
    notices = [];
    ran = refl;
    pairs = λ _ w. w;
    kept = (refl, refl, refl, refl);
  })
  handle_monitor_get-Ends ((path, last) ∷ l) monitor s ((fresh, u), h) =
      let now = (file_modify_time d fs path).1 in
      let (cb, found) = head_callback path last l monitor h in
      let next = tail_callbacks path last l monitor fresh h in
      elim (Bool-cases (eqb last now)) [
        | inl quiet ↦
            skip-Ends GetKeeps _ _ s _ _ (rw (handle_monitor_get, quiet) refl)
              (tail_callbacks path last l s.monitor_get_path fresh)
              (handle_monitor_get-Ends l monitor s (u, next))
        | inr turn ↦ elim (get_file_value-cases d fs path) [
          | inl bad ↦ inl (
            rw (handle_monitor_get, turn, bad) refl,
            λ c. let e = c.value_now path in absurd (cc),
          )
          | inr (none, gone) ↦
              notify-Ends GetKeeps _ _ s (remove_monitor_get_path path s) monitor path
                (λ cb. got cb not_exist none) _ _ cb (rw (handle_monitor_get, turn, gone) refl)
                found
                (λ live. (
                  erase_callbacks path l s.monitor_get_path fresh
                      (tail_callbacks path last l s.monitor_get_path fresh live),
                  λ v. record {
                    exist = v.exist;
                    get = erase-Paired path s.last_changed_time s.monitor_get_path v.get;
                    sub = v.sub;
                  },
                ))
                (λ t k. k)
                (handle_monitor_get-Ends l monitor (remove_monitor_get_path path s) (u, next))
          | inr (some value, there) ↦
              notify-Ends GetKeeps _ _ s (update_last_changed_time path now s) monitor path
                (λ cb. got cb ok (some value)) _ _ cb (rw (handle_monitor_get, turn, there) refl)
                found
                (λ live. (
                  tail_callbacks path last l s.monitor_get_path fresh live,
                  λ v. record {
                    exist = v.exist;
                    get =
                        assign-Paired path now s.last_changed_time s.monitor_get_path
                          (head_callback path last l s.monitor_get_path live).1 v.get;
                    sub = v.sub;
                  },
                ))
                (λ t k. k)
                (handle_monitor_get-Ends l monitor (update_last_changed_time path now s) (u, next))
        ]
      ]

  pub handle_monitor_sub-Ends :
      (l : Dict Text (List Text)) (monitor : Dict Text Callback) (s : LocFile)
      → Paired l monitor
      → Ends d fs SubKeeps
          (HasCallbacks l s.monitor_sub_path)
          s
          (handle_monitor_sub d fs l monitor s)
  unfolding handle_monitor_sub
  handle_monitor_sub-Ends [] monitor s v =
      inr (record {
        state = s;
        notices = [];
        ran = refl;
        pairs = λ _ w. w;
        kept = (refl, refl, refl);
      })
  handle_monitor_sub-Ends ((path, last) ∷ l) monitor s ((fresh, u), h) =
      let (cb, found) = head_callback path last l monitor h in
      let next = tail_callbacks path last l monitor fresh h in
      elim (get_path_children-cases d fs path) [
        | inl bad ↦
            inl (rw (handle_monitor_sub, bad) refl, λ c. let e = c.listing_now path in absurd (cc))
        | inr (now, listed) ↦ elim (Bool-cases (same_texts last now)) [
          | inl quiet ↦
              skip-Ends SubKeeps _ _ s _ _ (rw (handle_monitor_sub, listed, quiet) refl)
                (tail_callbacks path last l s.monitor_sub_path fresh)
                (handle_monitor_sub-Ends l monitor s (u, next))
          | inr turn ↦
              notify-Ends SubKeeps _ _ s (updata_path_children path now s) monitor path
                (λ cb. children cb ok child_event now) _ _ cb
                (rw (handle_monitor_sub, listed, turn) refl) found
                (λ live. (
                  tail_callbacks path last l s.monitor_sub_path fresh live,
                  λ v. record {
                    exist = v.exist;
                    get = v.get;
                    sub =
                        assign-Paired path now s.last_path_children s.monitor_sub_path
                          (head_callback path last l s.monitor_sub_path live).1 v.sub;
                  },
                ))
                (λ t k. k)
                (handle_monitor_sub-Ends l monitor (updata_path_children path now s) (u, next))
        ]
      ]
