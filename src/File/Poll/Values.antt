-- ===== src/File/Poll/Values.antt =====
-- The watch on the value of a file of local_file.hpp on a calm disk, poll after poll.
use config_monitor.Base.{
  ℕ, ◌≡◌, refl, inl, inr, Bool, true, false, Option, none, some, List, [], ◌∷◌, arith, Text,
  text_eq, eqb, returns, Bool-cases, Option-cases,
}
use config_monitor.Base.Dict.{
  Dict, lookup, NodupKeys, lookup-assign, lookup-erase, assign-NodupKeys, erase-NodupKeys,
  lookup-cons, lookup-nil,
}
use config_monitor.File.Types.{ok, not_exist}
use config_monitor.File.Disk.{Disk, IsCalm, file_modify_time}
use config_monitor.File.State.{
  LocFile, Callback, Call, got, remove_monitor_get_path, update_last_changed_time,
}
use config_monitor.File.Pairing.{HasCallbacks}
use config_monitor.File.Poll.{Notice, handle_monitor_get}
use config_monitor.File.Poll.Notices.{calls_for}

-- What a poll finds of a file that it last saw at another time or the same.
pub data Finding : Type 0 where
  same : Finding
  changed : ℕ → Text → Finding
  gone : Finding

abbrev pub finding_of : Bool → ℕ → Option Text → Finding
finding_of true now value = same
finding_of false now none = gone
finding_of false now (some v) = changed now v

abbrev pub told_of : Finding → Callback → List Call
told_of same cb = []
told_of (changed now v) cb = got cb ok (some v) ∷ []
told_of gone cb = got cb not_exist none ∷ []

abbrev pub time_after : Option Finding → Option ℕ → Option ℕ
time_after (some (changed now v)) old = some now
time_after (some gone) old = none
time_after _ old = old

abbrev pub callback_after : Option Finding → Option Callback → Option Callback
callback_after (some gone) old = none
callback_after _ old = old

abbrev pub told_all : Option Finding → Option Callback → List Call
told_all (some f) (some cb) = told_of f cb
told_all _ _ = []

module _ (d : Disk) (fs : d.Fs) (c : IsCalm d fs) where
  abbrev pub modified : Text → ℕ
  modified path = (file_modify_time d fs path).1

  abbrev pub finding : ℕ → Text → Finding
  finding last path = finding_of (eqb last (modified path)) (modified path) (c.value path)

  abbrev pub finding_at : Option ℕ → Text → Option Finding
  finding_at none p = none
  finding_at (some last) p = some (finding last p)

  -- What one loop over `l` does, seen from every path.
  pub record Seen (l : Dict Text ℕ) (monitor : Dict Text Callback) (s : LocFile) : Type 0 where
    pub state : LocFile
    pub notices : List Notice
    pub ran : handle_monitor_get d fs l monitor s ≡ returns (state, notices)
    pub told :
        (p : Text) → calls_for p notices ≡ told_all (finding_at (lookup p l) p) (lookup p monitor)
    pub stored :
        (p : Text)
        → lookup p state.last_changed_time
          ≡ time_after (finding_at (lookup p l) p) (lookup p s.last_changed_time)
    pub kept :
        (p : Text)
        → lookup p state.monitor_get_path
          ≡ callback_after (finding_at (lookup p l) p) (lookup p s.monitor_get_path)
    pub nodup : NodupKeys s.last_changed_time → NodupKeys state.last_changed_time
    pub frame : state ≡ record s {
      last_changed_time = state.last_changed_time;
      monitor_get_path = state.monitor_get_path;
    }

  pub handle_monitor_get-Seen :
      (l : Dict Text ℕ) (monitor : Dict Text Callback) (s : LocFile)
      → NodupKeys l
      → HasCallbacks l monitor
      → Seen l monitor s
  unfolding handle_monitor_get calls_for remove_monitor_get_path update_last_changed_time
  handle_monitor_get-Seen [] monitor s u h = record {
    state = s;
    notices = [];
    ran = refl;
    told = λ p. rw lookup-nil;
    stored = λ p. rw lookup-nil;
    kept = λ p. rw lookup-nil;
    nodup = λ u. u;
    frame = refl;
  }
  handle_monitor_get-Seen ((path, last) ∷ l) monitor s (fresh, u) h =
      elim (Bool-cases (eqb last (modified path))) [
        | inl quiet ↦
            let r = handle_monitor_get-Seen l monitor s u later in
            record {
              state = r.state;
              notices = r.notices;
              ran = rw quiet r.ran;
              told = λ p. ground (arith, lookup-cons p path last l, r.told p, quiet, fresh);
              stored = λ p. ground (arith, lookup-cons p path last l, r.stored p, quiet, fresh);
              kept = λ p. ground (arith, lookup-cons p path last l, r.kept p, quiet, fresh);
              nodup = r.nodup;
              frame = r.frame;
            }
        | inr turn ↦ elim (Option-cases (c.value path)) [
          | inl missing ↦
              let (cb, found) = here in
              let r = handle_monitor_get-Seen l monitor (remove_monitor_get_path path s) u later in
              record {
                state = r.state;
                notices = (path, got cb not_exist none) ∷ r.notices;
                ran = ground (arith, turn, c.value_now path, missing, found, r.ran);
                told = λ p.
                    ground
                      (arith, lookup-cons p path last l, r.told p, turn, missing, found, fresh);
                stored = λ p. ground (
                  arith,
                  lookup-cons p path last l,
                  lookup-erase p path s.last_changed_time,
                  r.stored p,
                  turn,
                  missing,
                  fresh,
                );
                kept = λ p. ground (
                  arith,
                  lookup-cons p path last l,
                  lookup-erase p path s.monitor_get_path,
                  r.kept p,
                  turn,
                  missing,
                  fresh,
                );
                nodup = λ v. r.nodup (erase-NodupKeys path s.last_changed_time v);
                frame = r.frame;
              }
          | inr (value, there) ↦
              let (cb, found) = here in
              let now = modified path in
              let r =
                handle_monitor_get-Seen l monitor (update_last_changed_time path now s) u later in
              record {
                state = r.state;
                notices = (path, got cb ok (some value)) ∷ r.notices;
                ran = ground (arith, turn, c.value_now path, there, found, r.ran);
                told = λ p.
                    ground (arith, lookup-cons p path last l, r.told p, turn, there, found, fresh);
                stored = λ p. ground (
                  arith,
                  lookup-cons p path last l,
                  lookup-assign p path now s.last_changed_time,
                  r.stored p,
                  turn,
                  there,
                  fresh,
                );
                kept = λ p. ground (arith, lookup-cons p path last l, r.kept p, turn, there, fresh);
                nodup = λ v. r.nodup (assign-NodupKeys path now s.last_changed_time v);
                frame = r.frame;
              }
        ]
      ]
    where
      here : (cb : Callback) × (lookup path monitor ≡ some cb)
      here = h path last (ground (arith, lookup-cons path path last l))

      later : HasCallbacks l monitor
      later p v e = h p v (ground (arith, lookup-cons p path last l, fresh))

module _ (d : Disk) where
  pub HasCallbacks-Seen :
      (fs : d.Fs) (c : IsCalm d fs) (s : LocFile)
      → HasCallbacks s.last_changed_time s.monitor_get_path
      → (r : Seen d fs c s.last_changed_time s.monitor_get_path s)
      → HasCallbacks r.state.last_changed_time r.state.monitor_get_path
  HasCallbacks-Seen fs c s h r q v e = elim (Option-cases (lookup q s.last_changed_time)) [
    | inl missing ↦ absurd (ground (arith, r.stored q))
    | inr (w, had) ↦ let (cb, found) = h q w had in (cb, ground (arith, r.stored q, r.kept q))
  ]
