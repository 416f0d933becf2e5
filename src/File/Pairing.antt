-- ===== src/File/Pairing.antt =====
-- The invariant of the six maps: whatever is watched has a callback.
pub mod Handlers
pub mod Requests
use config_monitor.Base.{
  ℕ, ◌≡◌, refl, ◌⊎◌, inl, inr, Bool, true, false, Option, none, some, List, [], ◌∷◌, arith, Text,
  text_eq, Option-cases,
}
use config_monitor.Base.Dict
use config_monitor.Base.Dict.{
  Dict, lookup, assign, emplace, erase, NodupKeys, lookup-assign, lookup-emplace, lookup-erase,
  assign-NodupKeys, emplace-NodupKeys, erase-NodupKeys,
}
use config_monitor.File.State.{LocFile, Callback}

-- A map of what was seen last, and the map of the callbacks: keys stand once, and each has a callback.
abbrev pub HasCallbacks {ℓ} : {V : Type ℓ} → Dict Text V → Dict Text Callback → Type ℓ
HasCallbacks {V = V} d monitor =
    (p : Text) (v : V) → lookup p d ≡ some v → (cb : Callback) × (lookup p monitor ≡ some cb)

abbrev pub Paired {ℓ} : {V : Type ℓ} → Dict Text V → Dict Text Callback → Type ℓ
Paired d monitor = NodupKeys d × HasCallbacks d monitor

module _ {ℓ} {V : Type ℓ} where
  pub assign-Paired :
      (k : Text) (v : V) (d : Dict Text V) (monitor : Dict Text Callback) {cb : Callback}
      → lookup k monitor ≡ some cb
      → Paired d monitor
      → Paired (assign k v d) monitor
  assign-Paired k v d monitor {cb} found (u, h) = (
    assign-NodupKeys k v d u,
    λ p w e. elim (Option-cases (lookup p d)) [
      | inl missing ↦ (cb, ground (arith, lookup-assign p k v d))
      | inr (old, had) ↦ h p old had
    ],
  )

  pub emplace-Paired :
      (k : Text) (v : V) (cb : Callback) (d : Dict Text V) (monitor : Dict Text Callback)
      → Paired d monitor
      → Paired (emplace k v d) (emplace k cb monitor)
  emplace-Paired k v cb d monitor (u, h) = (emplace-NodupKeys k v d u, holds)
    where
      holds : HasCallbacks (emplace k v d) (emplace k cb monitor)
      holds p w e = elim (Option-cases (lookup p monitor)) [
        | inl missing ↦ (cb, fresh missing)
        | inr (c, had) ↦ (c, rw (lookup-emplace p k cb monitor, had))
      ]
        where
          fresh : lookup p monitor ≡ none → lookup p (emplace k cb monitor) ≡ some cb
          fresh missing = elim (Option-cases (lookup p d)) [
            | inl new ↦ ground (arith, lookup-emplace p k v d, lookup-emplace p k cb monitor)
            | inr (x, had) ↦ let (c, there) = h p x had in cc
          ]

  pub erase-Paired :
      (k : Text) (d : Dict Text V) (monitor : Dict Text Callback)
      → Paired d monitor
      → Paired (erase k d) (erase k monitor)
  erase-Paired k d monitor (u, h) = (erase-NodupKeys k d u, holds)
    where
      holds : HasCallbacks (erase k d) (erase k monitor)
      holds p w e =
          let (cb, had) = h p w (ground (arith, lookup-erase p k d)) in
          (cb, ground (arith, lookup-erase p k d, lookup-erase p k monitor))

pub record IsPaired (s : LocFile) : Type 0 where
  pub exist : Paired s.last_existed_status s.monitor_exist_path
  pub get : Paired s.last_changed_time s.monitor_get_path
  pub sub : Paired s.last_path_children s.monitor_sub_path
