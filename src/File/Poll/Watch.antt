-- ===== src/File/Poll/Watch.antt =====
-- The shape that the handlers for existence and for listings share: look at each path of a map, and
-- where what is seen is not what was seen last, store it and call.
use config_monitor.Base.{
  ◌≡◌, refl, inl, inr, Bool, Option, none, some, List, [], ◌∷◌, arith, Text, text_eq, if◌then◌else◌,
  Outcome, returns, throws, ◌>>=◌, bad_function_call, Bool-cases, Option-cases,
}
use config_monitor.Base.Dict
use config_monitor.Base.Dict.{
  Dict, lookup, NodupKeys, lookup-assign, assign-NodupKeys, lookup-cons, lookup-nil,
}
use config_monitor.File.State.{Callback, Call}
use config_monitor.File.Pairing.{HasCallbacks}
use config_monitor.File.Poll.{Notice}
use config_monitor.File.Poll.Notices.{calls_for}

module _ {A : Type 0} (same : A → A → Bool) (call : A → A → Callback → Call) where
  -- The calls of one loop, and what it stores.
  unfoldable pub tell : (Text → A) → Dict Text A → Dict Text Callback → Outcome (List Notice)
  tell now [] monitor = returns []
  tell now ((path, last) ∷ rest) monitor =
      let more = tell now rest monitor in
      if same last (now path) then more else elim (lookup path monitor) [
        | none ↦ throws bad_function_call
        | some cb ↦ more >>= λ calls. returns ((path, call last (now path) cb) ∷ calls)
      ]

  unfoldable pub updated : (Text → A) → Dict Text A → Dict Text A → Dict Text A
  updated now [] seen = seen
  updated now ((path, last) ∷ rest) seen =
      updated now rest (if same last (now path) then seen else Dict.assign path (now path) seen)

  -- What is told of one path, and what is stored for it.
  abbrev pub expected_calls : Option A → Option Callback → A → List Call
  expected_calls none cb now = []
  expected_calls (some last) none now = []
  expected_calls (some last) (some cb) now = if same last now then [] else call last now cb ∷ []

  abbrev pub expected : Option A → Option A → A → Option A
  expected none old now = old
  expected (some last) old now = if same last now then old else some now

  pub record Told (now : Text → A) (l : Dict Text A) (monitor : Dict Text Callback) : Type 0 where
    pub notices : List Notice
    pub ran : tell now l monitor ≡ returns notices
    pub told :
        (p : Text) → calls_for p notices ≡ expected_calls (lookup p l) (lookup p monitor) (now p)

  pub tell-Told :
      (now : Text → A) (l : Dict Text A) (monitor : Dict Text Callback)
      → NodupKeys l
      → HasCallbacks l monitor
      → Told now l monitor
  unfolding tell calls_for
  tell-Told now [] monitor u h = record { notices = []; ran = refl; told = λ p. rw lookup-nil }
  tell-Told now ((path, last) ∷ l) monitor (fresh, u) h =
      let r = tell-Told now l monitor u later in
      elim (Bool-cases (same last (now path))) [
        | inl quiet ↦ record {
          notices = r.notices;
          ran = rw quiet r.ran;
          told = λ p. ground (arith, lookup-cons p path last l, r.told p, quiet, fresh);
        }
        | inr turn ↦
            let (cb, found) = here in
            record {
              notices = (path, call last (now path) cb) ∷ r.notices;
              ran = ground (arith, turn, found, r.ran);
              told = λ p. ground (arith, lookup-cons p path last l, r.told p, turn, found, fresh);
            }
      ]
    where
      here : (cb : Callback) × (lookup path monitor ≡ some cb)
      here = h path last (ground (arith, lookup-cons path path last l))

      later : HasCallbacks l monitor
      later p v e = h p v (ground (arith, lookup-cons p path last l, fresh))

  pub lookup-updated :
      (now : Text → A) (l seen : Dict Text A) (p : Text)
      → NodupKeys l
      → lookup p (updated now l seen) ≡ expected (lookup p l) (lookup p seen) (now p)
  unfolding updated
  lookup-updated now [] seen p u = rw lookup-nil
  lookup-updated now ((path, last) ∷ l) seen p (fresh, u) = ground (
    arith,
    lookup-cons p path last l,
    fresh,
    lookup-updated now l seen p u,
    lookup-updated now l (Dict.assign path (now path) seen) p u,
    lookup-assign p path (now path) seen,
  )

  pub updated-NodupKeys :
      (now : Text → A) (l seen : Dict Text A) → NodupKeys seen → NodupKeys (updated now l seen)
  unfolding updated
  updated-NodupKeys now [] seen u = u
  updated-NodupKeys now ((path, last) ∷ l) seen u = elim (Bool-cases (same last (now path))) [
    | inl quiet ↦ rw quiet (updated-NodupKeys now l seen u)
    | inr turn ↦ rw turn (
        updated-NodupKeys now l (Dict.assign path (now path) seen)
          (assign-NodupKeys path (now path) seen u))
  ]

  -- A loop over the map that it stores into leaves each path with its callback.
  pub updated-HasCallbacks :
      (now : Text → A) (l : Dict Text A) (monitor : Dict Text Callback)
      → NodupKeys l
      → HasCallbacks l monitor
      → HasCallbacks (updated now l l) monitor
  updated-HasCallbacks now l monitor u h p v e = elim (Option-cases (lookup p l)) [
    | inl missing ↦ absurd (ground (arith, lookup-updated now l l p u))
    | inr (w, had) ↦ h p w had
  ]
