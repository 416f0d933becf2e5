-- ===== src/File/Task/Values.antt =====
-- What the tasks on values do to the disk, and what a reader finds afterwards.
use config_monitor.Base.{
  ◌≡◌, ◌⊎◌, inl, inr, refl, sym, subst, true, false, none, some, [], arith, Text, Bool-cases,
  Option-cases, returns, throws, filesystem_error,
}
use config_monitor.File.Types.{ok, not_exist, already_exist, already_used}
use config_monitor.File.Disk.{Disk, WriteLaws, RemoveLaws, get_file_value, set_file_value}
use config_monitor.File.State.{Callback, created, done}
use config_monitor.File.Task.{run_create, run_delete, run_set}

module _ (d : Disk) (laws : WriteLaws d) where
  -- What a write leaves behind: if it is reported whole and the file opens, its bytes are read;
  -- in any case the file is there.
  abbrev pub Holds : d.Fs → d.Fs → Text → Text → Type 0
  Holds fs' fs'' p v =
      (fs'' ≡ (d.fwrite fs' p v).0)
      × (d.exists fs'' p ≡ some true)
      × ((d.fwrite fs' p v).1 ≡ false
          ⊎ (d.open_read fs'' p ≡ false)
          ⊎ (get_file_value d fs'' p ≡ returns (ok, v)))

  written :
      (fs fs' : d.Fs) (p v : Text)
      → d.open_write fs p ≡ some fs'
      → (set_file_value d fs p v ≡ ((d.fwrite fs' p v).0, ok)) × Holds fs' (d.fwrite fs' p v).0 p v
  unfolding set_file_value get_file_value
  written fs fs' p v e =
      (rw (set_file_value, e) refl, (refl, laws.exists-write fs fs' p v e, whole))
    where
      whole :
          (d.fwrite fs' p v).1 ≡ false
          ⊎ (d.open_read (d.fwrite fs' p v).0 p ≡ false)
          ⊎ (get_file_value d (d.fwrite fs' p v).0 p ≡ returns (ok, v))
      whole = elim (Bool-cases (d.fwrite fs' p v).1) [
        | inr short ↦ inl short
        | inl full ↦ elim (Bool-cases (d.open_read (d.fwrite fs' p v).0 p)) [
          | inr shut ↦ inr (inl shut)
          | inl opens ↦ inr (
              inr (
                rw
                  (
                    get_file_value,
                    opens,
                    laws.size-write fs fs' p v e full,
                    laws.bytes-write fs fs' p v e full,
                  )
                  refl))
        ]
      ]

  -- On a disk that obeys `WriteLaws`, a task that sets a value does one of three things. It
  -- throws, as the test for the file does; it reports `not_exist` and leaves the disk, and the
  -- file was missing or did not open; or it reports ok, and then the file was there and opened,
  -- and is there, and the value is read back, unless `fwrite` or `fclose` reported an error,
  -- which the code does not look at, or the file does not open for reading.
  pub run_set-get_file_value :
      (fs : d.Fs) (p v : Text) (cb : Callback)
      → (run_set d p v cb fs ≡ throws filesystem_error) × (d.exists fs p ≡ none)
        ⊎ (run_set d p v cb fs ≡ returns (fs, done cb not_exist))
          × ((d.exists fs p ≡ some false) ⊎ (d.open_write fs p ≡ none))
        ⊎ ((fs' fs'' : d.Fs) × (run_set d p v cb fs ≡ returns (fs'', done cb ok))
            × (d.exists fs p ≡ some true)
            × (d.open_write fs p ≡ some fs')
            × Holds fs' fs'' p v)
  unfolding run_set set_file_value
  run_set-get_file_value fs p v cb = elim (Option-cases (d.exists fs p)) [
    | inl bad ↦ inl (rw (run_set, bad) refl, bad)
    | inr (false, free) ↦ inr (inl (rw (run_set, free) refl, inl free))
    | inr (true, there) ↦ elim (Option-cases (d.open_write fs p)) [
      | inl shut ↦ inr (inl (rw (run_set, there, set_file_value, shut) refl, inr shut))
      | inr (fs', opens) ↦
          let (set, holds) = written fs fs' p v opens in
          inr (
            inr (
              fs',
              (d.fwrite fs' p v).0,
              rw (run_set, there, set_file_value, opens) refl,
              there,
              opens,
              holds,
            ))
    ]
  ]

  -- A file that was made is there, and is not made again.
  run_create-again :
      (fs fs'' : d.Fs) (p v w name : Text) (cb cb' : Callback)
      → run_create d p v cb fs ≡ returns (fs'', created cb ok name)
      → (fs' : d.Fs) × Holds fs' fs'' p v
        × (name ≡ p)
        × (run_create d p w cb' fs'' ≡ returns (fs'', created cb' already_exist []))
  unfolding run_create set_file_value
  run_create-again fs fs'' p v w name cb cb' e = elim (Option-cases (d.exists fs p)) [
    | inl bad ↦ absurd (ground (arith, bad))
    | inr (true, there) ↦ absurd (ground (arith, there))
    | inr (false, free) ↦ elim (Option-cases (d.create_directories fs (d.parent_path p))) [
      | inl bad ↦ absurd (ground (arith, free, bad))
      | inr (fs1, made) ↦ elim (Option-cases (d.open_write fs1 p)) [
        | inl shut ↦ absurd (ground (arith, free, made, shut))
        | inr (fs', opens) ↦
            let (set, (same, there, whole)) = written fs1 fs' p v opens in
            let left : (d.fwrite fs' p v).0 ≡ fs'' = ground (arith, free, made, opens) in
            let named : p ≡ name = ground (arith, free, made, opens) in
            (
              fs',
              subst (λ t. Holds fs' t p v) left (same, there, whole),
              sym named,
              ground (arith, left, there),
            )
      ]
    ]
  ]

  -- A deletion of what is there, and another one.
  run_delete-again :
      (removes : RemoveLaws d) (fs : d.Fs) (p : Text) (cb cb' : Callback)
      → d.exists fs p ≡ some true
      → (fs' : d.Fs) × ((run_delete d p cb fs ≡ returns (fs', done cb already_used))
          ⊎ (run_delete d p cb fs ≡ returns (fs', done cb ok))
            × (run_delete d p cb' fs' ≡ returns (fs', done cb' not_exist)))
  unfolding run_delete
  run_delete-again removes fs p cb cb' there = (
    (d.remove_all fs p).0,
    elim (Bool-cases (d.remove_all fs p).1) [
      | inl bad ↦ inl (rw (run_delete, there, bad) refl)
      | inr fine ↦ inr (
        rw (run_delete, there, fine) refl,
        rw (run_delete, removes.exists-remove_all fs p fine) refl,
      )
    ],
  )

  -- On a disk that obeys `WriteLaws` and `RemoveLaws`, when a task that creates a path returns
  -- and reports ok, the path is reported itself and its value is read back, unless `fwrite` or
  -- `fclose` reported an error or the file does not open for reading; a second one on the path
  -- then reports `already_exist` and changes nothing. A task that deletes the path instead
  -- returns, and reports `already_used`, or ok, and then another deletion reports `not_exist`
  -- and changes nothing.
  pub run_create-run_delete :
      (removes : RemoveLaws d) (fs fs'' : d.Fs) (p v w name : Text) (cb cb' : Callback)
      → run_create d p v cb fs ≡ returns (fs'', created cb ok name)
      → ((fs' : d.Fs) × Holds fs' fs'' p v)
        × (name ≡ p)
        × (run_create d p w cb' fs'' ≡ returns (fs'', created cb' already_exist []))
        × ((gone : d.Fs) × ((run_delete d p cb fs'' ≡ returns (gone, done cb already_used))
              ⊎ (run_delete d p cb fs'' ≡ returns (gone, done cb ok))
                × (run_delete d p cb' gone ≡ returns (gone, done cb' not_exist))))
  run_create-run_delete removes fs fs'' p v w name cb cb' e =
      let (fs', (same, there, whole), named, again) =
        run_create-again fs fs'' p v w name cb cb' e in
      ((fs', (same, there, whole)), named, again, run_delete-again removes fs'' p cb cb' there)
