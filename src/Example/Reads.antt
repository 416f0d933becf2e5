-- ===== src/Example/Reads.antt =====
-- What unit_test/main.cpp has read when it starts.
use config_monitor.Base.{
  ℕ, ◌≡◌, refl, sym, ◌∙◌, ap, Bool, true, false, Option, none, some, List, [], ◌∷◌, ◌++◌, map,
  arith, Text, All, nat_eq, ◌==◌, if◌then◌else◌, returns, throws, bad_optional_access,
}
use config_monitor.Base.Dict.{Dict, lookup, emplace, lookup-emplace}
use config_monitor.Zk.Types.{no_error, has_error, make_ec, zok, znonode}
use config_monitor.Zk.Delete
use config_monitor.Zk.Delete.{child_path}
use config_monitor.Zk.Client.{Zoo}
use config_monitor.Zk.Value.{ZooGet, GetLaws, get_path_value-node}
use config_monitor.Monitor.Facade.{get_sub_path, get_path_value}
use config_monitor.Example.{Json}
use config_monitor.Example.Loading.{read, collect, sync_get_config, load_rules}

append_nil : (xs : List Text) → xs ++ [] ≡ xs
append_nil [] = refl
append_nil (x ∷ xs) = rw (append_nil xs)

append_snoc : (xs : List Text) (y : Text) (ys : List Text) → (xs ++ (y ∷ [])) ++ ys ≡ xs ++ (y ∷ ys)
append_snoc [] y ys = refl
append_snoc (x ∷ xs) y ys = rw (append_snoc xs y ys)

module _ (z : Zoo) (g : ZooGet) (laws : GetLaws g) (seen : Text → g.Server × g.Server) where
  -- The node of a sub-path stays as it is between the two reads.
  abbrev pub Holds : Text → Option (Option Text) → Type 0
  Holds sub node = (laws.node (seen sub).0 sub ≡ node) × (laws.node (seen sub).1 sub ≡ node)

  read-Holds :
      (sub v : Text) → Holds sub (some (some v)) → read z g seen sub ≡ returns (make_ec zok, some v)
  unfolding get_path_value
  read-Holds sub v (a, b) =
      ground (arith, get_path_value-node g laws (seen sub).0 (seen sub).1 sub (b ∙ sym a))

  collect-values :
      (values : Text → Text) (subs rest configs : List Text)
      → All (λ sub. Holds sub (some (some (values sub)))) subs
      → collect z g seen (subs ++ rest) configs ≡ collect z g seen rest (configs ++ map values subs)
  unfolding collect has_error make_ec
  collect-values values [] rest configs h = rw (append_nil configs)
  collect-values values (sub ∷ subs) rest configs (h, hs) = rw (
    read-Holds sub (values sub) h,
    collect-values values subs rest (configs ++ (values sub ∷ [])) hs,
    append_snoc configs (values sub) (map values subs),
  )

  -- The node that a read stops at: missing, or there with no value.
  abbrev pub broken : Bool → Option (Option Text)
  broken missing = if missing then none else some none

  collect_stops :
      (missing : Bool) (bad : Text) (rest configs : List Text)
      → Holds bad (broken missing)
      → collect z g seen (bad ∷ rest) configs
        ≡ (if missing then returns (make_ec znonode, configs) else throws bad_optional_access)
  unfolding collect has_error make_ec get_path_value
  collect_stops true bad rest configs (a, b) =
      rw (get_path_value-node g laws (seen bad).0 (seen bad).1 bad (b ∙ sym a), a)
  collect_stops false bad rest configs (a, b) =
      rw (get_path_value-node g laws (seen bad).0 (seen bad).1 bad (b ∙ sym a), a)

  listed :
      (s : z.Server) (path : Text) (names configs : List Text)
      → z.get_children s path ≡ (zok, names)
      → sync_get_config z g seen s path configs
        ≡ collect z g seen (map (child_path path) names) configs
  unfolding sync_get_config get_sub_path has_error make_ec Delete.get_sub_path
  listed s path names configs h = rw (h)

  -- When the listing of a path completes with `ZOK`, and each child holds a value that stays
  -- while it is read, on a server that obeys `GetLaws`, `sync_get_config` of the example
  -- appends the values whole, in the order of the listing, and reports no error.
  pub sync_get_config-values :
      (values : Text → Text) (s : z.Server) (path : Text) (names configs : List Text)
      → z.get_children s path ≡ (zok, names)
      → All (λ sub. Holds sub (some (some (values sub)))) (map (child_path path) names)
      → sync_get_config z g seen s path configs
        ≡ returns (no_error, configs ++ map values (map (child_path path) names))
  unfolding collect
  sync_get_config-values values s path names configs h hs =
      let subs = map (child_path path) names in
      listed s path names configs h
      ∙ ap (λ l. collect z g seen l configs) (sym (append_nil subs))
      ∙ collect-values values subs [] configs hs

  pub sync_get_config_stops :
      (values : Text → Text) (missing : Bool) (s : z.Server) (path bad : Text)
      (names rest configs : List Text)
      → z.get_children s path ≡ (zok, names)
      → (good : List Text) → map (child_path path) names ≡ good ++ (bad ∷ rest)
      → All (λ sub. Holds sub (some (some (values sub)))) good
      → Holds bad (broken missing)
      → sync_get_config z g seen s path configs ≡ (
          if missing
          then returns (make_ec znonode, configs ++ map values good)
          else throws bad_optional_access)
  sync_get_config_stops values missing s path bad names rest configs h good split hs b =
      listed s path names configs h
      ∙ ap (λ l. collect z g seen l configs) split
      ∙ collect-values values good (bad ∷ rest) configs hs
      ∙ collect_stops missing bad rest (configs ++ map values good) b

-- The first of the configurations with an id.
unfoldable pub first_with : {J : Type 0} → (Text → ℕ) → (Text → J) → ℕ → List Text → Option J
first_with number json id [] = none
first_with number json id (config ∷ configs) =
    let later = first_with number json id configs in
    if id == number config then some (json config) else later

module _ (j : Json) (number : Text → ℕ) (json : Text → j.J) where
  abbrev pub Parses : Text → Type 0
  Parses config =
      (j.parse config ≡ some (json config)) × (j.id (json config) ≡ some (number config))

  pub load_rules-first :
      (configs : List Text) (rules : Dict ℕ j.J)
      → All Parses configs
      → (loaded : Dict ℕ j.J) × (load_rules j configs rules ≡ returns loaded)
        × ((id : ℕ)
            → lookup id loaded ≡ elim (lookup id rules) [
              | some r ↦ some r
              | none ↦ first_with number json id configs
            ])
  unfolding load_rules first_with
  load_rules-first [] rules h = (rules, refl, λ id. ground arith)
  load_rules-first (config ∷ configs) rules ((p, q), hs) =
      let (loaded, eq, looks) =
        load_rules-first configs (emplace (number config) (json config) rules) hs in
      (
        loaded,
        rw (p, q) eq,
        λ id. ground (arith, looks id, lookup-emplace id (number config) (json config) rules),
      )
