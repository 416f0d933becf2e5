-- ===== src/Example/Loading.antt =====
-- `sync_get_config` and `sync_get_all_config` of unit_test/main.cpp: the rules and the assets'
-- lists of rules, read when the program starts.
use config_monitor.Base.{
  ℕ, ◌+◌, ◌-◌, ◌%◌, ◌^◌, Option, none, some, List, [], ◌∷◌, ◌++◌, Text, ltb, nat_eq, if◌then◌else◌,
  Outcome, returns, ◌>>=◌,
}
use config_monitor.Base.Dict
use config_monitor.Base.Dict.{Dict, lookup, lookup-emplace}
use config_monitor.Zk.Types.{ErrorCode, no_error, has_error}
use config_monitor.Zk.Client.{Zoo}
use config_monitor.Zk.Value.{ZooGet, Value}
use config_monitor.Monitor.Facade.{get_sub_path, get_path_value}
use config_monitor.Example.{
  Json, Example, value_of, expect_json, parse_id, store_model, whitelist, user_define,
  intrusion_detect, associate,
}

-- The error code returned, and the deque `configs`.
abbrev pub Configs : Type 0
Configs = Outcome (ErrorCode × List Text)

-- A key of `asset_rules` is an `int32_t`, here by its bits, and an index is that key widened to
-- `size_t`: a negative one is beyond the array.
unfoldable pub asset_key : ℕ → ℕ
asset_key id = id % 2 ^ 32

unfoldable pub asset_index : ℕ → ℕ
asset_index key = if ltb key (2 ^ 31) then key else (2 ^ 64 - 2 ^ 32) + key

-- What a path holds at the two reads of `get_path_value`.
module _ (z : Zoo) (g : ZooGet) (seen : Text → g.Server × g.Server) where
  abbrev pub read : Text → Value
  read sub = get_path_value g (seen sub).0 (seen sub).1 sub

  -- The loop over the sub-paths.
  unfoldable pub collect : List Text → List Text → Configs
  unfolding has_error
  collect [] configs = returns (no_error, configs)
  collect (sub ∷ subs) configs = read sub >>= λ got.
      (if has_error got.0
        then returns (got.0, configs)
        else (value_of got.1 >>= λ v. collect subs (configs ++ (v ∷ []))))

  unfoldable pub sync_get_config : z.Server → Text → List Text → Configs
  unfolding collect has_error
  sync_get_config s path configs =
      let (ec, subs) = get_sub_path z s path in
      if has_error ec then returns (ec, configs) else collect subs configs

  -- `[_, subs]` of the associates, and the loop that fills `asset_rules`; none where it returns.
  module _ (j : Json) where
    abbrev pub AssetRules : Type 0
    AssetRules = Dict ℕ (List ℕ)

    unfoldable pub collect_assets : List Text → AssetRules → Outcome (Option AssetRules)
    unfolding has_error asset_key
    collect_assets [] asset_rules = returns (some asset_rules)
    collect_assets (sub ∷ subs) asset_rules = read sub >>= λ got.
        (if has_error got.0
          then returns none
          else (value_of got.1 >>= λ v. expect_json (j.parse v) >>= λ json.
              expect_json (j.ids json) >>= λ ids.
              collect_assets subs (Dict.emplace (asset_key (parse_id sub)) ids asset_rules)))

module _ (j : Json) where
  -- The loop over `rule_configs`.
  unfoldable pub load_rules : List Text → Dict ℕ j.J → Outcome (Dict ℕ j.J)
  load_rules [] rules = returns rules
  load_rules (config ∷ configs) rules = expect_json (j.parse config) >>= λ json.
      expect_json (j.id json) >>= λ id. load_rules configs (Dict.emplace id json rules)

  -- The loop over `asset_rules`; none where an entry beyond the array is written.
  unfoldable pub store_models : Dict ℕ (List ℕ) → Example j.J → Option (Example j.J)
  unfolding asset_index store_model
  store_models [] e = some e
  store_models ((key, rule_ids) ∷ rest) e = elim (store_model j (asset_index key) rule_ids e) [
    | none ↦ none
    | some e' ↦ store_models rest e'
  ]

  module _ (z : Zoo) (g : ZooGet) (seen : Text → g.Server × g.Server) where
    unfoldable pub load_assets : z.Server → Example j.J → Outcome (Option (Example j.J))
    unfolding collect_assets store_models has_error
    load_assets s e =
        let (ec, subs) = get_sub_path z s associate in
        if has_error ec
        then returns (some e)
        else (collect_assets z g seen j subs [] >>= λ found.
            returns (elim found [ none ↦ some e | some asset_rules ↦ store_models asset_rules e ]))

    unfoldable pub sync_get_all_config : z.Server → Example j.J → Outcome (Option (Example j.J))
    unfolding sync_get_config load_rules load_assets
    sync_get_all_config s e = sync_get_config z g seen s whitelist [] >>= λ a.
        sync_get_config z g seen s user_define a.1 >>= λ b.
        sync_get_config z g seen s intrusion_detect b.1 >>= λ c.
        load_rules c.1 e.rules >>= λ rules. load_assets s (record e { rules = rules })
