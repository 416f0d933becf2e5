-- ===== src/Example/Updates.antt =====
-- The callbacks of unit_test/main.cpp with what config_monitor.hpp tells them.
use config_monitor.Base.{
  ℕ, suc, ◌≤◌, ◌<◌, ◌≡◌, refl, true, false, Option, none, some, List, [], ◌∷◌, arith, Text,
  contains, ltb, nat_eq, ◌==◌, if◌then◌else◌, Outcome, returns, throws, ◌>>=◌, bad_optional_access,
}
use config_monitor.Base.Dict.{Dict, lookup, emplace, assign, lookup-emplace, lookup-assign}
use config_monitor.Zk.Types.{ErrorCode, has_error, ZkEvent, is_delete_event}
use config_monitor.Zk.Delete.{child_path}
use config_monitor.Monitor.{
  Callback, PathEvent, changed, Notification, path_notice, sub_path_notice, value_notice,
  ConfigMonitor, monitor, on_get, Reaction, then_also, watch_sub_path,
}
use config_monitor.Example.{
  Json, Example, RuleModel, rule_model, asset_count, ullong_max, make_rule_model, store_model,
  on_rule, on_associate, whitelist, user_define, intrusion_detect, associate,
}
use config_monitor.Example.Ids.{decimal, parse_id-decimal}

-- The two callbacks are known by numbers.
unfoldable pub async_get_config : Text → Callback → ConfigMonitor → Reaction
async_get_config path rule_cb m = watch_sub_path path rule_cb m

unfoldable pub async_watch_all_config : Callback → Callback → ConfigMonitor → Reaction
unfolding async_get_config
async_watch_all_config rule_cb associate_cb m =
    then_also
      (then_also
        (then_also (async_get_config whitelist rule_cb m) (async_get_config user_define rule_cb))
        (async_get_config intrusion_detect rule_cb))
      (watch_sub_path associate associate_cb)

-- A callback of `watch_sub_path` called with the notifications, in their order.
unfoldable pub deliver :
    {S : Type 0}
    → (PathEvent → Text → Option Text → S → Outcome S)
    → List Notification
    → S
    → Outcome S
deliver f [] s = returns s
deliver f (sub_path_notice cb eve path val ∷ rest) s = f eve path val s >>= λ s'. deliver f rest s'
deliver f (path_notice cb eve val ∷ rest) s = deliver f rest s
deliver f (value_notice cb ec val ∷ rest) s = deliver f rest s

in_range : (id : ℕ) → id < asset_count → id ≤ ullong_max
unfolding asset_count ullong_max
in_range id h = omega arith

only_model : (model : RuleModel) → model ≡ rule_model
only_model rule_model = refl

module _ (j : Json) where
  -- The callback of the example for a rule, given what the monitor tells of a deleted child,
  -- erases no rule: the monitor tells of a deletion without a value, and the callback leaves at
  -- once where there is none.
  pub deleted_rule_stays :
      (prefix : Text) (cb : Callback) (ec : ErrorCode) (eve : ZkEvent) (path : Text)
      (val : Option Text) (m : ConfigMonitor) (rules : Dict ℕ j.J)
      → has_error ec ≡ true
      → is_delete_event eve ≡ true
      → deliver (on_rule j) (on_get (monitor prefix cb) ec eve path val m).told rules
        ≡ returns rules
  unfolding deliver on_rule on_get
  deleted_rule_stays prefix cb ec eve path val m rules e d = rw (e, d)

  -- When a child of a watched prefix, named by the decimal of an id that fits 64 bits, is read
  -- without an error and its value is a JSON document, the callback of the example for what the
  -- monitor then tells returns, with the document under that id and every other rule as it was.
  pub on_rule-updates :
      (prefix : Text) (cb : Callback) (ec : ErrorCode) (eve : ZkEvent) (id : ℕ) (val : Text)
      (json : j.J) (m : ConfigMonitor) (rules : Dict ℕ j.J)
      → has_error ec ≡ false
      → id ≤ ullong_max
      → j.parse val ≡ some json
      → (rules' : Dict ℕ j.J) × (deliver
            (on_rule j)
            (on_get
              (monitor prefix cb)
              ec
              eve
              (child_path prefix (decimal (suc id) id))
              (some val)
              m).told
            rules
          ≡ returns rules')
        × ((k : ℕ) → lookup k rules' ≡ (if k == id then some json else lookup k rules))
  unfolding deliver on_rule on_get
  on_rule-updates prefix cb ec eve id val json m rules e h p = (
    assign id json rules,
    rw (e, p, parse_id-decimal prefix id h),
    λ k. lookup-assign k id json rules,
  )

  make_rule_model-lookup :
      (rule_ids : List ℕ) (rules : Dict ℕ j.J) (k : ℕ)
      → lookup k (make_rule_model j rule_ids rules).0 ≡ elim (lookup k rules) [
        | some r ↦ some r
        | none ↦ if contains rule_ids k then some j.null else none
      ]
  unfolding make_rule_model
  make_rule_model-lookup [] rules k = ground arith
  make_rule_model-lookup (rule_id ∷ rest) rules k = ground (
    arith,
    make_rule_model-lookup rest (emplace rule_id j.null rules) k,
    lookup-emplace k rule_id j.null rules,
  )

  pub on_associate-updates :
      (prefix : Text) (id : ℕ) (val : Text) (json : j.J) (rule_ids : List ℕ) (e : Example j.J)
      → id < asset_count
      → j.parse val ≡ some json
      → j.ids json ≡ some rule_ids
      → (e' : Example j.J) × (on_associate j changed
            (child_path prefix (decimal (suc id) id))
            (some val)
            e
          ≡ returns (some e'))
        × ((k : ℕ) → lookup k e'.models ≡ (if k == id then some rule_model else lookup k e.models))
        × ((k : ℕ)
            → lookup k e'.rules ≡ elim (lookup k e.rules) [
              | some r ↦ some r
              | none ↦ if contains rule_ids k then some j.null else none
            ])
  unfolding on_associate store_model
  on_associate-updates prefix id val json rule_ids e b p q =
      let (rules, model) = make_rule_model j rule_ids e.rules in
      (
        record { rules = rules; models = assign id model e.models },
        rw (p, q, parse_id-decimal prefix id (in_range id b), stored id b),
        λ k. ground (arith, lookup-assign k id model e.models, only_model model),
        make_rule_model-lookup rule_ids e.rules,
      )
    where
      stored : (i : ℕ) → i < asset_count → ltb i asset_count ≡ true
      stored i b = ground arith

  pub bare_asset_throws :
      (prefix : Text) (cb : Callback) (ec : ErrorCode) (eve : ZkEvent) (path : Text)
      (m : ConfigMonitor) (e : Example j.J)
      → has_error ec ≡ false
      → (on_get (monitor prefix cb) ec eve path none m).told
          ≡ sub_path_notice cb changed path none ∷ []
        × (on_associate j changed path none e ≡ throws bad_optional_access)
  unfolding on_associate on_get
  bare_asset_throws prefix cb ec eve path m e h = (ground (arith, h), refl)
