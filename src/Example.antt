-- ===== src/Example.antt =====
-- unit_test/main.cpp: a program that keeps the rules and the assets of a gateway in step with
-- ZooKeeper, as an example of the library's use.
pub mod Ids
pub mod Loading
pub mod Reads
pub mod Updates
mod Tests
use config_monitor.Base.{
  ℕ, zero, suc, ◌+◌, ◌-◌, ◌*◌, ◌%◌, ◌^◌, Bool, true, false, not, ◌&&◌, ◌||◌, Option, none, some,
  List, [], ◌∷◌, ◌++◌, Text, text, drop, eqb, leb, ltb, nat_eq, if◌then◌else◌, Outcome, returns,
  throws, ◌>>=◌, bad_optional_access, json_exception,
}
use config_monitor.Base.Dict
use config_monitor.Base.Dict.{Dict}
use config_monitor.Zk.Types.{ErrorCode, no_error, has_error}
use config_monitor.Zk.SplitPath.{find_last_of}
use config_monitor.Zk.Client.{Zoo}
use config_monitor.Zk.Value.{ZooGet, Value}
use config_monitor.Monitor.{
  PathEvent, changed, del, Notification, path_notice, sub_path_notice, value_notice,
}
use config_monitor.Monitor.Facade.{get_sub_path, get_path_value}

-- `std::strtoull` in base 10: white space, a sign, digits; none where there is no digit.
unfoldable pub is_space : ℕ → Bool
is_space c = eqb c b' ' || (leb 9 c && leb c 13)

unfoldable pub is_digit : ℕ → Bool
is_digit c = leb b'0' c && leb c b'9'

unfoldable pub skip_space : Text → Text
unfolding is_space
skip_space [] = []
skip_space (c ∷ cs) = let rest = skip_space cs in if is_space c then rest else c ∷ cs

unfoldable pub scan : ℕ → Text → ℕ
unfolding is_digit
scan value [] = value
scan value (c ∷ cs) =
    let more = scan (value * 10 + (c - b'0')) cs in if is_digit c then more else value

unfoldable pub ullong_max : ℕ
ullong_max = 2 ^ 64 - 1

-- The value of the digits, however great.
unfoldable pub unsigned : Text → Option ℕ
unfolding scan
unsigned [] = none
unsigned (c ∷ cs) = let value = scan 0 (c ∷ cs) in if is_digit c then some value else none

-- A value that does not fit becomes the greatest one; a value with a minus is negated in the
-- unsigned type.
unfoldable pub clamped : Option ℕ → Option ℕ
clamped none = none
clamped (some v) = some (if leb v ullong_max then v else ullong_max)

unfoldable pub negated : Option ℕ → Option ℕ
negated none = none
negated (some v) =
    some (if leb v ullong_max then (ullong_max + 1 - v) % (ullong_max + 1) else ullong_max)

unfoldable pub signed : Text → Option ℕ
unfolding unsigned clamped negated
signed [] = none
signed (c ∷ cs) =
    if eqb c b'-'
    then negated (unsigned cs)
    else if eqb c b'+'
    then clamped (unsigned cs)
    else clamped (unsigned (c ∷ cs))

unfoldable pub strtoull : Text → Option ℕ
unfolding skip_space signed
strtoull t = signed (skip_space t)

-- `sub_path.substr(pos + 1)`
unfoldable pub last_name : Text → Text
unfolding find_last_of
last_name sub_path = elim (find_last_of sub_path) [
  | none ↦ sub_path
  | some pos ↦ drop (suc pos) sub_path
]

unfoldable pub parse_id : Text → ℕ
unfolding strtoull last_name
parse_id sub_path = elim (strtoull (last_name sub_path)) [ none ↦ 0 | some id ↦ id ]

-- `nlohmann::json`: none is an exception of the library.
pub record Json : Type 1 where
  pub J : Type 0
  pub null : J
  pub parse : Text → Option J
  -- `j["id"]` as a `size_t`.
  pub id : J → Option ℕ
  -- `j.get<std::vector<size_t>>()`
  pub ids : J → Option (List ℕ)

-- `rule_model` has no fields.
pub data RuleModel : Type 0 where
  rule_model : RuleModel

-- `rule_id_to_json_`, and the entries of `asset_rule_models_` that are not null.
pub record Example (J : Type 0) : Type 0 where
  pub rules : Dict ℕ J
  pub models : Dict ℕ RuleModel

abbrev pub whitelist : Text
whitelist = text "/gateway/policy/whitelist"

abbrev pub user_define : Text
user_define = text "/gateway/policy/user_define"

abbrev pub intrusion_detect : Text
intrusion_detect = text "/gateway/policy/intrusion_detect"

abbrev pub associate : Text
associate = text "/gateway/policy/associate"

-- The size of `asset_rule_models_`.
unfoldable pub asset_count : ℕ
asset_count = 1000000

abbrev pub expect_json {ℓ} : {A : Type ℓ} → Option A → Outcome A
expect_json none = throws json_exception
expect_json (some a) = returns a

-- `val.value()`
abbrev pub value_of : Option Text → Outcome Text
value_of none = throws bad_optional_access
value_of (some v) = returns v

module _ (j : Json) where
  -- `rule_id_to_json_[rule_id]` puts a null where there is no such rule.
  unfoldable pub make_rule_model : List ℕ → Dict ℕ j.J → Dict ℕ j.J × RuleModel
  make_rule_model [] rules = (rules, rule_model)
  make_rule_model (rule_id ∷ rest) rules = make_rule_model rest (Dict.emplace rule_id j.null rules)

  -- An entry beyond the array is undefined: none.
  unfoldable pub store_model : ℕ → List ℕ → Example j.J → Option (Example j.J)
  unfolding make_rule_model
  store_model asset_id rule_ids e =
      let (rules, model) = make_rule_model rule_ids e.rules in
      if ltb asset_id asset_count
      then some (record { rules = rules; models = Dict.assign asset_id model e.models })
      else none

  -- The callbacks of `async_get_config` and of `async_watch_all_config`.
  unfoldable pub on_rule : PathEvent → Text → Option Text → Dict ℕ j.J → Outcome (Dict ℕ j.J)
  on_rule eve changed_path none rules = returns rules
  on_rule changed changed_path (some val) rules =
      expect_json (j.parse val) >>= λ json. returns (Dict.assign (parse_id changed_path) json rules)
  on_rule del changed_path (some val) rules = returns (Dict.erase (parse_id changed_path) rules)

  unfoldable pub on_associate :
      PathEvent → Text → Option Text → Example j.J → Outcome (Option (Example j.J))
  unfolding store_model
  on_associate del changed_path val e =
      let asset_id = parse_id changed_path in
      returns (
        if ltb asset_id asset_count
        then some (record e { models = Dict.erase asset_id e.models })
        else none)
  on_associate changed changed_path val e = value_of val >>= λ v.
      expect_json (j.parse v) >>= λ json. expect_json (j.ids json) >>= λ rule_ids.
      returns (store_model (parse_id changed_path) rule_ids e)
