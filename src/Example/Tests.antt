-- ===== src/Example/Tests.antt =====
-- The example of unit_test/main.cpp on small data.
use native.Mathlib.Decide.{ℕ_discrete}
use config_monitor.Base.{
  text_eq, ℕ, ◌≡◌, ◌≤◌, refl, true, false, none, some, [], ◌∷◌, ◌++◌, map, Text, text, arith,
  nat_eq, ◌==◌, returns, if◌then◌else◌,
}
use config_monitor.Base.Dict.{Dict, lookup}
use config_monitor.Zk.Types.{
  zok, znonode, no_error, make_ec, has_error, zk_deleted_event, zk_dummy_event, is_delete_event,
}
use config_monitor.Zk.Delete.{child_path}
use config_monitor.Zk.Tests.Shelf.{shelf, outer}
use config_monitor.Zk.Tests.Values.{one_node, one_node-GetLaws}
use config_monitor.Monitor.{monitor, on_get, ConfigMonitor}
use config_monitor.Example.{Json, ullong_max, parse_id, on_rule}
use config_monitor.Example.Ids.{decimal, parse_id-decimal}
use config_monitor.Example.Loading.{sync_get_config}
use config_monitor.Example.Reads.{sync_get_config-values}
use config_monitor.Example.Updates.{deliver, deleted_rule_stays, on_rule-updates}

-- A document is its own text.
abbrev documents : Json
documents = record {
  J = Text;
  null = [];
  parse = λ t. some t;
  id = λ t. some 0;
  ids = λ t. some [];
}

abbrev monitored : ConfigMonitor
monitored = record {
  client = record { heap = []; next = 0 };
  last_sub_path = [];
  watch_record = [];
  watch_sub_record = [];
}

small : 42 ≤ ullong_max
unfolding ullong_max
small = omega arith

parse_id-decimal_example : parse_id (child_path (text "/gateway") (decimal 43 42)) ≡ 42
parse_id-decimal_example = parse_id-decimal (text "/gateway") 42 small

gone : has_error (make_ec znonode) ≡ true
unfolding has_error make_ec
gone = refl

fine : has_error (make_ec zok) ≡ false
unfolding has_error make_ec
fine = refl

is_deletion : is_delete_event zk_deleted_event ≡ true
unfolding is_delete_event
is_deletion = refl

deleted_rule_stays_example :
    deliver
      (on_rule documents)
      (on_get
        (monitor outer 4)
        (make_ec znonode)
        zk_deleted_event
        (text "/a/42")
        none
        monitored).told
      ((42, text "rule") ∷ [])
    ≡ returns ((42, text "rule") ∷ [])
deleted_rule_stays_example =
    deleted_rule_stays documents outer 4 (make_ec znonode) zk_deleted_event (text "/a/42") none
      monitored ((42, text "rule") ∷ []) gone is_deletion

on_rule-updates_example :
    (rules' : Dict ℕ Text) × (deliver
        (on_rule documents)
        (on_get
          (monitor outer 4)
          (make_ec zok)
          zk_dummy_event
          (child_path outer (decimal 43 42))
          (some (text "new"))
          monitored).told
        ((42, text "old") ∷ [])
      ≡ returns rules')
    × ((k : ℕ)
        → lookup k rules'
          ≡ (if k == 42 then some (text "new") else lookup k ((42, text "old") ∷ [])))
on_rule-updates_example =
    on_rule-updates documents outer 4 (make_ec zok) zk_dummy_event 42 (text "new") (text "new")
      monitored ((42, text "old") ∷ []) fine small refl

outer_listed : (shelf false).get_children (true, true) outer ≡ (zok, text "b" ∷ [])
unfolding text_eq ℕ_discrete
outer_listed = refl

sync_get_config-values_example :
    sync_get_config
      (shelf false)
      one_node
      (λ sub. (some (some (text "v")), some (some (text "v"))))
      (true, true)
      outer
      (text "u" ∷ [])
    ≡ returns (
      no_error,
      (text "u" ∷ []) ++ map (λ sub. text "v") (map (child_path outer) (text "b" ∷ [])),
    )
unfolding one_node-GetLaws
sync_get_config-values_example =
    sync_get_config-values (shelf false) one_node one_node-GetLaws
      (λ sub. (some (some (text "v")), some (some (text "v")))) (λ sub. text "v") (true, true) outer
      (text "b" ∷ []) (text "u" ∷ []) outer_listed ((refl, refl), tt)
