-- ===== src/Zk/Tests/RoundTrips.antt =====
-- Creation, reading and deletion on a server that keeps its nodes in a dictionary.
use config_monitor.Base.{◌≡◌, refl, none, some, [], ◌∷◌, arith, Text, text, text_eq, returns}
use config_monitor.Base.Dict.{lookup}
use config_monitor.Zk.Types.{zok, zk_open_acl_unsafe, zk_persistent, negsuc, make_ec, no_error}
use config_monitor.Zk.SplitPath.{count}
use config_monitor.Zk.Create.{CreateArgs, create_path}
use config_monitor.Zk.Value.{get_path_value}
use config_monitor.Zk.Ensemble.{reader, is_there}
use config_monitor.Zk.Ensemble.Creation.{IsApart, Stays, create_path-get_path_value}
use config_monitor.Zk.Ensemble.RoundTrip.{create_path-delete_path}
use config_monitor.Zk.Delete.{delete_path}
use config_monitor.Zk.Tests.Keeper.{Kept, keeper, keeper-GetLaws, keeper-EnsembleLaws}

abbrev request : Text → CreateArgs
request value = record {
  path = text "/test/1";
  value = some value;
  mode = zk_persistent;
  ttl = negsuc 0;
  acl = zk_open_acl_unsafe;
}

plain_names : (count (text "test") ≡ 0) × (count (text "1") ≡ 0)
unfolding count
plain_names = (refl, refl)

create_path-get_path_value_example :
    (s' : Kept) × (create_path keeper.zoo [] (request (text "v"))
      ≡ returns (s', make_ec zok, text "/test/1"))
    × (get_path_value (reader keeper) s' s' (text "/test/1")
        ≡ returns (make_ec zok, some (text "v")))
unfolding keeper-EnsembleLaws keeper-GetLaws lookup
create_path-get_path_value_example =
    create_path-get_path_value keeper keeper-EnsembleLaws [] (request (text "v")) (text "test")
      (text "1" ∷ []) (plain_names.0, (plain_names.1, tt)) refl refl refl
      (refl, refl, (refl, refl, tt))

abbrev one_node : Kept
one_node = (text "/a", some (text "x")) ∷ []

create_path-delete_path_example :
    (s' s'' : Kept) × (create_path keeper.zoo one_node (request (text "v"))
      ≡ returns (s', make_ec zok, text "/test/1"))
    × (delete_path keeper.zoo 1 s' (text "/test/1") ≡ some (s'', no_error))
    × (lookup (text "/test/1") s'' ≡ none)
    × Stays keeper keeper-EnsembleLaws one_node s''
    × ((q : Text)
        → IsApart keeper keeper-EnsembleLaws q (text "/test" ∷ text "/test/1" ∷ [])
        → is_there (lookup q s'') ≡ is_there (lookup q one_node))
unfolding keeper-EnsembleLaws keeper-GetLaws lookup
create_path-delete_path_example =
    create_path-delete_path keeper keeper-EnsembleLaws one_node (request (text "v")) (text "test")
      (text "1" ∷ []) (plain_names.0, (plain_names.1, tt)) refl refl refl
      (refl, ground arith, (refl, ground arith, tt)) (ground arith) (λ n h. ground arith)
