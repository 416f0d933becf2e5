-- ===== src/Zk/Tests/Paths.antt =====
-- Paths that are split.
use config_monitor.Base.{
  ◌≡◌, refl, ◌∷◌, [], ◌++◌, List, some, none, arith, Text, text, returns, reverse,
}
use config_monitor.Zk.SplitPath.{count, find_last_of, split_loop, split_path, split_path_depth}
use config_monitor.Zk.SplitPath.Ancestors.{split_path-eq-prefixes, slash_prefixes}
use config_monitor.Zk.SplitPath.Depth.{split_path_depth-reverse, split_path_depth_overrun}
use config_monitor.Base.{eqb, if◌then◌else◌, throws, invalid_argument, pop_front}

abbrev deep : Text
deep = text "/a/b/c"

deep_split : split_path deep ≡ returns (text "/a" ∷ text "/a/b" ∷ deep ∷ [])
unfolding split_path count split_loop find_last_of
deep_split = refl

count-deep : count deep ≡ 3
unfolding count
count-deep = refl

split_path-eq-prefixes_example : split_path deep ≡ (
    if eqb (count deep) 0
    then throws invalid_argument
    else returns (pop_front (slash_prefixes deep) ++ (deep ∷ [])))
split_path-eq-prefixes_example = split_path-eq-prefixes deep

split_path_depth-reverse_example :
    (above : List Text) × (split_path deep ≡ returns (above ++ (deep ∷ [])))
    × (split_path_depth 3 deep ≡ some (reverse above))
split_path_depth-reverse_example = split_path_depth-reverse 3 deep (omega arith) count-deep

split_path_depth_overrun_example : split_path_depth 2 deep ≡ none
split_path_depth_overrun_example =
    split_path_depth_overrun 2 deep (omega arith) (omega (arith, count-deep))
