-- ===== src/Zk/Tests/Creation.antt =====
-- `create_path` on the server of two nodes.
use config_monitor.Base.{
  ◌≡◌, refl, true, false, some, List, [], ◌∷◌, ◌++◌, Text, text, text_eq, returns, ◌>>=◌,
}
use native.Mathlib.Decide.{ℕ_discrete}
use config_monitor.Zk.Types.{
  negsuc, zok, zk_open_acl_unsafe, zk_persistent, make_ec, has_error, create_error, enable_ttl,
}
use config_monitor.Zk.SplitPath.{split_path, count, split_loop, find_last_of}
use config_monitor.Zk.Create.{
  CreateArgs, last_request, check_ttl, create_path, create_split, create_ancestors,
  async_create_path, direct, never_called, drive,
}
use config_monitor.Zk.Create.Equivalence.{ending, async_run, async_create_path-create_path}
use config_monitor.Zk.Create.Effects.{Present, create_path_exists}
use config_monitor.Zk.Create.Refusal.{create_path_refused}
use config_monitor.Zk.Tests.Shelf.{inner, on_shelf, shelf, shelf-CreateLaws, shelf-Nodes}

abbrev create_inner : CreateArgs
create_inner = record {
  path = inner;
  value = some (text "v");
  mode = zk_persistent;
  ttl = negsuc 0;
  acl = zk_open_acl_unsafe;
}

inner_created :
    create_path (shelf false) (false, false) create_inner
    ≡ returns ((true, true), make_ec zok, inner)
unfolding create_path create_split create_ancestors check_ttl enable_ttl split_path count split_loop
    find_last_of text_eq ℕ_discrete make_ec
inner_created = refl

no_error_made : has_error (make_ec zok) ≡ false
unfolding has_error make_ec
no_error_made = refl

create_path_exists_example :
    (above : List Text) × (split_path inner ≡ returns (above ++ (inner ∷ [])))
    × (Present (shelf false) (shelf-Nodes false) (true, true) above
        × (on_shelf (true, true) inner ≡ true))
unfolding shelf-Nodes
create_path_exists_example =
    create_path_exists (shelf false) (shelf-Nodes false) (false, false) create_inner
      ((true, true), make_ec zok, inner) inner_created no_error_made

async_create_path-create_path_example :
    async_run (shelf false) (shelf-CreateLaws false) (λ s r. refl) (false, false) create_inner ≡ (
      create_path (shelf false) (false, false) create_inner >>= λ created.
      returns (some (ending (shelf false) (shelf-CreateLaws false) (λ s r. refl) created)))
async_create_path-create_path_example =
    async_create_path-create_path (shelf false) (shelf-CreateLaws false) (λ s r. refl)
      (false, false) create_inner

-- A path that the picky client refuses.
abbrev create_elsewhere : CreateArgs
create_elsewhere = record create_inner { path = text "/c" }

elsewhere_asked :
    async_create_path create_elsewhere ≡ returns (last_request create_elsewhere (text "/c"), direct)
unfolding async_create_path check_ttl enable_ttl split_path count split_loop find_last_of
elsewhere_asked = refl

elsewhere_refused :
    create_error
      ((shelf true).submit_create (false, false) (last_request create_elsewhere (text "/c")))
    ≡ true
unfolding text_eq ℕ_discrete
elsewhere_refused = refl

create_path_refused_example :
    (create_path (shelf true) (false, false) create_elsewhere
      ≡ returns (
        (false, false),
        make_ec
            ((shelf true).submit_create (false, false) (last_request create_elsewhere (text "/c"))),
        [],
      ))
    × (drive (shelf true) 1 (false, false) (last_request create_elsewhere (text "/c")) direct
        ≡ some ((false, false), never_called))
create_path_refused_example =
    create_path_refused (shelf true) (false, false) create_elsewhere
      (last_request create_elsewhere (text "/c"), direct) 0 (shelf-CreateLaws true) elsewhere_asked
      elsewhere_refused
