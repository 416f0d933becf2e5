-- ===== src/Zk/Tests/Keeper.antt =====
-- A server that keeps its nodes in a dictionary, below any parent.
use config_monitor.Base.{
  ◌+◌, ◌-◌, ◌≤◌, ◌≡◌, ◌≢◌, refl, true, false, not, ◌&&◌, Option, none, some, ◌++◌, arith, Text,
  text, text_eq, ◌==◌, length, length-append, take, eqb, if◌then◌else◌,
}
use config_monitor.Base.Dict
use config_monitor.Base.Dict.{Dict, lookup, lookup-assign, lookup-erase}
use config_monitor.Zk.Types.{Rc, zok, znonode, znodeexists, failed}
use config_monitor.Zk.Client.{CreateRequest, CreateLaws, DeleteLaws, or_empty}
use config_monitor.Zk.Value.{GetLaws}
use config_monitor.Zk.Setter.{SetLaws}
use config_monitor.Zk.Delete.Nodes.{NodeLaws}
use config_monitor.Zk.Ensemble.{Ensemble, EnsembleLaws, reader, is_there}
use config_monitor.Zk.Tests.Children.{
  children_of, contains-children_of, plain-children_of, IsDistinct-children_of,
}
use config_monitor.Zk.Tests.Values.{answer_of}

abbrev pub Kept : Type 0
Kept = Dict Text (Option Text)

-- Mode 2 puts a number behind the path.
abbrev numbered_path : Text → Text
numbered_path path = path ++ text "0000000001"

abbrev persist : Kept → CreateRequest → Option (Option Text) → Kept × Rc × Option Text
persist s r none = (Dict.assign r.path r.value s, zok, some r.path)
persist s r (some old) = (s, znodeexists, none)

abbrev create_node : Kept → CreateRequest → Kept × Rc × Option Text
create_node s r =
    if eqb r.mode 2
    then (Dict.assign (numbered_path r.path) r.value s, zok, some (numbered_path r.path))
    else persist s r (lookup r.path s)

abbrev put_value : Kept → Text → Text → Option (Option Text) → Kept × Rc
put_value s p v none = (s, znonode)
put_value s p v (some old) = (Dict.assign p (some v) s, zok)

abbrev listing_code : Option (Option Text) → Rc
listing_code none = znonode
listing_code (some v) = zok

abbrev value_got : Option (Option Text) → Rc × Option Text
value_got none = (znonode, none)
value_got (some v) = (zok, v)

abbrev pub keeper : Ensemble
keeper = record {
  zoo = record {
    Server = Kept;
    create2_ttl =
        λ s r n. let (s', rc, name) = create_node s r in (s', rc, take (n - 1) (or_empty name));
    submit_create = λ s r. zok;
    complete_create = create_node;
    delete = λ s p. (Dict.erase p s, zok);
    submit_delete = λ s p. zok;
    complete_delete = λ s p. (Dict.erase p s, zok);
    get_children = λ s p. (listing_code (lookup p s), children_of p s);
    submit_children = λ s p. zok;
    complete_children = λ s p. (listing_code (lookup p s), some (children_of p s));
  };
  get = λ s p n. answer_of (lookup p s) n;
  set = record {
    set = λ s p v. put_value s p v (lookup p s);
    submit_set = λ s p v. zok;
    complete_set = λ s p v. put_value s p v (lookup p s);
  };
  complete_get = λ s p. value_got (lookup p s);
}

pub keeper-CreateLaws : CreateLaws keeper.zoo
keeper-CreateLaws = record {
  refused = λ s r n e. absurd (cc);
  awaited = λ s r n e. refl;
  named = λ s r. bounded s r (lookup r.path s) refl;
  unnamed = λ s r e. nameless s r (lookup r.path s) refl e;
}
  where
    bounded :
        (s : Kept) (r : CreateRequest) (old : Option (Option Text))
        → lookup r.path s ≡ old
        → length (or_empty (create_node s r).2) ≤ length r.path + 10
    bounded s r none e = ground (arith, length-append r.path (text "0000000001"))
    bounded s r (some v) e = ground (arith, length-append r.path (text "0000000001"))

    nameless :
        (s : Kept) (r : CreateRequest) (old : Option (Option Text))
        → lookup r.path s ≡ old
        → failed (create_node s r).1 ≡ true
        → (create_node s r).2 ≡ none
    nameless s r none e bad = ground arith
    nameless s r (some v) e bad = ground arith

unfoldable pub keeper-GetLaws : GetLaws (reader keeper)
keeper-GetLaws = record {
  node = λ s p. lookup p s;
  absent = λ s p n e. rw e refl;
  null = λ s p n e. rw e refl;
  valued = λ s p n v e. rw e refl;
}

pub keeper-SetLaws : SetLaws (reader keeper) keeper-GetLaws keeper.set
unfolding keeper-GetLaws
keeper-SetLaws = record {
  stored = λ s p v ok. stored s p v (lookup p s) refl ok;
  unchanged = λ s p v bad. unchanged s p v (lookup p s) refl bad;
  awaited = λ s p v e. refl;
  refused = λ s p v e. absurd (cc);
}
  where
    stored :
        (s : Kept) (p v : Text) (old : Option (Option Text))
        → lookup p s ≡ old
        → failed (keeper.set.set s p v).1 ≡ false
        → lookup p (keeper.set.set s p v).0 ≡ some (some v)
    stored s p v none e ok = absurd (ground arith)
    stored s p v (some old) e ok = ground (arith, lookup-assign p p (some v) s)

    unchanged :
        (s : Kept) (p v : Text) (old : Option (Option Text))
        → lookup p s ≡ old
        → failed (keeper.set.set s p v).1 ≡ true
        → (keeper.set.set s p v).0 ≡ s
    unchanged s p v none e bad = ground arith
    unchanged s p v (some old) e bad = absurd (ground arith)

pub read_back :
    (p : Text) (value : Option Text) (s : Kept) → lookup p (Dict.assign p value s) ≡ some value
read_back p value s = ground (arith, lookup-assign p p value s)

pub longer : (path : Text) → (numbered_path path == path) ≡ false
longer path = ground (arith, length-append path (text "0000000001"))

pub keeper-DeleteLaws : DeleteLaws keeper.zoo
keeper-DeleteLaws = record {
  accepts_children = λ s p. refl;
  accepts_delete = λ s p. refl;
  children_rc = λ s p. refl;
  children_names = λ s p. refl;
  deleted = λ s p. refl;
}

pub got_value :
    (v : Option (Option Text)) → value_got v ≡ elim v [ none ↦ (znonode, none) | some w ↦ (zok, w) ]
got_value none = refl
got_value (some w) = refl

pub there-erase :
    (s : Kept) (p q : Text)
    → is_there (lookup q (Dict.erase p s)) ≡ (is_there (lookup q s) && not (q == p))
there-erase s p q = ground (arith, lookup-erase q p s)

unfoldable pub keeper-NodeLaws : NodeLaws keeper.zoo
keeper-NodeLaws = record {
  exists = λ s p. is_there (lookup p s);
  removable = λ s p there bare. refl;
  removed = λ s p q done. there-erase s p q;
  listed = λ s p n ok plain. contains-children_of p s n plain;
}

pub listed_code : (v : Option (Option Text)) → v ≢ none → listing_code v ≡ zok
listed_code none there = absurd (there refl)
listed_code (some v) there = refl

unfoldable pub keeper-EnsembleLaws : EnsembleLaws keeper
unfolding keeper-GetLaws keeper-NodeLaws
keeper-EnsembleLaws = record {
  creates = keeper-CreateLaws;
  reads = keeper-GetLaws;
  writes = keeper-SetLaws;
  deletes = keeper-DeleteLaws;
  nodes = keeper-NodeLaws;
  nodes_there = λ s p. refl;
  lists_there = λ s p there. listed_code (lookup p s) there;
  lists_names = λ s p. plain-children_of p s;
  lists_distinct = λ s p. IsDistinct-children_of p s;
  answers_get = λ s p. got_value (lookup p s);
  lists_missing = λ s p free. rw free refl;
  accepts_create = λ s r. refl;
  accepts_set = λ s p v. refl;
  grants = λ s p. true;
  made = λ s r parent name split plain fit unsafe room mode free. made s r mode free;
  taken = λ s r parent name split plain fit unsafe room mode there.
      taken s r (lookup r.path s) refl mode there;
  numbered = λ s r parent name split plain fit unsafe room mode. numbered s r mode;
  set_there = λ s p v there. set_there s p v (lookup p s) refl there;
  set_missing = λ s p v free. rw free refl;
}
  where
    made :
        (s : Kept) (r : CreateRequest)
        → r.mode ≡ 0
        → lookup r.path s ≡ none
        → ((create_node s r).1 ≡ zok)
          × ((create_node s r).2 ≡ some r.path)
          × ((q : Text)
              → lookup q (create_node s r).0 ≡ (if q == r.path then some r.value else lookup q s))
          × ((q : Text) → true ≡ (if q == r.path then true else true))
    made s r mode free =
        rw (mode, free) (refl, refl, λ q. lookup-assign q r.path r.value s, λ q. ground arith)

    taken :
        (s : Kept) (r : CreateRequest) (old : Option (Option Text))
        → lookup r.path s ≡ old
        → r.mode ≡ 0
        → lookup r.path s ≢ none
        → create_node s r ≡ (s, znodeexists, none)
    taken s r none e mode there = absurd (there e)
    taken s r (some v) e mode there = rw (mode, e) refl

    numbered :
        (s : Kept) (r : CreateRequest)
        → r.mode ≡ 2
        → (new_path : Text) × ((create_node s r).1 ≡ zok)
          × ((create_node s r).2 ≡ some new_path)
          × ((new_path == r.path) ≡ false)
          × (lookup new_path (create_node s r).0 ≡ some r.value)
    numbered s r mode = (
      numbered_path r.path,
      rw mode refl,
      rw mode refl,
      longer r.path,
      rw mode (read_back (numbered_path r.path) r.value s),
    )

    set_there :
        (s : Kept) (p v : Text) (old : Option (Option Text))
        → lookup p s ≡ old
        → lookup p s ≢ none
        → failed (keeper.set.set s p v).1 ≡ false
    set_there s p v none e there = absurd (there e)
    set_there s p v (some old) e there = rw e refl
