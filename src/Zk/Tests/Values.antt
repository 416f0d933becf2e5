-- ===== src/Zk/Tests/Values.antt =====
-- `get_path_value` of a server with one node, and watches from a fresh client.
use config_monitor.Base.{
  ℕ, nat_eq, ◌≡◌, ◌<◌, refl, true, false, Option, if◌then◌else◌, none, some, List, [], ◌∷◌, arith,
  Text, text, take, min, length, returns, throws, length_error,
}
use config_monitor.Base.Dict.{lookup, lookup-nil}
use config_monitor.Zk.Types.{
  Rc, zok, znonode, other, failed, has_error, ℤ, pos, negsuc, make_ec, zk_deleted_event,
  zk_dummy_event,
}
use config_monitor.Zk.Value.{
  ZooGet, GetLaws, zeros, size, get_path_value, read_of, get_path_value-node,
  get_path_value_replaced, get_path_value_emptied,
}
use config_monitor.Zk.Setter.{ZooSet, SetLaws, set_path_value, get_path_value-set_path_value}
use config_monitor.Zk.Watch.{exists_userdata, wget_userdata, stat, value}
use config_monitor.Zk.Watch.World.{World, Phase, Event, starts, completes, fires, IsSafe, run}
use config_monitor.Zk.Watch.Safety.{run-IsSafe}

abbrev pub answer_of : Option (Option Text) → ℕ → Rc × Text × ℤ × ℕ
answer_of none n = (znonode, [], negsuc 0, 0)
answer_of (some none) n = (zok, [], negsuc 0, 0)
answer_of (some (some v)) n = (zok, take n v, pos (min n (length v)), length v)

-- The server is its one node.
abbrev pub one_node : ZooGet
one_node = record { Server = Option (Option Text); get = λ s p n. answer_of s n }

unfoldable pub one_node-GetLaws : GetLaws one_node
one_node-GetLaws = record {
  node = λ s p. s;
  absent = λ s p n e. rw e refl;
  null = λ s p n e. rw e refl;
  valued = λ s p n v e. rw e refl;
}

abbrev short : Text
short = text "value"

-- 1025 bytes, one more than the first buffer holds.
abbrev long : Text
long = zeros 1025

get_path_value-node_example :
    get_path_value one_node (some (some long)) (some (some long)) (text "/a")
    ≡ read_of (some (some long))
unfolding one_node-GetLaws
get_path_value-node_example =
    get_path_value-node one_node one_node-GetLaws (some (some long)) (some (some long)) (text "/a")
      refl

length-long : size < length long
length-long = omega arith

get_path_value_replaced_example :
    get_path_value one_node (some (some long)) (some (some (zeros 2000))) (text "/a")
    ≡ returns (make_ec zok, some (take (length long) (zeros 2000)))
unfolding one_node-GetLaws
get_path_value_replaced_example =
    get_path_value_replaced one_node one_node-GetLaws (some (some long)) (some (some (zeros 2000)))
      (text "/a") long (zeros 2000) refl length-long refl

get_path_value_emptied_example :
    get_path_value one_node (some (some long)) (some none) (text "/a") ≡ throws length_error
unfolding one_node-GetLaws
get_path_value_emptied_example =
    get_path_value_emptied one_node one_node-GetLaws (some (some long)) (some none) (text "/a") long
      refl length-long refl

-- A node that is there takes any value; the client refuses an empty path at once.
abbrev put : Option (Option Text) → Text → Option (Option Text) × Rc
put none v = (none, znonode)
put (some old) v = (some (some v), zok)

abbrev pub submitted : Text → Rc
submitted [] = other 8
submitted (x ∷ p) = zok

abbrev pub one_setter : ZooSet (Option (Option Text))
one_setter = record {
  set = λ s p v. if failed (submitted p) then (s, submitted p) else put s v;
  submit_set = λ s p v. submitted p;
  complete_set = λ s p v. put s v;
}

one_setter-SetLaws : SetLaws one_node one_node-GetLaws one_setter
unfolding one_node-GetLaws
one_setter-SetLaws = record {
  stored = stored;
  unchanged = unchanged;
  awaited = λ s p v e. rw e refl;
  refused = λ s p v e. rw e refl;
}
  where
    stored :
        (s : Option (Option Text)) (p v : Text)
        → failed (one_setter.set s p v).1 ≡ false
        → (one_setter.set s p v).0 ≡ some (some v)
    stored none [] v ok = absurd (ground arith)
    stored none (x ∷ p) v ok = absurd (ground arith)
    stored (some old) [] v ok = absurd (ground arith)
    stored (some old) (x ∷ p) v ok = refl

    unchanged :
        (s : Option (Option Text)) (p v : Text)
        → failed (one_setter.set s p v).1 ≡ true
        → (one_setter.set s p v).0 ≡ s
    unchanged none [] v bad = refl
    unchanged none (x ∷ p) v bad = refl
    unchanged (some old) [] v bad = refl
    unchanged (some old) (x ∷ p) v bad = absurd (ground arith)

set_fine : has_error (set_path_value one_setter (some none) (text "/a") long).1 ≡ false
unfolding set_path_value has_error make_ec
set_fine = refl

get_path_value-set_path_value_example :
    (let s' = (set_path_value one_setter (some none) (text "/a") long).0 in
      get_path_value one_node s' s' (text "/a") ≡ returns (make_ec zok, some long))
get_path_value-set_path_value_example =
    get_path_value-set_path_value one_node one_node-GetLaws one_setter one_setter-SetLaws
      (some none) (text "/a") long set_fine

-- A watch of a path is set, fires, completes again and is deleted.
abbrev fresh : World ℕ ℕ ℕ
fresh = record { client = record { heap = []; next = 0 }; slots = [] }

abbrev history : List (Event ℕ ℕ ℕ)
history =
    starts (exists_userdata 5 zk_dummy_event)
    ∷ completes 0 (stat zok) true
    ∷ fires 0 zk_deleted_event (text "/a")
    ∷ starts (wget_userdata 6 zk_dummy_event (text "/a") true)
    ∷ completes 1 (value znonode none) false
    ∷ completes 0 (stat znonode) true
    ∷ []

run-IsSafe_example : IsSafe (run fresh history)
run-IsSafe_example = run-IsSafe fresh history (λ j q e. absurd (fresh_slots j q e))
  where
    fresh_slots : (j : ℕ) (q : Phase) → lookup j [] ≡ some q → ⊥
    fresh_slots j q e = ground (arith, lookup-nil {V = Phase} j)
