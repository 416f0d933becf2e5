-- ===== src/Zk/Ensemble/Creation.antt =====
-- `create_path` of cppzk.hpp on a server of nodes and values.
use mathlib.Core.Path.{subst}
use mathlib.Core.List.{append_assoc}
use config_monitor.Base.{
  ℕ, ◌-◌, ◌≡◌, ◌≢◌, ◌⊎◌, inl, inr, refl, sym, ap, All, ◌∙◌, true, false, not, ◌||◌, Option, none,
  some, List, [], ◌∷◌, ◌++◌, arith, Text, text_eq, ◌==◌, length-append, take, take_all, returns,
  Option-cases,
}
use config_monitor.Zk.Types.{
  ErrorCode, Rc, zok, znodeexists, create_error, make_ec, ZkAcl, zk_open_acl_unsafe, zk_persistent,
}
use config_monitor.Zk.SplitPath.{slash, count, split_path}
use config_monitor.Zk.SplitPath.Names.{target, ladder, AreNames, length-target, split_path-target}
use config_monitor.Zk.Client.{CreateRequest, or_empty}
use config_monitor.Zk.Create.{
  CreateArgs, ancestor_request, last_request, buffer_len, create_ancestors, create_split,
  create_path, check_ttl,
}
use config_monitor.Zk.Value.{get_path_value, get_path_value-node, read_of}
use config_monitor.Zk.Ensemble.{Ensemble, EnsembleLaws, reader, is_there, is_node_name}

module _ (e : Ensemble) (laws : EnsembleLaws e) where
  abbrev pub node : e.zoo.Server → Text → Option (Option Text)
  node = laws.reads.node

  abbrev pub HasRoom : e.zoo.Server → Text → Type 0
  HasRoom s parent = (parent ≡ []) ⊎ (node s parent ≢ none) × (laws.grants s parent ≡ true)

  -- A node at the path, if there is one, lets the client make children.
  abbrev pub IsOpen : e.zoo.Server → Text → Type 0
  IsOpen s p = (not (is_there (node s p)) || laws.grants s p) ≡ true

  abbrev pub Opens : e.zoo.Server → e.zoo.Server → Type 0
  Opens s s' = (q : Text) → IsOpen s q → IsOpen s' q

  -- The names are valid, and what is there already of the path by them is open.
  abbrev pub IsAllowed : e.zoo.Server → Text → List Text → Type 0
  IsAllowed s base [] = Unit
  IsAllowed s base (name ∷ names) =
      (is_node_name name ≡ true)
      × IsOpen s (base ++ (slash ∷ name))
      × IsAllowed s (base ++ (slash ∷ name)) names

  pub IsAllowed-later :
      (s s' : e.zoo.Server) (base : Text) (names : List Text)
      → Opens s s'
      → IsAllowed s base names
      → IsAllowed s' base names
  IsAllowed-later s s' base [] opens a = tt
  IsAllowed-later s s' base (name ∷ names) opens (fit, open_now, rest) = (
    fit,
    opens (base ++ (slash ∷ name)) open_now,
    IsAllowed-later s s' (base ++ (slash ∷ name)) names opens rest,
  )

  -- Where nothing is below a path, every path of valid names below it is allowed.
  pub untouched-IsAllowed :
      (s : e.zoo.Server) (base : Text) (names : List Text)
      → ((r : Text) → node s (base ++ (slash ∷ r)) ≡ none)
      → All (λ n. is_node_name n ≡ true) names
      → IsAllowed s base names
  untouched-IsAllowed s base [] none_below fits = tt
  untouched-IsAllowed s base (name ∷ names) none_below (fit, fits) = (
    fit,
    rw (none_below name) refl,
    untouched-IsAllowed s (base ++ (slash ∷ name)) names
        (λ r.
          ap (node s) (append_assoc base (slash ∷ name) (slash ∷ r))
          ∙ none_below (name ++ (slash ∷ r)))
        fits,
  )

  pub created :
      (s : e.zoo.Server) (r : CreateRequest) (n : ℕ)
      → e.zoo.create2_ttl s r n
        ≡ (let (s', rc, name) = e.zoo.complete_create s r in (s', rc, take (n - 1) (or_empty name)))
  created s r n = laws.creates.awaited s r n (laws.accepts_create s r)

  -- What is there stays.
  abbrev pub Stays : e.zoo.Server → e.zoo.Server → Type 0
  Stays s s' = (q : Text) → node s q ≢ none → node s' q ≢ none

  -- A persistent node without a value, made or found.
  record IsStep (s s' : e.zoo.Server) (rc : Rc) (p : Text) : Type 0 where
    fine : create_error rc ≡ false
    there : node s' p ≢ none
    others : (q : Text) → (q == p) ≡ false → node s' q ≡ node s q
    stays : Stays s s'
    opens : Opens s s'
    granted : laws.grants s' p ≡ true

  step :
      (s : e.zoo.Server) (acl : ZkAcl) (parent name : Text)
      → HasRoom s parent
      → count name ≡ 0
      → is_node_name name ≡ true
      → acl ≡ zk_open_acl_unsafe
      → IsOpen s (parent ++ (slash ∷ name))
      → let p = parent ++ (slash ∷ name) in
        let (s', rc, _) = e.zoo.create2_ttl s (ancestor_request acl p) 0 in IsStep s s' rc p
  step s acl parent name room h fit unsafe open_now =
      let p = parent ++ (slash ∷ name) in
      let r = ancestor_request acl p in
      elim (Option-cases (node s p)) [
        | inl free ↦
            let (rc, named, nodes, grants) =
              laws.made s r parent name refl h fit unsafe room refl free in
            rw (created s r 0) (record {
              fine = rw rc refl;
              there = ground (arith, nodes p);
              others = λ q d. ground (arith, nodes q, d);
              stays = λ q h. ground (arith, nodes q, h);
              opens = λ q h. ground (arith, nodes q, grants q, h);
              granted = ground (arith, grants p);
            })
        | inr (v, there) ↦
            rw (created s r 0, laws.taken s r parent name refl h fit unsafe room refl (λ q. cc))
              (record {
                fine = refl;
                there = λ q. cc;
                others = λ q d. refl;
                stays = λ q h. h;
                opens = λ q h. h;
                granted = ground (arith, there, open_now);
              })
      ]

  -- A path is none of these.
  abbrev pub IsApart : Text → List Text → Type 0
  IsApart q = All (λ r. (q == r) ≡ false)

  pub apart_last :
      (q base name : Text) (names : List Text)
      → IsApart q (ladder base (name ∷ names))
      → (q == target base (name ∷ names)) ≡ false
  apart_last q base name [] (a, _) = a
  apart_last q base name (next ∷ names) (_, rest) =
      apart_last q (base ++ (slash ∷ name)) next names rest

  -- The server once the ancestors of a path are there, with the parent and the name of the path.
  pub record IsClimbed (s s' : e.zoo.Server) (path : Text) (made : List Text) : Type 0 where
    pub parent : Text
    pub name : Text
    pub split : path ≡ parent ++ (slash ∷ name)
    pub plain : count name ≡ 0
    pub room : HasRoom s' parent
    pub kept : node s' path ≡ node s path
    pub others : (q : Text) → IsApart q made → node s' q ≡ node s q
    pub stays : Stays s s'
    pub opens : Opens s s'
    pub fit : is_node_name name ≡ true

  below :
      (base : Text) (name : Text) (names : List Text)
      → (target (base ++ (slash ∷ name)) names == base) ≡ false
  below base name names =
      ground
        (arith, length-target (base ++ (slash ∷ name)) names, length-append base (slash ∷ name))

  pub climb :
      (s : e.zoo.Server) (acl : ZkAcl) (base name : Text) (names : List Text)
      → HasRoom s base
      → AreNames (name ∷ names)
      → acl ≡ zk_open_acl_unsafe
      → IsAllowed s base (name ∷ names)
      → (s' : e.zoo.Server) × (create_ancestors e.zoo s acl (ladder base (name ∷ names))
          ≡ (s', none))
        × IsClimbed s s' (target base (name ∷ names)) (ladder base (name ∷ names))
  unfolding create_ancestors
  climb s acl base name [] room (h, hs) unsafe (fit, open_now, rest) = (
    s,
    refl,
    record {
      parent = base;
      name = name;
      split = refl;
      plain = h;
      room = room;
      kept = refl;
      others = λ q a. refl;
      stays = λ q h. h;
      opens = λ q h. h;
      fit = fit;
    },
  )
  climb s acl base name (next ∷ names) room (h, hs) unsafe (fit, open_now, rest) =
      let p = base ++ (slash ∷ name) in
      let one = e.zoo.create2_ttl s (ancestor_request acl p) 0 in
      let st = step s acl base name room h fit unsafe open_now in
      let (s', went, up) =
        climb one.0 acl p next names (inr (st.there, st.granted)) hs unsafe
          (IsAllowed-later s one.0 p (next ∷ names) st.opens rest) in
      (
        s',
        rw (st.fine) went,
        record {
          parent = up.parent;
          name = up.name;
          split = up.split;
          plain = up.plain;
          room = up.room;
          kept = up.kept ∙ st.others (target p (next ∷ names)) (below p next names);
          others = λ q (a, rest). up.others q rest ∙ st.others q a;
          stays = λ q h. up.stays q (st.stays q h);
          opens = λ q h. up.opens q (st.opens q h);
          fit = up.fit;
        },
      )

  -- What the creation of a persistent path returns, and what the path then holds, by what it held.
  abbrev pub outcome_of : Option (Option Text) → Text → ErrorCode × Text
  outcome_of none path = (make_ec zok, path)
  outcome_of (some old) path = (make_ec znodeexists, [])

  abbrev pub value_after : Option (Option Text) → Option Text → Option Text
  value_after none value = value
  value_after (some old) value = old

  last_step :
      (s : e.zoo.Server) (a : CreateArgs) (parent name : Text) (old : Option (Option Text))
      → a.path ≡ parent ++ (slash ∷ name)
      → count name ≡ 0
      → is_node_name name ≡ true
      → a.acl ≡ zk_open_acl_unsafe
      → HasRoom s parent
      → a.mode ≡ zk_persistent
      → node s a.path ≡ old
      → let (s', rc, new_path) = e.zoo.create2_ttl s (last_request a a.path) (buffer_len a.path) in
        ((make_ec rc, new_path) ≡ outcome_of old a.path)
        × (node s' a.path ≡ some (value_after old a.value))
        × ((q : Text) → (q == a.path) ≡ false → node s' q ≡ node s q)
        × Stays s s'
        × Opens s s'
  last_step s a parent name none split h fit unsafe room mode free =
      let r = last_request a a.path in
      let (rc, named, nodes, grants) =
        laws.made s r parent name split h fit unsafe room (rw mode refl) free in
      let whole : take (buffer_len a.path - 1) a.path ≡ a.path = take_all _ a.path (omega arith) in
      rw (created s r (buffer_len a.path)) (
        rw (rc, named, whole) refl,
        ground (arith, nodes a.path),
        λ q d. ground (arith, nodes q, d),
        λ q h. ground (arith, nodes q, h),
        λ q h. ground (arith, nodes q, grants q, h),
      )
  last_step s a parent name (some old) split h fit unsafe room mode there =
      let r = last_request a a.path in
      rw
        (
          created s r (buffer_len a.path),
          laws.taken s r parent name split h fit unsafe room (rw mode refl) (λ q. cc),
        )
        (
          rw (take_all (buffer_len a.path - 1) (or_empty none) (omega arith)) refl,
          there,
          λ q d. refl,
          λ q h. h,
          λ q h. h,
        )

  allowed : (a : CreateArgs) → a.mode ≡ zk_persistent → check_ttl a ≡ returns tt
  unfolding check_ttl
  allowed a mode = rw (mode) refl

  pub create_path-create_split :
      (s : e.zoo.Server) (a : CreateArgs) (l : List Text)
      → check_ttl a ≡ returns tt
      → split_path a.path ≡ returns l
      → create_path e.zoo s a ≡ returns (create_split e.zoo s a l)
  unfolding create_path
  create_path-create_split s a l ok split = rw (ok, split) refl

  pub create_split-last :
      (s s' : e.zoo.Server) (a : CreateArgs) (l : List Text)
      → create_ancestors e.zoo s a.acl l ≡ (s', none)
      → create_split e.zoo s a l ≡ (
          let (s'', rc, new_path) =
            e.zoo.create2_ttl s' (last_request a a.path) (buffer_len a.path) in
          (s'', make_ec rc, new_path))
  unfolding create_split
  create_split-last s s' a l went =
      rw (went, create_split)
        (ap
          (λ (t : e.zoo.Server).
            let (s'', rc, new_path) =
              e.zoo.create2_ttl t (last_request a a.path) (buffer_len a.path) in
            (s'', make_ec rc, new_path))
          (ap (λ (r : e.zoo.Server × Option Rc). r.0) went))

  pub create_path-node :
      (s : e.zoo.Server) (a : CreateArgs) (name : Text) (names : List Text)
      → AreNames (name ∷ names)
      → a.path ≡ target [] (name ∷ names)
      → a.mode ≡ zk_persistent
      → a.acl ≡ zk_open_acl_unsafe
      → IsAllowed s [] (name ∷ names)
      → let old = node s a.path in
        (s' : e.zoo.Server) × (create_path e.zoo s a
          ≡ (let (ec, new_path) = outcome_of old a.path in returns (s', ec, new_path)))
        × (node s' a.path ≡ some (value_after old a.value))
        × ((q : Text) → IsApart q (ladder [] (name ∷ names)) → node s' q ≡ node s q)
        × Stays s s'
        × Opens s s'
  create_path-node s a name names h path mode unsafe allows =
      let (s', went, up) = climb s a.acl [] name names (inl refl) h unsafe allows in
      let split : a.path ≡ up.parent ++ (slash ∷ up.name) = path ∙ up.split in
      let same : node s' a.path ≡ node s a.path = rw path up.kept in
      let (told, holds, others, stays, opens) =
        last_step s' a up.parent up.name (node s a.path) split up.plain up.fit unsafe up.room mode
          same in
      let s'' = (e.zoo.create2_ttl s' (last_request a a.path) (buffer_len a.path)).0 in
      (
        s'',
        create_path-create_split s a (ladder [] (name ∷ names)) (allowed a mode)
              (ap split_path path ∙ split_path-target name names h)
            ∙ ap returns (create_split-last s s' a (ladder [] (name ∷ names)) went)
            ∙ ap (λ (r : ErrorCode × Text). returns (s'', r.0, r.1)) told,
        holds,
        λ q a.
            others q (subst (λ r. (q == r) ≡ false) (sym path) (apart_last q [] name names a))
            ∙ up.others q a,
        λ q h. stays q (up.stays q h),
        λ q h. opens q (up.opens q h),
      )

  -- On a server that obeys `EnsembleLaws`, the creation, with an open list, of a persistent
  -- path put together from valid slash-free names, where each node that is there already on the
  -- way to it, itself included, grants, returns, whichever of its ancestors are there: `ZOK`
  -- and the path where it was free, and `get_path_value` then reads the value given;
  -- `ZNODEEXISTS` and an empty name where it was there, and `get_path_value` then reads the
  -- value that it had.
  pub create_path-get_path_value :
      (s : e.zoo.Server) (a : CreateArgs) (name : Text) (names : List Text)
      → AreNames (name ∷ names)
      → a.path ≡ target [] (name ∷ names)
      → a.mode ≡ zk_persistent
      → a.acl ≡ zk_open_acl_unsafe
      → IsAllowed s [] (name ∷ names)
      → let old = node s a.path in
        (s' : e.zoo.Server) × (create_path e.zoo s a
          ≡ (let (ec, new_path) = outcome_of old a.path in returns (s', ec, new_path)))
        × (get_path_value (reader e) s' s' a.path ≡ returns (make_ec zok, value_after old a.value))
  create_path-get_path_value s a name names h path mode unsafe allows =
      let (s', made, holds, _, _, _) = create_path-node s a name names h path mode unsafe allows in
      (s', made, get_path_value-node (reader e) laws.reads s' s' a.path refl ∙ ap read_of holds)
