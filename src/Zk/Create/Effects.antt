-- ===== src/Zk/Create/Effects.antt =====
-- What `create_path` leaves on the server.
use config_monitor.Base.{
  ℕ, ◌≡◌, refl, sym, subst, ap, ◌∙◌, inl, inr, Bool, true, false, none, some, List, [], ◌∷◌, ◌++◌,
  arith, Text, All, if◌then◌else◌, Exception, returns, throws, Bool-cases, Option-cases,
  Outcome-cases,
}
use config_monitor.Zk.Types.{
  Rc, zok, failed, create_error, znonode, znodeexists, other, make_ec, has_error,
}
use config_monitor.Zk.SplitPath.{split_path}
use config_monitor.Zk.SplitPath.Ancestors.{split_path-IsSplit}
use config_monitor.Zk.Client.{Zoo, CreateRequest}
use config_monitor.Zk.Create.{
  CreateArgs, ancestor_request, last_request, buffer_len, create_ancestors, Created, create_split,
  create_path,
}

-- What zookeeper.h says of the nodes that a synchronous creation leaves: a node of the
-- requested path, new or old, if the mode is `ZOO_PERSISTENT` and the code is no other error; the
-- node that it names, if the code is `ZOK`; and all that were there.
pub record Nodes (z : Zoo) : Type 0 where
  pub exists : z.Server → Text → Bool
  pub persistent :
      (s : z.Server) (r : CreateRequest) (n : ℕ)
      → r.mode ≡ 0
      → create_error (z.create2_ttl s r n).1 ≡ false
      → exists (z.create2_ttl s r n).0 r.path ≡ true
  pub named :
      (s : z.Server) (r : CreateRequest)
      → failed (z.create2_ttl s r (buffer_len r.path)).1 ≡ false
      → exists (z.create2_ttl s r (buffer_len r.path)).0 (z.create2_ttl s r (buffer_len r.path)).2
        ≡ true
  pub kept :
      (s : z.Server) (r : CreateRequest) (n : ℕ) (q : Text)
      → exists s q ≡ true
      → exists (z.create2_ttl s r n).0 q ≡ true

module _ (z : Zoo) (nodes : Nodes z) where
  abbrev pub Present : z.Server → List Text → Type 0
  Present s = All (λ q. nodes.exists s q ≡ true)

  -- One round of the loop over the ancestors.
  create_ancestors_step :
      (s : z.Server) (a : CreateArgs) (p : Text) (above : List Text) (last : Text)
      → create_ancestors z s a.acl (p ∷ (above ++ (last ∷ []))) ≡ (
          let (s', rc, _) = z.create2_ttl s (ancestor_request a.acl p) 0 in
          if create_error rc
          then (s', some rc)
          else create_ancestors z s' a.acl (above ++ (last ∷ [])))
  unfolding create_ancestors
  create_ancestors_step s a p [] last = refl
  create_ancestors_step s a p (q ∷ above) last = refl

  create_ancestors_keeps :
      (s : z.Server) (a : CreateArgs) (above : List Text) (last q : Text)
      → nodes.exists s q ≡ true
      → nodes.exists (create_ancestors z s a.acl (above ++ (last ∷ []))).0 q ≡ true
  create_ancestors_keeps s a [] last q h = unfold create_ancestors in h
  create_ancestors_keeps s a (p ∷ above) last q h = ground (
    arith,
    create_ancestors_step s a p above last,
    nodes.kept s (ancestor_request a.acl p) 0 q,
    create_ancestors_keeps (z.create2_ttl s (ancestor_request a.acl p) 0).0 a above last q,
  )

  create_ancestors-Present :
      (s : z.Server) (a : CreateArgs) (above : List Text) (last : Text)
      → (create_ancestors z s a.acl (above ++ (last ∷ []))).1 ≡ none
      → Present (create_ancestors z s a.acl (above ++ (last ∷ []))).0 above
  create_ancestors-Present s a [] last e = tt
  create_ancestors-Present s a (p ∷ above) last e =
      elim (Bool-cases (create_error (z.create2_ttl s (ancestor_request a.acl p) 0).1)) [
        | inl bad ↦ absurd (stopped bad)
        | inr good ↦
            let s' = (z.create2_ttl s (ancestor_request a.acl p) 0).0 in
            subst (λ t. Present t (p ∷ above)) (sym (same good))
              (
                create_ancestors_keeps s' a above last p
                    (nodes.persistent s (ancestor_request a.acl p) 0 refl good),
                create_ancestors-Present s' a above last (went_on good),
              )
      ]
    where
      stopped : create_error (z.create2_ttl s (ancestor_request a.acl p) 0).1 ≡ true → ⊥
      stopped bad = ground (arith, create_ancestors_step s a p above last)

      same :
          create_error (z.create2_ttl s (ancestor_request a.acl p) 0).1 ≡ false
          → (create_ancestors z s a.acl (p ∷ (above ++ (last ∷ [])))).0
            ≡ (create_ancestors z
                (z.create2_ttl s (ancestor_request a.acl p) 0).0
                a.acl
                (above ++ (last ∷ []))).0
      same good = ground (arith, create_ancestors_step s a p above last)

      went_on :
          create_error (z.create2_ttl s (ancestor_request a.acl p) 0).1 ≡ false
          → (create_ancestors z
              (z.create2_ttl s (ancestor_request a.acl p) 0).0
              a.acl
              (above ++ (last ∷ []))).1
            ≡ none
      went_on good = ground (arith, create_ancestors_step s a p above last)

  Present-kept :
      (s : z.Server) (r : CreateRequest) (n : ℕ) (l : List Text)
      → Present s l
      → Present (z.create2_ttl s r n).0 l
  Present-kept s r n [] h = tt
  Present-kept s r n (q ∷ l) h = (nodes.kept s r n q h.0, Present-kept s r n l h.1)

  create_ancestors_error :
      (s : z.Server) (a : CreateArgs) (above : List Text) (last : Text) (rc : Rc)
      → (create_ancestors z s a.acl (above ++ (last ∷ []))).1 ≡ some rc
      → create_error rc ≡ true
  create_ancestors_error s a [] last rc e = unfold create_ancestors in cc
  create_ancestors_error s a (p ∷ above) last rc e = ground (
    arith,
    create_ancestors_step s a p above last,
    create_ancestors_error (z.create2_ttl s (ancestor_request a.acl p) 0).0 a above last rc,
  )

  -- The two ways on from the loop.
  create_split_go :
      (s : z.Server) (a : CreateArgs) (l : List Text)
      → (create_ancestors z s a.acl l).1 ≡ none
      → create_split z s a l ≡ (
          let (s', rc, name) =
            z.create2_ttl
              (create_ancestors z s a.acl l).0
              (last_request a a.path)
              (buffer_len a.path) in
          (s', make_ec rc, name))
  unfolding create_split
  create_split_go s a l e = rw (e, create_split)

  create_split_stop :
      (s : z.Server) (a : CreateArgs) (l : List Text) {rc : Rc}
      → (create_ancestors z s a.acl l).1 ≡ some rc
      → create_split z s a l ≡ ((create_ancestors z s a.acl l).0, make_ec rc, [])
  unfolding create_split
  create_split_stop s a l e = rw (e, create_split)

  create_split_exists :
      (s : z.Server) (a : CreateArgs) (above : List Text)
      → (let done = create_split z s a (above ++ (a.path ∷ [])) in
          has_error done.1 ≡ false → Present done.0 above × (nodes.exists done.0 done.2 ≡ true))
  unfolding has_error make_ec
  create_split_exists s a above ok = elim (Option-cases (create_ancestors z s a.acl l).1) [
    | inl e ↦
        let s' = (create_ancestors z s a.acl l).0 in
        subst (λ (done : Created z). Present done.0 above × (nodes.exists done.0 done.2 ≡ true))
          (sym (create_split_go s a l e))
          (
            Present-kept s' (last_request a a.path) (buffer_len a.path) above
                (create_ancestors-Present s a above a.path e),
            nodes.named s' (last_request a a.path) (rw (create_split_go s a l e) at ok),
          )
    | inr (rc, e) ↦ absurd (
        clash rc (create_ancestors_error s a above a.path rc e)
          (rw (create_split_stop s a l e) at ok))
  ]
    where
      l : List Text
      l = above ++ (a.path ∷ [])

      clash : (rc : Rc) → create_error rc ≡ true → failed rc ≡ false → ⊥
      clash zok p q = cc
      clash znonode p q = cc
      clash znodeexists p q = cc
      clash (other n) p q = cc

  -- On a server that obeys `Nodes`, when `create_path` returns and reports no error, the node
  -- that it names is there, and so is every ancestor of the path that `split_path` lists.
  pub create_path_exists :
      (s : z.Server) (a : CreateArgs) (done : Created z)
      → create_path z s a ≡ returns done
      → has_error done.1 ≡ false
      → (above : List Text) × (split_path a.path ≡ returns (above ++ (a.path ∷ [])))
        × (Present done.0 above × (nodes.exists done.0 done.2 ≡ true))
  unfolding create_path
  create_path_exists s a done e ok = elim (Outcome-cases (split_path a.path)) [
    | inr (x, bad) ↦ absurd (thrown x bad)
    | inl (l, good) ↦
        let (above, whole) = (split_path-IsSplit a.path good).whole in
        let same : create_split z s a (above ++ (a.path ∷ [])) ≡ done = made l above good whole in
        (
          above,
          good ∙ ap returns whole,
          subst (λ (d : Created z). Present d.0 above × (nodes.exists d.0 d.2 ≡ true)) same
              (create_split_exists s a above (rw same ok)),
        )
  ]
    where
      thrown : (x : Exception) → split_path a.path ≡ throws x → ⊥
      thrown x bad = ground arith

      made :
          (l above : List Text)
          → split_path a.path ≡ returns l
          → l ≡ above ++ (a.path ∷ [])
          → create_split z s a (above ++ (a.path ∷ [])) ≡ done
      made l above good whole = rw (← whole) (ground arith)
