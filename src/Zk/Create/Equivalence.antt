-- ===== src/Zk/Create/Equivalence.antt =====
-- `async_create_path` of cppzk.hpp against `create_path`.
use config_monitor.Base.{
  ℕ, zero, suc, ◌-◌, ◌<◌, ◌≡◌, refl, ap, inl, inr, true, false, Option, some, List, [], ◌∷◌, ◌++◌,
  arith, Text, length, length-append, take, take_all, Outcome, returns, ◌>>=◌, Outcome-cases,
}
use config_monitor.Zk.Types.{Rc, zok, failed, create_error, znonode, znodeexists, other}
use config_monitor.Zk.SplitPath.{split_path, count}
use config_monitor.Zk.SplitPath.Ancestors.{split_path-IsSplit, IsSplit}
use config_monitor.Zk.Client.{Zoo, CreateLaws, CreateRequest, or_empty}
use config_monitor.Zk.Create.{
  CreateArgs, ancestor_request, last_request, buffer_len, Created, create_split, create_path,
  direct, layers, first_request, async_create_path, Ending, called, drive,
}

pub create_error-failed : (rc : Rc) → create_error rc ≡ true → failed rc ≡ true
create_error-failed zok h = cc
create_error-failed znonode h = refl
create_error-failed znodeexists h = refl
create_error-failed (other n) h = refl

-- The request that is out while the ancestors `above` and the path itself are left to create.
abbrev head_request : CreateArgs → List Text → CreateRequest
head_request a [] = last_request a a.path
head_request a (p ∷ above) = ancestor_request a.acl p

module _ (z : Zoo) (laws : CreateLaws z)
    (accepts : (s : z.Server) (r : CreateRequest) → failed (z.submit_create s r) ≡ false) where
  abbrev pub ending : Created z → z.Server × Ending
  ending (s, ec, name) = (s, called ec name)

  -- The buffer holds every name that the server may give.
  name_fits :
      (s : z.Server) (a : CreateArgs)
      → take (buffer_len a.path - 1) (or_empty (z.complete_create s (last_request a a.path)).2)
        ≡ or_empty (z.complete_create s (last_request a a.path)).2
  name_fits s a = take_all _ _ (omega (arith, laws.named s (last_request a a.path)))

  -- One ancestor `p`, with another one behind it.
  deeper :
      (p q r : Text) (rest : List Text) (fuel : ℕ) (s : z.Server) (a : CreateArgs)
      → (let s' = (z.complete_create s (ancestor_request a.acl p)).0 in
          drive z fuel s' (ancestor_request a.acl q) (layers (q ∷ r ∷ rest) a)
          ≡ some (ending (create_split z s' a (q ∷ r ∷ rest))))
      → drive z (suc fuel) s (ancestor_request a.acl p) (layers (p ∷ q ∷ r ∷ rest) a)
        ≡ some (ending (create_split z s a (p ∷ q ∷ r ∷ rest)))
  unfolding drive create_split
  deeper p q r rest fuel s a ih = ground (
    arith,
    accepts s (ancestor_request a.acl p),
    laws.awaited s (ancestor_request a.acl p) 0,
    laws.unnamed s (ancestor_request a.acl p),
    create_error-failed (z.complete_create s (ancestor_request a.acl p)).1,
    ih,
  )

  layers-create_split :
      (above : List Text) (fuel : ℕ) (s : z.Server) (a : CreateArgs)
      → length above < fuel
      → drive z fuel s (head_request a above) (layers (above ++ (a.path ∷ [])) a)
        ≡ some (ending (create_split z s a (above ++ (a.path ∷ []))))
  unfolding drive create_split
  layers-create_split above zero s a h = absurd (omega arith)
  layers-create_split [] (suc fuel) s a h = ground (
    arith,
    accepts s (last_request a a.path),
    laws.awaited s (last_request a a.path) (buffer_len a.path),
    name_fits s a,
  )
  layers-create_split (p ∷ []) (suc fuel) s a h = ground (
    arith,
    accepts s (ancestor_request a.acl p),
    laws.awaited s (ancestor_request a.acl p) 0,
    laws.unnamed s (ancestor_request a.acl p),
    create_error-failed (z.complete_create s (ancestor_request a.acl p)).1,
    layers-create_split [] fuel (z.complete_create s (ancestor_request a.acl p)).0 a,
  )
  layers-create_split (p ∷ q ∷ []) (suc fuel) s a h = deeper p q a.path [] fuel s a (
      layers-create_split (q ∷ []) fuel (z.complete_create s (ancestor_request a.acl p)).0 a
        (omega arith))
  layers-create_split (p ∷ q ∷ r ∷ above) (suc fuel) s a h =
      deeper p q r (above ++ (a.path ∷ [])) fuel s a (
        layers-create_split (q ∷ r ∷ above) fuel (z.complete_create s (ancestor_request a.acl p)).0
          a (omega arith))

  direct-create_split :
      (fuel : ℕ) (s : z.Server) (a : CreateArgs)
      → 0 < fuel
      → drive z fuel s (last_request a a.path) direct
        ≡ some (ending (create_split z s a (a.path ∷ [])))
  unfolding drive create_split
  direct-create_split zero s a h = absurd (omega arith)
  direct-create_split (suc fuel) s a h = ground (
    arith,
    accepts s (last_request a a.path),
    laws.awaited s (last_request a a.path) (buffer_len a.path),
    name_fits s a,
  )

  first_request-create_split :
      (above : List Text) (fuel : ℕ) (s : z.Server) (a : CreateArgs)
      → length above < fuel
      → (let l = above ++ (a.path ∷ []) in
          drive z fuel s (first_request a l).0 (first_request a l).1
          ≡ some (ending (create_split z s a l)))
  first_request-create_split [] fuel s a h = direct-create_split fuel s a (omega arith)
  first_request-create_split (p ∷ []) fuel s a h = layers-create_split (p ∷ []) fuel s a h
  first_request-create_split (p ∷ q ∷ above) fuel s a h =
      layers-create_split (p ∷ q ∷ above) fuel s a h

  -- The whole of `async_create_path`, each request served in turn.
  abbrev pub async_run : z.Server → CreateArgs → Outcome (Option (z.Server × Ending))
  async_run s a = async_create_path a >>= λ (r, p). returns (drive z (count a.path) s r p)

  -- When the server obeys `CreateLaws` and the client accepts every request, one request for
  -- each slash of the path is enough for the chain of `async_create_path`: it throws when
  -- `create_path` throws, and otherwise leaves the same server and calls back with the same
  -- code and path.
  pub async_create_path-create_path :
      (s : z.Server) (a : CreateArgs)
      → async_run s a ≡ (create_path z s a >>= λ created. returns (some (ending created)))
  unfolding async_create_path create_path
  async_create_path-create_path s a = elim (Outcome-cases (split_path a.path)) [
    | inl (l, e) ↦
        let split : IsSplit a.path l = split_path-IsSplit a.path e in
        rw e (ground (arith, served l split))
    | inr (x, e) ↦ rw e (ground arith)
  ]
    where
      served :
          (l : List Text)
          → IsSplit a.path l
          → drive z (count a.path) s (first_request a l).0 (first_request a l).1
            ≡ some (ending (create_split z s a l))
      served l split =
          let (above, e) = split.whole in
          rw e (
            first_request-create_split above (count a.path) s a
              (omega (arith, split.size, ap length e, length-append above (a.path ∷ []))))
