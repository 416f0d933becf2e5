-- ===== src/Zk/Create.antt =====
-- `create_path` and `async_create_path` of cppzk.hpp.
pub mod Equivalence
pub mod Effects
pub mod Refusal
use config_monitor.Base.{
  ℕ, zero, suc, ◌+◌, ◌≡◌, Bool, true, false, ◌&&◌, Option, none, some, List, [], ◌∷◌, Text, length,
  pop_front, eqb, if◌then◌else◌, Outcome, returns, throws, ◌>>=◌, runtime_error,
}
use config_monitor.Zk.Types.{
  ℤ, negsuc, is_negative, Rc, failed, create_error, ErrorCode, make_ec, ZkAcl, ZkCreateMode,
  mode_number, enable_ttl,
}
use config_monitor.Zk.SplitPath.{split_path}
use config_monitor.Zk.Client.{Zoo, CreateRequest, or_empty}

-- The arguments that the two functions share.
pub record CreateArgs : Type 0 where
  pub path : Text
  pub value : Option Text
  pub mode : ZkCreateMode
  pub ttl : ℤ
  pub acl : ZkAcl

-- The guard at the top of both.
unfoldable pub check_ttl : CreateArgs → Outcome (Unit {0})
unfolding enable_ttl
check_ttl a = if enable_ttl a.mode && is_negative a.ttl then throws runtime_error else returns tt

-- A missing ancestor is created as `ZOO_PERSISTENT`, with a null value and ttl -1.
abbrev pub ancestor_request : ZkAcl → Text → CreateRequest
ancestor_request acl path = record {
  path = path;
  value = none;
  acl = acl;
  mode = 0;
  ttl = negsuc 0;
}

abbrev pub last_request : CreateArgs → Text → CreateRequest
last_request a path = record {
  path = path;
  value = a.value;
  acl = a.acl;
  mode = mode_number a.mode;
  ttl = a.ttl;
}

-- `new_path_len`
abbrev pub buffer_len : Text → ℕ
buffer_len path = length path + 16

module _ (z : Zoo) where
  -- The loop over all entries of `sp_path` but the last: the code of the first error, if any.
  unfoldable pub create_ancestors : z.Server → ZkAcl → List Text → z.Server × Option Rc
  create_ancestors s acl [] = (s, none)
  create_ancestors s acl (p ∷ []) = (s, none)
  create_ancestors s acl (p ∷ q ∷ rest) =
      let (s', rc, name) = z.create2_ttl s (ancestor_request acl p) 0 in
      let more = create_ancestors s' acl (q ∷ rest) in
      if create_error rc then (s', some rc) else more

  -- The server afterwards, and the tuple that is returned.
  abbrev pub Created : Type 0
  Created = z.Server × ErrorCode × Text

  unfoldable pub create_split : z.Server → CreateArgs → List Text → Created
  unfolding create_ancestors make_ec
  create_split s a sp_path =
      let (s', error) = create_ancestors s a.acl sp_path in
      elim error [
        | some rc ↦ (s', make_ec rc, [])
        | none ↦
            let (s'', ret, name) = z.create2_ttl s' (last_request a a.path) (buffer_len a.path) in
            (s'', make_ec ret, name)
      ]

  unfoldable pub create_path : z.Server → CreateArgs → Outcome Created
  unfolding create_split check_ttl
  create_path s a =
      check_ttl a >>= λ _. split_path a.path >>= λ sp_path. returns (create_split s a sp_path)

-- `create_userdata`, less the pointers; and the bare callback of a path of one layer.
pub data Pending : Type 0 where
  direct : Pending
  layers : List Text → CreateArgs → Pending

-- What a completion does: it calls the user's callback, which `config_monitor` never leaves
-- empty, and frees its data; or it passes the data on to the next request.
pub data Reaction : Type 0 where
  calls : ErrorCode → Text → Reaction
  issues : CreateRequest → Pending → Reaction

-- The branch of the completion with paths left to create.
abbrev next_layer : List Text → CreateArgs → Rc → Option Text → Reaction
next_layer [] a rc str = calls (make_ec rc) (or_empty str)
next_layer (p ∷ []) a rc str = issues (last_request a p) (layers (p ∷ []) a)
next_layer (p ∷ q ∷ rest) a rc str = issues (ancestor_request a.acl p) (layers (p ∷ q ∷ rest) a)

-- The two completions.
unfoldable pub completion : Pending → Rc → Option Text → Reaction
unfolding make_ec
completion direct rc str = calls (make_ec rc) (or_empty str)
completion (layers split_paths a) rc str =
    if create_error rc
    then calls (make_ec rc) (or_empty str)
    else next_layer (pop_front split_paths) a rc str

-- The part of `async_create_path` below the guard: the first request. An empty list cannot be.
abbrev first_request : CreateArgs → List Text → CreateRequest × Pending
first_request a (p ∷ q ∷ rest) = (ancestor_request a.acl p, layers (p ∷ q ∷ rest) a)
first_request a _ = (last_request a a.path, direct)

unfoldable pub async_create_path : CreateArgs → Outcome (CreateRequest × Pending)
unfolding check_ttl
async_create_path a =
    check_ttl a >>= λ _. split_path a.path >>= λ sp_path. returns (first_request a sp_path)

-- How a chain of requests ends. The code that an asynchronous call returns is never read: when it
-- is an error the completion is never called, and neither is the callback.
pub data Ending : Type 0 where
  called : ErrorCode → Text → Ending
  never_called : Ending

-- The chain against a server that serves one request after the other, on fuel.
module _ (z : Zoo) where
  unfoldable pub drive : ℕ → z.Server → CreateRequest → Pending → Option (z.Server × Ending)
  unfolding completion
  drive zero s r p = none
  drive (suc fuel) s r p = elim (failed (z.submit_create s r)) [
    | true ↦ some (s, never_called)
    | false ↦
        let (s', rc, str) = z.complete_create s r in
        elim (completion p rc str) [
          | calls ec new_path ↦ some (s', called ec new_path)
          | issues r' p' ↦ drive fuel s' r' p'
        ]
  ]
