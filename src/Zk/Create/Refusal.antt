-- ===== src/Zk/Create/Refusal.antt =====
-- A creation of cppzk.hpp whose request the client refuses at once.
use config_monitor.Base.{
  ℕ, suc, ◌≡◌, inl, inr, true, some, List, [], ◌∷◌, arith, Text, Exception, returns, throws,
  Outcome-cases,
}
use config_monitor.Zk.Types.{create_error, make_ec}
use config_monitor.Zk.SplitPath.{split_path}
use config_monitor.Zk.Client.{Zoo, CreateLaws, CreateRequest}
use config_monitor.Zk.Create.Equivalence.{create_error-failed}
use config_monitor.Zk.Create.{
  CreateArgs, ancestor_request, last_request, buffer_len, create_split, create_path, Pending,
  first_request, async_create_path, never_called, drive,
}

create_split_refused :
    (z : Zoo) (s : z.Server) (a : CreateArgs) (l : List Text)
    → CreateLaws z
    → create_error (z.submit_create s (first_request a l).0) ≡ true
    → create_split z s a l ≡ (s, make_ec (z.submit_create s (first_request a l).0), [])
unfolding create_split
create_split_refused z s a [] laws err = ground (
  arith,
  laws.refused s (last_request a a.path) (buffer_len a.path),
  create_error-failed (z.submit_create s (last_request a a.path)),
)
create_split_refused z s a (p ∷ []) laws err = ground (
  arith,
  laws.refused s (last_request a a.path) (buffer_len a.path),
  create_error-failed (z.submit_create s (last_request a a.path)),
)
create_split_refused z s a (p ∷ q ∷ rest) laws err = ground (
  arith,
  laws.refused s (ancestor_request a.acl p) 0,
  create_error-failed (z.submit_create s (ancestor_request a.acl p)),
)

-- On a server that obeys `CreateLaws`, when the client refuses the first request of a path at
-- once: `create_path` returns the code, and `async_create_path` drops it and never calls back.
-- The server is untouched.
pub create_path_refused :
    (z : Zoo) (s : z.Server) (a : CreateArgs) (r : CreateRequest × Pending) (fuel : ℕ)
    → CreateLaws z
    → async_create_path a ≡ returns r
    → create_error (z.submit_create s r.0) ≡ true
    → (create_path z s a ≡ returns (s, make_ec (z.submit_create s r.0), []))
      × (drive z (suc fuel) s r.0 r.1 ≡ some (s, never_called))
unfolding async_create_path create_path drive
create_path_refused z s a r fuel laws e err = elim (Outcome-cases (split_path a.path)) [
  | inr (x, bad) ↦ absurd (thrown x bad)
  | inl (l, good) ↦
      let same : r ≡ first_request a l = asked l good in
      (
        rw same (ground (arith, create_split_refused z s a l laws (rw same at err))),
        ground (arith, create_error-failed (z.submit_create s r.0)),
      )
]
  where
    thrown : (x : Exception) → split_path a.path ≡ throws x → ⊥
    thrown x bad = ground arith

    asked : (l : List Text) → split_path a.path ≡ returns l → r ≡ first_request a l
    asked l good = ground arith
