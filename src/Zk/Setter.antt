-- ===== src/Zk/Setter.antt =====
-- `set_path_value` and `async_set_path_value` of cppzk.hpp, beside `get_path_value`.
use config_monitor.Base.{◌≡◌, refl, ap, ◌∙◌, true, false, some, arith, Text, returns, if◌then◌else◌}
use config_monitor.Zk.Types.{Rc, zok, failed, ErrorCode, make_ec, has_error}
use config_monitor.Zk.Delete.{Answer, answered, unanswered}
use config_monitor.Zk.Value.{ZooGet, GetLaws, get_path_value, read_of, get_path_value-node}

-- `zoo_set2`, and `zoo_aset` as the code that it returns at once and what its completion is called
-- with later; version -1.
pub record ZooSet (Server : Type 0) : Type 0 where
  pub set : Server → Text → Text → Server × Rc
  pub submit_set : Server → Text → Text → Rc
  pub complete_set : Server → Text → Text → Server × Rc

-- What zookeeper.h says of them: a value is stored whole if the code is `ZOK`, and nothing is
-- changed otherwise; no other node is changed; the synchronous call is the other one, awaited.
pub record SetLaws (z : ZooGet) (laws : GetLaws z) (w : ZooSet z.Server) : Type 0 where
  pub stored :
      (s : z.Server) (p v : Text)
      → failed (w.set s p v).1 ≡ false
      → laws.node (w.set s p v).0 p ≡ some (some v)
  pub unchanged : (s : z.Server) (p v : Text) → failed (w.set s p v).1 ≡ true → (w.set s p v).0 ≡ s
  pub awaited :
      (s : z.Server) (p v : Text)
      → failed (w.submit_set s p v) ≡ false
      → w.set s p v ≡ w.complete_set s p v
  pub refused :
      (s : z.Server) (p v : Text)
      → failed (w.submit_set s p v) ≡ true
      → w.set s p v ≡ (s, w.submit_set s p v)

module _ {Server : Type 0} (w : ZooSet Server) where
  unfoldable pub set_path_value : Server → Text → Text → Server × ErrorCode
  unfolding make_ec
  set_path_value s path value = let (s', rc) = w.set s path value in (s', make_ec rc)

  -- The callback is called with the code of the completion; a refused request never completes.
  unfoldable pub async_set_path_value : Server → Text → Text → Server × Answer
  unfolding make_ec
  async_set_path_value s path value =
      let (s', rc) = w.complete_set s path value in
      if failed (w.submit_set s path value) then (s, unanswered) else (s', answered (make_ec rc))

module _ (z : ZooGet) (laws : GetLaws z) (w : ZooSet z.Server) (rules : SetLaws z laws w) where
  -- On a server that obeys `GetLaws` and `SetLaws`, when `set_path_value` reports no error,
  -- `get_path_value` then returns the value whole, of any length.
  pub get_path_value-set_path_value :
      (s : z.Server) (p v : Text)
      → has_error (set_path_value w s p v).1 ≡ false
      → let s' = (set_path_value w s p v).0 in
        get_path_value z s' s' p ≡ returns (make_ec zok, some v)
  unfolding set_path_value has_error
  get_path_value-set_path_value s p v ok =
      get_path_value-node z laws (w.set s p v).0 (w.set s p v).0 p refl
      ∙ ap read_of (rules.stored s p v ok)

  -- On a server that obeys `SetLaws`, `async_set_path_value` leaves the same server as
  -- `set_path_value` and calls back with the same code, unless the client refuses the request
  -- at once: then it never calls back, while `set_path_value` returns the code of the refusal.
  async_set_path_value-set_path_value :
      (s : z.Server) (p v : Text)
      → async_set_path_value w s p v ≡ (
          let (s', ec) = set_path_value w s p v in
          if failed (w.submit_set s p v) then (s', unanswered) else (s', answered ec))
  unfolding async_set_path_value set_path_value
  async_set_path_value-set_path_value s p v =
      ground (arith, rules.awaited s p v, rules.refused s p v)
