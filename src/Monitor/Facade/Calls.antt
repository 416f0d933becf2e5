-- ===== src/Monitor/Facade/Calls.antt =====
-- The forwarding operations of config_monitor.hpp: the modes they pass on, and when the user's
-- callback is called.
use config_monitor.Base.{
  ℕ, suc, ◌≡◌, ◌≢◌, refl, false, Option, none, some, List, [], ◌∷◌, arith, Text, nat_eq, Outcome,
  returns, throws, ◌>>=◌, Option-cases, inl, inr,
}
use config_monitor.Base.Dict.{lookup, lookup-assign, lookup-erase}
use config_monitor.Zk.Types
use config_monitor.Zk.Types.{ℤ, Rc, failed, ErrorCode, make_ec, mode_number, zk_dummy_event}
use config_monitor.Zk.SplitPath.{count}
use config_monitor.Zk.Client.{Zoo, CreateLaws, DeleteLaws, CreateRequest}
use config_monitor.Zk.Create.{Ending, called, drive}
use config_monitor.Zk.Create.Equivalence.{async_create_path-create_path}
use config_monitor.Zk.Delete.{delete_path}
use config_monitor.Base.Dict
use config_monitor.Zk.Delete.Equivalence.{async_delete_path-delete_path}
use config_monitor.Zk.Watch.{awget, call_get, value, on_completion, allocate, wget_userdata}
use config_monitor.Zk.Watch as Watch
use config_monitor.File.Types as Loc
use config_monitor.Monitor.{Callback, ConfigMonitor, ZkClient, value_notice, forward, on_get}
use config_monitor.Monitor.Facade.{
  CreateMode, persistent, ephemeral, persistent_sequential, ephemeral_sequential,
  persistent_with_ttl, persistent_sequential_with_ttl, create_number, zk_mode, create_args, Called,
  forward_created, created_call, operated_call, create_path, async_create_path, del_path,
  async_del_path, async_get_path_value,
}

pub zk_mode-create_number :
    (mode : CreateMode)
    → (Types.get_create_mode (create_number mode) ≡ some (zk_mode mode))
      × (mode_number (zk_mode mode) ≡ create_number mode)
      × (Loc.get_create_mode (create_number mode) ≢ none)
unfolding zk_mode Loc.get_create_mode
zk_mode-create_number persistent = (refl, refl, λ e. cc)
zk_mode-create_number ephemeral = (refl, refl, λ e. cc)
zk_mode-create_number persistent_sequential = (refl, refl, λ e. cc)
zk_mode-create_number ephemeral_sequential = (refl, refl, λ e. cc)
zk_mode-create_number persistent_with_ttl = (refl, refl, λ e. cc)
zk_mode-create_number persistent_sequential_with_ttl = (refl, refl, λ e. cc)

abbrev ended : {S : Type 0} → S × ErrorCode × Text → Option (S × Ending)
ended (s, ec, name) = some (s, called ec name)

abbrev forwarded :
    {S : Type 0} → (Ending → List Called) → Option (S × Ending) → Option (S × List Called)
forwarded f none = none
forwarded f (some (s, e)) = some (s, f e)

-- The endings of two runs that agree are forwarded alike.
shift :
    {X S : Type 0} (x : Outcome X) (d : X → Option (S × Ending))
    (y : Outcome (S × ErrorCode × Text)) (f : Ending → List Called)
    → (x >>= λ q. returns (d q)) ≡ (y >>= λ r. returns (ended r))
    → (x >>= λ q. returns (forwarded f (d q))) ≡ (y >>= λ r. returns (forwarded f (ended r)))
shift (returns q) d (returns (s, ec, name)) f same =
    let e : d q ≡ some (s, called ec name) = cc in rw e refl
shift (returns q) d (throws x) f same = cc
shift (throws x) d (returns r) f same = cc
shift (throws x) d (throws x') f same = ground arith

module _ (z : Zoo) (laws : CreateLaws z)
    (accepts : (s : z.Server) (r : CreateRequest) → failed (z.submit_create s r) ≡ false) where
  pub async_create_path_told :
      (s : z.Server) (path : Text) (cb : Callback) (v : Option Text) (mode : CreateMode) (ttl : ℤ)
      → (async_create_path z (count path) s path (some cb) v mode ttl ≡ (
          create_path z s path v mode ttl >>= λ (s', ec, name).
          returns (some (s', created_call cb ec name ∷ []))))
        × (async_create_path z (count path) s path none v mode ttl
            ≡ (create_path z s path v mode ttl >>= λ (s', ec, name). returns (some (s', []))))
  unfolding create_path async_create_path
  async_create_path_told s path cb v mode ttl =
      let same = async_create_path-create_path z laws accepts s (create_args path v mode ttl) in
      (
        shift _ (λ (r, p). drive z (count path) s r p) _ (forward_created (some cb)) same,
        shift _ (λ (r, p). drive z (count path) s r p) _ (forward_created none) same,
      )

module _ (z : Zoo) (laws : DeleteLaws z) where
  abbrev deleted_told : Callback → Option (z.Server × ErrorCode) → Option (z.Server × List Called)
  deleted_told cb none = none
  deleted_told cb (some (s', ec)) = some (s', operated_call cb (make_ec ec.value) ∷ [])

  pub async_del_path_told :
      (fuel : ℕ) (s : z.Server) (path : Text) (cb : Callback)
      → async_del_path z fuel s path (some cb) ≡ deleted_told cb (del_path z (suc fuel) s path)
  unfolding async_del_path del_path
  async_del_path_told fuel s path cb = elim (Option-cases (delete_path z (suc fuel) s path)) [
    | inl e ↦ ground (arith, async_delete_path-delete_path z laws fuel s path, e)
    | inr (r, e) ↦ ground (arith, async_delete_path-delete_path z laws fuel s path, e)
  ]

pub async_get_path_value_told :
    (path : Text) (cb : Callback) (m : ConfigMonitor) (rc : Rc) (v : Option Text)
    → (let r = async_get_path_value path (some cb) m in
        let ec = make_ec rc in
        (r.sent ≡ awget path false m.client.next ∷ [])
        × (r.told ≡ [])
        × ((c : ZkClient) × (on_completion m.client.next (value rc v) r.state.client
              ≡ some (c, call_get (forward (some cb)) ec zk_dummy_event path v ∷ []))
            × (lookup m.client.next c.heap ≡ none)
            × ((on_get
                  (forward (some cb))
                  ec
                  zk_dummy_event
                  path
                  v
                  (record r.state { client = c })).told
                ≡ value_notice cb ec v ∷ [])))
unfolding async_get_path_value on_completion on_get allocate Watch.async_get_path_value
async_get_path_value_told path cb m rc v =
    let u = wget_userdata (forward (some cb)) zk_dummy_event path false in
    let c = allocate u m.client in
    (
      refl,
      refl,
      (
        record { heap = Dict.erase m.client.next c.heap; next = c.next },
        ground (arith, lookup-assign m.client.next m.client.next u m.client.heap),
        ground (arith, lookup-erase m.client.next m.client.next c.heap),
        refl,
      ),
    )
