-- ===== src/Zk/Watch.antt =====
-- The asynchronous reads and watches of cppzk.hpp: `async_get_path_value`, `watch_path_event`,
-- `async_get_sub_path`, their watchers and their completions. User data stands on a heap, under a
-- number for its address; the C client holds that number as its context. A handler that reads data
-- which is gone gives none.
pub mod World
pub mod Safety
use config_monitor.Base.{
  ℕ, suc, ◌+◌, Bool, true, false, not, Option, none, some, List, [], ◌∷◌, Text, nat_eq,
  if◌then◌else◌,
}
use config_monitor.Base.Dict
use config_monitor.Base.Dict.{Dict}
use config_monitor.Zk.Types.{
  Rc, znonode, ErrorCode, make_ec, ZkEvent, zk_dummy_event, zk_deleted_event, is_session_event,
  is_delete_event,
}
use config_monitor.Zk.Client.{or_nil}

-- `exists_userdata`, `wget_userdata` and `get_children_userdata`, with the callbacks that they
-- hold. `advanced` is the template argument: such data is in `releaser_`, other data is deleted by
-- its completion. Data for an existence watch is always in `releaser_`.
pub data Userdata (E G C : Type 0) : Type 0 where
  exists_userdata : E → ZkEvent → Userdata E G C
  wget_userdata : G → ZkEvent → Text → Bool → Userdata E G C
  get_children_userdata : C → Text → Bool → Userdata E G C

-- The data that is alive, and the next address.
pub record Client (E G C : Type 0) : Type 0 where
  pub heap : Dict ℕ (Userdata E G C)
  pub next : ℕ

-- What an operation or a handler does: it sends a request, with a watcher or without, or calls a
-- callback.
pub data Output (E G C : Type 0) : Type 0 where
  awexists : Text → ℕ → Output E G C
  awget : Text → Bool → ℕ → Output E G C
  awget_children2 : Text → Bool → ℕ → Output E G C
  call_exists : E → ErrorCode → ZkEvent → Output E G C
  call_get : G → ErrorCode → ZkEvent → Text → Option Text → Output E G C
  call_children : C → ErrorCode → List Text → Output E G C

-- The client afterwards and what is done, or none for a look at data that is gone.
abbrev pub Handled : Type 0 → Type 0 → Type 0 → Type 0
Handled E G C = Option (Client E G C × List (Output E G C))

-- What a request completes with.
pub data Completion : Type 0 where
  stat : Rc → Completion
  value : Rc → Option Text → Completion
  strings : Rc → Option (List Text) → Completion

module _ {E G C : Type 0} where
  -- `new` or `make_shared`.
  unfoldable pub allocate : Userdata E G C → Client E G C → Client E G C
  allocate u c = record { heap = Dict.assign c.next u c.heap; next = suc c.next }

  unfoldable pub async_get_path_value : Bool → Text → G → Client E G C → Client E G C × Output E G C
  unfolding allocate
  async_get_path_value advanced path cb c =
      (allocate (wget_userdata cb zk_dummy_event path advanced) c, awget path advanced c.next)

  unfoldable pub watch_path_event : Text → E → Client E G C → Client E G C × Output E G C
  unfolding allocate
  watch_path_event path cb c =
      (allocate (exists_userdata cb zk_dummy_event) c, awexists path c.next)

  unfoldable pub async_get_sub_path : Bool → Text → C → Client E G C → Client E G C × Output E G C
  unfolding allocate
  async_get_sub_path advanced path cb c =
      (allocate (get_children_userdata cb path advanced) c, awget_children2 path advanced c.next)

  abbrev in_releaser : Userdata E G C → Bool
  in_releaser (exists_userdata cb eve) = true
  in_releaser (wget_userdata cb eve path advanced) = advanced
  in_releaser (get_children_userdata cb path advanced) = advanced

  abbrev deleted_by_hand : Dict ℕ (Userdata E G C) → Dict ℕ (Userdata E G C)
  deleted_by_hand [] = []
  deleted_by_hand ((id, u) ∷ rest) =
      let others = deleted_by_hand rest in if in_releaser u then others else (id, u) ∷ others

  -- `releaser_.clear()`
  unfoldable pub clear_releaser : Client E G C → Client E G C
  clear_releaser c = record c { heap = deleted_by_hand c.heap }

  abbrev release : ℕ → Client E G C → Client E G C
  release id c = record c { heap = Dict.erase id c.heap }

  -- The three watchers, for any event but that of the session. The path is the one that the
  -- client gives.
  abbrev watched : ℕ → ZkEvent → Text → Client E G C → Option (Userdata E G C) → Handled E G C
  watched id eve path c none = none
  watched id eve path c (some (exists_userdata cb _)) =
      some
        (record c { heap = Dict.assign id (exists_userdata cb eve) c.heap }, awexists path id ∷ [])
  watched id eve path c (some (wget_userdata cb _ _ advanced)) =
      if is_delete_event eve
      then some (release id c, call_get cb (make_ec znonode) zk_deleted_event path none ∷ [])
      else some (
        record c { heap = Dict.assign id (wget_userdata cb eve path advanced) c.heap },
        awget path true id ∷ [],
      )
  watched id eve path c (some (get_children_userdata cb p advanced)) =
      if is_delete_event eve
      then some (release id c, [])
      else some (c, awget_children2 path true id ∷ [])

  -- A session event is left to the watcher of the connection, with no look at the data.
  unfoldable pub on_event : ℕ → ZkEvent → Text → Client E G C → Handled E G C
  unfolding is_delete_event is_session_event make_ec
  on_event id eve path c =
      if is_session_event eve then some (c, []) else watched id eve path c (Dict.lookup id c.heap)

  abbrev release_unless : Bool → ℕ → Client E G C → Client E G C
  release_unless advanced id c = if advanced then c else release id c

  -- The three completions. One of another kind than the data's is no behaviour of the client.
  abbrev completed : ℕ → Completion → Client E G C → Option (Userdata E G C) → Handled E G C
  completed id (stat rc) c (some (exists_userdata cb eve)) =
      some (c, call_exists cb (make_ec rc) eve ∷ [])
  completed id (value rc val) c (some (wget_userdata cb eve path advanced)) =
      some (release_unless advanced id c, call_get cb (make_ec rc) eve path val ∷ [])
  completed id (strings rc l) c (some (get_children_userdata cb path advanced)) =
      some (release_unless advanced id c, call_children cb (make_ec rc) (or_nil l) ∷ [])
  completed id _ c _ = none

  unfoldable pub on_completion : ℕ → Completion → Client E G C → Handled E G C
  unfolding make_ec
  on_completion id k c = completed id k c (Dict.lookup id c.heap)
