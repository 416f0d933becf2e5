-- ===== src/Zk/Client.antt =====
-- The calls of the ZooKeeper C client (3party/zookeeper-client-c/include/zookeeper.h) that the
-- synchronous and the chained asynchronous operations of cppzk.hpp make, over a server whose
-- state is unknown. An asynchronous call is two functions: the code that it returns at once
-- (`zok` if the request was queued), and what its completion is called with later.
use config_monitor.Base.{
  ℕ, ◌+◌, ◌-◌, ◌≤◌, ◌≡◌, true, false, Option, none, some, List, Text, length, take, text_eq, [],
}
use config_monitor.Zk.Types.{ℤ, Rc, failed, ZkAcl}

-- The arguments that `zoo_create2_ttl` and `zoo_acreate2_ttl` share.
pub record CreateRequest : Type 0 where
  pub path : Text
  pub value : Option Text
  pub acl : ZkAcl
  pub mode : ℕ
  pub ttl : ℤ

pub record Zoo : Type 1 where
  pub Server : Type 0
  -- `zoo_create2_ttl`, with the length of the buffer for the new path. A null buffer has length 0.
  pub create2_ttl : Server → CreateRequest → ℕ → Server × Rc × Text
  pub submit_create : Server → CreateRequest → Rc
  pub complete_create : Server → CreateRequest → Server × Rc × Option Text
  -- `zoo_delete` and `zoo_adelete`, version -1.
  pub delete : Server → Text → Server × Rc
  pub submit_delete : Server → Text → Rc
  pub complete_delete : Server → Text → Server × Rc
  -- `zoo_wget_children2` and `zoo_awget_children2`, with no watcher.
  pub get_children : Server → Text → Rc × List Text
  pub submit_children : Server → Text → Rc
  pub complete_children : Server → Text → Rc × Option (List Text)

-- A path handed back in a completion; a null pointer reads as the empty text.
abbrev pub or_empty : Option Text → Text
or_empty none = []
or_empty (some t) = t

-- The names of a completion; a null pointer is no names.
abbrev pub or_nil : Option (List Text) → List Text
or_nil none = []
or_nil (some l) = l

-- What zookeeper.h says of creation. The synchronous call is the asynchronous one, awaited: it
-- returns the code of the refusal, or that of the completion, and the new path cut to the buffer.
-- The new path is longer than the given one by the ten digits of a sequence number at most, and
-- is null on an error.
pub record CreateLaws (z : Zoo) : Type 0 where
  pub refused :
      (s : z.Server) (r : CreateRequest) (n : ℕ)
      → failed (z.submit_create s r) ≡ true
      → z.create2_ttl s r n ≡ (s, z.submit_create s r, [])
  pub awaited :
      (s : z.Server) (r : CreateRequest) (n : ℕ)
      → failed (z.submit_create s r) ≡ false
      → z.create2_ttl s r n ≡ (
        (z.complete_create s r).0,
        (z.complete_create s r).1,
        take (n - 1) (or_empty (z.complete_create s r).2),
      )
  pub named :
      (s : z.Server) (r : CreateRequest)
      → length (or_empty (z.complete_create s r).2) ≤ length r.path + 10
  pub unnamed :
      (s : z.Server) (r : CreateRequest)
      → failed (z.complete_create s r).1 ≡ true
      → (z.complete_create s r).2 ≡ none

-- The same of listing and deletion, when the client accepts the requests.
pub record DeleteLaws (z : Zoo) : Type 0 where
  pub accepts_children : (s : z.Server) (p : Text) → failed (z.submit_children s p) ≡ false
  pub accepts_delete : (s : z.Server) (p : Text) → failed (z.submit_delete s p) ≡ false
  pub children_rc : (s : z.Server) (p : Text) → (z.get_children s p).0 ≡ (z.complete_children s p).0
  pub children_names :
      (s : z.Server) (p : Text) → (z.get_children s p).1 ≡ or_nil (z.complete_children s p).1
  pub deleted : (s : z.Server) (p : Text) → z.delete s p ≡ z.complete_delete s p
