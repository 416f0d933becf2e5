-- ===== src/Zk/Value.antt =====
-- `get_path_value` of cppzk.hpp: a read into a buffer of 1024 bytes, and a second read where the
-- value is longer. The server may change in between.
use config_monitor.Base.{
  ℕ, zero, suc, ◌-◌, ◌≤◌, ◌<◌, ◌≡◌, refl, ap, ◌∙◌, min, Bool, true, false, Option, none, some, [],
  ◌∷◌, ◌++◌, arith, Text, length, length-take, take, take_all, leb, if◌then◌else◌, Outcome, returns,
  throws, length_error,
}
use native.Mathlib.Decide.{dec_le}
use config_monitor.Zk.Types.{ℤ, pos, negsuc, Rc, zok, znonode, failed, ErrorCode, make_ec}

-- What `zoo_get` gives: the code, the bytes that it wrote, the length that it stored, -1 for a node
-- with no value, and `stat.dataLength`.
pub record ZooGet : Type 1 where
  pub Server : Type 0
  pub get : Server → Text → ℕ → Rc × Text × ℤ × ℕ

-- What zookeeper.h says of it, for the node at a path: absent, without a value, or with one.
pub record GetLaws (z : ZooGet) : Type 0 where
  pub node : z.Server → Text → Option (Option Text)
  pub absent : (s : z.Server) (p : Text) (n : ℕ) → node s p ≡ none → (z.get s p n).0 ≡ znonode
  pub null :
      (s : z.Server) (p : Text) (n : ℕ)
      → node s p ≡ some none
      → z.get s p n ≡ (zok, [], negsuc 0, 0)
  pub valued :
      (s : z.Server) (p : Text) (n : ℕ) (v : Text)
      → node s p ≡ some (some v)
      → z.get s p n ≡ (zok, take n v, pos (min n (length v)), length v)

-- The bytes of a buffer that starts as zeros: those written, and zeros up to its size.
abbrev pub zeros : ℕ → Text
zeros zero = []
zeros (suc n) = 0 ∷ zeros n

abbrev pub size : ℕ
size = 1024

abbrev pub Value : Type 0
Value = Outcome (ErrorCode × Option Text)

-- `std::string{ptr, (size_t)real_len}` of a buffer; the length -1 is beyond any string.
abbrev pub sized_value : Rc → Text → ℤ → Value
sized_value rc buffer (pos n) = returns (make_ec rc, some (take n buffer))
sized_value rc buffer (negsuc n) = throws length_error

abbrev pub is_minus_one : ℤ → Bool
is_minus_one (pos n) = false
is_minus_one (negsuc zero) = true
is_minus_one (negsuc (suc n)) = false

module _ (z : ZooGet) where
  -- The second read, into a buffer of the first one's `dataLength`.
  unfoldable pub reget : z.Server → Text → ℕ → Value
  unfolding make_ec
  reget s path real_len =
      let (rc, written, len, data_length) = z.get s path real_len in
      if failed rc
      then returns (make_ec rc, none)
      else sized_value rc (written ++ zeros (real_len - length written)) len

  -- The state of the server at the first read, and at the second.
  unfoldable pub get_path_value : z.Server → z.Server → Text → Value
  unfolding reget make_ec
  get_path_value s later path =
      let (rc, written, len, real_len) = z.get s path size in
      if failed rc
      then returns (make_ec rc, none)
      else if is_minus_one len
      then returns (make_ec rc, none)
      else if leb real_len size
      then returns (make_ec rc, some (take real_len (written ++ zeros (size - length written))))
      else reget later path real_len

take_append : (v w : Text) → take (length v) (v ++ w) ≡ v
take_append [] w = refl
take_append (x ∷ v) w = rw (take_append v w)

length_cap : (n : ℕ) (v : Text) → min n (length v) ≡ length (take n v)
length_cap n v = omega (arith, length-take n v)

-- What a buffer of `n` bytes gives back of a value.
take-min : (n : ℕ) (v w : Text) → take (min n (length v)) (take n v ++ w) ≡ take n v
take-min n v w = rw (length_cap n v) (take_append (take n v) w)

-- A value that fits the first buffer, and one that does not.
fits : (v : Text) → length v ≤ size → leb (length v) size ≡ true
fits v h = ground arith

overflows : (v : Text) → size < length v → leb (length v) size ≡ false
overflows v h = ground arith

abbrev pub read_of : Option (Option Text) → Value
read_of none = returns (make_ec znonode, none)
read_of (some v) = returns (make_ec zok, v)

module _ (z : ZooGet) (laws : GetLaws z) where
  read_short :
      (s later : z.Server) (p v : Text)
      → laws.node s p ≡ some (some v)
      → length v ≤ size
      → get_path_value z s later p ≡ returns (make_ec zok, some v)
  unfolding get_path_value
  read_short s later p v a short =
      rw (laws.valued s p size v a, fits v short, take_all size v short)
        (ap (λ t. returns (make_ec zok, some t)) (take_append v _))

  -- On a server that obeys `GetLaws`, a value longer than the first buffer that is replaced by
  -- another value between the reads comes back as the new value cut to the length of the old
  -- one.
  pub get_path_value_replaced :
      (s later : z.Server) (p v w : Text)
      → laws.node s p ≡ some (some v)
      → size < length v
      → laws.node later p ≡ some (some w)
      → get_path_value z s later p ≡ returns (make_ec zok, some (take (length v) w))
  unfolding get_path_value
  get_path_value_replaced s later p v w a long b =
      rw (laws.valued s p size v a, overflows v long, laws.valued later p (length v) w b)
        (ap (λ t. returns (make_ec zok, some t)) (take-min (length v) w _))

  -- On a server that obeys `GetLaws`, if a value longer than the first buffer is replaced by no
  -- value at all between the reads, the length -1 is taken for a size, and the call throws.
  pub get_path_value_emptied :
      (s later : z.Server) (p v : Text)
      → laws.node s p ≡ some (some v)
      → size < length v
      → laws.node later p ≡ some none
      → get_path_value z s later p ≡ throws length_error
  unfolding get_path_value
  get_path_value_emptied s later p v a long b =
      rw (laws.valued s p size v a, overflows v long, laws.null later p (length v) b)

  read_cases :
      (s later : z.Server) (p : Text) (n : Option (Option Text))
      → laws.node s p ≡ n
      → laws.node later p ≡ n
      → get_path_value z s later p ≡ read_of n
  unfolding get_path_value
  read_cases s later p none a b = rw (laws.absent s p size a)
  read_cases s later p (some none) a b = rw (laws.null s p size a)
  read_cases s later p (some (some v)) a b = elim (dec_le (length v) size) [
    | yes short ↦ read_short s later p v a short
    | no long ↦
        get_path_value_replaced s later p v v a (omega arith) b
        ∙ ap (λ t. returns (make_ec zok, some t)) (take_all (length v) v (omega arith))
  ]

  -- On a server that obeys `GetLaws`, while the node does not change between the reads, the
  -- value returned is the node's, whole and of any length; a missing node gives `ZNONODE`, a
  -- node with no value no value.
  pub get_path_value-node :
      (s later : z.Server) (p : Text)
      → laws.node later p ≡ laws.node s p
      → get_path_value z s later p ≡ read_of (laws.node s p)
  get_path_value-node s later p same = read_cases s later p (laws.node s p) refl same
