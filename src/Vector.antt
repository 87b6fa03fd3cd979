-- ===== src/Vector.antt =====
-- userspace/include/vector.h and userspace/lib/vector.c: bridge identifiers, priority vectors and
-- times, their bytes in memory (the structs are packed, and times are little-endian shorts), and
-- the comparisons by memcmp. memcmp itself is the C library's: `memcmp` below is its documented
-- result, the order of the first bytes that differ, and only its sign is ever read.
pub mod Order
use lisa_user.Base.{
  ℕ, ◌+◌, ◌*◌, ◌%◌, ◌/◌, Bool, true, false, List, [], ◌∷◌, ◌++◌, if◌then◌else◌, ltb,
}

-- unsigned char[2], [4] and [6]
pub record Bytes2 : Type 0 where
  pub b0 : ℕ
  pub b1 : ℕ

pub record Bytes4 : Type 0 where
  pub b0 : ℕ
  pub b1 : ℕ
  pub b2 : ℕ
  pub b3 : ℕ

pub record Bytes6 : Type 0 where
  pub b0 : ℕ
  pub b1 : ℕ
  pub b2 : ℕ
  pub b3 : ℕ
  pub b4 : ℕ
  pub b5 : ℕ

pub record BridgeId : Type 0 where
  pub bridge_priority : Bytes2
  pub bridge_address : Bytes6

pub record PriorityVector4 : Type 0 where
  pub root_bridge_id : BridgeId
  pub root_path_cost : Bytes4
  pub designated_bridge_id : BridgeId
  pub designated_port_id : Bytes2

pub record PriorityVector : Type 0 where
  pub root_bridge_id : BridgeId
  pub root_path_cost : Bytes4
  pub designated_bridge_id : BridgeId
  pub designated_port_id : Bytes2
  pub bridge_port_id : Bytes2

pub record RstpTimes : Type 0 where
  pub message_age : ℕ  -- unsigned short, as are the others
  pub max_age : ℕ
  pub hello_time : ℕ
  pub forward_delay : ℕ

-- The bytes that a value occupies, in order.
abbrev pub bytes2 : Bytes2 → List ℕ
bytes2 b = b.b0 ∷ b.b1 ∷ []

abbrev pub bytes4 : Bytes4 → List ℕ
bytes4 b = b.b0 ∷ b.b1 ∷ b.b2 ∷ b.b3 ∷ []

abbrev pub bytes6 : Bytes6 → List ℕ
bytes6 b = b.b0 ∷ b.b1 ∷ b.b2 ∷ b.b3 ∷ b.b4 ∷ b.b5 ∷ []

abbrev pub bridge_bytes : BridgeId → List ℕ
bridge_bytes b = bytes2 b.bridge_priority ++ bytes6 b.bridge_address

abbrev pub vec_bytes : PriorityVector4 → List ℕ
vec_bytes v =
    bridge_bytes v.root_bridge_id
    ++ (bytes4 v.root_path_cost
        ++ (bridge_bytes v.designated_bridge_id ++ bytes2 v.designated_port_id))

-- an unsigned short on a little-endian host
abbrev pub short_bytes : ℕ → Bytes2
short_bytes n = record { b0 = n % 256; b1 = n / 256 % 256 }

abbrev pub tim_bytes : RstpTimes → List ℕ
tim_bytes t =
    bytes2 (short_bytes t.message_age)
    ++ (bytes2 (short_bytes t.max_age)
        ++ (bytes2 (short_bytes t.hello_time) ++ bytes2 (short_bytes t.forward_delay)))

-- The sign of memcmp's result.
pub data Sign : Type 0 where
  negative : Sign
  equal : Sign
  positive : Sign

unfoldable pub memcmp : List ℕ → List ℕ → Sign
memcmp [] _ = equal
memcmp (x ∷ xs) [] = equal
memcmp (x ∷ xs) (y ∷ ys) =
    let rest = memcmp xs ys in if ltb x y then negative else if ltb y x then positive else rest

abbrev pub is_negative : Sign → Bool
is_negative negative = true
is_negative equal = false
is_negative positive = false

abbrev pub is_positive : Sign → Bool
is_positive negative = false
is_positive equal = false
is_positive positive = true

abbrev pub is_equal : Sign → Bool
is_equal negative = false
is_equal equal = true
is_equal positive = false

unfoldable pub vec_compare4 : PriorityVector4 → PriorityVector4 → Sign
vec_compare4 v w = memcmp (vec_bytes v) (vec_bytes w)

-- The code only tests the result of tim_compare against 0.
unfoldable pub tim_compare : RstpTimes → RstpTimes → Sign
tim_compare t u = memcmp (tim_bytes t) (tim_bytes u)

-- memcpy of two bytes into an unsigned short
abbrev pub to_short : Bytes2 → ℕ
to_short b = b.b0 + 256 * b.b1
