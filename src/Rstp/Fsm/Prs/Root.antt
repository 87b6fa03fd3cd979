-- ===== src/Rstp/Fsm/Prs/Root.antt =====
-- userspace/rstp/fsm/prs.c, updtRolesTree up to the choice of the root port. The path cost is added
-- through an `unsigned long` at root_path_cost: with the 8 bytes of LP64 it covers the cost and the
-- first 4 bytes of designated_bridge_id, the lowest byte first.
use lisa_user.Base.{
  ℕ, suc, ◌+◌, ◌*◌, ◌/◌, ◌%◌, ◌^◌, Bool, List, [], ◌∷◌, Option, none, some, ◌&&◌, ◌||◌, not,
  if◌then◌else◌, ◌==◌,
}
use lisa_user.Vector.{
  Bytes2, PriorityVector4, bytes2, bridge_bytes, vec_bytes, memcmp, is_negative, is_equal,
}
use lisa_user.Rstp.Port.{Port, RstpBridge, info_received}

abbrev pub port_path_cost : ℕ
port_path_cost = 200000

-- the value of the unsigned long at root_path_cost
abbrev pub load_cost : PriorityVector4 → ℕ
load_cost v =
    let c = v.root_path_cost in
    let d = v.designated_bridge_id in
    c.b0
    + 256 * c.b1
    + 65536 * c.b2
    + 16777216 * c.b3
    + 4294967296 * d.bridge_priority.b0
    + 1099511627776 * d.bridge_priority.b1
    + 281474976710656 * d.bridge_address.b0
    + 72057594037927936 * d.bridge_address.b1

abbrev pub store_cost : ℕ → PriorityVector4 → PriorityVector4
store_cost n v =
    let d = v.designated_bridge_id in
    record v {
      root_path_cost = record {
        b0 = n % 256;
        b1 = n / 256 % 256;
        b2 = n / 65536 % 256;
        b3 = n / 16777216 % 256;
      };
      designated_bridge_id = record {
        bridge_priority = record { b0 = n / 4294967296 % 256; b1 = n / 1099511627776 % 256 };
        bridge_address = record (d.bridge_address) {
          b0 = n / 281474976710656 % 256;
          b1 = n / 72057594037927936 % 256;
        };
      };
    }

unfoldable pub path_priority : PriorityVector4 → PriorityVector4
path_priority v = store_cost ((load_cost v + port_path_cost) % 2 ^ 64) v

-- The locals of updtRolesTree: root_priority, root_port_id, and root_port with its place in the
-- list.
pub record RootChoice : Type 0 where
  pub root_priority : PriorityVector4
  pub root_port_id : Bytes2
  pub root_port : Option (ℕ × Port)

-- the initial values: the bridge itself as the root
unfoldable pub own_choice : RstpBridge → RootChoice
own_choice bridge = record {
  root_priority = record {
    root_bridge_id = bridge.bridge_identifier;
    root_path_cost = record { b0 = 0; b1 = 0; b2 = 0; b3 = 0 };
    designated_bridge_id = bridge.bridge_identifier;
    designated_port_id = record { b0 = 0; b1 = 0 };
  };
  root_port_id = record { b0 = 0; b1 = 0 };
  root_port = none;
}

-- whether a port has received information from another bridge
unfoldable pub is_candidate : RstpBridge → Port → Bool
is_candidate bridge entry =
    (entry.info_is == info_received)
    && not (
        is_equal (
          memcmp (bridge_bytes entry.port_priority.designated_bridge_id)
            (bridge_bytes bridge.bridge_identifier)))

-- whether a candidate replaces the choice so far
unfoldable pub improves : Port → RootChoice → Bool
improves entry r =
    let order =
      memcmp (vec_bytes (path_priority entry.port_priority)) (vec_bytes r.root_priority) in
    is_negative order
    || (is_equal order && is_negative (memcmp (bytes2 entry.port_id) (bytes2 r.root_port_id)))

unfoldable pub consider : RstpBridge → ℕ → Port → RootChoice → RootChoice
consider bridge i entry r =
    if is_candidate bridge entry && improves entry r
    then record {
      root_priority = path_priority entry.port_priority;
      root_port_id = entry.port_id;
      root_port = some (i, entry);
    }
    else r

-- the loop, from the i-th entry on
unfoldable pub choose : RstpBridge → ℕ → List Port → RootChoice → RootChoice
choose bridge i [] r = r
choose bridge i (entry ∷ rest) r = choose bridge (suc i) rest (consider bridge i entry r)
