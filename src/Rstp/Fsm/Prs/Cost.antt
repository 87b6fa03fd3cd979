-- ===== src/Rstp/Fsm/Prs/Cost.antt =====
-- The order of path costs as updtRolesTree compares them. A cost is added and stored with its lowest
-- byte first, and compared by memcmp, which reads that byte first.
use lisa_user.Base.{ℕ, ◌+◌, ◌%◌, ◌<◌, ◌≡◌, refl, sym, ◌∙◌, List, ◌∷◌, [], ◌++◌, arith}
use lisa_user.Vector.{negative, PriorityVector4, vec_compare4, memcmp, bridge_bytes, bytes2}
use lisa_user.Rstp.Fsm.Prs.Root.{path_priority}

memcmp-append :
    (xs ys zs : List ℕ) (x y : ℕ) → x < y → memcmp (xs ++ (x ∷ ys)) (xs ++ (y ∷ zs)) ≡ negative
unfolding memcmp
memcmp-append [] ys zs x y h = ground arith
memcmp-append (w ∷ xs) ys zs x y h = ground (arith, memcmp-append xs ys zs x y h)

-- The bytes behind the lowest one of a vector's cost.
abbrev behind : PriorityVector4 → List ℕ
behind v =
    (v.root_path_cost.b1 ∷ v.root_path_cost.b2 ∷ v.root_path_cost.b3 ∷ [])
    ++ (bridge_bytes v.designated_bridge_id ++ bytes2 v.designated_port_id)

cost_byte :
    (v : PriorityVector4) → (path_priority v).root_path_cost.b0 ≡ (v.root_path_cost.b0 + 64) % 256
unfolding path_priority
cost_byte v = omega arith

same_root : (v : PriorityVector4) → (path_priority v).root_bridge_id ≡ v.root_bridge_id
unfolding path_priority
same_root v = refl

compared :
    (v w : PriorityVector4)
    → v.root_bridge_id ≡ w.root_bridge_id
    → v.root_path_cost.b0 < w.root_path_cost.b0
    → vec_compare4 v w ≡ negative
unfolding vec_compare4
compared v w e h = rw (e) (
    memcmp-append (bridge_bytes w.root_bridge_id) (behind v) (behind w) v.root_path_cost.b0
      w.root_path_cost.b0 h)

-- Of two ports whose vectors name one root, the order of their root path priorities, with the cost of
-- the port added and stored, is that of the lowest bytes of the costs, to which 200000 adds 64 as it
-- is 64 modulo 256: whatever the other three bytes are, and so against the order of the costs.
pub lowest_cost_byte_decides :
    (v w : PriorityVector4)
    → v.root_bridge_id ≡ w.root_bridge_id
    → (v.root_path_cost.b0 + 64) % 256 < (w.root_path_cost.b0 + 64) % 256
    → vec_compare4 (path_priority v) (path_priority w) ≡ negative
lowest_cost_byte_decides v w e h =
    compared (path_priority v) (path_priority w) (same_root v ∙ e ∙ sym (same_root w))
      (omega (arith, cost_byte v, cost_byte w))
