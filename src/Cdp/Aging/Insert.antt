-- ===== src/Cdp/Aging/Insert.antt =====
-- A new neighbour in the heap.
use lisa_user.Base.{ℕ, suc, ◌≤◌, ◌<◌, ◌≡◌, ◌≢◌, ◌==◌, arith, Bool-cases, inl, inr}
use lisa_user.Cdp.Aging.{NeighborHeap, parent, assign, heap_insert}
use lisa_user.Cdp.Aging.Order.{stamp, IsHeapBelow, IsLinked}
use lisa_user.Cdp.Aging.SiftUp.{sift_up-IsHeap}

-- The first `count` nodes are a heap of linked neighbours.
abbrev pub HasHeap : ℕ → NeighborHeap → Type 0
HasHeap count h =
    ((k : ℕ) → 0 < k → k < count → stamp h (parent k) ≤ stamp h k)
    × ((k : ℕ) → k < count → h.hnode (h.node k).n ≡ k)

-- A neighbour that is in none of the heap's nodes, added as decode_field does it: the heap has one
-- node more and is a heap, and each neighbour's record points to its node.
pub heap_insert-HasHeap :
    (tstamp n count : ℕ) (h : NeighborHeap)
    → HasHeap count h
    → ((k : ℕ) → k < count → (h.node k).n ≢ n)
    → HasHeap (suc count) (heap_insert tstamp n count h)
unfolding heap_insert
heap_insert-HasHeap tstamp n count h ok fresh =
    let new : NeighborHeap = record {
      node = assign count (record { tstamp = tstamp; n = n }) h.node;
      hnode = assign n count h.hnode;
    } in
    let below : IsHeapBelow count count (stamp new) = (
      λ k up within apart. ground (arith, ok.0 k up (omega arith)),
      λ k up within under c_up. absurd (omega arith),
    ) in
    let linked : IsLinked count new = λ k within. elim (Bool-cases (k == count)) [
      | inl same ↦ ground arith
      | inr other ↦ ground (arith, ok.1 k (ground arith), fresh k (ground arith))
    ] in
    let (order, links) =
      sift_up-IsHeap (suc count) count count new (omega arith) (omega arith) below linked in
    (λ k up within. order k up (omega arith), λ k within. links k (omega arith))
