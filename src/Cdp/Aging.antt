-- ===== src/Cdp/Aging.antt =====
-- userspace/cdpd/cdp_aging.c: the heap of neighbours by the time at which they expire. The array is
-- a function from an index to a node, and `hnode` is the index that each neighbour's record points
-- to. A neighbour is a number. The loops run on fuel, of which the results say how much is enough.
pub mod Order
pub mod SiftUp
pub mod SiftDown
pub mod Insert
use lisa_user.Base.{
  ℕ, zero, suc, ◌+◌, ◌-◌, ◌*◌, ◌/◌, Bool, true, false, ◌&&◌, if◌then◌else◌, ◌==◌, ltb, leb,
}

pub record HeapNode : Type 0 where
  pub tstamp : ℕ
  pub n : ℕ

pub record NeighborHeap : Type 0 where
  pub node : ℕ → HeapNode
  pub hnode : ℕ → ℕ

abbrev pub left : ℕ → ℕ
left k = 2 * k + 1

abbrev pub right : ℕ → ℕ
right k = 2 * k + 2

-- of an index above 0
abbrev pub parent : ℕ → ℕ
parent k = (k - 1) / 2

abbrev pub assign {ℓ} : {A : Type ℓ} → ℕ → A → (ℕ → A) → ℕ → A
assign i x f k = if k == i then x else f k

-- _XCHG
abbrev pub xchg : ℕ → ℕ → NeighborHeap → NeighborHeap
xchg i1 i2 h = record {
  node = assign i2 (h.node i1) (assign i1 (h.node i2) h.node);
  hnode = assign (h.node i1).n i2 (assign (h.node i2).n i1 h.hnode);
}

unfoldable pub sift_up : ℕ → ℕ → NeighborHeap → NeighborHeap
sift_up zero pos h = h
sift_up (suc fuel) pos h =
    let rest = sift_up fuel (parent pos) (xchg pos (parent pos) h) in
    if pos == 0 then h else if leb (h.node (parent pos)).tstamp (h.node pos).tstamp then h else rest

-- the child to compare with
abbrev pub least_child : ℕ → ℕ → NeighborHeap → ℕ
least_child pos heap_end h =
    if leb (right pos) heap_end && ltb (h.node (right pos)).tstamp (h.node (left pos)).tstamp
    then right pos
    else left pos

unfoldable pub sift_down : ℕ → ℕ → ℕ → NeighborHeap → NeighborHeap
sift_down zero pos heap_end h = h
sift_down (suc fuel) pos heap_end h =
    let least = least_child pos heap_end h in
    let rest = sift_down fuel least heap_end (xchg least pos h) in
    if leb heap_end pos
    then h
    else if ltb heap_end (left pos)
    then h
    else if leb (h.node pos).tstamp (h.node least).tstamp
    then h
    else rest

-- From decode_field: a new neighbour behind the `count` nodes, which is one more than `hend`. The
-- array has room here.
unfoldable pub heap_insert : ℕ → ℕ → ℕ → NeighborHeap → NeighborHeap
heap_insert tstamp n count h = sift_up (suc count) count (record {
  node = assign count (record { tstamp = tstamp; n = n }) h.node;
  hnode = assign n count h.hnode;
})
