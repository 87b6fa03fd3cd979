-- ===== src/Cdp/Aging/SiftUp.antt =====
-- sift_up, from a node that may be too early for its place.
use lisa_user.Base.{
  ℕ, zero, suc, ◌≤◌, ◌<◌, ◌≡◌, refl, ◌==◌, leb, arith, Bool-cases, if-split, inl, inr,
}
use lisa_user.Cdp.Aging.{NeighborHeap, parent, xchg, sift_up}
use lisa_user.Cdp.Aging.Order.{
  stamp, IsHeap, IsHeapBelow, IsLinked, xchg-stamp_first, xchg-stamp_second, xchg-stamp_other,
  xchg-IsLinked, moved_up,
}

abbrev Restored : ℕ → NeighborHeap → Type 0
Restored heap_end h = IsHeap heap_end (stamp h) × IsLinked heap_end h

-- sift_up at a node that alone may be too early for its place, in an array where each neighbour
-- points back to its node: with more fuel than the node's index the array is a heap, and each
-- neighbour points to where its node is now.
pub sift_up-IsHeap :
    (fuel pos heap_end : ℕ) (h : NeighborHeap)
    → pos < fuel
    → pos ≤ heap_end
    → IsHeapBelow heap_end pos (stamp h)
    → IsLinked heap_end h
    → IsHeap heap_end (stamp (sift_up fuel pos h)) × IsLinked heap_end (sift_up fuel pos h)
unfolding sift_up
sift_up-IsHeap zero pos e h enough inside ok linked = absurd (omega arith)
sift_up-IsHeap (suc fuel) pos e h enough inside ok linked =
    let p = parent pos in
    if-split (Restored e) (pos == 0) h _
      (λ at_root. (λ k up within. ok.0 k up within (ground arith), linked))
      (λ below.
        if-split (Restored e) (leb (stamp h p) (stamp h pos)) h _
          (λ in_place. (
            λ k up within. elim (Bool-cases (k == pos)) [
              | inl same ↦ let is_pos : k ≡ pos = ground arith in rw (is_pos) (ground arith)
              | inr other ↦ ok.0 k up within (ground arith)
            ],
            linked,
          ))
          (λ early.
            sift_up-IsHeap fuel p e (xchg pos p h) (ground arith) (ground arith)
              (moved_up (stamp h) (stamp (xchg pos p h)) e pos p refl (xchg-stamp_first pos p h)
                (xchg-stamp_second pos p h) (λ k. xchg-stamp_other pos p k h) (ground arith) inside
                (ground arith) ok)
              (xchg-IsLinked e pos p h inside (ground arith) (ground arith) linked)))
