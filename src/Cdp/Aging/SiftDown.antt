-- ===== src/Cdp/Aging/SiftDown.antt =====
-- sift_down, from a node that may be too late for its place.
use lisa_user.Base.{
  ℕ, zero, suc, ◌+◌, ◌≤◌, ◌<◌, ◌≡◌, ◌≢◌, ◌&&◌, ◌==◌, leb, ltb, arith, Bool-cases, if-split, inl,
  inr, ◌⊎◌,
}
use lisa_user.Cdp.Aging.{NeighborHeap, left, right, parent, xchg, sift_down, least_child}
use lisa_user.Cdp.Aging.Order.{
  stamp, IsHeap, IsLinked, xchg-stamp_first, xchg-stamp_second, xchg-stamp_other, xchg-IsLinked,
}

-- In order but for the node at `pos`, which may be too late for its place.
abbrev pub IsHeapAbove : ℕ → ℕ → (ℕ → ℕ) → Type 0
IsHeapAbove heap_end pos f =
    ((k : ℕ) → 0 < k → k ≤ heap_end → parent k ≢ pos → f (parent k) ≤ f k)
    × ((k : ℕ) → 0 < k → k ≤ heap_end → parent k ≡ pos → 0 < pos → f (parent pos) ≤ f k)

-- The node and its earliest child exchanged, as the times show it.
module _ (f g : ℕ → ℕ) (e pos c : ℕ) (is_parent : parent c ≡ pos) (child_up : 0 < c)
    (inside : c ≤ e) (at_c : g c ≡ f pos) (at_pos : g pos ≡ f c)
    (elsewhere : (k : ℕ) → k ≢ c → k ≢ pos → g k ≡ f k) (late : f c < f pos)
    (least : (k : ℕ) → 0 < k → k ≤ e → parent k ≡ pos → f c ≤ f k) (ok : IsHeapAbove e pos f) where
  moved_down : IsHeapAbove e c g
  moved_down = (
    λ k up within not_c. elim (Bool-cases (parent k == pos)) [
      | inl same ↦
          let below : parent k ≡ pos = ground arith in
          elim (Bool-cases (k == c)) [
            | inl it ↦
                let is_c : k ≡ c = ground arith in rw (is_c, is_parent, at_pos, at_c) (omega arith)
            | inr other ↦
                rw (below, at_pos, elsewhere k (ground arith) (omega arith))
                  (least k up within below)
          ]
      | inr apart ↦
          let above : g (parent k) ≡ f (parent k) = elsewhere (parent k) (not_c) (ground arith) in
          elim (Bool-cases (k == pos)) [
            | inl it ↦
                let is_pos : k ≡ pos = ground arith in
                let over : f (parent pos) ≤ f c = ok.1 c child_up inside is_parent (omega arith) in
                rw (above, is_pos, at_pos) over
            | inr other ↦
                rw
                  (
                    above,
                    elsewhere k
                        (λ (q : k ≡ c). let at : parent k ≡ pos = rw (q) is_parent in ground arith)
                        (ground arith),
                  )
                  (ok.0 k up within (ground arith))
          ]
    ],
    λ k up within below c_up.
        let above : f c ≤ f k = rw (below) at (ok.0 k up within (omega arith)) in
        rw (is_parent, at_pos, elsewhere k (omega arith) (omega arith)) above,
  )

child_cases : (pos k : ℕ) → 0 < k → parent k ≡ pos → (k ≡ left pos) ⊎ (k ≡ right pos)
child_cases pos k up below = elim (Bool-cases (k == left pos)) [
  | inl same ↦ inl (ground arith)
  | inr other ↦ inr (ground arith)
]

module _ (pos e : ℕ) (h : NeighborHeap) (inside : left pos ≤ e) where
  least_child-place : let c = least_child pos e h in (parent c ≡ pos) × (0 < c) × (c ≤ e)
  least_child-place =
      if-split (λ c. (parent c ≡ pos) × (0 < c) × (c ≤ e))
        (leb (right pos) e && ltb (stamp h (right pos)) (stamp h (left pos))) (right pos) (left pos)
        (λ is_right. (omega arith, omega arith, ground arith))
        (λ is_left. (omega arith, omega arith, inside))

  least_child-least :
      (k : ℕ) → 0 < k → k ≤ e → parent k ≡ pos → stamp h (least_child pos e h) ≤ stamp h k
  least_child-least k up within below = elim (child_cases pos k up below) [
    | inl is_left ↦ rw (is_left) (
        if-split (λ c. stamp h c ≤ stamp h (left pos))
          (leb (right pos) e && ltb (stamp h (right pos)) (stamp h (left pos))) (right pos)
          (left pos) (λ q. ground arith) (λ q. omega arith))
    | inr is_right ↦
        let there : right pos ≤ e = omega arith in
        rw (is_right) (
          if-split (λ c. stamp h c ≤ stamp h (right pos))
            (leb (right pos) e && ltb (stamp h (right pos)) (stamp h (left pos))) (right pos)
            (left pos) (λ q. omega arith) (λ q. ground arith))
  ]

abbrev Restored : ℕ → NeighborHeap → Type 0
Restored heap_end h = IsHeap heap_end (stamp h) × IsLinked heap_end h

no_child :
    (pos e : ℕ) (f : ℕ → ℕ)
    → ((k : ℕ) → 0 < k → k ≤ e → parent k ≡ pos → f pos ≤ f k)
    → IsHeapAbove e pos f
    → IsHeap e f
no_child pos e f children ok k up within = elim (Bool-cases (parent k == pos)) [
  | inl same ↦ let below : parent k ≡ pos = ground arith in rw (below) (children k up within below)
  | inr other ↦ ok.0 k up within (ground arith)
]

-- sift_down at a node that alone may be too late for its place, in an array where each neighbour
-- points back to its node: with more fuel than nodes from there to the last, the array is a heap,
-- and each neighbour points to where its node is now.
pub sift_down-IsHeap :
    (fuel pos heap_end : ℕ) (h : NeighborHeap)
    → heap_end < pos + fuel
    → IsHeapAbove heap_end pos (stamp h)
    → IsLinked heap_end h
    → IsHeap heap_end (stamp (sift_down fuel pos heap_end h))
      × IsLinked heap_end (sift_down fuel pos heap_end h)
unfolding sift_down
sift_down-IsHeap zero pos e h enough ok linked =
    (no_child pos e (stamp h) (λ k up within below. absurd (omega arith)) ok, linked)
sift_down-IsHeap (suc fuel) pos e h enough ok linked =
    let c = least_child pos e h in
    if-split (Restored e) (leb e pos) h _
      (λ last.
        let past : e ≤ pos = ground arith in
        (no_child pos e (stamp h) (λ k up within below. absurd (omega arith)) ok, linked))
      (λ more.
        if-split (Restored e) (ltb e (left pos)) h _
          (λ leaf.
            let past : e < left pos = ground arith in
            (no_child pos e (stamp h) (λ k up within below. absurd (omega arith)) ok, linked))
          (λ inner.
            let inside : left pos ≤ e = ground arith in
            let (below, up, within) = least_child-place pos e h inside in
            if-split (Restored e) (leb (stamp h pos) (stamp h c)) h _
              (λ in_place.
                let no_later : stamp h pos ≤ stamp h c = ground arith in
                (
                  no_child pos e (stamp h)
                      (λ k k_up k_in k_below.
                        omega
                          (arith, no_later, least_child-least pos e h inside k k_up k_in k_below))
                      ok,
                  linked,
                ))
              (λ too_late.
                sift_down-IsHeap fuel c e (xchg c pos h) (omega arith)
                  (moved_down (stamp h) (stamp (xchg c pos h)) e pos c below up within
                    (xchg-stamp_first c pos h) (xchg-stamp_second c pos h)
                    (λ k. xchg-stamp_other c pos k h) (ground arith)
                    (least_child-least pos e h inside) ok)
                  (xchg-IsLinked e c pos h within (omega arith) (λ q. omega arith) linked))))
