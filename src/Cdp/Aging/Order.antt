-- ===== src/Cdp/Aging/Order.antt =====
-- sift_up restores the order of the heap.
use lisa_user.Base.{ℕ, ◌≤◌, ◌<◌, ◌≡◌, ◌≢◌, sym, ap, ◌∙◌, ◌==◌, arith, Bool-cases, inl, inr}
use mathlib.Core.Path.{subst}
use lisa_user.Cdp.Aging.{NeighborHeap, parent, xchg}

-- the time at an index
abbrev pub stamp : NeighborHeap → ℕ → ℕ
stamp h k = (h.node k).tstamp

-- No node up to the last expires before its parent.
abbrev pub IsHeap : ℕ → (ℕ → ℕ) → Type 0
IsHeap heap_end f = (k : ℕ) → 0 < k → k ≤ heap_end → f (parent k) ≤ f k

-- In order but for the node at `pos`, which may be too early for its place.
abbrev pub IsHeapBelow : ℕ → ℕ → (ℕ → ℕ) → Type 0
IsHeapBelow heap_end pos f =
    ((k : ℕ) → 0 < k → k ≤ heap_end → k ≢ pos → f (parent k) ≤ f k)
    × ((k : ℕ) → 0 < k → k ≤ heap_end → parent k ≡ pos → 0 < pos → f (parent pos) ≤ f k)

pub xchg-stamp_first : (i j : ℕ) (h : NeighborHeap) → stamp (xchg i j h) i ≡ stamp h j
xchg-stamp_first i j h = elim (Bool-cases (i == j)) [
  | inl same ↦
      let is_j : i ≡ j = ground arith in
      subst (λ x. stamp (xchg i x h) i ≡ stamp h x) is_j (ground arith)
  | inr other ↦ ground arith
]

pub xchg-stamp_second : (i j : ℕ) (h : NeighborHeap) → stamp (xchg i j h) j ≡ stamp h i
xchg-stamp_second i j h = ground arith

pub xchg-stamp_other :
    (i j k : ℕ) (h : NeighborHeap) → k ≢ i → k ≢ j → stamp (xchg i j h) k ≡ stamp h k
xchg-stamp_other i j k h not_i not_j = ground arith

-- The two nodes exchanged, as the times show it.
module _ (f g : ℕ → ℕ) (e pos p : ℕ) (is_parent : parent pos ≡ p) (at_pos : g pos ≡ f p)
    (at_p : g p ≡ f pos) (elsewhere : (k : ℕ) → k ≢ pos → k ≢ p → g k ≡ f k) (pos_up : 0 < pos)
    (inside : pos ≤ e) (early : f pos < f p) (ok : IsHeapBelow e pos f) where
  above_child : (k : ℕ) → 0 < k → k ≤ e → k ≢ pos → k ≢ p → g (parent k) ≤ g k
  above_child k up within not_pos not_p = elim (Bool-cases (parent k == pos)) [
    | inl same ↦
        let below : parent k ≡ pos = ground arith in
        let above = ok.1 k up within below pos_up in
        rw (below, at_pos, elsewhere k not_pos not_p) (rw (is_parent) at above)
    | inr other ↦ elim (Bool-cases (parent k == p)) [
      | inl same ↦
          let below : parent k ≡ p = ground arith in
          let above = ok.0 k up within not_pos in
          let above_p : f p ≤ f k = rw (below) at above in
          rw (below, at_p, elsewhere k not_pos not_p) (omega arith)
      | inr apart ↦
          rw (elsewhere k not_pos not_p, elsewhere (parent k) (ground arith) (ground arith))
            (ok.0 k up within not_pos)
    ]
  ]

  parent_ok : 0 < p → f (parent p) ≤ f p
  parent_ok p_up = ok.0 p p_up (omega arith) (omega arith)

  pub moved_up : IsHeapBelow e p g
  moved_up = (
    λ k up within not_p. elim (Bool-cases (k == pos)) [
      | inl same ↦
          let is_pos : k ≡ pos = ground arith in rw (is_pos, is_parent, at_p, at_pos) (omega arith)
      | inr other ↦ above_child k up within (ground arith) not_p
    ],
    λ k up within below p_up.
        let above_p : g (parent p) ≡ f (parent p) =
          elsewhere (parent p) (omega arith) (omega arith) in
        elim (Bool-cases (k == pos)) [
          | inl same ↦
              let is_pos : k ≡ pos = ground arith in rw (above_p, is_pos, at_pos) (parent_ok p_up)
          | inr other ↦
              let above_k : f p ≤ f k = rw (below) at (ok.0 k up within (ground arith)) in
              rw (above_p, elsewhere k (ground arith) (omega arith)) (omega (arith, parent_ok p_up))
        ],
  )

-- Each node's neighbour points back to it.
abbrev pub IsLinked : ℕ → NeighborHeap → Type 0
IsLinked heap_end h = (k : ℕ) → k ≤ heap_end → h.hnode (h.node k).n ≡ k

apart_names :
    (heap_end : ℕ) (h : NeighborHeap)
    → IsLinked heap_end h
    → (i k : ℕ) → i ≤ heap_end
    → k ≤ heap_end
    → i ≢ k
    → (h.node i).n ≢ (h.node k).n
apart_names e h ok i k i_in k_in apart same = apart (sym (ok i i_in) ∙ ap h.hnode same ∙ ok k k_in)

pub xchg-IsLinked :
    (heap_end i j : ℕ) (h : NeighborHeap)
    → i ≤ heap_end
    → j ≤ heap_end
    → i ≢ j
    → IsLinked heap_end h
    → IsLinked heap_end (xchg i j h)
xchg-IsLinked e i j h i_in j_in distinct ok k within = elim (Bool-cases (k == j)) [
  | inl at_j ↦ ground arith
  | inr not_j ↦ elim (Bool-cases (k == i)) [
    | inl at_i ↦ ground (arith, apart_names e h ok j i j_in i_in (λ q. distinct (sym q)))
    | inr not_i ↦ ground (
      arith,
      ok k within,
      apart_names e h ok k i within i_in (ground arith),
      apart_names e h ok k j within j_in (ground arith),
    )
  ]
]
