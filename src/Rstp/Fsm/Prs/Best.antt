-- ===== src/Rstp/Fsm/Prs/Best.antt =====
-- The choice of the root port by updtRolesTree: it is the best of the bridge itself and of what the
-- ports have received from other bridges.
use lisa_user.Base.{
  ℕ, suc, ◌+◌, ◌≡◌, ◌≢◌, refl, List, [], ◌∷◌, some, All, true, false, Bool, Bool-cases, inl, inr,
  ◌&&◌, ◌||◌, ◌⊎◌, ◌∙◌, get_elem?,
}
use native.Mathlib.Nat.{add-zero, add-suc, suc-add}
use lisa_user.Vector.{
  Sign, negative, equal, positive, is_negative, is_equal, PriorityVector4, vec_bytes, memcmp,
}
use lisa_user.Vector.Order.{flip, memcmp_refl, memcmp-flip, memcmp_trans}
use lisa_user.Rstp.Port.{Port, RstpBridge}
use lisa_user.Rstp.Fsm.Prs.Root.{
  path_priority, RootChoice, own_choice, is_candidate, improves, consider, choose,
}

-- no worse than
abbrev pub AtMost : PriorityVector4 → PriorityVector4 → Type 0
AtMost v w = memcmp (vec_bytes v) (vec_bytes w) ≢ positive

AtMost-refl : (v : PriorityVector4) → AtMost v v
AtMost-refl v = λ e. cc (memcmp_refl (vec_bytes v))

AtMost-trans : (u v w : PriorityVector4) → AtMost u v → AtMost v w → AtMost u w
AtMost-trans u v w = memcmp_trans (vec_bytes u) (vec_bytes v) (vec_bytes w) refl refl

accepted : (o : Sign) (b : Bool) → (is_negative o || (is_equal o && b)) ≡ true → o ≢ positive
accepted negative b e = λ k. cc
accepted equal b e = λ k. cc
accepted positive b e = λ k. cc

refused : (o : Sign) (b : Bool) → (is_negative o || (is_equal o && b)) ≡ false → flip o ≢ positive
refused negative b e = λ k. cc
refused equal b e = λ k. cc
refused positive b e = λ k. cc

improves-AtMost :
    (p : Port) (r : RootChoice)
    → improves p r ≡ true
    → AtMost (path_priority p.port_priority) r.root_priority
unfolding improves
improves-AtMost p r e = accepted _ _ e

not_improves-AtMost :
    (p : Port) (r : RootChoice)
    → improves p r ≡ false
    → AtMost r.root_priority (path_priority p.port_priority)
unfolding improves
not_improves-AtMost p r e =
    rw (memcmp-flip (vec_bytes (path_priority p.port_priority)) (vec_bytes r.root_priority) refl)
      (refused _ _ e)

-- A choice is no worse than the choice before and than the candidate that it was compared with.
consider-AtMost :
    (bridge : RstpBridge) (i : ℕ) (p : Port) (r : RootChoice)
    → AtMost (consider bridge i p r).root_priority r.root_priority
      × (is_candidate bridge p ≡ true
          → AtMost (consider bridge i p r).root_priority (path_priority p.port_priority))
unfolding consider
consider-AtMost bridge i p r = elim (Bool-cases (is_candidate bridge p)) [
  | inl cand ↦ elim (Bool-cases (improves p r)) [
    | inl better ↦
        rw cand
          (rw better (improves-AtMost p r better, λ k. AtMost-refl (path_priority p.port_priority)))
    | inr worse ↦
        rw cand (rw worse (AtMost-refl r.root_priority, λ k. not_improves-AtMost p r worse))
  ]
  | inr none_such ↦ rw none_such (AtMost-refl r.root_priority, λ k. cc)
]

-- what holds of each port that the loop has seen
abbrev pub IsBeaten : RstpBridge → PriorityVector4 → Port → Type 0
IsBeaten bridge best p = is_candidate bridge p ≡ true → AtMost best (path_priority p.port_priority)

choose-AtMost :
    (bridge : RstpBridge) (i : ℕ) (ports : List Port) (r : RootChoice)
    → AtMost (choose bridge i ports r).root_priority r.root_priority
      × All (IsBeaten bridge (choose bridge i ports r).root_priority) ports
unfolding choose
choose-AtMost bridge i [] r = (AtMost-refl r.root_priority, tt)
choose-AtMost bridge i (p ∷ ps) r =
    let step = consider-AtMost bridge i p r in
    let ih = choose-AtMost bridge (suc i) ps (consider bridge i p r) in
    let last = (choose bridge (suc i) ps (consider bridge i p r)).root_priority in
    let mid = (consider bridge i p r).root_priority in
    (
      AtMost-trans last mid r.root_priority ih.0 step.0,
      ((λ k. AtMost-trans last mid (path_priority p.port_priority) ih.0 (step.1 k)), ih.1),
    )

-- Where the choice comes from: the values before the loop, or the port at its place.
abbrev pub ComesFrom : RstpBridge → ℕ → List Port → RootChoice → RootChoice → Type 0
ComesFrom bridge i ports r c =
    (c ≡ r)
    ⊎ ((j : ℕ) × (p : Port) × (c.root_port ≡ some (i + j, p))
        × (get_elem? ports j ≡ some p)
        × (is_candidate bridge p ≡ true)
        × (c.root_priority ≡ path_priority p.port_priority)
        × (c.root_port_id ≡ p.port_id))

consider-cases :
    (bridge : RstpBridge) (i : ℕ) (p : Port) (r : RootChoice)
    → (consider bridge i p r ≡ r)
      ⊎ ((is_candidate bridge p ≡ true)
          × (consider bridge i p r ≡ record {
            root_priority = path_priority p.port_priority;
            root_port_id = p.port_id;
            root_port = some (i, p);
          }))
unfolding consider
consider-cases bridge i p r = elim (Bool-cases (is_candidate bridge p)) [
  | inl cand ↦ elim (Bool-cases (improves p r)) [
    | inl better ↦ rw cand (rw better (inr (refl, refl)))
    | inr worse ↦ rw cand (rw worse (inl refl))
  ]
  | inr none_such ↦ rw none_such (inl refl)
]

shift :
    (bridge : RstpBridge) (i : ℕ) (p : Port) (ps : List Port) (r c : RootChoice)
    → ComesFrom bridge (suc i) ps (consider bridge i p r) c
    → ComesFrom bridge i (p ∷ ps) r c
shift bridge i p ps r c (inr (j, q, at, found, cand, pr, id)) =
    inr (suc j, q, (rw (add-suc, ← suc-add) at), found, cand, pr, id)
shift bridge i p ps r c (inl same) = elim (consider-cases bridge i p r) [
  | inl kept ↦ inl (same ∙ kept)
  | inr (cand, taken) ↦ inr (
    0,
    p,
    (rw (same, taken, add-zero) refl),
    refl,
    cand,
    (rw (same, taken) refl),
    (rw (same, taken) refl),
  )
]

choose-ComesFrom :
    (bridge : RstpBridge) (i : ℕ) (ports : List Port) (r : RootChoice)
    → ComesFrom bridge i ports r (choose bridge i ports r)
unfolding choose
choose-ComesFrom bridge i [] r = inl refl
choose-ComesFrom bridge i (p ∷ ps) r =
    shift bridge i p ps r _ (choose-ComesFrom bridge (suc i) ps (consider bridge i p r))

-- The loop over the ports chooses the best: its root priority is no worse than the bridge's own and
-- than the path priority of every candidate, and it is the bridge's own, with no root port, or the
-- path priority of the candidate at the place that root_port names, with that port's identifier.
pub choose_best :
    (bridge : RstpBridge) (ports : List Port)
    → let own = own_choice bridge in
      let best = choose bridge 0 ports own in
      AtMost best.root_priority own.root_priority
      × All (IsBeaten bridge best.root_priority) ports
      × ComesFrom bridge 0 ports own best
choose_best bridge ports =
    let k = choose-AtMost bridge 0 ports (own_choice bridge) in
    (k.0, k.1, choose-ComesFrom bridge 0 ports (own_choice bridge))
