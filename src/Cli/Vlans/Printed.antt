-- ===== src/Cli/Vlans/Printed.antt =====
-- list_vlans prints exactly the allowed VLANs.
pub mod Lines
pub mod Read
use mathlib.Core.Path.{subst}
use lisa_user.Base.{
  ℕ, zero, suc, ◌+◌, ◌-◌, ◌*◌, ◌/◌, ◌≤◌, ◌<◌, ◌≡◌, refl, sym, ap, ◌∙◌, Bool, true, false, not, ◌&&◌,
  ◌||◌, List, [], ◌∷◌, ◌++◌, map, Option, none, some, Text, All, length, length-append,
  if◌then◌else◌, ◌==◌, leb, ltb, if-split, if-keep, Bool-cases, Option-cases, inl, inr, arith,
}
use lisa_user.Switch.Store.{sw_max_vlan}
use lisa_user.Cli.Vlans.{
  Bitmap, decimal_digits, decimal, skip_vlans, past, vlan_token, list_vlans_token, Line,
  tokens_length, line_start, list_lines, list_vlans,
}
use lisa_user.Cli.Vlans.Listed.{Item, one, range, item_text, IsItem, IsVlan}
use lisa_user.Cli.Vlans.Selected.{covers}

abbrev SkipsTo : (ℕ → Bool) → ℕ → ℕ → ℕ → Type 0
SkipsTo test n v e =
    (v ≤ e) × (e ≤ v + n) × ((w : ℕ) → v ≤ w → w < e → test w ≡ true) × (e < v + n → test e ≡ false)

skip_vlans-SkipsTo : (test : ℕ → Bool) (n v : ℕ) → SkipsTo test n v (skip_vlans test n v)
unfolding skip_vlans
skip_vlans-SkipsTo test zero v =
    (omega arith, omega arith, λ w a b. absurd (omega arith), λ a. absurd (omega arith))
skip_vlans-SkipsTo test (suc n) v = elim (Bool-cases (test v)) [
  | inl e ↦
      let (later, bound, all, stop) = skip_vlans-SkipsTo test n (suc v) in
      rw (skip_vlans, e)
        (
          omega arith,
          omega arith,
          λ w a b. elim (Bool-cases (w == v)) [
            | inl same ↦ let this : v ≡ w = ground arith in subst (λ k. test k ≡ true) this e
            | inr other ↦ all w (ground arith) b
          ],
          λ less. stop (omega arith),
        )
  | inr e ↦ rw (skip_vlans, e) (omega arith, omega arith, λ w a b. absurd (omega arith), λ less. e)
]

past-SkipsTo : (test : ℕ → Bool) (v : ℕ) → v ≤ 4095 → SkipsTo test (4095 - v) v (past test v)
past-SkipsTo test v small = skip_vlans-SkipsTo test (4095 - v) v

-- The token is one VLAN or a range, which holds the allowed VLANs from `vlan` up to `next`.
abbrev pub Printed : Bitmap → ℕ → Text × ℕ → Type 0
Printed bmp vlan found =
    (i : Item) × IsItem i
    × (found.0 ≡ item_text i [])
    × (vlan < found.1)
    × (found.1 ≤ 4095)
    × ((v : ℕ) → vlan ≤ v → v < found.1 → covers i v ≡ not (bmp v))
    × ((v : ℕ) → covers i v ≡ true → (vlan ≤ v) × (v < found.1))

pub append_nil : (s : Text) → s ≡ s ++ []
append_nil [] = refl
append_nil (c ∷ s) = ap (λ l. c ∷ l) (append_nil s)

-- VLANs from vlan to first are forbidden, and from first up to next allowed.
vlan_token-Printed :
    (bmp : Bitmap) (vlan first next : ℕ)
    → 1 ≤ vlan
    → vlan ≤ first
    → first < next
    → next ≤ 4095
    → ((v : ℕ) → vlan ≤ v → v < first → bmp v ≡ true)
    → ((v : ℕ) → first ≤ v → v < next → not (bmp v) ≡ true)
    → Printed bmp vlan (vlan_token first next)
unfolding vlan_token
vlan_token-Printed bmp vlan first next low a b c forbidden allowed =
    let from_first : (v : ℕ) → vlan ≤ v → v < next → leb first v ≡ not (bmp v) = λ v above below.
      elim (Bool-cases (leb first v)) [
        | inl e ↦ e ∙ sym (allowed v (ground arith) below)
        | inr e ↦ let f = forbidden v above (ground arith) in rw (e, f) refl
      ] in
    elim (Bool-cases (next - first == 1)) [
      | inl single ↦ rw (single) (
        one first,
        (omega arith, omega arith),
        append_nil (decimal first),
        omega arith,
        c,
        λ v above below. let bit = from_first v above below in ground arith,
        λ v is. ground arith,
      )
      | inr more ↦ elim (Bool-cases (ltb 2 (next - first))) [
        | inl many ↦
            rw (more, many)
              (
                range first (next - 1),
                ((omega arith, omega arith), (omega arith, omega arith)),
                ap (λ t. decimal first ++ (45 ∷ t)) (append_nil (decimal (next - 1))),
                omega arith,
                c,
                λ v above below. let bit = from_first v above below in ground arith,
                λ v is. (ground arith, ground arith),
              )
        | inr pair ↦
            rw (more, pair)
              (
                one first,
                (omega arith, omega arith),
                append_nil (decimal first),
                ground arith,
                omega arith,
                λ v above below. let bit = from_first v above (omega arith) in ground arith,
                λ v is. (ground arith, ground arith),
              )
      ]
    ]

pub list_vlans_token-Printed :
    (bmp : Bitmap) (vlan : ℕ)
    → 1 ≤ vlan
    → vlan ≤ 4095
    → (list_vlans_token bmp vlan ≡ none → (v : ℕ) → vlan ≤ v → v < 4095 → bmp v ≡ true)
      × ((found : Text × ℕ) → list_vlans_token bmp vlan ≡ some found → Printed bmp vlan found)
unfolding list_vlans_token
list_vlans_token-Printed bmp vlan low small =
    let first = past bmp vlan in
    let next = past (λ v. not (bmp v)) first in
    let (after, bound, forbidden, stop) = past-SkipsTo bmp vlan small in
    elim (Bool-cases (ltb sw_max_vlan first)) [
      | inl e ↦ rw (e) (λ n v a b. forbidden v a (ground arith), λ found t. absurd cc)
      | inr e ↦
          let inside : first < 4095 = ground arith in
          let (after2, bound2, allowed, stop2) =
            past-SkipsTo (λ v. not (bmp v)) first (omega arith) in
          let is_allowed : bmp first ≡ false = stop (omega arith) in
          let later : first < next = elim (Bool-cases (next == first)) [
            | inl same ↦
                let this : next ≡ first = ground arith in
                let stopped = stop2 (omega arith) in
                let forbids : not (bmp first) ≡ false =
                  subst (λ k. not (bmp k) ≡ false) this stopped in
                absurd (ground (arith, forbids, is_allowed))
            | inr other ↦ ground arith
          ] in
          let printed =
            vlan_token-Printed bmp vlan first next low after later (omega arith) forbidden
              allowed in
          rw (e) (
            λ n. absurd cc,
            λ found t.
                let same : vlan_token first next ≡ found = cc in
                subst (Printed bmp vlan) same printed,
          )
    ]
