-- ===== src/Switch/Defaults.antt =====
-- What switch_init leaves: the default VLANs described.
use lisa_user.Base.{
  ℕ, zero, suc, ◌+◌, ◌≡◌, refl, sym, ◌∙◌, Bool, false, ◌&&◌, List, [], Option, none, some, Text,
  take, arith, if◌then◌else◌, ◌==◌, leb, ltb, Bool-cases, inl, inr,
}
use mathlib.Core.Path.{subst}
use lisa_user.Mm.{Mm, mm_lock}
use lisa_user.Switch.Store.{
  Switch, Entry, failed, enomem, CdpConfiguration, RstpConfiguration, sw_max_vlan_name,
}
use lisa_user.Switch.Descs.{default_vlan_name, desc_size}
use lisa_user.Switch.Passwords.{switch_set_cdp, switch_set_rstp}
use lisa_user.Switch.View.{lookup, IsKeyed, Put, Says, put_entry_outcome}
use lisa_user.Switch.Refines.{vlans, vlans-lookup}
use lisa_user.Switch.Init.{
  SwitchOperations, is_error, default_text, switch_add_vlan_desc, add_default_vlans, describe_vlans,
  fill_switch, switch_init_cdp, switch_init_rstp, zeroed,
}

-- The middleware leaves the descriptions of VLANs alone.
abbrev pub LeavesDescs : SwitchOperations → Type 0
LeavesDescs sw_ops =
    ((s : Switch) → (sw_ops.backend_init s).1.vlan_descs ≡ s.vlan_descs)
    × ((vlan_id : ℕ) (s : Switch) → (sw_ops.vlan_add vlan_id s).1.vlan_descs ≡ s.vlan_descs)

-- A description written without an error.
abbrev Added : ℕ → Text → Switch → Bool × Switch → Type 0
Added vlan_id text s r =
    IsKeyed r.1.vlan_descs × (r.0 ≡ false → Says vlan_id text s.vlan_descs r.1.vlan_descs)

module _ (ftruncate : ℕ → Bool) where
  switch_add_vlan_desc-Added :
      (vlan_id : ℕ) (text : Text) (s : Switch)
      → IsKeyed s.vlan_descs
      → Added vlan_id (take 31 text) s (switch_add_vlan_desc ftruncate vlan_id text s)
  unfolding switch_add_vlan_desc
  switch_add_vlan_desc-Added v text s ok =
      let (outcome, keyed) =
        put_entry_outcome v s.mm s.vlan_descs ok ftruncate desc_size sw_max_vlan_name text in
      (
        keyed,
        λ fine. elim outcome [
          | Put.written answer says ↦ says
          | Put.no_memory answer missing same ↦
              let wrong : is_error (failed enomem) ≡ false = rw (answer) at fine in absurd (cc)
        ],
      )

  -- `view`, with the names of the `n` VLANs from `i` on
  abbrev named : ℕ → ℕ → (ℕ → Option Text) → ℕ → Option Text
  named i n view k = if leb i k && ltb k (i + n) then some (default_vlan_name k) else view k

  take-default_vlan_name : (v : ℕ) → take 31 (default_vlan_name v) ≡ default_vlan_name v
  unfolding default_vlan_name
  take-default_vlan_name v = refl

  named-Says :
      (i n : ℕ) (s t : Switch)
      → Says i (default_vlan_name i) s.vlan_descs t.vlan_descs
      → (k : ℕ)
      → named (i + 1) n (λ j. lookup j t.vlan_descs) k
        ≡ named i (suc n) (λ j. lookup j s.vlan_descs) k
  named-Says i n s t says k = elim (Bool-cases (k == i)) [
    | inl same ↦ let is_i : k ≡ i = ground arith in rw (is_i) (ground (arith, says.0))
    | inr other ↦ ground (arith, says.1 k (ground arith))
  ]

  defaults-Says :
      (es : List Entry)
      → Says 1 default_text [] es
      → (k : ℕ)
      → named 1002 4 (λ j. lookup j es) k ≡ (
          if k == 1
          then some default_text
          else if leb 1002 k && leb k 1005
          then some (default_vlan_name k)
          else none)
  defaults-Says es says k = elim (Bool-cases (k == 1)) [
    | inl same ↦ let is_1 : k ≡ 1 = ground arith in rw (is_1) (says.0)
    | inr other ↦ ground (arith, says.1 k (ground arith))
  ]

  module _ (sw_ops : SwitchOperations) (leaves : LeavesDescs sw_ops) where
    add_default_vlans_lem :
        (n i : ℕ) (s : Switch)
        → IsKeyed s.vlan_descs
        → let r = add_default_vlans ftruncate sw_ops n i s in
          r.0 ≡ false → (k : ℕ) → lookup k r.1.vlan_descs ≡ named i n (λ j. lookup j s.vlan_descs) k
    unfolding add_default_vlans
    add_default_vlans_lem zero i s ok = λ fine k. ground arith
    add_default_vlans_lem (suc n) i s ok = elim (Bool-cases ((sw_ops.vlan_add i s).0)) [
      | inl bad ↦ rw (bad) (λ fine k. absurd (cc))
      | inr good ↦
          let t = (sw_ops.vlan_add i s).1 in
          let u = switch_add_vlan_desc ftruncate i (default_vlan_name i) t in
          let keyed : IsKeyed t.vlan_descs = subst IsKeyed (sym (leaves.1 i s)) ok in
          let added = switch_add_vlan_desc-Added i (default_vlan_name i) t keyed in
          rw (good) (elim (Bool-cases (u.0)) [
            | inl bad ↦ rw (bad) (λ fine k. absurd (cc))
            | inr written ↦ rw (written) (λ fine k.
                add_default_vlans_lem n (i + 1) (u.1) added.0 fine k
                ∙ named-Says i n s u.1
                    (subst (λ es. Says i (default_vlan_name i) es u.1.vlan_descs) (leaves.1 i s)
                      (rw (take-default_vlan_name i) at (added.1 written)))
                    k)
          ])
    ]

    describe_vlans_lem :
        (s : Switch)
        → s.vlan_descs ≡ []
        → let r = describe_vlans ftruncate sw_ops s in
          r.0 ≡ false
          → (k : ℕ)
          → lookup k r.1.vlan_descs ≡ (
              if k == 1
              then some default_text
              else if leb 1002 k && leb k 1005
              then some (default_vlan_name k)
              else none)
    unfolding describe_vlans
    describe_vlans_lem s empty =
        let locked : Switch = record s { mm = mm_lock s.mm } in
        let u = switch_add_vlan_desc ftruncate 1 default_text locked in
        let keyed : IsKeyed locked.vlan_descs = subst IsKeyed (sym empty) tt in
        let added = switch_add_vlan_desc-Added 1 default_text locked keyed in
        elim (Bool-cases (u.0)) [
          | inl bad ↦ rw (bad) (λ fine k. absurd (cc))
          | inr written ↦ rw (written) (λ fine k.
              add_default_vlans_lem 4 1002 (u.1) added.0 fine k
              ∙ defaults-Says u.1.vlan_descs
                  (subst (λ es. Says 1 default_text es u.1.vlan_descs) empty (added.1 written)) k)
        ]

-- switch_init in an area that mm_create has made, with a middleware that leaves the descriptions of VLANs alone: if it
-- answers 0, switch_get_vlan_desc tells that VLAN 1 is described as "default", the VLANs 1002 to 1005 by VLAN and their number, and
-- no other VLAN is.
pub fill_switch_describes :
    (ftruncate : ℕ → Bool) (sw_ops : SwitchOperations)
    → LeavesDescs sw_ops
    → (cdp : CdpConfiguration) (rstp : RstpConfiguration) (mm : Mm)
    → let r = fill_switch ftruncate sw_ops cdp rstp (zeroed mm) in
      r.0 ≡ false
      → (k : ℕ)
      → vlans r.1 k ≡ (
          if k == 1
          then some default_text
          else if leb 1002 k && leb k 1005
          then some (default_vlan_name k)
          else none)
unfolding fill_switch switch_init_rstp switch_init_cdp switch_set_rstp switch_set_cdp zeroed
fill_switch_describes ftruncate sw_ops leaves cdp rstp mm =
    let start = switch_init_rstp rstp (switch_init_cdp cdp (zeroed mm)) in
    let backend = sw_ops.backend_init start in
    let added = sw_ops.vlan_add 1 backend.1 in
    elim (Bool-cases (backend.0)) [
      | inl bad ↦ rw (bad) (λ fine k. absurd (cc))
      | inr ready ↦ rw (ready) (elim (Bool-cases (added.0)) [
        | inl bad ↦ rw (bad) (λ fine k. absurd (cc))
        | inr there ↦ rw (there) (λ fine k.
            vlans-lookup (describe_vlans ftruncate sw_ops added.1).1 k
            ∙ describe_vlans_lem ftruncate sw_ops leaves added.1
                (leaves.1 1 backend.1 ∙ leaves.0 start) fine k)
      ])
    ]
