-- ===== src/Linux/Vlans/Added.antt =====
-- Making and deleting a VLAN keeps the virtual interfaces of every port in agreement with it.
use mathlib.Core.Path.{subst}
use lisa_user.Base.{
  ℕ, ◌≡◌, refl, ◌∙◌, true, false, not, ◌&&◌, List, [], ◌∷◌, ◌==◌, Bool-cases, inl, inr, if-keep,
  arith,
}
use lisa_user.Cli.Vlans.{sw_bitmap_reset}
use lisa_user.Linux.{
  IfType, switched, routed, virtual, IfMode, access, trunk, SwitchPort, Kernel, Vifs,
}
use lisa_user.Linux.Modes.{enter_bridge, leave_bridge}
use lisa_user.Linux.Synced.{
  same-bit, Works, listed, HasVifs, HasSpace, IsListed, make-bit, make_vif-keeps,
}
use lisa_user.Linux.Vlans.{join_vlan, drop_vif, quit_bridge, quit_port, drop_vlan}

pub join_vlan-HasVifs :
    (kernel : Kernel) (vlan : ℕ) (on : List ℕ) (type : IfType) (mode : IfMode) (port : SwitchPort)
    → Works kernel
    → listed vlan on ≡ false
    → port.device_type ≡ type
    → port.mode ≡ mode
    → HasVifs on port
    → HasVifs (vlan ∷ on) (join_vlan kernel vlan type mode port)
unfolding join_vlan enter_bridge
join_vlan-HasVifs kernel vlan on switched trunk port works fresh t m h v =
    let old : port.vifs.devices v ≡ (listed v on && port.allowed_vlans v) = h v ∙ rw (t, m) refl in
    let bit = make-bit kernel true vlan v port.vifs works in
    let same = same-bit port.allowed_vlans v vlan in
    elim (Bool-cases (port.allowed_vlans vlan)) [
      | inl e ↦ rw (e, t, m) (ground (arith, old, same, e, bit))
      | inr e ↦ rw (e, t, m) (ground (arith, old, same, e))
    ]
join_vlan-HasVifs kernel vlan on switched access port works fresh t m h v =
    let Q = HasVifs (vlan ∷ on) in
    let base : HasVifs (vlan ∷ on) port = λ w. h w ∙ rw (t, m) (ground arith) in
    if-keep Q (port.access_vlan == vlan) _ port (if-keep Q (kernel.br_add_if vlan) _ port base base)
      base v
join_vlan-HasVifs kernel vlan on routed mode port works fresh t m h v = h v ∙ rw (t) (ground arith)
join_vlan-HasVifs kernel vlan on virtual mode port works fresh t m h v = h v ∙ rw (t) (ground arith)

pub join_vlan-IsListed :
    (kernel : Kernel) (vlan : ℕ) (type : IfType) (mode : IfMode) (port : SwitchPort)
    → HasSpace kernel
    → IsListed port.vifs
    → IsListed (join_vlan kernel vlan type mode port).vifs
unfolding join_vlan enter_bridge
join_vlan-IsListed kernel vlan switched trunk port space h =
    let Q = λ (p : SwitchPort). IsListed p.vifs in
    if-keep Q (port.allowed_vlans vlan) _ port (make_vif-keeps kernel true vlan port.vifs space h) h
join_vlan-IsListed kernel vlan switched access port space h =
    let Q = λ (p : SwitchPort). IsListed p.vifs in
    if-keep Q (port.access_vlan == vlan) _ port (if-keep Q (kernel.br_add_if vlan) _ port h h) h
join_vlan-IsListed kernel vlan routed mode port space h = h
join_vlan-IsListed kernel vlan virtual mode port space h = h

drop_vif-bits :
    (kernel : Kernel) (vlan : ℕ) (vifs : Vifs) (v : ℕ)
    → Works kernel
    → IsListed vifs
    → (drop_vif kernel vlan vifs).devices v ≡ (not (v == vlan) && vifs.devices v)
unfolding drop_vif sw_bitmap_reset
drop_vif-bits kernel vlan vifs v works h =
    let same = same-bit vifs.devices v vlan in
    let both = h.1 vlan in
    elim (Bool-cases (vifs.entries vlan)) [
      | inl e ↦ rw (e, works.unbridges vlan, works.removes vlan) (ground (arith, same, e, both))
      | inr e ↦ rw (e) (ground (arith, same, e, both))
    ]

drop_vif-IsListed :
    (kernel : Kernel) (vlan : ℕ) (vifs : Vifs)
    → IsListed vifs
    → IsListed (drop_vif kernel vlan vifs)
unfolding drop_vif sw_bitmap_reset
drop_vif-IsListed kernel vlan vifs h =
    if-keep IsListed (vifs.entries vlan && kernel.br_remove_vif vlan && kernel.remove_vif vlan) _
      vifs (h.0, λ v. ground (arith, h.1 v)) h

quit_bridge-IsListed :
    (kernel : Kernel) (vlan : ℕ) (type : IfType) (mode : IfMode) (port : SwitchPort)
    → IsListed port.vifs
    → IsListed (quit_bridge kernel vlan type mode port).vifs
unfolding quit_bridge leave_bridge
quit_bridge-IsListed kernel vlan switched access port h =
    let Q = λ (p : SwitchPort). IsListed p.vifs in
    if-keep Q (port.access_vlan == vlan) _ port (if-keep Q (kernel.br_remove_if vlan) _ port h h) h
quit_bridge-IsListed kernel vlan switched trunk port h = h
quit_bridge-IsListed kernel vlan routed mode port h = h
quit_bridge-IsListed kernel vlan virtual mode port h = h

pub quit_port-IsListed :
    (kernel : Kernel) (vlan : ℕ) (port : SwitchPort)
    → IsListed port.vifs
    → IsListed (quit_port kernel vlan port).vifs
quit_port-IsListed kernel vlan port h =
    quit_bridge-IsListed kernel vlan port.device_type port.mode
      (record port { vifs = drop_vif kernel vlan port.vifs })
      (drop_vif-IsListed kernel vlan port.vifs h)

quit_bridge-HasVifs :
    (kernel : Kernel) (vlan : ℕ) (on : List ℕ) (type : IfType) (mode : IfMode) (port : SwitchPort)
    → HasVifs on port
    → HasVifs on (quit_bridge kernel vlan type mode port)
unfolding quit_bridge leave_bridge
quit_bridge-HasVifs kernel vlan on switched access port h =
    if-keep (HasVifs on) (port.access_vlan == vlan) _ port
      (if-keep (HasVifs on) (kernel.br_remove_if vlan) _ port h h) h
quit_bridge-HasVifs kernel vlan on switched trunk port h = h
quit_bridge-HasVifs kernel vlan on routed mode port h = h
quit_bridge-HasVifs kernel vlan on virtual mode port h = h

-- No VLAN has two entries.
abbrev pub AreDistinct : List ℕ → Type 0
AreDistinct [] = Unit
AreDistinct (v ∷ vlans) = (listed v vlans ≡ false) × AreDistinct vlans

pub drop_vlan-listed :
    (vlan v : ℕ) (on : List ℕ)
    → AreDistinct on
    → listed v (drop_vlan vlan on) ≡ (not (v == vlan) && listed v on)
unfolding drop_vlan
drop_vlan-listed vlan v [] d = ground arith
drop_vlan-listed vlan v (w ∷ on) d =
    let later = drop_vlan-listed vlan v on d.1 in
    elim (Bool-cases (vlan == w)) [
      | inl e ↦ rw (e) (elim (Bool-cases (v == w)) [
        | inl same ↦
            let this : w ≡ v = ground arith in
            let gone : listed v on ≡ false = subst (λ x. listed x on ≡ false) this d.0 in
            ground (arith, gone)
        | inr other ↦ ground (arith, other)
      ])
      | inr e ↦ rw (e) (ground (arith, later))
    ]

pub quit_port-HasVifs :
    (kernel : Kernel) (vlan : ℕ) (on : List ℕ) (port : SwitchPort)
    → Works kernel
    → AreDistinct on
    → IsListed port.vifs
    → HasVifs on port
    → HasVifs (drop_vlan vlan on) (quit_port kernel vlan port)
quit_port-HasVifs kernel vlan on port works d entries h =
    let dropped = record port { vifs = drop_vif kernel vlan port.vifs } in
    let kept : HasVifs (drop_vlan vlan on) dropped = λ v.
      let bits = drop_vif-bits kernel vlan port.vifs v works entries in
      let left = drop_vlan-listed vlan v on d in let old = h v in ground (arith, bits, left, old) in
    quit_bridge-HasVifs kernel vlan (drop_vlan vlan on) port.device_type port.mode dropped kept
