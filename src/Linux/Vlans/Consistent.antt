-- ===== src/Linux/Vlans/Consistent.antt =====
-- The switch as a whole stays consistent when VLANs are made and deleted.
use lisa_user.Base.{
  ℕ, zero, suc, ◌+◌, leb, ltb, ◌≡◌, refl, ◌∙◌, Bool, true, false, not, ◌&&◌, ◌||◌, List, [], ◌∷◌,
  map, All, if◌then◌else◌, ◌==◌, Bool-cases, inl, inr, if-keep, arith,
}
use lisa_user.Switch.Descs.{sw_is_default_vlan}
use lisa_user.Cli.Vlans.{Bitmap, sw_bitmap_set, sw_bitmap_reset}
use lisa_user.Linux.{IfType, switched, routed, virtual, IfMode, access, trunk, SwitchPort}
use lisa_user.Linux.Synced.{same-bit, Works, Works-HasSpace, IsListed, listed, HasVifs, is_access}
use lisa_user.Linux.Vlans.{
  Middleware, Host, join_port, add_vlan_data, create_vlan, vlan_add, quit_port, drop_vlan, vlan_del,
  carries_vlan, carriers, get_vlan_interfaces, get_vdb, igmp_vlans, set_global_igmp,
}
use lisa_user.Linux.Vlans.Added.{
  AreDistinct, join_vlan-HasVifs, join_vlan-IsListed, quit_port-HasVifs, quit_port-IsListed,
  drop_vlan-listed,
}

-- The virtual interfaces of a port, and their entries.
abbrev pub IsFitted : List ℕ → SwitchPort → Type 0
IsFitted on port = HasVifs on port × IsListed port.vifs

-- No VLAN has two entries, and each port has virtual interfaces as its mode and VLANs ask, with their
-- entries.
abbrev pub IsConsistent : Middleware → Type 0
IsConsistent m = AreDistinct m.vlans × All (IsFitted m.vlans) m.ports

All-maps :
    (P Q : SwitchPort → Type 0) (f : SwitchPort → SwitchPort)
    (to : (p : SwitchPort) → P p → Q (f p)) (ports : List SwitchPort)
    → All P ports
    → All Q (map f ports)
All-maps P Q f to [] h = tt
All-maps P Q f to (p ∷ ports) h = (to p h.0, All-maps P Q f to ports h.1)

create_vlan-IsConsistent :
    (host : Host) (vlan : ℕ) (m : Middleware)
    → Works host.kernel
    → IsConsistent m
    → IsConsistent (create_vlan host vlan m).1
unfolding create_vlan add_vlan_data
create_vlan-IsConsistent host vlan m works h = elim (Bool-cases (listed vlan m.vlans)) [
  | inl old ↦ rw (old) h
  | inr fresh ↦ elim (Bool-cases host.has_room) [
    | inr full ↦ rw (fresh, full) h
    | inl room ↦
        rw (fresh, room)
          (
            (fresh, h.0),
            All-maps (IsFitted m.vlans) (IsFitted (vlan ∷ m.vlans)) (join_port host.kernel vlan)
                (λ p old. (
                  join_vlan-HasVifs host.kernel vlan m.vlans p.device_type p.mode p works fresh refl
                      refl old.0,
                  join_vlan-IsListed host.kernel vlan p.device_type p.mode p
                      (Works-HasSpace host.kernel works) old.1,
                ))
                m.ports h.1,
          )
  ]
]

drop_vlan-AreDistinct : (vlan : ℕ) (on : List ℕ) → AreDistinct on → AreDistinct (drop_vlan vlan on)
unfolding drop_vlan
drop_vlan-AreDistinct vlan [] d = tt
drop_vlan-AreDistinct vlan (w ∷ on) d =
    if-keep AreDistinct (vlan == w) on (w ∷ drop_vlan vlan on) d.1
      (drop_vlan-listed vlan w on d.1 ∙ ground (arith, d.0), drop_vlan-AreDistinct vlan on d.1)

vlan_del-IsConsistent :
    (host : Host) (vlan : ℕ) (m : Middleware)
    → Works host.kernel
    → host.br_remove vlan ≡ true
    → IsConsistent m
    → IsConsistent (vlan_del host vlan m).1
unfolding vlan_del
vlan_del-IsConsistent host vlan m works removed h =
    let gone : AreDistinct (drop_vlan vlan m.vlans)
        × All (IsFitted (drop_vlan vlan m.vlans)) (map (quit_port host.kernel vlan) m.ports) =
      (
        drop_vlan-AreDistinct vlan m.vlans h.0,
        All-maps (IsFitted m.vlans) (IsFitted (drop_vlan vlan m.vlans)) (quit_port host.kernel vlan)
            (λ p old. (
              quit_port-HasVifs host.kernel vlan m.vlans p works h.0 old.1 old.0,
              quit_port-IsListed host.kernel vlan p old.1,
            ))
            m.ports h.1,
      ) in
    let Q = λ (r : Bool × Middleware). IsConsistent r.1 in
    if-keep Q (sw_is_default_vlan vlan) _ _ h (
      if-keep Q (not (listed vlan m.vlans)) _ _ h
        (if-keep Q (m.vlan_ifs vlan) _ _ gone (rw (removed) gone)))

-- While the kernel grants what it is asked, and add_vif_data finds its room without moving the area,
-- vlan_add and vlan_del, on every branch, keep the switch consistent: no VLAN has two entries, each
-- switched trunk port has virtual interfaces for exactly the VLANs of the switch that it allows,
-- other ports none, each of them has its entry in the vif_list, and nothing undefined has happened.
pub vlans-IsConsistent :
    (host : Host) (vlan : ℕ) (m : Middleware)
    → Works host.kernel
    → host.br_remove vlan ≡ true
    → IsConsistent m
    → IsConsistent (vlan_add host vlan m).1 × IsConsistent (vlan_del host vlan m).1
unfolding vlan_add
vlans-IsConsistent host vlan m works removed h =
    let Q = λ (r : Bool × Middleware). IsConsistent r.1 in
    (
      if-keep Q (m.vlan_ifs vlan) _ _ (create_vlan-IsConsistent host vlan m works h) (
          if-keep Q (host.br_add vlan) _ _
            (create_vlan-IsConsistent host vlan
              (record m { bridges = sw_bitmap_set vlan m.bridges }) works h)
            h),
      vlan_del-IsConsistent host vlan m works removed h,
    )

carries_vlan-vifs :
    (vlan : ℕ) (on : List ℕ) (type : IfType) (mode : IfMode) (port : SwitchPort)
    → listed vlan on ≡ true
    → port.device_type ≡ type
    → port.mode ≡ mode
    → HasVifs on port
    → carries_vlan vlan type mode port
      ≡ (port.vifs.devices vlan || (is_access type mode && (port.access_vlan == vlan)))
unfolding carries_vlan
carries_vlan-vifs vlan on switched access port is t m h =
    let old : port.vifs.devices vlan ≡ (listed vlan on && false) = h vlan ∙ rw (t, m) refl in
    ground (arith, old, is)
carries_vlan-vifs vlan on switched trunk port is t m h =
    let old : port.vifs.devices vlan ≡ (listed vlan on && port.allowed_vlans vlan) =
      h vlan ∙ rw (t, m) refl in
    ground (arith, old, is)
carries_vlan-vifs vlan on routed mode port is t m h =
    let old : port.vifs.devices vlan ≡ (listed vlan on && false) = h vlan ∙ rw (t) refl in
    ground (arith, old, is)
carries_vlan-vifs vlan on virtual mode port is t m h =
    let old : port.vifs.devices vlan ≡ (listed vlan on && false) = h vlan ∙ rw (t) refl in
    ground (arith, old, is)

-- the ports with a virtual interface in the VLAN, or with the VLAN as their access VLAN
abbrev pub members : ℕ → List SwitchPort → List SwitchPort
members vlan [] = []
members vlan (p ∷ ports) =
    if p.vifs.devices vlan || (is_access p.device_type p.mode && (p.access_vlan == vlan))
    then p ∷ members vlan ports
    else members vlan ports

carriers-members :
    (vlan : ℕ) (on : List ℕ) (ports : List SwitchPort)
    → listed vlan on ≡ true
    → All (IsFitted on) ports
    → carriers vlan ports ≡ members vlan ports
unfolding carriers
carriers-members vlan on [] is h = refl
carriers-members vlan on (p ∷ ports) is h =
    let same = carries_vlan-vifs vlan on p.device_type p.mode p is refl refl h.0.0 in
    rw (same, carriers-members vlan on ports is h.1) refl

-- In a consistent switch, the ports that get_vlan_interfaces finds for a VLAN of the switch are those
-- that have a virtual interface for it or are access ports of it.
pub get_vlan_interfaces-members :
    (vlan : ℕ) (m : Middleware)
    → IsConsistent m
    → listed vlan m.vlans ≡ true
    → get_vlan_interfaces vlan m ≡ members vlan m.ports
unfolding get_vlan_interfaces
get_vlan_interfaces-members vlan m h is = rw (is) (carriers-members vlan m.vlans m.ports is h.1)

get_vdb-listed : (vlans : List ℕ) (v : ℕ) → get_vdb vlans v ≡ not (listed v vlans)
unfolding get_vdb sw_bitmap_reset
get_vdb-listed [] v = refl
get_vdb-listed (w ∷ vlans) v = ground (arith, get_vdb-listed vlans v)

igmp_vlans-listed :
    (vdb : Bitmap) (i rounds v : ℕ)
    → listed v (igmp_vlans vdb i rounds) ≡ ((leb i v && ltb v (i + rounds)) && not (vdb v))
unfolding igmp_vlans
igmp_vlans-listed vdb i zero v = ground arith
igmp_vlans-listed vdb i (suc rounds) v =
    let rest = igmp_vlans-listed vdb (suc i) rounds v in
    let same = same-bit vdb v i in
    elim (Bool-cases (vdb i)) [
      | inl e ↦ rw (e) (ground (arith, rest, same, e))
      | inr e ↦ rw (e) (ground (arith, rest, same, e))
    ]

-- A change of IGMP snooping for all VLANs reaches the VLANs of the switch from 1 to 4093, and not
-- 4094.
pub set_global_igmp-reaches :
    (m : Middleware) (v : ℕ)
    → listed v (set_global_igmp m) ≡ ((leb 1 v && ltb v 4094) && listed v m.vlans)
unfolding set_global_igmp
set_global_igmp-reaches m v =
    igmp_vlans-listed (get_vdb m.vlans) 1 4093 v ∙ ground (arith, get_vdb-listed m.vlans v)
