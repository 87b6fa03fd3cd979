-- ===== src/Linux/Kept.antt =====
-- Changing the mode of a port keeps its virtual interfaces and its bridge in agreement with it.
use lisa_user.Base.{Bool, if-keep, ◌==◌, ◌&&◌, ℕ, ◌≡◌, refl, ◌∙◌, true, false, List, arith}
use lisa_user.Cli.Vlans.{Bitmap, sw_bitmap_set, sw_bitmap_reset}
use lisa_user.Linux.{
  IfType, switched, routed, virtual, IfMode, access, trunk, SwitchPort, Kernel, add_vifs_to_trunk,
  remove_vifs_from_trunk, if_add_trunk_vlans, if_set_trunk_vlans, if_del_trunk_vlans,
}
use lisa_user.Linux.Modes.{
  enter_bridge, leave_bridge, detach, no_switchport, if_no_switchport, become_access, mode_access,
  if_mode_access, become_trunk, mode_trunk, if_mode_trunk,
}
use lisa_user.Linux.Synced.{
  listed, Works, add_vifs-bits, remove_vifs-bits, add_vifs-IsListed, remove_vifs-IsListed,
  Works-HasSpace, add_ret, remove_ret, IsSynced, is_trunk,
}
use lisa_user.Linux.Ports.{move_port, set_port_vlan, if_set_port_vlan}
use lisa_user.Linux.Allowed.{trunk_add-IsSynced, trunk_set-IsSynced, trunk_del-IsSynced}

become_trunk-IsSynced :
    (kernel : Kernel) (on : List ℕ) (port : SwitchPort)
    → Works kernel
    → is_trunk port.device_type port.mode ≡ false
    → IsSynced on port
    → IsSynced on (become_trunk kernel on port).1
unfolding become_trunk add_vifs_to_trunk leave_bridge sw_bitmap_reset
become_trunk-IsSynced kernel on port works other h =
    let granted = works.leaves port.access_vlan in
    let all = add_ret kernel port.allowed_vlans on port.vifs works in
    rw (granted, all)
      (record {
        has_vifs = λ v.
            let old : port.vifs.devices v ≡ (listed v on && false) =
              h.has_vifs v ∙ rw (other) refl in
            add_vifs-bits kernel port.allowed_vlans on true port.vifs v works ∙ ground (arith, old);
        has_entries =
            add_vifs-IsListed kernel port.allowed_vlans on true port.vifs
              (Works-HasSpace kernel works) h.has_entries;
        in_bridge = ground arith;
      })

become_access-IsSynced :
    (kernel : Kernel) (on : List ℕ) (port : SwitchPort)
    → Works kernel
    → IsSynced on port
    → IsSynced on (become_access kernel on port).1
unfolding become_access remove_vifs_from_trunk enter_bridge sw_bitmap_set
become_access-IsSynced kernel on port works h =
    let granted = works.enters port.access_vlan in
    rw (granted) (record {
      has_vifs = λ v.
          let old = h.has_vifs v in
          remove_vifs-bits kernel port.allowed_vlans on true port.vifs v works
          ∙ ground (arith, old);
      has_entries = remove_vifs-IsListed kernel port.allowed_vlans on true port.vifs h.has_entries;
      in_bridge = ground arith;
    })

detach-routed :
    (kernel : Kernel) (on : List ℕ) (mode : IfMode) (port : SwitchPort)
    → Works kernel
    → port.device_type ≡ switched
    → port.mode ≡ mode
    → IsSynced on port
    → let detached = detach kernel on mode port in
      (detached.0 ≡ true) × IsSynced on (record detached.1 { device_type = routed })
unfolding detach leave_bridge remove_vifs_from_trunk sw_bitmap_reset
detach-routed kernel on access port works type mode h =
    let granted = works.leaves port.access_vlan in
    (
      granted,
      rw (granted) (record {
        has_vifs = λ v. h.has_vifs v ∙ rw (type, mode) refl;
        has_entries = h.has_entries;
        in_bridge = ground arith;
      }),
    )
detach-routed kernel on trunk port works type mode h = (
  remove_ret kernel port.allowed_vlans on port.vifs works,
  record {
    has_vifs = λ v.
        let old : port.vifs.devices v ≡ (listed v on && port.allowed_vlans v) =
          h.has_vifs v ∙ rw (type, mode) refl in
        remove_vifs-bits kernel port.allowed_vlans on true port.vifs v works ∙ ground (arith, old);
    has_entries = remove_vifs-IsListed kernel port.allowed_vlans on true port.vifs h.has_entries;
    in_bridge = h.in_bridge ∙ rw (type, mode) refl;
  },
)

no_switchport-IsSynced :
    (kernel : Kernel) (on : List ℕ) (type : IfType) (port : SwitchPort)
    → Works kernel
    → port.device_type ≡ type
    → IsSynced on port
    → IsSynced on (no_switchport kernel on type port).1
unfolding no_switchport
no_switchport-IsSynced kernel on virtual port works type h = h
no_switchport-IsSynced kernel on routed port works type h = h
no_switchport-IsSynced kernel on switched port works type h =
    let (granted, kept) = detach-routed kernel on port.mode port works type refl h in
    rw (granted) kept

mode_access-IsSynced :
    (kernel : Kernel) (on : List ℕ) (type : IfType) (mode : IfMode) (port : SwitchPort)
    → Works kernel
    → IsSynced on port
    → IsSynced on (mode_access kernel on type mode port).1
unfolding mode_access
mode_access-IsSynced kernel on virtual mode port works h = h
mode_access-IsSynced kernel on switched access port works h = h
mode_access-IsSynced kernel on switched trunk port works h =
    become_access-IsSynced kernel on port works h
mode_access-IsSynced kernel on routed mode port works h =
    become_access-IsSynced kernel on port works h

mode_trunk-IsSynced :
    (kernel : Kernel) (on : List ℕ) (type : IfType) (mode : IfMode) (port : SwitchPort)
    → Works kernel
    → port.device_type ≡ type
    → port.mode ≡ mode
    → IsSynced on port
    → IsSynced on (mode_trunk kernel on type mode port).1
unfolding mode_trunk
mode_trunk-IsSynced kernel on virtual mode port works t m h = h
mode_trunk-IsSynced kernel on switched trunk port works t m h = h
mode_trunk-IsSynced kernel on switched access port works t m h =
    become_trunk-IsSynced kernel on port works (rw (t, m) refl) h
mode_trunk-IsSynced kernel on routed mode port works t m h =
    become_trunk-IsSynced kernel on port works (rw (t) refl) h

-- The calls of the middleware for a port, and what one does to it.
pub data PortCall : Type 0 where
  add_vlans : Bitmap → PortCall
  set_vlans : Bitmap → PortCall
  del_vlans : Bitmap → PortCall
  to_trunk : PortCall
  to_access : PortCall
  to_routed : PortCall
  set_vlan : ℕ → PortCall

unfoldable pub call : Kernel → List ℕ → PortCall → SwitchPort → SwitchPort
call kernel on (add_vlans vlans) port = (if_add_trunk_vlans kernel on vlans port).1
call kernel on (set_vlans vlans) port = (if_set_trunk_vlans kernel on vlans port).1
call kernel on (del_vlans vlans) port = (if_del_trunk_vlans kernel on vlans port).1
call kernel on to_trunk port = (if_mode_trunk kernel on port).1
call kernel on to_access port = (if_mode_access kernel on port).1
call kernel on to_routed port = (if_no_switchport kernel on port).1
call kernel on (set_vlan vlan) port = (if_set_port_vlan kernel on vlan port).1

-- A change of the access VLAN is to a VLAN of the switch: to any other, if_set_port_vlan stores it
-- and answers 0, with the port in no bridge.
abbrev pub IsIn : List ℕ → PortCall → Type 0
IsIn on (set_vlan vlan) = listed vlan on ≡ true
IsIn on _ = Unit

move_port-IsSynced :
    (kernel : Kernel) (on : List ℕ) (vlan : ℕ) (port : SwitchPort)
    → Works kernel
    → listed vlan on ≡ true
    → port.device_type ≡ switched
    → port.mode ≡ access
    → IsSynced on port
    → IsSynced on (move_port kernel on vlan port).1
unfolding move_port leave_bridge enter_bridge sw_bitmap_set sw_bitmap_reset
move_port-IsSynced kernel on vlan port works is type mode h =
    rw (works.leaves port.access_vlan, is, works.enters vlan)
      (record {
        has_vifs = h.has_vifs;
        has_entries = h.has_entries;
        in_bridge = rw (type, mode) (ground arith);
      })

set_port_vlan-IsSynced :
    (kernel : Kernel) (on : List ℕ) (vlan : ℕ) (type : IfType) (mode : IfMode) (port : SwitchPort)
    → Works kernel
    → listed vlan on ≡ true
    → port.device_type ≡ switched
    → port.device_type ≡ type
    → port.mode ≡ mode
    → IsSynced on port
    → IsSynced on (set_port_vlan kernel on vlan type mode port).1
unfolding set_port_vlan
set_port_vlan-IsSynced kernel on vlan routed mode port works is type t m h = h
set_port_vlan-IsSynced kernel on vlan virtual mode port works is type t m h = h
set_port_vlan-IsSynced kernel on vlan switched trunk port works is type t m h = h
set_port_vlan-IsSynced kernel on vlan switched access port works is type t m h =
    if-keep (λ (r : Bool × SwitchPort). IsSynced on r.1) (port.access_vlan == vlan) _ _ h
      (move_port-IsSynced kernel on vlan port works is type m h)

-- While the kernel grants what it is asked, and add_vif_data finds its room without moving the area,
-- each call on a switched port, a change of the access VLAN only to a VLAN of the switch, keeps this:
-- a trunk port has a virtual interface for exactly those VLANs of the switch that it allows and
-- another port has none, each has its entry and nothing undefined has happened, and a port is in the
-- bridge of its access VLAN just if it is a switched access port.
pub call-IsSynced :
    (kernel : Kernel) (on : List ℕ) (c : PortCall) (port : SwitchPort)
    → Works kernel
    → IsIn on c
    → port.device_type ≡ switched
    → IsSynced on port
    → IsSynced on (call kernel on c port)
unfolding call if_set_port_vlan if_add_trunk_vlans if_set_trunk_vlans if_del_trunk_vlans
    if_mode_trunk if_mode_access if_no_switchport
call-IsSynced kernel on (add_vlans vlans) port works is type h =
    trunk_add-IsSynced kernel on vlans port.mode port works type refl h
call-IsSynced kernel on (set_vlans vlans) port works is type h =
    trunk_set-IsSynced kernel on vlans port.mode port works type refl h
call-IsSynced kernel on (del_vlans vlans) port works is type h =
    trunk_del-IsSynced kernel on vlans port.mode port works type refl h
call-IsSynced kernel on to_trunk port works is type h =
    mode_trunk-IsSynced kernel on port.device_type port.mode port works refl refl h
call-IsSynced kernel on to_access port works is type h =
    mode_access-IsSynced kernel on port.device_type port.mode port works h
call-IsSynced kernel on to_routed port works is type h =
    no_switchport-IsSynced kernel on port.device_type port works refl h
call-IsSynced kernel on (set_vlan vlan) port works is type h =
    set_port_vlan-IsSynced kernel on vlan port.device_type port.mode port works is type refl refl h
