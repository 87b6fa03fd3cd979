-- ===== src/Linux/Vlans.antt =====
-- vlan_add, vlan_del, get_vlan_interfaces and has_vlan_if of switch/linux, with the entries of VLANs
-- that switch/switch.c keeps for them: their numbers. The setting of the ageing time, which only
-- the kernel keeps, is left out.
pub mod Added
pub mod Consistent
use lisa_user.Base.{
  ℕ, zero, suc, Bool, true, false, not, ◌&&◌, ◌||◌, List, [], ◌∷◌, map, if◌then◌else◌, ◌==◌, ◌!=◌,
}
use lisa_user.Switch.Descs.{sw_is_default_vlan}
use lisa_user.Cli.Vlans.{Bitmap, sw_bitmap_set, sw_bitmap_reset}
use lisa_user.Linux.{
  IfType, switched, routed, virtual, IfMode, access, trunk, SwitchPort, Kernel, Vifs, make_vif,
}
use lisa_user.Linux.Modes.{enter_bridge, leave_bridge}
use lisa_user.Linux.Synced.{listed}

-- The VLANs and the ports in the shared memory, and which VLANs have a bridge and which an interface
-- of type IF_TYPE_VIF.
pub record Middleware : Type 0 where
  pub vlans : List ℕ
  pub ports : List SwitchPort
  pub bridges : Bitmap
  pub vlan_ifs : Bitmap

-- The answers of the kernel to br_add and br_remove, and whether mm_alloc has room.
pub record Host : Type 0 where
  pub kernel : Kernel
  pub br_add : ℕ → Bool
  pub br_remove : ℕ → Bool
  pub has_room : Bool

-- The loop of vlan_add at one port.
unfoldable pub join_vlan : Kernel → ℕ → IfType → IfMode → SwitchPort → SwitchPort
join_vlan kernel vlan switched trunk port =
    if port.allowed_vlans vlan then record port { vifs = make_vif kernel vlan port.vifs } else port
join_vlan kernel vlan switched access port =
    if port.access_vlan == vlan then (enter_bridge kernel vlan port).1 else port
join_vlan kernel vlan routed mode port = port
join_vlan kernel vlan virtual mode port = port

abbrev pub join_port : Kernel → ℕ → SwitchPort → SwitchPort
join_port kernel vlan port = join_vlan kernel vlan port.device_type port.mode port

-- add_vlan_data: the entry is new, and has room.
unfoldable pub add_vlan_data : Host → ℕ → List ℕ → Bool × List ℕ
add_vlan_data host vlan vlans =
    if listed vlan vlans
    then (false, vlans)
    else if host.has_room
    then (true, vlan ∷ vlans)
    else (false, vlans)

unfoldable pub create_vlan : Host → ℕ → Middleware → Bool × Middleware
create_vlan host vlan m =
    let added = add_vlan_data host vlan m.vlans in
    if added.0
    then (true, record m { vlans = added.1; ports = map (join_port host.kernel vlan) m.ports })
    else (false, m)

-- The answer tells whether the VLAN has been made; the status of the last create_vif, which vlan_add
-- returns then, is not part of it.
unfoldable pub vlan_add : Host → ℕ → Middleware → Bool × Middleware
vlan_add host vlan m =
    if m.vlan_ifs vlan
    then create_vlan host vlan m
    else if host.br_add vlan
    then create_vlan host vlan (record m { bridges = sw_bitmap_set vlan m.bridges })
    else (false, m)

-- The loops of vlan_del at one port: the virtual interface that has an entry for the VLAN is removed
-- with it, or the port leaves the bridge.
unfoldable pub drop_vif : Kernel → ℕ → Vifs → Vifs
drop_vif kernel vlan vifs =
    if vifs.entries vlan && kernel.br_remove_vif vlan && kernel.remove_vif vlan
    then record vifs {
      devices = sw_bitmap_reset vlan vifs.devices;
      entries = sw_bitmap_reset vlan vifs.entries;
    }
    else vifs

unfoldable pub quit_bridge : Kernel → ℕ → IfType → IfMode → SwitchPort → SwitchPort
quit_bridge kernel vlan switched access port =
    if port.access_vlan == vlan then (leave_bridge kernel vlan port).1 else port
quit_bridge kernel vlan switched trunk port = port
quit_bridge kernel vlan routed mode port = port
quit_bridge kernel vlan virtual mode port = port

abbrev pub quit_port : Kernel → ℕ → SwitchPort → SwitchPort
quit_port kernel vlan port =
    let dropped = record port { vifs = drop_vif kernel vlan port.vifs } in
    quit_bridge kernel vlan port.device_type port.mode dropped

-- del_vlan_data, of an entry that is there
unfoldable pub drop_vlan : ℕ → List ℕ → List ℕ
drop_vlan vlan [] = []
drop_vlan vlan (w ∷ vlans) =
    let rest = drop_vlan vlan vlans in if vlan == w then vlans else w ∷ rest

unfoldable pub vlan_del : Host → ℕ → Middleware → Bool × Middleware
vlan_del host vlan m =
    let left = record m { ports = map (quit_port host.kernel vlan) m.ports } in
    if sw_is_default_vlan vlan
    then (false, m)
    else if not (listed vlan m.vlans)
    then (false, m)
    else if m.vlan_ifs vlan
    then (true, record left { vlans = drop_vlan vlan m.vlans })
    else if host.br_remove vlan
    then (
      true,
      record left { vlans = drop_vlan vlan m.vlans; bridges = sw_bitmap_reset vlan m.bridges },
    )
    else (false, left)

-- The test that get_vlan_interfaces makes of a port.
unfoldable pub carries_vlan : ℕ → IfType → IfMode → SwitchPort → Bool
carries_vlan vlan switched access port = port.access_vlan == vlan
carries_vlan vlan switched trunk port = port.allowed_vlans vlan
carries_vlan vlan routed mode port = false
carries_vlan vlan virtual mode port = false

unfoldable pub carriers : ℕ → List SwitchPort → List SwitchPort
carriers vlan [] = []
carriers vlan (port ∷ ports) =
    let rest = carriers vlan ports in
    if carries_vlan vlan port.device_type port.mode port then port ∷ rest else rest

-- The ports of a VLAN; none of them if the VLAN is not there.
unfoldable pub get_vlan_interfaces : ℕ → Middleware → List SwitchPort
get_vlan_interfaces vlan m = if listed vlan m.vlans then carriers vlan m.ports else []

-- The bitmap of the VLANs that are not there.
unfoldable pub get_vdb : List ℕ → Bitmap
get_vdb [] = λ n. true
get_vdb (v ∷ vlans) = sw_bitmap_reset v (get_vdb vlans)

-- The VLANs from i on, so many, that set_global_igmp sets: it begins with 1, and ends before 4094.
unfoldable pub igmp_vlans : Bitmap → ℕ → ℕ → List ℕ
igmp_vlans vdb i zero = []
igmp_vlans vdb i (suc rounds) =
    let rest = igmp_vlans vdb (suc i) rounds in if vdb i then rest else i ∷ rest

unfoldable pub set_global_igmp : Middleware → List ℕ
set_global_igmp m = igmp_vlans (get_vdb m.vlans) 1 4093
