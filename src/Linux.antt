-- ===== src/Linux.antt =====
-- userspace/switch/linux: the middleware over the bridges and 802.1q interfaces of Linux. A port with
-- its `struct if_data` in the shared memory, the virtual interfaces that it has, with their entries in
-- the vif_list of their VLANs, and the bridges that it is in itself, by VLAN. The bitmap macros of switch/switch.h act on the bits of a bitmap.
pub mod Modes
pub mod Synced
pub mod Allowed
pub mod Ports
pub mod Kept
pub mod Vlans
use lisa_user.Base.{
  ℕ, zero, suc, Bool, true, false, not, ◌&&◌, ◌||◌, List, [], ◌∷◌, Option, none, some,
  if◌then◌else◌,
}
use lisa_user.Cli.Vlans.{Bitmap, sw_bitmap_set, sw_bitmap_reset}

pub data IfType : Type 0 where
  switched : IfType
  routed : IfType
  virtual : IfType

pub data IfMode : Type 0 where
  access : IfMode
  trunk : IfMode

-- The virtual interfaces of a port: those that the kernel has, and those with an entry in the vif_list
-- of their VLAN. After an access through an address that mm_addr gave before the area has moved, or a
-- list_del of an entry that is not there, nothing is known: `undefined` is set then, and what the
-- fields of the port say behind it means nothing.
pub record Vifs : Type 0 where
  pub devices : Bitmap
  pub entries : Bitmap
  pub undefined : Bool

pub record SwitchPort : Type 0 where
  pub device_type : IfType
  pub mode : IfMode
  pub access_vlan : ℕ
  pub allowed_vlans : Bitmap
  pub vifs : Vifs
  pub bridges : Bitmap

-- The answers of the kernel for each VLAN, `true` for success: to create_vif and remove_vif, to
-- br_remove_if on the virtual interface, and to br_add_if and br_remove_if on the port. Besides, for
-- the mm_alloc of add_vif_data for the VLAN, whether it has room, and whether the area still lies
-- where it did: mm_alloc maps it anew when it extends it.
pub record Kernel : Type 0 where
  pub create_vif : ℕ → Bool
  pub remove_vif : ℕ → Bool
  pub br_remove_vif : ℕ → Bool
  pub br_add_if : ℕ → Bool
  pub br_remove_if : ℕ → Bool
  pub has_room : ℕ → Bool
  pub area_stays : ℕ → Bool

unfoldable pub sw_bitmap_or : Bitmap → Bitmap → Bitmap
sw_bitmap_or old bitmap = λ n. old n || bitmap n

unfoldable pub sw_bitmap_and : Bitmap → Bitmap → Bitmap
sw_bitmap_and old bitmap = λ n. old n && bitmap n

unfoldable pub sw_bitmap_xor : Bitmap → Bitmap → Bitmap
sw_bitmap_xor old bitmap = λ n. if old n then not (bitmap n) else bitmap n

unfoldable pub inverse_bitmap : Bitmap → Bitmap
inverse_bitmap vlans = λ n. not (vlans n)

-- The VLANs that a call is about: those of the bitmap, or without one those that are allowed.
abbrev pub picked : Option Bitmap → SwitchPort → Bitmap
picked none port = port.allowed_vlans
picked (some bitmap) port = bitmap

-- create_vif and add_vif_data for a VLAN, whose answer is not looked at: the entry is missing where
-- mm_alloc has no room. Both the v_data and the bitmap of the callers are addresses from before.
unfoldable pub make_vif : Kernel → ℕ → Vifs → Vifs
make_vif kernel vlan vifs =
    if kernel.create_vif vlan
    then record {
      devices = sw_bitmap_set vlan vifs.devices;
      entries = if kernel.has_room vlan then sw_bitmap_set vlan vifs.entries else vifs.entries;
      undefined = vifs.undefined || not (kernel.area_stays vlan);
    }
    else vifs

-- The loop of add_vifs_to_trunk over the VLANs of the switch: `ret` (`true` for 0) and the virtual
-- interfaces.
unfoldable pub add_vifs : Kernel → Bitmap → List ℕ → Bool → Vifs → Bool × Vifs
add_vifs kernel bitmap [] ok vifs = (ok, vifs)
add_vifs kernel bitmap (v ∷ vlans) ok vifs =
    add_vifs kernel bitmap vlans (if bitmap v then kernel.create_vif v else ok)
      (if bitmap v then make_vif kernel v vifs else vifs)

unfoldable pub add_vifs_to_trunk : Kernel → List ℕ → Option Bitmap → SwitchPort → Bool × SwitchPort
add_vifs_to_trunk kernel vlans bitmap port =
    let added = add_vifs kernel (picked bitmap port) vlans true port.vifs in
    (added.0, record port { vifs = added.1 })

-- del_vif_data, behind remove_vif
unfoldable pub take_vif : ℕ → Vifs → Vifs
take_vif vlan vifs = record {
  devices = sw_bitmap_reset vlan vifs.devices;
  entries = sw_bitmap_reset vlan vifs.entries;
  undefined = vifs.undefined || not (vifs.entries vlan);
}

-- The loop of remove_vifs_from_trunk. An interface that is not there is in no bridge.
unfoldable pub remove_vifs : Kernel → Bitmap → List ℕ → Bool → Vifs → Bool × Vifs
remove_vifs kernel bitmap [] ok vifs = (ok, vifs)
remove_vifs kernel bitmap (v ∷ vlans) ok vifs =
    let tried = bitmap v && (vifs.devices v && kernel.br_remove_vif v) in
    let gone = kernel.remove_vif v in
    remove_vifs kernel bitmap vlans (if tried then gone else ok)
      (if tried && gone then take_vif v vifs else vifs)

unfoldable pub remove_vifs_from_trunk :
    Kernel → List ℕ → Option Bitmap → SwitchPort → Bool × SwitchPort
remove_vifs_from_trunk kernel vlans bitmap port =
    let removed = remove_vifs kernel (picked bitmap port) vlans true port.vifs in
    (removed.0, record port { vifs = removed.1 })

-- The operations on allowed VLANs, on a port that get_if_data finds. They answer 0 always.
unfoldable pub trunk_add : Kernel → List ℕ → Bitmap → IfMode → SwitchPort → SwitchPort
trunk_add kernel switch_vlans vlans access port = record port {
  allowed_vlans = sw_bitmap_or port.allowed_vlans vlans;
}
trunk_add kernel switch_vlans vlans trunk port =
    let aux = sw_bitmap_and vlans (sw_bitmap_xor port.allowed_vlans vlans) in
    let set = record port { allowed_vlans = sw_bitmap_or port.allowed_vlans vlans } in
    (add_vifs_to_trunk kernel switch_vlans (some aux) set).1

unfoldable pub if_add_trunk_vlans : Kernel → List ℕ → Bitmap → SwitchPort → Bool × SwitchPort
if_add_trunk_vlans kernel switch_vlans vlans port =
    (true, trunk_add kernel switch_vlans vlans port.mode port)

-- The bitmap is written through the address from before add_vifs_to_trunk.
unfoldable pub trunk_set : Kernel → List ℕ → Bitmap → IfMode → SwitchPort → SwitchPort
trunk_set kernel switch_vlans vlans access port = record port {
  allowed_vlans = sw_bitmap_or (λ n. false) vlans;
}
trunk_set kernel switch_vlans vlans trunk port =
    let old = port.allowed_vlans in
    let added =
      (add_vifs_to_trunk kernel switch_vlans (some (sw_bitmap_and vlans (sw_bitmap_xor old vlans)))
        port).1 in
    let removed =
      (remove_vifs_from_trunk kernel switch_vlans
        (some (sw_bitmap_and old (sw_bitmap_xor old vlans))) added).1 in
    record removed { allowed_vlans = sw_bitmap_or (λ n. false) vlans }

unfoldable pub if_set_trunk_vlans : Kernel → List ℕ → Bitmap → SwitchPort → Bool × SwitchPort
if_set_trunk_vlans kernel switch_vlans vlans port =
    (true, trunk_set kernel switch_vlans vlans port.mode port)

unfoldable pub trunk_del : Kernel → List ℕ → Bitmap → IfMode → SwitchPort → SwitchPort
trunk_del kernel switch_vlans vlans access port =
    let old = port.allowed_vlans in
    record port { allowed_vlans = sw_bitmap_and old (sw_bitmap_xor old vlans) }
trunk_del kernel switch_vlans vlans trunk port =
    let old = port.allowed_vlans in
    let removed =
      (remove_vifs_from_trunk kernel switch_vlans (some (sw_bitmap_and old vlans)) port).1 in
    record removed { allowed_vlans = sw_bitmap_and old (sw_bitmap_xor old vlans) }

unfoldable pub if_del_trunk_vlans : Kernel → List ℕ → Bitmap → SwitchPort → Bool × SwitchPort
if_del_trunk_vlans kernel switch_vlans vlans port =
    (true, trunk_del kernel switch_vlans vlans port.mode port)

pub record IfCfg : Type 0 where
  pub flags : IfMode
  pub access_vlan : ℕ
  pub vlans : Bitmap

-- none where get_if_data finds no port
unfoldable pub if_get_cfg : Option SwitchPort → Option IfCfg
if_get_cfg none = none
if_get_cfg (some port) = some (record {
  flags = port.mode;
  access_vlan = port.access_vlan;
  vlans = inverse_bitmap port.allowed_vlans;
})
