-- ===== src/Linux/Allowed.antt =====
-- What the operations on allowed VLANs do to them, in both modes, and to the virtual interfaces.
use lisa_user.Base.{ℕ, ◌≡◌, refl, ◌∙◌, Bool, true, not, ◌&&◌, ◌||◌, List, arith}
use lisa_user.Cli.Vlans.{Bitmap}
use lisa_user.Linux.{
  switched, IfMode, access, trunk, SwitchPort, Kernel, sw_bitmap_or, sw_bitmap_and, sw_bitmap_xor,
  add_vifs_to_trunk, remove_vifs_from_trunk, trunk_add, trunk_set, trunk_del, if_add_trunk_vlans,
  if_set_trunk_vlans, if_del_trunk_vlans,
}
use lisa_user.Linux.Synced.{
  listed, Works, add_vifs-bits, remove_vifs-bits, IsSynced, IsListed, HasSpace, Works-HasSpace,
  add_vifs-IsListed, remove_vifs-IsListed,
}

-- What holds of a port behind the operations: its VLANs by a test of old and given ones.
abbrev HasVlans : (Bool → Bool → Bool) → Bitmap → Bitmap → SwitchPort → Type 0
HasVlans f old vlans port = (v : ℕ) → port.allowed_vlans v ≡ f (old v) (vlans v)

trunk_add-HasVlans :
    (kernel : Kernel) (on : List ℕ) (vlans : Bitmap) (mode : IfMode) (port : SwitchPort)
    → HasVlans (λ a b. a || b) port.allowed_vlans vlans (trunk_add kernel on vlans mode port)
unfolding trunk_add sw_bitmap_or add_vifs_to_trunk
trunk_add-HasVlans kernel on vlans access port v = refl
trunk_add-HasVlans kernel on vlans trunk port v = refl

trunk_set-HasVlans :
    (kernel : Kernel) (on : List ℕ) (vlans : Bitmap) (mode : IfMode) (port : SwitchPort)
    → HasVlans (λ a b. b) port.allowed_vlans vlans (trunk_set kernel on vlans mode port)
unfolding trunk_set sw_bitmap_or
trunk_set-HasVlans kernel on vlans access port v = refl
trunk_set-HasVlans kernel on vlans trunk port v = refl

trunk_del-HasVlans :
    (kernel : Kernel) (on : List ℕ) (vlans : Bitmap) (mode : IfMode) (port : SwitchPort)
    → HasVlans (λ a b. a && not b) port.allowed_vlans vlans (trunk_del kernel on vlans mode port)
unfolding trunk_del sw_bitmap_and sw_bitmap_xor
trunk_del-HasVlans kernel on vlans access port v = ground arith
trunk_del-HasVlans kernel on vlans trunk port v = ground arith

-- After if_add_trunk_vlans a port allows its old VLANs and the given ones, after if_set_trunk_vlans
-- exactly the given ones, and after if_del_trunk_vlans its old ones without the given ones: in both
-- modes, and whatever the kernel answers, as far as nothing undefined has happened.
pub trunk_vlans_set :
    (kernel : Kernel) (on : List ℕ) (vlans : Bitmap) (port : SwitchPort) (v : ℕ)
    → ((if_add_trunk_vlans kernel on vlans port).1.allowed_vlans v
        ≡ (port.allowed_vlans v || vlans v))
      × ((if_set_trunk_vlans kernel on vlans port).1.allowed_vlans v ≡ vlans v)
      × ((if_del_trunk_vlans kernel on vlans port).1.allowed_vlans v
          ≡ (port.allowed_vlans v && not (vlans v)))
unfolding if_add_trunk_vlans if_set_trunk_vlans if_del_trunk_vlans
trunk_vlans_set kernel on vlans port v = (
  trunk_add-HasVlans kernel on vlans port.mode port v,
  trunk_set-HasVlans kernel on vlans port.mode port v,
  trunk_del-HasVlans kernel on vlans port.mode port v,
)

-- The entries of the virtual interfaces, where add_vif_data finds its room without moving the area.
trunk_add-IsListed :
    (kernel : Kernel) (on : List ℕ) (vlans : Bitmap) (mode : IfMode) (port : SwitchPort)
    → HasSpace kernel
    → IsListed port.vifs
    → IsListed (trunk_add kernel on vlans mode port).vifs
unfolding trunk_add add_vifs_to_trunk
trunk_add-IsListed kernel on vlans access port space h = h
trunk_add-IsListed kernel on vlans trunk port space h =
    add_vifs-IsListed kernel _ on true port.vifs space h

trunk_set-IsListed :
    (kernel : Kernel) (on : List ℕ) (vlans : Bitmap) (mode : IfMode) (port : SwitchPort)
    → HasSpace kernel
    → IsListed port.vifs
    → IsListed (trunk_set kernel on vlans mode port).vifs
unfolding trunk_set add_vifs_to_trunk remove_vifs_from_trunk
trunk_set-IsListed kernel on vlans access port space h = h
trunk_set-IsListed kernel on vlans trunk port space h =
    remove_vifs-IsListed kernel _ on true _ (add_vifs-IsListed kernel _ on true port.vifs space h)

trunk_del-IsListed :
    (kernel : Kernel) (on : List ℕ) (vlans : Bitmap) (mode : IfMode) (port : SwitchPort)
    → IsListed port.vifs
    → IsListed (trunk_del kernel on vlans mode port).vifs
unfolding trunk_del remove_vifs_from_trunk
trunk_del-IsListed kernel on vlans access port h = h
trunk_del-IsListed kernel on vlans trunk port h = remove_vifs-IsListed kernel _ on true port.vifs h

-- After each operation on allowed VLANs nothing undefined has happened and each virtual interface has
-- its entry, if that was so before and add_vif_data finds its room without moving the area.
pub trunk_vlans-IsListed :
    (kernel : Kernel) (on : List ℕ) (vlans : Bitmap) (port : SwitchPort)
    → HasSpace kernel
    → IsListed port.vifs
    → IsListed (if_add_trunk_vlans kernel on vlans port).1.vifs
      × IsListed (if_set_trunk_vlans kernel on vlans port).1.vifs
      × IsListed (if_del_trunk_vlans kernel on vlans port).1.vifs
unfolding if_add_trunk_vlans if_set_trunk_vlans if_del_trunk_vlans
trunk_vlans-IsListed kernel on vlans port space h = (
  trunk_add-IsListed kernel on vlans port.mode port space h,
  trunk_set-IsListed kernel on vlans port.mode port space h,
  trunk_del-IsListed kernel on vlans port.mode port h,
)

pub trunk_add-IsSynced :
    (kernel : Kernel) (on : List ℕ) (vlans : Bitmap) (mode : IfMode) (port : SwitchPort)
    → Works kernel
    → port.device_type ≡ switched
    → port.mode ≡ mode
    → IsSynced on port
    → IsSynced on (trunk_add kernel on vlans mode port)
unfolding trunk_add add_vifs_to_trunk sw_bitmap_or sw_bitmap_and sw_bitmap_xor
trunk_add-IsSynced kernel on vlans access port works type mode h = record {
  has_vifs = λ v. h.has_vifs v ∙ rw (type, mode) refl;
  has_entries =
      trunk_add-IsListed kernel on vlans access port (Works-HasSpace kernel works) h.has_entries;
  in_bridge = h.in_bridge;
}
trunk_add-IsSynced kernel on vlans trunk port works type mode h = record {
  has_vifs = λ v.
      let old : port.vifs.devices v ≡ (listed v on && port.allowed_vlans v) =
        h.has_vifs v ∙ rw (type, mode) refl in
      rw (type, mode) (add_vifs-bits kernel _ on true port.vifs v works ∙ ground (arith, old));
  has_entries =
      trunk_add-IsListed kernel on vlans trunk port (Works-HasSpace kernel works) h.has_entries;
  in_bridge = h.in_bridge;
}

pub trunk_set-IsSynced :
    (kernel : Kernel) (on : List ℕ) (vlans : Bitmap) (mode : IfMode) (port : SwitchPort)
    → Works kernel
    → port.device_type ≡ switched
    → port.mode ≡ mode
    → IsSynced on port
    → IsSynced on (trunk_set kernel on vlans mode port)
unfolding trunk_set add_vifs_to_trunk remove_vifs_from_trunk sw_bitmap_or sw_bitmap_and
    sw_bitmap_xor
trunk_set-IsSynced kernel on vlans access port works type mode h = record {
  has_vifs = λ v. h.has_vifs v ∙ rw (type, mode) refl;
  has_entries =
      trunk_set-IsListed kernel on vlans access port (Works-HasSpace kernel works) h.has_entries;
  in_bridge = h.in_bridge;
}
trunk_set-IsSynced kernel on vlans trunk port works type mode h = record {
  has_vifs = λ v.
      let old : port.vifs.devices v ≡ (listed v on && port.allowed_vlans v) =
        h.has_vifs v ∙ rw (type, mode) refl in
      let added =
        add_vifs-bits kernel (sw_bitmap_and vlans (sw_bitmap_xor port.allowed_vlans vlans)) on true
          port.vifs v works in
      rw (type, mode) (remove_vifs-bits kernel _ on true _ v works ∙ ground (arith, old, added));
  has_entries =
      trunk_set-IsListed kernel on vlans trunk port (Works-HasSpace kernel works) h.has_entries;
  in_bridge = h.in_bridge;
}

pub trunk_del-IsSynced :
    (kernel : Kernel) (on : List ℕ) (vlans : Bitmap) (mode : IfMode) (port : SwitchPort)
    → Works kernel
    → port.device_type ≡ switched
    → port.mode ≡ mode
    → IsSynced on port
    → IsSynced on (trunk_del kernel on vlans mode port)
unfolding trunk_del remove_vifs_from_trunk sw_bitmap_and sw_bitmap_xor
trunk_del-IsSynced kernel on vlans access port works type mode h = record {
  has_vifs = λ v. h.has_vifs v ∙ rw (type, mode) refl;
  has_entries = trunk_del-IsListed kernel on vlans access port h.has_entries;
  in_bridge = h.in_bridge;
}
trunk_del-IsSynced kernel on vlans trunk port works type mode h = record {
  has_vifs = λ v.
      let old : port.vifs.devices v ≡ (listed v on && port.allowed_vlans v) =
        h.has_vifs v ∙ rw (type, mode) refl in
      rw (type, mode) (remove_vifs-bits kernel _ on true port.vifs v works ∙ ground (arith, old));
  has_entries = trunk_del-IsListed kernel on vlans trunk port h.has_entries;
  in_bridge = h.in_bridge;
}
