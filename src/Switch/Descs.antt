-- ===== src/Switch/Descs.antt =====
-- The descriptions of VLANs and interfaces: switch_get_vlan_desc, switch_set_vlan_desc,
-- switch_del_vlan_desc, switch_get_if_desc, switch_set_if_desc and switch_del_if.
use lisa_user.Base.{
  ℕ, ◌+◌, ◌/◌, ◌%◌, Bool, ◌&&◌, ◌||◌, [], ◌∷◌, Option, none, some, Text, copy_text, take,
  if◌then◌else◌, ◌==◌, ◌⊎◌, inl, inr, ltb, leb,
}
use lisa_user.Mm.{mm_lock, mm_unlock}
use lisa_user.Switch.Store.{
  Switch, Entry, Status, failed, Errno, enodev, einval, eperm, efault, sw_max_vlan_name,
  sw_max_port_desc, sw_min_vlan, sw_max_vlan,
}
use lisa_user.Switch.Keyed.{Table, find_key, remove_entry, put_entry, reset_entry}

-- struct vlan_desc and struct if_desc
abbrev pub desc_size : ℕ
desc_size = 44

unfoldable pub sw_invalid_vlan : ℕ → Bool
sw_invalid_vlan vlan = ltb vlan sw_min_vlan || ltb sw_max_vlan vlan

unfoldable pub sw_is_default_vlan : ℕ → Bool
sw_is_default_vlan vlan = (vlan == 1) || (leb 1002 vlan && leb vlan 1005)

abbrev pub digit : ℕ → ℕ → ℕ
digit weight n = 48 + (n / weight) % 10

-- __default_vlan_name: "VLAN%04d" of a number below 10000
unfoldable pub default_vlan_name : ℕ → Text
default_vlan_name vlan =
    86 ∷ 76 ∷ 65 ∷ 78 ∷ digit 1000 vlan ∷ digit 100 vlan ∷ digit 10 vlan ∷ digit 1 vlan ∷ []

-- __default_iface_name: snprintf is given room for one character of "--"
unfoldable pub default_iface_name : Text
default_iface_name = take 1 (45 ∷ 45 ∷ [])

abbrev pub view_desc : Errno → Option Entry → Errno ⊎ Text
view_desc error none = inl error
view_desc error (some e) = inr e.text

-- `wanted` tells whether the caller gave a buffer.
unfoldable pub switch_get_vlan_desc : ℕ → Bool → Switch → Errno ⊎ Text
switch_get_vlan_desc vlan_id wanted s =
    if wanted then view_desc enodev (find_key vlan_id s.vlan_descs) else inl efault

unfoldable pub set_vlan_desc : (ℕ → Bool) → ℕ → Option Text → Table → Status × Table
set_vlan_desc ftruncate vlan_id none t =
    reset_entry sw_max_vlan_name vlan_id (default_vlan_name vlan_id) t
set_vlan_desc ftruncate vlan_id (some desc) t =
    put_entry ftruncate desc_size sw_max_vlan_name vlan_id desc t

unfoldable pub switch_set_vlan_desc : (ℕ → Bool) → ℕ → Option Text → Switch → Status × Switch
switch_set_vlan_desc ftruncate vlan_id desc s =
    let r = set_vlan_desc ftruncate vlan_id desc (mm_lock s.mm, s.vlan_descs) in
    if sw_invalid_vlan vlan_id
    then (failed einval, s)
    else if sw_is_default_vlan vlan_id
    then (failed eperm, s)
    else (r.0, record s { mm = mm_unlock (r.1.0); vlan_descs = r.1.1 })

unfoldable pub switch_del_vlan_desc : ℕ → Switch → Status × Switch
switch_del_vlan_desc vlan_id s =
    let r = remove_entry vlan_id (mm_lock s.mm, s.vlan_descs) in
    (r.0, record s { mm = mm_unlock (r.1.0); vlan_descs = r.1.1 })

unfoldable pub switch_get_if_desc : ℕ → Switch → Errno ⊎ Text
switch_get_if_desc if_index s = elim (find_key if_index s.if_descs) [
  | none ↦ inl einval
  | some e ↦ inr (copy_text sw_max_port_desc e.text)
]

unfoldable pub set_if_desc : (ℕ → Bool) → ℕ → Option Text → Table → Status × Table
set_if_desc ftruncate if_index none t = reset_entry sw_max_port_desc if_index default_iface_name t
set_if_desc ftruncate if_index (some desc) t =
    put_entry ftruncate desc_size sw_max_port_desc if_index desc t

unfoldable pub switch_set_if_desc : (ℕ → Bool) → ℕ → Option Text → Switch → Status × Switch
switch_set_if_desc ftruncate if_index desc s =
    let r = set_if_desc ftruncate if_index desc (mm_lock s.mm, s.if_descs) in
    (r.0, record s { mm = mm_unlock (r.1.0); if_descs = r.1.1 })

unfoldable pub switch_del_if : ℕ → Switch → Status × Switch
switch_del_if if_index s =
    let r = remove_entry if_index (mm_lock s.mm, s.if_descs) in
    (r.0, record s { mm = mm_unlock (r.1.0); if_descs = r.1.1 })
