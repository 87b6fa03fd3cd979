-- ===== src/Linux/Ports.antt =====
-- if_add, if_remove, if_set_mode and if_set_port_vlan of switch/linux/linux.c. The answer is `true`
-- for 0.
use lisa_user.Base.{
  ℕ, ◌∙◌, Bool, true, false, not, List, Option, none, some, if◌then◌else◌, ◌==◌, Bool-cases, inl,
  inr, if-keep, arith,
}
use lisa_user.Linux.{
  IfType, switched, routed, virtual, IfMode, access, trunk, SwitchPort, Kernel, add_vifs_to_trunk,
}
use lisa_user.Linux.Modes.{
  enter_bridge, leave_bridge, detach, if_no_switchport, if_mode_access, if_mode_trunk,
}
use lisa_user.Linux.Synced.{Works, listed, HasVifs, add_vifs-bits}

abbrev pub linux_default_vlan : ℕ
linux_default_vlan = 1

-- what add_if_data stores for a new interface, which has no virtual interface and no bridge
abbrev pub new_port : IfMode → SwitchPort
new_port mode = record {
  device_type = switched;
  mode = mode;
  access_vlan = linux_default_vlan;
  allowed_vlans = λ n. true;
  vifs = record { devices = λ n. false; entries = λ n. false; undefined = false };
  bridges = λ n. false;
}

-- The mode that is asked for, or access where it is neither.
unfoldable pub mode_or_access : Option IfMode → IfMode
mode_or_access none = access
mode_or_access (some mode) = mode

unfoldable pub place_port : Kernel → List ℕ → IfMode → SwitchPort → Bool × SwitchPort
place_port kernel on access port = enter_bridge kernel linux_default_vlan port
place_port kernel on trunk port = add_vifs_to_trunk kernel on none port

-- `old` is what get_if_data finds for the index; the port is stored even if the answer is not 0.
unfoldable pub if_add :
    Kernel → List ℕ → Option SwitchPort → Option IfMode → Bool × Option SwitchPort
if_add kernel on (some port) mode = (false, some port)
if_add kernel on none mode =
    let placed = place_port kernel on (mode_or_access mode) (new_port (mode_or_access mode)) in
    (placed.0, some placed.1)

-- The answer of if_remove, for a port that is found; its entry is gone in any case. The port that is
-- given back is what the kernel is left with.
unfoldable pub remove_port : Kernel → List ℕ → IfType → SwitchPort → Bool × SwitchPort
remove_port kernel on routed port = (true, port)
remove_port kernel on switched port = detach kernel on port.mode port
remove_port kernel on virtual port = detach kernel on port.mode port

unfoldable pub if_remove : Kernel → List ℕ → SwitchPort → Bool × SwitchPort
if_remove kernel on port = remove_port kernel on port.device_type port

-- none for a mode that is neither, where the answer is EINVAL
unfoldable pub if_set_mode : Kernel → List ℕ → Option IfMode → Bool → SwitchPort → Bool × SwitchPort
if_set_mode kernel on mode false port = if_no_switchport kernel on port
if_set_mode kernel on none true port = (false, port)
if_set_mode kernel on (some access) true port = if_mode_access kernel on port
if_set_mode kernel on (some trunk) true port = if_mode_trunk kernel on port

unfoldable pub move_port : Kernel → List ℕ → ℕ → SwitchPort → Bool × SwitchPort
move_port kernel on vlan port =
    let left = (leave_bridge kernel port.access_vlan port).1 in
    let moved = record left { access_vlan = vlan } in
    if not (listed vlan on) then (true, moved) else enter_bridge kernel vlan moved

unfoldable pub set_port_vlan :
    Kernel → List ℕ → ℕ → IfType → IfMode → SwitchPort → Bool × SwitchPort
set_port_vlan kernel on vlan switched access port =
    if port.access_vlan == vlan then (true, port) else move_port kernel on vlan port
set_port_vlan kernel on vlan switched trunk port = (false, port)
set_port_vlan kernel on vlan routed mode port = (false, port)
set_port_vlan kernel on vlan virtual mode port = (false, port)

unfoldable pub if_set_port_vlan : Kernel → List ℕ → ℕ → SwitchPort → Bool × SwitchPort
if_set_port_vlan kernel on vlan port = set_port_vlan kernel on vlan port.device_type port.mode port

move_port-HasVifs :
    (kernel : Kernel) (on : List ℕ) (vlan : ℕ) (port : SwitchPort)
    → HasVifs on port
    → HasVifs on (move_port kernel on vlan port).1
unfolding move_port leave_bridge enter_bridge
move_port-HasVifs kernel on vlan port h =
    let Q = λ (r : Bool × SwitchPort). HasVifs on r.1 in
    elim (Bool-cases (kernel.br_remove_if port.access_vlan)) [
      | inl e ↦ rw (e) (
          if-keep Q (not (listed vlan on)) _ _ h
            (if-keep (HasVifs on) (kernel.br_add_if vlan) _ _ h h))
      | inr e ↦ rw (e) (
          if-keep Q (not (listed vlan on)) _ _ h
            (if-keep (HasVifs on) (kernel.br_add_if vlan) _ _ h h))
    ]

set_port_vlan-HasVifs :
    (kernel : Kernel) (on : List ℕ) (vlan : ℕ) (type : IfType) (mode : IfMode) (port : SwitchPort)
    → HasVifs on port
    → HasVifs on (set_port_vlan kernel on vlan type mode port).1
unfolding set_port_vlan
set_port_vlan-HasVifs kernel on vlan switched access port h =
    if-keep (λ (r : Bool × SwitchPort). HasVifs on r.1) (port.access_vlan == vlan) _ _ h
      (move_port-HasVifs kernel on vlan port h)
set_port_vlan-HasVifs kernel on vlan switched trunk port h = h
set_port_vlan-HasVifs kernel on vlan routed mode port h = h
set_port_vlan-HasVifs kernel on vlan virtual mode port h = h

place_port-HasVifs :
    (kernel : Kernel) (on : List ℕ) (mode : IfMode)
    → Works kernel
    → HasVifs on (place_port kernel on mode (new_port mode)).1
unfolding place_port enter_bridge add_vifs_to_trunk
place_port-HasVifs kernel on access works =
    if-keep (HasVifs on) (kernel.br_add_if linux_default_vlan) _ _ (λ v. ground arith)
      (λ v. ground arith)
place_port-HasVifs kernel on trunk works =
    λ v. add_vifs-bits kernel (λ n. true) on true (new_port trunk).vifs v works ∙ ground arith

-- A new interface, whatever mode is asked for, has virtual interfaces as its mode asks, while the
-- kernel grants them; and a change of the access VLAN, on every branch and whatever the kernel
-- answers, leaves them in agreement.
pub new_port-HasVifs :
    (kernel : Kernel) (on : List ℕ) (mode : Option IfMode) (vlan : ℕ) (port : SwitchPort)
    → Works kernel
    → HasVifs on port
    → HasVifs on (place_port kernel on (mode_or_access mode) (new_port (mode_or_access mode))).1
      × HasVifs on (if_set_port_vlan kernel on vlan port).1
unfolding if_set_port_vlan
new_port-HasVifs kernel on mode vlan port works h = (
  place_port-HasVifs kernel on (mode_or_access mode) works,
  set_port_vlan-HasVifs kernel on vlan port.device_type port.mode port h,
)
