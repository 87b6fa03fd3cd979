-- ===== src/Linux/Modes.antt =====
-- if_no_switchport, if_mode_access and if_mode_trunk of switch/linux/util_linux.c, on a port that
-- get_if_data finds; the answer is `true` for 0.
use lisa_user.Base.{ℕ, Bool, true, false, List, none, if◌then◌else◌}
use lisa_user.Cli.Vlans.{sw_bitmap_set, sw_bitmap_reset}
use lisa_user.Linux.{
  IfType, switched, routed, virtual, IfMode, access, trunk, SwitchPort, Kernel, add_vifs_to_trunk,
  remove_vifs_from_trunk,
}

-- br_add_if and br_remove_if on the port itself
unfoldable pub enter_bridge : Kernel → ℕ → SwitchPort → Bool × SwitchPort
enter_bridge kernel vlan port =
    let ok = kernel.br_add_if vlan in
    (ok, if ok then record port { bridges = sw_bitmap_set vlan port.bridges } else port)

unfoldable pub leave_bridge : Kernel → ℕ → SwitchPort → Bool × SwitchPort
leave_bridge kernel vlan port =
    let ok = kernel.br_remove_if vlan in
    (ok, if ok then record port { bridges = sw_bitmap_reset vlan port.bridges } else port)

-- The port leaves its bridge, or gives up its virtual interfaces.
unfoldable pub detach : Kernel → List ℕ → IfMode → SwitchPort → Bool × SwitchPort
detach kernel vlans access port = leave_bridge kernel port.access_vlan port
detach kernel vlans trunk port = remove_vifs_from_trunk kernel vlans none port

unfoldable pub no_switchport : Kernel → List ℕ → IfType → SwitchPort → Bool × SwitchPort
no_switchport kernel vlans virtual port = (true, port)
no_switchport kernel vlans routed port = (true, port)
no_switchport kernel vlans switched port =
    let detached = detach kernel vlans port.mode port in
    if detached.0 then (true, record detached.1 { device_type = routed }) else detached

unfoldable pub if_no_switchport : Kernel → List ℕ → SwitchPort → Bool × SwitchPort
if_no_switchport kernel vlans port = no_switchport kernel vlans port.device_type port

unfoldable pub become_access : Kernel → List ℕ → SwitchPort → Bool × SwitchPort
become_access kernel vlans port =
    let removed = (remove_vifs_from_trunk kernel vlans none port).1 in
    let entered = enter_bridge kernel port.access_vlan removed in
    if entered.0
    then (true, record entered.1 { device_type = switched; mode = access })
    else entered

unfoldable pub mode_access : Kernel → List ℕ → IfType → IfMode → SwitchPort → Bool × SwitchPort
mode_access kernel vlans virtual mode port = (true, port)
mode_access kernel vlans switched access port = (false, port)
mode_access kernel vlans switched trunk port = become_access kernel vlans port
mode_access kernel vlans routed mode port = become_access kernel vlans port

unfoldable pub if_mode_access : Kernel → List ℕ → SwitchPort → Bool × SwitchPort
if_mode_access kernel vlans port = mode_access kernel vlans port.device_type port.mode port

unfoldable pub become_trunk : Kernel → List ℕ → SwitchPort → Bool × SwitchPort
become_trunk kernel vlans port =
    let left = (leave_bridge kernel port.access_vlan port).1 in
    let added = add_vifs_to_trunk kernel vlans none left in
    if added.0 then (true, record added.1 { device_type = switched; mode = trunk }) else added

unfoldable pub mode_trunk : Kernel → List ℕ → IfType → IfMode → SwitchPort → Bool × SwitchPort
mode_trunk kernel vlans virtual mode port = (true, port)
mode_trunk kernel vlans switched trunk port = (false, port)
mode_trunk kernel vlans switched access port = become_trunk kernel vlans port
mode_trunk kernel vlans routed mode port = become_trunk kernel vlans port

unfoldable pub if_mode_trunk : Kernel → List ℕ → SwitchPort → Bool × SwitchPort
if_mode_trunk kernel vlans port = mode_trunk kernel vlans port.device_type port.mode port
