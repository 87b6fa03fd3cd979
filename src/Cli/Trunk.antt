-- ===== src/Cli/Trunk.antt =====
-- cmd_trunk_vlan of cli/command/config_if.c, over the operations that sw_ops points to.
use lisa_user.Base.{
  ℕ, ◌≡◌, refl, ap, ◌∙◌, Bool, true, false, not, ◌&&◌, ◌||◌, List, ◌∷◌, Text, All, if◌then◌else◌,
  ◌==◌,
}
use lisa_user.Cli.Vlans.{Bitmap, parse_vlan_list}
use lisa_user.Cli.Vlans.Listed.{Item, items_text, IsItem}
use lisa_user.Cli.Vlans.Selected.{any_covers, up_to_range, range_is_last, parse_vlan_list-selects}
use lisa_user.Linux.{Kernel, SwitchPort, if_add_trunk_vlans, if_set_trunk_vlans, if_del_trunk_vlans}
use lisa_user.Linux.Synced.{IsListed, HasSpace}
use lisa_user.Linux.Allowed.{trunk_vlans_set, trunk_vlans-IsListed}

-- The operations of struct switch_operations that the command calls, on the state of a port; `true`
-- stands for a status that is not negative.
pub record TrunkOperations (P : Type 0) : Type 0 where
  pub add_trunk_vlans : Bitmap → P → Bool × P
  pub set_trunk_vlans : Bitmap → P → Bool × P
  pub del_trunk_vlans : Bitmap → P → Bool × P

-- The values of `priv` at the nodes of the command.
pub data VlanCommand : Type 0 where
  vlan_set : VlanCommand
  vlan_add : VlanCommand
  vlan_all : VlanCommand
  vlan_no : VlanCommand
  vlan_except : VlanCommand
  vlan_none : VlanCommand
  vlan_remove : VlanCommand

-- parse_vlan_err, 0 where the command reads no list; and the call with its bitmap
unfoldable pub vlan_call :
    {P : Type 0} → TrunkOperations P → VlanCommand → Text → P → ℕ × (Bool × P)
vlan_call ops vlan_set arg port =
    let parsed = parse_vlan_list arg in (parsed.0, ops.set_trunk_vlans parsed.1 port)
vlan_call ops vlan_add arg port =
    let parsed = parse_vlan_list arg in (parsed.0, ops.add_trunk_vlans parsed.1 port)
vlan_call ops vlan_all arg port = (0, ops.set_trunk_vlans (λ n. true) port)
vlan_call ops vlan_no arg port = (0, ops.set_trunk_vlans (λ n. true) port)
vlan_call ops vlan_except arg port =
    let parsed = parse_vlan_list arg in (parsed.0, ops.set_trunk_vlans (λ n. not (parsed.1 n)) port)
vlan_call ops vlan_none arg port = (0, ops.set_trunk_vlans (λ n. false) port)
vlan_call ops vlan_remove arg port =
    let parsed = parse_vlan_list arg in (parsed.0, ops.del_trunk_vlans parsed.1 port)

abbrev pub cli_ex_ok : ℕ
cli_ex_ok = 0

abbrev pub cli_ex_rejected : ℕ
cli_ex_rejected = 4

abbrev pub cli_ex_warning : ℕ
cli_ex_warning = 5

unfoldable pub cmd_trunk_vlan : {P : Type 0} → TrunkOperations P → VlanCommand → Text → P → ℕ × P
cmd_trunk_vlan ops command arg port =
    let called = vlan_call ops command arg port in
    let result = called.1 in
    (
      if not (called.0 == 0)
          then cli_ex_rejected
          else if not result.0
          then cli_ex_warning
          else cli_ex_ok,
      result.1,
    )

-- The middleware of Linux as the operations.
unfoldable pub linux_operations : Kernel → List ℕ → TrunkOperations SwitchPort
linux_operations kernel on = record {
  add_trunk_vlans = if_add_trunk_vlans kernel on;
  set_trunk_vlans = if_set_trunk_vlans kernel on;
  del_trunk_vlans = if_del_trunk_vlans kernel on;
}

-- The VLANs that a port allows after a command, from those before and those listed.
abbrev pub intended : VlanCommand → Bool → Bool → Bool
intended vlan_set old given = given
intended vlan_add old given = old || given
intended vlan_all old given = true
intended vlan_no old given = true
intended vlan_except old given = not given
intended vlan_none old given = false
intended vlan_remove old given = old && not given

vlan_call-intended :
    (kernel : Kernel) (on : List ℕ) (command : VlanCommand) (text : Text) (port : SwitchPort)
    (covered : ℕ → Bool)
    → (parse_vlan_list text).0 ≡ 0
    → ((v : ℕ) → (parse_vlan_list text).1 v ≡ covered v)
    → let r = vlan_call (linux_operations kernel on) command text port in
      (r.0 ≡ 0)
      × (r.1.0 ≡ true)
      × ((v : ℕ) → r.1.1.allowed_vlans v ≡ intended command (port.allowed_vlans v) (covered v))
unfolding vlan_call linux_operations if_add_trunk_vlans if_set_trunk_vlans if_del_trunk_vlans
vlan_call-intended kernel on vlan_set text port covered good bits =
    (good, refl, λ v. (trunk_vlans_set kernel on _ port v).1 ∙ bits v)
vlan_call-intended kernel on vlan_add text port covered good bits = (
  good,
  refl,
  λ v. (trunk_vlans_set kernel on _ port v).0 ∙ ap (λ b. port.allowed_vlans v || b) (bits v),
)
vlan_call-intended kernel on vlan_all text port covered good bits =
    (refl, refl, λ v. (trunk_vlans_set kernel on _ port v).1)
vlan_call-intended kernel on vlan_no text port covered good bits =
    (refl, refl, λ v. (trunk_vlans_set kernel on _ port v).1)
vlan_call-intended kernel on vlan_except text port covered good bits =
    (good, refl, λ v. (trunk_vlans_set kernel on _ port v).1 ∙ ap not (bits v))
vlan_call-intended kernel on vlan_none text port covered good bits =
    (refl, refl, λ v. (trunk_vlans_set kernel on _ port v).1)
vlan_call-intended kernel on vlan_remove text port covered good bits = (
  good,
  refl,
  λ v. (trunk_vlans_set kernel on _ port v).2 ∙ ap (λ b. port.allowed_vlans v && not b) (bits v),
)

-- The call leaves no access through an old address and every virtual interface with its entry.
vlan_call-IsListed :
    (kernel : Kernel) (on : List ℕ) (command : VlanCommand) (text : Text) (port : SwitchPort)
    → HasSpace kernel
    → IsListed port.vifs
    → IsListed (vlan_call (linux_operations kernel on) command text port).1.1.vifs
unfolding vlan_call linux_operations
vlan_call-IsListed kernel on vlan_set text port space h =
    (trunk_vlans-IsListed kernel on _ port space h).1
vlan_call-IsListed kernel on vlan_add text port space h =
    (trunk_vlans-IsListed kernel on _ port space h).0
vlan_call-IsListed kernel on vlan_all text port space h =
    (trunk_vlans-IsListed kernel on _ port space h).1
vlan_call-IsListed kernel on vlan_no text port space h =
    (trunk_vlans-IsListed kernel on _ port space h).1
vlan_call-IsListed kernel on vlan_except text port space h =
    (trunk_vlans-IsListed kernel on _ port space h).1
vlan_call-IsListed kernel on vlan_none text port space h =
    (trunk_vlans-IsListed kernel on _ port space h).1
vlan_call-IsListed kernel on vlan_remove text port space h =
    (trunk_vlans-IsListed kernel on _ port space h).2

-- Over the middleware of Linux, where add_vif_data finds its room without moving the area and the
-- port's virtual interfaces have their entries, with a list of VLANs of which only the last may be a
-- range: each command answers CLI_EX_OK, does nothing undefined, keeps the entries, and leaves the
-- port with the VLANs that it is meant to allow, VLAN by VLAN: the listed ones, those added to or
-- taken from the old ones, all others, all, or none.
pub cmd_trunk_vlan-intended :
    (kernel : Kernel) (on : List ℕ) (command : VlanCommand) (i : Item) (is : List Item)
    (port : SwitchPort)
    → HasSpace kernel
    → IsListed port.vifs
    → All IsItem (i ∷ is)
    → range_is_last i is ≡ true
    → let r = cmd_trunk_vlan (linux_operations kernel on) command (items_text i is) port in
      (r.0 ≡ cli_ex_ok)
      × IsListed r.1.vifs
      × ((v : ℕ)
          → r.1.allowed_vlans v ≡ intended command (port.allowed_vlans v) (any_covers i is v))
unfolding cmd_trunk_vlan
cmd_trunk_vlan-intended kernel on command i is port space entries items last =
    let read = (parse_vlan_list-selects i is items).0 last in
    let (good, status, bits) =
      vlan_call-intended kernel on command (items_text i is) port (any_covers i is) read.0 read.1 in
    let kept = vlan_call-IsListed kernel on command (items_text i is) port space entries in
    (rw (good, status) refl, kept, bits)

-- Under the same conditions, but with a list in which an earlier item is a range: `switchport trunk
-- allowed vlan` is rejected, and yet has set the VLANs of the port to those that are listed up to
-- the first range, with that range.
pub cmd_trunk_vlan-rejected :
    (kernel : Kernel) (on : List ℕ) (i : Item) (is : List Item) (port : SwitchPort)
    → HasSpace kernel
    → IsListed port.vifs
    → All IsItem (i ∷ is)
    → range_is_last i is ≡ false
    → let r = cmd_trunk_vlan (linux_operations kernel on) vlan_set (items_text i is) port in
      (r.0 ≡ cli_ex_rejected)
      × IsListed r.1.vifs
      × ((v : ℕ) → r.1.allowed_vlans v ≡ up_to_range i is v)
unfolding cmd_trunk_vlan vlan_call linux_operations
cmd_trunk_vlan-rejected kernel on i is port space entries items early =
    let (bad, bits) = (parse_vlan_list-selects i is items).1 early in
    let given = (parse_vlan_list (items_text i is)).1 in
    (
      rw (bad) refl,
      (trunk_vlans-IsListed kernel on given port space entries).1,
      λ v. (trunk_vlans_set kernel on given port v).1 ∙ bits v,
    )
