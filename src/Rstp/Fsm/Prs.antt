-- ===== src/Rstp/Fsm/Prs.antt =====
-- userspace/rstp/fsm/prs.c: the port role selection machine.
mod Root
pub mod Best
pub mod Roles
pub mod Cost
unfoldable pub use Root.*
use lisa_user.Base.{
  ℕ, suc, ◌+◌, Bool, true, false, List, [], ◌∷◌, map, Option, none, some, ◌&&◌, ◌||◌, not,
  if◌then◌else◌, ◌==◌, u16,
}
use lisa_user.Vector.{
  RstpTimes, PriorityVector, PriorityVector4, bridge_bytes, memcmp, vec_compare4, tim_compare,
  is_negative, is_equal,
}
use lisa_user.Rstp.Bpdu.{role_disabled, role_root, role_designated, role_alternate, role_backup}
use lisa_user.Rstp.Port.{Port, RstpBridge, info_disabled, info_received, info_mine, info_aged}
use lisa_user.Rstp.Fsm.Tree.{Daemon, PrsState}

unfoldable pub updt_role_disabled_tree : List Port → List Port
updt_role_disabled_tree ports =
    map (λ (entry : Port). record entry { selected_role = role_disabled }) ports

unfoldable pub clear_reselect_tree : List Port → List Port
clear_reselect_tree ports = map (λ (entry : Port). record entry { reselect = false }) ports

-- memcpy of the first 22 bytes of a priority_vector
abbrev pub copy_vector4 : PriorityVector4 → PriorityVector → PriorityVector
copy_vector4 v w = record w {
  root_bridge_id = v.root_bridge_id;
  root_path_cost = v.root_path_cost;
  designated_bridge_id = v.designated_bridge_id;
  designated_port_id = v.designated_port_id;
}

unfoldable pub chosen_times : RstpBridge → Option (ℕ × Port) → RstpTimes
chosen_times bridge none = bridge.bridge_times
chosen_times bridge (some (i, entry)) = record (entry.port_times) {
  message_age = u16 (entry.port_times.message_age + 1);
}

unfoldable pub set_bridge_root : RootChoice → RstpBridge → RstpBridge
unfolding chosen_times
set_bridge_root r bridge = record bridge {
  root_priority = copy_vector4 r.root_priority bridge.root_priority;
  root_port_id = r.root_port_id;
  root_times = chosen_times bridge r.root_port;
}

unfoldable pub set_designated : RstpBridge → RootChoice → Port → Port
set_designated bridge r entry = record entry {
  designated_priority = record {
    root_bridge_id = r.root_priority.root_bridge_id;
    root_path_cost = r.root_priority.root_path_cost;
    designated_bridge_id = bridge.bridge_identifier;
    designated_port_id = entry.port_id;
  };
  designated_times = bridge.bridge_times;
}

-- entry == root_port
abbrev pub is_root_port : RootChoice → ℕ → Bool
is_root_port r i = elim r.root_port [ none ↦ false | some (j, entry) ↦ i == j ]

unfoldable pub assign_role : RstpBridge → RootChoice → ℕ → Port → Port
assign_role bridge r i entry =
    let order = vec_compare4 entry.designated_priority entry.port_priority in
    let is_own = is_equal (
      memcmp (bridge_bytes entry.port_priority.designated_bridge_id)
        (bridge_bytes bridge.bridge_identifier)) in
    let changed =
      not (is_equal order)
      || not (is_equal (tim_compare entry.designated_times entry.port_times)) in
    let chosen : ℕ × Bool =
      if entry.info_is == info_disabled
      then (role_disabled, entry.updt_info)
      else if entry.info_is == info_aged
      then (role_designated, true)
      else if entry.info_is == info_mine
      then (role_designated, changed || entry.updt_info)
      else if entry.info_is == info_received
      then (if is_root_port r i
          then (role_root, false)
          else if not (is_negative order)
          then (if not is_own then (role_alternate, false) else (role_backup, false))
          else (role_designated, true))
      else (entry.selected_role, entry.updt_info) in
    record entry { selected_role = chosen.0; updt_info = chosen.1 }

-- the last loop, from the i-th entry on
unfoldable pub assign_roles : RstpBridge → RootChoice → ℕ → List Port → List Port
assign_roles bridge r i [] = []
assign_roles bridge r i (entry ∷ rest) =
    assign_role bridge r i entry ∷ assign_roles bridge r (suc i) rest

unfoldable pub updt_roles_tree : Daemon → Daemon
unfolding own_choice choose set_bridge_root set_designated assign_roles
updt_roles_tree d =
    let r = choose d.bridge 0 d.ports (own_choice d.bridge) in
    let bridge = set_bridge_root r d.bridge in
    record d {
      bridge = bridge;
      ports = assign_roles bridge r 0 (map (set_designated bridge r) d.ports);
    }

-- the loop that joins the `reselect` flags
unfoldable pub any_reselect : List Port → Bool
any_reselect [] = false
any_reselect (entry ∷ rest) = entry.reselect || any_reselect rest

unfoldable pub set_selected_tree : List Port → List Port
unfolding any_reselect
set_selected_tree ports =
    if not (any_reselect ports)
    then map (λ (entry : Port). record entry { selected = true }) ports
    else ports

unfoldable pub prs_init_bridge : Daemon → Daemon
unfolding updt_role_disabled_tree
prs_init_bridge d = record d {
  ports = updt_role_disabled_tree d.ports;
  prs_func = PrsState.role_selection;
  prs_exec = false;
}

-- the entry actions of prs_role_selection
unfoldable pub select_roles : Daemon → Daemon
unfolding clear_reselect_tree updt_roles_tree set_selected_tree
select_roles d =
    let e = updt_roles_tree (record d { ports = clear_reselect_tree d.ports }) in
    record e { ports = set_selected_tree e.ports }

unfoldable pub prs_role_selection : Daemon → Daemon
unfolding select_roles any_reselect
prs_role_selection d =
    let e = if not d.prs_exec then select_roles d else d in
    if any_reselect e.ports
    then record e { prs_func = PrsState.role_selection; prs_exec = false }
    else record e { prs_exec = true }

-- prs_state_table
unfoldable pub prs_state : PrsState → Daemon → Daemon
unfolding prs_init_bridge prs_role_selection
prs_state PrsState.init_bridge d = prs_init_bridge d
prs_state PrsState.role_selection d = prs_role_selection d

unfoldable pub prs : Daemon → Daemon
unfolding prs_state
prs d = prs_state d.prs_func d
