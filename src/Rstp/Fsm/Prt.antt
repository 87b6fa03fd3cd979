-- ===== src/Rstp/Fsm/Prt.antt =====
-- userspace/rstp/fsm/prt.c: the port role transitions machine. The handlers stand in a child for
-- each role (Blocked has those of a disabled, an alternate and a backup port), and prt_state_table
-- and checkGlobalConditions here.
mod Sweep
mod Blocked
mod Root
mod Designated
unfoldable pub use Sweep.*
unfoldable pub use Blocked.*
unfoldable pub use Root.*
unfoldable pub use Designated.*
use lisa_user.Base.{Bool, false, if◌then◌else◌, ◌==◌, ◌!=◌, ◌||◌}
use lisa_user.Rstp.Bpdu.{role_disabled, role_root, role_designated, role_alternate, role_backup}
use lisa_user.Rstp.Port.{Port, PrtState}
use lisa_user.Rstp.Fsm.Tree.{Cursor, on_entry}

-- The result only says whether a case applied, and the main loop does not read it.
unfoldable pub check_global_conditions : Port → Port
check_global_conditions port =
    let next : PrtState × Bool =
      if port.role != port.selected_role
      then (if port.selected_role == role_disabled
          then (PrtState.disable_port, false)
          else if port.selected_role == role_root
          then (PrtState.root_port, false)
          else if port.selected_role == role_designated
          then (PrtState.designated_port, false)
          else if (port.selected_role == role_alternate) || (port.selected_role == role_backup)
          then (PrtState.block_port, false)
          else (port.prt_func, port.prt_exec))
      else (port.prt_func, port.prt_exec) in
    record port { prt_func = next.0; prt_exec = next.1 }

-- prt_state_table
unfoldable pub prt_state : PrtState → Cursor → Cursor
unfolding prt_init_port prt_disable_port prt_disabled_port prt_root_port prt_root_proposed
    prt_root_agreed prt_reroot prt_root_forward prt_root_learn prt_rerooted prt_designated_port
    prt_designated_propose prt_designated_synced prt_designated_retired prt_designated_forward
    prt_designated_learn prt_designated_discard prt_alternate_port prt_alternate_proposed
    prt_alternate_agreed prt_block_port prt_backup_port
prt_state PrtState.init_port c = on_entry prt_init_port c
prt_state PrtState.disable_port c = on_entry prt_disable_port c
prt_state PrtState.disabled_port c = on_entry prt_disabled_port c
prt_state PrtState.root_port c = on_entry prt_root_port c
prt_state PrtState.root_proposed c = prt_root_proposed c
prt_state PrtState.root_agreed c = on_entry prt_root_agreed c
prt_state PrtState.reroot c = prt_reroot c
prt_state PrtState.root_forward c = on_entry prt_root_forward c
prt_state PrtState.root_learn c = on_entry prt_root_learn c
prt_state PrtState.rerooted c = on_entry prt_rerooted c
prt_state PrtState.designated_port c = on_entry prt_designated_port c
prt_state PrtState.designated_propose c = on_entry prt_designated_propose c
prt_state PrtState.designated_synced c = on_entry prt_designated_synced c
prt_state PrtState.designated_retired c = on_entry prt_designated_retired c
prt_state PrtState.designated_forward c = on_entry prt_designated_forward c
prt_state PrtState.designated_learn c = on_entry prt_designated_learn c
prt_state PrtState.designated_discard c = on_entry prt_designated_discard c
prt_state PrtState.alternate_port c = on_entry prt_alternate_port c
prt_state PrtState.alternate_proposed c = prt_alternate_proposed c
prt_state PrtState.alternate_agreed c = on_entry prt_alternate_agreed c
prt_state PrtState.block_port c = on_entry prt_block_port c
prt_state PrtState.backup_port c = on_entry prt_backup_port c

unfoldable pub prt : Cursor → Cursor
unfolding prt_state
prt c = prt_state c.entry.prt_func c
