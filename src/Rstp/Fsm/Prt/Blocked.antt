-- ===== src/Rstp/Fsm/Prt/Blocked.antt =====
-- userspace/rstp/fsm/prt.c: the states of a port that is disabled, or whose role is alternate or
-- backup.
use lisa_user.Base.{Bool, true, false, ◌&&◌, ◌||◌, not, if◌then◌else◌, first, ◌==◌, ◌!=◌}
use lisa_user.Rstp.Bpdu.{role_disabled, role_alternate_backup}
use lisa_user.Rstp.Port.{Port, PrtState}
use lisa_user.Rstp.Fsm.Tree.{Cursor, on_entry}
use lisa_user.Rstp.Fsm.Prt.Sweep.{set_sync_tree}

unfoldable pub prt_init_port : Port → Port
prt_init_port port = record port {
  role = role_disabled;
  forward = false;
  learn = false;
  synced = false;
  re_root = true;
  sync = true;
  rr_while = 15;
  fd_while = 20;
  rb_while = 0;
  prt_func = PrtState.disable_port;
  prt_exec = false;
}

unfoldable pub prt_disable_port : Port → Port
prt_disable_port port =
    let p = record port {
      role = first port.prt_exec port.selected_role port.role;
      forward = first port.prt_exec false port.forward;
      learn = first port.prt_exec false port.learn;
    } in
    let next : PrtState × Bool =
      if not p.learning && not p.forwarding && p.selected && not p.updt_info
      then (PrtState.disabled_port, false)
      else (p.prt_func, true) in
    record p { prt_func = next.0; prt_exec = next.1 }

unfoldable pub prt_disabled_port : Port → Port
prt_disabled_port port =
    let p = record port {
      fd_while = first port.prt_exec 20 port.fd_while;
      synced = first port.prt_exec true port.synced;
      rr_while = first port.prt_exec 0 port.rr_while;
      re_root = first port.prt_exec false port.re_root;
      sync = first port.prt_exec false port.sync;
    } in
    let again =
      p.selected
      && not p.updt_info
      && ((p.fd_while != 20) || p.sync || p.re_root || not p.synced) in
    record p { prt_exec = not again }

unfoldable pub prt_alternate_port : Port → Port
prt_alternate_port port =
    let p = record port {
      fd_while = first port.prt_exec 15 port.fd_while;
      synced = first port.prt_exec true port.synced;
      rr_while = first port.prt_exec 0 port.rr_while;
      re_root = first port.prt_exec false port.re_root;
      sync = first port.prt_exec false port.sync;
    } in
    let cond = p.selected && not p.updt_info in
    let next : PrtState × Bool =
      if p.proposed && not p.agree && cond
      then (PrtState.alternate_proposed, false)
      else if ((p.all_synced && not p.agree) || (p.proposed && p.agree)) && cond
      then (PrtState.alternate_agreed, false)
      else if (p.rb_while != 4) && (p.role == role_alternate_backup) && cond
      then (PrtState.backup_port, false)
      else (p.prt_func, true) in
    record p { prt_func = next.0; prt_exec = next.1 }

abbrev pub prt_alternate_proposed_end : Port → Port
prt_alternate_proposed_end port = record port {
  proposed = false;
  prt_func = PrtState.alternate_port;
  prt_exec = false;
}

unfoldable pub prt_alternate_proposed : Cursor → Cursor
unfolding set_sync_tree
prt_alternate_proposed c = on_entry prt_alternate_proposed_end (set_sync_tree c)

unfoldable pub prt_alternate_agreed : Port → Port
prt_alternate_agreed port = record port {
  proposed = false;
  agree = true;
  new_info = true;
  prt_func = PrtState.alternate_port;
  prt_exec = false;
}

unfoldable pub prt_block_port : Port → Port
prt_block_port port =
    let p = record port {
      role = first port.prt_exec port.selected_role port.role;
      forward = first port.prt_exec false port.forward;
      learn = first port.prt_exec false port.learn;
    } in
    let next : PrtState × Bool =
      if not p.learning && not p.forwarding && p.selected && not p.updt_info
      then (PrtState.alternate_port, false)
      else (p.prt_func, true) in
    record p { prt_func = next.0; prt_exec = next.1 }

unfoldable pub prt_backup_port : Port → Port
prt_backup_port port = record port {
  rb_while = 4;
  prt_func = PrtState.alternate_port;
  prt_exec = false;
}
