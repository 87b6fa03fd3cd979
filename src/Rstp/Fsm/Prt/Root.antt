-- ===== src/Rstp/Fsm/Prt/Root.antt =====
-- userspace/rstp/fsm/prt.c: the states of a root port.
use lisa_user.Base.{Bool, true, false, ◌&&◌, ◌||◌, not, if◌then◌else◌, first, ◌==◌, ◌!=◌}
use lisa_user.Rstp.Bpdu.{role_root}
use lisa_user.Rstp.Port.{Port, PrtState}
use lisa_user.Rstp.Fsm.Tree.{Cursor, on_entry}
use lisa_user.Rstp.Fsm.Prt.Sweep.{set_sync_tree, set_re_root_tree}

unfoldable pub prt_root_port : Port → Port
prt_root_port port =
    let p = record port {
      role = first port.prt_exec role_root port.role;
      rr_while = first port.prt_exec 15 port.rr_while;
    } in
    let cond = p.selected && not p.updt_info in
    let may_pass = (p.fd_while == 0) || (p.re_rooted && (p.rb_while == 0)) in
    let next : PrtState × Bool =
      if p.proposed && not p.agree && cond
      then (PrtState.root_proposed, false)
      else if ((p.all_synced && not p.agree) || (p.proposed && p.agree)) && cond
      then (PrtState.root_agreed, false)
      else if not p.forward && not p.re_root && cond
      then (PrtState.reroot, false)
      else if may_pass && p.learn && not p.forward && cond
      then (PrtState.root_forward, false)
      else if may_pass && not p.learn && cond
      then (PrtState.root_learn, false)
      else if p.re_root && p.forward && cond
      then (PrtState.rerooted, false)
      else (p.prt_func, not ((p.rr_while != 15) && cond)) in
    record p { prt_func = next.0; prt_exec = next.1 }

abbrev pub prt_root_proposed_end : Port → Port
prt_root_proposed_end port = record port {
  proposed = false;
  prt_func = PrtState.root_port;
  prt_exec = false;
}

unfoldable pub prt_root_proposed : Cursor → Cursor
unfolding set_sync_tree
prt_root_proposed c = on_entry prt_root_proposed_end (set_sync_tree c)

unfoldable pub prt_root_agreed : Port → Port
prt_root_agreed port = record port {
  sync = false;
  proposed = false;
  agree = true;
  new_info = true;
  prt_func = PrtState.root_port;
  prt_exec = false;
}

abbrev pub prt_reroot_end : Port → Port
prt_reroot_end port = record port { prt_func = PrtState.root_port; prt_exec = false }

unfoldable pub prt_reroot : Cursor → Cursor
unfolding set_re_root_tree
prt_reroot c = on_entry prt_reroot_end (set_re_root_tree c)

unfoldable pub prt_root_forward : Port → Port
prt_root_forward port = record port {
  fd_while = 0;
  forward = true;
  prt_func = PrtState.root_port;
  prt_exec = false;
}

unfoldable pub prt_root_learn : Port → Port
prt_root_learn port = record port {
  fd_while = 15;
  learn = true;
  prt_func = PrtState.root_port;
  prt_exec = false;
}

unfoldable pub prt_rerooted : Port → Port
prt_rerooted port = record port { re_root = false; prt_func = PrtState.root_port; prt_exec = false }
