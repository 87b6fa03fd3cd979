-- ===== src/Rstp/Fsm/Prt/Designated.antt =====
-- userspace/rstp/fsm/prt.c: the states of a designated port.
use lisa_user.Base.{Bool, true, false, ◌&&◌, ◌||◌, not, if◌then◌else◌, first, ◌==◌, ◌!=◌}
use lisa_user.Rstp.Bpdu.{role_designated}
use lisa_user.Rstp.Port.{Port, PrtState}

unfoldable pub prt_designated_port : Port → Port
prt_designated_port port =
    let p = record port { role = first port.prt_exec role_designated port.role } in
    let cond = p.selected && not p.updt_info in
    let may_pass =
      ((p.fd_while == 0) || p.agreed || p.oper_edge)
      && ((p.rr_while == 0) || not p.re_root)
      && not p.sync in
    let next : PrtState × Bool =
      if not p.forward && not p.agreed && not p.proposing && not p.oper_edge && cond
      then (PrtState.designated_propose, false)
      else if ((not p.learning && not p.forwarding && not p.synced)
            || (p.agreed && not p.synced)
            || (p.oper_edge && not p.synced)
            || (p.sync && p.synced))
          && cond
      then (PrtState.designated_synced, false)
      else if (p.rr_while == 0) && p.re_root && cond
      then (PrtState.designated_retired, false)
      else if may_pass && p.learn && not p.forward && cond
      then (PrtState.designated_forward, false)
      else if may_pass && not p.learn && cond
      then (PrtState.designated_learn, false)
      else if ((p.sync && not p.synced) || (p.re_root && (p.rr_while != 0)) || p.disputed)
          && not p.oper_edge
          && (p.learn || p.forward)
          && cond
      then (PrtState.designated_discard, false)
      else (p.prt_func, true) in
    record p { prt_func = next.0; prt_exec = next.1 }

unfoldable pub prt_designated_propose : Port → Port
prt_designated_propose port = record port {
  proposing = true;
  edge_delay_while = 10;
  new_info = true;
  prt_func = PrtState.designated_port;
  prt_exec = false;
}

unfoldable pub prt_designated_synced : Port → Port
prt_designated_synced port = record port {
  rr_while = 0;
  synced = true;
  sync = false;
  prt_func = PrtState.designated_port;
  prt_exec = false;
}

unfoldable pub prt_designated_retired : Port → Port
prt_designated_retired port = record port {
  re_root = false;
  prt_func = PrtState.designated_port;
  prt_exec = false;
}

unfoldable pub prt_designated_forward : Port → Port
prt_designated_forward port = record port {
  forward = true;
  fd_while = 0;
  agreed = port.send_rstp;
  prt_func = PrtState.designated_port;
  prt_exec = false;
}

unfoldable pub prt_designated_learn : Port → Port
prt_designated_learn port = record port {
  learn = true;
  fd_while = 15;
  prt_func = PrtState.designated_port;
  prt_exec = false;
}

unfoldable pub prt_designated_discard : Port → Port
prt_designated_discard port = record port {
  disputed = false;
  forward = false;
  learn = false;
  fd_while = 15;
  prt_func = PrtState.designated_port;
  prt_exec = false;
}
