-- ===== src/Rstp/Fsm/Tcm.antt =====
-- userspace/rstp/fsm/tcm.c: the topology change machine. `bridge` is the global of rstpd.c, and an
-- unsigned int that counts is kept below 2^32.
use lisa_user.Base.{ℕ, ◌+◌, Bool, true, false, ◌&&◌, ◌||◌, not, if◌then◌else◌, first, ◌==◌, ◌!=◌}
use lisa_user.Rstp.Bpdu.{role_root, role_designated}
use lisa_user.Rstp.Port.{Port, TcmState, RstpBridge}
use lisa_user.Rstp.Fsm.Tree.{Cursor, on_entry, on_all}

unfoldable pub new_tc_while : RstpBridge → Port → Port
new_tc_while bridge port =
    let expired = port.tc_while == 0 in
    let rstp_time = port.designated_times.hello_time + 1 in
    let stp_time = bridge.root_times.max_age + bridge.root_times.forward_delay in
    record port {
      tc_while =
          if expired then (if port.send_rstp then rstp_time else stp_time) else port.tc_while;
      new_info = (expired && port.send_rstp) || port.new_info;
    }

-- the body of the loop in setTcPropTree, for the index of the port that calls it
unfoldable pub set_tc_prop : ℕ → Port → Port
set_tc_prop if_index entry = record entry {
  tc_prop = (if_index != entry.if_index) || entry.tc_prop;
}

unfoldable pub set_tc_prop_tree : Cursor → Cursor
unfolding set_tc_prop
set_tc_prop_tree c = on_all (set_tc_prop c.entry.if_index) c

unfoldable pub tcm_inactive : Port → Port
tcm_inactive port =
    let p = record port {
      fdb_flush = first port.tcm_exec true port.fdb_flush;
      tc_while = first port.tcm_exec 0 port.tc_while;
      tc_ack = first port.tcm_exec false port.tc_ack;
    } in
    let next : TcmState × Bool =
      if p.learn && not p.fdb_flush then (TcmState.learning, false) else (p.tcm_func, true) in
    record p { tcm_func = next.0; tcm_exec = next.1 }

unfoldable pub tcm_learning : Port → Port
tcm_learning port =
    let p = record port {
      rcvd_tc = first port.tcm_exec false port.rcvd_tc;
      rcvd_tcn = first port.tcm_exec false port.rcvd_tcn;
      rcvd_tc_ack = first port.tcm_exec false port.rcvd_tc_ack;
      tc_while = first port.tcm_exec 0 port.tc_while;
      tc_ack = first port.tcm_exec false port.tc_ack;
      tc_prop = first port.tcm_exec false port.tc_prop;
    } in
    let next : TcmState × Bool =
      if ((p.role == role_root) || (p.role == role_designated)) && p.forward && not p.oper_edge
      then (TcmState.detected, false)
      else if (p.role != role_root)
          && (p.role != role_designated)
          && not (p.learn || p.learning)
          && not (p.rcvd_tc || p.rcvd_tcn || p.rcvd_tc_ack || p.tc_prop)
      then (TcmState.inactive, false)
      else if p.rcvd_tc || p.rcvd_tcn || p.rcvd_tc_ack || p.tc_prop
      then (p.tcm_func, false)
      else (p.tcm_func, true) in
    record p { tcm_func = next.0; tcm_exec = next.1 }

-- the end of tcm_detected, and likewise below: what a handler does to its own port once the calls
-- over all ports are made
abbrev tcm_detected_end : Port → Port
tcm_detected_end port = record port {
  new_info = true;
  tcm_func = TcmState.active;
  tcm_exec = false;
}

unfoldable pub tcm_detected : RstpBridge → Cursor → Cursor
unfolding new_tc_while set_tc_prop_tree
tcm_detected bridge c =
    on_entry tcm_detected_end (set_tc_prop_tree (on_entry (new_tc_while bridge) c))

unfoldable pub tcm_active : Port → Port
tcm_active p =
    let next : TcmState × Bool =
      if ((p.role != role_root) && (p.role != role_designated)) || p.oper_edge
      then (TcmState.learning, false)
      else if p.rcvd_tcn
      then (TcmState.notified_tcn, false)
      else if p.rcvd_tc
      then (TcmState.notified_tc, false)
      else if p.tc_prop && not p.oper_edge
      then (TcmState.propagating, false)
      else if p.rcvd_tc_ack
      then (TcmState.acknowledged, false)
      else (p.tcm_func, p.tcm_exec) in
    record p { tcm_func = next.0; tcm_exec = next.1 }

unfoldable pub tcm_notified_tcn : RstpBridge → Port → Port
unfolding new_tc_while
tcm_notified_tcn bridge port = record (new_tc_while bridge port) {
  tcm_func = TcmState.notified_tc;
  tcm_exec = false;
}

abbrev tcm_notified_tc_start : Port → Port
tcm_notified_tc_start port = record port {
  rcvd_tcn = false;
  rcvd_tc = false;
  tc_ack = (port.role == role_designated) || port.tc_ack;
}

abbrev tcm_notified_tc_end : Port → Port
tcm_notified_tc_end port = record port { tcm_func = TcmState.active; tcm_exec = false }

unfoldable pub tcm_notified_tc : Cursor → Cursor
unfolding set_tc_prop_tree
tcm_notified_tc c =
    on_entry tcm_notified_tc_end (set_tc_prop_tree (on_entry tcm_notified_tc_start c))

unfoldable pub tcm_propagating : RstpBridge → Port → Port
unfolding new_tc_while
tcm_propagating bridge port = record (new_tc_while bridge port) {
  fdb_flush = true;
  tc_prop = true;
  tcm_func = TcmState.active;
  tcm_exec = false;
}

unfoldable pub tcm_acknowledged : Port → Port
tcm_acknowledged port = record port {
  tc_while = 0;
  rcvd_tc_ack = false;
  tcm_func = TcmState.active;
  tcm_exec = false;
}

-- tcm_state_table
unfoldable pub tcm_state : RstpBridge → TcmState → Cursor → Cursor
unfolding tcm_inactive tcm_learning tcm_detected tcm_active tcm_notified_tcn tcm_notified_tc
    tcm_propagating tcm_acknowledged
tcm_state bridge TcmState.inactive c = on_entry tcm_inactive c
tcm_state bridge TcmState.learning c = on_entry tcm_learning c
tcm_state bridge TcmState.detected c = tcm_detected bridge c
tcm_state bridge TcmState.active c = on_entry tcm_active c
tcm_state bridge TcmState.notified_tcn c = on_entry (tcm_notified_tcn bridge) c
tcm_state bridge TcmState.notified_tc c = tcm_notified_tc c
tcm_state bridge TcmState.propagating c = on_entry (tcm_propagating bridge) c
tcm_state bridge TcmState.acknowledged c = on_entry tcm_acknowledged c

unfoldable pub tcm : RstpBridge → Cursor → Cursor
unfolding tcm_state
tcm bridge c = tcm_state bridge c.entry.tcm_func c
