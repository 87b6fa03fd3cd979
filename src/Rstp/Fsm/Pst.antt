-- ===== src/Rstp/Fsm/Pst.antt =====
-- userspace/rstp/fsm/pst.c: the port state machine. The functions that switch learning and
-- forwarding on and off only print; the flags `learning` and `forwarding` are their record.
use lisa_user.Base.{Bool, true, false, not, if◌then◌else◌, first}
use lisa_user.Rstp.Port.{Port, PstState}

unfoldable pub pst_discarding : Port → Port
pst_discarding port =
    let p = record port {
      learning = first port.pst_exec false port.learning;
      forwarding = first port.pst_exec false port.forwarding;
    } in
    let next : PstState × Bool =
      if p.learn then (PstState.learning, false) else (p.pst_func, true) in
    record p { pst_func = next.0; pst_exec = next.1 }

unfoldable pub pst_learning : Port → Port
pst_learning port =
    let p = record port { learning = first port.pst_exec true port.learning } in
    let next : PstState × Bool =
      if p.forward
      then (PstState.forwarding, false)
      else if not p.learn
      then (PstState.discarding, false)
      else (p.pst_func, true) in
    record p { pst_func = next.0; pst_exec = next.1 }

unfoldable pub pst_forwarding : Port → Port
pst_forwarding port =
    let p = record port { forwarding = first port.pst_exec true port.forwarding } in
    let next : PstState × Bool =
      if not p.forward then (PstState.discarding, false) else (p.pst_func, true) in
    record p { pst_func = next.0; pst_exec = next.1 }

-- pst_state_table
unfoldable pub pst_state : PstState → Port → Port
unfolding pst_discarding pst_learning pst_forwarding
pst_state PstState.discarding port = pst_discarding port
pst_state PstState.learning port = pst_learning port
pst_state PstState.forwarding port = pst_forwarding port

unfoldable pub pst : Port → Port
unfolding pst_state
pst port = pst_state port.pst_func port
