-- ===== src/Rstp/Fsm/Bdm.antt =====
-- userspace/rstp/fsm/bdm.c: the bridge detection machine. The main loop leaves it out; the table
-- has a third entry in front of the two states, so that state BDM_EDGE (0) runs bdm_begin_state and
-- state BDM_NOT_EDGE (1) runs bdm_edge.
use lisa_user.Base.{Bool, true, false, ◌&&◌, not, if◌then◌else◌, first, ◌==◌}
use lisa_user.Rstp.Port.{Port, BdmState}

unfoldable pub bdm_edge : Port → Port
bdm_edge port =
    let p = record port { oper_edge = first port.bdm_exec true port.oper_edge } in
    let next : BdmState × Bool =
      if not p.oper_edge then (BdmState.not_edge, false) else (p.bdm_func, true) in
    record p { bdm_func = next.0; bdm_exec = next.1 }

unfoldable pub bdm_not_edge : Port → Port
bdm_not_edge port =
    let p = record port { oper_edge = first port.bdm_exec false port.oper_edge } in
    let next : BdmState × Bool =
      if (p.edge_delay_while == 0) && p.send_rstp && p.proposing && false
      then (BdmState.edge, false)
      else (p.bdm_func, true) in
    record p { bdm_func = next.0; bdm_exec = next.1 }

unfoldable pub bdm_begin_state : Port → Port
unfolding bdm_not_edge
bdm_begin_state port = bdm_not_edge port

-- bdm_state_table
unfoldable pub bdm_state : BdmState → Port → Port
unfolding bdm_begin_state bdm_edge
bdm_state BdmState.edge port = bdm_begin_state port
bdm_state BdmState.not_edge port = bdm_edge port

unfoldable pub bdm : Port → Port
unfolding bdm_state
bdm port = bdm_state port.bdm_func port
