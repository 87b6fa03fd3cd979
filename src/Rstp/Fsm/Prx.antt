-- ===== src/Rstp/Fsm/Prx.antt =====
-- userspace/rstp/fsm/prx.c: the port receive machine. `sem_trywait` succeeds, and takes one, when
-- the semaphore is not 0.
use lisa_user.Base.{◌+◌, ◌-◌, true, false, ◌&&◌, ◌||◌, not, if◌then◌else◌, first, ◌==◌, ◌!=◌}
use lisa_user.Rstp.Bpdu.{bpdu_tcn, bpdu_config, bpdu_rstp}
use lisa_user.Rstp.Port.{Port, PrxState}

-- The int that the two handlers return is not read by the main loop, and is left out.
unfoldable pub prx_discard : Port → Port
prx_discard port =
    let p = record port {
      rcvd_rstp = first port.prx_exec false port.rcvd_rstp;
      rcvd_stp = first port.prx_exec false port.rcvd_stp;
      rcvd_msg = first port.prx_exec false port.rcvd_msg;
      edge_delay_while = first port.prx_exec 3 port.edge_delay_while;
    } in
    let taken = p.rcvd_bpdu != 0 in
    record p {
      rcvd_bpdu = p.rcvd_bpdu - 1;
      prx_func = if taken then PrxState.receive else p.prx_func;
      prx_exec = not taken;
    }

unfoldable pub updt_bpdu_version : Port → Port
updt_bpdu_version port =
    let hdr = port.buf.hdr in
    let is_stp =
      ((hdr.version == 0) || (hdr.version == 1))
      && ((hdr.bpdu_type == bpdu_tcn) || (hdr.bpdu_type == bpdu_config)) in
    record port {
      rcvd_stp = is_stp || port.rcvd_stp;
      rcvd_rstp = (hdr.bpdu_type == bpdu_rstp) || port.rcvd_rstp;
    }

unfoldable pub prx_receive : Port → Port
unfolding updt_bpdu_version
prx_receive port =
    let q = updt_bpdu_version port in
    let p = record port {
      rcvd_stp = first port.prx_exec q.rcvd_stp port.rcvd_stp;
      rcvd_rstp = first port.prx_exec q.rcvd_rstp port.rcvd_rstp;
      oper_edge = first port.prx_exec false port.oper_edge;
      rcvd_msg = first port.prx_exec true port.rcvd_msg;
      edge_delay_while = first port.prx_exec 3 port.edge_delay_while;
    } in
    let taken = not p.rcvd_msg && (p.rcvd_bpdu != 0) in
    record p {
      rcvd_bpdu = if taken then p.rcvd_bpdu - 1 else p.rcvd_bpdu;
      prx_func = if taken then PrxState.receive else p.prx_func;
      prx_exec = not taken;
      processed_bpdu = if taken then p.processed_bpdu + 1 else p.processed_bpdu;
    }

-- prx_state_table
unfoldable pub prx_state : PrxState → Port → Port
unfolding prx_discard prx_receive
prx_state PrxState.discard port = prx_discard port
prx_state PrxState.receive port = prx_receive port

unfoldable pub prx : Port → Port
unfolding prx_state
prx port = prx_state port.prx_func port
