-- ===== src/Rstp/Safety/Identity.antt =====
-- The identifier of a port in every reachable state: the one made of its interface's index, which
-- the port sends.
use lisa_user.Base.{ℕ, ◌≡◌, refl, List, Option, none, some, ◌==◌, if-keep, All}
use lisa_user.Rstp.Port.{
  Port, RstpBridge, PrxState, PpmState, PtxState, PimState, PrtState, PstState, TcmState,
}
use lisa_user.Rstp.Fsm.Tree.{Daemon}
use lisa_user.Rstp.Fsm.Prx.{prx, prx_state}
use lisa_user.Rstp.Fsm.Ppm.{ppm, ppm_state}
use lisa_user.Rstp.Fsm.Ptx.{ptx, ptx_state}
use lisa_user.Rstp.Fsm.Pim.{pim, pim_state, rcv_info}
use lisa_user.Rstp.Fsm.Prt.{check_global_conditions, prt, prt_state}
use lisa_user.Rstp.Fsm.Pst.{pst, pst_state}
use lisa_user.Rstp.Fsm.Tcm.{tcm, tcm_state, set_tc_prop}
use lisa_user.Rstp.Fsm.Prs.{assign_role, set_designated}
use lisa_user.Rstp.Daemon.{tick, recv_port, new_port, port_id_of}
use lisa_user.Rstp.Safety.Frame.{AnyMemory}
use lisa_user.Rstp.Steps.{alone, PortInvariant, Reach, Reach-All}

abbrev pub IsIdentified : Port → Type 0
IsIdentified p =
    (p.port_id ≡ port_id_of p.if_index) × (p.designated_priority.designated_port_id ≡ p.port_id)

prx_state-IsIdentified : (s : PrxState) (p : Port) → IsIdentified p → IsIdentified (prx_state s p)
unfolding prx_state
prx_state-IsIdentified PrxState.discard p h = h
prx_state-IsIdentified _ p h = h

ppm_state-IsIdentified : (s : PpmState) (p : Port) → IsIdentified p → IsIdentified (ppm_state s p)
unfolding ppm_state
ppm_state-IsIdentified PpmState.sensing p h = h
ppm_state-IsIdentified _ p h = h

ptx_state-IsIdentified : (s : PtxState) (p : Port) → IsIdentified p → IsIdentified (ptx_state s p)
unfolding ptx_state
ptx_state-IsIdentified PtxState.idle p h = h
ptx_state-IsIdentified _ p h = h

pim_state-IsIdentified : (s : PimState) (p : Port) → IsIdentified p → IsIdentified (pim_state s p)
unfolding pim_state rcv_info
pim_state-IsIdentified PimState.current p h = h
pim_state-IsIdentified _ p h = h

prt_state-IsIdentified :
    (s : PrtState) (p : Port) → IsIdentified p → IsIdentified (prt_state s (alone p)).entry
unfolding prt_state
prt_state-IsIdentified PrtState.init_port p h = h
prt_state-IsIdentified _ p h = h

pst_state-IsIdentified : (s : PstState) (p : Port) → IsIdentified p → IsIdentified (pst_state s p)
unfolding pst_state
pst_state-IsIdentified PstState.learning p h = h
pst_state-IsIdentified _ p h = h

tcm_state-IsIdentified :
    (bridge : RstpBridge) (s : TcmState) (p : Port)
    → IsIdentified p
    → IsIdentified (tcm_state bridge s (alone p)).entry
unfolding tcm_state
tcm_state-IsIdentified bridge TcmState.active p h = h
tcm_state-IsIdentified bridge _ p h = h

recv_port-IsIdentified :
    (answer : Option (List ℕ)) (p : Port) → IsIdentified p → IsIdentified (recv_port answer p)
unfolding recv_port
recv_port-IsIdentified none p h = if-keep IsIdentified (p.processed_bpdu == 0) _ _ h h
recv_port-IsIdentified (some frame) p h = if-keep IsIdentified (p.processed_bpdu == 0) _ _ h h

IsIdentified-invariant : PortInvariant AnyMemory IsIdentified
unfolding prx ppm ptx pim check_global_conditions prt pst tcm set_tc_prop set_designated assign_role
    tick new_port
IsIdentified-invariant = record {
  by_prx = λ p h. prx_state-IsIdentified p.prx_func p h;
  by_ppm = λ p h. ppm_state-IsIdentified p.ppm_func p h;
  by_ptx = λ p h. ptx_state-IsIdentified p.ptx_func p h;
  by_pim = λ p h. pim_state-IsIdentified p.pim_func p h;
  by_global = λ p h. h;
  by_prt = λ p h. prt_state-IsIdentified p.prt_func p h;
  by_set_sync = λ p h. h;
  by_set_re_root = λ p h. h;
  by_pst = λ p h. pst_state-IsIdentified p.pst_func p h;
  by_tcm = λ bridge p h. tcm_state-IsIdentified bridge p.tcm_func p h;
  by_set_tc_prop = λ i p h. h;
  by_disable = λ p h. h;
  by_clear = λ p h. h;
  by_designated = λ bridge r p h. (h.0, refl);
  by_role = λ bridge r i p h. h;
  by_select = λ p h. h;
  by_tick = λ p h. h;
  by_recv = recv_port-IsIdentified;
  by_register = λ bridge a i m. (refl, refl);
}

-- In every reachable state, whatever malloc hands out: each port's identifier is the one made of
-- its interface's index, and its designated priority carries it.
pub port_id-IsIdentified :
    {old : RstpBridge} {d : Daemon} → Reach AnyMemory old d → All IsIdentified d.ports
port_id-IsIdentified r = Reach-All IsIdentified-invariant r
