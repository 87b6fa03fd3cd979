-- ===== src/Rstp/Safety/Topology.antt =====
-- The topology change machine in every reachable state: fdb_flush is set on its first call and
-- never cleared, so it stays in INACTIVE, and tc_while stays 0.
use lisa_user.Base.{ℕ, ◌≡◌, refl, arith, true, All}
use lisa_user.Rstp.Port.{Port, RstpBridge, PtxState, PstState, PrtState, TcmState}
use lisa_user.Rstp.Fsm.Tree.{Daemon}
use lisa_user.Rstp.Fsm.Ptx.{ptx_state}
use lisa_user.Rstp.Fsm.Prt.{check_global_conditions, prt_state}
use lisa_user.Rstp.Fsm.Pst.{pst_state}
use lisa_user.Rstp.Fsm.Tcm.{tcm_state}
use lisa_user.Rstp.Fsm.Prs.{RootChoice, assign_role}
use lisa_user.Rstp.Daemon.{tick, new_port}
use lisa_user.Rstp.Steps.{alone, Reach, Reach-All}
use lisa_user.Rstp.Safety.Frame.{AnyMemory, View, view, ViewInvariant, to_port}

-- What holds of a port from its registration on.
abbrev pub IsStuck : View → Type 0
IsStuck v =
    (v.tcm_func ≡ TcmState.inactive) × (v.tcm_exec ≡ true → (v.fdb_flush ≡ true) × (v.tc_while ≡ 0))

ptx-IsStuck :
    (s : PtxState) (p : Port) → p.ptx_func ≡ s → IsStuck (view p) → IsStuck (view (ptx_state s p))
unfolding ptx_state
ptx-IsStuck PtxState.idle p e h = h
ptx-IsStuck _ p e h = h

global-IsStuck : (p : Port) → IsStuck (view p) → IsStuck (view (check_global_conditions p))
unfolding check_global_conditions
global-IsStuck p h = h

prt-IsStuck :
    (s : PrtState) (p : Port)
    → p.prt_func ≡ s
    → IsStuck (view p)
    → IsStuck (view (prt_state s (alone p)).entry)
unfolding prt_state
prt-IsStuck PrtState.init_port p e h = h
prt-IsStuck _ p e h = h

pst-IsStuck :
    (s : PstState) (p : Port) → p.pst_func ≡ s → IsStuck (view p) → IsStuck (view (pst_state s p))
unfolding pst_state
pst-IsStuck PstState.learning p e h = h
pst-IsStuck _ p e h = h

tcm-IsStuck :
    (bridge : RstpBridge) (s : TcmState) (p : Port)
    → p.tcm_func ≡ s
    → IsStuck (view p)
    → IsStuck (view (tcm_state bridge s (alone p)).entry)
unfolding tcm_state
tcm-IsStuck bridge TcmState.inactive p e h = ground arith
tcm-IsStuck bridge _ p e h = cc h.0

role-IsStuck :
    (bridge : RstpBridge) (r : RootChoice) (i : ℕ) (p : Port)
    → IsStuck (view p)
    → IsStuck (view (assign_role bridge r i p))
unfolding assign_role
role-IsStuck bridge r i p h = h

tick-IsStuck : (p : Port) → IsStuck (view p) → IsStuck (view (tick p))
unfolding tick
tick-IsStuck p h = (h.0, λ e. ((h.1 e).0, omega (arith, (h.1 e).1)))

IsStuck-invariant : ViewInvariant AnyMemory IsStuck
unfolding new_port
IsStuck-invariant = record {
  by_ptx = ptx-IsStuck;
  by_global = global-IsStuck;
  by_prt = prt-IsStuck;
  by_pst = pst-IsStuck;
  by_tcm = tcm-IsStuck;
  by_disable = λ p h. h;
  by_role = role-IsStuck;
  by_tick = tick-IsStuck;
  by_register = λ bridge a i m. (refl, λ e. cc);
}

-- In every reachable state of the daemon, every port's topology change machine is in INACTIVE,
-- and once it has run, fdb_flush is set and tc_while is 0: no topology change is ever detected or
-- propagated, whatever malloc hands out.
pub topology_change_never_detected :
    {old : RstpBridge} {d : Daemon} → Reach AnyMemory old d → All (λ p. IsStuck (view p)) d.ports
topology_change_never_detected r = Reach-All (to_port IsStuck IsStuck-invariant) r
