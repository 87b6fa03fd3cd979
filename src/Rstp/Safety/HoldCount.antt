-- ===== src/Rstp/Safety/HoldCount.antt =====
-- The transmit hold count, TxHoldCount of the standard, 6 here: a port sends only while fewer than
-- 6 frames are counted, and the timer signal takes one off a second.
use lisa_user.Base.{ℕ, ◌≡◌, arith, All, ◌≤◌, ◌<◌, ◌-◌}
use lisa_user.Rstp.Port.{Port, RstpBridge, PtxState, PstState, PrtState, TcmState}
use lisa_user.Rstp.Fsm.Tree.{Daemon}
use lisa_user.Rstp.Fsm.Ptx.{ptx_state}
use lisa_user.Rstp.Fsm.Prt.{check_global_conditions, prt_state}
use lisa_user.Rstp.Fsm.Pst.{pst_state}
use lisa_user.Rstp.Fsm.Tcm.{tcm_state}
use lisa_user.Rstp.Fsm.Prs.{RootChoice, assign_role}
use lisa_user.Rstp.Daemon.{tick, new_port}
use lisa_user.Rstp.Steps.{alone, Reach, Reach-All}
use lisa_user.Rstp.Safety.Frame.{AnyMemory, View, view, ViewInvariant, to_port}

-- The counter is set by the first state of the machine, and bounded from then on.
abbrev pub HoldsBack : PtxState → ℕ → Type 0
HoldsBack PtxState.transmit_init n = Unit
HoldsBack PtxState.idle n = n ≤ 6
HoldsBack PtxState.transmit_periodic n = n ≤ 6
HoldsBack PtxState.transmit_config n = n < 6
HoldsBack PtxState.transmit_tcn n = n < 6
HoldsBack PtxState.transmit_rstp n = n < 6

abbrev pub IsLimited : View → Type 0
IsLimited v = HoldsBack v.ptx_func v.tx_count

HoldsBack-tick : (s : PtxState) (n : ℕ) → HoldsBack s n → HoldsBack s (n - 1)
HoldsBack-tick PtxState.transmit_init n h = tt
HoldsBack-tick _ n h = omega arith

ptx-IsLimited :
    (s : PtxState) (p : Port)
    → p.ptx_func ≡ s
    → IsLimited (view p)
    → IsLimited (view (ptx_state s p))
unfolding ptx_state
ptx-IsLimited PtxState.transmit_init p e h = omega arith
ptx-IsLimited PtxState.idle p e h = ground arith
ptx-IsLimited PtxState.transmit_periodic p e h = rw e at h
ptx-IsLimited _ p e h = let k = rw e at h in omega arith

global-IsLimited : (p : Port) → IsLimited (view p) → IsLimited (view (check_global_conditions p))
unfolding check_global_conditions
global-IsLimited p h = h

prt-IsLimited :
    (s : PrtState) (p : Port)
    → p.prt_func ≡ s
    → IsLimited (view p)
    → IsLimited (view (prt_state s (alone p)).entry)
unfolding prt_state
prt-IsLimited PrtState.init_port p e h = h
prt-IsLimited _ p e h = h

pst-IsLimited :
    (s : PstState) (p : Port)
    → p.pst_func ≡ s
    → IsLimited (view p)
    → IsLimited (view (pst_state s p))
unfolding pst_state
pst-IsLimited PstState.learning p e h = h
pst-IsLimited _ p e h = h

tcm-IsLimited :
    (bridge : RstpBridge) (s : TcmState) (p : Port)
    → p.tcm_func ≡ s
    → IsLimited (view p)
    → IsLimited (view (tcm_state bridge s (alone p)).entry)
unfolding tcm_state
tcm-IsLimited bridge TcmState.active p e h = h
tcm-IsLimited bridge _ p e h = h

role-IsLimited :
    (bridge : RstpBridge) (r : RootChoice) (i : ℕ) (p : Port)
    → IsLimited (view p)
    → IsLimited (view (assign_role bridge r i p))
unfolding assign_role
role-IsLimited bridge r i p h = h

tick-IsLimited : (p : Port) → IsLimited (view p) → IsLimited (view (tick p))
unfolding tick
tick-IsLimited p h = HoldsBack-tick p.ptx_func p.tx_count h

IsLimited-invariant : ViewInvariant AnyMemory IsLimited
unfolding new_port
IsLimited-invariant = record {
  by_ptx = ptx-IsLimited;
  by_global = global-IsLimited;
  by_prt = prt-IsLimited;
  by_pst = pst-IsLimited;
  by_tcm = tcm-IsLimited;
  by_disable = λ p h. h;
  by_role = role-IsLimited;
  by_tick = tick-IsLimited;
  by_register = λ bridge a i m. tt;
}

-- In every reachable state, once a port's transmit machine has left its first state, tx_count is
-- at most 6, and below 6 whenever the machine is about to send.
pub tx_count-IsLimited :
    {old : RstpBridge} {d : Daemon} → Reach AnyMemory old d → All (λ p. IsLimited (view p)) d.ports
tx_count-IsLimited r = Reach-All (to_port IsLimited IsLimited-invariant) r
