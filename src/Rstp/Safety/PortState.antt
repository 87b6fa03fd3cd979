-- ===== src/Rstp/Safety/PortState.antt =====
-- The port state machine in every reachable state: what learning and forwarding are in each of its
-- states.
use lisa_user.Base.{ℕ, ◌≡◌, arith, true, false, All, Bool}
use lisa_user.Rstp.Port.{Port, RstpBridge, PtxState, PstState, PrtState, TcmState}
use lisa_user.Rstp.Fsm.Tree.{Daemon}
use lisa_user.Rstp.Fsm.Ptx.{ptx_state}
use lisa_user.Rstp.Fsm.Prt.{check_global_conditions, prt_state}
use lisa_user.Rstp.Fsm.Pst.{pst_state}
use lisa_user.Rstp.Fsm.Tcm.{tcm_state}
use lisa_user.Rstp.Fsm.Prs.{RootChoice, assign_role}
use lisa_user.Rstp.Daemon.{tick, new_port}
use lisa_user.Rstp.Steps.{alone, Reach, Reach-All}
use lisa_user.Rstp.Safety.Frame.{View, view, AnyMemory, ViewInvariant, to_port}

-- Nothing is said of DISCARDING before its first call, which BEGIN and every other state lead to.
abbrev pub Shows : PstState → Bool → Bool → Bool → Type 0
Shows PstState.discarding true learning forwarding = (learning ≡ false) × (forwarding ≡ false)
Shows PstState.discarding false learning forwarding = Unit
Shows PstState.learning true learning forwarding = (learning ≡ true) × (forwarding ≡ false)
Shows PstState.learning false learning forwarding = (learning ≡ false) × (forwarding ≡ false)
Shows PstState.forwarding true learning forwarding = (learning ≡ true) × (forwarding ≡ true)
Shows PstState.forwarding false learning forwarding = (learning ≡ true) × (forwarding ≡ false)

abbrev pub ShowsState : View → Type 0
ShowsState v = Shows v.pst_func v.pst_exec v.learning v.forwarding

ptx-ShowsState :
    (s : PtxState) (p : Port)
    → p.ptx_func ≡ s
    → ShowsState (view p)
    → ShowsState (view (ptx_state s p))
unfolding ptx_state
ptx-ShowsState PtxState.idle p e h = h
ptx-ShowsState _ p e h = h

global-ShowsState : (p : Port) → ShowsState (view p) → ShowsState (view (check_global_conditions p))
unfolding check_global_conditions
global-ShowsState p h = h

prt-ShowsState :
    (s : PrtState) (p : Port)
    → p.prt_func ≡ s
    → ShowsState (view p)
    → ShowsState (view (prt_state s (alone p)).entry)
unfolding prt_state
prt-ShowsState PrtState.init_port p e h = h
prt-ShowsState _ p e h = h

pst-ShowsState :
    (s : PstState) (p : Port)
    → p.pst_func ≡ s
    → ShowsState (view p)
    → ShowsState (view (pst_state s p))
unfolding pst_state
pst-ShowsState PstState.discarding p e h = ground arith
pst-ShowsState _ p e h = ground arith

tcm-ShowsState :
    (bridge : RstpBridge) (s : TcmState) (p : Port)
    → p.tcm_func ≡ s
    → ShowsState (view p)
    → ShowsState (view (tcm_state bridge s (alone p)).entry)
unfolding tcm_state
tcm-ShowsState bridge TcmState.active p e h = h
tcm-ShowsState bridge _ p e h = h

role-ShowsState :
    (bridge : RstpBridge) (r : RootChoice) (i : ℕ) (p : Port)
    → ShowsState (view p)
    → ShowsState (view (assign_role bridge r i p))
unfolding assign_role
role-ShowsState bridge r i p h = h

tick-ShowsState : (p : Port) → ShowsState (view p) → ShowsState (view (tick p))
unfolding tick
tick-ShowsState p h = h

ShowsState-invariant : ViewInvariant AnyMemory ShowsState
unfolding new_port
ShowsState-invariant = record {
  by_ptx = ptx-ShowsState;
  by_global = global-ShowsState;
  by_prt = prt-ShowsState;
  by_pst = pst-ShowsState;
  by_tcm = tcm-ShowsState;
  by_disable = λ p h. h;
  by_role = role-ShowsState;
  by_tick = tick-ShowsState;
  by_register = λ bridge a i m. tt;
}

-- In every reachable state, whatever is in the memory that malloc hands out: once executed, DISCARDING
-- neither learns nor forwards, LEARNING learns and does not forward, and FORWARDING does both;
-- LEARNING is entered with both flags clear and FORWARDING with learning alone.
pub port_state_shown :
    {old : RstpBridge} {d : Daemon} → Reach AnyMemory old d → All (λ p. ShowsState (view p)) d.ports
port_state_shown r = Reach-All (to_port ShowsState ShowsState-invariant) r
