-- ===== src/Rstp/Safety/Frame.antt =====
-- An invariant over the fields that the topology, transmit, state and role machines write: the
-- other machines keep it, and a component gives only the cases of the machines that do not.
use lisa_user.Base.{ℕ, ◌≡◌, refl, sym, List, Option, none, some, Bool, if-keep, ◌==◌}
use mathlib.Core.Path.{subst}
use lisa_user.Rstp.Bpdu.{role_disabled}
use lisa_user.Rstp.Port.{
  Port, RstpBridge, PrxState, PpmState, PimState, PtxState, PstState, PrtState, TcmState,
}
use lisa_user.Rstp.Fsm.Prx.{prx, prx_state}
use lisa_user.Rstp.Fsm.Ppm.{ppm, ppm_state}
use lisa_user.Rstp.Fsm.Ptx.{ptx, ptx_state}
use lisa_user.Rstp.Fsm.Pim.{pim, pim_state, rcv_info}
use lisa_user.Rstp.Fsm.Prt.{check_global_conditions, prt, prt_state}
use lisa_user.Rstp.Fsm.Pst.{pst, pst_state}
use lisa_user.Rstp.Fsm.Tcm.{tcm, tcm_state, set_tc_prop}
use lisa_user.Rstp.Fsm.Prs.{RootChoice, set_designated, assign_role}
use lisa_user.Rstp.Daemon.{tick, recv_port, Answers, new_port}
use lisa_user.Rstp.Steps.{PortInvariant, alone}

pub record View : Type 0 where
  pub tcm_func : TcmState
  pub tcm_exec : Bool
  pub fdb_flush : Bool
  pub tc_while : ℕ
  pub ptx_func : PtxState
  pub tx_count : ℕ
  pub pst_func : PstState
  pub pst_exec : Bool
  pub learning : Bool
  pub forwarding : Bool
  pub prt_func : PrtState
  pub prt_exec : Bool
  pub learn : Bool
  pub forward : Bool
  pub role : ℕ
  pub selected_role : ℕ

abbrev pub view : Port → View
view p = record {
  tcm_func = p.tcm_func;
  tcm_exec = p.tcm_exec;
  fdb_flush = p.fdb_flush;
  tc_while = p.tc_while;
  ptx_func = p.ptx_func;
  tx_count = p.tx_count;
  pst_func = p.pst_func;
  pst_exec = p.pst_exec;
  learning = p.learning;
  forwarding = p.forwarding;
  prt_func = p.prt_func;
  prt_exec = p.prt_exec;
  learn = p.learn;
  forward = p.forward;
  role = p.role;
  selected_role = p.selected_role;
}

-- malloc may hand out anything
abbrev pub AnyMemory : Port → Type 0
AnyMemory p = Unit

prx_state-view : (s : PrxState) (p : Port) → view (prx_state s p) ≡ view p
unfolding prx_state
prx_state-view PrxState.discard p = refl
prx_state-view _ p = refl

ppm_state-view : (s : PpmState) (p : Port) → view (ppm_state s p) ≡ view p
unfolding ppm_state
ppm_state-view PpmState.sensing p = refl
ppm_state-view _ p = refl

pim_state-view : (s : PimState) (p : Port) → view (pim_state s p) ≡ view p
unfolding pim_state rcv_info
pim_state-view PimState.current p = refl
pim_state-view _ p = refl

-- The machines that write to the view, each in a given state, and the memory of a new port.
pub record ViewInvariant (Memory : Port → Type 0) (R : View → Type 0) : Type 0 where
  pub by_ptx : (s : PtxState) (p : Port) → p.ptx_func ≡ s → R (view p) → R (view (ptx_state s p))
  pub by_global : (p : Port) → R (view p) → R (view (check_global_conditions p))
  pub by_prt :
      (s : PrtState) (p : Port)
      → p.prt_func ≡ s
      → R (view p)
      → R (view (prt_state s (alone p)).entry)
  pub by_pst : (s : PstState) (p : Port) → p.pst_func ≡ s → R (view p) → R (view (pst_state s p))
  pub by_tcm :
      (bridge : RstpBridge) (s : TcmState) (p : Port)
      → p.tcm_func ≡ s
      → R (view p)
      → R (view (tcm_state bridge s (alone p)).entry)
  pub by_disable : (p : Port) → R (view p) → R (view (record p { selected_role = role_disabled }))
  pub by_role :
      (bridge : RstpBridge) (r : RootChoice) (i : ℕ) (p : Port)
      → R (view p)
      → R (view (assign_role bridge r i p))
  pub by_tick : (p : Port) → R (view p) → R (view (tick p))
  pub by_register :
      (bridge : RstpBridge) (a : Answers) (i : ℕ) → Memory a.memory → R (view (new_port bridge a i))

module _ {Memory : Port → Type 0} (R : View → Type 0) (inv : ViewInvariant Memory R) where
  along : (v w : View) → w ≡ v → R v → R w
  along v w e h = subst R (sym e) h

  recv-view : (answer : Option (List ℕ)) (p : Port) → R (view p) → R (view (recv_port answer p))
  unfolding recv_port
  recv-view none p h = if-keep (λ q. R (view q)) (p.processed_bpdu == 0) _ _ h h
  recv-view (some frame) p h = if-keep (λ q. R (view q)) (p.processed_bpdu == 0) _ _ h h

  pub to_port : PortInvariant Memory (λ p. R (view p))
  unfolding prx ppm ptx pim prt pst tcm set_tc_prop set_designated
  to_port = record {
    by_prx = λ p h. along _ _ (prx_state-view p.prx_func p) h;
    by_ppm = λ p h. along _ _ (ppm_state-view p.ppm_func p) h;
    by_ptx = λ p h. inv.by_ptx p.ptx_func p refl h;
    by_pim = λ p h. along _ _ (pim_state-view p.pim_func p) h;
    by_global = inv.by_global;
    by_prt = λ p h. inv.by_prt p.prt_func p refl h;
    by_set_sync = λ p h. h;
    by_set_re_root = λ p h. h;
    by_pst = λ p h. inv.by_pst p.pst_func p refl h;
    by_tcm = λ bridge p h. inv.by_tcm bridge p.tcm_func p refl h;
    by_set_tc_prop = λ i p h. h;
    by_disable = inv.by_disable;
    by_clear = λ p h. h;
    by_designated = λ bridge r p h. h;
    by_role = inv.by_role;
    by_select = λ p h. h;
    by_tick = inv.by_tick;
    by_recv = recv-view;
    by_register = inv.by_register;
  }
