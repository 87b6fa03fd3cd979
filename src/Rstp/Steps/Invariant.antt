-- ===== src/Rstp/Steps/Invariant.antt =====
-- The interface between the machines and an invariant: a property of one port that each operation
-- on a port keeps holds of every port in every reachable state.
use lisa_user.Base.{
  ℕ, suc, ◌⊎◌, ◌≡◌, List, [], ◌∷◌, ◌++◌, Option, some, true, false, All, All-append,
  All-append_left, All-append_right, All-map, Bool-cases, inl, inr, arith,
}
use mathlib.Core.Path.{subst}
use lisa_user.Rstp.Bpdu.{role_disabled}
use lisa_user.Rstp.Port.{Port, RstpBridge, PrtState, TcmState}
use lisa_user.Rstp.Fsm.Tree.{Daemon, PrsState, Cursor, join, on_entry, on_all}
use lisa_user.Rstp.Fsm.Prx.{prx}
use lisa_user.Rstp.Fsm.Ppm.{ppm}
use lisa_user.Rstp.Fsm.Ptx.{ptx}
use lisa_user.Rstp.Fsm.Pim.{pim}
use lisa_user.Rstp.Fsm.Prt.{check_global_conditions, prt, prt_state, set_sync, set_re_root}
use lisa_user.Rstp.Fsm.Pst.{pst}
use lisa_user.Rstp.Fsm.Tcm.{tcm, tcm_state, set_tc_prop}
use lisa_user.Rstp.Fsm.Prs.{
  RootChoice, own_choice, choose, set_bridge_root, set_designated, assign_role, assign_roles, prs,
  clear_reselect_tree, set_selected_tree, select_roles, any_reselect, prs_state, prs_role_selection,
}
use lisa_user.Rstp.Daemon.{
  Machine, run_machine, tick, pti_loop, recv_port, Answers, new_port, register_interface,
  drop_index, unregister_interface, started,
}
use lisa_user.Rstp.Steps.Defs.{
  Step, Reach, Steps, machine, roles, timer, receive, register, unregister, start, next, here, more,
}

-- a list of this port alone
abbrev pub alone : Port → Cursor
alone p = record { before = []; entry = p; after = [] }

pub record PortInvariant (Memory : Port → Type 0) (Q : Port → Type 0) : Type 0 where
  pub by_prx : (p : Port) → Q p → Q (prx p)
  pub by_ppm : (p : Port) → Q p → Q (ppm p)
  pub by_ptx : (p : Port) → Q p → Q (ptx p)
  pub by_pim : (p : Port) → Q p → Q (pim p)
  pub by_global : (p : Port) → Q p → Q (check_global_conditions p)
  pub by_prt : (p : Port) → Q p → Q (prt (alone p)).entry
  pub by_set_sync : (p : Port) → Q p → Q (set_sync p)
  pub by_set_re_root : (p : Port) → Q p → Q (set_re_root p)
  pub by_pst : (p : Port) → Q p → Q (pst p)
  pub by_tcm : (bridge : RstpBridge) (p : Port) → Q p → Q (tcm bridge (alone p)).entry
  pub by_set_tc_prop : (i : ℕ) (p : Port) → Q p → Q (set_tc_prop i p)
  pub by_disable : (p : Port) → Q p → Q (record p { selected_role = role_disabled })
  pub by_clear : (p : Port) → Q p → Q (record p { reselect = false })
  pub by_designated :
      (bridge : RstpBridge) (r : RootChoice) (p : Port) → Q p → Q (set_designated bridge r p)
  pub by_role :
      (bridge : RstpBridge) (r : RootChoice) (i : ℕ) (p : Port) → Q p → Q (assign_role bridge r i p)
  pub by_select : (p : Port) → Q p → Q (record p { selected = true })
  pub by_tick : (p : Port) → Q p → Q (tick p)
  pub by_recv : (answer : Option (List ℕ)) (p : Port) → Q p → Q (recv_port answer p)
  pub by_register :
      (bridge : RstpBridge) (a : Answers) (i : ℕ) → Memory a.memory → Q (new_port bridge a i)

-- a property at every place of the loop
abbrev Everywhere : (Port → Type 0) → Cursor → Type 0
Everywhere Q c = All Q c.before × Q c.entry × All Q c.after

-- A registration changes nothing, or adds the new port at the end.
register_interface-cases :
    (a : Answers) (i : ℕ) (d : Daemon) {e : Daemon}
    → register_interface a i d ≡ some e
    → (e ≡ d) ⊎ (e ≡ record d { ports = d.ports ++ (new_port d.bridge a i ∷ []) })
unfolding register_interface
register_interface-cases a i d eq = ground arith

module _ {Memory : Port → Type 0} {Q : Port → Type 0} (inv : PortInvariant Memory Q) where
  Everywhere-join : (c : Cursor) → Everywhere Q c → All Q (join c)
  Everywhere-join c h = All-append Q c.before (c.entry ∷ c.after) h.0 (h.1, h.2)

  Everywhere-split :
      (ports : List Port) (c : Cursor) → ports ≡ join c → All Q ports → Everywhere Q c
  Everywhere-split ports c e h =
      let k : All Q (join c) = subst (All Q) e h in
      let r : All Q (c.entry ∷ c.after) = All-append_right Q c.before (c.entry ∷ c.after) k in
      (All-append_left Q c.before (c.entry ∷ c.after) k, r.0, r.1)

  sweep-Everywhere :
      (f g : Port → Port) (keep : (p : Port) → Q p → Q (f p)) (c : Cursor)
      → Everywhere Q c
      → Q (g (f c.entry))
      → Everywhere Q (on_entry g (on_all f c))
  sweep-Everywhere f g keep c h own =
      (All-map Q f keep c.before h.0, own, All-map Q f keep c.after h.2)

  prt_state-Everywhere :
      (s : PrtState) (c : Cursor)
      → Q (prt_state s (alone c.entry)).entry
      → Everywhere Q c
      → Everywhere Q (prt_state s c)
  unfolding prt_state
  prt_state-Everywhere PrtState.root_proposed c own h = (
    All-map Q set_sync inv.by_set_sync c.before h.0,
    own,
    All-map Q set_sync inv.by_set_sync c.after h.2,
  )
  prt_state-Everywhere PrtState.alternate_proposed c own h = (
    All-map Q set_sync inv.by_set_sync c.before h.0,
    own,
    All-map Q set_sync inv.by_set_sync c.after h.2,
  )
  prt_state-Everywhere PrtState.reroot c own h = (
    All-map Q set_re_root inv.by_set_re_root c.before h.0,
    own,
    All-map Q set_re_root inv.by_set_re_root c.after h.2,
  )
  prt_state-Everywhere _ c own h = (h.0, own, h.2)

  prt-Everywhere : (c : Cursor) → Everywhere Q c → Everywhere Q (prt c)
  unfolding prt
  prt-Everywhere c h = prt_state-Everywhere c.entry.prt_func c (inv.by_prt c.entry h.1) h

  tcm_state-Everywhere :
      (bridge : RstpBridge) (s : TcmState) (c : Cursor)
      → Q (tcm_state bridge s (alone c.entry)).entry
      → Everywhere Q c
      → Everywhere Q (tcm_state bridge s c)
  unfolding tcm_state
  tcm_state-Everywhere bridge TcmState.detected c own h = (
    All-map Q _ (inv.by_set_tc_prop _) c.before h.0,
    own,
    All-map Q _ (inv.by_set_tc_prop _) c.after h.2,
  )
  tcm_state-Everywhere bridge TcmState.notified_tc c own h = (
    All-map Q _ (inv.by_set_tc_prop _) c.before h.0,
    own,
    All-map Q _ (inv.by_set_tc_prop _) c.after h.2,
  )
  tcm_state-Everywhere bridge _ c own h = (h.0, own, h.2)

  tcm-Everywhere : (bridge : RstpBridge) (c : Cursor) → Everywhere Q c → Everywhere Q (tcm bridge c)
  unfolding tcm
  tcm-Everywhere bridge c h =
      tcm_state-Everywhere bridge c.entry.tcm_func c (inv.by_tcm bridge c.entry h.1) h

  run_machine-Everywhere :
      (bridge : RstpBridge) (m : Machine) (c : Cursor)
      → Everywhere Q c
      → Everywhere Q (run_machine bridge m c)
  unfolding run_machine
  run_machine-Everywhere bridge Machine.prx_machine c h = (h.0, inv.by_prx c.entry h.1, h.2)
  run_machine-Everywhere bridge Machine.ppm_machine c h = (h.0, inv.by_ppm c.entry h.1, h.2)
  run_machine-Everywhere bridge Machine.ptx_machine c h = (h.0, inv.by_ptx c.entry h.1, h.2)
  run_machine-Everywhere bridge Machine.pim_machine c h = (h.0, inv.by_pim c.entry h.1, h.2)
  run_machine-Everywhere bridge Machine.global_conditions c h =
      (h.0, inv.by_global c.entry h.1, h.2)
  run_machine-Everywhere bridge Machine.prt_machine c h = prt-Everywhere c h
  run_machine-Everywhere bridge Machine.pst_machine c h = (h.0, inv.by_pst c.entry h.1, h.2)
  run_machine-Everywhere bridge Machine.tcm_machine c h = tcm-Everywhere bridge c h

  assign_roles-All :
      (bridge : RstpBridge) (r : RootChoice) (i : ℕ) (ports : List Port)
      → All Q ports
      → All Q (assign_roles bridge r i ports)
  unfolding assign_roles
  assign_roles-All bridge r i [] h = tt
  assign_roles-All bridge r i (p ∷ ps) h =
      (inv.by_role bridge r i p h.0, assign_roles-All bridge r (suc i) ps h.1)

  clear_reselect_tree-All : (ports : List Port) → All Q ports → All Q (clear_reselect_tree ports)
  unfolding clear_reselect_tree
  clear_reselect_tree-All ports h = All-map Q _ inv.by_clear ports h

  set_selected_tree-All : (ports : List Port) → All Q ports → All Q (set_selected_tree ports)
  unfolding set_selected_tree
  set_selected_tree-All ports h = elim (Bool-cases (any_reselect ports)) [
    | inl some_left ↦ rw some_left h
    | inr none_left ↦ rw none_left (All-map Q _ inv.by_select ports h)
  ]

  select_roles-All : (d : Daemon) → All Q d.ports → All Q (select_roles d).ports
  unfolding select_roles
  select_roles-All d h =
      let r = choose d.bridge 0 (clear_reselect_tree d.ports) (own_choice d.bridge) in
      let bridge = set_bridge_root r d.bridge in
      set_selected_tree-All _ (
        assign_roles-All bridge r 0 _ (
          All-map Q (set_designated bridge r) (inv.by_designated bridge r) _
            (clear_reselect_tree-All d.ports h)))

  role_selection-All : (d : Daemon) → All Q d.ports → All Q (prs_role_selection d).ports
  unfolding prs_role_selection
  role_selection-All d h = ground (arith, select_roles-All d h)

  prs_state-All : (s : PrsState) (d : Daemon) → All Q d.ports → All Q (prs_state s d).ports
  unfolding prs_state
  prs_state-All PrsState.init_bridge d h = All-map Q _ inv.by_disable d.ports h
  prs_state-All PrsState.role_selection d h = role_selection-All d h

  drop_index-All : (i : ℕ) (ports : List Port) → All Q ports → All Q (drop_index i ports)
  unfolding drop_index
  drop_index-All i [] h = tt
  drop_index-All i (p ∷ ps) h = ground (arith, drop_index-All i ps h.1)

  register-All :
      (a : Answers) (i : ℕ) (d : Daemon) {e : Daemon}
      → Memory a.memory
      → register_interface a i d ≡ some e
      → All Q d.ports
      → All Q e.ports
  register-All a i d {e} m eq h = elim (register_interface-cases a i d eq) [
    | inl same ↦ rw same h
    | inr added ↦
        rw added
          (All-append Q d.ports (new_port d.bridge a i ∷ []) h (inv.by_register d.bridge a i m, tt))
  ]

  -- Every step keeps the property at every port.
  pub Step-All : {d e : Daemon} → Step Memory d e → All Q d.ports → All Q e.ports
  unfolding prs pti_loop unregister_interface
  Step-All {d} (machine m c at) h =
      let k = run_machine-Everywhere d.bridge m c (Everywhere-split d.ports c at h) in
      Everywhere-join (run_machine d.bridge m c) k
  Step-All {d} roles h = prs_state-All d.prs_func d h
  Step-All {d} timer h = All-map Q tick inv.by_tick d.ports h
  Step-All {d} (receive answer c at) h =
      let k = Everywhere-split d.ports c at h in
      Everywhere-join (on_entry (recv_port answer) c) (k.0, inv.by_recv answer c.entry k.1, k.2)
  Step-All {d} (register a i m eq) h = register-All a i d m eq h
  Step-All {d} (unregister i) h = drop_index-All i d.ports h

  pub Steps-All : {d e : Daemon} → Steps Memory d e → All Q d.ports → All Q e.ports
  Steps-All here h = h
  Steps-All (more before step) h = Step-All step (Steps-All before h)

  pub Reach-All : {old : RstpBridge} {d : Daemon} → Reach Memory old d → All Q d.ports
  unfolding started
  Reach-All start = tt
  Reach-All (next before step) = Step-All step (Reach-All before)
