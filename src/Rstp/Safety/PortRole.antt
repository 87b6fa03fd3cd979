-- ===== src/Rstp/Safety/PortRole.antt =====
-- The port role machine in every reachable state: the role that a port has in the states for root and
-- designated ports, and learn and forward in those for all others.
use lisa_user.Base.{
  ℕ, ◌≡◌, refl, arith, true, false, All, ◌⊎◌, Bool, first, inl, inr, if-keep, ladder3, ladder6,
}
use lisa_user.Rstp.Bpdu.{role_root, role_designated}
use lisa_user.Rstp.Port.{Port, RstpBridge, PtxState, PstState, PrtState, TcmState}
use lisa_user.Rstp.Fsm.Tree.{Daemon}
use lisa_user.Rstp.Fsm.Ptx.{ptx_state}
use lisa_user.Rstp.Fsm.Prt.{check_global_conditions, prt_state}
use lisa_user.Rstp.Fsm.Pst.{pst_state}
use lisa_user.Rstp.Fsm.Tcm.{tcm_state}
use lisa_user.Rstp.Fsm.Prs.{RootChoice, assign_role}
use lisa_user.Rstp.Daemon.{tick, new_port}
use lisa_user.Rstp.Steps.{alone, Reach, Reach-All}
use lisa_user.Rstp.Safety.Frame.{View, view, AnyMemory, ViewInvariant, to_port}

abbrev AreClear : Bool → Bool → Type 0
AreClear learn forward = (learn ≡ false) × (forward ≡ false)

-- What each state of the machine tells of a port's role and flags. Nothing is said of the states that
-- are entered from anywhere before their first call.
abbrev pub Fits : PrtState → Bool → ℕ → Bool → Bool → Type 0
Fits PrtState.root_port true role learn forward = role ≡ role_root
Fits PrtState.designated_port true role learn forward = role ≡ role_designated
Fits PrtState.root_proposed exec role learn forward = role ≡ role_root
Fits PrtState.root_agreed exec role learn forward = role ≡ role_root
Fits PrtState.reroot exec role learn forward = role ≡ role_root
Fits PrtState.root_forward exec role learn forward = role ≡ role_root
Fits PrtState.root_learn exec role learn forward = role ≡ role_root
Fits PrtState.rerooted exec role learn forward = role ≡ role_root
Fits PrtState.designated_propose exec role learn forward = role ≡ role_designated
Fits PrtState.designated_synced exec role learn forward = role ≡ role_designated
Fits PrtState.designated_retired exec role learn forward = role ≡ role_designated
Fits PrtState.designated_forward exec role learn forward = role ≡ role_designated
Fits PrtState.designated_learn exec role learn forward = role ≡ role_designated
Fits PrtState.designated_discard exec role learn forward = role ≡ role_designated
Fits PrtState.disable_port true role learn forward = AreClear learn forward
Fits PrtState.disabled_port exec role learn forward = AreClear learn forward
Fits PrtState.block_port true role learn forward = AreClear learn forward
Fits PrtState.alternate_port exec role learn forward = AreClear learn forward
Fits PrtState.alternate_proposed exec role learn forward = AreClear learn forward
Fits PrtState.alternate_agreed exec role learn forward = AreClear learn forward
Fits PrtState.backup_port exec role learn forward = AreClear learn forward
Fits _ exec role learn forward = Unit

abbrev pub PassesByRole : View → Type 0
PassesByRole v = Fits v.prt_func v.prt_exec v.role v.learn v.forward

module _ (learn forward : Bool) where
  -- A state that was executed keeps the role that its entry actions gave.
  root_entered :
      (s : PrtState) (exec : Bool) (role : ℕ)
      → s ≡ PrtState.root_port
      → Fits s exec role learn forward
      → first exec role_root role ≡ role_root
  root_entered s true role e h = rw e at h
  root_entered s false role e h = refl

  designated_entered :
      (s : PrtState) (exec : Bool) (role : ℕ)
      → s ≡ PrtState.designated_port
      → Fits s exec role learn forward
      → first exec role_designated role ≡ role_designated
  designated_entered s true role e h = rw e at h
  designated_entered s false role e h = refl

  root-Fits :
      (s : PrtState) (exec : Bool) (role : ℕ)
      → s ≡ PrtState.root_port
      → role ≡ role_root
      → Fits s exec role learn forward
  root-Fits s true role e h = rw e h
  root-Fits s false role e h = rw e tt

  designated-Fits :
      (s : PrtState) (role : ℕ)
      → s ≡ PrtState.designated_port
      → role ≡ role_designated
      → Fits s true role learn forward
  designated-Fits s role e h = rw e h

  alternate_clear :
      (s : PrtState) (exec : Bool) (role : ℕ)
      → s ≡ PrtState.alternate_port
      → Fits s exec role learn forward
      → AreClear learn forward
  alternate_clear s exec role e h = rw e at h

  alternate-Fits :
      (s : PrtState) (role : ℕ)
      → s ≡ PrtState.alternate_port
      → AreClear learn forward
      → Fits s true role learn forward
  alternate-Fits s role e h = rw e h

  closed_entered :
      (s : PrtState) (exec : Bool) (role : ℕ)
      → (s ≡ PrtState.block_port) ⊎ (s ≡ PrtState.disable_port)
      → Fits s exec role learn forward
      → AreClear (first exec false learn) (first exec false forward)
  closed_entered s true role (inl e) h = rw e at h
  closed_entered s true role (inr e) h = rw e at h
  closed_entered s false role e h = (refl, refl)

  closed-Fits :
      (s : PrtState) (role : ℕ)
      → (s ≡ PrtState.block_port) ⊎ (s ≡ PrtState.disable_port)
      → AreClear learn forward
      → Fits s true role learn forward
  closed-Fits s role (inl e) h = rw e h
  closed-Fits s role (inr e) h = rw e h

  disabled_clear :
      (s : PrtState) (exec again : Bool) (role : ℕ)
      → s ≡ PrtState.disabled_port
      → Fits s exec role learn forward
      → Fits s again role learn forward
  disabled_clear s exec again role e h = rw e (rw e at h)

ptx-PassesByRole :
    (s : PtxState) (p : Port)
    → p.ptx_func ≡ s
    → PassesByRole (view p)
    → PassesByRole (view (ptx_state s p))
unfolding ptx_state
ptx-PassesByRole PtxState.idle p e h = h
ptx-PassesByRole _ p e h = h

global-PassesByRole :
    (p : Port) → PassesByRole (view p) → PassesByRole (view (check_global_conditions p))
unfolding check_global_conditions
global-PassesByRole p h = ground arith

prt-PassesByRole :
    (s : PrtState) (p : Port)
    → p.prt_func ≡ s
    → PassesByRole (view p)
    → PassesByRole (view (prt_state s (alone p)).entry)
unfolding prt_state
prt-PassesByRole PrtState.init_port p e h = tt
prt-PassesByRole PrtState.disable_port p e h =
    let P : PrtState × Bool → Type 0 = λ n.
      Fits n.0 n.1 (first p.prt_exec p.selected_role p.role) (first p.prt_exec false p.learn)
        (first p.prt_exec false p.forward) in
    let clear = closed_entered p.learn p.forward p.prt_func p.prt_exec p.role (inr e) h in
    if-keep P _ (PrtState.disabled_port, false) (p.prt_func, true) clear
      (closed-Fits _ _ p.prt_func _ (inr e) clear)
prt-PassesByRole PrtState.disabled_port p e h =
    disabled_clear p.learn p.forward p.prt_func p.prt_exec _ p.role e h
prt-PassesByRole PrtState.block_port p e h =
    let P : PrtState × Bool → Type 0 = λ n.
      Fits n.0 n.1 (first p.prt_exec p.selected_role p.role) (first p.prt_exec false p.learn)
        (first p.prt_exec false p.forward) in
    let clear = closed_entered p.learn p.forward p.prt_func p.prt_exec p.role (inl e) h in
    if-keep P _ (PrtState.alternate_port, false) (p.prt_func, true) clear
      (closed-Fits _ _ p.prt_func _ (inl e) clear)
prt-PassesByRole PrtState.root_port p e h =
    let r = root_entered p.learn p.forward p.prt_func p.prt_exec p.role e h in
    let P : PrtState × Bool → Type 0 =
      λ n. Fits n.0 n.1 (first p.prt_exec role_root p.role) p.learn p.forward in
    ladder6 P _ _ _ _ _ _ (PrtState.root_proposed, false) (PrtState.root_agreed, false)
      (PrtState.reroot, false) (PrtState.root_forward, false) (PrtState.root_learn, false)
      (PrtState.rerooted, false) (p.prt_func, _) r r r r r r
      (root-Fits p.learn p.forward p.prt_func _ _ e r)
prt-PassesByRole PrtState.designated_port p e h =
    let r = designated_entered p.learn p.forward p.prt_func p.prt_exec p.role e h in
    let P : PrtState × Bool → Type 0 =
      λ n. Fits n.0 n.1 (first p.prt_exec role_designated p.role) p.learn p.forward in
    ladder6 P _ _ _ _ _ _ (PrtState.designated_propose, false) (PrtState.designated_synced, false)
      (PrtState.designated_retired, false) (PrtState.designated_forward, false)
      (PrtState.designated_learn, false) (PrtState.designated_discard, false) (p.prt_func, true) r r
      r r r r (designated-Fits p.learn p.forward p.prt_func _ e r)
prt-PassesByRole PrtState.alternate_port p e h =
    let clear = alternate_clear p.learn p.forward p.prt_func p.prt_exec p.role e h in
    let P : PrtState × Bool → Type 0 = λ n. Fits n.0 n.1 p.role p.learn p.forward in
    ladder3 P _ _ _ (PrtState.alternate_proposed, false) (PrtState.alternate_agreed, false)
      (PrtState.backup_port, false) (p.prt_func, true) clear clear clear
      (alternate-Fits p.learn p.forward p.prt_func p.role e clear)
prt-PassesByRole _ p e h = ground arith

pst-PassesByRole :
    (s : PstState) (p : Port)
    → p.pst_func ≡ s
    → PassesByRole (view p)
    → PassesByRole (view (pst_state s p))
unfolding pst_state
pst-PassesByRole PstState.learning p e h = h
pst-PassesByRole _ p e h = h

tcm-PassesByRole :
    (bridge : RstpBridge) (s : TcmState) (p : Port)
    → p.tcm_func ≡ s
    → PassesByRole (view p)
    → PassesByRole (view (tcm_state bridge s (alone p)).entry)
unfolding tcm_state
tcm-PassesByRole bridge TcmState.active p e h = h
tcm-PassesByRole bridge _ p e h = h

role-PassesByRole :
    (bridge : RstpBridge) (r : RootChoice) (i : ℕ) (p : Port)
    → PassesByRole (view p)
    → PassesByRole (view (assign_role bridge r i p))
unfolding assign_role
role-PassesByRole bridge r i p h = h

tick-PassesByRole : (p : Port) → PassesByRole (view p) → PassesByRole (view (tick p))
unfolding tick
tick-PassesByRole p h = h

PassesByRole-invariant : ViewInvariant AnyMemory PassesByRole
unfolding new_port
PassesByRole-invariant = record {
  by_ptx = ptx-PassesByRole;
  by_global = global-PassesByRole;
  by_prt = prt-PassesByRole;
  by_pst = pst-PassesByRole;
  by_tcm = tcm-PassesByRole;
  by_disable = λ p h. h;
  by_role = role-PassesByRole;
  by_tick = tick-PassesByRole;
  by_register = λ bridge a i m. tt;
}

-- In every reachable state, whatever is in the memory that malloc hands out: in the states for a root
-- port the role is root and in those for a designated port it is designated, once ROOT_PORT and
-- DESIGNATED_PORT have been executed; in the states for a disabled, blocked, alternate or backup
-- port learn and forward are clear, once DISABLE_PORT and BLOCK_PORT have been executed.
pub learn_forward_by_role :
    {old : RstpBridge} {d : Daemon}
    → Reach AnyMemory old d
    → All (λ p. PassesByRole (view p)) d.ports
learn_forward_by_role r = Reach-All (to_port PassesByRole PassesByRole-invariant) r
