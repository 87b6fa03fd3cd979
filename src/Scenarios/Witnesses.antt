-- ===== src/Scenarios/Witnesses.antt =====
-- Each result, applied to a concrete daemon, port or message.
use lisa_user.Base.{ℕ, take, ◌≡◌, refl, arith, some, All, [], ◌∷◌}
use lisa_user.Vector.{negative, memcmp, vec_compare4}
use lisa_user.Rstp.Port.{Port, PimState}
use lisa_user.Rstp.Fsm.Pim.{rcv_info, pim, pim_superior_designated}
use lisa_user.Rstp.Fsm.Pim.Laws.{ticks, information_ages}
use lisa_user.Rstp.Fsm.Prs.{
  own_choice, choose, path_priority, assign_role, consider, is_candidate, improves, updt_roles_tree,
}
use lisa_user.Rstp.Fsm.Prs.Best.{AtMost, IsBeaten, ComesFrom, choose_best}
use lisa_user.Rstp.Fsm.Prs.Roles.{one_root_port}
use lisa_user.Rstp.Fsm.Prs.Cost.{lowest_cost_byte_decides}
use lisa_user.Rstp.Daemon.Registration.{register_interface-unregister_interface}
use lisa_user.Rstp.Daemon.{
  register_interface, unregister_interface, is_registered, fsm_run, recv_port, overlay, started,
  init_bridge,
}
use lisa_user.Rstp.Steps.{Reach, start, next, register, fsm_run-Reach}
use lisa_user.Rstp.Fsm.Ptx.{rstp_frame}
use lisa_user.Rstp.Fsm.Prx.{prx}
use lisa_user.Rstp.Handover.{second_frame_overwritten}
use lisa_user.Rstp.Safety.Frame.{view}
use lisa_user.Rstp.Safety.Topology.{IsStuck, topology_change_never_detected}
use lisa_user.Rstp.Safety.HoldCount.{IsLimited, tx_count-IsLimited}
use lisa_user.Rstp.Safety.PortState.{ShowsState, port_state_shown}
use lisa_user.Rstp.Safety.PortRole.{PassesByRole, learn_forward_by_role}
use lisa_user.Rstp.Wire.{rstp_bpdu_received}
use lisa_user.Scenarios.{
  vector_of_cost, blank, globals, answers, with_port, sender, ready, informed, candidate, electing,
  elected, receiving,
}

registered : register_interface answers 7 (started globals) ≡ some with_port
unfolding register_interface started
registered = refl

-- The daemon registers the interface, and its main loop goes round once.
one_round : {Memory : Port → Type 0} → Memory blank → Reach Memory globals (fsm_run with_port)
one_round m = fsm_run-Reach (next start (register answers 7 m registered))

topology_change_never_detected_example : All (λ p. IsStuck (view p)) (fsm_run with_port).ports
topology_change_never_detected_example = topology_change_never_detected (one_round tt)

tx_count-IsLimited_example : All (λ p. IsLimited (view p)) (fsm_run with_port).ports
tx_count-IsLimited_example = tx_count-IsLimited (one_round tt)

port_state_shown_example : All (λ p. ShowsState (view p)) (fsm_run with_port).ports
port_state_shown_example = port_state_shown (one_round tt)

learn_forward_by_role_example : All (λ p. PassesByRole (view p)) (fsm_run with_port).ports
learn_forward_by_role_example = learn_forward_by_role (one_round tt)

choose_best_example :
    let best =
      choose (init_bridge globals) 0 (blank ∷ candidate ∷ []) (own_choice (init_bridge globals)) in
    AtMost best.root_priority (own_choice (init_bridge globals)).root_priority
    × All (IsBeaten (init_bridge globals) best.root_priority) (blank ∷ candidate ∷ [])
    × ComesFrom
        (init_bridge globals)
        0
        (blank ∷ candidate ∷ [])
        (own_choice (init_bridge globals))
        best
choose_best_example = choose_best (init_bridge globals) (blank ∷ candidate ∷ [])

one_root_port_example : ◌≡◌ {A = ℕ} 0 0
unfolding updt_roles_tree started init_bridge path_priority assign_role consider is_candidate memcmp
    improves
one_root_port_example =
    one_root_port electing 0 0 elected elected refl refl (omega arith) (omega arith) refl refl

lowest_cost_byte_decides_example :
    vec_compare4 (path_priority (vector_of_cost 1 2)) (path_priority (vector_of_cost 2 0))
    ≡ negative
lowest_cost_byte_decides_example =
    lowest_cost_byte_decides (vector_of_cost 1 2) (vector_of_cost 2 0) refl (omega arith)

rstp_bpdu_received_example :
    let r = (rcv_info (recv_port (some (rstp_frame sender)) ready)).0 in
    (r.msg_priority ≡ sender.designated_priority) × (r.msg_times ≡ sender.designated_times)
rstp_bpdu_received_example =
    rstp_bpdu_received sender ready (omega arith)
      (omega arith, omega arith, omega arith, omega arith)

information_ages_example :
    (pim (ticks 6 (pim_superior_designated informed))).pim_func ≡ PimState.aged
information_ages_example = information_ages informed 6 refl

register_interface-unregister_interface_example : unregister_interface 7 with_port ≡ started globals
unfolding started is_registered
register_interface-unregister_interface_example =
    register_interface-unregister_interface answers 7 (started globals) with_port refl registered

second_frame_overwritten_example :
    (recv_port (some (1 ∷ [])) (prx receiving)).buf ≡ overlay (take 60 (1 ∷ [])) receiving.buf
second_frame_overwritten_example =
    second_frame_overwritten receiving (1 ∷ []) refl refl refl (omega arith)
