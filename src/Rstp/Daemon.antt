-- ===== src/Rstp/Daemon.antt =====
-- userspace/rstp/rstpd.c: the globals, the timers, the list of interfaces and the main loop.
-- What runs beside the main loop (the timer signal, the receiver thread, the management thread)
-- is a step of its own in Steps.
mod Receiver
mod Registry
pub mod Registration
unfoldable pub use Receiver.*
unfoldable pub use Registry.*
use lisa_user.Base.{ℕ, zero, suc, ◌-◌, false, List, [], ◌∷◌, ◌++◌, map, length}
use lisa_user.Vector.{BridgeId, PriorityVector, RstpTimes, Bytes2, Bytes4, Bytes6}
use lisa_user.Rstp.Port.{Port, RstpBridge}
use lisa_user.Rstp.Fsm.Tree.{Daemon, Cursor, PrsState, on_entry}
use lisa_user.Rstp.Fsm.Prx.{prx}
use lisa_user.Rstp.Fsm.Ppm.{ppm}
use lisa_user.Rstp.Fsm.Ptx.{ptx}
use lisa_user.Rstp.Fsm.Pim.{pim}
use lisa_user.Rstp.Fsm.Prt.{check_global_conditions, prt}
use lisa_user.Rstp.Fsm.Pst.{pst}
use lisa_user.Rstp.Fsm.Tcm.{tcm}
use lisa_user.Rstp.Fsm.Prs.{prs}

-- `dec` on each timer: `-` stops at 0, as the macro's test does.
unfoldable pub tick : Port → Port
tick entry = record entry {
  hello_when = entry.hello_when - 1;
  tc_while = entry.tc_while - 1;
  fd_while = entry.fd_while - 1;
  rcvd_info_while = entry.rcvd_info_while - 1;
  rr_while = entry.rr_while - 1;
  rb_while = entry.rb_while - 1;
  mdelay_while = entry.mdelay_while - 1;
  edge_delay_while = entry.edge_delay_while - 1;
  tx_count = entry.tx_count - 1;
}

unfoldable pub pti_loop : Daemon → Daemon
unfolding tick
pti_loop d = record d { ports = map tick d.ports }

-- The calls of the inner loop of fsm_run, in their order.
pub data Machine : Type 0 where
  prx_machine : Machine
  ppm_machine : Machine
  ptx_machine : Machine
  pim_machine : Machine
  global_conditions : Machine
  prt_machine : Machine
  pst_machine : Machine
  tcm_machine : Machine

unfoldable pub run_machine : RstpBridge → Machine → Cursor → Cursor
run_machine bridge Machine.prx_machine c = on_entry prx c
run_machine bridge Machine.ppm_machine c = on_entry ppm c
run_machine bridge Machine.ptx_machine c = on_entry ptx c
run_machine bridge Machine.pim_machine c = on_entry pim c
run_machine bridge Machine.global_conditions c = on_entry check_global_conditions c
run_machine bridge Machine.prt_machine c = prt c
run_machine bridge Machine.pst_machine c = on_entry pst c
run_machine bridge Machine.tcm_machine c = tcm bridge c

abbrev pub machines : List Machine
machines =
    Machine.prx_machine ∷ Machine.ppm_machine ∷ Machine.ptx_machine ∷ Machine.pim_machine
    ∷ Machine.global_conditions ∷ Machine.prt_machine ∷ Machine.pst_machine ∷ Machine.tcm_machine
    ∷ []

unfoldable pub run_machines : RstpBridge → List Machine → Cursor → Cursor
run_machines bridge [] c = c
run_machines bridge (m ∷ ms) c = run_machines bridge ms (run_machine bridge m c)

-- list_for_each_entry_safe over the interfaces: `n` is the number of entries still to visit.
unfoldable pub visit : RstpBridge → ℕ → List Port → List Port → List Port
visit bridge zero before after = before ++ after
visit bridge (suc n) before [] = before
visit bridge (suc n) before (entry ∷ after) =
    let c =
      run_machines bridge machines (record { before = before; entry = entry; after = after }) in
    visit bridge n (c.before ++ (c.entry ∷ [])) c.after

-- one round of the main loop
unfoldable pub fsm_run : Daemon → Daemon
unfolding visit run_machines run_machine
fsm_run d = prs (record d { ports = visit d.bridge (length d.ports) [] d.ports })

abbrev pub default_id : BridgeId
default_id = record {
  bridge_priority = record { b0 = 0x70; b1 = 0x01 };
  bridge_address = record { b0 = 0x00; b1 = 0xE0; b2 = 0x81; b3 = 0xB1; b4 = 0xC0; b5 = 0x38 };
}

abbrev pub zero_cost : Bytes4
zero_cost = record { b0 = 0; b1 = 0; b2 = 0; b3 = 0 }

abbrev pub zero_id : Bytes2
zero_id = record { b0 = 0; b1 = 0 }

-- The fields that init_bridge leaves alone keep the value in `old`: that of a global, 0.
unfoldable pub init_bridge : RstpBridge → RstpBridge
init_bridge old = record old {
  bridge_identifier = default_id;
  bridge_priority = record {
    root_bridge_id = default_id;
    root_path_cost = zero_cost;
    designated_bridge_id = default_id;
    designated_port_id = zero_id;
    bridge_port_id = zero_id;
  };
  bridge_times = record { message_age = 0; max_age = 20; hello_time = 2; forward_delay = 15 };
}

-- the daemon when the main loop starts
unfoldable pub started : RstpBridge → Daemon
unfolding init_bridge
started old = record {
  bridge = init_bridge old;
  ports = [];
  prs_func = PrsState.init_bridge;
  prs_exec = false;
}
