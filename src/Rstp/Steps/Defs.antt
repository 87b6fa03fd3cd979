-- ===== src/Rstp/Steps/Defs.antt =====
-- The daemon as a step relation. A step is one call of a machine on one interface, one call of the
-- role selection, the timer signal, the receiver's work on one port, or a request of the management
-- thread, in any order; the calls themselves are taken to be atomic. A round of the main loop
-- (`fsm_run`) is a sequence of such steps. `Memory` says what malloc may hand out.
use lisa_user.Base.{ℕ, ◌≡◌, List, Option, some}
use lisa_user.Rstp.Port.{Port, RstpBridge}
use lisa_user.Rstp.Fsm.Tree.{Daemon, Cursor, join, on_entry}
use lisa_user.Rstp.Fsm.Prs.{prs}
use lisa_user.Rstp.Daemon.{
  Machine, run_machine, pti_loop, recv_port, Answers, register_interface, unregister_interface,
  started,
}

pub data Step (Memory : Port → Type 0) (d : Daemon) : Daemon → Type 0 where
  machine :
      (m : Machine) (c : Cursor)
      → d.ports ≡ join c
      → Step Memory d (record d { ports = join (run_machine d.bridge m c) })
  roles : Step Memory d (prs d)
  timer : Step Memory d (pti_loop d)
  receive :
      (answer : Option (List ℕ)) (c : Cursor)
      → d.ports ≡ join c
      → Step Memory d (record d { ports = join (on_entry (recv_port answer) c) })
  register :
      (a : Answers) (if_index : ℕ) {e : Daemon}
      → Memory a.memory
      → register_interface a if_index d ≡ some e
      → Step Memory d e
  unregister : (if_index : ℕ) → Step Memory d (unregister_interface if_index d)

-- `old` is the global `bridge` before init_bridge.
pub data Reach (Memory : Port → Type 0) (old : RstpBridge) : Daemon → Type 0 where
  start : Reach Memory old (started old)
  next : {d e : Daemon} → Reach Memory old d → Step Memory d e → Reach Memory old e

-- one step after another, from any state
pub data Steps (Memory : Port → Type 0) (d : Daemon) : Daemon → Type 0 where
  here : Steps Memory d d
  more : {e f : Daemon} → Steps Memory d e → Step Memory e f → Steps Memory d f
