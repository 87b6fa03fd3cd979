-- ===== src/Rstp.antt =====
-- The RSTP daemon, userspace/rstp: its data (Bpdu, Port), its state machines (Fsm), and the daemon
-- around them (Daemon), each with its proofs in child modules.
pub mod Bpdu
pub mod Port
pub mod Fsm
pub mod Daemon
pub mod Steps
pub mod Safety
pub mod Wire
pub mod Handover
