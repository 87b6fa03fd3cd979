-- ===== src/Rstp/Fsm.antt =====
-- The state machines of a port, userspace/rstp/fsm. A handler that touches its own port only is a
-- function on `Port`; one that also writes to the other ports takes the `Cursor` of the loop over
-- the registered interfaces (Tree).
pub mod Tree
pub mod Prx
pub mod Ppm
pub mod Bdm
pub mod Pst
pub mod Tcm
pub mod Ptx
pub mod Pim
pub mod Prt
pub mod Prs
