-- ===== src/Rstp/Safety.antt =====
-- What holds of every port in every state that the daemon reaches, one invariant to a module. Frame
-- says which machines leave the fields of interest alone, so that an invariant has only to look at
-- those that write them.
pub mod Frame
pub mod Topology
pub mod HoldCount
pub mod Identity
pub mod PortState
pub mod PortRole
