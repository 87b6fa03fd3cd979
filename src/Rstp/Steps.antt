-- ===== src/Rstp/Steps.antt =====
-- The daemon as a step relation, and what it takes for a property of a port to hold in every state
-- that the daemon reaches (Invariant); a round of the main loop as steps (Round) and call by call
-- (Schedule).
mod Defs
mod Round
mod Schedule
mod Invariant
pub use Defs.*
pub use Invariant.*
pub use Round.*
pub use Schedule.*
