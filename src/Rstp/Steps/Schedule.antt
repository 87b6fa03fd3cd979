-- ===== src/Rstp/Steps/Schedule.antt =====
-- A round of the main loop against an independent description: the calls of a round as a flat list of
-- places and machines, each of which acts on the whole list of interfaces.
use lisa_user.Base.{ℕ, zero, suc, ◌≡◌, List, [], ◌∷◌, ◌++◌, Option, none, some, length}
use lisa_user.Rstp.Port.{Port, RstpBridge}
use lisa_user.Rstp.Fsm.Tree.{Daemon, Cursor, join}
use lisa_user.Rstp.Daemon.{Machine, run_machine}

-- The interface at a place, as the loop sees it.
abbrev pub place : List Port → ℕ → List Port → Option Cursor
place before i [] = none
place before zero (p ∷ ports) = some (record { before = before; entry = p; after = ports })
place before (suc i) (p ∷ ports) = place (before ++ (p ∷ [])) i ports

abbrev pub act_on : RstpBridge → Machine → List Port → Option Cursor → List Port
act_on bridge m ports none = ports
act_on bridge m ports (some c) = join (run_machine bridge m c)

-- One call of a machine on the interface at a place.
abbrev pub act : RstpBridge → ℕ → Machine → List Port → List Port
act bridge i m ports = act_on bridge m ports (place [] i ports)

abbrev pub perform : RstpBridge → List (ℕ × Machine) → List Port → List Port
perform bridge [] ports = ports
perform bridge ((i, m) ∷ calls) ports = perform bridge calls (act bridge i m ports)

-- The calls for n interfaces from place i on: at each, the receive machine first and the topology
-- change machine last.
abbrev pub round_calls : ℕ → ℕ → List (ℕ × Machine)
round_calls i zero = []
round_calls i (suc n) =
    (i, Machine.prx_machine)
    ∷ (i, Machine.ppm_machine)
    ∷ (i, Machine.ptx_machine)
    ∷ (i, Machine.pim_machine)
    ∷ (i, Machine.global_conditions)
    ∷ (i, Machine.prt_machine)
    ∷ (i, Machine.pst_machine)
    ∷ (i, Machine.tcm_machine)
    ∷ round_calls (suc i) n

-- A machine leaves the loop at its place: as many interfaces before and behind.
abbrev AreAligned : Cursor → Cursor → Type 0
AreAligned c d = (length d.before ≡ length c.before) × (length d.after ≡ length c.after)

-- the calls of some machines at a place, before others
abbrev calls_at : ℕ → List Machine → List (ℕ × Machine) → List (ℕ × Machine)
calls_at i [] rest = rest
calls_at i (m ∷ ms) rest = (i, m) ∷ calls_at i ms rest
