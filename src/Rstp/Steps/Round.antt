-- ===== src/Rstp/Steps/Round.antt =====
-- A round of the main loop, cut into the steps that the relation knows.
use lisa_user.Base.{ℕ, zero, suc, ◌≡◌, refl, sym, ◌∙◌, List, [], ◌∷◌, ◌++◌, length}
use mathlib.Core.Path.{subst}
use mathlib.Core.List.{append-nil, append_assoc}
use lisa_user.Rstp.Port.{Port, RstpBridge}
use lisa_user.Rstp.Fsm.Tree.{Daemon, Cursor, join}
use lisa_user.Rstp.Daemon.{Machine, machines, run_machine, run_machines, visit, fsm_run}
use lisa_user.Rstp.Steps.Defs.{Reach, machine, roles, next}

module _ {Memory : Port → Type 0} {old : RstpBridge} where
  run_machines-Reach :
      (ms : List Machine) (d : Daemon) (c : Cursor)
      → Reach Memory old d
      → d.ports ≡ join c
      → Reach Memory old (record d { ports = join (run_machines d.bridge ms c) })
  unfolding run_machines
  run_machines-Reach [] d c r h = subst (λ ps. Reach Memory old (record d { ports = ps })) h r
  run_machines-Reach (m ∷ ms) d c r h =
      run_machines-Reach ms (record d { ports = join (run_machine d.bridge m c) })
        (run_machine d.bridge m c) (next r (machine m c h)) refl

  visit-Reach :
      (n : ℕ) (d : Daemon) (before after : List Port)
      → Reach Memory old d
      → d.ports ≡ before ++ after
      → Reach Memory old (record d { ports = visit d.bridge n before after })
  unfolding visit
  visit-Reach zero d before after r h = subst (λ ps. Reach Memory old (record d { ports = ps })) h r
  visit-Reach (suc n) d before [] r h =
      subst (λ ps. Reach Memory old (record d { ports = ps })) (h ∙ append-nil before) r
  visit-Reach (suc n) d before (entry ∷ after) r h =
      let c =
        run_machines d.bridge machines (record { before = before; entry = entry; after = after }) in
      visit-Reach n (record d { ports = join c }) (c.before ++ (c.entry ∷ [])) c.after
        (run_machines-Reach machines d (record { before = before; entry = entry; after = after }) r
          h)
        (sym (append_assoc c.before (c.entry ∷ []) c.after))

-- A round of the main loop, which lets the eight machines run on every interface and then the role
-- selection, takes a reachable daemon to a reachable one: it is a sequence of the steps.
pub fsm_run-Reach :
    {Memory : Port → Type 0} {old : RstpBridge} {d : Daemon}
    → Reach Memory old d
    → Reach Memory old (fsm_run d)
unfolding fsm_run
fsm_run-Reach {d = d} r = next (visit-Reach (length d.ports) d [] d.ports r refl) roles
