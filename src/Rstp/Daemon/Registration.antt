-- ===== src/Rstp/Daemon/Registration.antt =====
-- How registering an interface and unregistering it undo each other.
use lisa_user.Base.{
  ℕ, ◌≡◌, refl, sym, ap, Bool, true, false, not, ◌||◌, List, [], ◌∷◌, ◌++◌, Option, none, some,
  ◌==◌, if◌then◌else◌, Bool-cases, ==_iff, inl, inr, ◌⊎◌, if-keep, if-miss,
}
use lisa_user.Rstp.Port.{Port}
use lisa_user.Rstp.Fsm.Tree.{Daemon}
use lisa_user.Rstp.Daemon.Registry.{
  Answers, new_port, is_registered, register_interface, drop_index, unregister_interface,
}

or_false : (a b : Bool) → (a || b) ≡ false → (a ≡ false) × (b ≡ false)
or_false true b h = cc
or_false false b h = (refl, h)

drop_index-unregistered :
    (i : ℕ) (ports : List Port) → is_registered i ports ≡ false → drop_index i ports ≡ ports
unfolding is_registered drop_index
drop_index-unregistered i [] h = refl
drop_index-unregistered i (p ∷ ps) h =
    let (other, rest) = or_false (i == p.if_index) (is_registered i ps) h in
    rw (other) (ap (λ xs. p ∷ xs) (drop_index-unregistered i ps rest))

drop_index-append :
    (i : ℕ) (ports : List Port) (p : Port)
    → is_registered i ports ≡ false
    → p.if_index ≡ i
    → drop_index i (ports ++ (p ∷ [])) ≡ ports
unfolding is_registered drop_index
drop_index-append i [] p h e = rw ((==_iff i p.if_index).1 (sym e)) refl
drop_index-append i (q ∷ qs) p h e =
    let (other, rest) = or_false (i == q.if_index) (is_registered i qs) h in
    rw (other) (ap (λ xs. q ∷ xs) (drop_index-append i qs p rest e))

drop_index-is_registered :
    (i : ℕ) (ports : List Port) → is_registered i (drop_index i ports) ≡ false
unfolding is_registered drop_index
drop_index-is_registered i [] = refl
drop_index-is_registered i (p ∷ ps) = elim (Bool-cases (i == p.if_index)) [
  | inl same ↦ rw (same) (drop_index-is_registered i ps)
  | inr other ↦ rw (other) (rw (other) (drop_index-is_registered i ps))
]

-- What a registration may make of the daemon.
abbrev Outcome : Answers → ℕ → Daemon → Daemon → Type 0
Outcome a i d e =
    (e ≡ d)
    ⊎ ((is_registered i d.ports ≡ false)
        × (e ≡ record d { ports = d.ports ++ (new_port d.bridge a i ∷ []) }))

register_interface-Outcome :
    (a : Answers) (i : ℕ) (d e : Daemon) → register_interface a i d ≡ some e → Outcome a i d e
unfolding register_interface
register_interface-Outcome a i d e =
    let Q : Option Daemon → Type 0 = λ o. o ≡ some e → Outcome a i d e in
    let same : Q (some d) = λ h. inl (cc h) in
    let aborted : Q none = λ h. cc h in
    let new = record d { ports = d.ports ++ (new_port d.bridge a i ∷ []) } in
    let added : Q (
        if is_registered i d.ports
        then some d
        else if not a.bound
        then some d
        else if not a.allocated
        then none
        else if not a.sems_ready
        then some d
        else some new) =
      elim (Bool-cases (is_registered i d.ports)) [
        | inl is ↦ rw (is) (λ h. inl (cc h))
        | inr free ↦ if-miss Q (is_registered i d.ports) (some d) _ free (
            if-keep Q (not a.bound) (some d) _ same (
              if-keep Q (not a.allocated) none _ aborted
                (if-keep Q (not a.sems_ready) (some d) (some new) same (λ h. inr (free, cc h)))))
      ] in
    if-keep Q (not a.inet_socket) none _ aborted (
      if-keep Q (not a.flags_read) none _ aborted (
        if-keep Q (not a.if_up) (some d) _ same (
          if-keep Q (not a.switch_socket) none _ aborted (
            if-keep Q (not a.type_read) (some d) _ same
              (if-keep Q (not a.switched) (some d) _ same added)))))

-- An interface that is not registered, registered and then unregistered, leaves the daemon as it
-- was, whatever the system calls answer, unless the registration aborts.
pub register_interface-unregister_interface :
    (a : Answers) (i : ℕ) (d e : Daemon)
    → is_registered i d.ports ≡ false
    → register_interface a i d ≡ some e
    → unregister_interface i e ≡ d
unfolding unregister_interface new_port
register_interface-unregister_interface a i d e free h =
    elim (register_interface-Outcome a i d e h) [
      | inl is ↦
          rw (is) (ap (λ ps. record d { ports = ps }) (drop_index-unregistered i d.ports free))
      | inr (_, is) ↦ rw (is) (
          ap (λ ps. record d { ports = ps })
            (drop_index-append i d.ports (new_port d.bridge a i) free refl))
    ]

-- After unregistering an interface it is not registered, however often it stood in the list.
pub unregister_interface-is_registered :
    (i : ℕ) (d : Daemon) → is_registered i (unregister_interface i d).ports ≡ false
unfolding unregister_interface
unregister_interface-is_registered i d = drop_index-is_registered i d.ports
