-- ===== src/Rstp/Fsm/Prs/Roles.antt =====
-- What a round of the role selection leaves behind: the selected roles, and the flags selected and
-- reselect.
use lisa_user.Base.{
  ℕ, suc, ◌+◌, ◌≡◌, ◌≤◌, refl, sym, ap, ◌∙◌, List, [], ◌∷◌, map, some, true, false, arith, All,
  get_elem?, get_elem?-indexed, indexed, All-map,
}
use mathlib.Core.Path.{subst}
use native.Mathlib.Nat.{zero-add}
use lisa_user.Rstp.Bpdu.{role_root}
use lisa_user.Rstp.Port.{Port, RstpBridge}
use lisa_user.Rstp.Fsm.Tree.{Daemon}
use lisa_user.Rstp.Fsm.Prs.{
  RootChoice, own_choice, choose, set_bridge_root, set_designated, is_root_port, assign_role,
  assign_roles, updt_roles_tree, clear_reselect_tree, set_selected_tree, any_reselect, select_roles,
}

-- A port gets the root role only at the place of the root port, or keeps it where its infoIs is
-- none of the four values.
assign_role-root :
    (bridge : RstpBridge) (r : RootChoice) (i : ℕ) (p : Port)
    → p.info_is ≤ 3
    → (assign_role bridge r i p).selected_role ≡ role_root
    → is_root_port r i ≡ true
unfolding assign_role
assign_role-root bridge r i p h e = ground arith

assign_role-info_is :
    (bridge : RstpBridge) (r : RootChoice) (i : ℕ) (p q : Port)
    → q ≡ assign_role bridge r i p
    → q.info_is ≤ 3
    → p.info_is ≤ 3
unfolding assign_role
assign_role-info_is bridge r i p q e h = subst (λ (t : ℕ). t ≤ 3) (ap (λ (t : Port). t.info_is) e) h

assign_role-IsClear :
    (bridge : RstpBridge) (r : RootChoice) (i : ℕ) (p : Port)
    → p.reselect ≡ false
    → (assign_role bridge r i p).reselect ≡ false
unfolding assign_role
assign_role-IsClear bridge r i p h = h

assign_roles-indexed :
    (bridge : RstpBridge) (r : RootChoice) (i : ℕ) (ports : List Port)
    → assign_roles bridge r i ports ≡ indexed (assign_role bridge r) i ports
unfolding assign_roles
assign_roles-indexed bridge r i [] = refl
assign_roles-indexed bridge r i (p ∷ ps) =
    ap (λ (ports : List Port). assign_role bridge r i p ∷ ports)
      (assign_roles-indexed bridge r (suc i) ps)

assign_roles-get :
    (bridge : RstpBridge) (r : RootChoice) (i : ℕ) (ports : List Port) (j : ℕ) (q : Port)
    → get_elem? (assign_roles bridge r i ports) j ≡ some q
    → (p : Port) × (q ≡ assign_role bridge r (i + j) p)
assign_roles-get bridge r i ports j q e =
    let (p, at, is) =
      get_elem?-indexed (assign_role bridge r) i ports j q
        (rw (assign_roles-indexed bridge r i ports) at e) in
    (p, is)

same_place : (r : RootChoice) (i j : ℕ) → is_root_port r i ≡ true → is_root_port r j ≡ true → i ≡ j
same_place r i j a b = ground arith

-- After updtRolesTree at most one port has the selected role of a root port: two that have it, with
-- infoIs one of the four values, stand at the same place.
pub one_root_port :
    (d : Daemon) (i j : ℕ) (p q : Port)
    → get_elem? (updt_roles_tree d).ports i ≡ some p
    → get_elem? (updt_roles_tree d).ports j ≡ some q
    → p.info_is ≤ 3
    → q.info_is ≤ 3
    → p.selected_role ≡ role_root
    → q.selected_role ≡ role_root
    → i ≡ j
unfolding updt_roles_tree
one_root_port d i j p q atp atq ip iq rp rq =
    let r = choose d.bridge 0 d.ports (own_choice d.bridge) in
    let bridge = set_bridge_root r d.bridge in
    let (a, ea) = assign_roles-get bridge r 0 (map (set_designated bridge r) d.ports) i p atp in
    let (b, eb) = assign_roles-get bridge r 0 (map (set_designated bridge r) d.ports) j q atq in
    same_place r i j
      (rw zero-add at (
        assign_role-root bridge r (0 + i) a (assign_role-info_is bridge r (0 + i) a p ea ip)
          (sym (ap (λ (t : Port). t.selected_role) ea) ∙ rp)))
      (rw zero-add at (
        assign_role-root bridge r (0 + j) b (assign_role-info_is bridge r (0 + j) b q eb iq)
          (sym (ap (λ (t : Port). t.selected_role) eb) ∙ rq)))

abbrev IsClear : Port → Type 0
IsClear p = p.reselect ≡ false

abbrev pub IsSettled : Port → Type 0
IsSettled p = (p.selected ≡ true) × (p.reselect ≡ false)

clear_reselect_tree-IsClear : (ports : List Port) → All IsClear (clear_reselect_tree ports)
unfolding clear_reselect_tree
clear_reselect_tree-IsClear [] = tt
clear_reselect_tree-IsClear (p ∷ ps) = (refl, clear_reselect_tree-IsClear ps)

assign_roles-IsClear :
    (bridge : RstpBridge) (r : RootChoice) (i : ℕ) (ports : List Port)
    → All IsClear ports
    → All IsClear (assign_roles bridge r i ports)
unfolding assign_roles
assign_roles-IsClear bridge r i [] h = tt
assign_roles-IsClear bridge r i (p ∷ ps) h =
    (assign_role-IsClear bridge r i p h.0, assign_roles-IsClear bridge r (suc i) ps h.1)

none_left : (ports : List Port) → All IsClear ports → any_reselect ports ≡ false
unfolding any_reselect
none_left [] h = refl
none_left (p ∷ ps) h = rw (h.0, any_reselect) (none_left ps h.1)

map-IsSettled :
    (ports : List Port)
    → All IsClear ports
    → All IsSettled (map (λ (p : Port). record p { selected = true }) ports)
map-IsSettled [] h = tt
map-IsSettled (p ∷ ps) h = ((refl, h.0), map-IsSettled ps h.1)

set_selected_tree-IsSettled :
    (ports : List Port) → All IsClear ports → All IsSettled (set_selected_tree ports)
unfolding set_selected_tree
set_selected_tree-IsSettled ports h = rw (none_left ports h) (map-IsSettled ports h)

-- The entry actions of ROLE_SELECTION leave every port selected and none to be reselected.
pub select_roles-IsSettled : (d : Daemon) → All IsSettled (select_roles d).ports
unfolding select_roles updt_roles_tree
select_roles-IsSettled d =
    let r = choose d.bridge 0 (clear_reselect_tree d.ports) (own_choice d.bridge) in
    let bridge = set_bridge_root r d.bridge in
    set_selected_tree-IsSettled _ (
      assign_roles-IsClear bridge r 0 _ (
        All-map IsClear (set_designated bridge r) (λ p h. h) _
          (clear_reselect_tree-IsClear d.ports)))
