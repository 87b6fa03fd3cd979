-- ===== src/Switch/Refines.antt =====
-- The descriptions seen from outside: a map from numbers to texts, what each call means for it, and
-- that switch.c's functions do that.
pub mod Interfaces
use lisa_user.Base.{
  ℕ, ◌+◌, ◌≡◌, ◌≢◌, refl, sym, ap, ◌∙◌, Bool, true, false, ◌&&◌, ◌||◌, zero, suc, List, [], ◌∷◌,
  Option, none, some, Text, copy_text, take, arith, if◌then◌else◌, ◌==◌, ltb, leb, Bool-cases,
  Option-cases, ◌⊎◌, inl, inr,
}
use mathlib.Core.Path.{fun_ext, subst}
use lisa_user.Mm.{Mm, mm_lock, mm_unlock}
use lisa_user.Switch.Store.{
  Switch, Entry, Status, success, failed, Errno, enodev, enomem, einval, eperm, sw_max_vlan_name,
  sw_max_port_desc,
}
use lisa_user.Switch.Keyed.{Table, find_key}
use lisa_user.Switch.Descs.{
  switch_get_vlan_desc, switch_set_vlan_desc, switch_del_vlan_desc, set_vlan_desc, set_if_desc,
  switch_get_if_desc, switch_set_if_desc, switch_del_if, default_vlan_name, default_iface_name,
  sw_invalid_vlan, sw_is_default_vlan, view_desc,
}
use lisa_user.Switch.View.{
  lookup, lookup-find_key, IsKeyed, Removed, Put, Reset, missing-lookup, remove_entry_outcome,
  put_entry_outcome, reset_entry_outcome,
}

abbrev pub View : Type 0
View = ℕ → Option Text

abbrev pub assign : ℕ → Option Text → View → View
assign key text view k = if k == key then text else view k

abbrev pub is_known : Option Text → Bool
is_known none = false
is_known (some text) = true

-- A description set: `memory` tells whether a new entry can be had.
abbrev pub spec_set : Bool → ℕ → Text → Option Text → View → Status × View
spec_set memory key standard none view =
    if is_known (view key)
    then (success, assign key (some standard) view)
    else (failed enodev, view)
spec_set memory key standard (some text) view =
    if memory || is_known (view key)
    then (success, assign key (some text) view)
    else (failed enomem, view)

abbrev pub spec_remove : ℕ → View → Status × View
spec_remove key view =
    if is_known (view key) then (success, assign key none view) else (failed enodev, view)

-- The first 31 bytes, which there is room for.
abbrev pub cut : Option Text → Option Text
cut none = none
cut (some text) = some (take 31 text)

-- A concrete answer and list, against an abstract answer and map.
abbrev pub Refines : Status × Table → Status × View → Type 0
Refines r a = (r.0 ≡ a.0) × ((k : ℕ) → lookup k r.1.1 ≡ a.1 k)

pub known-lookup : (o : Option Text) → o ≢ none → is_known o ≡ true
known-lookup none h = absurd (h refl)
known-lookup (some t) h = refl

assigned :
    (key : ℕ) (text : Option Text) (es es' : List Entry)
    → lookup key es' ≡ text
    → ((k : ℕ) → k ≢ key → lookup k es' ≡ lookup k es)
    → (k : ℕ) → lookup k es' ≡ assign key text (λ j. lookup j es) k
assigned key text es es' at apart k = elim (Bool-cases (k == key)) [
  | inl same ↦ let is_key : k ≡ key = ground arith in rw (same, is_key) at
  | inr other ↦ rw (other) (apart k (ground arith))
]

module _ (key : ℕ) (es : List Entry) (r : Status × Table) where
  pub Refines-remove : Removed key es r → Refines r (spec_remove key (λ k. lookup k es))
  Refines-remove (Removed.gone e there at apart) =
      rw (known-lookup (lookup key es) there) (e, assigned key none es r.1.1 at apart)
  Refines-remove (Removed.never_there e missing same) = rw (missing) (e, λ k. cc)

  pub Refines-Put :
      (text standard : Text)
      → Put key text es r
      → (memory : Bool) × Refines r (spec_set memory key standard (some text) (λ k. lookup k es))
  Refines-Put text standard (Put.written e says) =
      (true, (e, assigned key (some text) es r.1.1 says.0 says.1))
  Refines-Put text standard (Put.no_memory e missing same) = (false, rw (missing) (e, λ k. cc))

  pub Refines-Reset :
      (standard : Text)
      → Reset key standard es r
      → Refines r (spec_set true key standard none (λ k. lookup k es))
  Refines-Reset standard (Reset.written e there says) =
      rw (known-lookup (lookup key es) there)
        (e, assigned key (some standard) es r.1.1 says.0 says.1)
  Refines-Reset standard (Reset.not_there e missing same) = rw (missing) (e, λ k. cc)

-- What the read functions tell of the whole switch.
abbrev pub heard : Errno ⊎ Text → Option Text
heard (inl e) = none
heard (inr text) = some text

abbrev pub vlans : Switch → View
vlans s vlan_id = heard (switch_get_vlan_desc vlan_id true s)

-- The rules for a VLAN's description, from what the numbers of VLANs may be.
abbrev pub spec_vlan : Bool → ℕ → Option Text → View → Status × View
spec_vlan memory vlan_id desc view =
    if ltb vlan_id 1 || ltb 4094 vlan_id
    then (failed einval, view)
    else if (vlan_id == 1) || (leb 1002 vlan_id && leb vlan_id 1005)
    then (failed eperm, view)
    else spec_set memory vlan_id (default_vlan_name vlan_id) (cut desc) view

pub vlans-lookup : (s : Switch) (k : ℕ) → vlans s k ≡ lookup k s.vlan_descs
unfolding switch_get_vlan_desc
vlans-lookup s k = elim (Option-cases (find_key k s.vlan_descs)) [
  | inl missing ↦ rw (missing) (cc (lookup-find_key k s.vlan_descs))
  | inr (e, found) ↦ rw (found) (cc (lookup-find_key k s.vlan_descs))
]

vlans_lem : (s : Switch) → vlans s ≡ (λ k. lookup k s.vlan_descs)
vlans_lem s = fun_ext (vlans-lookup s)

-- A concrete answer and switch, against an abstract answer and map.
abbrev pub Agree : (Switch → View) → Status × Switch → Status × View → Type 0
Agree view r a = (r.0 ≡ a.0) × ((k : ℕ) → view r.1 k ≡ a.1 k)

set_vlan_desc-Refines :
    (ftruncate : ℕ → Bool) (vlan_id : ℕ) (desc : Option Text) (mm : Mm) (es : List Entry)
    → IsKeyed es
    → ((memory : Bool) × Refines
          (set_vlan_desc ftruncate vlan_id desc (mm, es))
          (spec_set memory vlan_id (default_vlan_name vlan_id) (cut desc) (λ k. lookup k es)))
      × IsKeyed (set_vlan_desc ftruncate vlan_id desc (mm, es)).1.1
unfolding set_vlan_desc default_vlan_name
set_vlan_desc-Refines ftruncate v none mm es ok =
    let (outcome, keyed) = reset_entry_outcome v mm es ok sw_max_vlan_name (default_vlan_name v) in
    ((true, Refines-Reset v es _ (copy_text sw_max_vlan_name (default_vlan_name v)) outcome), keyed)
set_vlan_desc-Refines ftruncate v (some desc) mm es ok =
    let (outcome, keyed) = put_entry_outcome v mm es ok ftruncate _ sw_max_vlan_name desc in
    (Refines-Put v es _ (copy_text sw_max_vlan_name desc) (default_vlan_name v) outcome, keyed)

-- switch_set_vlan_desc, where no two entries have the same number, does what the rules for
-- descriptions say, for a choice of whether memory is left: the answer is the rules' answer, with
-- the error that they name, switch_get_vlan_desc then tells for every VLAN what the rules' map has,
-- and the numbers still differ.
pub switch_set_vlan_desc-refines :
    (ftruncate : ℕ → Bool) (vlan_id : ℕ) (desc : Option Text) (s : Switch)
    → IsKeyed s.vlan_descs
    → ((memory : Bool) × Agree vlans
          (switch_set_vlan_desc ftruncate vlan_id desc s)
          (spec_vlan memory vlan_id desc (vlans s)))
      × IsKeyed (switch_set_vlan_desc ftruncate vlan_id desc s).1.vlan_descs
unfolding switch_set_vlan_desc sw_invalid_vlan sw_is_default_vlan
switch_set_vlan_desc-refines ftruncate v desc s ok = elim (Bool-cases (ltb v 1 || ltb 4094 v)) [
  | inl invalid ↦ rw (invalid) ((true, (refl, λ k. refl)), ok)
  | inr valid ↦ elim (Bool-cases ((v == 1) || (leb 1002 v && leb v 1005))) [
    | inl reserved ↦ rw (valid, reserved) ((true, (refl, λ k. refl)), ok)
    | inr free ↦
        let locked : Table = (mm_lock s.mm, s.vlan_descs) in
        let ((memory, (same, told)), keyed) =
          set_vlan_desc-Refines ftruncate v desc (mm_lock s.mm) s.vlan_descs ok in
        let after : Switch = record s {
          mm = mm_unlock (set_vlan_desc ftruncate v desc locked).1.0;
          vlan_descs = (set_vlan_desc ftruncate v desc locked).1.1;
        } in
        rw (switch_set_vlan_desc, valid, free, vlans_lem s)
          ((memory, (same, λ k. vlans-lookup after k ∙ told k)), keyed)
  ]
]

-- switch_del_vlan_desc, where no two entries have the same number: the VLAN's entry is gone and all
-- others are told as before; without one the answer is -1 with ENODEV, and nothing has changed. The
-- numbers still differ. A default VLAN's description can be removed as well.
pub switch_del_vlan_desc-refines :
    (vlan_id : ℕ) (s : Switch)
    → IsKeyed s.vlan_descs
    → Agree vlans (switch_del_vlan_desc vlan_id s) (spec_remove vlan_id (vlans s))
      × IsKeyed (switch_del_vlan_desc vlan_id s).1.vlan_descs
unfolding switch_del_vlan_desc
switch_del_vlan_desc-refines v s ok =
    let (outcome, keyed) = remove_entry_outcome v (mm_lock s.mm) s.vlan_descs ok in
    let (same, told) = Refines-remove v s.vlan_descs _ outcome in
    (
      subst (λ view. Agree vlans (switch_del_vlan_desc v s) (spec_remove v view))
          (sym (vlans_lem s)) (same, λ k. vlans-lookup (switch_del_vlan_desc v s).1 k ∙ told k),
      keyed,
    )
