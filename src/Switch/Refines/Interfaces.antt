-- ===== src/Switch/Refines/Interfaces.antt =====
-- The descriptions of interfaces, as the map that switch_get_if_desc tells.
use lisa_user.Base.{
  ℕ, ◌≡◌, refl, sym, ap, ◌∙◌, Bool, true, false, zero, suc, List, [], ◌∷◌, Option, none, some, Text,
  copy_text, take, arith, Option-cases, inl, inr,
}
use mathlib.Core.Path.{fun_ext, subst}
use lisa_user.Mm.{Mm, mm_lock}
use lisa_user.Switch.Store.{Switch, Entry, Status, sw_max_port_desc}
use lisa_user.Switch.Keyed.{Table, find_key}
use lisa_user.Switch.Descs.{set_if_desc, switch_get_if_desc, switch_set_if_desc, default_iface_name}
use lisa_user.Switch.View.{
  lookup, lookup-find_key, IsKeyed, missing-lookup, put_entry_outcome, reset_entry_outcome,
}
use lisa_user.Switch.Refines.{
  View, assign, spec_set, cut, Refines, heard, Agree, Refines-Put, Refines-Reset,
}

abbrev pub interfaces : Switch → View
interfaces s if_index = heard (switch_get_if_desc if_index s)

interfaces-lookup : (s : Switch) (k : ℕ) → interfaces s k ≡ cut (lookup k s.if_descs)
unfolding switch_get_if_desc
interfaces-lookup s k = elim (Option-cases (find_key k s.if_descs)) [
  | inl missing ↦ rw (switch_get_if_desc, missing) (cc (missing-lookup k s.if_descs missing))
  | inr (e, found) ↦
      rw (switch_get_if_desc, found) (ap cut (rw (found) at (lookup-find_key k s.if_descs)))
]

interfaces_lem : (s : Switch) → interfaces s ≡ (λ k. cut (lookup k s.if_descs))
interfaces_lem s = fun_ext (interfaces-lookup s)

take-take : (n : ℕ) (xs : Text) → take n (take n xs) ≡ take n xs
take-take zero xs = refl
take-take (suc n) [] = refl
take-take (suc n) (x ∷ xs) = ap (λ ys. x ∷ ys) (take-take n xs)

cut-cut : (o : Option Text) → cut (cut o) ≡ cut o
cut-cut none = refl
cut-cut (some text) = ap some (take-take 31 text)

-- What is read back is cut to 31 bytes once more, which changes nothing.
cut-assign :
    (key : ℕ) (o : Option Text) (view : View)
    → cut o ≡ o
    → (k : ℕ) → cut (assign key o view k) ≡ assign key o (λ j. cut (view j)) k
cut-assign key o view short k = ground (arith, short)

Refines-cut :
    (r : Status × Table) (memory : Bool) (key : ℕ) (standard : Text) (text : Option Text)
    (view : View)
    → cut (some standard) ≡ some standard
    → Refines r (spec_set memory key standard (cut text) view)
    → let a = spec_set memory key standard (cut text) (λ k. cut (view k)) in
      (r.0 ≡ a.0) × ((k : ℕ) → cut (lookup k r.1.1) ≡ a.1 k)
Refines-cut r memory key standard none view short h = elim (Option-cases (view key)) [
  | inl missing ↦ let h' = rw (missing) at h in rw (missing) (h'.0, λ k. ap cut (h'.1 k))
  | inr (t, known) ↦
      let h' = rw (known) at h in
      rw (known) (h'.0, λ k. ap cut (h'.1 k) ∙ cut-assign key (some standard) view short k)
]
Refines-cut r true key standard (some text) view short h =
    (h.0, λ k. ap cut (h.1 k) ∙ cut-assign key (cut (some text)) view (cut-cut (some text)) k)
Refines-cut r false key standard (some text) view short h = elim (Option-cases (view key)) [
  | inl missing ↦ let h' = rw (missing) at h in rw (missing) (h'.0, λ k. ap cut (h'.1 k))
  | inr (t, known) ↦
      let h' = rw (known) at h in
      rw (known)
        (h'.0, λ k. ap cut (h'.1 k) ∙ cut-assign key (cut (some text)) view (cut-cut (some text)) k)
]

set_if_desc-Refines :
    (ftruncate : ℕ → Bool) (if_index : ℕ) (desc : Option Text) (mm : Mm) (es : List Entry)
    → IsKeyed es
    → ((memory : Bool) × Refines
          (set_if_desc ftruncate if_index desc (mm, es))
          (spec_set memory if_index default_iface_name (cut desc) (λ k. lookup k es)))
      × IsKeyed (set_if_desc ftruncate if_index desc (mm, es)).1.1
unfolding set_if_desc default_iface_name
set_if_desc-Refines ftruncate i none mm es ok =
    let (outcome, keyed) = reset_entry_outcome i mm es ok sw_max_port_desc default_iface_name in
    ((true, Refines-Reset i es _ (copy_text sw_max_port_desc default_iface_name) outcome), keyed)
set_if_desc-Refines ftruncate i (some desc) mm es ok =
    let (outcome, keyed) = put_entry_outcome i mm es ok ftruncate _ sw_max_port_desc desc in
    (Refines-Put i es _ (copy_text sw_max_port_desc desc) default_iface_name outcome, keyed)

-- switch_set_if_desc, where no two entries have the same index, does what the rules for descriptions
-- say, for a choice of whether memory is left: the answer is the rules' answer, with the error that
-- they name, switch_get_if_desc then tells for every interface what the rules' map has, and the
-- indices still differ. Without a description an entry that is there becomes "-".
pub switch_set_if_desc-refines :
    (ftruncate : ℕ → Bool) (if_index : ℕ) (desc : Option Text) (s : Switch)
    → IsKeyed s.if_descs
    → ((memory : Bool) × Agree interfaces
          (switch_set_if_desc ftruncate if_index desc s)
          (spec_set memory if_index (45 ∷ []) (cut desc) (interfaces s)))
      × IsKeyed (switch_set_if_desc ftruncate if_index desc s).1.if_descs
unfolding switch_set_if_desc default_iface_name
switch_set_if_desc-refines ftruncate i desc s ok =
    let ((memory, agree), keyed) =
      set_if_desc-Refines ftruncate i desc (mm_lock s.mm) s.if_descs ok in
    let (same, told) =
      Refines-cut (set_if_desc ftruncate i desc (mm_lock s.mm, s.if_descs)) memory i (45 ∷ []) desc
        (λ k. lookup k s.if_descs) refl agree in
    let after = switch_set_if_desc ftruncate i desc s in
    (
      (
        memory,
        subst (λ view. Agree interfaces after (spec_set memory i (45 ∷ []) (cut desc) view))
            (sym (interfaces_lem s)) (same, λ k. interfaces-lookup after.1 k ∙ told k),
      ),
      keyed,
    )
