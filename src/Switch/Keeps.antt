-- ===== src/Switch/Keeps.antt =====
-- The whole store: the lists own their chunks, and every call keeps it so.
use lisa_user.Base.{
  ℕ, ◌+◌, ◌<◌, ◌≡◌, ◌≢◌, refl, Bool, true, List, Option, none, some, Text, copy_text, arith, ◌!=◌,
  Option-cases, inl, inr, if-keep,
}
use lisa_user.Mm.{Mm, mm_lock, mm_unlock}
use lisa_user.Mm.Arena.{IsArena, mm_lock_lem}
use lisa_user.Switch.Store.{
  Switch, Entry, Status, declined, sw_max_tag, CdpConfiguration, RstpConfiguration,
}
use lisa_user.Switch.Keyed.{Table, find_key, find_text, write_key}
use lisa_user.Switch.Tags.{if_tag_size, set_if_tag, switch_set_if_tag}
use lisa_user.Switch.Descs.{
  set_vlan_desc, switch_set_vlan_desc, switch_del_vlan_desc, set_if_desc, switch_set_if_desc,
  switch_del_if, sw_invalid_vlan, sw_is_default_vlan,
}
use lisa_user.Switch.Passwords.{
  ℤ, Slot, slot_of, write_password, switch_set_passwd, switch_set_cdp, switch_set_rstp,
}
use lisa_user.Switch.Owned.{
  held, handed_out, Conserves, Conserves-refl, held-write_text, held-write_key,
  remove_entry-Conserves, add_entry-Conserves, put_entry-Conserves, reset_entry-Conserves,
}

-- `rest` counts the chunks that other lists own.
abbrev pub IsStore : (ℕ → ℕ) → Switch → Type 0
IsStore rest s =
    IsArena s.mm
    × ((p : ℕ)
        → held p s.if_tags + held p s.vlan_descs + held p s.if_descs + rest p
          ≡ handed_out p s.mm.chunks)

-- One call of a function of switch.c that writes.
pub data Call (ftruncate : ℕ → Bool) (s : Switch) : Switch → Type 0 where
  if_tag :
      (if_index : ℕ) (tag : Option Text) (other_if : ℕ)
      → Call ftruncate s (switch_set_if_tag ftruncate if_index tag other_if s).1
  vlan_desc :
      (vlan_id : ℕ) (desc : Option Text)
      → Call ftruncate s (switch_set_vlan_desc ftruncate vlan_id desc s).1
  no_vlan_desc : (vlan_id : ℕ) → Call ftruncate s (switch_del_vlan_desc vlan_id s).1
  if_desc :
      (if_index : ℕ) (desc : Option Text)
      → Call ftruncate s (switch_set_if_desc ftruncate if_index desc s).1
  no_if : (if_index : ℕ) → Call ftruncate s (switch_del_if if_index s).1
  password :
      (type level : ℤ) (passwd : Option Text)
      → Call ftruncate s (switch_set_passwd type level passwd s).1
  cdp : (cdp : CdpConfiguration) → Call ftruncate s (switch_set_cdp cdp s)
  rstp : (rstp : RstpConfiguration) → Call ftruncate s (switch_set_rstp rstp s)

pub data Calls (ftruncate : ℕ → Bool) (s : Switch) : Switch → Type 0 where
  none_yet : Calls ftruncate s s
  then_call : {t u : Switch} → Calls ftruncate s t → Call ftruncate t u → Calls ftruncate s u

-- The area is in order, the lists own what they owned, and the lock is as it was.
abbrev Kept : (ℕ → ℕ) → Switch → Switch → Type 0
Kept rest s s' = IsStore rest s' × (s'.mm.lock ≡ s.mm.lock)

module _ (ftruncate : ℕ → Bool) (limit : (n : ℕ) → ftruncate n ≡ true → n < 4294967296) where
  set_if_tag-Conserves :
      (if_index : ℕ) (tag : Option Text) (other_if : ℕ) (mm : Mm) (es : List Entry)
      → IsArena mm
      → ((p : ℕ) → held p es ≢ 0 → handed_out p mm.chunks ≢ 0)
      → Conserves (mm, es) (set_if_tag ftruncate if_index tag other_if (mm, es)).1
  unfolding set_if_tag
  set_if_tag-Conserves i none other mm es ok live = remove_entry-Conserves i mm es ok live
  set_if_tag-Conserves i (some tag) other mm es ok live = elim (Option-cases (find_text tag es)) [
    | inr (e, taken) ↦
        rw (set_if_tag, taken)
          (if-keep (λ es'. Conserves (mm, es) (mm, es')) (other != 0) (write_key tag other es) es
            (ok, refl, λ p. omega (arith, held-write_key p tag other es))
            (Conserves-refl (mm, es) ok))
    | inl free ↦ elim (Option-cases (find_key i es)) [
      | inr (e, found) ↦
          rw (set_if_tag, free, found)
            (ok, refl, λ p. omega (arith, held-write_text p i (copy_text sw_max_tag tag) es))
      | inl fresh ↦
          rw (set_if_tag, free, fresh)
            (add_entry-Conserves ftruncate if_tag_size sw_max_tag declined i tag mm es ok
              (omega arith) (omega arith) limit)
    ]
  ]

  set_vlan_desc-Conserves :
      (vlan_id : ℕ) (desc : Option Text) (mm : Mm) (es : List Entry)
      → IsArena mm
      → Conserves (mm, es) (set_vlan_desc ftruncate vlan_id desc (mm, es)).1
  unfolding set_vlan_desc
  set_vlan_desc-Conserves v none mm es ok = reset_entry-Conserves ftruncate limit mm es ok _ v _
  set_vlan_desc-Conserves v (some desc) mm es ok =
      put_entry-Conserves ftruncate limit mm es ok _ _ v desc (omega arith) (omega arith)

  set_if_desc-Conserves :
      (if_index : ℕ) (desc : Option Text) (mm : Mm) (es : List Entry)
      → IsArena mm
      → Conserves (mm, es) (set_if_desc ftruncate if_index desc (mm, es)).1
  unfolding set_if_desc
  set_if_desc-Conserves i none mm es ok = reset_entry-Conserves ftruncate limit mm es ok _ i _
  set_if_desc-Conserves i (some desc) mm es ok =
      put_entry-Conserves ftruncate limit mm es ok _ _ i desc (omega arith) (omega arith)

module _ (rest : ℕ → ℕ) (s : Switch) (ok : IsStore rest s) where
  locked-IsArena : IsArena (mm_lock s.mm)
  locked-IsArena = rw (mm_lock_lem s.mm (ok.0.0, ok.0.1)) ok.0

  -- between mm_lock and mm_unlock, with the list that the call is about changed
  abbrev tags_written : Table → Switch
  tags_written t = record s { mm = mm_unlock t.0; if_tags = t.1 }

  abbrev vlans_written : Table → Switch
  vlans_written t = record s { mm = mm_unlock t.0; vlan_descs = t.1 }

  abbrev descs_written : Table → Switch
  descs_written t = record s { mm = mm_unlock t.0; if_descs = t.1 }

  tags-Kept : (t : Table) → Conserves (mm_lock s.mm, s.if_tags) t → Kept rest s (tags_written t)
  unfolding mm_unlock mm_lock
  tags-Kept t kept = ((kept.0, λ p. omega (arith, ok.1 p, kept.2 p)), omega (arith, kept.1))

  vlans-Kept :
      (t : Table) → Conserves (mm_lock s.mm, s.vlan_descs) t → Kept rest s (vlans_written t)
  unfolding mm_unlock mm_lock
  vlans-Kept t kept = ((kept.0, λ p. omega (arith, ok.1 p, kept.2 p)), omega (arith, kept.1))

  descs-Kept : (t : Table) → Conserves (mm_lock s.mm, s.if_descs) t → Kept rest s (descs_written t)
  unfolding mm_unlock mm_lock
  descs-Kept t kept = ((kept.0, λ p. omega (arith, ok.1 p, kept.2 p)), omega (arith, kept.1))

  unchanged-Kept : Kept rest s s
  unchanged-Kept = (ok, refl)

  locked-live :
      (es : List Entry)
      → ((p : ℕ) → held p es ≢ 0 → handed_out p s.mm.chunks ≢ 0)
      → (p : ℕ) → held p es ≢ 0
      → handed_out p (mm_lock s.mm).chunks ≢ 0
  unfolding mm_lock
  locked-live es live = live

  relocked-Kept : Kept rest s (record s { mm = mm_unlock (mm_lock s.mm) })
  relocked-Kept =
      tags-Kept (mm_lock s.mm, s.if_tags) (Conserves-refl (mm_lock s.mm, s.if_tags) locked-IsArena)

  write_password-Kept :
      (slot : Slot) (passwd : Text)
      → Kept rest s (write_password slot passwd (record s { mm = mm_unlock (mm_lock s.mm) }))
  unfolding write_password
  write_password-Kept (Slot.vty level) passwd = relocked-Kept
  write_password-Kept (Slot.enable level) passwd = relocked-Kept

  switch_set_passwd-Kept :
      (type level : ℤ) (passwd : Option Text)
      → Kept rest s (switch_set_passwd type level passwd s).1
  unfolding switch_set_passwd
  switch_set_passwd-Kept type level none = unchanged-Kept
  switch_set_passwd-Kept type level (some passwd) = elim (Option-cases (slot_of type level)) [
    | inl refused ↦ rw (switch_set_passwd, refused) relocked-Kept
    | inr (slot, found) ↦ rw (switch_set_passwd, found) (write_password-Kept slot passwd)
  ]

  module _ (ftruncate : ℕ → Bool) (limit : (n : ℕ) → ftruncate n ≡ true → n < 4294967296) where
    switch_set_vlan_desc-Kept :
        (vlan_id : ℕ) (desc : Option Text)
        → Kept rest s (switch_set_vlan_desc ftruncate vlan_id desc s).1
    unfolding switch_set_vlan_desc
    switch_set_vlan_desc-Kept v desc =
        if-keep (λ (r : Status × Switch). Kept rest s (r.1)) (sw_invalid_vlan v) _ _ unchanged-Kept
          (if-keep (λ (r : Status × Switch). Kept rest s (r.1)) (sw_is_default_vlan v) _ _
            unchanged-Kept
            (vlans-Kept _ (
              set_vlan_desc-Conserves ftruncate limit v desc (mm_lock s.mm) s.vlan_descs
                locked-IsArena)))

    pub Call-Kept : {s' : Switch} → Call ftruncate s s' → Kept rest s s'
    unfolding switch_set_if_tag switch_del_vlan_desc switch_set_if_desc switch_del_if switch_set_cdp
        switch_set_rstp
    Call-Kept (Call.if_tag i tag other) = tags-Kept _ (
        set_if_tag-Conserves ftruncate limit i tag other (mm_lock s.mm) s.if_tags locked-IsArena
          (locked-live s.if_tags (λ p h. omega (arith, ok.1 p))))
    Call-Kept (Call.vlan_desc v desc) = switch_set_vlan_desc-Kept v desc
    Call-Kept (Call.no_vlan_desc v) = vlans-Kept _ (
        remove_entry-Conserves v (mm_lock s.mm) s.vlan_descs locked-IsArena
          (locked-live s.vlan_descs (λ p h. omega (arith, ok.1 p))))
    Call-Kept (Call.if_desc i desc) =
        descs-Kept _
          (set_if_desc-Conserves ftruncate limit i desc (mm_lock s.mm) s.if_descs locked-IsArena)
    Call-Kept (Call.no_if i) = descs-Kept _ (
        remove_entry-Conserves i (mm_lock s.mm) s.if_descs locked-IsArena
          (locked-live s.if_descs (λ p h. omega (arith, ok.1 p))))
    Call-Kept (Call.password type level passwd) = switch_set_passwd-Kept type level passwd
    Call-Kept (Call.cdp c) = relocked-Kept
    Call-Kept (Call.rstp c) = relocked-Kept

-- Any sequence of the calls of switch.c that write tags, descriptions, passwords and configurations,
-- in a store that is in order: the allocator's area is in order after it, each entry of a list still
-- has a chunk of its own, no chunk is forgotten (`rest` counts those of other owners), and the lock
-- has been given back as often as it was taken. The area cannot grow to 4 GB or more.
pub Calls-IsStore :
    (ftruncate : ℕ → Bool)
    → ((n : ℕ) → ftruncate n ≡ true → n < 4294967296)
    → (rest : ℕ → ℕ) (s s' : Switch) → IsStore rest s
    → Calls ftruncate s s'
    → IsStore rest s' × (s'.mm.lock ≡ s.mm.lock)
Calls-IsStore ftruncate limit rest s s' ok Calls.none_yet = (ok, refl)
Calls-IsStore ftruncate limit rest s s' ok (Calls.then_call {t} calls call) =
    let (before, lock) = Calls-IsStore ftruncate limit rest s t ok calls in
    let (after, lock') = Call-Kept rest t before ftruncate limit call in (after, omega arith)
