-- ===== src/Scenarios/Storage.antt =====
-- An area of a page, a store in it, and the results on the allocator and the switch's configuration
-- at them.
use lisa_user.Base.{
  ℕ, ◌-◌, ◌<◌, ◌≡◌, ◌≢◌, refl, arith, true, false, [], ◌∷◌, Bool, none, some, ltb, Text, ◌⊎◌, inr,
  false, if◌then◌else◌, ◌==◌, take,
}
use lisa_user.Mm.{
  Mm, Opening, mm_alloc, mm_free, mm_realloc, mm_lock, mm_unlock, find_gap, find_end, alloc_last,
  mm_extend, mm_null, size_at,
}
use lisa_user.Mm.Arena.{IsArena}
use lisa_user.Mm.Alloc.{Handed, Refused, mm_alloc_outcome}
use lisa_user.Mm.Free.{mm_free-mm_alloc}
use lisa_user.Mm.Realloc.{Keeps, mm_realloc-Keeps}
use lisa_user.Switch.Store.{Switch, Entry, success, declined, failed, einval}
use lisa_user.Switch.Tags.{switch_set_if_tag, switch_get_if_tag}
use lisa_user.Switch.Descs.{
  switch_set_vlan_desc, switch_del_vlan_desc, switch_set_if_desc, default_vlan_name,
}
use lisa_user.Switch.Keyed.{put_entry, find_key, write_text, add_entry}
use lisa_user.Switch.Passwords.{switch_set_rstp, switch_set_cdp, ℤ, switch_auth, switch_set_passwd}
use lisa_user.Switch.Init.{
  SwitchOperations, zeroed, fill_switch, describe_vlans, add_default_vlans, switch_add_vlan_desc,
  switch_init_rstp, switch_init_cdp,
}
use lisa_user.Switch.Keeps.{IsStore, Call, Calls, Calls-IsStore}
use lisa_user.Switch.View.{IsKeyed}
use lisa_user.Switch.Refines.{vlans, Agree, spec_vlan, spec_set, cut, switch_set_vlan_desc-refines}
use lisa_user.Switch.Refines.Interfaces.{interfaces, switch_set_if_desc-refines}
use lisa_user.Switch.Unique.{IsTagged, Unsaid, switch_set_if_tag-IsTagged}
use lisa_user.Switch.Access.{HasSlots, has_password, switch_auth-switch_set_passwd}
use lisa_user.Switch.Defaults.{LeavesDescs}

abbrev files : ℕ → Bool
files n = ltb n 4294967296

files_limit : (n : ℕ) → files n ≡ true → n < 4294967296
files_limit n h = ground arith

-- a page with one chunk, which holds the entry of VLAN 7
abbrev area : Mm
area = record {
  static_size = 100;
  dynamic_size = 3972;
  chunks = record { start = 124; size = 60 } ∷ [];
  bytes = λ x. x;
  lock = 0;
  mapped_size = 4096;
  init = true;
}

area-IsArena : IsArena area
area-IsArena = (refl, omega arith, (omega arith, omega arith, omega arith))

-- "lab"
abbrev lab : Text
lab = 108 ∷ 97 ∷ 98 ∷ []

abbrev lab_entry : Entry
lab_entry = record { ptr = 140; key = 7; text = lab }

abbrev store : Switch
store = record (zeroed area) { vlan_descs = lab_entry ∷ [] }

store-IsStore : IsStore (λ p. 0) store
unfolding zeroed
store-IsStore = (area-IsArena, λ p. ground arith)

mm_alloc_outcome_example :
    Handed 30 area (mm_alloc files 30 area) ⊎ Refused files area (mm_alloc files 30 area)
mm_alloc_outcome_example =
    mm_alloc_outcome files 30 area area-IsArena (omega arith) (omega arith) files_limit

alloc_pointer : (mm_alloc files 30 area).0 ≢ mm_null
unfolding mm_alloc find_gap find_end alloc_last mm_extend mm_lock mm_unlock
alloc_pointer = λ e. omega arith

mm_free-mm_alloc_example :
    let freed = mm_free (mm_alloc files 30 area).0 (mm_alloc files 30 area).1 in
    (freed.chunks ≡ area.chunks) × (freed.lock ≡ area.lock)
mm_free-mm_alloc_example =
    mm_free-mm_alloc files 30 area area-IsArena (omega arith) (omega arith) files_limit
      alloc_pointer

chunk_size_here : size_at (140 - 16) area.chunks ≡ 60
unfolding size_at
chunk_size_here = refl

-- Its 44 bytes move to a chunk of 70.
mm_realloc-Keeps_example : Keeps 140 70 area (mm_realloc files true 140 70 area)
mm_realloc-Keeps_example =
    mm_realloc-Keeps files 140 70 area area-IsArena (omega arith) (omega arith) (omega arith)
      files_limit (omega (arith, chunk_size_here)) (omega (arith, chunk_size_here))
      (inr (omega (arith, chunk_size_here)))

abbrev opening : Opening
opening = record {
  allocated = true;
  sem_opened = true;
  created = true;
  exists_already = false;
  reopened = false;
  truncated = true;
  mapped = true;
  mapped_again = true;
  page = 4096;
  found = area;
}

abbrev after_calls : Switch
after_calls = (switch_set_if_desc files 3 (some lab) (switch_del_vlan_desc 7 store).1).1

Calls-IsStore_example : IsStore (λ p. 0) after_calls × (after_calls.mm.lock ≡ store.mm.lock)
Calls-IsStore_example =
    Calls-IsStore files files_limit (λ p. 0) store after_calls store-IsStore
      (Calls.then_call (Calls.then_call Calls.none_yet (Call.no_vlan_desc 7))
        (Call.if_desc 3 (some lab)))

switch_set_vlan_desc-refines_example :
    ((memory : Bool) × Agree vlans
        (switch_set_vlan_desc files 9 (some lab) store)
        (spec_vlan memory 9 (some lab) (vlans store)))
    × IsKeyed (switch_set_vlan_desc files 9 (some lab) store).1.vlan_descs
switch_set_vlan_desc-refines_example =
    switch_set_vlan_desc-refines files 9 (some lab) store (tt, tt)

abbrev described : Switch
described = record store { if_descs = record { ptr = 200; key = 3; text = lab } ∷ [] }

switch_set_if_desc-refines_example :
    ((memory : Bool) × Agree interfaces
        (switch_set_if_desc files 3 none described)
        (spec_set memory 3 (45 ∷ []) (cut none) (interfaces described)))
    × IsKeyed (switch_set_if_desc files 3 none described).1.if_descs
switch_set_if_desc-refines_example = switch_set_if_desc-refines files 3 none described (tt, tt)

abbrev with_tag : Switch
with_tag = record store { if_tags = record { ptr = 200; key = 3; text = 97 ∷ [] } ∷ [] }

with_tag-IsTagged : IsTagged with_tag.if_tags
with_tag-IsTagged = ((tt, tt), (tt, tt))

switch_set_if_tag-IsTagged_example :
    let r = switch_set_if_tag files 4 (some lab) 0 with_tag in
    IsTagged r.1.if_tags
    × (((r.0 ≡ declined) × (r.1.if_tags ≡ with_tag.if_tags))
        ⊎ ((r.0 ≡ success)
            × Unsaid lab with_tag.if_tags
            × (switch_get_if_tag 4 r.1 ≡ some lab)
            × ((k : ℕ) → k ≢ 4 → switch_get_if_tag k r.1 ≡ switch_get_if_tag k with_tag)))
switch_set_if_tag-IsTagged_example =
    switch_set_if_tag-IsTagged files 4 lab with_tag with_tag-IsTagged (omega arith)

abbrev is_lab : Text → ℤ
is_lab [] = ℤ.negsuc 0
is_lab (c ∷ cs) = if c == 108 then ℤ.pos 0 else ℤ.negsuc 0

store-HasSlots : HasSlots store
unfolding zeroed
store-HasSlots = (refl, refl)

switch_auth-switch_set_passwd_example :
    let r = switch_set_passwd (ℤ.pos 1) (ℤ.pos 15) (some lab) store in
    (has_password (ℤ.pos 1) (ℤ.pos 15) ≡ true
      → (r.0 ≡ success)
        × (switch_auth (ℤ.pos 1) (ℤ.pos 15) (some is_lab) r.1 ≡ is_lab (take 30 lab))
        × ((type' level' : ℤ)
            → ¬ ((type' ≡ ℤ.pos 1) × (level' ≡ ℤ.pos 15))
            → switch_auth type' level' (some is_lab) r.1
              ≡ switch_auth type' level' (some is_lab) store))
    × (has_password (ℤ.pos 1) (ℤ.pos 15) ≡ false
        → (r.0 ≡ failed einval) × (switch_auth (ℤ.pos 1) (ℤ.pos 15) (some is_lab) store ≡ ℤ.pos 22))
switch_auth-switch_set_passwd_example =
    switch_auth-switch_set_passwd (ℤ.pos 1) (ℤ.pos 15) lab is_lab store store-HasSlots

abbrev quiet : SwitchOperations
quiet = record { backend_init = λ s. (false, s); vlan_add = λ vlan_id s. (false, s) }

quiet-LeavesDescs : LeavesDescs quiet
quiet-LeavesDescs = (λ s. refl, λ vlan_id s. refl)

quiet_starts :
    (fill_switch files quiet (zeroed area).cdp (zeroed area).rstp (zeroed area)).0 ≡ false
unfolding fill_switch describe_vlans add_default_vlans switch_add_vlan_desc put_entry find_key
    write_text add_entry switch_init_rstp switch_init_cdp switch_set_rstp switch_set_cdp zeroed
    mm_alloc find_gap find_end alloc_last mm_extend mm_lock mm_unlock default_vlan_name
quiet_starts = refl
