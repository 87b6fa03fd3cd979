-- ===== src/Switch/Access.antt =====
-- Passwords set and then asked for.
use lisa_user.Base.{
  ℕ, zero, suc, ◌<◌, ◌≡◌, ◌≢◌, refl, sym, ap, ◌∙◌, List, [], ◌∷◌, some, Text, length, get_or, arith,
  leb, Bool, true, false, Bool-cases, Option, none, Option-cases, inl, inr, take,
}
use lisa_user.Mm.{Mm, mm_lock, mm_unlock}
use lisa_user.Switch.Store.{Switch, success, failed, einval}
use lisa_user.Switch.Passwords.{
  ℤ, Slot, slot_of, up_to, set_elem, password_at, write_password, switch_auth, switch_set_passwd,
}

-- The two arrays of struct switch_mem.
abbrev pub HasSlots : Switch → Type 0
HasSlots s = (length s.vty ≡ 16) × (length s.enable ≡ 16)

abbrev level_of : Slot → ℕ
level_of (Slot.vty level) = level
level_of (Slot.enable level) = level

up_to-level_of :
    (slot : ℕ → Slot) (level : ℤ) (r : Slot)
    → ((n : ℕ) → level_of (slot n) ≡ n)
    → up_to 15 slot level ≡ some r
    → level_of r < 16
up_to-level_of slot (ℤ.negsuc n) r same found = absurd (cc)
up_to-level_of slot (ℤ.pos n) r same found = elim (Bool-cases (leb n 15)) [
  | inl low ↦
      let first : some (slot n) ≡ some r = rw (low) at found in
      let is_slot : slot n ≡ r = cc in ground (arith, ap level_of (sym is_slot) ∙ same n)
  | inr high ↦ absurd (cc)
]

slot_of-level_of :
    (type level : ℤ) (slot : Slot) → slot_of type level ≡ some slot → level_of slot < 16
unfolding slot_of
slot_of-level_of (ℤ.negsuc n) level slot found = absurd (cc)
slot_of-level_of (ℤ.pos n) level slot found = ground (
  arith,
  up_to-level_of Slot.vty level slot (λ n. refl),
  up_to-level_of Slot.enable level slot (λ n. refl),
)

module _ {ℓ} {A : Type ℓ} (d y : A) where
  get_or-set_elem : (i : ℕ) (xs : List A) → i < length xs → get_or (set_elem i y xs) i d ≡ y
  unfolding set_elem
  get_or-set_elem i [] h = absurd (omega arith)
  get_or-set_elem zero (x ∷ xs) h = refl
  get_or-set_elem (suc i) (x ∷ xs) h = get_or-set_elem i xs (omega arith)

  get_or-set_elem_apart :
      (i j : ℕ) (xs : List A) → i ≢ j → get_or (set_elem i y xs) j d ≡ get_or xs j d
  unfolding set_elem
  get_or-set_elem_apart i j [] h = refl
  get_or-set_elem_apart zero zero (x ∷ xs) h = absurd (h refl)
  get_or-set_elem_apart zero (suc j) (x ∷ xs) h = refl
  get_or-set_elem_apart (suc i) zero (x ∷ xs) h = refl
  get_or-set_elem_apart (suc i) (suc j) (x ∷ xs) h = get_or-set_elem_apart i j xs (omega arith)

password_at-write_password :
    (slot : Slot) (passwd : Text) (s : Switch)
    → HasSlots s
    → level_of slot < 16
    → password_at slot (write_password slot passwd s) ≡ take 30 passwd
unfolding write_password
password_at-write_password (Slot.vty n) passwd s ok low =
    get_or-set_elem [] (take 30 passwd) n s.vty (omega arith)
password_at-write_password (Slot.enable n) passwd s ok low =
    get_or-set_elem [] (take 30 passwd) n s.enable (omega arith)

password_at-other :
    (slot other : Slot) (passwd : Text) (mm : Mm) (s : Switch)
    → other ≢ slot
    → password_at other (write_password slot passwd (record s { mm = mm })) ≡ password_at other s
unfolding write_password
password_at-other (Slot.vty n) (Slot.vty m) passwd mm s apart =
    get_or-set_elem_apart [] (take 30 passwd) n m s.vty (λ same. apart (cc))
password_at-other (Slot.enable n) (Slot.enable m) passwd mm s apart =
    get_or-set_elem_apart [] (take 30 passwd) n m s.enable (λ same. apart (cc))
password_at-other (Slot.vty n) (Slot.enable m) passwd mm s apart = refl
password_at-other (Slot.enable n) (Slot.vty m) passwd mm s apart = refl

module _ (auth : Text → ℤ) where
  switch_auth-slot :
      (type level : ℤ) (slot : Slot) (s : Switch)
      → slot_of type level ≡ some slot
      → switch_auth type level (some auth) s ≡ auth (password_at slot s)
  unfolding switch_auth
  switch_auth-slot type level slot s found = rw (switch_auth, found) refl

  switch_auth-other :
      (slot : Slot) (passwd : Text) (mm : Mm) (s : Switch) (type level : ℤ)
      → slot_of type level ≢ some slot
      → switch_auth type level (some auth) (write_password slot passwd (record s { mm = mm }))
        ≡ switch_auth type level (some auth) s
  unfolding switch_auth
  switch_auth-other slot passwd mm s type level apart = elim (Option-cases (slot_of type level)) [
    | inl refused ↦ rw (switch_auth, refused) refl
    | inr (other, found) ↦
        rw (switch_auth, found)
          (ap auth
            (password_at-other slot other passwd mm s (λ same. apart (found ∙ ap some same))))
  ]

-- The types and levels that have a password, written out: SHARED_AUTH_VTY, which is 0, and
-- SHARED_AUTH_ENABLE, which is 1, with a level from 0 to 15.
abbrev pub has_password : ℤ → ℤ → Bool
has_password (ℤ.pos zero) (ℤ.pos level) = leb level 15
has_password (ℤ.pos (suc zero)) (ℤ.pos level) = leb level 15
has_password _ _ = false

abbrev name_of : Slot → ℤ × ℤ
name_of (Slot.vty level) = (ℤ.pos 0, ℤ.pos level)
name_of (Slot.enable level) = (ℤ.pos 1, ℤ.pos level)

-- What slot_of answers, against the description.
abbrev Answers : ℤ → ℤ → Option Slot → Type 0
Answers type level found =
    (has_password type level ≡ true → (slot : Slot) × (found ≡ some slot))
    × (has_password type level ≡ false → found ≡ none)

slot_of-Answers : (type level : ℤ) → Answers type level (slot_of type level)
unfolding slot_of
slot_of-Answers (ℤ.negsuc n) level = ((λ t. absurd cc), (λ f. refl))
slot_of-Answers (ℤ.pos zero) (ℤ.negsuc m) = ((λ t. absurd cc), (λ f. refl))
slot_of-Answers (ℤ.pos zero) (ℤ.pos m) = ((λ t. (Slot.vty m, rw (t) refl)), (λ f. rw (f) refl))
slot_of-Answers (ℤ.pos (suc zero)) (ℤ.negsuc m) = ((λ t. absurd cc), (λ f. refl))
slot_of-Answers (ℤ.pos (suc zero)) (ℤ.pos m) =
    ((λ t. (Slot.enable m, rw (t) refl)), (λ f. rw (f) refl))
slot_of-Answers (ℤ.pos (suc (suc n))) level = ((λ t. absurd cc), (λ f. ground arith))

up_to-name :
    (slot : ℕ → Slot) (m : ℕ) (type : ℤ) (r : Slot)
    → ((n : ℕ) → name_of (slot n) ≡ (type, ℤ.pos n))
    → up_to 15 slot (ℤ.pos m) ≡ some r
    → (type ≡ (name_of r).0) × (ℤ.pos m ≡ (name_of r).1)
up_to-name slot m type r same found = elim (Bool-cases (leb m 15)) [
  | inl low ↦
      let first : some (slot m) ≡ some r = rw (low) at found in
      let is_slot : slot m ≡ r = cc in
      let name : name_of r ≡ (type, ℤ.pos m) = ap name_of (sym is_slot) ∙ same m in
      (sym (ap (λ n. n.0) name), sym (ap (λ n. n.1) name))
  | inr high ↦ absurd (cc)
]

beyond : {found : Option Slot} → found ≡ none → (slot : Slot) → found ≡ some slot → ⊥
beyond none_found slot found = cc

-- A slot is that of one type and level.
slot_of-name :
    (type level : ℤ) (slot : Slot)
    → slot_of type level ≡ some slot
    → (type ≡ (name_of slot).0) × (level ≡ (name_of slot).1)
unfolding slot_of
slot_of-name (ℤ.negsuc n) level slot found = absurd (cc)
slot_of-name (ℤ.pos zero) (ℤ.negsuc m) slot found = absurd (cc)
slot_of-name (ℤ.pos zero) (ℤ.pos m) slot found =
    up_to-name Slot.vty m (ℤ.pos 0) slot (λ n. refl) found
slot_of-name (ℤ.pos (suc zero)) (ℤ.negsuc m) slot found = absurd (cc)
slot_of-name (ℤ.pos (suc zero)) (ℤ.pos m) slot found =
    up_to-name Slot.enable m (ℤ.pos 1) slot (λ n. refl) found
slot_of-name (ℤ.pos (suc (suc n))) level slot found =
    absurd (beyond ((slot_of-Answers (ℤ.pos (suc (suc n))) level).1 refl) slot found)

-- switch_set_passwd with a password: for VTY or ENABLE and a level from 0 to 15 the answer is 0,
-- switch_auth for them hands the first 30 bytes of the password to the caller's function, and every
-- other type or level asks as before; for every other type or level the answer is -1 with EINVAL,
-- and switch_auth answers EINVAL.
pub switch_auth-switch_set_passwd :
    (type level : ℤ) (passwd : Text) (auth : Text → ℤ) (s : Switch)
    → HasSlots s
    → let r = switch_set_passwd type level (some passwd) s in
      (has_password type level ≡ true
        → (r.0 ≡ success)
          × (switch_auth type level (some auth) r.1 ≡ auth (take 30 passwd))
          × ((type' level' : ℤ)
              → ¬ ((type' ≡ type) × (level' ≡ level))
              → switch_auth type' level' (some auth) r.1 ≡ switch_auth type' level' (some auth) s))
      × (has_password type level ≡ false
          → (r.0 ≡ failed einval) × (switch_auth type level (some auth) s ≡ ℤ.pos 22))
unfolding switch_set_passwd switch_auth
switch_auth-switch_set_passwd type level passwd auth s ok = (
  λ t.
      let (slot, found) = (slot_of-Answers type level).0 t in
      let free = record s { mm = mm_unlock (mm_lock s.mm) } in
      let after = write_password slot passwd free in
      rw (switch_set_passwd, found)
        (
          refl,
          switch_auth-slot auth type level slot after found
              ∙ ap auth (
                  password_at-write_password slot passwd free ok
                    (slot_of-level_of type level slot found)),
          λ type' level' apart.
              switch_auth-other auth slot passwd (mm_unlock (mm_lock s.mm)) s type' level' (λ same.
                let this = slot_of-name type level slot found in
                let that = slot_of-name type' level' slot same in
                apart (that.0 ∙ sym this.0, that.1 ∙ sym this.1)),
        ),
  λ f.
      let refused = (slot_of-Answers type level).1 f in
      rw (switch_set_passwd, switch_auth, refused) (refl, refl),
)
