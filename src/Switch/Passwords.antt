-- ===== src/Switch/Passwords.antt =====
-- switch_auth, switch_set_passwd, and the configurations of CDP and RSTP read and written whole.
use lisa_user.Base.{
  ℕ, zero, suc, List, [], ◌∷◌, Option, none, some, Text, copy_text, get_or, if◌then◌else◌, ◌==◌,
  leb,
}
use lisa_user.Mm.{mm_lock, mm_unlock}
use lisa_user.Switch.Store.{
  Switch, Status, success, failed, einval, CdpConfiguration, RstpConfiguration, sw_pass_len,
  sw_secret_len, sw_max_vty, sw_max_enable,
}

-- a signed int
pub data ℤ : Type 0 where
  pos : ℕ → ℤ
  negsuc : ℕ → ℤ

abbrev pub shared_auth_vty : ℤ
shared_auth_vty = ℤ.pos 0

abbrev pub shared_auth_enable : ℤ
shared_auth_enable = ℤ.pos 1

-- The array that a password lies in, and its level; none for what the switch statement refuses.
pub data Slot : Type 0 where
  vty : ℕ → Slot
  enable : ℕ → Slot

abbrev pub up_to : ℕ → (ℕ → Slot) → ℤ → Option Slot
up_to top slot (ℤ.negsuc n) = none
up_to top slot (ℤ.pos n) = if leb n top then some (slot n) else none

unfoldable pub slot_of : ℤ → ℤ → Option Slot
slot_of (ℤ.negsuc n) level = none
slot_of (ℤ.pos n) level =
    if n == 0
    then up_to sw_max_vty Slot.vty level
    else if n == 1
    then up_to sw_max_enable Slot.enable level
    else none

unfoldable pub set_elem {ℓ} : {A : Type ℓ} → ℕ → A → List A → List A
set_elem i y [] = []
set_elem zero y (x ∷ xs) = y ∷ xs
set_elem (suc i) y (x ∷ xs) = x ∷ set_elem i y xs

abbrev pub password_at : Slot → Switch → Text
password_at (Slot.vty level) s = get_or s.vty level []
password_at (Slot.enable level) s = get_or s.enable level []

unfoldable pub write_password : Slot → Text → Switch → Switch
write_password (Slot.vty level) passwd s = record s {
  vty = set_elem level (copy_text sw_pass_len passwd) s.vty;
}
write_password (Slot.enable level) passwd s = record s {
  enable = set_elem level (copy_text sw_secret_len passwd) s.enable;
}

-- `auth` is the caller's function with its private argument. Without one the answer is -1, and on a
-- bad type or level it is EINVAL, which is 22.
unfoldable pub switch_auth : ℤ → ℤ → Option (Text → ℤ) → Switch → ℤ
switch_auth type level none s = ℤ.negsuc 0
switch_auth type level (some auth) s = elim (slot_of type level) [
  | none ↦ ℤ.pos 22
  | some slot ↦ auth (password_at slot s)
]

unfoldable pub switch_set_passwd : ℤ → ℤ → Option Text → Switch → Status × Switch
switch_set_passwd type level none s = (failed einval, s)
switch_set_passwd type level (some passwd) s =
    let locked = record s { mm = mm_lock s.mm } in
    elim (slot_of type level) [
      | none ↦ (failed einval, record s { mm = mm_unlock locked.mm })
      | some slot ↦ (success, write_password slot passwd (record s { mm = mm_unlock locked.mm }))
    ]

unfoldable pub switch_set_cdp : CdpConfiguration → Switch → Switch
switch_set_cdp cdp s = record s { mm = mm_unlock (mm_lock s.mm); cdp = cdp }

unfoldable pub switch_get_cdp : Switch → CdpConfiguration
switch_get_cdp s = s.cdp

unfoldable pub switch_set_rstp : RstpConfiguration → Switch → Switch
switch_set_rstp rstp s = record s { mm = mm_unlock (mm_lock s.mm); rstp = rstp }

unfoldable pub switch_get_rstp : Switch → RstpConfiguration
switch_get_rstp s = s.rstp
