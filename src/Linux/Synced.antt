-- ===== src/Linux/Synced.antt =====
-- The virtual interfaces and the bridge of a port agree with its mode and its allowed VLANs, and the
-- operations of the middleware keep them so.
use lisa_user.Base.{
  ℕ, ◌≡◌, refl, ap, ◌∙◌, Bool, true, false, not, ◌&&◌, ◌||◌, List, [], ◌∷◌, if◌then◌else◌, ◌==◌,
  Bool-cases, inl, inr, if-keep, if-split, arith,
}
use lisa_user.Cli.Vlans.{Bitmap, sw_bitmap_set, sw_bitmap_reset}
use lisa_user.Linux.{
  IfType, switched, routed, virtual, IfMode, access, trunk, SwitchPort, Kernel, Vifs, make_vif,
  add_vifs, take_vif, remove_vifs,
}

abbrev pub listed : ℕ → List ℕ → Bool
listed v [] = false
listed v (w ∷ vlans) = (v == w) || listed v vlans

-- The kernel grants every request.
pub record Works (kernel : Kernel) : Type 0 where
  pub creates : (v : ℕ) → kernel.create_vif v ≡ true
  pub removes : (v : ℕ) → kernel.remove_vif v ≡ true
  pub unbridges : (v : ℕ) → kernel.br_remove_vif v ≡ true
  pub enters : (v : ℕ) → kernel.br_add_if v ≡ true
  pub leaves : (v : ℕ) → kernel.br_remove_if v ≡ true
  pub rooms : (v : ℕ) → kernel.has_room v ≡ true
  pub stays : (v : ℕ) → kernel.area_stays v ≡ true

-- Each virtual interface has its entry, no other has one, and nothing undefined has happened.
abbrev pub IsListed : Vifs → Type 0
IsListed vifs = (vifs.undefined ≡ false) × ((v : ℕ) → vifs.entries v ≡ vifs.devices v)

-- add_vif_data finds its room without moving the area.
abbrev pub HasSpace : Kernel → Type 0
HasSpace kernel = (v : ℕ) → (kernel.has_room v ≡ true) × (kernel.area_stays v ≡ true)

pub Works-HasSpace : (kernel : Kernel) → Works kernel → HasSpace kernel
Works-HasSpace kernel works v = (works.rooms v, works.stays v)

make_vif-IsListed :
    (kernel : Kernel) (vlan : ℕ) (vifs : Vifs)
    → HasSpace kernel
    → IsListed vifs
    → IsListed (make_vif kernel vlan vifs)
unfolding make_vif sw_bitmap_set
make_vif-IsListed kernel vlan vifs space h =
    let (room, stays) = space vlan in
    if-keep IsListed (kernel.create_vif vlan) _ vifs
      (ground (arith, h.0, stays), λ v. rw (room) (ground (arith, h.1 v))) h

pub make_vif-keeps :
    (kernel : Kernel) (p : Bool) (vlan : ℕ) (vifs : Vifs)
    → HasSpace kernel
    → IsListed vifs
    → IsListed (if p then make_vif kernel vlan vifs else vifs)
make_vif-keeps kernel p vlan vifs space h =
    if-keep IsListed p _ vifs (make_vif-IsListed kernel vlan vifs space h) h

pub add_vifs-IsListed :
    (kernel : Kernel) (bitmap : Bitmap) (vlans : List ℕ) (ok : Bool) (vifs : Vifs)
    → HasSpace kernel
    → IsListed vifs
    → IsListed (add_vifs kernel bitmap vlans ok vifs).1
unfolding add_vifs
add_vifs-IsListed kernel bitmap [] ok vifs space h = h
add_vifs-IsListed kernel bitmap (w ∷ vlans) ok vifs space h =
    add_vifs-IsListed kernel bitmap vlans _ _ space
      (make_vif-keeps kernel (bitmap w) w vifs space h)

pub take_vif-IsListed :
    (vlan : ℕ) (vifs : Vifs)
    → vifs.devices vlan ≡ true
    → IsListed vifs
    → IsListed (take_vif vlan vifs)
unfolding take_vif sw_bitmap_reset
take_vif-IsListed vlan vifs there h = (ground (arith, h.0, h.1 vlan), λ v. ground (arith, h.1 v))

pub remove_vifs-IsListed :
    (kernel : Kernel) (bitmap : Bitmap) (vlans : List ℕ) (ok : Bool) (vifs : Vifs)
    → IsListed vifs
    → IsListed (remove_vifs kernel bitmap vlans ok vifs).1
unfolding remove_vifs
remove_vifs-IsListed kernel bitmap [] ok vifs h = h
remove_vifs-IsListed kernel bitmap (w ∷ vlans) ok vifs h =
    remove_vifs-IsListed kernel bitmap vlans _ _ (
      if-split IsListed
        ((bitmap w && (vifs.devices w && kernel.br_remove_vif w)) && kernel.remove_vif w) _ _
        (λ t. take_vif-IsListed w vifs (ground arith) h) (λ f. h))

pub same-bit : (bitmap : Bitmap) (v w : ℕ) → ((v == w) && bitmap w) ≡ ((v == w) && bitmap v)
same-bit bitmap v w = elim (Bool-cases (v == w)) [
  | inl e ↦ let this : v ≡ w = ground arith in rw (this) refl
  | inr e ↦ rw (e) refl
]

pub make-bit :
    (kernel : Kernel) (p : Bool) (w v : ℕ) (vifs : Vifs)
    → Works kernel
    → (if p then make_vif kernel w vifs else vifs).devices v ≡ ((p && (v == w)) || vifs.devices v)
unfolding make_vif sw_bitmap_set
make-bit kernel false w v vifs works = refl
make-bit kernel true w v vifs works = rw (works.creates w) (ground arith)

take-bit :
    (kernel : Kernel) (p : Bool) (w v : ℕ) (vifs : Vifs)
    → Works kernel
    → (if (p && (vifs.devices w && kernel.br_remove_vif w)) && kernel.remove_vif w
          then take_vif w vifs
          else vifs).devices
        v
      ≡ (not (p && (v == w)) && vifs.devices v)
unfolding take_vif sw_bitmap_reset
take-bit kernel false w v vifs works = refl
take-bit kernel true w v vifs works =
    let same = same-bit vifs.devices v w in
    elim (Bool-cases (vifs.devices w)) [
      | inl e ↦ rw (e, works.unbridges w, works.removes w) (ground (arith, same, e))
      | inr e ↦ rw (e) (ground (arith, same, e))
    ]

pub add_vifs-bits :
    (kernel : Kernel) (bitmap : Bitmap) (vlans : List ℕ) (ok : Bool) (vifs : Vifs) (v : ℕ)
    → Works kernel
    → (add_vifs kernel bitmap vlans ok vifs).1.devices v
      ≡ ((listed v vlans && bitmap v) || vifs.devices v)
unfolding add_vifs
add_vifs-bits kernel bitmap [] ok vifs v works = refl
add_vifs-bits kernel bitmap (w ∷ vlans) ok vifs v works =
    let same = same-bit bitmap v w in
    add_vifs-bits kernel bitmap vlans _ _ v works
    ∙ ap (λ b. (listed v vlans && bitmap v) || b) (make-bit kernel (bitmap w) w v vifs works)
    ∙ ground (arith, same)

pub remove_vifs-bits :
    (kernel : Kernel) (bitmap : Bitmap) (vlans : List ℕ) (ok : Bool) (vifs : Vifs) (v : ℕ)
    → Works kernel
    → (remove_vifs kernel bitmap vlans ok vifs).1.devices v
      ≡ (not (listed v vlans && bitmap v) && vifs.devices v)
unfolding remove_vifs
remove_vifs-bits kernel bitmap [] ok vifs v works = refl
remove_vifs-bits kernel bitmap (w ∷ vlans) ok vifs v works =
    let same = same-bit bitmap v w in
    remove_vifs-bits kernel bitmap vlans _ _ v works
    ∙ ap (λ b. not (listed v vlans && bitmap v) && b) (take-bit kernel (bitmap w) w v vifs works)
    ∙ ground (arith, same)

abbrev pub is_trunk : IfType → IfMode → Bool
is_trunk switched trunk = true
is_trunk switched access = false
is_trunk routed mode = false
is_trunk virtual mode = false

abbrev pub is_access : IfType → IfMode → Bool
is_access switched access = true
is_access switched trunk = false
is_access routed mode = false
is_access virtual mode = false

-- A port that is a trunk has a virtual interface for exactly the VLANs of the switch that it allows,
-- and no other port has any.
abbrev pub HasVifs : List ℕ → SwitchPort → Type 0
HasVifs vlans port =
    (v : ℕ)
    → port.vifs.devices v
      ≡ (listed v vlans && (is_trunk port.device_type port.mode && port.allowed_vlans v))

-- Besides, its virtual interfaces have their entries, and a port is in the bridge of its access VLAN
-- just if it is an access port.
pub record IsSynced (vlans : List ℕ) (port : SwitchPort) : Type 0 where
  pub has_vifs : HasVifs vlans port
  pub has_entries : IsListed port.vifs
  pub in_bridge : port.bridges port.access_vlan ≡ is_access port.device_type port.mode

pub add_ret :
    (kernel : Kernel) (bitmap : Bitmap) (vlans : List ℕ) (vifs : Vifs)
    → Works kernel
    → (add_vifs kernel bitmap vlans true vifs).0 ≡ true
unfolding add_vifs
add_ret kernel bitmap [] vifs works = refl
add_ret kernel bitmap (w ∷ vlans) vifs works = elim (Bool-cases (bitmap w)) [
  | inl e ↦ rw (add_vifs, e, works.creates w) (add_ret kernel bitmap vlans _ works)
  | inr e ↦ rw (add_vifs, e) (add_ret kernel bitmap vlans _ works)
]

pub remove_ret :
    (kernel : Kernel) (bitmap : Bitmap) (vlans : List ℕ) (vifs : Vifs)
    → Works kernel
    → (remove_vifs kernel bitmap vlans true vifs).0 ≡ true
unfolding remove_vifs
remove_ret kernel bitmap [] vifs works = refl
remove_ret kernel bitmap (w ∷ vlans) vifs works =
    let tried = bitmap w && (vifs.devices w && kernel.br_remove_vif w) in
    let answer : (if tried then kernel.remove_vif w else true) ≡ true =
      ground (arith, works.removes w) in
    rw (remove_vifs, answer) (remove_ret kernel bitmap vlans _ works)
