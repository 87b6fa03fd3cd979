-- ===== src/Cli/Vlans/Selected.antt =====
-- Which VLANs parse_vlan_list selects, in both of its copies.
use lisa_user.Base.{
  ℕ, zero, suc, ◌+◌, ◌-◌, ◌≡◌, refl, ap, ◌∙◌, Bool, true, false, not, ◌&&◌, ◌||◌, List, [], ◌∷◌,
  Text, All, ◌==◌, leb, ltb, Bool-cases, inl, inr, arith,
}
use lisa_user.Cli.Addresses.{is_digit, atoi}
use lisa_user.Switch.Descs.{sw_invalid_vlan}
use lisa_user.Cli.Vlans.{
  Bitmap, sw_bitmap_set, sw_bitmap_reset, mark_rounds, parse_vlans, parse_vlan_list,
  swctl_allow_rounds, swctl_parse_vlans, swctl_parse_vlan_list,
}
use lisa_user.Cli.Vlans.Listed.{Item, one, range, items_text, IsItem, read_items, parse_vlans-items}

mark_rounds-set :
    (n low : ℕ) (bmp : Bitmap) (v : ℕ)
    → mark_rounds sw_bitmap_set n low bmp v ≡ ((leb low v && ltb v (low + n)) || bmp v)
unfolding mark_rounds sw_bitmap_set
mark_rounds-set zero low bmp v = ground arith
mark_rounds-set (suc n) low bmp v =
    let later = mark_rounds-set n (suc low) (sw_bitmap_set low bmp) v in ground (arith, later)

abbrev pub covers : Item → ℕ → Bool
covers (one n) v = v == n
covers (range a b) v = leb a v && leb v b

abbrev pub any_covers : Item → List Item → ℕ → Bool
any_covers i [] v = covers i v
any_covers i (j ∷ is) v = covers i v || any_covers j is v

-- Only the last item may be a range.
abbrev pub range_is_last : Item → List Item → Bool
range_is_last i [] = true
range_is_last (one n) (j ∷ is) = range_is_last j is
range_is_last (range a b) (j ∷ is) = false

-- The VLANs that are listed up to the first range, with that range.
abbrev pub up_to_range : Item → List Item → ℕ → Bool
up_to_range i [] v = covers i v
up_to_range (one n) (j ∷ is) v = (v == n) || up_to_range j is v
up_to_range (range a b) (j ∷ is) v = covers (range a b) v

-- What is read from a list: all its items on top of the bitmap, or those up to a range and the code 2.
abbrev IsRead : Bool → (ℕ → Bool) → (ℕ → Bool) → Bitmap → ℕ × Bitmap → Type 0
IsRead good covered before bmp r =
    (good ≡ true → (r.0 ≡ 0) × ((v : ℕ) → r.1 v ≡ (covered v || bmp v)))
    × (good ≡ false → (r.0 ≡ 2) × ((v : ℕ) → r.1 v ≡ (before v || bmp v)))

read_items-IsRead :
    (i : Item) (is : List Item) (bmp : Bitmap)
    → IsRead
        (range_is_last i is)
        (any_covers i is)
        (up_to_range i is)
        bmp
        (read_items sw_bitmap_set i is bmp)
unfolding sw_bitmap_set
read_items-IsRead (one n) [] bmp = (λ t. (refl, λ v. ground arith), λ f. absurd cc)
read_items-IsRead (range a b) [] bmp =
    (λ t. (refl, λ v. ground (arith, mark_rounds-set (suc b - a) a bmp v)), λ f. absurd cc)
read_items-IsRead (one n) (j ∷ is) bmp =
    let later = read_items-IsRead j is (sw_bitmap_set n bmp) in
    (
      λ t. ((later.0 t).0, λ v. (later.0 t).1 v ∙ ground arith),
      λ f. ((later.1 f).0, λ v. (later.1 f).1 v ∙ ground arith),
    )
read_items-IsRead (range a b) (j ∷ is) bmp =
    (λ t. absurd cc, λ f. (refl, λ v. ground (arith, mark_rounds-set (suc b - a) a bmp v)))

-- On a list of VLANs and ranges of VLANs, from 1 to 4094, with commas between them: if only the last
-- is a range, parse_vlan_list answers 0 and the bitmap holds exactly the VLANs that are listed; if
-- an earlier one is a range, it answers 2, which its caller reports as a bad list, and the bitmap
-- holds the VLANs that are listed up to the first range, with that range.
pub parse_vlan_list-selects :
    (i : Item) (is : List Item)
    → All IsItem (i ∷ is)
    → let r = parse_vlan_list (items_text i is) in
      (range_is_last i is ≡ true → (r.0 ≡ 0) × ((v : ℕ) → r.1 v ≡ any_covers i is v))
      × (range_is_last i is ≡ false → (r.0 ≡ 2) × ((v : ℕ) → r.1 v ≡ up_to_range i is v))
unfolding parse_vlan_list
parse_vlan_list-selects i is h =
    let read = read_items-IsRead i is (λ n. false) in
    let parsed = parse_vlans-items sw_bitmap_set i is 0 (λ n. false) h in
    (
      λ t. (
        ap (λ r. r.0) parsed ∙ (read.0 t).0,
        λ v. ap (λ r. r.1 v) parsed ∙ (read.0 t).1 v ∙ ground arith,
      ),
      λ f. (
        ap (λ r. r.0) parsed ∙ (read.1 f).0,
        λ v. ap (λ r. r.1 v) parsed ∙ (read.1 f).1 v ∙ ground arith,
      ),
    )

abbrev pub AreOpposite : ℕ × Bitmap → ℕ × Bitmap → Type 0
AreOpposite r q = (r.0 ≡ q.0) × ((v : ℕ) → q.1 v ≡ not (r.1 v))

set-opposite :
    (n : ℕ) (bmp inverse : Bitmap)
    → ((v : ℕ) → inverse v ≡ not (bmp v))
    → (v : ℕ) → sw_bitmap_reset n inverse v ≡ not (sw_bitmap_set n bmp v)
unfolding sw_bitmap_set sw_bitmap_reset
set-opposite n bmp inverse h v = ground (arith, h v)

allow_rounds-opposite :
    (n low : ℕ) (bmp inverse : Bitmap)
    → ((v : ℕ) → inverse v ≡ not (bmp v))
    → (v : ℕ) → swctl_allow_rounds n low inverse v ≡ not (mark_rounds sw_bitmap_set n low bmp v)
unfolding mark_rounds swctl_allow_rounds
allow_rounds-opposite zero low bmp inverse h v = h v
allow_rounds-opposite (suc n) low bmp inverse h v =
    allow_rounds-opposite n (suc low) (sw_bitmap_set low bmp) (sw_bitmap_reset low inverse)
      (set-opposite low bmp inverse h) v

parse_vlans-opposite :
    (ptr : Text) (second : Bool) (low : ℕ) (last : Text) (bmp inverse : Bitmap)
    → ((v : ℕ) → inverse v ≡ not (bmp v))
    → AreOpposite
        (parse_vlans sw_bitmap_set ptr second low last bmp)
        (swctl_parse_vlans ptr second low last inverse)
unfolding parse_vlans swctl_parse_vlans
parse_vlans-opposite [] false low last bmp inverse h =
    elim (Bool-cases (sw_invalid_vlan (atoi last))) [
      | inl e ↦ rw (e) (refl, h)
      | inr e ↦ rw (e) (refl, set-opposite (atoi last) bmp inverse h)
    ]
parse_vlans-opposite [] true low last bmp inverse h =
    elim (Bool-cases (sw_invalid_vlan (atoi last))) [
      | inl e ↦ rw (e) (refl, h)
      | inr e ↦ rw (e) (refl, allow_rounds-opposite (suc (atoi last) - low) low bmp inverse h)
    ]
parse_vlans-opposite (c ∷ ptr) false low last bmp inverse h = elim (Bool-cases (is_digit c)) [
  | inl e ↦
      rw (parse_vlans, swctl_parse_vlans, e) (parse_vlans-opposite ptr false low last bmp inverse h)
  | inr e ↦ elim (Bool-cases (sw_invalid_vlan (atoi last))) [
    | inl bad ↦ elim (Bool-cases (c == 45)) [
      | inl dash ↦ rw (parse_vlans, swctl_parse_vlans, e, dash, bad) (refl, h)
      | inr no_dash ↦ elim (Bool-cases (c == 44)) [
        | inl comma ↦ rw (parse_vlans, swctl_parse_vlans, e, no_dash, comma, bad) (refl, h)
        | inr other ↦ rw (parse_vlans, swctl_parse_vlans, e, no_dash, other) (refl, h)
      ]
    ]
    | inr good ↦ elim (Bool-cases (c == 45)) [
      | inl dash ↦
          rw (parse_vlans, swctl_parse_vlans, e, dash, good, dash)
            (parse_vlans-opposite ptr true (atoi last) ptr bmp inverse h)
      | inr no_dash ↦ elim (Bool-cases (c == 44)) [
        | inl comma ↦
            rw (parse_vlans, swctl_parse_vlans, e, no_dash, comma, good, no_dash)
              (parse_vlans-opposite ptr false (atoi last) ptr (sw_bitmap_set (atoi last) bmp)
                (sw_bitmap_reset (atoi last) inverse) (set-opposite (atoi last) bmp inverse h))
        | inr other ↦ rw (parse_vlans, swctl_parse_vlans, e, no_dash, other) (refl, h)
      ]
    ]
  ]
]
parse_vlans-opposite (c ∷ ptr) true low last bmp inverse h = elim (Bool-cases (is_digit c)) [
  | inl e ↦
      rw (parse_vlans, swctl_parse_vlans, e) (parse_vlans-opposite ptr true low last bmp inverse h)
  | inr e ↦ elim (Bool-cases (c == 44)) [
    | inr other ↦ rw (parse_vlans, swctl_parse_vlans, e, other) (refl, h)
    | inl comma ↦ elim (Bool-cases (sw_invalid_vlan (atoi last))) [
      | inl bad ↦ rw (parse_vlans, swctl_parse_vlans, e, comma, bad) (refl, h)
      | inr good ↦
          rw (parse_vlans, swctl_parse_vlans, e, comma, good)
            (refl, allow_rounds-opposite (suc (atoi last) - low) low bmp inverse h)
    ]
  ]
]

-- The two copies of parse_vlan_list agree on every text: they answer the same code, and the bitmap of
-- swctl has a bit set where that of the command line interface has it clear.
pub parse_vlan_lists_agree :
    (list : Text) → AreOpposite (parse_vlan_list list) (swctl_parse_vlan_list list)
unfolding parse_vlan_list swctl_parse_vlan_list
parse_vlan_lists_agree list =
    parse_vlans-opposite list false 0 list (λ n. false) (λ n. true) (λ v. refl)
