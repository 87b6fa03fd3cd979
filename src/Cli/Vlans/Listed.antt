-- ===== src/Cli/Vlans/Listed.antt =====
-- What parse_vlan_list makes of a list of VLANs and ranges.
use mathlib.Core.List.{append_assoc}
use lisa_user.Base.{
  ℕ, zero, suc, ◌+◌, ◌-◌, ◌*◌, ◌/◌, ◌%◌, ◌≤◌, ◌<◌, ◌≡◌, refl, ap, ◌∙◌, Bool, true, false, List, [],
  ◌∷◌, ◌++◌, Text, All, ◌==◌, ltb, Bool-cases, inl, inr, arith,
}
use lisa_user.Cli.Addresses.{is_digit, atoi, atoi_from}
use lisa_user.Switch.Descs.{sw_invalid_vlan}
use lisa_user.Cli.Vlans.{Bitmap, mark_range, parse_vlans, decimal_digits, decimal}

abbrev pub power : ℕ → ℕ
power zero = 1
power (suc k) = 10 * power k

is_digit-add : (d : ℕ) → d < 10 → is_digit (48 + d) ≡ true
unfolding is_digit
is_digit-add d small = ground arith

atoi_from-digit :
    (x d : ℕ) (rest : Text) → d < 10 → atoi_from x ((48 + d) ∷ rest) ≡ atoi_from (x * 10 + d) rest
unfolding atoi_from
atoi_from-digit x d rest small =
    let same : x * 10 + ((48 + d) - 48) ≡ x * 10 + d = omega arith in
    rw (is_digit-add d small, same) refl

-- reading a number back from its digits
atoi_from-decimal_digits :
    (k n : ℕ) (rest : Text)
    → n < power k
    → 0 < k
    → atoi_from 0 (decimal_digits k n ++ rest) ≡ atoi_from n rest
unfolding decimal_digits
atoi_from-decimal_digits zero n rest small some_digit = absurd (omega arith)
atoi_from-decimal_digits (suc k) n rest small some_digit = elim (Bool-cases (ltb n 10)) [
  | inl e ↦
      rw (decimal_digits, e)
        (atoi_from-digit 0 n rest (ground arith) ∙ ap (λ m. atoi_from m rest) (omega arith))
  | inr e ↦
      let big : 10 ≤ n = ground arith in
      let last = (48 + n % 10) ∷ [] in
      let more : 0 < k = elim (Bool-cases (k == 0)) [
        | inl z ↦ let none_left : k ≡ 0 = ground arith in absurd (omega (arith, ap power none_left))
        | inr z ↦ ground arith
      ] in
      let before = atoi_from-decimal_digits k (n / 10) (last ++ rest) (omega arith) more in
      rw (decimal_digits, e)
        (ap (atoi_from 0) (append_assoc (decimal_digits k (n / 10)) last rest)
          ∙ before
          ∙ atoi_from-digit (n / 10) (n % 10) rest (omega arith)
          ∙ ap (λ m. atoi_from m rest) (omega arith))
]

-- Nothing that is read past a comma, a dash or the end.
atoi-decimal :
    (n : ℕ) (rest : Text) → n ≤ 4094 → atoi_from n rest ≡ n → atoi (decimal n ++ rest) ≡ n
unfolding atoi
atoi-decimal n rest small ends =
    atoi_from-decimal_digits 10 n rest (omega arith) (omega arith) ∙ ends

parse_vlans-digit :
    (mark : ℕ → Bitmap → Bitmap) (d : ℕ) (rest : Text) (second : Bool) (low : ℕ) (last : Text)
    (bmp : Bitmap)
    → d < 10
    → parse_vlans mark ((48 + d) ∷ rest) second low last bmp
      ≡ parse_vlans mark rest second low last bmp
unfolding parse_vlans
parse_vlans-digit mark d rest false low last bmp small = rw (parse_vlans, is_digit-add d small) refl
parse_vlans-digit mark d rest true low last bmp small = rw (parse_vlans, is_digit-add d small) refl

-- The loop passes over the digits of a number.
parse_vlans-digits :
    (mark : ℕ → Bitmap → Bitmap) (k n : ℕ) (rest : Text) (second : Bool) (low : ℕ) (last : Text)
    (bmp : Bitmap)
    → parse_vlans mark (decimal_digits k n ++ rest) second low last bmp
      ≡ parse_vlans mark rest second low last bmp
unfolding decimal_digits
parse_vlans-digits mark zero n rest second low last bmp = refl
parse_vlans-digits mark (suc k) n rest second low last bmp = elim (Bool-cases (ltb n 10)) [
  | inl e ↦
      rw (decimal_digits, e) (parse_vlans-digit mark n rest second low last bmp (ground arith))
  | inr e ↦
      let digit = (48 + n % 10) ∷ [] in
      let at = λ (t : Text). parse_vlans mark t second low last bmp in
      rw (decimal_digits, e)
        (ap at (append_assoc (decimal_digits k (n / 10)) digit rest)
          ∙ parse_vlans-digits mark k (n / 10) (digit ++ rest) second low last bmp
          ∙ parse_vlans-digit mark (n % 10) rest second low last bmp (omega arith))
]

-- One VLAN, or a range of them.
pub data Item : Type 0 where
  one : ℕ → Item
  range : ℕ → ℕ → Item

abbrev pub item_text : Item → Text → Text
item_text (one n) rest = decimal n ++ rest
item_text (range a b) rest = decimal a ++ (45 ∷ (decimal b ++ rest))

-- Items with commas between them, of which there is at least one.
abbrev pub items_text : Item → List Item → Text
items_text i [] = item_text i []
items_text i (j ∷ is) = item_text i (44 ∷ items_text j is)

abbrev pub IsVlan : ℕ → Type 0
IsVlan n = (1 ≤ n) × (n ≤ 4094)

abbrev pub IsItem : Item → Type 0
IsItem (one n) = IsVlan n
IsItem (range a b) = IsVlan a × IsVlan b

-- The bitmap after each item; a range is the last that is read.
abbrev pub read_items : (ℕ → Bitmap → Bitmap) → Item → List Item → Bitmap → ℕ × Bitmap
read_items mark (one n) [] bmp = (0, mark n bmp)
read_items mark (range a b) [] bmp = (0, mark_range mark a b bmp)
read_items mark (one n) (j ∷ is) bmp = read_items mark j is (mark n bmp)
read_items mark (range a b) (j ∷ is) bmp = (2, mark_range mark a b bmp)

IsVlan-valid : (n : ℕ) → IsVlan n → sw_invalid_vlan n ≡ false
unfolding sw_invalid_vlan
IsVlan-valid n h = ground arith

atoi-decimal_end : (n : ℕ) → IsVlan n → atoi (decimal n ++ []) ≡ n
unfolding atoi_from
atoi-decimal_end n h = atoi-decimal n [] h.1 refl

atoi-decimal_behind :
    (n c : ℕ) (rest : Text) → IsVlan n → c < 48 → atoi (decimal n ++ (c ∷ rest)) ≡ n
unfolding atoi_from is_digit
atoi-decimal_behind n c rest h low = atoi-decimal n (c ∷ rest) h.1 (ground arith)

valid_behind :
    (last : Text) (n : ℕ) → atoi last ≡ n → IsVlan n → sw_invalid_vlan (atoi last) ≡ false
valid_behind last n e h = rw (e) (IsVlan-valid n h)

module _ (mark : ℕ → Bitmap → Bitmap) where
  -- what the loop does at a comma and at a dash behind the number n
  comma_behind :
      (rest last : Text) (n low : ℕ) (bmp : Bitmap)
      → atoi last ≡ n
      → IsVlan n
      → parse_vlans mark (44 ∷ rest) false low last bmp
        ≡ parse_vlans mark rest false n rest (mark n bmp)
  unfolding parse_vlans is_digit
  comma_behind rest last n low bmp e h =
      rw (parse_vlans, valid_behind last n e h) refl
      ∙ ap (λ k. parse_vlans mark rest false k rest (mark k bmp)) e

  dash_behind :
      (rest last : Text) (n low : ℕ) (bmp : Bitmap)
      → atoi last ≡ n
      → IsVlan n
      → parse_vlans mark (45 ∷ rest) false low last bmp ≡ parse_vlans mark rest true n rest bmp
  unfolding parse_vlans is_digit
  dash_behind rest last n low bmp e h =
      rw (parse_vlans, valid_behind last n e h) refl
      ∙ ap (λ k. parse_vlans mark rest true k rest bmp) e

  end_behind :
      (last : Text) (n low : ℕ) (bmp : Bitmap)
      → atoi last ≡ n
      → IsVlan n
      → (parse_vlans mark [] false low last bmp ≡ (0, mark n bmp))
        × (parse_vlans mark [] true low last bmp ≡ (0, mark_range mark low n bmp))
  unfolding parse_vlans
  end_behind last n low bmp e h = (rw (e, IsVlan-valid n h) refl, rw (e, IsVlan-valid n h) refl)

  comma_behind_range :
      (rest last : Text) (n low : ℕ) (bmp : Bitmap)
      → atoi last ≡ n
      → IsVlan n
      → parse_vlans mark (44 ∷ rest) true low last bmp ≡ (2, mark_range mark low n bmp)
  unfolding parse_vlans is_digit
  comma_behind_range rest last n low bmp e h = rw (e, IsVlan-valid n h) refl

  pub parse_vlans-items :
      (i : Item) (is : List Item) (low : ℕ) (bmp : Bitmap)
      → All IsItem (i ∷ is)
      → parse_vlans mark (items_text i is) false low (items_text i is) bmp
        ≡ read_items mark i is bmp
  parse_vlans-items (one n) [] low bmp h =
      parse_vlans-digits mark 10 n [] false low _ bmp
      ∙ (end_behind _ n low bmp (atoi-decimal_end n h.0) h.0).0
  parse_vlans-items (one n) (j ∷ is) low bmp h =
      let rest = items_text j is in
      parse_vlans-digits mark 10 n (44 ∷ rest) false low _ bmp
      ∙ comma_behind rest _ n low bmp (atoi-decimal_behind n 44 rest h.0 (omega arith)) h.0
      ∙ parse_vlans-items j is n (mark n bmp) h.1
  parse_vlans-items (range a b) [] low bmp h =
      let rest = decimal b ++ [] in
      parse_vlans-digits mark 10 a (45 ∷ rest) false low _ bmp
      ∙ dash_behind rest _ a low bmp (atoi-decimal_behind a 45 rest h.0.0 (omega arith)) h.0.0
      ∙ parse_vlans-digits mark 10 b [] true a _ bmp
      ∙ (end_behind _ b a bmp (atoi-decimal_end b h.0.1) h.0.1).1
  parse_vlans-items (range a b) (j ∷ is) low bmp h =
      let more = items_text j is in
      let rest = decimal b ++ (44 ∷ more) in
      parse_vlans-digits mark 10 a (45 ∷ rest) false low _ bmp
      ∙ dash_behind rest _ a low bmp (atoi-decimal_behind a 45 rest h.0.0 (omega arith)) h.0.0
      ∙ parse_vlans-digits mark 10 b (44 ∷ more) true a _ bmp
      ∙ comma_behind_range more _ b a bmp (atoi-decimal_behind b 44 more h.0.1 (omega arith)) h.0.1
