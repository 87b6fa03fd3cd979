-- ===== src/Cli/Vlans/Printed/Read.antt =====
-- What list_vlans prints, as parse_vlan_list reads it, and the width of its lines.
use mathlib.Core.List.{append_assoc}
use lisa_user.Base.{
  ℕ, zero, suc, ◌+◌, ◌/◌, ◌%◌, ◌≤◌, ◌<◌, ◌≡◌, ◌≢◌, refl, sym, ap, ◌∙◌, Bool, true, false, not, List,
  [], ◌∷◌, ◌++◌, Text, All, length, length-append, ◌==◌, leb, ltb, Bool-cases, Option-cases, inl,
  inr, arith,
}
use lisa_user.Switch.Store.{sw_max_vlan}
use lisa_user.Cli.Vlans.{
  Bitmap, decimal_digits, decimal, list_vlans_token, Line, tokens_length, line_start, list_lines,
  list_vlans, parse_vlan_list,
}
use lisa_user.Cli.Vlans.Listed.{Item, one, range, item_text, items_text, IsItem, power}
use lisa_user.Cli.Vlans.Selected.{any_covers, range_is_last, parse_vlan_list-selects}
use lisa_user.Cli.Vlans.Printed.{list_vlans_token-Printed}
use lisa_user.Cli.Vlans.Printed.Lines.{tokens_of, any_item, texts, list_lines-Covered}

-- the tokens of a line with commas between them
abbrev pub joined : List Text → Text
joined [] = []
joined (t ∷ []) = t
joined (t ∷ u ∷ ts) = t ++ (44 ∷ joined (u ∷ ts))

item_text-append : (i : Item) (rest : Text) → item_text i [] ++ rest ≡ item_text i rest
item_text-append (one n) rest = append_assoc (decimal n) [] rest
item_text-append (range a b) rest =
    append_assoc (decimal a) (45 ∷ (decimal b ++ [])) rest
    ∙ ap (λ t. decimal a ++ (45 ∷ t)) (append_assoc (decimal b) [] rest)

joined-texts : (i : Item) (is : List Item) → joined (texts (i ∷ is)) ≡ items_text i is
joined-texts i [] = refl
joined-texts i (j ∷ is) =
    ap (λ t. item_text i [] ++ (44 ∷ t)) (joined-texts j is)
    ∙ item_text-append i (44 ∷ items_text j is)

any_covers-any_item : (i : Item) (is : List Item) (v : ℕ) → any_covers i is v ≡ any_item (i ∷ is) v
any_covers-any_item i [] v = ground arith
any_covers-any_item i (j ∷ is) v = rw (any_covers-any_item j is v) refl

-- The tokens that list_vlans prints, over all its lines, are those of VLANs and ranges that hold
-- exactly the VLANs from 1 to 4094 that the bitmap allows.
pub list_vlans-exact :
    (bmp : Bitmap)
    → (is : List Item) × All IsItem is
      × (tokens_of (list_vlans bmp) ≡ texts is)
      × ((v : ℕ) → 1 ≤ v → v < 4095 → any_item is v ≡ not (bmp v))
unfolding list_vlans
list_vlans-exact bmp =
    let (is, items, tokens, cover, above) =
      list_lines-Covered bmp sw_max_vlan 1 false [] (omega arith) (omega arith) (omega arith) in
    (is, items, tokens, cover)

line_tokens : (later : Bool) (line : List Text) → tokens_of ((later, line) ∷ []) ≡ line
line_tokens later [] = refl
line_tokens later (t ∷ line) = ap (λ l. t ∷ l) (line_tokens later line)

read_back :
    (bmp : Bitmap) (line : List Text) (is : List Item)
    → line ≡ texts is
    → line ≢ []
    → All IsItem is
    → ((v : ℕ) → 1 ≤ v → v < 4095 → any_item is v ≡ not (bmp v))
    → let r = parse_vlan_list (joined line) in
      (i : Item) × (js : List Item) × (line ≡ texts (i ∷ js))
      × (range_is_last i js ≡ true → (r.0 ≡ 0) × ((v : ℕ) → 1 ≤ v → v < 4095 → r.1 v ≡ not (bmp v)))
      × (range_is_last i js ≡ false → r.0 ≡ 2)
read_back bmp line [] same some_token items cover = absurd (some_token same)
read_back bmp line (i ∷ is) same some_token items cover =
    let read = parse_vlan_list-selects i is items in
    let text : joined line ≡ items_text i is = ap joined same ∙ joined-texts i is in
    (
      i,
      is,
      same,
      λ t. (
        ap (λ s. (parse_vlan_list s).0) text ∙ (read.0 t).0,
        λ v a b.
            ap (λ s. (parse_vlan_list s).1 v) text
            ∙ (read.0 t).1 v
            ∙ any_covers-any_item i is v
            ∙ cover v a b,
      ),
      λ f. ap (λ s. (parse_vlan_list s).0) text ∙ (read.1 f).0,
    )

-- Where list_vlans prints one line, and that has a token: if only its last token is a range, then
-- parse_vlan_list reads the tokens of the line back as exactly the allowed VLANs; if an earlier one
-- is a range, it refuses the line with the code 2.
pub list_vlans-parse :
    (bmp : Bitmap) (line : List Text)
    → list_vlans bmp ≡ ((false, line) ∷ [])
    → line ≢ []
    → let r = parse_vlan_list (joined line) in
      (i : Item) × (is : List Item) × (line ≡ texts (i ∷ is))
      × (range_is_last i is ≡ true → (r.0 ≡ 0) × ((v : ℕ) → 1 ≤ v → v < 4095 → r.1 v ≡ not (bmp v)))
      × (range_is_last i is ≡ false → r.0 ≡ 2)
list_vlans-parse bmp line printed some_token =
    let (is, items, tokens, cover) = list_vlans-exact bmp in
    let this : line ≡ texts is =
      sym (line_tokens false line) ∙ ap tokens_of (sym printed) ∙ tokens in
    read_back bmp line is this some_token items cover

decimal_digits-length : (k m n : ℕ) → n < power k → 0 < k → length (decimal_digits m n) ≤ k
unfolding decimal_digits
decimal_digits-length zero m n small some_digit = absurd (omega arith)
decimal_digits-length (suc k) zero n small some_digit = omega arith
decimal_digits-length (suc k) (suc m) n small some_digit = elim (Bool-cases (ltb n 10)) [
  | inl e ↦ rw (decimal_digits, e) (omega arith)
  | inr e ↦
      let big : 10 ≤ n = ground arith in
      let more : 0 < k = elim (Bool-cases (k == 0)) [
        | inl z ↦ let none_left : k ≡ 0 = ground arith in absurd (omega (arith, ap power none_left))
        | inr z ↦ ground arith
      ] in
      let before = decimal_digits-length k m (n / 10) (omega arith) more in
      let sizes = length-append (decimal_digits m (n / 10)) ((48 + n % 10) ∷ []) in
      rw (decimal_digits, e) (omega (arith, before, sizes))
]

item_text-length : (i : Item) → IsItem i → length (item_text i []) ≤ 9
item_text-length (one n) h =
    let digits = decimal_digits-length 4 10 n (omega arith) (omega arith) in
    omega (arith, digits, length-append (decimal n) [])
item_text-length (range a b) h =
    let digits = decimal_digits-length 4 10 a (omega arith) (omega arith) in
    let digits2 = decimal_digits-length 4 10 b (omega arith) (omega arith) in
    omega (
      arith,
      digits,
      digits2,
      length-append (decimal a) (45 ∷ (decimal b ++ [])),
      length-append (decimal b) [],
    )

tokens_length-append :
    (line : List Text) (t : Text)
    → tokens_length (line ++ (t ∷ []))
      ≡ tokens_length line
        + ((elim line as (λ (l : List Text). ℕ) [ [] ↦ 0 | u ∷ us ↦ 1 ]) + length t)
tokens_length-append [] t = omega arith
tokens_length-append (u ∷ []) t = omega arith
tokens_length-append (u ∷ w ∷ us) t = omega (arith, tokens_length-append (w ∷ us) t)

list_lines-fit :
    (bmp : Bitmap) (rounds vlan : ℕ) (later : Bool) (line : List Text)
    → 1 ≤ vlan
    → vlan ≤ 4095
    → line_start later + tokens_length line < 80
    → All
        (λ (l : Line). line_start l.0 + tokens_length l.1 < 80)
        (list_lines bmp rounds vlan later line)
unfolding list_lines
list_lines-fit bmp zero vlan later line low small fits = (fits, tt)
list_lines-fit bmp (suc rounds) vlan later line low small fits =
    let finds = (list_vlans_token-Printed bmp vlan low small).1 in
    let comma : ℕ = elim line [ [] ↦ 0 | t ∷ ts ↦ 1 ] in
    elim (Option-cases (list_vlans_token bmp vlan)) [
      | inl e ↦ rw (list_lines, e) (fits, tt)
      | inr (found, e) ↦
          let (i, is_item, text, more, bound, exact, within) = finds found e in
          let short : length found.0 ≤ 9 = rw (text) (item_text-length i is_item) in
          elim (Bool-cases
            (leb 80 ((line_start later + tokens_length line) + (comma + length found.0)))) [
              | inl full ↦
                  rw (list_lines, e, full)
                    (
                      fits,
                      list_lines-fit bmp rounds found.1 true (found.0 ∷ []) (omega arith) bound
                          (omega arith),
                    )
              | inr room ↦
                  let longer = tokens_length-append line found.0 in
                  rw (list_lines, e, room)
                    (list_lines-fit bmp rounds found.1 later (line ++ (found.0 ∷ [])) (omega arith)
                      bound (ground (arith, longer)))
            ]
    ]

-- Every line that list_vlans puts together, from its text and its tokens, has fewer than the 80
-- bytes of its buffer.
pub list_vlans-fit :
    (bmp : Bitmap) → All (λ (l : Line). line_start l.0 + tokens_length l.1 < 80) (list_vlans bmp)
unfolding list_vlans
list_vlans-fit bmp =
    list_lines-fit bmp sw_max_vlan 1 false [] (omega arith) (omega arith) (omega arith)
