-- ===== src/Cli/Vlans.antt =====
-- Lists of VLANs as text: parse_vlan_list of cli/command/config_if.c and of tools/swctl.c, and
-- list_vlans of cli/cfgbuild/cfgbuild.c. A bitmap of SW_VLAN_BMP_NO bytes is the function that gives
-- each of its bits; numbers of VLANs outside 1 to 4094 do not reach it.
pub mod Listed
pub mod Selected
pub mod Printed
use lisa_user.Base.{
  ℕ, zero, suc, ◌+◌, ◌-◌, ◌/◌, ◌%◌, Bool, true, false, not, ◌&&◌, ◌||◌, List, [], ◌∷◌, ◌++◌, Option,
  none, some, Text, length, if◌then◌else◌, ◌==◌, leb, ltb,
}
use lisa_user.Switch.Store.{sw_max_vlan}
use lisa_user.Switch.Descs.{sw_invalid_vlan}
use lisa_user.Cli.Addresses.{is_digit, atoi}

abbrev pub Bitmap : Type 0
Bitmap = ℕ → Bool

unfoldable pub sw_bitmap_set : ℕ → Bitmap → Bitmap
sw_bitmap_set offset bmp = λ n. if n == offset then true else bmp n

unfoldable pub sw_bitmap_reset : ℕ → Bitmap → Bitmap
sw_bitmap_reset offset bmp = λ n. if n == offset then false else bmp n

-- `while (min <= max) { mark(bmp, min); min++; }`, for so many rounds
unfoldable pub mark_rounds : (ℕ → Bitmap → Bitmap) → ℕ → ℕ → Bitmap → Bitmap
mark_rounds mark zero low bmp = bmp
mark_rounds mark (suc rounds) low bmp = mark_rounds mark rounds (suc low) (mark low bmp)

abbrev pub mark_range : (ℕ → Bitmap → Bitmap) → ℕ → ℕ → Bitmap → Bitmap
mark_range mark low high bmp = mark_rounds mark (suc high - low) low bmp

-- The loop from `ptr` on, in its state 0 (`false`) or 1 (`true`). `last` is the text from the start
-- of the number on, whose digits end at `ptr`; where it starts with a sign the number counts as 0,
-- which is invalid as the negative one is. The result is the code and the bitmap.
unfoldable pub parse_vlans : (ℕ → Bitmap → Bitmap) → Text → Bool → ℕ → Text → Bitmap → ℕ × Bitmap
parse_vlans mark [] false low last bmp =
    if sw_invalid_vlan (atoi last) then (1, bmp) else (0, mark (atoi last) bmp)
parse_vlans mark [] true low last bmp =
    if sw_invalid_vlan (atoi last) then (1, bmp) else (0, mark_range mark low (atoi last) bmp)
parse_vlans mark (c ∷ ptr) false low last bmp = elim (is_digit c) [
  | true ↦ parse_vlans mark ptr false low last bmp
  | false ↦ elim ((c == 45) || (c == 44)) [
    | false ↦ (2, bmp)
    | true ↦ elim (sw_invalid_vlan (atoi last)) [
      | true ↦ (1, bmp)
      | false ↦ elim (c == 45) [
        | true ↦ parse_vlans mark ptr true (atoi last) ptr bmp
        | false ↦ parse_vlans mark ptr false (atoi last) ptr (mark (atoi last) bmp)
      ]
    ]
  ]
]
parse_vlans mark (c ∷ ptr) true low last bmp = elim (is_digit c) [
  | true ↦ parse_vlans mark ptr true low last bmp
  | false ↦
      if c == 44
      then (if sw_invalid_vlan (atoi last)
          then (1, bmp)
          else (2, mark_range mark low (atoi last) bmp))
      else (2, bmp)
]

-- parse_vlan_list of cli/command/config_if.c
unfoldable pub parse_vlan_list : Text → ℕ × Bitmap
parse_vlan_list list = parse_vlans sw_bitmap_set list false 0 list (λ n. false)

-- The copy in tools/swctl.c: its loops over a bitmap that begins with every bit set, and in which
-- sw_allow_vlan clears the bits of the VLANs that are listed.
unfoldable pub swctl_allow_rounds : ℕ → ℕ → Bitmap → Bitmap
swctl_allow_rounds zero min bmp = bmp
swctl_allow_rounds (suc rounds) min bmp =
    swctl_allow_rounds rounds (suc min) (sw_bitmap_reset min bmp)

unfoldable pub swctl_parse_vlans : Text → Bool → ℕ → Text → Bitmap → ℕ × Bitmap
swctl_parse_vlans [] state min last bmp =
    let max = atoi last in
    if sw_invalid_vlan max
    then (1, bmp)
    else if state
    then (0, swctl_allow_rounds (suc max - min) min bmp)
    else (0, sw_bitmap_reset max bmp)
swctl_parse_vlans (c ∷ ptr) state min last bmp = elim (is_digit c) [
  | true ↦ swctl_parse_vlans ptr state min last bmp
  | false ↦ elim state [
    | true ↦
        let max = atoi last in
        if not (c == 44)
        then (2, bmp)
        else if sw_invalid_vlan max
        then (1, bmp)
        else (2, swctl_allow_rounds (suc max - min) min bmp)
    | false ↦
        let number = atoi last in
        elim (c == 45) [
          | true ↦ elim (sw_invalid_vlan number) [
            | true ↦ (1, bmp)
            | false ↦ swctl_parse_vlans ptr true number ptr bmp
          ]
          | false ↦ elim (c == 44) [
            | false ↦ (2, bmp)
            | true ↦ elim (sw_invalid_vlan number) [
              | true ↦ (1, bmp)
              | false ↦ swctl_parse_vlans ptr false number ptr (sw_bitmap_reset number bmp)
            ]
          ]
        ]
  ]
]

unfoldable pub swctl_parse_vlan_list : Text → ℕ × Bitmap
swctl_parse_vlan_list list = swctl_parse_vlans list false 0 list (λ n. true)

-- snprintf with %d, of a number of at most so many digits
unfoldable pub decimal_digits : ℕ → ℕ → Text
decimal_digits zero n = []
decimal_digits (suc k) n = elim (ltb n 10) [
  | true ↦ (48 + n) ∷ []
  | false ↦ decimal_digits k (n / 10) ++ ((48 + n % 10) ∷ [])
]

abbrev pub decimal : ℕ → Text
decimal n = decimal_digits 10 n

-- `while (vlan <= SW_MAX_VLAN && test) vlan++`, for so many rounds
unfoldable pub skip_vlans : (ℕ → Bool) → ℕ → ℕ → ℕ
skip_vlans test zero vlan = vlan
skip_vlans test (suc rounds) vlan = elim (test vlan) [
  | true ↦ skip_vlans test rounds (suc vlan)
  | false ↦ vlan
]

abbrev pub past : (ℕ → Bool) → ℕ → ℕ
past test vlan = skip_vlans test (suc sw_max_vlan - vlan) vlan

-- The token for the allowed VLANs from `first` up to `next`, and where the search goes on.
unfoldable pub vlan_token : ℕ → ℕ → Text × ℕ
vlan_token first next =
    if next - first == 1
    then (decimal first, next)
    else if ltb 2 (next - first)
    then (decimal first ++ (45 ∷ decimal (next - 1)), next)
    else (decimal first, next - 1)

-- The next token, and the VLAN to go on from; none is the answer 0.
unfoldable pub list_vlans_token : Bitmap → ℕ → Option (Text × ℕ)
list_vlans_token bmp vlan =
    let first = past bmp vlan in
    let next = past (λ v. not (bmp v)) first in
    if ltb sw_max_vlan first then none else some (vlan_token first next)

-- A line of the configuration: whether it is a later one (with `add`), and its tokens.
abbrev pub Line : Type 0
Line = Bool × List Text

abbrev pub tokens_length : List Text → ℕ
tokens_length [] = 0
tokens_length (t ∷ []) = length t
tokens_length (t ∷ u ∷ ts) = length t + suc (tokens_length (u ∷ ts))

-- sizeof(buf), and the lengths of " switchport trunk allowed vlan " and of that with "add "
abbrev pub line_start : Bool → ℕ
line_start false = 31
line_start true = 35

-- list_vlans, from the tokens in `line` on, for so many more tokens
unfoldable pub list_lines : Bitmap → ℕ → ℕ → Bool → List Text → List Line
list_lines bmp zero vlan later line = (later, line) ∷ []
list_lines bmp (suc rounds) vlan later line = elim (list_vlans_token bmp vlan) [
  | none ↦ (later, line) ∷ []
  | some found ↦
      let comma : ℕ = elim line [ [] ↦ 0 | t ∷ ts ↦ 1 ] in
      let used = line_start later + tokens_length line in
      elim (leb 80 (used + (comma + length found.0))) [
        | true ↦ (later, line) ∷ list_lines bmp rounds found.1 true (found.0 ∷ [])
        | false ↦ list_lines bmp rounds found.1 later (line ++ (found.0 ∷ []))
      ]
]

unfoldable pub list_vlans : Bitmap → List Line
list_vlans bmp = list_lines bmp sw_max_vlan 1 false []
