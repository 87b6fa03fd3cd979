-- ===== src/Cli/Addresses.antt =====
-- cli/lib/tokenizers.c: the tests that swcli_tokenize_number, _mac and _ip make of a token. atoi is
-- written out on the digits that the token consists of; its value is not bounded here, where an int
-- that overflows is undefined in C.
pub mod Grammar
use lisa_user.Base.{
  ℕ, zero, suc, ◌+◌, ◌-◌, ◌*◌, Bool, true, false, not, ◌&&◌, ◌||◌, List, [], ◌∷◌, Option, none,
  some, Text, if◌then◌else◌, ◌==◌, ◌!=◌, leb, ltb,
}
use lisa_user.Cli.{Valid, valid_limits, valid_list}

unfoldable pub is_digit : ℕ → Bool
is_digit c = leb 48 c && leb c 57

unfoldable pub is_hex_digit : ℕ → Bool
is_hex_digit c = (leb 48 c && leb c 57) || (leb 97 c && leb c 102) || (leb 65 c && leb c 70)

unfoldable pub all_digits : Text → Bool
all_digits [] = true
all_digits (c ∷ s) = is_digit c && all_digits s

-- the number that the digits at the start of a text stand for, after the number x
unfoldable pub atoi_from : ℕ → Text → ℕ
atoi_from x [] = x
atoi_from x (c ∷ s) = let rest = atoi_from (x * 10 + (c - 48)) s in if is_digit c then rest else x

unfoldable pub atoi : Text → ℕ
atoi s = atoi_from 0 s

unfoldable pub in_list : ℕ → List ℕ → Bool
in_list val [] = false
in_list val (v ∷ vs) = if val == v then true else in_list val vs

unfoldable pub swcli_valid_number : Text → Bool → Option Valid → Bool
swcli_valid_number token part none = true
swcli_valid_number token part (some (valid_limits low high)) =
    if all_digits token then leb low (atoi token) && leb (atoi token) high else false
swcli_valid_number token part (some (valid_list values)) =
    if all_digits token then in_list (atoi token) values else false

-- The loop of valid_mac: the number of groups, or none where it returns 0.
unfoldable pub mac_groups : Text → ℕ → ℕ → Option ℕ
mac_groups [] digits group = some group
mac_groups (c ∷ s) digits group =
    let dot = c == 46 in
    let rest = mac_groups s (if dot then 0 else suc digits) (if dot then suc group else group) in
    if dot
    then (if digits == 0 then none else rest)
    else if not (is_hex_digit c)
    then none
    else if ltb 4 (suc digits)
    then none
    else rest

unfoldable pub valid_mac : Text → Bool → Bool
valid_mac token part = elim (mac_groups token 0 1) [
  | none ↦ false
  | some group ↦ if ltb 3 group then false else part || (group == 3)
]

-- The loop of valid_ip: the number of groups, or none where it returns 0.
unfoldable pub ip_groups : Text → ℕ → ℕ → ℕ → Option ℕ
ip_groups [] x digits group = some group
ip_groups (c ∷ s) x digits group =
    let dot = c == 46 in
    let more = x * 10 + (c - 48) in
    let rest =
      ip_groups s (if dot then 0 else more) (if dot then 0 else suc digits)
        (if dot then suc group else group) in
    if dot
    then (if digits == 0 then none else rest)
    else if not (is_digit c)
    then none
    else if ltb 255 more
    then none
    else rest

unfoldable pub valid_ip : Text → Bool → Bool
valid_ip token part = elim (ip_groups token 0 0 1) [
  | none ↦ false
  | some group ↦ if ltb 4 group then false else part || (group == 4)
]
