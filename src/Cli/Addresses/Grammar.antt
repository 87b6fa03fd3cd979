-- ===== src/Cli/Addresses/Grammar.antt =====
-- The tests of valid_ip and valid_mac against a grammar of dotted addresses.
use lisa_user.Base.{
  ℕ, suc, ◌+◌, ◌-◌, ◌*◌, ◌≤◌, ◌≡◌, refl, Bool, true, false, not, ◌&&◌, ◌||◌, List, [], ◌∷◌, Option,
  none, some, Text, length, if◌then◌else◌, ◌==◌, leb, ltb, Bool-cases, inl, inr, arith,
}
use lisa_user.Cli.Addresses.{
  is_digit, is_hex_digit, all_digits, atoi_from, ip_groups, valid_ip, mac_groups, valid_mac,
}

-- A text cut at its dots: the first group, and the others.
abbrev pub groups : Text → Text × List Text
groups [] = ([], [])
groups (c ∷ s) =
    let rest = groups s in if c == 46 then ([], rest.0 ∷ rest.1) else (c ∷ rest.0, rest.1)

abbrev pub is_empty : Text → Bool
is_empty [] = true
is_empty (c ∷ s) = false

-- Every group but the last has a digit; `d` digits stand before the first.
abbrev pub no_gap : ℕ → Text → List Text → Bool
no_gap d g [] = true
no_gap d g (h ∷ gs) = not ((d == 0) && is_empty g) && no_gap 0 h gs

abbrev pub every : (Text → Bool) → List Text → Bool
every p [] = true
every p (g ∷ gs) = p g && every p gs

-- the digits of a number of at most 255, after the number x
abbrev pub is_octet : ℕ → Text → Bool
is_octet x g = all_digits g && leb (atoi_from x g) 255

-- Up to `most` groups, as many as that unless the token is a part of one.
abbrev pub enough_groups : ℕ → Bool → List Text → Bool
enough_groups most part gs = leb (suc (length gs)) most && (part || (suc (length gs) == most))

atoi_from-le : (x : ℕ) (g : Text) → x ≤ atoi_from x g
unfolding atoi_from
atoi_from-le x [] = omega arith
atoi_from-le x (c ∷ g) = let later = atoi_from-le (x * 10 + (c - 48)) g in ground (arith, later)

no_gap-suc : (d c : ℕ) (g : Text) (gs : List Text) → no_gap d (c ∷ g) gs ≡ no_gap (suc d) g gs
no_gap-suc d c g [] = refl
no_gap-suc d c g (h ∷ gs) = ground arith

ip_groups-lem :
    (s : Text) (x d group : ℕ)
    → x ≤ 255
    → let gs = groups s in
      ip_groups s x d group ≡ (
        if is_octet x gs.0 && no_gap d gs.0 gs.1 && every (is_octet 0) gs.1
        then some (group + length gs.1)
        else none)
unfolding ip_groups all_digits atoi_from
ip_groups-lem [] x d group small = ground arith
ip_groups-lem (c ∷ s) x d group small =
    let gs = groups s in
    elim (Bool-cases (c == 46)) [
      | inl dot ↦
          let later = ip_groups-lem s 0 0 (suc group) (omega arith) in
          let top : leb x 255 ≡ true = ground arith in rw (dot, later, top) (ground arith)
      | inr other ↦ elim (Bool-cases (is_digit c)) [
        | inr bad ↦ rw (other, bad) refl
        | inl good ↦ elim (Bool-cases (ltb 255 (x * 10 + (c - 48)))) [
          | inl big ↦
              let above = atoi_from-le (x * 10 + (c - 48)) gs.0 in
              let over : leb (atoi_from (x * 10 + (c - 48)) gs.0) 255 ≡ false = ground arith in
              rw (other, good, big, over) (ground arith)
          | inr fits ↦
              let later = ip_groups-lem s (x * 10 + (c - 48)) (suc d) group (ground arith) in
              rw (other, good, fits, later, no_gap-suc d c gs.0 gs.1) refl
        ]
      ]
    ]

-- Hexadecimal digits, at most four with those before.
abbrev pub all_hex : Text → Bool
all_hex [] = true
all_hex (c ∷ g) = is_hex_digit c && all_hex g

abbrev pub is_hex_group : ℕ → Text → Bool
is_hex_group d g = all_hex g && leb (d + length g) 4

mac_groups-lem :
    (s : Text) (d group : ℕ)
    → d ≤ 4
    → let gs = groups s in
      mac_groups s d group ≡ (
        if is_hex_group d gs.0 && no_gap d gs.0 gs.1 && every (is_hex_group 0) gs.1
        then some (group + length gs.1)
        else none)
unfolding mac_groups
mac_groups-lem [] d group small = ground arith
mac_groups-lem (c ∷ s) d group small =
    let gs = groups s in
    elim (Bool-cases (c == 46)) [
      | inl dot ↦
          let later = mac_groups-lem s 0 (suc group) (omega arith) in
          let top : leb (d + 0) 4 ≡ true = ground arith in rw (dot, later, top) (ground arith)
      | inr other ↦ elim (Bool-cases (is_hex_digit c)) [
        | inr bad ↦ rw (other, bad) refl
        | inl good ↦ elim (Bool-cases (ltb 4 (suc d))) [
          | inl big ↦
              let over : leb (d + suc (length gs.0)) 4 ≡ false = ground arith in
              rw (other, good, big, over) (ground arith)
          | inr fits ↦
              let later = mac_groups-lem s (suc d) group (ground arith) in
              let same : leb (d + suc (length gs.0)) 4 ≡ leb (suc d + length gs.0) 4 =
                ground arith in
              rw (other, good, fits, later, no_gap-suc d c gs.0 gs.1, same) refl
        ]
      ]
    ]

counted :
    (b part : Bool) (gs : List Text) (most : ℕ)
    → (elim (if b then some (1 + length gs) else none) as (λ (o : Option ℕ). Bool) [
      | none ↦ false
      | some group ↦ if ltb most group then false else part || (group == most)
    ])
      ≡ (b && enough_groups most part gs)
counted false part gs most = refl
counted true part gs most =
    let one : 1 + length gs ≡ suc (length gs) = omega arith in rw (one) (ground arith)

-- valid_ip accepts a token if and only if its groups between dots are decimal numbers up to 255, all
-- but the last of at least one digit, with at most four of them, and four if the token is whole;
-- valid_mac, if and only if they are of at most four hexadecimal digits, all but the last of at
-- least one, with at most three of them, and three if the token is whole. The last group may be
-- empty in both.
pub valid_address_grammar :
    (token : Text) (part : Bool)
    → let gs = groups token in
      (valid_ip token part ≡ (
        (is_octet 0 gs.0 && no_gap 0 gs.0 gs.1 && every (is_octet 0) gs.1)
        && enough_groups 4 part gs.1))
      × (valid_mac token part ≡ (
          (is_hex_group 0 gs.0 && no_gap 0 gs.0 gs.1 && every (is_hex_group 0) gs.1)
          && enough_groups 3 part gs.1))
unfolding valid_ip valid_mac
valid_address_grammar token part =
    let gs = groups token in
    (
      rw (valid_ip, ip_groups-lem token 0 0 1 (omega arith))
          (counted (is_octet 0 gs.0 && no_gap 0 gs.0 gs.1 && every (is_octet 0) gs.1) part gs.1 4),
      rw (valid_mac, mac_groups-lem token 0 1 (omega arith))
          (counted (is_hex_group 0 gs.0 && no_gap 0 gs.0 gs.1 && every (is_hex_group 0) gs.1) part
            gs.1 3),
    )
