-- ===== src/Cdp/Checksum.antt =====
-- The checksum of a packet.
use lisa_user.Base.{
  ℕ, ◌+◌, ◌*◌, ◌/◌, ◌%◌, ◌≤◌, ◌<◌, ◌≡◌, refl, List, [], ◌∷◌, length, All, arith, Bool, true, false,
  not, if◌then◌else◌,
}
use lisa_user.Cdp.Send.{Sender, sum_shorts, complement16, cdp_checksum, cdp_packet}

abbrev pub IsByte : ℕ → Type 0
IsByte b = b < 256

sum_shorts-length : (bytes : List ℕ) → All IsByte bytes → sum_shorts bytes ≤ 65535 * length bytes
unfolding sum_shorts
sum_shorts-length [] h = omega arith
sum_shorts-length (b ∷ []) h = omega arith
sum_shorts-length (b ∷ c ∷ bytes) h = omega (arith, sum_shorts-length bytes h.1.1)

folded_lem :
    (sum : ℕ)
    → sum < 4294967296
    → let folded = sum / 65536 + sum % 65536 in
      (sum + complement16 (folded + folded / 65536)) % 65535 ≡ 0
folded_lem sum small = omega arith

-- The sum of the shorts of up to 65,536 bytes and their checksum is a multiple of 65535: summed in
-- ones' complement, they give 0.
pub cdp_checksum_sums :
    (bytes : List ℕ)
    → All IsByte bytes
    → length bytes ≤ 65536
    → (sum_shorts bytes + cdp_checksum bytes) % 65535 ≡ 0
unfolding cdp_checksum
cdp_checksum_sums bytes h short =
    folded_lem (sum_shorts bytes) (omega (arith, sum_shorts-length bytes h))

cdp_checksum-short : (bytes : List ℕ) → cdp_checksum bytes < 65536
unfolding cdp_checksum
cdp_checksum-short bytes = omega arith

checksum_in_place :
    (s : Sender)
    → All IsByte (cdp_packet s 0)
    → length (cdp_packet s 0) ≤ 65536
    → sum_shorts (cdp_packet s (cdp_checksum (cdp_packet s 0))) % 65535 ≡ 0
unfolding cdp_packet sum_shorts
checksum_in_place s h short =
    let sums = cdp_checksum_sums (cdp_packet s 0) h short in
    let low = cdp_checksum-short (cdp_packet s 0) in omega (arith, sums, low)

-- An independent description: the bytes of a packet as 16-bit words with the lowest byte first, after
-- a 0 has been put before the last byte if their number is odd. `high` tells of which half the next
-- byte is.
abbrev pub word_sum : Bool → List ℕ → ℕ
word_sum high [] = 0
word_sum high (b ∷ bytes) = (if high then 256 * b else b) + word_sum (not high) bytes

abbrev pub padded : Bool → List ℕ → List ℕ
padded high [] = []
padded true (b ∷ []) = b ∷ []
padded false (b ∷ []) = 0 ∷ b ∷ []
padded high (b ∷ c ∷ bytes) = b ∷ padded (not high) (c ∷ bytes)

sum_shorts-word_sum : (bytes : List ℕ) → sum_shorts bytes ≡ word_sum false (padded false bytes)
unfolding sum_shorts
sum_shorts-word_sum [] = refl
sum_shorts-word_sum (b ∷ []) = omega arith
sum_shorts-word_sum (b ∷ c ∷ []) = omega arith
sum_shorts-word_sum (b ∷ c ∷ d ∷ bytes) = omega (arith, sum_shorts-word_sum (d ∷ bytes))

-- A packet of up to 65,536 bytes, with its checksum in place, is a multiple of 65535 as the sum of its
-- 16-bit words with the lowest byte first, where a last odd byte is the high byte of a word: in
-- ones' complement they sum up to 0.
pub cdp_packet_sums :
    (s : Sender)
    → All IsByte (cdp_packet s 0)
    → length (cdp_packet s 0) ≤ 65536
    → word_sum false (padded false (cdp_packet s (cdp_checksum (cdp_packet s 0)))) % 65535 ≡ 0
cdp_packet_sums s h short = omega (
  arith,
  checksum_in_place s h short,
  sum_shorts-word_sum (cdp_packet s (cdp_checksum (cdp_packet s 0))),
)
