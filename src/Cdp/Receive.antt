-- ===== src/Cdp/Receive.antt =====
-- userspace/cdpd/cdpd.c: dissect_packet, as the list of the fields that it hands to decode_field.
-- The packet is the bytes in memory from its start on; what lies behind them reads as 0, and no
-- result relies on that. The loop runs on fuel.
use lisa_user.Base.{
  ℕ, zero, suc, ◌+◌, ◌-◌, ◌*◌, List, [], ◌∷◌, Option, none, some, if◌then◌else◌, ltb, get_or, u32,
}
use lisa_user.Cdp.{frame_header_size, hdr_size}

abbrev pub drop : ℕ → List ℕ → List ℕ
drop zero bytes = bytes
drop (suc n) [] = []
drop (suc n) (b ∷ bytes) = drop n bytes

-- ntohs of the short at an offset
abbrev pub ntohs_at : ℕ → List ℕ → ℕ
ntohs_at i bytes = 256 * get_or bytes i 0 + get_or bytes (i + 1) 0

-- A call of decode_field: the type, the length with struct cdp_field, and the bytes from the value on.
pub record Seen : Type 0 where
  pub field_type : ℕ
  pub field_len : ℕ
  pub field : List ℕ

abbrev pub before : Seen → Option (List Seen) → Option (List Seen)
before seen none = none
before seen (some rest) = some (seen ∷ rest)

-- none when the fuel is spent
unfoldable pub dissect_fields : ℕ → ℕ → ℕ → List ℕ → Option (List Seen)
dissect_fields zero packet_length consumed field = none
dissect_fields (suc fuel) packet_length consumed field =
    let field_len = ntohs_at 2 field in
    let rest =
      dissect_fields fuel packet_length (u32 (consumed + field_len)) (drop field_len field) in
    if ltb consumed packet_length
    then before
        (record { field_type = ntohs_at 0 field; field_len = field_len; field = drop 4 field }) rest
    else some []

pub record Dissected : Type 0 where
  pub cdp_version : ℕ
  pub ttl : ℕ
  pub fields : List Seen

abbrev pub with_header : List ℕ → Option (List Seen) → Option Dissected
with_header hdr none = none
with_header hdr (some fields) =
    some (record { cdp_version = get_or hdr 0 0; ttl = get_or hdr 1 0; fields = fields })

unfoldable pub dissect_packet : ℕ → List ℕ → Option Dissected
dissect_packet fuel packet =
    let hdr = drop frame_header_size packet in
    let packet_length = u32 (ntohs_at 12 packet + 4294967296 - 8 - hdr_size) in
    with_header hdr (dissect_fields fuel packet_length 0 (drop hdr_size hdr))
