-- ===== src/Cdp/Send.antt =====
-- userspace/cdpd/cdp_send.c: the frame that cdp_send_loop builds for an interface. A function that
-- writes a field at the buffer's offset gives the field; the offset moves on by its bytes.
use lisa_user.Base.{ℕ, ◌+◌, ◌-◌, ◌*◌, ◌/◌, ◌%◌, List, [], ◌∷◌, ◌++◌, length, Text}
use lisa_user.Vector.{Bytes6, bytes6}
use lisa_user.Switch.Store.{CdpConfiguration}
use lisa_user.Cdp.{
  Field, fields_bytes, htons, htonl, type_device_id, type_address, type_port_id, type_capabilities,
  type_ios_version, type_platform, type_duplex, frame_header_size,
}

-- What the system and the configuration tell: gethostname, the interface's name and its address.
pub record Sender : Type 0 where
  pub cdp : CdpConfiguration
  pub hostname : Text
  pub port : Text
  pub hwaddr : Bytes6

abbrev pub cdp_add_device_id : Sender → Field
cdp_add_device_id s = record { field_type = type_device_id; value = s.hostname }

-- one address, of IP and 4 bytes long: 0.0.0.0
abbrev pub cdp_add_addr : Field
cdp_add_addr = record {
  field_type = type_address;
  value = htonl 1 ++ (1 ∷ 1 ∷ 204 ∷ (htons 4 ++ htonl 0));
}

abbrev pub cdp_add_port_id : Sender → Field
cdp_add_port_id s = record { field_type = type_port_id; value = s.port }

abbrev pub cdp_add_capabilities : Sender → Field
cdp_add_capabilities s = record { field_type = type_capabilities; value = htonl s.cdp.capabilities }

abbrev pub cdp_add_software_version : Sender → Field
cdp_add_software_version s = record {
  field_type = type_ios_version;
  value = s.cdp.software_version;
}

abbrev pub cdp_add_platform : Sender → Field
cdp_add_platform s = record { field_type = type_platform; value = s.cdp.platform }

abbrev pub cdp_add_duplex : Sender → Field
cdp_add_duplex s = record { field_type = type_duplex; value = s.cdp.duplex ∷ [] }

-- The sum of the shorts, which are read with the lowest byte first. A last odd byte is read as a
-- short with the byte behind it, which memset has cleared, and swapped by htons.
unfoldable pub sum_shorts : List ℕ → ℕ
sum_shorts [] = 0
sum_shorts (b ∷ []) = 256 * b
sum_shorts (b ∷ c ∷ bytes) = (b + 256 * c) + sum_shorts bytes

-- ~n & 0xffff
abbrev pub complement16 : ℕ → ℕ
complement16 n = 65535 - n % 65536

unfoldable pub cdp_checksum : List ℕ → ℕ
cdp_checksum bytes =
    let sum = sum_shorts bytes in
    let folded = sum / 65536 + sum % 65536 in complement16 (folded + folded / 65536)

-- the Ethernet, LLC and SNAP headers, with the length of what follows the first of them
abbrev pub frame_header : Sender → ℕ → List ℕ
frame_header s frame_length =
    (1 ∷ 0 ∷ 12 ∷ 204 ∷ 204 ∷ 204 ∷ [])
    ++ (bytes6 s.hwaddr ++ (htons (frame_length - 14) ++ (170 ∷ 170 ∷ 3 ∷ 0 ∷ 0 ∷ 12 ∷ htons 8192)))

-- struct cdp_hdr; the checksum is a short in the host's order
abbrev pub cdp_hdr : Sender → ℕ → List ℕ
cdp_hdr s checksum = s.cdp.version ∷ s.cdp.holdtime ∷ checksum % 256 ∷ checksum / 256 ∷ []

abbrev pub cdp_fields : Sender → List Field
cdp_fields s =
    cdp_add_device_id s
    ∷ cdp_add_addr
    ∷ cdp_add_port_id s
    ∷ cdp_add_capabilities s
    ∷ cdp_add_software_version s
    ∷ cdp_add_platform s
    ∷ cdp_add_duplex s
    ∷ []

-- from the CDP header to the end of the frame
unfoldable pub cdp_packet : Sender → ℕ → List ℕ
cdp_packet s checksum = cdp_hdr s checksum ++ fields_bytes (cdp_fields s)

unfoldable pub cdp_frame : Sender → List ℕ
cdp_frame s =
    let packet = cdp_packet s (cdp_checksum (cdp_packet s 0)) in
    frame_header s (frame_header_size + length packet) ++ packet
