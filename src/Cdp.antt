-- ===== src/Cdp.antt =====
-- userspace/cdpd: the daemon of the Cisco discovery protocol. The constants and structs of cdpd.h
-- that frames are made of, with their bytes in the order of the network.
pub mod Send
pub mod Receive
pub mod Checksum
pub mod Dissection
pub mod Registry
pub mod Membership
pub mod Requests
pub mod Aging
use lisa_user.Base.{ℕ, ◌+◌, ◌*◌, ◌/◌, ◌%◌, List, [], ◌∷◌, ◌++◌, length}

abbrev pub type_device_id : ℕ
type_device_id = 1

abbrev pub type_address : ℕ
type_address = 2

abbrev pub type_port_id : ℕ
type_port_id = 3

abbrev pub type_capabilities : ℕ
type_capabilities = 4

abbrev pub type_ios_version : ℕ
type_ios_version = 5

abbrev pub type_platform : ℕ
type_platform = 6

abbrev pub type_duplex : ℕ
type_duplex = 11

abbrev pub frame_header_size : ℕ
frame_header_size = 22

abbrev pub hdr_size : ℕ
hdr_size = 4

abbrev pub field_size : ℕ
field_size = 4

-- htons and htonl, as the bytes that are stored
abbrev pub htons : ℕ → List ℕ
htons n = n / 256 % 256 ∷ n % 256 ∷ []

abbrev pub htonl : ℕ → List ℕ
htonl n = n / 16777216 % 256 ∷ n / 65536 % 256 ∷ n / 256 % 256 ∷ n % 256 ∷ []

-- struct cdp_field with the value behind it
pub record Field : Type 0 where
  pub field_type : ℕ
  pub value : List ℕ

abbrev pub field_bytes : Field → List ℕ
field_bytes f = htons f.field_type ++ (htons (length f.value + field_size) ++ f.value)

abbrev pub fields_bytes : List Field → List ℕ
fields_bytes [] = []
fields_bytes (f ∷ fs) = field_bytes f ++ fields_bytes fs
