-- ===== src/Rstp/Bpdu.antt =====
-- userspace/rstp/rstp_bpdu.h: the constants and layout of a BPDU frame.
use lisa_user.Base.{ℕ, Bool, List, ◌∷◌, [], ◌++◌, bit_and, ◌!=◌}
use lisa_user.Vector.{Bytes2, Bytes4, Bytes6, bytes2, bytes4, bytes6, BridgeId, bridge_bytes}

abbrev pub bpdu_tcn : ℕ
bpdu_tcn = 0x80

abbrev pub bpdu_config : ℕ
bpdu_config = 0x00

abbrev pub bpdu_rstp : ℕ
bpdu_rstp = 0x02

abbrev pub topology_change_bit : ℕ
topology_change_bit = 0x01

abbrev pub proposal_bit : ℕ
proposal_bit = 0x02

abbrev pub port_role_mask : ℕ
port_role_mask = 0x0C

abbrev pub learn_bit : ℕ
learn_bit = 0x10

abbrev pub forward_bit : ℕ
forward_bit = 0x20

abbrev pub agreement_bit : ℕ
agreement_bit = 0x40

abbrev pub topology_change_ack_bit : ℕ
topology_change_ack_bit = 0x80

abbrev pub role_disabled : ℕ
role_disabled = 0x00

abbrev pub role_alternate_backup : ℕ
role_alternate_backup = 0x04

abbrev pub role_root : ℕ
role_root = 0x08

abbrev pub role_designated : ℕ
role_designated = 0x0C

abbrev pub role_alternate : ℕ
role_alternate = 0x05

abbrev pub role_backup : ℕ
role_backup = 0x06

pub record MacHeader : Type 0 where
  pub dst_mac : Bytes6
  pub src_mac : Bytes6

pub record EthHeader : Type 0 where
  pub len : Bytes2
  pub dsap : ℕ
  pub ssap : ℕ
  pub llc : ℕ

pub record BpduHeader : Type 0 where
  pub protocol : Bytes2
  pub version : ℕ
  pub bpdu_type : ℕ

-- root_id and bridge_id are unsigned char[8], laid out as a bridge_id.
pub record BpduBody : Type 0 where
  pub flags : ℕ
  pub root_id : BridgeId
  pub root_path_cost : Bytes4
  pub bridge_id : BridgeId
  pub port_id : Bytes2
  pub message_age : Bytes2
  pub max_age : Bytes2
  pub hello_time : Bytes2
  pub forward_delay : Bytes2

pub record Bpdu : Type 0 where
  pub mac : MacHeader
  pub eth : EthHeader
  pub hdr : BpduHeader
  pub body : BpduBody
  pub ver_1_len : ℕ

-- The bytes of a frame, in the order of the packed struct: 12 + 5 + 4 before the body.
abbrev pub mac_bytes : MacHeader → List ℕ
mac_bytes m = bytes6 m.dst_mac ++ bytes6 m.src_mac

abbrev pub eth_bytes : EthHeader → List ℕ
eth_bytes e = bytes2 e.len ++ (e.dsap ∷ e.ssap ∷ e.llc ∷ [])

abbrev pub hdr_bytes : BpduHeader → List ℕ
hdr_bytes h = bytes2 h.protocol ++ (h.version ∷ h.bpdu_type ∷ [])

abbrev pub body_bytes : BpduBody → List ℕ
body_bytes b =
    (b.flags ∷ bridge_bytes b.root_id)
    ++ (bytes4 b.root_path_cost
        ++ (bridge_bytes b.bridge_id
            ++ (bytes2 b.port_id
                ++ (bytes2 b.message_age
                    ++ (bytes2 b.max_age ++ (bytes2 b.hello_time ++ bytes2 b.forward_delay))))))

abbrev pub bpdu_bytes : Bpdu → List ℕ
bpdu_bytes p =
    mac_bytes p.mac
    ++ (eth_bytes p.eth ++ (hdr_bytes p.hdr ++ (body_bytes p.body ++ (p.ver_1_len ∷ []))))

-- `x & mask` as a C condition
abbrev pub test_bit : ℕ → ℕ → Bool
test_bit x mask = bit_and x mask != 0
