-- ===== src/Switch/Store.antt =====
-- userspace/switch/switch.h and sw_api.h: the structs in shared memory, and what a call answers.
use lisa_user.Base.{ℕ, List, Text}
use lisa_user.Vector.{BridgeId, PriorityVector, RstpTimes, Bytes2}
use lisa_user.Mm.{Mm}

pub data Errno : Type 0 where
  enodev : Errno
  enomem : Errno
  eperm : Errno
  einval : Errno
  efault : Errno

-- 0; 1 with errno left alone; or -1 with errno set
pub data Status : Type 0 where
  success : Status
  declined : Status
  failed : Errno → Status

abbrev pub sw_max_tag : ℕ
sw_max_tag = 40

abbrev pub sw_max_vlan_name : ℕ
sw_max_vlan_name = 31

abbrev pub sw_max_port_desc : ℕ
sw_max_port_desc = 31

abbrev pub sw_pass_len : ℕ
sw_pass_len = 30

abbrev pub sw_secret_len : ℕ
sw_secret_len = 30

abbrev pub sw_max_vty : ℕ
sw_max_vty = 15

abbrev pub sw_max_enable : ℕ
sw_max_enable = 15

abbrev pub sw_min_vlan : ℕ
sw_min_vlan = 1

abbrev pub sw_max_vlan : ℕ
sw_max_vlan = 4094

-- `struct if_tag`, `struct vlan_desc` and `struct if_desc`, which have the same three members: the
-- list head, whose place is the pointer; the interface's index or the VLAN's number; and the text.
pub record Entry : Type 0 where
  pub ptr : ℕ
  pub key : ℕ
  pub text : Text

pub record CdpConfiguration : Type 0 where
  pub enabled : ℕ
  pub version : ℕ
  pub holdtime : ℕ
  pub timer : ℕ
  pub capabilities : ℕ
  pub software_version : Text
  pub platform : Text
  pub duplex : ℕ

pub record RstpConfiguration : Type 0 where
  pub enabled : ℕ
  pub bridge_priority : PriorityVector
  pub root_priority : PriorityVector
  pub bridge_times : RstpTimes
  pub root_times : RstpTimes
  pub bridge_identifier : BridgeId
  pub root_port_id : Bytes2
  pub force_protocol_version : ℕ

-- `struct switch_mem`, and the allocator's handle
pub record Switch : Type 0 where
  pub mm : Mm
  pub enable : List Text
  pub vty : List Text
  pub cdp : CdpConfiguration
  pub rstp : RstpConfiguration
  pub if_tags : List Entry
  pub vlan_descs : List Entry
  pub if_descs : List Entry
