-- ===== src/Switch/Init.antt =====
-- switch_init, with switch_init_cdp and switch_init_rstp, as it runs where the area has not been
-- opened by the process before. The middleware (backend_init and vlan_add of sw_ops) is a
-- parameter: each of its calls may change the switch, and answers true for an error.
use lisa_user.Base.{ℕ, zero, suc, ◌+◌, Bool, true, false, List, [], ◌∷◌, Text, if◌then◌else◌}
use lisa_user.Vector.{BridgeId, PriorityVector, RstpTimes}
use lisa_user.Mm.{Mm, Opening, refused, crashed, opened, mm_create, mm_lock, mm_unlock}
use lisa_user.Switch.Store.{
  Switch, Status, success, declined, failed, CdpConfiguration, RstpConfiguration, sw_max_vlan_name,
}
use lisa_user.Switch.Keyed.{put_entry}
use lisa_user.Switch.Descs.{desc_size, default_vlan_name}
use lisa_user.Switch.Passwords.{switch_set_cdp, switch_set_rstp}

pub record SwitchOperations : Type 0 where
  pub backend_init : Switch → Bool × Switch
  pub vlan_add : ℕ → Switch → Bool × Switch

-- `stack` is what the local variable holds before: some of its members stay as they are.
unfoldable pub switch_init_cdp : CdpConfiguration → Switch → Switch
switch_init_cdp stack s =
    switch_set_cdp (record stack { enabled = 1; version = 2; holdtime = 180; timer = 60 }) s

abbrev pub default_bridge : BridgeId
default_bridge = record {
  bridge_priority = record { b0 = 0; b1 = 128 };
  bridge_address = record { b0 = 0; b1 = 224; b2 = 129; b3 = 177; b4 = 192; b5 = 56 };
}

unfoldable pub switch_init_rstp : RstpConfiguration → Switch → Switch
switch_init_rstp stack s =
    switch_set_rstp
      (record stack {
        enabled = 0;
        bridge_identifier = default_bridge;
        bridge_priority = record {
          root_bridge_id = default_bridge;
          root_path_cost = record { b0 = 0; b1 = 0; b2 = 0; b3 = 0 };
          designated_bridge_id = default_bridge;
          designated_port_id = record { b0 = 0; b1 = 0 };
          bridge_port_id = record { b0 = 0; b1 = 0 };
        };
        bridge_times = record { message_age = 0; max_age = 20; hello_time = 2; forward_delay = 15 };
        force_protocol_version = 2;
      })
      s

abbrev pub is_error : Status → Bool
is_error success = false
is_error declined = true
is_error (failed e) = true

-- __switch_add_vlan_desc, without the lock
unfoldable pub switch_add_vlan_desc : (ℕ → Bool) → ℕ → Text → Switch → Bool × Switch
switch_add_vlan_desc ftruncate vlan_id desc s =
    let r = put_entry ftruncate desc_size sw_max_vlan_name vlan_id desc (s.mm, s.vlan_descs) in
    (is_error r.0, record s { mm = r.1.0; vlan_descs = r.1.1 })

-- The loop over the VLANs from `i` on, `n` of them.
unfoldable pub add_default_vlans : (ℕ → Bool) → SwitchOperations → ℕ → ℕ → Switch → Bool × Switch
add_default_vlans ftruncate sw_ops zero i s = (false, s)
add_default_vlans ftruncate sw_ops (suc n) i s =
    let added = sw_ops.vlan_add i s in
    let described = switch_add_vlan_desc ftruncate i (default_vlan_name i) added.1 in
    let rest = add_default_vlans ftruncate sw_ops n (i + 1) described.1 in
    if added.0 then (true, added.1) else if described.0 then (true, described.1) else rest

-- "default"
abbrev pub default_text : Text
default_text = 100 ∷ 101 ∷ 102 ∷ 97 ∷ 117 ∷ 108 ∷ 116 ∷ []

-- From the lock that the descriptions are written under to the end.
unfoldable pub describe_vlans : (ℕ → Bool) → SwitchOperations → Switch → Bool × Switch
describe_vlans ftruncate sw_ops s =
    let first = switch_add_vlan_desc ftruncate 1 default_text (record s { mm = mm_lock s.mm }) in
    let rest = add_default_vlans ftruncate sw_ops 4 1002 first.1 in
    let r = if first.0 then (true, first.1) else rest in
    (r.0, record (r.1) { mm = mm_unlock r.1.mm })

unfoldable pub fill_switch :
    (ℕ → Bool) → SwitchOperations → CdpConfiguration → RstpConfiguration → Switch → Bool × Switch
fill_switch ftruncate sw_ops stack_cdp stack_rstp s =
    let backend = sw_ops.backend_init (switch_init_rstp stack_rstp (switch_init_cdp stack_cdp s)) in
    let added = sw_ops.vlan_add 1 backend.1 in
    if backend.0
    then backend
    else if added.0
    then added
    else describe_vlans ftruncate sw_ops added.1

abbrev zero_bridge : BridgeId
zero_bridge = record {
  bridge_priority = record { b0 = 0; b1 = 0 };
  bridge_address = record { b0 = 0; b1 = 0; b2 = 0; b3 = 0; b4 = 0; b5 = 0 };
}

abbrev zero_vector : PriorityVector
zero_vector = record {
  root_bridge_id = zero_bridge;
  root_path_cost = record { b0 = 0; b1 = 0; b2 = 0; b3 = 0 };
  designated_bridge_id = zero_bridge;
  designated_port_id = record { b0 = 0; b1 = 0 };
  bridge_port_id = record { b0 = 0; b1 = 0 };
}

abbrev zero_times : RstpTimes
zero_times = record { message_age = 0; max_age = 0; hello_time = 0; forward_delay = 0 }

abbrev repeat {ℓ} : {A : Type ℓ} → ℕ → A → List A
repeat zero x = []
repeat (suc n) x = x ∷ repeat n x

-- memset and the lists' heads
unfoldable pub zeroed : Mm → Switch
zeroed mm = record {
  mm = mm;
  enable = repeat 16 [];
  vty = repeat 16 [];
  cdp = record {
    enabled = 0;
    version = 0;
    holdtime = 0;
    timer = 0;
    capabilities = 0;
    software_version = [];
    platform = [];
    duplex = 0;
  };
  rstp = record {
    enabled = 0;
    bridge_priority = zero_vector;
    root_priority = zero_vector;
    bridge_times = zero_times;
    root_times = zero_times;
    bridge_identifier = zero_bridge;
    root_port_id = record { b0 = 0; b1 = 0 };
    force_protocol_version = 0;
  };
  if_tags = [];
  vlan_descs = [];
  if_descs = [];
}

-- The answer is true for -1, and there is no switch where the area could not be had. `found` is the
-- one in an area that was there before.
pub data Started : Type 0 where
  no_area : Started
  no_process : Started
  running : Bool × Switch → Started

unfoldable pub switch_init :
    (ℕ → Bool)
    → SwitchOperations
    → CdpConfiguration
    → RstpConfiguration
    → Opening
    → ℕ
    → (Mm → Switch)
    → Started
switch_init ftruncate sw_ops stack_cdp stack_rstp a switch_mem_size found =
    elim (mm_create a switch_mem_size 4096) [
      | refused ↦ Started.no_area
      | crashed ↦ Started.no_process
      | opened mm ↦ Started.running (
          if mm.init
          then fill_switch ftruncate sw_ops stack_cdp stack_rstp (zeroed mm)
          else (false, found mm))
    ]
