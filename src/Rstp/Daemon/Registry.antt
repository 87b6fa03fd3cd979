-- ===== src/Rstp/Daemon/Registry.antt =====
-- userspace/rstp/rstpd.c: rstpd_register_interface and rstpd_unregister_interface.
use lisa_user.Base.{
  ℕ, ◌/◌, ◌%◌, Bool, false, List, [], ◌∷◌, ◌++◌, Option, none, some, ◌||◌, not, if◌then◌else◌, ◌==◌,
  bit_or, u8,
}
use lisa_user.Vector.{Bytes2, Bytes6, PriorityVector4}
use lisa_user.Rstp.Port.{
  Port, RstpBridge, PrxState, PpmState, BdmState, PtxState, PimState, PrtState, PstState, TcmState,
}
use lisa_user.Rstp.Fsm.Tree.{Daemon}

-- What the system calls answer during a registration, and the memory that malloc hands out.
pub record Answers : Type 0 where
  pub inet_socket : Bool  -- socket(AF_INET)
  pub flags_read : Bool  -- SIOCGIFFLAGS
  pub if_up : Bool  -- IFF_UP
  pub switch_socket : Bool  -- socket(PF_SWITCH)
  pub type_read : Bool  -- SIOCSWCFG
  pub switched : Bool  -- switchport == SW_IF_SWITCHED
  pub bound : Bool  -- setup_switch_socket
  pub allocated : Bool
  pub memory : Port
  pub hw_addr : Bytes6
  pub sems_ready : Bool  -- both calls of sem_init

unfoldable pub port_id_of : ℕ → Bytes2
port_id_of if_index = record { b0 = u8 (bit_or 0x80 (if_index / 256)); b1 = if_index % 256 }

-- the priority vector of a port before it has any information
abbrev pub initial_priority : RstpBridge → Bytes2 → PriorityVector4
initial_priority bridge port_id = record {
  root_bridge_id = bridge.bridge_priority.root_bridge_id;
  root_path_cost = record { b0 = 0; b1 = 0; b2 = 0; b3 = 0 };
  designated_bridge_id = bridge.bridge_priority.designated_bridge_id;
  designated_port_id = port_id;
}

-- The new entry: the memory, with the fields that the registration writes.
unfoldable pub new_port : RstpBridge → Answers → ℕ → Port
unfolding port_id_of
new_port bridge a if_index = record (a.memory) {
  if_index = if_index;
  oper_edge = false;
  port_path_cost = 200000;
  port_id = port_id_of if_index;
  mac_addr = a.hw_addr;
  port_priority = initial_priority bridge (port_id_of if_index);
  designated_priority = initial_priority bridge (port_id_of if_index);
  rcvd_bpdu = 0;
  processed_bpdu = 1;
  prx_func = PrxState.discard;
  prx_exec = false;
  ppm_func = PpmState.checking_rstp;
  ppm_exec = false;
  bdm_func = BdmState.edge;
  bdm_exec = false;
  ptx_func = PtxState.transmit_init;
  ptx_exec = false;
  pim_func = PimState.disabled;
  pim_exec = false;
  prt_func = PrtState.init_port;
  prt_exec = false;
  pst_func = PstState.discarding;
  pst_exec = false;
  tcm_func = TcmState.inactive;
  tcm_exec = false;
  sent = [];
}

unfoldable pub is_registered : ℕ → List Port → Bool
is_registered if_index [] = false
is_registered if_index (entry ∷ rest) = (if_index == entry.if_index) || is_registered if_index rest

-- `none` is an abort by `assert`.
unfoldable pub register_interface : Answers → ℕ → Daemon → Option Daemon
unfolding new_port is_registered
register_interface a if_index d =
    if not a.inet_socket
    then none
    else if not a.flags_read
    then none
    else if not a.if_up
    then some d
    else if not a.switch_socket
    then none
    else if not a.type_read
    then some d
    else if not a.switched
    then some d
    else if is_registered if_index d.ports
    then some d
    else if not a.bound
    then some d
    else if not a.allocated
    then none
    else if not a.sems_ready
    then some d
    else some (record d { ports = d.ports ++ (new_port d.bridge a if_index ∷ []) })

-- list_del on each entry with the index
unfoldable pub drop_index : ℕ → List Port → List Port
drop_index if_index [] = []
drop_index if_index (entry ∷ rest) =
    let rest' = drop_index if_index rest in
    if if_index == entry.if_index then rest' else entry ∷ rest'

unfoldable pub unregister_interface : ℕ → Daemon → Daemon
unfolding drop_index
unregister_interface if_index d = record d { ports = drop_index if_index d.ports }
