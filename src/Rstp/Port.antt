-- ===== src/Rstp/Port.antt =====
-- userspace/include/rstp_client.h, `struct rstp_interface`: one port under RSTP. The flags of the
-- struct are unsigned ints that the code only ever tests, so each is a Bool, true for any value
-- but 0. state[M][FUNC] is an index into the table of machine M, and is a data type here, its
-- constructors in the order of the table; state[M][EXEC] is a Bool, true for EXECUTED.
use lisa_user.Base.{ℕ, Bool, List}
use lisa_user.Vector.{Bytes2, Bytes6, BridgeId, PriorityVector, PriorityVector4, RstpTimes}
use lisa_user.Rstp.Bpdu.{Bpdu}

pub data PrxState : Type 0 where
  discard : PrxState
  receive : PrxState

pub data PpmState : Type 0 where
  checking_rstp : PpmState
  selecting_stp : PpmState
  sensing : PpmState

pub data BdmState : Type 0 where
  edge : BdmState
  not_edge : BdmState

pub data PtxState : Type 0 where
  transmit_init : PtxState
  idle : PtxState
  transmit_periodic : PtxState
  transmit_config : PtxState
  transmit_tcn : PtxState
  transmit_rstp : PtxState

pub data PimState : Type 0 where
  disabled : PimState
  aged : PimState
  update : PimState
  current : PimState
  receive : PimState
  superior_designated : PimState
  repeated_designated : PimState
  inferior_designated : PimState
  not_designated : PimState
  other : PimState

pub data PrtState : Type 0 where
  init_port : PrtState
  disable_port : PrtState
  disabled_port : PrtState
  root_port : PrtState
  root_proposed : PrtState
  root_agreed : PrtState
  reroot : PrtState
  root_forward : PrtState
  root_learn : PrtState
  rerooted : PrtState
  designated_port : PrtState
  designated_propose : PrtState
  designated_synced : PrtState
  designated_retired : PrtState
  designated_forward : PrtState
  designated_learn : PrtState
  designated_discard : PrtState
  alternate_port : PrtState
  alternate_proposed : PrtState
  alternate_agreed : PrtState
  block_port : PrtState
  backup_port : PrtState

pub data PstState : Type 0 where
  discarding : PstState
  learning : PstState
  forwarding : PstState

pub data TcmState : Type 0 where
  inactive : TcmState
  learning : TcmState
  detected : TcmState
  active : TcmState
  notified_tcn : TcmState
  notified_tc : TcmState
  propagating : TcmState
  acknowledged : TcmState

-- the values of infoIs
abbrev pub info_disabled : ℕ
info_disabled = 0

abbrev pub info_received : ℕ
info_received = 1

abbrev pub info_mine : ℕ
info_mine = 2

abbrev pub info_aged : ℕ
info_aged = 3

-- `struct rstp_bridge`
pub record RstpBridge : Type 0 where
  pub bridge_priority : PriorityVector
  pub root_priority : PriorityVector
  pub bridge_times : RstpTimes
  pub root_times : RstpTimes
  pub root_port_id : Bytes2
  pub bridge_identifier : BridgeId

-- `sent` stands for the socket: the frames handed to send, the latest first.
pub record Port : Type 0 where
  pub if_index : ℕ
  pub mac_addr : Bytes6
  pub prx_func : PrxState
  pub prx_exec : Bool
  pub ppm_func : PpmState
  pub ppm_exec : Bool
  pub bdm_func : BdmState
  pub bdm_exec : Bool
  pub ptx_func : PtxState
  pub ptx_exec : Bool
  pub pim_func : PimState
  pub pim_exec : Bool
  pub prt_func : PrtState
  pub prt_exec : Bool
  pub pst_func : PstState
  pub pst_exec : Bool
  pub tcm_func : TcmState
  pub tcm_exec : Bool
  pub buf : Bpdu
  pub hello_when : ℕ
  pub tc_while : ℕ
  pub fd_while : ℕ
  pub rcvd_info_while : ℕ
  pub rr_while : ℕ
  pub rb_while : ℕ
  pub mdelay_while : ℕ
  pub edge_delay_while : ℕ
  pub agree : Bool
  pub agreed : Bool
  pub designated_priority : PriorityVector4
  pub designated_times : RstpTimes
  pub disputed : Bool
  pub fdb_flush : Bool
  pub forward : Bool
  pub forwarding : Bool
  pub all_synced : Bool
  pub re_rooted : Bool
  pub info_is : ℕ
  pub learn : Bool
  pub learning : Bool
  pub mcheck : Bool
  pub msg_priority : PriorityVector4
  pub msg_times : RstpTimes
  pub new_info : Bool
  pub oper_edge : Bool
  pub port_id : Bytes2
  pub port_path_cost : ℕ
  pub port_priority : PriorityVector4
  pub port_times : RstpTimes
  pub proposed : Bool
  pub proposing : Bool
  pub rcvd_bpdu : ℕ  -- the semaphores' values
  pub processed_bpdu : ℕ
  pub rcvd_msg : Bool
  pub rcvd_rstp : Bool
  pub rcvd_stp : Bool
  pub rcvd_tc : Bool
  pub rcvd_tc_ack : Bool
  pub rcvd_tcn : Bool
  pub re_root : Bool
  pub reselect : Bool
  pub role : ℕ
  pub selected : Bool
  pub selected_role : ℕ
  pub send_rstp : Bool
  pub sync : Bool
  pub synced : Bool
  pub tc_ack : Bool
  pub tc_prop : Bool
  pub tx_count : ℕ
  pub updt_info : Bool
  pub sent : List (List ℕ)
