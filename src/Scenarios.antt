-- ===== src/Scenarios.antt =====
-- Concrete values, and each result applied to one of them.
mod Witnesses
mod Storage
mod Discovery
mod Commands
use lisa_user.Base.{ℕ, Bool, false, true, [], ◌∷◌}
use lisa_user.Vector.{Bytes2, Bytes4, Bytes6, BridgeId, PriorityVector4, PriorityVector, RstpTimes}
use lisa_user.Rstp.Bpdu.{Bpdu}
use lisa_user.Rstp.Port.{
  Port, RstpBridge, PrxState, PpmState, BdmState, PtxState, PimState, PrtState, PstState, TcmState,
}
use lisa_user.Rstp.Fsm.Tree.{Daemon}
use lisa_user.Rstp.Fsm.Prs.{path_priority}
use lisa_user.Rstp.Daemon.{Answers, default_id, started, new_port}

abbrev pub no_short : Bytes2
no_short = record { b0 = 0; b1 = 0 }

abbrev pub no_mac : Bytes6
no_mac = record { b0 = 0; b1 = 0; b2 = 0; b3 = 0; b4 = 0; b5 = 0 }

abbrev pub no_id : BridgeId
no_id = record { bridge_priority = no_short; bridge_address = no_mac }

abbrev pub cost : ℕ → ℕ → Bytes4
cost low high = record { b0 = low; b1 = high; b2 = 0; b3 = 0 }

-- a vector with the default root and a cost of two bytes
abbrev pub vector_of_cost : ℕ → ℕ → PriorityVector4
vector_of_cost low high = record {
  root_bridge_id = default_id;
  root_path_cost = cost low high;
  designated_bridge_id = no_id;
  designated_port_id = no_short;
}

abbrev pub no_vector : PriorityVector4
no_vector = record {
  root_bridge_id = no_id;
  root_path_cost = cost 0 0;
  designated_bridge_id = no_id;
  designated_port_id = no_short;
}

abbrev pub no_times : RstpTimes
no_times = record { message_age = 0; max_age = 0; hello_time = 0; forward_delay = 0 }

abbrev pub usual_times : RstpTimes
usual_times = record { message_age = 1; max_age = 20; hello_time = 2; forward_delay = 15 }

abbrev pub no_bpdu : Bpdu
no_bpdu = record {
  mac = record { dst_mac = no_mac; src_mac = no_mac };
  eth = record { len = no_short; dsap = 0; ssap = 0; llc = 0 };
  hdr = record { protocol = no_short; version = 0; bpdu_type = 0 };
  body = record {
    flags = 0;
    root_id = no_id;
    root_path_cost = cost 0 0;
    bridge_id = no_id;
    port_id = no_short;
    message_age = no_short;
    max_age = no_short;
    hello_time = no_short;
    forward_delay = no_short;
  };
  ver_1_len = 0;
}

-- cleared memory
abbrev pub blank : Port
blank = record {
  if_index = 0;
  mac_addr = no_mac;
  prx_func = PrxState.discard;
  prx_exec = false;
  ppm_func = PpmState.checking_rstp;
  ppm_exec = false;
  bdm_func = BdmState.edge;
  bdm_exec = false;
  ptx_func = PtxState.transmit_init;
  ptx_exec = false;
  pim_func = PimState.disabled;
  pim_exec = false;
  prt_func = PrtState.init_port;
  prt_exec = false;
  pst_func = PstState.discarding;
  pst_exec = false;
  tcm_func = TcmState.inactive;
  tcm_exec = false;
  buf = no_bpdu;
  hello_when = 0;
  tc_while = 0;
  fd_while = 0;
  rcvd_info_while = 0;
  rr_while = 0;
  rb_while = 0;
  mdelay_while = 0;
  edge_delay_while = 0;
  agree = false;
  agreed = false;
  designated_priority = no_vector;
  designated_times = no_times;
  disputed = false;
  fdb_flush = false;
  forward = false;
  forwarding = false;
  all_synced = false;
  re_rooted = false;
  info_is = 0;
  learn = false;
  learning = false;
  mcheck = false;
  msg_priority = no_vector;
  msg_times = no_times;
  new_info = false;
  oper_edge = false;
  port_id = no_short;
  port_path_cost = 0;
  port_priority = no_vector;
  port_times = no_times;
  proposed = false;
  proposing = false;
  rcvd_bpdu = 0;
  processed_bpdu = 0;
  rcvd_msg = false;
  rcvd_rstp = false;
  rcvd_stp = false;
  rcvd_tc = false;
  rcvd_tc_ack = false;
  rcvd_tcn = false;
  re_root = false;
  reselect = false;
  role = 0;
  selected = false;
  selected_role = 0;
  send_rstp = false;
  sync = false;
  synced = false;
  tc_ack = false;
  tc_prop = false;
  tx_count = 0;
  updt_info = false;
  sent = [];
}

abbrev pub globals : RstpBridge
globals = record {
  bridge_priority = record {
    root_bridge_id = no_id;
    root_path_cost = cost 0 0;
    designated_bridge_id = no_id;
    designated_port_id = no_short;
    bridge_port_id = no_short;
  };
  root_priority = record {
    root_bridge_id = no_id;
    root_path_cost = cost 0 0;
    designated_bridge_id = no_id;
    designated_port_id = no_short;
    bridge_port_id = no_short;
  };
  bridge_times = no_times;
  root_times = no_times;
  root_port_id = no_short;
  bridge_identifier = no_id;
}

-- every call succeeds, and malloc hands out cleared memory
abbrev pub answers : Answers
answers = record {
  inet_socket = true;
  flags_read = true;
  if_up = true;
  switch_socket = true;
  type_read = true;
  switched = true;
  bound = true;
  allocated = true;
  memory = blank;
  hw_addr = no_mac;
  sems_ready = true;
}

-- the daemon with the interface 7
abbrev pub with_port : Daemon
with_port = record (started globals) { ports = new_port (started globals).bridge answers 7 ∷ [] }

-- a root port that agrees, learns and forwards, to send from
abbrev pub sender : Port
sender = record blank {
  role = 8;
  agree = true;
  learning = true;
  forwarding = true;
  tc_while = 4;
  designated_priority = vector_of_cost 32 3;
  designated_times = usual_times;
}

-- a port whose last BPDU is processed
abbrev pub ready : Port
ready = record blank { processed_bpdu = 1 }

-- a port that has a message with the designated role, better than what it knows
abbrev pub informed : Port
informed = record blank {
  msg_times = usual_times;
  port_priority = vector_of_cost 0 1;
  buf = record no_bpdu { body = record (no_bpdu.body) { flags = 0x0C } };
}

-- a port that received the better root
abbrev pub candidate : Port
candidate = record blank { info_is = 1; port_id = record { b0 = 0x80; b1 = 7 } }

abbrev pub electing : Daemon
electing = record (started globals) { ports = candidate ∷ [] }

-- the candidate, elected
abbrev pub elected : Port
elected = record candidate {
  designated_priority = record {
    root_bridge_id = no_id;
    root_path_cost = (path_priority no_vector).root_path_cost;
    designated_bridge_id = default_id;
    designated_port_id = record { b0 = 0x80; b1 = 7 };
  };
  designated_times = record { message_age = 0; max_age = 20; hello_time = 2; forward_delay = 15 };
  selected_role = 8;
}

-- a port in RECEIVE, with one BPDU done and the next one in its buffer
abbrev pub receiving : Port
receiving = record blank { prx_func = PrxState.receive; prx_exec = true; rcvd_bpdu = 1 }
