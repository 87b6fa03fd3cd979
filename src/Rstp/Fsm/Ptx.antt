-- ===== src/Rstp/Fsm/Ptx.antt =====
-- userspace/rstp/fsm/ptx.c: the port transmit machine and the frames that it sends. A frame is the
-- bytes handed to `send` on the port's socket; whether `send` fails makes no difference to the
-- port. The struct on the stack is not initialised, and the bytes sent stop where it is.
use lisa_user.Base.{
  ℕ, ◌+◌, Bool, true, false, List, ◌∷◌, ◌++◌, [], ◌&&◌, ◌||◌, not, if◌then◌else◌, first, ◌==◌, ◌!=◌,
  ltb, bit_or, u8, u32,
}
use lisa_user.Vector.{Bytes6, short_bytes}
use lisa_user.Rstp.Bpdu.{
  MacHeader, EthHeader, BpduHeader, BpduBody, mac_bytes, eth_bytes, hdr_bytes, body_bytes, bpdu_tcn,
  bpdu_config, bpdu_rstp, topology_change_bit, topology_change_ack_bit, proposal_bit, learn_bit,
  forward_bit, agreement_bit, role_root, role_designated, role_alternate, role_backup,
  role_alternate_backup,
}
use lisa_user.Rstp.Port.{Port, PtxState}

abbrev pub rstp_multicast : Bytes6
rstp_multicast = record { b0 = 0x01; b1 = 0x80; b2 = 0xC2; b3 = 0x00; b4 = 0x00; b5 = 0x00 }

abbrev pub fill_bpdu_mac : Port → MacHeader
fill_bpdu_mac port = record { dst_mac = rstp_multicast; src_mac = port.mac_addr }

abbrev pub fill_bpdu_eth : EthHeader
fill_bpdu_eth = record { len = record { b0 = 0; b1 = 43 }; dsap = 0x42; ssap = 0x42; llc = 0x03 }

-- the header with protocol 0
abbrev pub fill_bpdu_hdr : ℕ → ℕ → BpduHeader
fill_bpdu_hdr version bpdu_type = record {
  protocol = record { b0 = 0; b1 = 0 };
  version = version;
  bpdu_type = bpdu_type;
}

-- The body with the designated priority and times of the port.
abbrev pub fill_bpdu_body : ℕ → Port → BpduBody
fill_bpdu_body flags port = record {
  flags = flags;
  root_id = port.designated_priority.root_bridge_id;
  root_path_cost = port.designated_priority.root_path_cost;
  bridge_id = port.designated_priority.designated_bridge_id;
  port_id = port.designated_priority.designated_port_id;
  message_age = short_bytes port.designated_times.message_age;
  max_age = short_bytes port.designated_times.max_age;
  hello_time = short_bytes port.designated_times.hello_time;
  forward_delay = short_bytes port.designated_times.forward_delay;
}

abbrev pub send : List ℕ → Port → Port
send frame port = record port { sent = frame ∷ port.sent }

unfoldable pub config_flags : Port → ℕ
config_flags port =
    let tc = if port.tc_while != 0 then topology_change_bit else 0 in
    let ack = if port.tc_ack then topology_change_ack_bit else 0 in bit_or (bit_or 0 tc) ack

unfoldable pub config_frame : Port → List ℕ
config_frame port =
    mac_bytes (fill_bpdu_mac port)
    ++ (eth_bytes fill_bpdu_eth
        ++ (hdr_bytes (fill_bpdu_hdr 0 bpdu_config)
            ++ body_bytes (fill_bpdu_body (config_flags port) port)))

unfoldable pub tx_config : Port → Port
tx_config port = send (config_frame port) port

unfoldable pub tcn_frame : Port → List ℕ
tcn_frame port =
    mac_bytes (fill_bpdu_mac port)
    ++ (eth_bytes fill_bpdu_eth ++ hdr_bytes (fill_bpdu_hdr 0 bpdu_tcn))

unfoldable pub tx_tcn : Port → Port
tx_tcn port = send (tcn_frame port) port

unfoldable pub role_flags : ℕ → ℕ
role_flags role =
    if (role == role_backup) || (role == role_alternate)
    then bit_or 0 role_alternate_backup
    else u8 (bit_or 0 role)

unfoldable pub rstp_flags : Port → ℕ
unfolding role_flags
rstp_flags port =
    let agreement = if port.agree then agreement_bit else 0 in
    let proposal = if port.proposing then proposal_bit else 0 in
    let tc = if port.tc_while != 0 then topology_change_bit else 0 in
    let learn = if port.learning then learn_bit else 0 in
    let forward = if port.forwarding then forward_bit else 0 in
    bit_or (bit_or (bit_or (bit_or (bit_or (role_flags port.role) agreement) proposal) tc) learn)
      forward

unfoldable pub rstp_frame : Port → List ℕ
rstp_frame port =
    mac_bytes (fill_bpdu_mac port)
    ++ (eth_bytes fill_bpdu_eth
        ++ (hdr_bytes (fill_bpdu_hdr 2 bpdu_rstp)
            ++ (body_bytes (fill_bpdu_body (rstp_flags port) port) ++ (0 ∷ []))))

unfoldable pub tx_rstp : Port → Port
tx_rstp port = send (rstp_frame port) port

unfoldable pub ptx_transmit_init : Port → Port
ptx_transmit_init port = record port {
  new_info = true;
  tx_count = 0;
  ptx_func = PtxState.idle;
  ptx_exec = false;
}

unfoldable pub ptx_idle : Port → Port
ptx_idle port =
    let p = record port { hello_when = first port.ptx_exec 2 port.hello_when } in
    let cond =
      p.new_info && ltb p.tx_count 6 && (p.hello_when != 0) && p.selected && not p.updt_info in
    let next : PtxState × Bool =
      if p.send_rstp && cond
      then (PtxState.transmit_rstp, false)
      else if not p.send_rstp && (p.role == role_root) && cond
      then (PtxState.transmit_tcn, false)
      else if not p.send_rstp && (p.role == role_designated) && cond
      then (PtxState.transmit_config, false)
      else if p.hello_when == 0
      then (PtxState.transmit_periodic, false)
      else (p.ptx_func, true) in
    record p { ptx_func = next.0; ptx_exec = next.1 }

unfoldable pub ptx_transmit_periodic : Port → Port
ptx_transmit_periodic port = record port {
  new_info =
      port.new_info
      || (port.role == role_designated)
      || ((port.role == role_root) && (port.tc_while != 0));
  ptx_func = PtxState.idle;
  ptx_exec = false;
}

unfoldable pub ptx_transmit_config : Port → Port
unfolding tx_config
ptx_transmit_config port =
    let p = tx_config (record port { new_info = false }) in
    record p {
      tx_count = u32 (p.tx_count + 1);
      tc_ack = false;
      ptx_func = PtxState.idle;
      ptx_exec = false;
    }

unfoldable pub ptx_transmit_tcn : Port → Port
unfolding tx_tcn
ptx_transmit_tcn port =
    let p = tx_tcn (record port { new_info = false }) in
    record p { tx_count = u32 (p.tx_count + 1); ptx_func = PtxState.idle; ptx_exec = false }

unfoldable pub ptx_transmit_rstp : Port → Port
unfolding tx_rstp
ptx_transmit_rstp port =
    let p = tx_rstp (record port { new_info = false }) in
    record p {
      tx_count = u32 (p.tx_count + 1);
      tc_ack = false;
      ptx_func = PtxState.idle;
      ptx_exec = false;
    }

-- ptx_state_table
unfoldable pub ptx_state : PtxState → Port → Port
unfolding ptx_transmit_init ptx_idle ptx_transmit_periodic ptx_transmit_config ptx_transmit_tcn
    ptx_transmit_rstp
ptx_state PtxState.transmit_init port = ptx_transmit_init port
ptx_state PtxState.idle port = ptx_idle port
ptx_state PtxState.transmit_periodic port = ptx_transmit_periodic port
ptx_state PtxState.transmit_config port = ptx_transmit_config port
ptx_state PtxState.transmit_tcn port = ptx_transmit_tcn port
ptx_state PtxState.transmit_rstp port = ptx_transmit_rstp port

unfoldable pub ptx : Port → Port
unfolding ptx_state
ptx port = ptx_state port.ptx_func port
