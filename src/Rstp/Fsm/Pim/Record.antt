-- ===== src/Rstp/Fsm/Pim/Record.antt =====
-- userspace/rstp/fsm/pim.c: the procedures that read the received BPDU and record what it says.
use lisa_user.Base.{ℕ, ◌+◌, ◌*◌, Bool, ◌&&◌, ◌||◌, not, if◌then◌else◌, ◌==◌, leb, bit_and, bit_or}
use lisa_user.Vector.{
  PriorityVector4, RstpTimes, vec_compare4, tim_compare, is_negative, is_equal, is_positive,
  to_short,
}
use lisa_user.Rstp.Bpdu.{
  BpduBody, bpdu_tcn, bpdu_config, bpdu_rstp, role_designated, role_root, role_alternate_backup,
  port_role_mask, proposal_bit, topology_change_bit, topology_change_ack_bit, learn_bit,
  agreement_bit, test_bit,
}
use lisa_user.Rstp.Port.{Port, info_received, info_mine}

pub data RcvdInfo : Type 0 where
  superior_designated_info : RcvdInfo
  repeated_designated_info : RcvdInfo
  inferior_designated_info : RcvdInfo
  inferior_root_alternate_info : RcvdInfo
  other_info : RcvdInfo

unfoldable pub better_or_same_info : Port → ℕ → Bool
better_or_same_info port new_info_is =
    ((new_info_is == info_received)
      && (port.info_is == info_received)
      && not (is_positive (vec_compare4 port.msg_priority port.port_priority)))
    || ((new_info_is == info_mine)
        && (port.info_is == info_mine)
        && not (is_positive (vec_compare4 port.designated_priority port.port_priority)))

-- memcpy of 22 bytes from body.root_id
abbrev pub body_priority : BpduBody → PriorityVector4
body_priority b = record {
  root_bridge_id = b.root_id;
  root_path_cost = b.root_path_cost;
  designated_bridge_id = b.bridge_id;
  designated_port_id = b.port_id;
}

-- memcpy of 8 bytes from body.message_age
abbrev pub body_times : BpduBody → RstpTimes
body_times b = record {
  message_age = to_short b.message_age;
  max_age = to_short b.max_age;
  hello_time = to_short b.hello_time;
  forward_delay = to_short b.forward_delay;
}

abbrev pub buf_role : Port → ℕ
buf_role port = bit_and port.buf.body.flags port_role_mask

-- rcvInfo up to the tests: a configuration BPDU is taken for one with the designated role, and the
-- message is copied to msgPriority and msgTimes.
unfoldable pub load_message : Port → Port
load_message port =
    let flags =
      if port.buf.hdr.bpdu_type == bpdu_config
      then bit_or port.buf.body.flags role_designated
      else port.buf.body.flags in
    record port {
      buf = record (port.buf) { body = record (port.buf.body) { flags = flags } };
      msg_priority = body_priority port.buf.body;
      msg_times = body_times port.buf.body;
    }

-- The tests of rcvInfo, in their order.
unfoldable pub classify : Port → RcvdInfo
classify p =
    let order = vec_compare4 p.msg_priority p.port_priority in
    let same_times = is_equal (tim_compare p.msg_times p.port_times) in
    let other =
      if ((buf_role p == role_root) || (buf_role p == role_alternate_backup))
        && not (is_negative order)
      then RcvdInfo.inferior_root_alternate_info
      else RcvdInfo.other_info in
    if buf_role p == role_designated
    then (if is_negative order
        then RcvdInfo.superior_designated_info
        else if not same_times && is_equal order
        then RcvdInfo.superior_designated_info
        else if is_equal order && same_times
        then RcvdInfo.repeated_designated_info
        else if is_positive order
        then RcvdInfo.inferior_designated_info
        else other)
    else other

unfoldable pub rcv_info : Port → Port × RcvdInfo
unfolding load_message classify
rcv_info port =
    let is_tcn = port.buf.hdr.bpdu_type == bpdu_tcn in
    let loaded = load_message port in
    (
      record port {
        rcvd_tcn = is_tcn || port.rcvd_tcn;
        buf = if is_tcn then port.buf else loaded.buf;
        msg_priority = if is_tcn then port.msg_priority else loaded.msg_priority;
        msg_times = if is_tcn then port.msg_times else loaded.msg_times;
      },
      if is_tcn then RcvdInfo.other_info else classify loaded,
    )

unfoldable pub record_proposal : Port → Port
record_proposal port =
    let proposes =
      (buf_role port == role_designated) && test_bit port.buf.body.flags proposal_bit in
    record port { proposed = proposes || port.proposed }

unfoldable pub set_tc_flags : Port → Port
set_tc_flags port =
    let is_tcn = port.buf.hdr.bpdu_type == bpdu_tcn in
    let flags = port.buf.body.flags in
    record port {
      rcvd_tcn = is_tcn || port.rcvd_tcn;
      rcvd_tc = (not is_tcn && test_bit flags topology_change_bit) || port.rcvd_tc;
      rcvd_tc_ack = (not is_tcn && test_bit flags topology_change_ack_bit) || port.rcvd_tc_ack;
    }

unfoldable pub record_priority : Port → Port
record_priority port = record port { port_priority = port.msg_priority }

unfoldable pub record_times : Port → Port
record_times port = record port { port_times = port.msg_times }

unfoldable pub updt_rcvd_info_while : Port → Port
updt_rcvd_info_while port =
    let fresh = leb (port.port_times.message_age + 1) port.port_times.max_age in
    record port { rcvd_info_while = if fresh then 3 * port.port_times.hello_time else 0 }

unfoldable pub record_dispute : Port → Port
record_dispute port =
    let disputes =
      (port.buf.hdr.bpdu_type == bpdu_rstp) && test_bit port.buf.body.flags learn_bit in
    record port { disputed = disputes || port.disputed; agreed = not disputes && port.agreed }

unfoldable pub record_agreement : Port → Port
record_agreement port =
    let agrees = test_bit port.buf.body.flags agreement_bit in
    record port { agreed = agrees; proposing = not agrees && port.proposing }
