-- ===== src/Rstp/Fsm/Pim.antt =====
-- userspace/rstp/fsm/pim.c: the port information machine.
mod Record
pub mod Laws
unfoldable pub use Record.*
use lisa_user.Base.{ℕ, ◌+◌, Bool, true, false, ◌&&◌, not, if◌then◌else◌, first, ◌==◌, ◌!=◌}
use lisa_user.Rstp.Port.{Port, PimState, info_disabled, info_received, info_mine, info_aged}

unfoldable pub pim_disabled : Port → Port
pim_disabled port = record port {
  rcvd_msg = false;
  agreed = false;
  agree = false;
  proposed = false;
  proposing = false;
  rcvd_info_while = 0;
  info_is = info_disabled;
  reselect = true;
  selected = false;
  pim_func = PimState.aged;
  pim_exec = false;
}

unfoldable pub pim_aged : Port → Port
pim_aged port =
    let p = record port {
      info_is = first port.pim_exec info_aged port.info_is;
      reselect = first port.pim_exec true port.reselect;
      selected = first port.pim_exec false port.selected;
    } in
    let next : PimState × Bool =
      if p.selected && p.updt_info then (PimState.update, false) else (p.pim_func, true) in
    record p { pim_func = next.0; pim_exec = next.1 }

unfoldable pub pim_update : Port → Port
pim_update port =
    let agreed = port.agreed && better_or_same_info port info_mine in
    record port {
      proposed = first port.pim_exec false port.proposed;
      proposing = first port.pim_exec false port.proposing;
      agreed = first port.pim_exec agreed port.agreed;
      synced = first port.pim_exec (port.synced && agreed) port.synced;
      port_priority = first port.pim_exec port.designated_priority port.port_priority;
      port_times = first port.pim_exec port.designated_times port.port_times;
      updt_info = first port.pim_exec false port.updt_info;
      info_is = first port.pim_exec info_mine port.info_is;
      new_info = first port.pim_exec true port.new_info;
      pim_func = PimState.current;
      pim_exec = false;
    }

unfoldable pub pim_current : Port → Port
pim_current port =
    let next : PimState × Bool =
      if port.selected && port.updt_info
      then (PimState.update, false)
      else if (port.info_is == info_received)
          && (port.rcvd_info_while == 0)
          && not port.updt_info
          && not port.rcvd_msg
      then (PimState.aged, false)
      else if port.rcvd_msg && not port.updt_info
      then (PimState.receive, false)
      else (port.pim_func, port.pim_exec) in
    record port { pim_func = next.0; pim_exec = next.1 }

-- the state that the `switch` of pim_receive chooses
abbrev pub next_of_info : RcvdInfo → PimState
next_of_info RcvdInfo.superior_designated_info = PimState.superior_designated
next_of_info RcvdInfo.repeated_designated_info = PimState.repeated_designated
next_of_info RcvdInfo.inferior_designated_info = PimState.inferior_designated
next_of_info RcvdInfo.inferior_root_alternate_info = PimState.not_designated
next_of_info RcvdInfo.other_info = PimState.other

unfoldable pub pim_receive : Port → Port
pim_receive port =
    let r = rcv_info port in record r.0 { pim_func = next_of_info r.1; pim_exec = false }

-- how each of the last five states ends
abbrev pub pim_processed : Port → Port
pim_processed port = record port {
  rcvd_msg = false;
  processed_bpdu = port.processed_bpdu + 1;
  pim_func = PimState.current;
  pim_exec = false;
}

unfoldable pub pim_superior_designated : Port → Port
unfolding record_proposal set_tc_flags record_priority record_times updt_rcvd_info_while
pim_superior_designated port =
    let p = set_tc_flags (record_proposal (record port { proposing = false; agreed = false })) in
    let q = record p { agree = p.agree && better_or_same_info p info_received } in
    let r = updt_rcvd_info_while (record_times (record_priority q)) in
    pim_processed (record r { info_is = info_received; reselect = true; selected = false })

unfoldable pub pim_repeated_designated : Port → Port
unfolding record_proposal set_tc_flags updt_rcvd_info_while
pim_repeated_designated port =
    pim_processed (updt_rcvd_info_while (set_tc_flags (record_proposal port)))

unfoldable pub pim_inferior_designated : Port → Port
unfolding record_dispute
pim_inferior_designated port = pim_processed (record_dispute port)

unfoldable pub pim_not_designated : Port → Port
unfolding record_agreement set_tc_flags
pim_not_designated port = pim_processed (set_tc_flags (record_agreement port))

unfoldable pub pim_other : Port → Port
pim_other port = pim_processed port

-- pim_state_table
unfoldable pub pim_state : PimState → Port → Port
unfolding pim_disabled pim_aged pim_update pim_current pim_receive pim_superior_designated
    pim_repeated_designated pim_inferior_designated pim_not_designated pim_other
pim_state PimState.disabled port = pim_disabled port
pim_state PimState.aged port = pim_aged port
pim_state PimState.update port = pim_update port
pim_state PimState.current port = pim_current port
pim_state PimState.receive port = pim_receive port
pim_state PimState.superior_designated port = pim_superior_designated port
pim_state PimState.repeated_designated port = pim_repeated_designated port
pim_state PimState.inferior_designated port = pim_inferior_designated port
pim_state PimState.not_designated port = pim_not_designated port
pim_state PimState.other port = pim_other port

unfoldable pub pim : Port → Port
unfolding pim_state
pim port = pim_state port.pim_func port
