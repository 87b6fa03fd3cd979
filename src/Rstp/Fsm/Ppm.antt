-- ===== src/Rstp/Fsm/Ppm.antt =====
-- userspace/rstp/fsm/ppm.c: the port protocol migration machine.
use lisa_user.Base.{Bool, true, false, ◌&&◌, ◌||◌, not, if◌then◌else◌, first, ◌==◌}
use lisa_user.Rstp.Port.{Port, PpmState}

unfoldable pub ppm_checking_rstp : Port → Port
ppm_checking_rstp port =
    let p = record port {
      mcheck = first port.ppm_exec false port.mcheck;
      send_rstp = first port.ppm_exec true port.send_rstp;
      mdelay_while = first port.ppm_exec 3 port.mdelay_while;
    } in
    let next : PpmState × Bool =
      if p.mdelay_while == 0 then (PpmState.sensing, false) else (p.ppm_func, true) in
    record p { ppm_func = next.0; ppm_exec = next.1 }

unfoldable pub ppm_selecting_stp : Port → Port
ppm_selecting_stp port =
    let p = record port {
      send_rstp = first port.ppm_exec false port.send_rstp;
      mdelay_while = first port.ppm_exec 3 port.mdelay_while;
    } in
    let next : PpmState × Bool =
      if (p.mdelay_while == 0) || p.mcheck then (PpmState.sensing, false) else (p.ppm_func, true) in
    record p { ppm_func = next.0; ppm_exec = next.1 }

unfoldable pub ppm_sensing : Port → Port
ppm_sensing port =
    let p = record port {
      rcvd_rstp = first port.ppm_exec false port.rcvd_rstp;
      rcvd_stp = first port.ppm_exec false port.rcvd_stp;
    } in
    let next : PpmState × Bool =
      if p.send_rstp && p.rcvd_stp
      then (PpmState.selecting_stp, false)
      else if p.mcheck || (not p.send_rstp && p.rcvd_rstp)
      then (PpmState.checking_rstp, false)
      else (p.ppm_func, true) in
    record p { ppm_func = next.0; ppm_exec = next.1 }

-- ppm_state_table
unfoldable pub ppm_state : PpmState → Port → Port
unfolding ppm_checking_rstp ppm_selecting_stp ppm_sensing
ppm_state PpmState.checking_rstp port = ppm_checking_rstp port
ppm_state PpmState.selecting_stp port = ppm_selecting_stp port
ppm_state PpmState.sensing port = ppm_sensing port

unfoldable pub ppm : Port → Port
unfolding ppm_state
ppm port = ppm_state port.ppm_func port
