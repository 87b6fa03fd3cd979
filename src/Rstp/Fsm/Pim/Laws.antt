-- ===== src/Rstp/Fsm/Pim/Laws.antt =====
-- What the port information machine makes of a message, and how received information ages.
use lisa_user.Base.{
  ℕ, zero, suc, ◌+◌, ◌*◌, ◌-◌, ◌≡◌, refl, ap, ◌∙◌, false, not, arith, ◌&&◌, leb, ◌==◌,
  if◌then◌else◌,
}
use mathlib.Core.Path.{subst}
use lisa_user.Vector.{
  RstpTimes, Sign, negative, equal, positive, is_negative, is_equal, is_positive, vec_compare4,
  tim_compare,
}
use lisa_user.Rstp.Bpdu.{role_designated}
use lisa_user.Rstp.Port.{Port, PimState, info_received}
use lisa_user.Rstp.Fsm.Pim.{
  RcvdInfo, classify, buf_role, pim, pim_state, pim_current, pim_superior_designated,
  updt_rcvd_info_while, record_times, record_priority, set_tc_flags, record_proposal,
}
use lisa_user.Rstp.Daemon.{tick}

-- What each comparison says of a message with the designated role.
abbrev pub designated_info : Sign → Sign → RcvdInfo
designated_info negative times = RcvdInfo.superior_designated_info
designated_info equal equal = RcvdInfo.repeated_designated_info
designated_info equal _ = RcvdInfo.superior_designated_info
designated_info positive times = RcvdInfo.inferior_designated_info

classify_values :
    (o t : Sign) (other : RcvdInfo)
    → (if is_negative o
        then RcvdInfo.superior_designated_info
        else if not (is_equal t) && is_equal o
        then RcvdInfo.superior_designated_info
        else if is_equal o && is_equal t
        then RcvdInfo.repeated_designated_info
        else if is_positive o
        then RcvdInfo.inferior_designated_info
        else other)
      ≡ designated_info o t
classify_values negative t other = refl
classify_values equal negative other = refl
classify_values equal equal other = refl
classify_values equal positive other = refl
classify_values positive negative other = refl
classify_values positive equal other = refl
classify_values positive positive other = refl

-- A message with the designated role is classified by the two comparisons alone: better than the
-- port's priority, or equal with other times, is superior; equal in both is repeated; worse is
-- inferior. It is never classified as other information.
pub designated_message_classified :
    (p : Port)
    → buf_role p ≡ role_designated
    → classify p
      ≡ designated_info
          (vec_compare4 p.msg_priority p.port_priority)
          (tim_compare p.msg_times p.port_times)
unfolding classify
designated_message_classified p r = rw (r) (
    classify_values (vec_compare4 p.msg_priority p.port_priority)
      (tim_compare p.msg_times p.port_times) RcvdInfo.other_info)

-- n timer signals
unfoldable pub ticks : ℕ → Port → Port
ticks zero p = p
ticks (suc n) p = ticks n (tick p)

-- How many signals received information lives: three hello times, or none if its age is spent.
abbrev pub lifetime : RstpTimes → ℕ
lifetime t = if leb (t.message_age + 1) t.max_age then 3 * t.hello_time else 0

-- What the port information machine reads of a port whose information ages.
abbrev AgesFrom : ℕ → Port → Type 0
AgesFrom n p =
    (p.pim_func ≡ PimState.current)
    × (p.updt_info ≡ false)
    × (p.rcvd_msg ≡ false)
    × (p.info_is ≡ info_received)
    × (p.rcvd_info_while ≡ n)

ticks-AgesFrom : (n k : ℕ) (p : Port) → AgesFrom k p → AgesFrom (k - n) (ticks n p)
unfolding ticks tick
ticks-AgesFrom zero k p (f, u, m, i, w) = (f, u, m, i, omega (arith, w))
ticks-AgesFrom (suc n) k p (f, u, m, i, w) =
    subst (λ j. AgesFrom j (ticks n (tick p))) (omega arith)
      (ticks-AgesFrom n (k - 1) (tick p) (f, u, m, i, omega (arith, w)))

aged_or_current :
    (k : ℕ) (p : Port)
    → AgesFrom k p
    → (pim p).pim_func ≡ (if k == 0 then PimState.aged else PimState.current)
unfolding pim pim_state pim_current
aged_or_current k p (f, u, m, i, w) = rw (f) (ground arith)

spent : (k n : ℕ) → (k - n == 0) ≡ leb k n
spent k n = ground arith

-- Information from a superior designated message ages out after exactly three hello times without
-- a further message, or at once if its age is spent: unless an update is pending, the port
-- information machine, run n timer signals after it recorded the message, enters AGED exactly if
-- n has reached that lifetime, and stays in CURRENT before.
pub information_ages :
    (p : Port) (n : ℕ)
    → p.updt_info ≡ false
    → (pim (ticks n (pim_superior_designated p))).pim_func
      ≡ (if leb (lifetime p.msg_times) n then PimState.aged else PimState.current)
unfolding pim_superior_designated updt_rcvd_info_while record_times record_priority set_tc_flags
    record_proposal
information_ages p n u =
    let q = pim_superior_designated p in
    aged_or_current (lifetime p.msg_times - n) (ticks n q)
      (ticks-AgesFrom n (lifetime p.msg_times) q (refl, u, refl, refl, refl))
    ∙ ap (λ b. if b then PimState.aged else PimState.current) (spent (lifetime p.msg_times) n)
