-- ===== src/Rstp/Handover.antt =====
-- The hand-over of the buffer between the receiver thread (userspace/rstp/rstp_receiver.c) and the
-- port receive machine (userspace/rstp/fsm/prx.c), by the semaphores rcvdBPDU and processedBPDU.
use lisa_user.Base.{
  ℕ, ◌+◌, ◌≡◌, ◌≢◌, refl, arith, true, false, List, some, take, ◌==◌, ◌∙◌, ap, if-miss,
}
use lisa_user.Rstp.Port.{Port, PrxState}
use lisa_user.Rstp.Fsm.Prx.{prx, prx_state, prx_discard, prx_receive}
use lisa_user.Rstp.Daemon.{recv_port, overlay}

-- A BPDU that DISCARD takes is safe: while processedBPDU is 0, the receiver leaves the port as it
-- is, whatever it could read.
pub first_frame_kept :
    (p : Port) (frame : List ℕ)
    → p.prx_func ≡ PrxState.discard
    → p.processed_bpdu ≡ 0
    → recv_port (some frame) (prx p) ≡ prx p
unfolding recv_port prx prx_state prx_discard
first_frame_kept p frame f none_done = rw (f, none_done) refl

recv_port-overlay :
    (p : Port) (frame : List ℕ)
    → p.processed_bpdu ≢ 0
    → (recv_port (some frame) p).buf ≡ overlay (take 60 frame) p.buf
unfolding recv_port
recv_port-overlay p frame h =
    if-miss (λ (q : Port). q.buf ≡ overlay (take 60 frame) p.buf) (p.processed_bpdu == 0) p _
      (ground (arith, h)) refl

prx-posts :
    (p : Port)
    → p.prx_func ≡ PrxState.receive
    → p.prx_exec ≡ true
    → p.rcvd_msg ≡ false
    → p.rcvd_bpdu ≢ 0
    → (prx p).processed_bpdu ≡ p.processed_bpdu + 1
unfolding prx prx_state prx_receive
prx-posts p f exec msg waiting = rw (f) (ground arith)

prx-buf : (s : PrxState) (p : Port) → (prx_state s p).buf ≡ p.buf
unfolding prx_state prx_discard prx_receive
prx-buf PrxState.discard p = refl
prx-buf PrxState.receive p = refl

-- A BPDU that RECEIVE takes, once the one before is done with, is not: RECEIVE posts processedBPDU
-- itself, so the receiver may write the next frame over the buffer before the port information
-- machine has read it.
pub second_frame_overwritten :
    (p : Port) (frame : List ℕ)
    → p.prx_func ≡ PrxState.receive
    → p.prx_exec ≡ true
    → p.rcvd_msg ≡ false
    → p.rcvd_bpdu ≢ 0
    → (recv_port (some frame) (prx p)).buf ≡ overlay (take 60 frame) p.buf
unfolding prx
second_frame_overwritten p frame f exec msg waiting =
    let posted = prx-posts p f exec msg waiting in
    recv_port-overlay (prx p) frame (λ e. omega (arith, posted, e))
    ∙ ap (overlay (take 60 frame)) (prx-buf p.prx_func p)
