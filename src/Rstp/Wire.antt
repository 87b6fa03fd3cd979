-- ===== src/Rstp/Wire.antt =====
-- From the sender's port to the receiver's: what txRstp puts into a frame (fsm/ptx.c), the receiver
-- thread copies to `buf` (rstp_receiver.c) and rcvInfo reads from it (fsm/pim.c).
use lisa_user.Base.{
  ℕ, ◌<◌, ◌≡◌, ◌≢◌, refl, ap, some, Bool, true, false, not, ◌&&◌, ◌||◌, if◌then◌else◌, ◌==◌, arith,
  bit_and, bit_or, if-miss,
}
use lisa_user.Base.{◌∙◌, ◌⊎◌, inl, inr, ◌!=◌}
use lisa_user.Vector.{RstpTimes, short_bytes, to_short}
use lisa_user.Rstp.Bpdu.{
  Bpdu, bpdu_rstp, bpdu_tcn, test_bit, port_role_mask, agreement_bit, proposal_bit,
  topology_change_bit, learn_bit, forward_bit, role_disabled, role_root, role_designated,
  role_alternate, role_backup, role_alternate_backup,
}
use lisa_user.Rstp.Port.{Port}
use lisa_user.Rstp.Fsm.Ptx.{
  fill_bpdu_mac, fill_bpdu_eth, fill_bpdu_hdr, fill_bpdu_body, rstp_flags, role_flags, rstp_frame,
}
use lisa_user.Rstp.Fsm.Pim.{rcv_info, body_priority, body_times}
use lisa_user.Rstp.Daemon.{recv_port}

ne_zero : (n : ℕ) → n ≢ 0 → (n == 0) ≡ false
ne_zero n h = ground arith

abbrev same : Bool → Bool → Bool
same true b = b
same false b = not b

abbrev every : (Bool → Bool) → Bool
every f = f true && f false

every_sound : (f : Bool → Bool) (b : Bool) → every f ≡ true → f b ≡ true
every_sound f true h = ground arith
every_sound f false h = ground arith

-- the struct that txRstp fills
abbrev sent_bpdu : Port → Bpdu
sent_bpdu p = record {
  mac = fill_bpdu_mac p;
  eth = fill_bpdu_eth;
  hdr = fill_bpdu_hdr 2 bpdu_rstp;
  body = fill_bpdu_body (rstp_flags p) p;
  ver_1_len = 0;
}

recv-rstp_frame :
    (p q : Port) → q.processed_bpdu ≢ 0 → (recv_port (some (rstp_frame p)) q).buf ≡ sent_bpdu p
unfolding recv_port rstp_frame
recv-rstp_frame p q ready =
    if-miss (λ r. r.buf ≡ sent_bpdu p) (q.processed_bpdu == 0) q _ (ne_zero q.processed_bpdu ready)
      refl

abbrev pub AreShorts : RstpTimes → Type 0
AreShorts t =
    (t.message_age < 65536)
    × (t.max_age < 65536)
    × (t.hello_time < 65536)
    × (t.forward_delay < 65536)

to_short-short_bytes : (n : ℕ) → n < 65536 → to_short (short_bytes n) ≡ n
to_short-short_bytes n h = omega arith

body_times-fill :
    (p : Port)
    → AreShorts p.designated_times
    → body_times (fill_bpdu_body (rstp_flags p) p) ≡ p.designated_times
body_times-fill p h = λ i. record {
  message_age = to_short-short_bytes p.designated_times.message_age h.0 i;
  max_age = to_short-short_bytes p.designated_times.max_age h.1 i;
  hello_time = to_short-short_bytes p.designated_times.hello_time h.2 i;
  forward_delay = to_short-short_bytes p.designated_times.forward_delay h.3 i;
}

-- An RSTP BPDU that one port sends and another, whose last BPDU is processed, receives: rcvInfo
-- puts the sender's designated priority and designated times into msgPriority and msgTimes. The
-- times have to fit their 16 bits.
pub rstp_bpdu_received :
    (p q : Port)
    → q.processed_bpdu ≢ 0
    → AreShorts p.designated_times
    → let r = (rcv_info (recv_port (some (rstp_frame p)) q)).0 in
      (r.msg_priority ≡ p.designated_priority) × (r.msg_times ≡ p.designated_times)
unfolding rcv_info
rstp_bpdu_received p q ready short =
    let r = recv_port (some (rstp_frame p)) q in
    let e : r.buf ≡ sent_bpdu p = recv-rstp_frame p q ready in
    (
      ap
          (λ (b : Bpdu).
            if b.hdr.bpdu_type == bpdu_tcn then r.msg_priority else body_priority b.body)
          e,
      ap (λ (b : Bpdu). if b.hdr.bpdu_type == bpdu_tcn then r.msg_times else body_times b.body) e
          ∙ body_times-fill p short,
    )

-- the role as a BPDU carries it
abbrev pub wire_role : ℕ → ℕ
wire_role role =
    if (role == role_backup) || (role == role_alternate) then role_alternate_backup else role

-- Every bit of the flags, and the role, against what they stand for.
flags_agree : ℕ → ℕ → Bool → Bool → Bool → Bool → Bool → Bool
flags_agree flags role agree proposing changing learning forwarding =
    (bit_and flags port_role_mask == wire_role role)
    && same (test_bit flags agreement_bit) agree
    && same (test_bit flags proposal_bit) proposing
    && same (test_bit flags topology_change_bit) changing
    && same (test_bit flags learn_bit) learning
    && same (test_bit flags forward_bit) forwarding

-- rstp_flags on the values that it reads
abbrev encode : ℕ → Bool → Bool → Bool → Bool → Bool → ℕ
encode flags agree proposing changing learning forwarding =
    bit_or
      (bit_or
        (bit_or
          (bit_or (bit_or flags (if agree then agreement_bit else 0))
            (if proposing then proposal_bit else 0))
          (if changing then topology_change_bit else 0))
        (if learning then learn_bit else 0))
      (if forwarding then forward_bit else 0)

every5 : (Bool → Bool → Bool → Bool → Bool → Bool) → Bool
every5 f = every λ a. every λ b. every λ c. every λ d. every λ e. f a b c d e

every5_sound :
    (f : Bool → Bool → Bool → Bool → Bool → Bool)
    → every5 f ≡ true
    → (a b c d e : Bool) → f a b c d e ≡ true
unfolding every5
every5_sound f h a b c d e = every_sound (f a b c d) e (
    every_sound (λ d. every (f a b c d)) d
      (every_sound (λ c. every λ d. every (f a b c d)) c
        (every_sound (λ b. every λ c. every λ d. every (f a b c d)) b
          (every_sound (λ a. every λ b. every λ c. every λ d. every (f a b c d)) a h))))

encode_agrees : ℕ → Bool → Bool → Bool → Bool → Bool → Bool
encode_agrees role a b c d e = flags_agree (encode (role_flags role) a b c d e) role a b c d e

encode_table : ℕ → Bool
encode_table role = every5 (encode_agrees role)

encode_table_sound :
    (role : ℕ)
    → encode_table role ≡ true
    → (a b c d e : Bool) → flags_agree (encode (role_flags role) a b c d e) role a b c d e ≡ true
unfolding encode_table encode_agrees
encode_table_sound role h a b c d e = every5_sound (encode_agrees role) h a b c d e

flags_agree_parts :
    (flags role : ℕ) (a b c d e : Bool)
    → flags_agree flags role a b c d e ≡ true
    → (bit_and flags port_role_mask ≡ wire_role role)
      × (test_bit flags agreement_bit ≡ a)
      × (test_bit flags proposal_bit ≡ b)
      × (test_bit flags topology_change_bit ≡ c)
      × (test_bit flags learn_bit ≡ d)
      × (test_bit flags forward_bit ≡ e)
unfolding flags_agree
flags_agree_parts flags role a b c d e h = ground arith

-- the values that the machines give to `role`
abbrev pub IsRole : ℕ → Type 0
IsRole role =
    (role ≡ role_disabled)
    ⊎ (role ≡ role_root)
    ⊎ (role ≡ role_designated)
    ⊎ (role ≡ role_alternate)
    ⊎ (role ≡ role_backup)

IsRole-encode_table : (role : ℕ) → IsRole role → encode_table role ≡ true
unfolding encode_table encode_agrees every5 flags_agree role_flags
IsRole-encode_table role (inl e) = rw e refl
IsRole-encode_table role (inr (inl e)) = rw e refl
IsRole-encode_table role (inr (inr (inl e))) = rw e refl
IsRole-encode_table role (inr (inr (inr (inl e)))) = rw e refl
IsRole-encode_table role (inr (inr (inr (inr e)))) = rw e refl

-- The flags of an RSTP BPDU that one port sends and another, whose last BPDU is processed,
-- receives: the receiver reads the sender's role, with alternate and backup as one value, and
-- whether the sender agrees, proposes, has tcWhile running, is learning and is forwarding.
pub rstp_flags_received :
    (p q : Port)
    → q.processed_bpdu ≢ 0
    → IsRole p.role
    → let flags = (recv_port (some (rstp_frame p)) q).buf.body.flags in
      (bit_and flags port_role_mask ≡ wire_role p.role)
      × (test_bit flags agreement_bit ≡ p.agree)
      × (test_bit flags proposal_bit ≡ p.proposing)
      × (test_bit flags topology_change_bit ≡ (p.tc_while != 0))
      × (test_bit flags learn_bit ≡ p.learning)
      × (test_bit flags forward_bit ≡ p.forwarding)
unfolding rstp_flags
rstp_flags_received p q ready role = rw (recv-rstp_frame p q ready) (
    flags_agree_parts (rstp_flags p) p.role p.agree p.proposing (p.tc_while != 0) p.learning
      p.forwarding
      (encode_table_sound p.role (IsRole-encode_table p.role role) p.agree p.proposing
        (p.tc_while != 0) p.learning p.forwarding))
