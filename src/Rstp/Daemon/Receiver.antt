-- ===== src/Rstp/Daemon/Receiver.antt =====
-- userspace/rstp/rstp_receiver.c: the receiver's handling of one port. The buffer is read as the
-- packed struct of a BPDU: the bytes of a frame overwrite its fields in order, what the frame does
-- not reach stays as it was, and what lies behind the struct is never read.
use lisa_user.Base.{ℕ, ◌+◌, ◌-◌, List, Option, none, some, if◌then◌else◌, ◌==◌, get_or, take}
use lisa_user.Rstp.Bpdu.{MacHeader, EthHeader, BpduHeader, BpduBody, Bpdu}
use lisa_user.Rstp.Port.{Port}

abbrev overlay_mac : List ℕ → Bpdu → MacHeader
overlay_mac xs b = record {
  dst_mac = record {
    b0 = get_or xs 0 b.mac.dst_mac.b0;
    b1 = get_or xs 1 b.mac.dst_mac.b1;
    b2 = get_or xs 2 b.mac.dst_mac.b2;
    b3 = get_or xs 3 b.mac.dst_mac.b3;
    b4 = get_or xs 4 b.mac.dst_mac.b4;
    b5 = get_or xs 5 b.mac.dst_mac.b5;
  };
  src_mac = record {
    b0 = get_or xs 6 b.mac.src_mac.b0;
    b1 = get_or xs 7 b.mac.src_mac.b1;
    b2 = get_or xs 8 b.mac.src_mac.b2;
    b3 = get_or xs 9 b.mac.src_mac.b3;
    b4 = get_or xs 10 b.mac.src_mac.b4;
    b5 = get_or xs 11 b.mac.src_mac.b5;
  };
}

abbrev overlay_eth : List ℕ → Bpdu → EthHeader
overlay_eth xs b = record {
  len = record { b0 = get_or xs 12 b.eth.len.b0; b1 = get_or xs 13 b.eth.len.b1 };
  dsap = get_or xs 14 b.eth.dsap;
  ssap = get_or xs 15 b.eth.ssap;
  llc = get_or xs 16 b.eth.llc;
}

abbrev overlay_hdr : List ℕ → Bpdu → BpduHeader
overlay_hdr xs b = record {
  protocol = record { b0 = get_or xs 17 b.hdr.protocol.b0; b1 = get_or xs 18 b.hdr.protocol.b1 };
  version = get_or xs 19 b.hdr.version;
  bpdu_type = get_or xs 20 b.hdr.bpdu_type;
}

abbrev overlay_body : List ℕ → Bpdu → BpduBody
overlay_body xs b = record {
  flags = get_or xs 21 b.body.flags;
  root_id = record {
    bridge_priority = record {
      b0 = get_or xs 22 b.body.root_id.bridge_priority.b0;
      b1 = get_or xs 23 b.body.root_id.bridge_priority.b1;
    };
    bridge_address = record {
      b0 = get_or xs 24 b.body.root_id.bridge_address.b0;
      b1 = get_or xs 25 b.body.root_id.bridge_address.b1;
      b2 = get_or xs 26 b.body.root_id.bridge_address.b2;
      b3 = get_or xs 27 b.body.root_id.bridge_address.b3;
      b4 = get_or xs 28 b.body.root_id.bridge_address.b4;
      b5 = get_or xs 29 b.body.root_id.bridge_address.b5;
    };
  };
  root_path_cost = record {
    b0 = get_or xs 30 b.body.root_path_cost.b0;
    b1 = get_or xs 31 b.body.root_path_cost.b1;
    b2 = get_or xs 32 b.body.root_path_cost.b2;
    b3 = get_or xs 33 b.body.root_path_cost.b3;
  };
  bridge_id = record {
    bridge_priority = record {
      b0 = get_or xs 34 b.body.bridge_id.bridge_priority.b0;
      b1 = get_or xs 35 b.body.bridge_id.bridge_priority.b1;
    };
    bridge_address = record {
      b0 = get_or xs 36 b.body.bridge_id.bridge_address.b0;
      b1 = get_or xs 37 b.body.bridge_id.bridge_address.b1;
      b2 = get_or xs 38 b.body.bridge_id.bridge_address.b2;
      b3 = get_or xs 39 b.body.bridge_id.bridge_address.b3;
      b4 = get_or xs 40 b.body.bridge_id.bridge_address.b4;
      b5 = get_or xs 41 b.body.bridge_id.bridge_address.b5;
    };
  };
  port_id = record { b0 = get_or xs 42 b.body.port_id.b0; b1 = get_or xs 43 b.body.port_id.b1 };
  message_age = record {
    b0 = get_or xs 44 b.body.message_age.b0;
    b1 = get_or xs 45 b.body.message_age.b1;
  };
  max_age = record { b0 = get_or xs 46 b.body.max_age.b0; b1 = get_or xs 47 b.body.max_age.b1 };
  hello_time = record {
    b0 = get_or xs 48 b.body.hello_time.b0;
    b1 = get_or xs 49 b.body.hello_time.b1;
  };
  forward_delay = record {
    b0 = get_or xs 50 b.body.forward_delay.b0;
    b1 = get_or xs 51 b.body.forward_delay.b1;
  };
}

abbrev pub overlay : List ℕ → Bpdu → Bpdu
overlay xs b = record {
  mac = overlay_mac xs b;
  eth = overlay_eth xs b;
  hdr = overlay_hdr xs b;
  body = overlay_body xs b;
  ver_1_len = get_or xs 52 b.ver_1_len;
}

-- The body of the receiving loop for a port whose socket is readable: `answer` is what `recv`
-- returns, `none` for an error. At most 60 bytes are read.
unfoldable pub recv_port : Option (List ℕ) → Port → Port
recv_port answer entry =
    let waited = record entry { processed_bpdu = entry.processed_bpdu - 1 } in
    if entry.processed_bpdu == 0 then entry else elim answer [
      | none ↦ waited
      | some frame ↦ record waited {
        buf = overlay (take 60 frame) entry.buf;
        rcvd_bpdu = entry.rcvd_bpdu + 1;
      }
    ]
