-- ===== src/Scenarios/Discovery.antt =====
-- A sender, its frame and a registry of two interfaces, and the results on the discovery daemon at
-- them.
use lisa_user.Base.{
  ℕ, ◌%◌, ◌≡◌, refl, arith, Bool, true, false, ◌&&◌, List, [], ◌∷◌, ◌++◌, none, some, ltb, All,
  length,
}
use lisa_user.Cdp.Send.{Sender, cdp_checksum, cdp_packet, cdp_frame, cdp_fields}
use lisa_user.Cdp.Receive.{dissect_packet, dissect_fields}
use lisa_user.Cdp.Checksum.{IsByte, word_sum, padded, cdp_packet_sums}
use lisa_user.Cdp.Dissection.{seen_of, HasRoom, cdp_frame_dissected, zero_length_field_loops}
use lisa_user.Cdp.Registry.{CdpInterface, Registry, SystemAnswers, cdpd_register_interface}
use lisa_user.Cdp.Membership.{IsRegistry, Registered, cdpd_register_interface-IsRegistry}
use lisa_user.Cdp.Aging.{NeighborHeap, heap_insert, sift_down}
use lisa_user.Cdp.Aging.Order.{IsHeap, IsLinked, stamp}
use lisa_user.Cdp.Aging.Insert.{HasHeap, heap_insert-HasHeap}
use lisa_user.Cdp.Aging.SiftDown.{sift_down-IsHeap}
use lisa_user.Base.{if◌then◌else◌, ◌==◌}

-- the host "sw", its port "p0", the version "L" and the platform "x"
abbrev host : Sender
host = record {
  cdp = record {
    enabled = 1;
    version = 2;
    holdtime = 180;
    timer = 60;
    capabilities = 8;
    software_version = 76 ∷ [];
    platform = 120 ∷ [];
    duplex = 1;
  };
  hostname = 115 ∷ 119 ∷ [];
  port = 112 ∷ 48 ∷ [];
  hwaddr = record { b0 = 2; b1 = 0; b2 = 0; b3 = 0; b4 = 0; b5 = 1 };
}

host-HasRoom : HasRoom host
host-HasRoom = (omega arith, omega arith, omega arith, omega arith)

abbrev all_bytes : List ℕ → Bool
all_bytes [] = true
all_bytes (b ∷ bytes) = ltb b 256 && all_bytes bytes

all_bytes-IsByte : (bytes : List ℕ) → all_bytes bytes ≡ true → All IsByte bytes
all_bytes-IsByte [] h = tt
all_bytes-IsByte (b ∷ bytes) h = ground (arith, all_bytes-IsByte bytes)

host_bytes : All IsByte (cdp_packet host 0)
unfolding cdp_packet
host_bytes = all_bytes-IsByte (cdp_packet host 0) refl

host_size : length (cdp_packet host 0) ≡ 56
unfolding cdp_packet
host_size = refl

cdp_packet_sums_example :
    word_sum false (padded false (cdp_packet host (cdp_checksum (cdp_packet host 0)))) % 65535 ≡ 0
cdp_packet_sums_example = cdp_packet_sums host host_bytes (omega (arith, host_size))

cdp_frame_dissected_example :
    dissect_packet 8 (cdp_frame host ++ (7 ∷ 7 ∷ []))
    ≡ some (record { cdp_version = 2; ttl = 180; fields = seen_of (cdp_fields host) (7 ∷ 7 ∷ []) })
cdp_frame_dissected_example = cdp_frame_dissected host (7 ∷ 7 ∷ []) host-HasRoom

zero_length_field_loops_example : dissect_fields 1000 20 4 (0 ∷ 5 ∷ 0 ∷ 0 ∷ []) ≡ none
zero_length_field_loops_example =
    zero_length_field_loops 1000 20 4 (0 ∷ 5 ∷ 0 ∷ 0 ∷ []) (omega arith) (omega arith) refl

abbrev port_of : ℕ → CdpInterface ℕ
port_of i = record { if_index = i; sw_sock_fd = 5; neighbors = 1 ∷ [] }

abbrev two_ports : Registry ℕ
two_ports = record { registered = port_of 3 ∷ []; deregistered = port_of 4 ∷ [] }

two_ports-IsRegistry : IsRegistry two_ports
two_ports-IsRegistry = λ k. ground arith

abbrev answers : SystemAnswers
answers = record {
  inet_socket = true;
  flags_known = true;
  up = true;
  switch_socket = true;
  known = true;
  switched = true;
  bound = true;
  sock = 9;
  allocated = true;
  sem_ready = true;
}

cdpd_register_interface-IsRegistry_example :
    Registered answers 4 two_ports (cdpd_register_interface answers 4 two_ports)
cdpd_register_interface-IsRegistry_example =
    cdpd_register_interface-IsRegistry answers 4 two_ports two_ports-IsRegistry

-- two nodes, which expire at 10 and 20
abbrev heap_of_two : NeighborHeap
heap_of_two = record {
  node = λ k. if k == 0 then record { tstamp = 10; n = 0 } else record { tstamp = 20; n = k };
  hnode = λ n. n;
}

heap_of_two-HasHeap : HasHeap 2 heap_of_two
heap_of_two-HasHeap = (λ k up within. ground arith, λ k within. ground arith)

heap_insert-HasHeap_example : HasHeap 3 (heap_insert 5 7 2 heap_of_two)
heap_insert-HasHeap_example =
    heap_insert-HasHeap 5 7 2 heap_of_two heap_of_two-HasHeap (λ k within. ground arith)

-- the root, with the node behind it later than its child
abbrev late_root : NeighborHeap
late_root = record {
  node = λ k. if k == 0 then record { tstamp = 30; n = 0 } else record { tstamp = 20; n = k };
  hnode = λ n. n;
}

sift_down-IsHeap_example :
    IsHeap 2 (stamp (sift_down 3 0 2 late_root)) × IsLinked 2 (sift_down 3 0 2 late_root)
sift_down-IsHeap_example =
    sift_down-IsHeap 3 0 2 late_root (omega arith)
      (λ k up within apart. ground arith, λ k up within below none_up. absurd (omega arith))
      (λ k within. ground arith)
