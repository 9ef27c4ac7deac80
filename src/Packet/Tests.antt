-- ===== src/Packet/Tests.antt =====
-- packet.rs on concrete frames: a relayed DHCPv4 request with an option and two tags, and a DHCPv6
-- reply behind a hop-by-hop header.
use mathlib.Core.Option
use docsis_monitor.Base.{
  replicate, All, ℕ, ◌+◌, ◌*◌, ◌≤◌, ◌≡◌, refl, none, some, List, [], ◌∷◌, ◌++◌, arith, Option,
}
use docsis_monitor.Packet.Frame.Ipv4.{Ipv4Header, IsHeader, Pair, fragment_bytes, ipv4_fragment}
use docsis_monitor.Packet.Frame.Read.{
  Frame, IsFrame, Frame6, IsFrame6, frame_bytes, frame6_bytes, seen_in, seen_in6, read-frame_bytes,
  read-frame6_bytes,
}
use docsis_monitor.Packet.Read.{Seen, read}
use docsis_monitor.Packet.Bounds.{IsConsistent, IsByte, walk_bound, read-IsConsistent}
use docsis_monitor.Packet.Headers.{ipv4, walk, IpAddr}
use docsis_monitor.Packet.Classify.{classify, Kind}
use docsis_monitor.Packet.Frame.Ethernet.{tagged, Tpid, read_three_tags}
use docsis_monitor.Packet.Direction.{classify_swap}
use docsis_monitor.Packet.Frame.Ipv6.{ExtKind}

abbrev macs : List ℕ
macs = replicate 12 0x11

abbrev zeros : List ℕ
zeros = replicate 6 0

-- A BOOTREQUEST with transaction 7 and gi-address 10.1.0.1.
abbrev bootp : List ℕ
bootp = 1 ∷ 1 ∷ 6 ∷ 1 ∷ 0 ∷ 0 ∷ 0 ∷ 7 ∷ replicate 16 0 ++ 10 ∷ 1 ∷ 0 ∷ 1 ∷ []

abbrev header : Ipv4Header
header = record {
  words = 1;
  tos = 0;
  total_high = 0;
  total_low = 60;
  id_high = 0;
  id_low = 1;
  flags = 2;
  ttl = 64;
  protocol = 17;
  sum_high = 0;
  sum_low = 0;
  src = record { a = 10; b = 1; c = 0; d = 1 };
  dst = record { a = 10; b = 0; c = 0; d = 5 };
  options = 1 ∷ 1 ∷ 1 ∷ 0 ∷ [];
}

header-IsHeader : IsHeader header
header-IsHeader = record { few_words = omega arith; flag_bits = omega arith; options_length = refl }

abbrev no_sum : Pair
no_sum = record { high = 0; low = 0 }

abbrev relayed : Frame
relayed = record {
  macs = macs;
  tags =
      record { tpid = Tpid.service; high = 0; low = 5 }
      ∷ record { tpid = Tpid.customer; high = 0; low = 9 }
      ∷ [];
  header = header;
  sport = record { high = 0; low = 67 };
  dport = record { high = 0; low = 67 };
  len = record { high = 0; low = 36 };
  sum = no_sum;
  body = bootp;
}

relayed-IsFrame : IsFrame relayed
relayed-IsFrame = record {
  two_macs = refl;
  few_tags = omega arith;
  header_valid = header-IsHeader;
  is_udp = refl;
  len_covers_header = omega arith;
}

-- What is read of it.
abbrev relayed_seen : Seen
relayed_seen = record {
  kind = Kind.client_request;
  src = IpAddr.v4 0x0a010001;
  dst = IpAddr.v4 0x0a000005;
  sport = 67;
  dport = 67;
  gi = some 0x0a010001;
  xid = some 7;
  bytes = 28;
}

read-relayed : read (frame_bytes relayed) ≡ some relayed_seen
unfolding read docsis_monitor.Packet.Headers.ethernet ipv4 docsis_monitor.Packet.Headers.udp
    classify docsis_monitor.Packet.Classify.giaddr docsis_monitor.Packet.Classify.xid
read-relayed = refl

read-frame_bytes_example :
    read (frame_bytes relayed) ≡ Option.map (seen_in relayed) (classify 67 67 bootp)
read-frame_bytes_example = read-frame_bytes relayed relayed-IsFrame

read-IsConsistent_example : IsConsistent relayed_seen
read-IsConsistent_example = read-IsConsistent (frame_bytes relayed) read-relayed

abbrev reply6 : Frame6
reply6 = record {
  macs = macs;
  tags = [];
  header = record {
    class_high = 0;
    flow = record { a = 0; b = 0; c = 0; d = 0 };
    length_low = 20;
    length_high = 0;
    hop_limit = 64;
    src = replicate 15 0 ++ 1 ∷ [];
    dst = replicate 15 0 ++ 2 ∷ [];
  };
  exts = record { kind = ExtKind.hop_by_hop; second = 0; content = replicate 6 0 } ∷ [];
  sport = record { high = 2; low = 35 };
  dport = record { high = 2; low = 34 };
  len = record { high = 0; low = 12 };
  sum = no_sum;
  body = 7 ∷ 0 ∷ 1 ∷ 2 ∷ [];
}

reply6-IsFrame6 : IsFrame6 reply6
reply6-IsFrame6 = record {
  two_macs = refl;
  few_tags = omega arith;
  header_valid = record { class_bits = omega arith; src_length = refl; dst_length = refl };
  few_exts = omega arith;
  exts_valid = (refl, tt);
  len_covers_header = omega arith;
}

read-frame6_bytes_example :
    read (frame6_bytes reply6)
    ≡ Option.map (seen_in6 reply6) (classify 547 546 (7 ∷ 0 ∷ 1 ∷ 2 ∷ []))
read-frame6_bytes_example = read-frame6_bytes reply6 reply6-IsFrame6

read-reply6 :
    Option.map {B = Kind × Option ℕ} (λ (s : Seen). (s.kind, s.xid)) (read (frame6_bytes reply6))
    ≡ some (Kind.server_reply, some 258)
unfolding read docsis_monitor.Packet.Headers.ethernet docsis_monitor.Packet.Headers.ipv6
    docsis_monitor.Packet.Headers.udp classify docsis_monitor.Packet.Classify.xid
read-reply6 = refl

three_tags_refused :
    read (
      macs
      ++ tagged
          (record { tpid = Tpid.service; high = 0; low = 1 }
            ∷ record { tpid = Tpid.customer; high = 0; low = 2 }
            ∷ record { tpid = Tpid.customer; high = 0; low = 3 }
            ∷ [])
          (8 ∷ 0 ∷ []))
    ≡ none
three_tags_refused =
    read_three_tags macs (record { tpid = Tpid.service; high = 0; low = 1 })
      (record { tpid = Tpid.customer; high = 0; low = 2 })
      (record { tpid = Tpid.customer; high = 0; low = 3 }) (8 ∷ 0 ∷ []) refl

later_fragment : ipv4 (fragment_bytes header 1 0 bootp) ≡ none
later_fragment = ipv4_fragment header 1 0 bootp (omega arith) (omega arith) (omega arith)

either_direction : classify 67 68 (2 ∷ []) ≡ classify 68 67 (2 ∷ [])
either_direction = classify_swap 67 68 2 []

zeros-IsByte : All IsByte zeros
zeros-IsByte =
    (omega arith, (omega arith, (omega arith, (omega arith, (omega arith, (omega arith, tt))))))

walk-zeros : walk 1 zeros 0 4 ≡ some (0, 12)
unfolding walk
walk-zeros = refl

short_walk : (4 ≤ 12) × (12 ≤ 4 + 1 * 2048)
short_walk = walk_bound 1 zeros 0 4 0 12 zeros-IsByte walk-zeros
