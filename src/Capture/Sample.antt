-- ===== src/Capture/Sample.antt =====
-- A short run of capture.rs for the tests: a relayed request, a timeout past the first report, a
-- failed read and a tick after the deadline.
use docsis_monitor.Float.{exact}
use docsis_monitor.Config.Settings.{Config, default_thresholds}
use docsis_monitor.Capture.Watch.{
  Tick, Reading, frame, timed_out, failed, loop, start, run, banner, closing, deadline, Watch,
  report_after,
}
use docsis_monitor.Capture.Report.{World}
use docsis_monitor.Capture.Events.{used, events}
use docsis_monitor.Result.{ok, bail}
use docsis_monitor.Base.{
  length, replicate, codes, ℕ, ◌≡◌, refl, false, none, some, List, [], ◌∷◌, ◌++◌, arith,
}
use docsis_monitor.Relays.Tally.{requests_in, replies_in}
use docsis_monitor.Capture.Counted.{packets, last_clock, AreForward}
use docsis_monitor.Packet.Headers.{IpAddr}

-- A request of a relay with transaction 7 and gi-address 10.1.0.1.
abbrev pub request_frame : List ℕ
request_frame =
    replicate 12 0x11
    ++ 0x08
      ∷ 0
      ∷ 0x45
      ∷ 0
      ∷ 0
      ∷ 56
      ∷ 0
      ∷ 0
      ∷ 0
      ∷ 0
      ∷ 64
      ∷ 17
      ∷ 0
      ∷ 0
      ∷ 10
      ∷ 1
      ∷ 0
      ∷ 1
      ∷ 10
      ∷ 0
      ∷ 0
      ∷ 5
      ∷ 0
      ∷ 67
      ∷ 0
      ∷ 67
      ∷ 0
      ∷ 36
      ∷ 0
      ∷ 0
      ∷ 1
      ∷ 1
      ∷ 6
      ∷ 1
      ∷ 0
      ∷ 0
      ∷ 0
      ∷ 7
      ∷ replicate 16 0
    ++ 10 ∷ 1 ∷ 0 ∷ 1 ∷ []

abbrev pub plant : Config exact
plant = record {
  interface = codes "eth1";
  nofork = false;
  window = 300;
  report_every = 60;
  thresholds = default_thresholds exact;
  snmp = record {
    targets = record { host = codes "nms"; port = 162; community = codes "public" } ∷ [];
    sysname = some (codes "head-end");
  };
  per_relay = [];
  smtp = none;
  extra = [];
}

abbrev pub host : World
host = record {
  host = none;
  zoned = λ at. none;
  net = record {
    resolve = λ name port. bail (codes "no such host");
    bind = λ at. ok tt;
    send_to = λ to port bytes. ok tt;
  };
  connect = λ name port. bail (codes "refused");
}

abbrev pub ticks : List Tick
ticks =
    record {
      top = 1_000;
      world = host;
      reading = frame request_frame 1_001 1_001_500;
      after = 1_001;
    }
    ∷ record { top = 1_001; world = host; reading = timed_out; after = 1_065 }
    ∷ record { top = 1_065; world = host; reading = failed (codes "down"); after = 1_066 }
    ∷ []

abbrev pub late : Tick
late = record { top = 1_200; world = host; reading = timed_out; after = 1_300 }

pub used-ticks : used (some 100) 1_000 (ticks ++ late ∷ []) ≡ ticks
unfolding docsis_monitor.Capture.Watch.is_over
used-ticks = refl

pub one_request : requests_in (events (used none 1_000 ticks)) ≡ 1
unfolding docsis_monitor.Packet.Read.read docsis_monitor.Packet.Headers.ethernet
    docsis_monitor.Packet.Headers.ipv4 docsis_monitor.Packet.Headers.udp
    docsis_monitor.Packet.Classify.classify docsis_monitor.Capture.Watch.is_over
one_request = refl

pub no_reply : replies_in (events (used none 1_000 ticks)) ≡ 0
unfolding docsis_monitor.Packet.Read.read docsis_monitor.Packet.Headers.ethernet
    docsis_monitor.Packet.Headers.ipv4 docsis_monitor.Packet.Headers.udp
    docsis_monitor.Packet.Classify.classify docsis_monitor.Capture.Watch.is_over
no_reply = refl

pub one_packet : length (packets (used none 1_000 ticks) []) ≡ 1
unfolding docsis_monitor.Packet.Read.read docsis_monitor.Packet.Headers.ethernet
    docsis_monitor.Packet.Headers.ipv4 docsis_monitor.Packet.Headers.udp
    docsis_monitor.Packet.Classify.classify docsis_monitor.Capture.Watch.is_over
one_packet = refl

pub clock_ticks : last_clock 1_000 (used none 1_000 ticks) ≡ 1_066
unfolding docsis_monitor.Capture.Watch.is_over
clock_ticks = refl

pub forward_ticks : AreForward 1_000 (used none 1_000 ticks)
unfolding docsis_monitor.Capture.Watch.is_over
forward_ticks = ((omega arith, omega arith), (omega arith, (omega arith, tt)))

abbrev pub watched : Watch
watched = (loop exact plant none 1_000 none ticks (start exact plant none 1_000)).0
