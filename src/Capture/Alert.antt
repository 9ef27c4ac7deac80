-- ===== src/Capture/Alert.antt =====
-- The trap that capture.rs builds, as its receiver sees it.
use docsis_monitor.Snmp.Trap.{encode, field, Trap, Value, oid_of, all_bindings}
use docsis_monitor.Snmp.Message.{message_of, read_message-encode}
use docsis_monitor.Snmp.Reader.{read_message, Message}
use docsis_monitor.Snmp.Integers.{capped}
use mathlib.Core.Option.{get_or}
use docsis_monitor.Snmp.Datagram.{AreWritable}
use docsis_monitor.Capture.Decide.{build, which_trap, host_name}
use docsis_monitor.Base.{
  low_bits, mul64, ◌-◌, ◌++◌, length, Text, ℕ, ◌^◌, ◌<◌, ◌≡◌, Option, some, arith, if◌then◌else◌,
  codes, List, ◌∷◌, ap, ◌∙◌, [], refl,
}
use docsis_monitor.Alarm.Judge.{State, word}
use docsis_monitor.Float.{Floats}
use docsis_monitor.Config.Settings.{Config, Target}
use docsis_monitor.Counters.Window.{Window}
use docsis_monitor.Snmp.Send.{Net, is_ipv6, first_address}
use docsis_monitor.Result.{ok, chain_lem}
use docsis_monitor.Packet.Headers.{IpAddr}

which_trap-lt : (s : State) → which_trap s < 2 ^ 64
unfolding which_trap
which_trap-lt State.working = omega arith
which_trap-lt State.quiet = omega arith
which_trap-lt State.unanswered = omega arith

module _ (f : Floats) where
  build-AreWritable :
      (host : Option Text) (cfg : Config f) (s : State) (w : Window) (at began : ℕ) (busy : Text)
      → AreWritable (build f host cfg s w at began busy).bindings
  unfolding build field
  build-AreWritable host cfg s w at began busy = ground arith

  build-which :
      (host : Option Text) (cfg : Config f) (s : State) (w : Window) (at began : ℕ) (busy : Text)
      → (build f host cfg s w at began busy).which < 2 ^ 64
  unfolding build
  build-which host cfg s w at began busy = which_trap-lt s

  -- The trap for any state, window and configuration whose datagram has fewer than 2^64 bytes is
  -- read back by a receiver: its community, its number and each of its eight fields.
  pub read_message-build :
      (community : Text) (host : Option Text) (cfg : Config f) (s : State) (w : Window)
      (at began : ℕ) (busy : Text)
      → length (encode community (build f host cfg s w at began busy)) < 2 ^ 64
      → read_message (encode community (build f host cfg s w at began busy))
        ≡ some (message_of community (build f host cfg s w at began busy))
  read_message-build community host cfg s w at began busy short =
      read_message-encode community (build f host cfg s w at began busy)
        (build-which host cfg s w at began busy) (build-AreWritable host cfg s w at began busy)
        short

first_address-ok :
    (name : Text) (all : List IpAddr) {to : IpAddr}
    → first_address name all ≡ ok to
    → (others : List IpAddr) × (all ≡ to ∷ others)
unfolding first_address
first_address-ok name [] h = cc
first_address-ok name (a ∷ rest) h = (rest, ground arith)

-- What a send that succeeds handed over: the datagram, to the first address of the receiver's name,
-- from a socket of its family.
send-ok :
    (net : Net) (target : Target) (t : Trap)
    → docsis_monitor.Snmp.Send.send net target t ≡ ok tt
    → (to : IpAddr) × (others : List IpAddr) × (net.resolve target.host target.port
        ≡ ok (to ∷ others))
      × (net.bind (if is_ipv6 to then codes "[::]:0" else codes "0.0.0.0:0") ≡ ok tt)
      × (net.send_to to target.port (encode target.community t) ≡ ok tt)
unfolding docsis_monitor.Snmp.Send.send
send-ok net target t h =
    let (addresses, resolved, h1) = chain_lem (net.resolve target.host target.port) _ h in
    let (to, first, h2) = chain_lem (first_address target.host addresses) _ h1 in
    let (bound, was_bound, h3) =
      chain_lem (net.bind (if is_ipv6 to then codes "[::]:0" else codes "0.0.0.0:0")) _ h2 in
    let (others, listed) = first_address-ok target.host addresses first in
    (to, others, resolved ∙ ap ok listed, was_bound, h3)

-- The arc of this program under `enterprises`, and the number under it by which a receiver knows
-- each state: 1 quiet, 2 unanswered, 3 working.
abbrev pub arc : List ℕ
arc = 1 ∷ 3 ∷ 6 ∷ 1 ∷ 4 ∷ 1 ∷ 99_999 ∷ []

abbrev pub number_of : State → ℕ
number_of State.quiet = 1
number_of State.unanswered = 2
number_of State.working = 3

abbrev pub word_of : State → Text
word_of State.working = codes "working"
word_of State.quiet = codes "quiet"
word_of State.unanswered = codes "unanswered"

-- What a receiver is to see of an alert: how long the program runs, in hundredths of a second, the
-- number of the state, and then under the arc of the fields the host, the interface, the word for
-- the state, the requests, the replies and the TFTP reads of the window, how many seconds it has,
-- and the busiest flow.
abbrev pub alert_of :
    Text → Text → Text → State → (requests replies tftp_reads seconds : ℕ) → Text → ℕ → Message
alert_of community name interface s requests replies tftp_reads seconds busy ticks = record {
  community = community;
  request_id = low_bits ticks 31;
  error_status = 0;
  error_index = 0;
  bindings =
      (1 ∷ 3 ∷ 6 ∷ 1 ∷ 2 ∷ 1 ∷ 1 ∷ 3 ∷ 0 ∷ [], Value.ticks (capped ticks))
      ∷ (1 ∷ 3 ∷ 6 ∷ 1 ∷ 6 ∷ 3 ∷ 1 ∷ 1 ∷ 4 ∷ 1 ∷ 0 ∷ [], Value.oid (arc ++ number_of s ∷ []))
      ∷ (arc ++ 1 ∷ 1 ∷ [], Value.str name)
      ∷ (arc ++ 1 ∷ 2 ∷ [], Value.str interface)
      ∷ (arc ++ 1 ∷ 3 ∷ [], Value.str (word_of s))
      ∷ (arc ++ 1 ∷ 4 ∷ [], Value.count (capped requests))
      ∷ (arc ++ 1 ∷ 5 ∷ [], Value.count (capped replies))
      ∷ (arc ++ 1 ∷ 6 ∷ [], Value.count (capped tftp_reads))
      ∷ (arc ++ 1 ∷ 7 ∷ [], Value.count (capped seconds))
      ∷ (arc ++ 1 ∷ 8 ∷ [], Value.str busy)
      ∷ [];
}

module _ (f : Floats) where
  -- The alert for this state, window and configuration.
  abbrev pub alert : Text → Option Text → Config f → State → Window → ℕ → ℕ → Text → Message
  alert community host cfg s w at began busy =
      alert_of community (get_or cfg.snmp.sysname (get_or host (codes "unknown"))) cfg.interface s
        w.requests w.replies w.tftp_reads cfg.window busy (mul64 (at - began) 100)

  message_of-build :
      (community : Text) (host : Option Text) (cfg : Config f) (s : State) (w : Window)
      (at began : ℕ) (busy : Text)
      → message_of community (build f host cfg s w at began busy)
        ≡ alert community host cfg s w at began busy
  unfolding build oid_of field word which_trap host_name all_bindings
  message_of-build community host cfg State.working w at began busy = refl
  message_of-build community host cfg State.quiet w at began busy = refl
  message_of-build community host cfg State.unanswered w at began busy = refl

module _ (f : Floats) where
  -- A trap for any state, window and configuration that `send` reports as sent was handed over as a
  -- datagram for the first address of the receiver's name and its port; and if that has fewer than
  -- 2^64 bytes, who receives it reads from it the community of the target, the running time in
  -- hundredths of a second, the number of the state (1 quiet, 2 unanswered, 3 working), and in the
  -- fields 1 to 8 the name of the host, the interface, the word for the state, the requests, the
  -- replies and the TFTP reads of the window, its seconds and the busiest flow; a number that needs
  -- more than 32 bits counts as the largest.
  pub send-build :
      (net : Net) (target : Target) (host : Option Text) (cfg : Config f) (s : State) (w : Window)
      (at began : ℕ) (busy : Text)
      → docsis_monitor.Snmp.Send.send net target (build f host cfg s w at began busy) ≡ ok tt
      → length (encode target.community (build f host cfg s w at began busy)) < 2 ^ 64
      → (to : IpAddr) × (others : List IpAddr) × (datagram : List ℕ) × (net.resolve target.host
            target.port
          ≡ ok (to ∷ others))
        × (net.send_to to target.port datagram ≡ ok tt)
        × (read_message datagram ≡ some (alert f target.community host cfg s w at began busy))
  send-build net target host cfg s w at began busy sent short =
      let t = build f host cfg s w at began busy in
      let (to, others, resolved, bound, handed_over) = send-ok net target t sent in
      (
        to,
        others,
        encode target.community t,
        resolved,
        handed_over,
        read_message-build f target.community host cfg s w at began busy short
            ∙ ap (λ (m : Message). some m)
                (message_of-build f target.community host cfg s w at began busy),
      )
