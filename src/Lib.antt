-- ===== src/Lib.antt =====
-- The docsis_monitor program: it watches one wire for DHCP and TFTP, the traffic by which cable
-- modems are provisioned, and says when an interface of the plant has gone quiet or is not
-- answered.
--
-- The program (src/main.rs) says when it was built, if it is asked (src/version.rs), reads and
-- checks its settings (src/config.rs), leaves the terminal and takes its log (src/logfiles.rs).
-- The loop (src/capture.rs) reads a frame (src/packet.rs) into its kind, addresses, gi-address and
-- transaction id; the packet is counted in a sliding window (src/counters.rs) and in the row of the
-- relay that sent it, where a reply is matched with its request (src/relays.rs). When a report is
-- due each row is judged and the worst verdict decides whether an alert is sent (src/alarm.rs),
-- which goes out as a trap (src/snmp.rs) and as mail (src/email.rs). A watched plant yields its own
-- thresholds (src/adapt.rs).
--
--   Base                the tests, lists, text and machine words that the modules share
--   Order, OrdMap       the derived orders of the key types, and BTreeMap as a sorted list
--   Result              anyhow::Result, with the contexts of an error
--   Float               the f64 operations as an interface, and exact fractions as one instance
--   Ip                  the text of an address, and a reader of the dotted one
--   Config              src/config.rs: Settings (Config, Thresholds, PerRelay, Snmp, Target, Smtp,
--                       usable, helo, mail, report_unknown), Check (check), Load (search_paths, load)
--   Packet              src/packet.rs: Headers (be16, quad, sixteen, ethernet, ipv4, ipv6, udp),
--                       Classify (giaddr, classify, xid, tftp_kind), Read (Seen, read)
--   Packet/Frame        frames as a sender builds them, for the round trips
--   Relays              src/relays.rs: Table (every operation), Events (sequences of them), Silence
--                       (a row from the times of its requests), Waiting (a map without sweeps)
--   Counters            src/counters.rs: Flow, Window (new, add, expire, window, total), Sort
--                       (by_flow); History, the packets that the window stands for, and Sessions,
--                       what each flow holds of them
--   Alarm               src/alarm.rs: Judge (judge_relay, worst), Repeats (should_send)
--   Snmp                src/snmp.rs: Ber (tlv, length, integer, unsigned, oid, base128), Trap
--                       (varbind, encode), Send (send), and Reader, a receiver of the datagrams
--   Email               src/email.rs: Compose (compose), Data (data), Base64 (base64), Conversation
--                       (say, expect), Send (send); and Received and Decode, the other end, Lines
--   Adapt               src/adapt.rs: Suggest (suggest, judge, as_config); and Json and Block, a
--                       reader of the block
--   Capture             src/capture.rs: Open (find, open), Decide (judge_each, should_tell, busiest,
--                       build), Lines (heading to flow_lines, progress), Suggestions
--                       (write_suggestions), Report (report), Watch (run); Rounds and Handed, what
--                       a round and an alert print
--   Logs                src/logfiles.rs: capture_in, start, redirect, write_pid, touch, the heartbeat
--   Version             src/version.rs: build_epoch, format, print_and_exit_if_requested
--   Program             src/main.rs: main, go_to_background
--
-- Numbers: a release build wraps, so a u64 sum is add64, and saturating_sub is the subtraction of
-- the natural numbers. A byte is a number below 256 and an address its big-endian value. Every loop
-- is structural recursion; the loops over VLAN tags and IPv6 extension headers have the two and
-- eight rounds of the source. A number is printed in at most the 20 digits of a u64, the segment of
-- an address in 4, and base128 makes the 9 rounds that a u64 needs after its first group. Text is the
-- list of its UTF-8 bytes.
--
-- What is outside the program is a parameter: the loop of Capture goes over ticks, each with the
-- readings of the clock and what the capture library answers, so that a list of ticks is what a run
-- meets until it is cut off; a mail server is the list of what it sends; Load takes the file system
-- and the JSON parser; Net in Snmp/Send holds the calls of the sockets. That something was sent
-- shows in the line that is printed on the answer.
--
-- Not modelled: the capture library, the parsers of JSON, with the defaults that it fills in, and
-- of the command line, the sockets, files, the calendar of the zone, the clock and the fork, which
-- are not of this repository; and the thread of the heartbeat, which shares nothing with the rest and
-- is a loop of its own in Logs.
pub mod Base
pub mod Packet
pub mod Float
pub mod Alarm
pub mod Order
pub mod OrdMap
pub mod Relays
pub mod Counters
pub mod Snmp
pub mod Adapt
pub mod Result
pub mod Ip
pub mod Email
pub mod Logs
pub mod Version
pub mod Program
pub mod Capture
pub mod Config
