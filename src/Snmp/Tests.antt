-- ===== src/Snmp/Tests.antt =====
-- snmp.rs on a trap with a text and a counter that needs more than 32 bits.
use docsis_monitor.Base.{length, Text, codes, ◌≡◌, refl, some, [], ◌∷◌, ◌++◌, arith}
use docsis_monitor.Snmp.Trap.{Trap, encode, enterprise, Value}
use docsis_monitor.Snmp.Datagram.{AreWritable}
use docsis_monitor.Snmp.Reader.{read_message, signed_word, natural}
use docsis_monitor.Snmp.Message.{message_of, read_message-encode}
use docsis_monitor.Snmp.Ber.{strip_sign, be_bytes}
use docsis_monitor.Snmp.Integers.{signed_word-integer, unsigned_body, natural-unsigned_body}

abbrev public : Text
public = codes "public"

abbrev quiet_trap : Trap
quiet_trap = record {
  uptime_ticks = 12_345;
  which = 2;
  bindings =
      (enterprise ++ 1 ∷ 1 ∷ [], Value.str (codes "quiet"))
      ∷ (enterprise ++ 1 ∷ 2 ∷ [], Value.count 5_000_000_000)
      ∷ [];
}

bindings-AreWritable : AreWritable quiet_trap.bindings
bindings-AreWritable = ((ground arith, tt), ((ground arith, tt), tt))

length-encode : length (encode public quiet_trap) ≡ 110
unfolding encode
length-encode = refl

read_message-encode_example :
    read_message (encode public quiet_trap) ≡ some (message_of public quiet_trap)
read_message-encode_example =
    read_message-encode public quiet_trap (omega arith) bindings-AreWritable
      (omega (arith, length-encode))

unsigned_back : natural (unsigned_body 200) ≡ some 200
unsigned_back = natural-unsigned_body 200

word_of_255 : signed_word (strip_sign (be_bytes 8 255)) ≡ 255
word_of_255 = signed_word-integer 255 (omega arith)
