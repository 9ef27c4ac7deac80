-- ===== src/Email/Tests.antt =====
-- email.rs on a message with a line that starts with a dot, and a server that answers every step.
use docsis_monitor.Config.Settings.{Smtp}
use docsis_monitor.Email.Compose.{Message, compose}
use docsis_monitor.Email.Base64.{base64}
use docsis_monitor.Email.Decode.{decode, decode-base64}
use docsis_monitor.Email.Data.{data_text, headers, lines}
use docsis_monitor.Email.Received.{receive, receive-data_text}
use docsis_monitor.Email.Conversation.{Socket, Incoming, line}
use docsis_monitor.Email.Send.{converse}
use docsis_monitor.Email.Transcript.{Spoken, transcript, converse-Spoken}
use docsis_monitor.Email.Accepted.{Replies, wanted, writes, converse-iff-Replies}
use docsis_monitor.Result.{ok}
use docsis_monitor.Alarm.Judge.{State, word}
use docsis_monitor.Float.{exact}
use docsis_monitor.Base.{codes, ◌≤◌, ◌≡◌, refl, ◌↔◌, none, some, List, [], ◌∷◌, ◌++◌, arith}
use docsis_monitor.Counters.Window.{Window}
use docsis_monitor.Email.Alert.{alert_lines, receive-compose}
use docsis_monitor.Email.Lines.{decimal-IsClean}

abbrev relay : Smtp
relay = record {
  server = codes "mail";
  port = 25;
  from = codes "m@x";
  to = codes "o@x" ∷ codes "n@x" ∷ [];
  subject_prefix = codes "[docsis]";
  username = none;
  password = none;
  helo_name = some (codes "head-end");
}

abbrev note : Message
note = record { subject = codes "quiet"; body = codes "one\n.two\n" }

abbrev server : Socket
server = record {
  incoming =
      line (codes "220 hello\r\n")
      ∷ line (codes "250-mail\r\n")
      ∷ line (codes "250 SIZE\r\n")
      ∷ line (codes "250 ok\r\n")
      ∷ line (codes "250 ok\r\n")
      ∷ line (codes "250 ok\r\n")
      ∷ line (codes "354 go on\r\n")
      ∷ line (codes "250 queued\r\n")
      ∷ [];
  writes_left = 9;
  write_error = codes "broken pipe";
  sent = [];
}

base64_hello : base64 (codes "hello") ≡ codes "aGVsbG8="
unfolding base64
base64_hello = refl

converse-note : (converse (some (codes "host")) relay note server).0 ≡ ok tt
unfolding converse
converse-note = refl

decode-base64_example : decode (base64 (codes "hello")) ≡ codes "hello"
decode-base64_example = decode-base64 (codes "hello") (ground arith)

receive-data_text_example :
    receive (data_text relay note) ≡ some (headers relay note ++ lines note.body, [])
receive-data_text_example =
    receive-data_text relay note (ground arith) (ground arith) (ground arith)

converse-Spoken_example : Spoken (transcript none relay note) [] (converse none relay note server)
converse-Spoken_example = converse-Spoken none relay note server

converse-iff-Replies_example : ((converse none relay note server).0 ≡ ok tt) ↔ (
    ((rest : List Incoming) × Replies (wanted relay) server.incoming rest)
    × (writes relay ≤ server.writes_left))
converse-iff-Replies_example = converse-iff-Replies none relay note server

abbrev few : Window
few = record { requests = 1; replies = 0; tftp_reads = 0; tftp_sends = 0 }

receive-compose_example :
    receive (
      data_text relay (
        compose exact
          (codes "[docsis]")
          (codes "head-end")
          (codes "eth1")
          (word State.quiet)
          few
          300
          (codes "none")))
    ≡ some (
      headers relay (
            compose exact
              (codes "[docsis]")
              (codes "head-end")
              (codes "eth1")
              (word State.quiet)
              few
              300
              (codes "none"))
          ++ alert_lines exact (codes "head-end") (codes "eth1") State.quiet few 300 (codes "none"),
      [],
    )
receive-compose_example =
    receive-compose exact relay (codes "head-end") (codes "eth1") State.quiet few 300 (codes "none")
      (ground arith) (ground arith) (ground arith) (ground arith) (ground arith) (ground arith)
      (λ x. decimal-IsClean _)
