-- ===== src/Email/Send.antt =====
-- email.rs: `send`, one message to every recipient in one conversation.
use docsis_monitor.Result.{Result, ok, err}
use docsis_monitor.Email.Conversation.{◌>>◌, say, Socket, expect, Talk}
use docsis_monitor.Base.{Text, codes, concat, Option, some, List, [], ◌∷◌, ◌++◌}
use docsis_monitor.Config.Settings.{helo, Smtp}
use docsis_monitor.Email.Base64.{base64}
use docsis_monitor.Email.Compose.{Message}
use docsis_monitor.Email.Data.{data_text}

abbrev pub line_of : List Text → Text
line_of parts = concat (parts ++ codes "\r\n" ∷ [])

-- What the client says, in order.
unfoldable pub ehlo : Option Text → Smtp → Text
unfolding helo concat
ehlo host cfg = line_of (codes "EHLO " ∷ helo host cfg ∷ [])

-- The line for a user and a password: `\0{user}\0{pass}` in base64.
unfoldable pub auth : Text → Text → Text
unfolding base64 concat
auth user pass = line_of (codes "AUTH PLAIN " ∷ base64 (0 ∷ (user ++ 0 ∷ pass)) ∷ [])

unfoldable pub mail_from : Smtp → Text
unfolding concat
mail_from cfg = line_of (codes "MAIL FROM:<" ∷ cfg.from ∷ codes ">" ∷ [])

unfoldable pub rcpt_to : Text → Text
unfolding concat
rcpt_to rcpt = line_of (codes "RCPT TO:<" ∷ rcpt ∷ codes ">" ∷ [])

-- The `if let` of `send` on the credentials.
unfoldable pub authenticate : Option Text → Option Text → Talk → Talk
unfolding auth say expect
authenticate (some user) (some pass) next = say (auth user pass) >> expect b'2' >> next
authenticate _ _ next = next

-- The loop of `send` over the recipients.
unfoldable pub recipients : List Text → Talk → Talk
unfolding rcpt_to say expect
recipients [] next = next
recipients (r ∷ rs) next = say (rcpt_to r) >> expect b'2' >> recipients rs next

-- `let _ = say(…)`: the outcome does not matter.
unfoldable pub quit : Talk
unfolding say
quit s = (ok tt, (say (codes "QUIT\r\n") s).1)

-- `send`, once it is connected.
unfoldable pub converse : Option Text → Smtp → Message → Talk
unfolding say expect ehlo authenticate mail_from recipients data_text quit
converse host cfg m =
    expect b'2'
    >> say (ehlo host cfg)
    >> expect b'2'
    >> authenticate cfg.username cfg.password (
        say (mail_from cfg)
        >> expect b'2'
        >> recipients cfg.to
            (say (codes "DATA\r\n") >> expect b'3' >> say (data_text cfg m) >> expect b'2' >> quit))

-- `send`, with what connecting and setting the timeouts answers.
unfoldable pub send : Option Text → Result Socket → Smtp → Message → Result (Unit {0})
unfolding converse
send host (err why) cfg m = err why
send host (ok sock) cfg m = (converse host cfg m sock).0
