-- ===== src/Email/Transcript.antt =====
-- What `send` of email.rs says to the server, however the conversation goes.
use docsis_monitor.Result.{Result, ok, err}
use docsis_monitor.Email.Conversation.{◌>>◌, Socket, Talk, say, expect, expect_in}
use docsis_monitor.Base.{
  Text, codes, ℕ, ◌≡◌, ◌⊎◌, List, [], ◌∷◌, ◌++◌, zero, suc, refl, sym, ap, ◌∙◌, inl, inr, Option,
  none, some, map, arith,
}
use docsis_monitor.Email.Send.{
  quit, auth, authenticate, recipients, rcpt_to, ehlo, mail_from, converse,
}
use mathlib.Core.List.{append-nil, append_assoc}
use docsis_monitor.Config.Settings.{Smtp}
use docsis_monitor.Email.Compose.{Message}
use docsis_monitor.Email.Data.{data_text}

abbrev pub quit_line : Text
quit_line = codes "QUIT\r\n"

-- After a success nothing is left to say but perhaps the goodbye, whose outcome does not matter.
abbrev pub Finished : Result (Unit {0}) → List Text → Type 0
Finished (ok u) unsaid = (unsaid ≡ []) ⊎ (unsaid ≡ quit_line ∷ [])
Finished (err why) unsaid = Unit {0}

-- Of the words, in their order, some were said and the others were not; `before` had been said
-- already.
pub record Spoken (words before : List Text) (r : Result (Unit {0}) × Socket) : Type 0 where
  pub said : List Text
  pub unsaid : List Text
  pub split : words ≡ said ++ unsaid
  pub sent : r.1.sent ≡ before ++ said
  pub finished : Finished r.0 unsaid

Speaks : List Text → Talk → Type 0
Speaks words t = (s : Socket) → Spoken words s.sent (t s)

ℕ-cases : (n : ℕ) → (n ≡ 0) ⊎ ((m : ℕ) × (n ≡ suc m))
ℕ-cases zero = inl refl
ℕ-cases (suc m) = inr (m, refl)

-- A write succeeds, or none is left and it says nothing.
pub say_cases :
    (what : Text) (s : Socket)
    → ((s.writes_left ≡ 0) × (say what s ≡ (err (s.write_error ∷ []), s)))
      ⊎ ((n : ℕ) × (s.writes_left ≡ suc n)
          × (say what s ≡ (ok tt, record s { writes_left = n; sent = s.sent ++ what ∷ [] })))
unfolding say
say_cases what s = elim (ℕ-cases s.writes_left) [
  | inl none_left ↦ inl (none_left, ground arith)
  | inr (n, some_left) ↦ inr (n, some_left, ground arith)
]

pub Result-cases : (r : Result (Unit {0})) → (r ≡ ok tt) ⊎ ((why : List Text) × (r ≡ err why))
Result-cases (ok u) = inl refl
Result-cases (err why) = inr (why, refl)

Speaks-quit : Speaks (quit_line ∷ []) quit
unfolding Speaks quit
Speaks-quit s = elim (say_cases quit_line s) [
  | inl (none_left, failed) ↦ record {
    said = [];
    unsaid = quit_line ∷ [];
    split = refl;
    sent = ap (λ (r : Result (Unit {0}) × Socket). r.1.sent) failed ∙ sym (append-nil s.sent);
    finished = inr refl;
  }
  | inr (n, some_left, done) ↦ record {
    said = quit_line ∷ [];
    unsaid = [];
    split = refl;
    sent = ap (λ (r : Result (Unit {0}) × Socket). r.1.sent) done;
    finished = inl refl;
  }
]

-- A word in front of what was said.
Spoken-cons :
    (what : Text) (words before : List Text) (r : Result (Unit {0}) × Socket)
    → Spoken words (before ++ what ∷ []) r
    → Spoken (what ∷ words) before r
Spoken-cons what words before r p = record {
  said = what ∷ p.said;
  unsaid = p.unsaid;
  split = ap (◌∷◌ what) p.split;
  sent = p.sent ∙ append_assoc before (what ∷ []) p.said;
  finished = p.finished;
}

Spoken-err :
    (words : List Text) (why : List Text) (s : Socket) (before : List Text)
    → s.sent ≡ before
    → Spoken words before (err why, s)
Spoken-err words why s before e = record {
  said = [];
  unsaid = words;
  split = refl;
  sent = e ∙ sym (append-nil before);
  finished = tt;
}

Speaks-say :
    (what : Text) (words : List Text) (next : Talk)
    → Speaks words next
    → Speaks (what ∷ words) (say what >> next)
unfolding Speaks
Speaks-say what words next h s = elim (say_cases what s) [
  | inl (none_left, failed) ↦
      rw failed (Spoken-err (what ∷ words) (s.write_error ∷ []) s s.sent refl)
  | inr (n, some_left, done) ↦ rw done (
      Spoken-cons what words s.sent _
        (h (record s { writes_left = n; sent = s.sent ++ what ∷ [] })))
]

Speaks-expect :
    (want : ℕ) (words : List Text) (next : Talk)
    → Speaks words next
    → Speaks words (expect want >> next)
unfolding Speaks expect
Speaks-expect want words next h s =
    let t = record s { incoming = (expect_in want s.incoming).1 } in
    elim (Result-cases (expect_in want s.incoming).0) [
      | inl fine ↦ rw fine (h t)
      | inr (why, bad) ↦ rw bad (Spoken-err words why t s.sent refl)
    ]

-- What `send` has to say, in order.
abbrev pub auth_words : Option Text → Option Text → List Text
auth_words (some user) (some pass) = auth user pass ∷ []
auth_words _ _ = []

abbrev pub transcript : Option Text → Smtp → Message → List Text
transcript host cfg m =
    ehlo host cfg
    ∷ (auth_words cfg.username cfg.password
        ++ mail_from cfg
          ∷ (map rcpt_to cfg.to ++ codes "DATA\r\n" ∷ data_text cfg m ∷ quit_line ∷ []))

Speaks-authenticate :
    (user pass : Option Text) (words : List Text) (next : Talk)
    → Speaks words next
    → Speaks (auth_words user pass ++ words) (authenticate user pass next)
unfolding authenticate
Speaks-authenticate (some user) (some pass) words next h =
    Speaks-say (auth user pass) words (expect b'2' >> next) (Speaks-expect b'2' words next h)
Speaks-authenticate (some user) none words next h = h
Speaks-authenticate none pass words next h = h

Speaks-recipients :
    (rs : List Text) (words : List Text) (next : Talk)
    → Speaks words next
    → Speaks (map rcpt_to rs ++ words) (recipients rs next)
unfolding recipients
Speaks-recipients [] words next h = h
Speaks-recipients (r ∷ rs) words next h =
    let more = Speaks-recipients rs words next h in
    let rest = map rcpt_to rs ++ words in
    Speaks-say (rcpt_to r) rest (expect b'2' >> recipients rs next)
      (Speaks-expect b'2' rest (recipients rs next) more)

Speaks-converse :
    (host : Option Text) (cfg : Smtp) (m : Message)
    → Speaks (transcript host cfg m) (converse host cfg m)
unfolding converse
Speaks-converse host cfg m = Speaks-expect b'2' _ _ (
    Speaks-say (ehlo host cfg) _ _ (
      Speaks-expect b'2' _ _ (
        Speaks-authenticate cfg.username cfg.password _ _ (
          Speaks-say (mail_from cfg) _ _ (
            Speaks-expect b'2' _ _ (
              Speaks-recipients cfg.to _ _ (
                Speaks-say (codes "DATA\r\n") _ _ (
                  Speaks-expect b'3' _ _
                    (Speaks-say (data_text cfg m) _ _ (Speaks-expect b'2' _ _ Speaks-quit))))))))))

-- Whatever the server sends and wherever the connection breaks, what is said is a beginning of the
-- transcript, after what was said before; and if the conversation succeeds, nothing of it is left
-- out but perhaps the goodbye.
pub converse-Spoken :
    (host : Option Text) (cfg : Smtp) (m : Message) (s : Socket)
    → Spoken (transcript host cfg m) s.sent (converse host cfg m s)
unfolding Speaks
converse-Spoken host cfg m s = Speaks-converse host cfg m s
