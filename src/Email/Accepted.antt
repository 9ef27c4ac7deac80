-- ===== src/Email/Accepted.antt =====
-- When `send` of email.rs succeeds: exactly when the server answers every step with the digit that
-- the step wants, and the connection holds.
use docsis_monitor.Result.{ok}
use docsis_monitor.Email.Conversation.{
  ◌>>◌, Incoming, expect_in, line, broken, Talk, Socket, say, expect,
}
use docsis_monitor.Base.{
  Bool-cases, get_elem?, Text, is_empty, ◌==◌, ℕ, ◌≡◌, refl, inl, inr, true, false, List, [], ◌∷◌,
  arith, suc, ◌≤◌, ◌++◌, length, codes, ◌+◌, ◌↔◌, Option, none, some, map,
}
use mathlib.Core.Option.{get_or}
use docsis_monitor.Email.Send.{
  quit, authenticate, recipients, converse, auth, ehlo, rcpt_to, mail_from,
}
use docsis_monitor.Email.Transcript.{say_cases, Result-cases}
use docsis_monitor.Config.Settings.{Smtp}
use mathlib.Core.Path.{subst}
use native.Mathlib.Nat.{zero-add, suc-add}
use docsis_monitor.Email.Compose.{Message}
use docsis_monitor.Email.Data.{data_text}

-- A line of a reply with the digit.
abbrev pub IsLineOf : ℕ → Text → Type 0
IsLineOf want l = (is_empty l ≡ false) × ((get_or (get_elem? l 0) 0 == want) ≡ true)

-- A reply, and what comes behind it: lines with a hyphen after the code, and a last one without.
pub data Reply (want : ℕ) : List Incoming → List Incoming → Type 0 where
  last :
      {l : Text} {rest : List Incoming}
      → IsLineOf want l
      → (get_or (get_elem? l 3) 0 == b'-') ≡ false
      → Reply want (line l ∷ rest) rest
  more :
      {l : Text} {ls rest : List Incoming}
      → IsLineOf want l
      → (get_or (get_elem? l 3) 0 == b'-') ≡ true
      → Reply want ls rest
      → Reply want (line l ∷ ls) rest

-- A reply for every digit wanted, in order.
pub data Replies : List ℕ → List Incoming → List Incoming → Type 0 where
  done : {rest : List Incoming} → Replies [] rest rest
  next :
      {want : ℕ} {wants : List ℕ} {ls mid rest : List Incoming}
      → Reply want ls mid
      → Replies wants mid rest
      → Replies (want ∷ wants) ls rest

expect_in-Reply :
    {want : ℕ} {ls rest : List Incoming} → Reply want ls rest → expect_in want ls ≡ (ok tt, rest)
unfolding expect_in
expect_in-Reply (last h e) = rw (h.0, h.1, e) refl
expect_in-Reply (more h e r) = rw (h.0, h.1, e) (expect_in-Reply r)

Reply-expect_in :
    (want : ℕ) (ls : List Incoming)
    → (expect_in want ls).0 ≡ ok tt
    → Reply want ls (expect_in want ls).1
unfolding expect_in
Reply-expect_in want [] h = absurd (ground arith)
Reply-expect_in want (broken why ∷ rest) h = absurd (ground arith)
Reply-expect_in want (line l ∷ rest) h = elim (Bool-cases (is_empty l)) [
  | inl empty ↦ absurd (ground arith)
  | inr full ↦ elim (Bool-cases (get_or (get_elem? l 0) 0 == want)) [
    | inr other ↦ absurd (ground arith)
    | inl same ↦ elim (Bool-cases (get_or (get_elem? l 3) 0 == b'-')) [
      | inr ends ↦ rw (full, same, ends) (last (full, same) ends)
      | inl goes_on ↦
          rw (full, same, goes_on)
            (more (full, same) goes_on (Reply-expect_in want rest (ground arith)))
    ]
  ]
]

-- A part of the conversation that wants these digits and `n` writes.
record Asks (wants : List ℕ) (n : ℕ) (t : Talk) : Type 0 where
  sound :
      (s : Socket)
      → (t s).0 ≡ ok tt
      → (rest : List Incoming) × Replies wants s.incoming rest × (n ≤ s.writes_left)
  live :
      (s : Socket) (rest : List Incoming)
      → Replies wants s.incoming rest
      → n ≤ s.writes_left
      → (t s).0 ≡ ok tt

Asks-quit : Asks [] 0 quit
unfolding quit
Asks-quit = record { sound = λ s h. (s.incoming, done, omega arith); live = λ s rest r h. refl }

Asks-say :
    (what : Text) (wants : List ℕ) (n : ℕ) (t : Talk)
    → Asks wants n t
    → Asks wants (suc n) (say what >> t)
Asks-say what wants n t a = record {
  sound = λ s h. elim (say_cases what s) [
    | inl (none_left, failed) ↦ absurd (ground (arith, failed))
    | inr (m, some_left, said) ↦
        let (rest, replies, enough) =
          a.sound (record s { writes_left = m; sent = s.sent ++ what ∷ [] }) (rw said at h) in
        (rest, replies, omega arith)
  ];
  live = λ s rest r h. elim (say_cases what s) [
    | inl (none_left, failed) ↦ absurd (omega arith)
    | inr (m, some_left, said) ↦
        rw said
          (a.live (record s { writes_left = m; sent = s.sent ++ what ∷ [] }) rest r (omega arith))
  ];
}

Replies-split :
    {want : ℕ} {wants : List ℕ} {ls rest : List Incoming}
    → Replies (want ∷ wants) ls rest
    → (mid : List Incoming) × Reply want ls mid × Replies wants mid rest
Replies-split (next {mid} r rs) = (mid, r, rs)

Asks-expect :
    (want : ℕ) (wants : List ℕ) (n : ℕ) (t : Talk)
    → Asks wants n t
    → Asks (want ∷ wants) n (expect want >> t)
unfolding expect
Asks-expect want wants n t a = record {
  sound = λ s h. elim (Result-cases (expect_in want s.incoming).0) [
    | inr (why, bad) ↦ absurd (ground (arith, bad))
    | inl fine ↦
        let (rest, replies, enough) =
          a.sound (record s { incoming = (expect_in want s.incoming).1 }) (rw fine at h) in
        (rest, next (Reply-expect_in want s.incoming fine) replies, enough)
  ];
  live = λ s rest r h.
      let (mid, first, others) = Replies-split r in
      rw (expect_in-Reply first) (a.live (record s { incoming = mid }) rest others h);
}

-- The digits that `send` wants, after the greeting's, and the number of its writes.
abbrev pub auth_wants : Option Text → Option Text → List ℕ
auth_wants (some user) (some pass) = b'2' ∷ []
auth_wants _ _ = []

abbrev pub all_twos : List Text → List ℕ
all_twos rs = map (λ (r : Text). b'2') rs

abbrev pub wanted : Smtp → List ℕ
wanted cfg =
    b'2'
    ∷ b'2'
    ∷ (auth_wants cfg.username cfg.password ++ b'2' ∷ (all_twos cfg.to ++ b'3' ∷ b'2' ∷ []))

abbrev pub writes : Smtp → ℕ
writes cfg = suc (length (auth_wants cfg.username cfg.password) + suc (length cfg.to + 2))

Asks-authenticate :
    (user pass : Option Text) (wants : List ℕ) (n : ℕ) (t : Talk)
    → Asks wants n t
    → Asks
        (auth_wants user pass ++ wants)
        (length (auth_wants user pass) + n)
        (authenticate user pass t)
unfolding authenticate
Asks-authenticate (some user) (some pass) wants n t a =
    subst (λ k. Asks (b'2' ∷ wants) k (say (auth user pass) >> (expect b'2' >> t))) (omega arith)
      (Asks-say (auth user pass) (b'2' ∷ wants) n (expect b'2' >> t) (Asks-expect b'2' wants n t a))
Asks-authenticate (some user) none wants n t a = rw zero-add a
Asks-authenticate none pass wants n t a = rw zero-add a

Asks-recipients :
    (rs : List Text) (wants : List ℕ) (n : ℕ) (t : Talk)
    → Asks wants n t
    → Asks (all_twos rs ++ wants) (length rs + n) (recipients rs t)
unfolding recipients
Asks-recipients [] wants n t a = rw zero-add a
Asks-recipients (r ∷ rs) wants n t a = rw suc-add (
    Asks-say (rcpt_to r) (b'2' ∷ (all_twos rs ++ wants)) (length rs + n)
      (expect b'2' >> recipients rs t)
      (Asks-expect b'2' (all_twos rs ++ wants) (length rs + n) (recipients rs t)
        (Asks-recipients rs wants n t a)))

Asks-converse :
    (host : Option Text) (cfg : Smtp) (m : Message)
    → Asks (wanted cfg) (writes cfg) (converse host cfg m)
unfolding converse
Asks-converse host cfg m = Asks-expect b'2' _ _ _ (
    Asks-say (ehlo host cfg) _ _ _ (
      Asks-expect b'2' _ _ _ (
        Asks-authenticate cfg.username cfg.password _ _ _ (
          Asks-say (mail_from cfg) _ _ _ (
            Asks-expect b'2' _ _ _ (
              Asks-recipients cfg.to _ _ _ (
                Asks-say (codes "DATA\r\n") _ _ _ (
                  Asks-expect b'3' _ _ _
                    (Asks-say (data_text cfg m) _ _ _ (Asks-expect b'2' _ _ _ Asks-quit))))))))))

-- The conversation succeeds exactly if the server answers every step, the greeting included, with
-- a reply of the digit that the step wants, and the connection takes every write up to the data.
pub converse-iff-Replies :
    (host : Option Text) (cfg : Smtp) (m : Message) (s : Socket)
    → ((converse host cfg m s).0 ≡ ok tt) ↔ (
        ((rest : List Incoming) × Replies (wanted cfg) s.incoming rest)
        × (writes cfg ≤ s.writes_left))
converse-iff-Replies host cfg m s = (
  λ h.
      let (rest, replies, enough) = (Asks-converse host cfg m).sound s h in
      ((rest, replies), enough),
  λ p. (Asks-converse host cfg m).live s p.0.0 p.0.1 p.1,
)
