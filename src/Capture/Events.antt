-- ===== src/Capture/Events.antt =====
-- The loop of capture.rs against the tables of relays.rs: what it does to them is the sequence of
-- events of the frames that it read.
use mathlib.Core.Path.{subst}
use docsis_monitor.Relays.Valid.{IsValid, run-default-IsValid}
use docsis_monitor.Packet.Read.{Seen, read}
use docsis_monitor.Packet.Classify.{Kind}
use docsis_monitor.Relays.Events.{Event, step, request_seen}
use docsis_monitor.Relays.Events
use docsis_monitor.Relays.Table.{Relays, default}
use docsis_monitor.Config.Settings.{Config}
use docsis_monitor.Capture.Watch.{frame, timed_out, failed, start}
use docsis_monitor.Base.{
  leb, if◌then◌else◌, Bool-cases, ℕ, ◌≡◌, refl, sym, ap, ◌∙◌, inl, inr, Option, none, some, List,
  [], ◌∷◌, ◌++◌, u64_mod, ◌<◌,
}
use docsis_monitor.Capture.Watch.{
  Reading, Tick, note_relays, note_seen, take_reading, frame, is_over, Watch, say_something, finish,
  round, loop, failed,
}
use docsis_monitor.Float.{Floats}
use docsis_monitor.Capture.Report.{World}
use docsis_monitor.Relays.Tally.{requests_in, replies_in, IsTallied, run-default-IsTallied}

abbrev pub event_of : Seen → ℕ → ℕ → Event
event_of seen at at_ms = elim seen.kind [
  | Kind.client_request ↦ Event.request_seen seen.gi seen.xid at at_ms
  | Kind.server_reply ↦ Event.reply_seen seen.gi seen.xid at at_ms
  | Kind.tftp_request ↦ Event.tftp_request_seen at
  | Kind.tftp_reply ↦ Event.tftp_send_seen at
]

abbrev pub seen_events : ℕ → ℕ → Option Seen → List Event
seen_events at at_ms none = []
seen_events at at_ms (some seen) = event_of seen at at_ms ∷ []

-- The events of one reading, and of the ticks of a loop.
abbrev pub reading_events : Reading → List Event
reading_events (frame bytes at at_ms) = seen_events at at_ms (read bytes)
reading_events timed_out = []
reading_events (failed why) = []

abbrev pub events : List Tick → List Event
events [] = []
events (t ∷ ts) = reading_events t.reading ++ events ts

-- The ticks before the deadline.
abbrev pub used : Option ℕ → ℕ → List Tick → List Tick
used limit began [] = []
used limit began (t ∷ ts) = if is_over limit began t.top then [] else t ∷ used limit began ts

note_relays-step :
    (seen : Seen) (at at_ms : ℕ) (r : Relays)
    → note_relays seen at at_ms r ≡ step r (event_of seen at at_ms)
unfolding note_relays step
note_relays-step seen at at_ms r = go seen.kind refl
  where
    go : (k : Kind) → seen.kind ≡ k → note_relays seen at at_ms r ≡ step r (event_of seen at at_ms)
    go Kind.client_request h = rw h refl
    go Kind.server_reply h = rw h refl
    go Kind.tftp_request h = rw h refl
    go Kind.tftp_reply h = rw h refl

pub run-append :
    (r : Relays) (es later : List Event)
    → docsis_monitor.Relays.Events.run r (es ++ later)
      ≡ docsis_monitor.Relays.Events.run (docsis_monitor.Relays.Events.run r es) later
unfolding docsis_monitor.Relays.Events.run
run-append r [] later = refl
run-append r (e ∷ es) later = run-append (step r e) es later

note_seen-relays :
    (at at_ms : ℕ) (s : Option Seen) (w : Watch)
    → (note_seen at at_ms s w).relays
      ≡ docsis_monitor.Relays.Events.run w.relays (seen_events at at_ms s)
unfolding note_seen docsis_monitor.Relays.Events.run
note_seen-relays at at_ms none w = refl
note_seen-relays at at_ms (some seen) w = note_relays-step seen at at_ms w.relays

pub take_reading-relays :
    (rd : Reading) (w : Watch)
    → (take_reading rd w).0.relays ≡ docsis_monitor.Relays.Events.run w.relays (reading_events rd)
unfolding take_reading docsis_monitor.Relays.Events.run
take_reading-relays (frame bytes at at_ms) w = note_seen-relays at at_ms (read bytes) w
take_reading-relays timed_out w = refl
take_reading-relays (failed why) w = refl

module _ (f : Floats) (cfg : Config f) (adaptation : Option ℕ) (began : ℕ) where
  say_something-relays :
      (world : World) (at : ℕ) (w : Watch)
      → (say_something f cfg adaptation began world at w).0.relays ≡ w.relays
  unfolding say_something
  say_something-relays world at w =
      elim adaptation as (λ a. (say_something f cfg a began world at w).0.relays ≡ w.relays) [
        | none ↦ refl
        | some _ ↦ refl
      ]

  finish-relays :
      (world : World) (at : ℕ) (w : Watch)
      → (finish f cfg adaptation began world at w).0.relays ≡ w.relays
  unfolding finish
  finish-relays world at w = elim (Bool-cases (leb w.next_report at)) [
    | inl due ↦ rw due (say_something-relays world at _)
    | inr later ↦ rw later refl
  ]

  pub round-relays :
      (t : Tick) (w : Watch)
      → (round f cfg adaptation began t w).0.relays
        ≡ docsis_monitor.Relays.Events.run w.relays (reading_events t.reading)
  unfolding round
  round-relays t w =
      finish-relays t.world t.after (take_reading t.reading w).0 ∙ take_reading-relays t.reading w

  -- A deadline does no more than end the ticks.
  pub loop-used :
      (limit : Option ℕ) (ts : List Tick) (w : Watch)
      → (loop f cfg adaptation began limit ts w).0
        ≡ (loop f cfg adaptation began none (used limit began ts) w).0
  unfolding loop is_over
  loop-used limit [] w = refl
  loop-used limit (t ∷ ts) w = elim (Bool-cases (is_over limit began t.top)) [
    | inl over ↦ rw over refl
    | inr going ↦ rw going (loop-used limit ts (round f cfg adaptation began t w).0)
  ]

  all-events :
      (ts : List Tick) (w : Watch)
      → (loop f cfg adaptation began none ts w).0.relays
        ≡ docsis_monitor.Relays.Events.run w.relays (events ts)
  unfolding loop is_over docsis_monitor.Relays.Events.run
  all-events [] w = refl
  all-events (t ∷ ts) w =
      all-events ts (round f cfg adaptation began t w).0
      ∙ (ap (λ (r : Relays). docsis_monitor.Relays.Events.run r (events ts)) (round-relays t w)
          ∙ sym (run-append w.relays (reading_events t.reading) (events ts)))

  pub loop-events :
      (limit : Option ℕ) (ts : List Tick) (w : Watch)
      → (loop f cfg adaptation began limit ts w).0.relays
        ≡ docsis_monitor.Relays.Events.run w.relays (events (used limit began ts))
  loop-events limit ts w =
      ap (λ (u : Watch). u.relays) (loop-used limit ts w) ∙ all-events (used limit began ts) w

  -- Whatever is reported in between, the tables after the loop are those of the frames that were
  -- read before the deadline, each as one event in their order; and for fewer than 2^64 requests
  -- and replies they hold exactly those, in tables that are valid.
  pub loop-IsTallied :
      (limit : Option ℕ) (ts : List Tick)
      → requests_in (events (used limit began ts)) < u64_mod
      → replies_in (events (used limit began ts)) < u64_mod
      → ((loop f cfg adaptation began limit ts (start f cfg adaptation began)).0.relays
          ≡ docsis_monitor.Relays.Events.run default (events (used limit began ts)))
        × IsTallied
            (requests_in (events (used limit began ts)))
            (replies_in (events (used limit began ts)))
            (loop f cfg adaptation began limit ts (start f cfg adaptation began)).0.relays
        × IsValid (loop f cfg adaptation began limit ts (start f cfg adaptation began)).0.relays
  unfolding start
  loop-IsTallied limit ts requests replies =
      let es = events (used limit began ts) in
      let e = loop-events limit ts (start f cfg adaptation began) in
      (
        e,
        subst (IsTallied (requests_in es) (replies_in es)) (sym e)
            (run-default-IsTallied es requests replies),
        subst IsValid (sym e) (run-default-IsValid es),
      )
