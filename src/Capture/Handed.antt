-- ===== src/Capture/Handed.antt =====
-- What a report of capture.rs hands over when it tells somebody.
use docsis_monitor.Base.{
  All, is_empty, if◌then◌else◌, Text, ℕ, ◌≡◌, ap, ◌∙◌, sym, true, Bool, Option, none, some, List,
  [], ◌∷◌, ◌++◌, leb, refl,
}
use mathlib.Core.List.{Mem, mem-cons_self, mem-cons_of_mem, mem-append_right}
use mathlib.Core.Path.{subst}
use docsis_monitor.Relays.Events.{run as run_events}
use docsis_monitor.Float.{Floats}
use docsis_monitor.Config.Settings.{Config, Smtp, Target, mail}
use docsis_monitor.Alarm.Judge.{State, word, worst}
use docsis_monitor.Alarm.Repeats.{Repeats, should_send}
use docsis_monitor.Alarm.Said.{Observation}
use docsis_monitor.Counters.Window.{Counters, Window, window}
use docsis_monitor.Relays.Table.{Relays}
use docsis_monitor.Snmp.Trap.{Trap}
use docsis_monitor.Email.Compose.{compose}
use docsis_monitor.Capture.Decide.{build, host_name, has_receiver, should_tell, judge_each}
use docsis_monitor.Capture.Report.{
  World, report, tell, trap_line, trap_lines, mail_line, mail_lines,
}
use docsis_monitor.Capture.Rounds.{plain_lines, busiest_then, report-lines}
use docsis_monitor.Capture.Watch.{Tick, finish, round, say_something, Watch, take_reading}
use docsis_monitor.Capture.Events.{reading_events, take_reading-relays}
use docsis_monitor.Capture.Due.{take_reading-kept}

module _ (f : Floats) (cfg : Config f) (began : ℕ) where
  -- The line of a mail section on what the mail server answered to the alert on a state.
  abbrev pub IsMailed : World → Observation → Window → Text → List Text → Option Smtp → Type 0
  IsMailed world o w busy lines none = Unit {0}
  IsMailed world o w busy lines (some m) =
      let msg =
        compose f m.subject_prefix (host_name world.host cfg.snmp) cfg.interface (word o.0) w
          cfg.window busy in
      Mem
        (mail_line m msg
          (docsis_monitor.Email.Send.send world.host (world.connect m.server m.port) m msg))
        lines

  -- The alert on a state at a time was handed over: for every target there is the line on what
  -- sending it the trap of this state and time answered, and the same for the mail.
  abbrev pub IsHanded : World → Observation → Window → Text → List Text → Type 0
  IsHanded world o w busy lines =
      All
        (λ (target : Target).
          Mem
            (trap_line o.0 target (
              docsis_monitor.Snmp.Send.send world.net target
                (build f world.host cfg o.0 w o.1 began busy)))
            lines)
        cfg.snmp.targets
      × IsMailed world o w busy lines (mail f cfg)

  -- The rounds of the loop over some ticks: each tick with the variables that it meets.
  abbrev pub rounds : List Tick → Watch → List (Tick × Watch)
  rounds [] w = []
  rounds (t ∷ ts) w = (t, w) ∷ rounds ts (round f cfg none began t w).0

  -- The counters once a round has taken what its tick reads.
  abbrev pub counts_in : Tick × Watch → Counters
  counts_in (t, w) = (take_reading t.reading w).0.counts

  -- Somebody was told this state at this time: in one of these rounds, which ended then, with the
  -- host, the window and the busiest flow of that round.
  abbrev pub IsTold : List (Tick × Watch) → List Text → Observation → Type 0
  IsTold rs lines o =
      (r : Tick × Watch) × Mem r rs
      × (r.0.after ≡ o.1)
      × IsHanded r.0.world o (window r.0.after (counts_in r)).1
          (busiest_then f r.0.after (counts_in r)) lines

  -- The same of what is remembered, if anything is.
  abbrev pub LastIsTold : List (Tick × Watch) → List Text → Option Observation → Type 0
  LastIsTold rs lines none = Unit {0}
  LastIsTold rs lines (some o) = IsTold rs lines o

All-map : {A : Type 0} {p q : A → Type 0} (l : List A) → ((x : A) → p x → q x) → All p l → All q l
All-map [] g a = tt
All-map (x ∷ l) g a = (g x a.0, All-map l g a.1)

trap_lines-Mem :
    (world : World) (s : State) (t : Trap) (targets : List Target) (more : List Text)
    → All
        (λ (target : Target).
          Mem
            (trap_line s target (docsis_monitor.Snmp.Send.send world.net target t))
            ((if is_empty targets then [] else trap_lines world s t targets) ++ more))
        targets
unfolding trap_lines
trap_lines-Mem world s t [] more = tt
trap_lines-Mem world s t (a ∷ []) more = (mem-cons_self, tt)
trap_lines-Mem world s t (a ∷ b ∷ targets) more = (
  mem-cons_self,
  All-map (b ∷ targets) (λ x m. mem-cons_of_mem _ m) (trap_lines-Mem world s t (b ∷ targets) more),
)

module _ (f : Floats) (cfg : Config f) (began : ℕ) where
  IsMailed-mono :
      (world : World) (o : Observation) (w : Window) (busy : Text) (m : Option Smtp)
      {lines more : List Text}
      → ((x : Text) → Mem x lines → Mem x more)
      → IsMailed f cfg began world o w busy lines m
      → IsMailed f cfg began world o w busy more m
  IsMailed-mono world o w busy none sub h = tt
  IsMailed-mono world o w busy (some m) sub h = sub _ h

  IsHanded-mono :
      (world : World) (o : Observation) (w : Window) (busy : Text) {lines more : List Text}
      → ((x : Text) → Mem x lines → Mem x more)
      → IsHanded f cfg began world o w busy lines
      → IsHanded f cfg began world o w busy more
  IsHanded-mono world o w busy sub h = (
    All-map cfg.snmp.targets (λ target m. sub _ m) h.0,
    IsMailed-mono world o w busy (mail f cfg) sub h.1,
  )

  pub LastIsTold-mono :
      (last : Option Observation) {rs qs : List (Tick × Watch)} {lines more : List Text}
      → ((r : Tick × Watch) → Mem r rs → Mem r qs)
      → ((x : Text) → Mem x lines → Mem x more)
      → LastIsTold f cfg began rs lines last
      → LastIsTold f cfg began qs more last
  LastIsTold-mono none here sub h = tt
  LastIsTold-mono (some o) here sub (r, in_rs, at, handed) = (
    r,
    here r in_rs,
    at,
    IsHanded-mono r.0.world o (window r.0.after (counts_in f cfg began r)).1
        (busiest_then f r.0.after (counts_in f cfg began r)) sub handed,
  )

  mail_lines-IsMailed :
      (world : World) (o : Observation) (w : Window) (busy : Text) (m : Option Smtp)
      → IsMailed f cfg began world o w busy (mail_lines f world cfg o.0 w busy m) m
  unfolding mail_lines
  mail_lines-IsMailed world o w busy none = tt
  mail_lines-IsMailed world o w busy (some m) = mem-cons_self

  tell-IsHanded :
      (world : World) (o : Observation) (w : Window) (busy : Text)
      → IsHanded f cfg began world o w busy (tell f world cfg o.0 w o.1 began busy)
  unfolding tell
  tell-IsHanded world o w busy = (
    trap_lines-Mem world o.0 (build f world.host cfg o.0 w o.1 began busy) cfg.snmp.targets
        (mail_lines f world cfg o.0 w busy (mail f cfg)),
    IsMailed-mono world o w busy (mail f cfg) (λ x m. mem-append_right _ m)
        (mail_lines-IsMailed world o w busy (mail f cfg)),
  )

  report-IsHanded :
      (world : World) (relays : Relays) (at : ℕ) (c : Counters) (r : Repeats)
      → has_receiver f cfg ≡ true
      → let state = worst (judge_each f relays cfg at) in
        (should_send r state at).1 ≡ true
        → IsHanded f cfg began world
            (state, at)
            (window at c).1
            (busiest_then f at c)
            (report f world cfg relays at began c r).lines
  report-IsHanded world relays at c r receiver due =
      let state = worst (judge_each f relays cfg at) in
      let w = (window at c).1 in
      let busy = busiest_then f at c in
      let told : (should_tell f cfg r state at).1 ≡ true = unfold should_tell in rw receiver due in
      let lines =
        report-lines f world cfg relays at began c r
        ∙ ap
            (λ (b : Bool).
              if b
              then plain_lines f world cfg relays at c ++ tell f world cfg state w at began busy
              else plain_lines f world cfg relays at c)
            told in
      subst (λ (l : List Text). IsHanded f cfg began world (state, at) w busy l) (sym lines)
        (IsHanded-mono world (state, at) w busy
          (λ x m. mem-append_right (plain_lines f world cfg relays at c) m)
          (tell-IsHanded world (state, at) w busy))

  finish-IsHanded :
      (world : World) (at : ℕ) (w : Watch)
      → has_receiver f cfg ≡ true
      → leb w.next_report at ≡ true
      → let state = worst (judge_each f w.relays cfg at) in
        (should_send w.repeats state at).1 ≡ true
        → IsHanded f cfg began world
            (state, at)
            (window at w.counts).1
            (busiest_then f at w.counts)
            (finish f cfg none began world at w).1
  unfolding finish say_something
  finish-IsHanded world at w receiver over due =
      rw over (report-IsHanded world w.relays at w.counts w.repeats receiver due)

  -- A round in which a report is due and an alert is due hands the alert over.
  pub round-IsTold :
      (t : Tick) (w : Watch)
      → has_receiver f cfg ≡ true
      → leb w.next_report t.after ≡ true
      → let state =
          worst (judge_each f (run_events w.relays (reading_events t.reading)) cfg t.after) in
        (should_send w.repeats state t.after).1 ≡ true
        → IsTold f cfg began ((t, w) ∷ []) (round f cfg none began t w).1 (state, t.after)
  unfolding round
  round-IsTold t w receiver over due =
      let v = (take_reading t.reading w).0 in
      let tables = take_reading-relays t.reading w in
      let (next, memory) = take_reading-kept t.reading w in
      let state = λ (r : Relays). worst (judge_each f r cfg t.after) in
      let handed =
        finish-IsHanded t.world t.after v receiver (ap (λ (n : ℕ). leb n t.after) next ∙ over)
          ((λ i. (should_send (memory i) (state (tables i)) t.after).1) ∙ due) in
      (
        (t, w),
        mem-cons_self,
        refl,
        subst
            (λ (r : Relays).
              IsHanded f cfg began t.world (state r, t.after) (window t.after v.counts).1
                (busiest_then f t.after v.counts)
                ((take_reading t.reading w).1 ++ (finish f cfg none began t.world t.after v).1))
            tables
            (IsHanded-mono t.world (state v.relays, t.after) (window t.after v.counts).1
              (busiest_then f t.after v.counts)
              {lines = (finish f cfg none began t.world t.after v).1}
              (λ x m. mem-append_right (take_reading t.reading w).1 m) handed),
      )
