-- ===== src/Adapt/Suggest.antt =====
-- adapt.rs: the suggestion for each interface, its reason, and the block to paste.
use docsis_monitor.Base.{
  add64, mul64, ltb, leb, if◌then◌else◌, retain, Text, codes, em_dash, decimal, ◌==◌, ℕ, ◌-◌, ◌/◌,
  ◌%◌, max, Bool, true, false, Option, none, some, List, [], ◌∷◌, ◌++◌, map,
}
use docsis_monitor.Relays.Table.{Relay, Relays, each}
use mathlib.Core.Option.{get_or}
use docsis_monitor.Ip.{dotted}

-- `struct Suggestion`.
pub record Suggestion : Type 0 where
  pub gi : ℕ
  pub requests : ℕ
  pub span : ℕ
  pub longest_gap : ℕ
  pub idle_seconds : Option ℕ
  pub because : Text

abbrev pub floor : ℕ
floor = 300

abbrev pub ceiling : ℕ
ceiling = 86_400

abbrev pub headroom : ℕ
headroom = 3

unfoldable pub minutes : ℕ → Text
unfolding decimal
minutes s = if leb s 90 then decimal s ++ codes "s" else decimal (add64 s 30 / 60) ++ codes "m"

unfoldable pub secs : ℕ → Text
unfolding decimal
secs s =
    if leb s 90
    then decimal s ++ codes "s"
    else decimal (s / 60) ++ (codes "m" ++ (decimal (s % 60) ++ codes "s"))

-- `clamp(FLOOR, CEILING)`.
abbrev pub clamp : ℕ → ℕ
clamp n = if ltb n floor then floor else if ltb ceiling n then ceiling else n

-- How every sentence about two requests or more begins.
unfoldable pub evidence : ℕ → ℕ → ℕ → ℕ → Text
unfolding decimal minutes secs
evidence requests span longest_gap watched_for =
    decimal requests
    ++ (codes " requests in "
        ++ (minutes (max span watched_for) ++ (codes ", longest silence " ++ secs longest_gap)))

-- The three sentences.
unfoldable pub because_of : ℕ → ℕ → ℕ → ℕ → Text
unfolding decimal evidence secs
because_of requests span longest_gap watched_for =
    let wanted = mul64 longest_gap headroom in
    let start = evidence requests span longest_gap watched_for in
    if ltb wanted floor
    then start
      ++ (codes "; "
          ++ (decimal headroom
              ++ (codes " times that is still under the " ++ (secs floor ++ codes " floor"))))
    else if ltb ceiling wanted
    then start
      ++ (codes " "
          ++ (em_dash
              ++ codes
                  " longer than a day with room above it. Capped; this interface may be too quiet to watch this way"))
    else start ++ (codes ", times " ++ (decimal headroom ++ codes " for room"))

unfoldable pub judge : ℕ → ℕ → ℕ → ℕ → Option ℕ × Text
unfolding minutes because_of
judge requests span longest_gap watched_for =
    if requests == 0
    then (
      none,
      codes
          "nothing arrived. Either this interface is idle or it is already broken, and one hour of silence cannot tell the difference",
    )
    else if ltb requests 2
    then (
      none,
      codes "only 1 request in "
          ++ (minutes watched_for
              ++ codes
                  ". Watch for longer: a threshold needs at least two, to have a gap between them"),
    )
    else (
      some (clamp (mul64 longest_gap headroom)),
      because_of requests span longest_gap watched_for,
    )

-- The `match` of `suggest` on the first and the last packet.
unfoldable pub span_of : Relay → ℕ
span_of r = elim r.last_request [
  | none ↦ 0
  | some last ↦ if ltb r.first_seen last then last - r.first_seen else 0
]

-- One round of `suggest`.
unfoldable pub suggestion : ℕ → ℕ × Relay → Suggestion
unfolding judge span_of
suggestion watched_for (gi, r) =
    let (idle, because) = judge r.requests (span_of r) r.longest_gap watched_for in
    record {
      gi = gi;
      requests = r.requests;
      span = span_of r;
      longest_gap = r.longest_gap;
      idle_seconds = idle;
      because = because;
    }

unfoldable pub suggest : Relays → ℕ → List Suggestion
unfolding suggestion
suggest relays watched_for = map (suggestion watched_for) (each relays)

abbrev pub is_some : Option ℕ → Bool
is_some none = false
is_some (some _) = true

abbrev pub newline : Text
newline = 0x0a ∷ []

-- The lines of the block: no comma after the last.
unfoldable pub config_lines : List Suggestion → Text
unfolding dotted decimal
config_lines [] = []
config_lines (s ∷ rest) =
    codes "    \""
    ++ (dotted s.gi
        ++ (codes "\": { \"idle_seconds\": "
            ++ (decimal (get_or s.idle_seconds floor)
                ++ (codes " }"
                    ++ ((elim rest [ [] ↦ [] | _ ∷ _ ↦ codes "," ])
                        ++ (newline ++ config_lines rest))))))

unfoldable pub as_config : List Suggestion → Text
unfolding config_lines retain
as_config all = elim (retain (λ (s : Suggestion). is_some s.idle_seconds) all) [
  | [] ↦ codes "  (nothing to suggest: no interface relayed enough to measure)"
  | s ∷ rest ↦ codes "  \"per_relay\": {" ++ (newline ++ (config_lines (s ∷ rest) ++ codes "  }"))
]
