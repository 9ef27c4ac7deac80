-- ===== src/Adapt/Tests.antt =====
-- adapt.rs on one relay.
use docsis_monitor.Base.{codes, ◌≡◌, refl, ◌≢◌, some, [], ◌∷◌, map, arith, retain, none, List}
use docsis_monitor.Relays.Table.{Relay, Relays, new_relay, default, each}
use docsis_monitor.Adapt.Thresholds.{taken, taken_from, suggestion-judge_relay, suggest-threshold}
use docsis_monitor.Adapt.Suggest.{suggestion, as_config, suggest, Suggestion}
use docsis_monitor.Alarm.Judge.{judge_relay, State}
use docsis_monitor.Float.{exact}
use docsis_monitor.Adapt.Block.{read_block, read_block-as_config}

abbrev row : Relay
row = record (new_relay 1_000) { requests = 12; last_request = some 4_600; longest_gap = 400 }

abbrev one : Relays
one = record default { by_gi = (0x0a01_0001, row) ∷ [] }

threshold_of_one : map taken (suggest one 3_600) ≡ map taken_from (each one)
threshold_of_one = suggest-threshold one 3_600 (omega arith, tt)

idle-suggestion : (suggestion 3_600 (0x0a01_0001, row)).idle_seconds ≡ some 1_200
unfolding suggestion
idle-suggestion = refl

quiet_within : (judge_relay exact 12 0 (some 1_100) 1_200 (0, 1)).state ≢ State.quiet
quiet_within =
    suggestion-judge_relay exact (0, 1) 0x0a01_0001 row 3_600 1_200 1_100 (omega arith)
      idle-suggestion (omega arith) (omega arith)

reason :
    (suggestion 3_600 (0x0a01_0001, row)).because
    ≡ codes "12 requests in 60m, longest silence 6m40s, times 3 for room"
unfolding suggestion
reason = refl

block :
    as_config (suggest one 3_600)
    ≡ codes "  \"per_relay\": {\n    \"10.1.0.1\": { \"idle_seconds\": 1200 }\n  }"
unfolding as_config suggest
block = refl

-- A relay with a threshold and one without.
abbrev two : List Suggestion
two =
    record {
      gi = 0x0a01_0002;
      requests = 1;
      span = 0;
      longest_gap = 0;
      idle_seconds = none;
      because = [];
    }
    ∷ record {
      gi = 0x0a01_0001;
      requests = 12;
      span = 3_600;
      longest_gap = 400;
      idle_seconds = some 1_200;
      because = [];
    }
    ∷ []

read_block-as_config_example : read_block (as_config two) ≡ some ((codes "10.1.0.1", 1_200) ∷ [])
unfolding docsis_monitor.Ip.dotted docsis_monitor.Base.Lists.retain
read_block-as_config_example = read_block-as_config two _ [] refl (omega arith, tt)
