-- ===== src/Config/Tests.antt =====
-- config.rs on a configuration with one target, one named interface and a mail section.
use docsis_monitor.Order.{nat_order, list_order}
use docsis_monitor.Config.Settings.{Config, Smtp, idle_seconds, default_thresholds}
use docsis_monitor.Config.Check.{check, IsSound}
use docsis_monitor.Config.Load.{load, IsLoaded}
use docsis_monitor.Config.Sound.{check-iff-IsSound}
use docsis_monitor.Config.Loaded.{load-IsLoaded}
use docsis_monitor.Config.Relays.{idle_seconds-insert}
use docsis_monitor.Float.{exact}
use docsis_monitor.Ip.{dotted}
use docsis_monitor.Result.{Result, ok}
use docsis_monitor.Base.{
  Text, codes, text_eq, ◌≡◌, refl, ◌≢◌, ◌↔◌, Bool, false, none, some, [], ◌∷◌, arith,
}

abbrev pub plant_mail : Smtp
plant_mail = record {
  server = codes "mail.example";
  port = 25;
  from = codes "monitor@example";
  to = codes "ops@example" ∷ codes "noc@example" ∷ [];
  subject_prefix = codes "[docsis]";
  username = some (codes "monitor");
  password = some (codes "secret");
  helo_name = none;
}

abbrev pub plant : Config exact
plant = record {
  interface = codes " eth1";
  nofork = false;
  window = 300;
  report_every = 60;
  thresholds = default_thresholds exact;
  snmp = record {
    targets = record { host = codes "nms"; port = 162; community = codes "public" } ∷ [];
    sysname = some (codes "head-end");
  };
  per_relay = (codes "10.1.0.1", record { idle_seconds = 7_200 }) ∷ [];
  smtp = some plant_mail;
  extra = [];
}

check-plant : check exact plant ≡ ok tt
unfolding check
check-plant = refl

-- A percentage in place of a fraction.
percentage :
    check exact (record plant { thresholds = record plant.thresholds { min_answered = (75, 1) } })
    ≢ ok tt
unfolding check
percentage h = ground arith

check-iff-IsSound_example : (check exact plant ≡ ok tt) ↔ IsSound exact plant
check-iff-IsSound_example = check-iff-IsSound exact plant

abbrev in_etc : Text → Bool
in_etc path = text_eq path (codes "/etc/docsis_monitor.json")

abbrev read_file : Text → Result Text
read_file path = ok (codes "{}")

abbrev parse_file : Text → Result (Config exact)
parse_file text = ok plant

load-plant :
    load exact (some (codes "/root")) in_etc read_file parse_file none
    ≡ ok (plant, codes "/etc/docsis_monitor.json")
unfolding load text_eq check
load-plant = refl

load-IsLoaded_example :
    IsLoaded exact
      (some (codes "/root"))
      in_etc
      read_file
      parse_file
      none
      plant
      (codes "/etc/docsis_monitor.json")
load-IsLoaded_example =
    load-IsLoaded exact (some (codes "/root")) in_etc read_file parse_file none load-plant

other_interface :
    idle_seconds
      (docsis_monitor.OrdMap.insert
        (dotted 0x0a010001)
        (record { idle_seconds = 60 })
        plant.per_relay)
      0x0a010002
      900
    ≡ idle_seconds plant.per_relay 0x0a010002 900
other_interface =
    idle_seconds-insert plant.per_relay 0x0a010001 0x0a010002 900 (record { idle_seconds = 60 })
      (omega arith) (omega arith)
