-- ===== src/Program/Tests.antt =====
-- main.rs on a host where everything answers.
use docsis_monitor.Float.{exact}
use docsis_monitor.Program.{Cli, Host, main, invoked, printed}
use docsis_monitor.Program.Forks.{detaches, MayDetach, main-MayDetach}
use docsis_monitor.Config.Settings.{Config, default_thresholds}
use docsis_monitor.Capture.Open.{Opened}
use docsis_monitor.Result.{ok}
use docsis_monitor.Base.{codes, ◌≡◌, refl, true, false, none, some, [], ◌∷◌}

abbrev cli : Cli
cli = record {
  config = some (codes "m.json");
  nofork = false;
  check = false;
  run_for = some 60;
  adaptation = none;
}

abbrev plant : Config exact
plant = record {
  interface = codes "eth1";
  nofork = false;
  window = 300;
  report_every = 60;
  thresholds = default_thresholds exact;
  snmp = record { targets = []; sysname = none };
  per_relay = [];
  smtp = none;
  extra = [];
}

abbrev ready : Host exact
ready = record {
  home = some (codes "/root");
  exists = λ path. false;
  read = λ path. ok (codes "{}");
  parse = λ text. ok plant;
  interfaces = record { name = codes "eth1"; ips = [] } ∷ [];
  probe = Opened.ethernet tt;
  channel = Opened.ethernet tt;
  files = record {
    is_dir = λ path. true;
    open_append = λ path. ok tt;
    redirect_out = λ path. ok tt;
    redirect_err = λ path. ok tt;
    create = λ path. ok tt;
    write_number = λ path. ok tt;
  };
  current_dir = ok (codes "/root");
  daemonize = λ here. ok tt;
  stamp = codes "0";
  number = codes "7";
  began = 1_000;
  ticks = [];
}

ready-detaches : detaches (main exact ready cli).0 ≡ true
unfolding main docsis_monitor.Config.Check.check
ready-detaches = refl

main-MayDetach_example : MayDetach exact ready cli
main-MayDetach_example = main-MayDetach exact ready cli ready-detaches

-- A question for the version answers nothing else.
version_first : invoked exact ready (codes "-V" ∷ []) cli ≡ (printed (codes "0") ∷ [], ok tt)
unfolding invoked
version_first = refl
