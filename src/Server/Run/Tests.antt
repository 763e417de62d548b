-- ===== src/Server/Run/Tests.antt =====
-- internal/server/server.go: a run of the server of the watcher's tests.
use resillm.Common.{ℕ, ◌≡◌, true, false, none, some, fixed, pos}
use resillm.Server.Start.Tests.{server}
use resillm.LoadShed.{new_load_shedder}
use resillm.Server.Start.{Installation}
use resillm.Watcher.{Watcher, idle}
use resillm.Server.Run.{Services, listen_failed, result_of, services_of, run}
use resillm.Server.Run.Shutdown.{IsShutDown, run-IsShutDown}

abbrev limited : Installation fixed ℕ ℕ ℕ
limited = record (server "") { load_shedder = some (new_load_shedder (pos 5) (pos 2)) }

abbrev watched : Watcher ℕ
watched = record {
  path = "config.yaml";
  debounce = pos 100;
  last_modified = none;
  running = false;
  shut = false;
  loop = idle;
  timer = none;
  waiting = 0;
  target = 0;
}

run-IsShutDown_example :
    (s : Services ℕ) × (run {E = ℕ} none none
        (listen_failed 98)
        (λ w. record w { target = 1 })
        (services_of (some watched) limited)
      ≡ some (some 98, s))
    × IsShutDown s
    × (s.shedder_cleanup ≡ some true)
unfolding result_of
run-IsShutDown_example =
    run-IsShutDown none none (listen_failed 98) (λ w. record w { target = 1 }) (some watched)
      limited
