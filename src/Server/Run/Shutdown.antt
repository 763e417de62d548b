-- ===== src/Server/Run/Shutdown.antt =====
-- internal/server/server.go: what Run has stopped when it returns.
use resillm.Common.{Bool, true, false, Option, none, some, ◌≡◌, ◌≢◌, refl, arith, FloatOps}
use resillm.Watcher.{Watcher, stop}
use resillm.Server.Start.{Installation}
use resillm.Server.Run.{
  Services, Ended, result_of, services_of, stop_limiter, start_watcher, change_watcher,
  stop_watcher, run,
}

abbrev pub NotRunning : {S : Type 0} → Option (Watcher S) → Type 0
NotRunning none = Unit
NotRunning (some w) = w.running ≡ false

-- The watcher and the clean-up of the rate limiter are stopped.
pub record IsShutDown {S : Type 0} (s : Services S) : Type 0 where
  pub watcher : NotRunning s.watcher
  pub limiter_cleanup : s.limiter_cleanup ≢ some true

stop_limiter-off :
    (b : Option Bool)
    → b ≢ some false
    → (c : Option Bool) × (stop_limiter b ≡ some c) × (c ≢ some true)
unfolding stop_limiter
stop_limiter-off none h = (none, refl, λ e. cc)
stop_limiter-off (some true) h = (some false, refl, λ e. cc)
stop_limiter-off (some false) h = absurd (h refl)

stop-NotRunning :
    {E S : Type 0} (failed : Option E) (w : Watcher S) → (stop failed w).1.running ≡ false
unfolding stop
stop-NotRunning failed w = ground arith

-- The goroutine of the rate limiter, when the server was just made.
started :
    {A : Type 0} (limiter : Option A)
    → ◌≢◌ {A = Option Bool} (elim limiter [ none ↦ none | some rl ↦ some true ]) (some false)
started none e = cc
started (some rl) e = cc

module _ {E S : Type 0} where
  stop_watcher-NotRunning :
      (failed : Option E) (w : Option (Watcher S)) → NotRunning (stop_watcher failed w)
  unfolding stop_watcher
  stop_watcher-NotRunning failed none = tt
  stop_watcher-NotRunning failed (some w) = stop-NotRunning failed w

  run_once :
      (added closed : Option E) (ended : Ended E) (meanwhile : Watcher S → Watcher S)
      (s : Services S)
      → s.limiter_cleanup ≢ some false
      → (s' : Services S) × (run added closed ended meanwhile s ≡ some (result_of ended, s'))
        × IsShutDown s'
        × (s'.shedder_cleanup ≡ s.shedder_cleanup)
  unfolding run
  run_once added closed ended meanwhile s h =
      let (c, e, off) = stop_limiter-off s.limiter_cleanup h in
      (
        record s {
          watcher = stop_watcher closed (change_watcher meanwhile (start_watcher added s.watcher));
          limiter_cleanup = c;
        },
        rw (e, run) refl,
        record { watcher = stop_watcher-NotRunning closed _; limiter_cleanup = off },
        refl,
      )

  -- However the server ends, Run returns with the error of that end and never closes a channel twice;
  -- the watcher is not running and the clean-up of the rate limiter is stopped, whatever became of
  -- the watcher meanwhile. The clean-up of the load shedder is left as it is: where there is a
  -- shedder, it still runs.
  pub run-IsShutDown :
      {F : FloatOps} {B W T : Type 0} (added closed : Option E) (ended : Ended E)
      (meanwhile : Watcher S → Watcher S) (watcher : Option (Watcher S))
      (server : Installation F B W T)
      → (s : Services S) × (run added closed ended meanwhile (services_of watcher server)
          ≡ some (result_of ended, s))
        × IsShutDown s
        × (s.shedder_cleanup ≡ (elim server.load_shedder [ none ↦ none | some ls ↦ some true ]))
  unfolding services_of
  run-IsShutDown added closed ended meanwhile watcher server =
      run_once added closed ended meanwhile (services_of watcher server)
        (started server.rate_limiter)
