-- ===== src/Server/Run.antt =====
-- internal/server/server.go: Run, with Stop of the rate limiter. How the HTTP server ends, and
-- fsnotify's errors, are arguments; the goroutine of the metrics server is left out.
pub mod Shutdown
mod Tests
use resillm.Common.{
  ℕ, Bool, true, false, Option, none, some, ◌≡◌, ◌≢◌, ◌⊎◌, inl, inr, refl, sym, arith, Bool-cases,
  if◌then◌else◌, not, FloatOps,
}
use resillm.Watcher.{Watcher, start, stop}
use resillm.Server.Start.{Installation}

-- Whether a goroutine that cleans up still runs, for a limiter or a shedder that is there.
pub record Services (S : Type 0) : Type 0 where
  pub watcher : Option (Watcher S)
  pub limiter_cleanup : Option Bool
  pub shedder_cleanup : Option Bool

-- The context is done, with the error of Shutdown, or ListenAndServe has failed.
pub data Ended (E : Type 0) : Type 0 where
  shut_down : Option E → Ended E
  listen_failed : E → Ended E

unfoldable pub result_of : {E : Type 0} → Ended E → Option E
result_of (shut_down failed) = failed
result_of (listen_failed e) = some e

-- The services of a server that was just made; New starts both goroutines.
unfoldable pub services_of :
    {F : FloatOps} {B W T S : Type 0} → Option (Watcher S) → Installation F B W T → Services S
services_of watcher s = record {
  watcher = watcher;
  limiter_cleanup = elim s.rate_limiter [ none ↦ none | some rl ↦ some true ];
  shedder_cleanup = elim s.load_shedder [ none ↦ none | some ls ↦ some true ];
}

-- Closing a channel that is closed panics.
stop_limiter : Option Bool → Option (Option Bool)
stop_limiter none = some none
stop_limiter (some true) = some (some false)
stop_limiter (some false) = none

abbrev pub change_watcher :
    {S : Type 0} → (Watcher S → Watcher S) → Option (Watcher S) → Option (Watcher S)
change_watcher f none = none
change_watcher f (some w) = some (f w)

module _ {E S : Type 0} where
  -- An error of the watcher's Start is only logged.
  start_watcher : Option E → Option (Watcher S) → Option (Watcher S)
  start_watcher failed none = none
  start_watcher failed (some w) = some (start failed w).1

  stop_watcher : Option E → Option (Watcher S) → Option (Watcher S)
  stop_watcher failed none = none
  stop_watcher failed (some w) = some (stop failed w).1

  -- With the errors of fsnotify's Add and Close; the last argument but one is what the watcher has
  -- become meanwhile. `none` where a channel is closed twice.
  unfoldable pub run :
      Option E
      → Option E
      → Ended E
      → (Watcher S → Watcher S)
      → Services S
      → Option (Option E × Services S)
  unfolding stop_limiter start_watcher stop_watcher result_of
  run added closed ended meanwhile s = elim (stop_limiter s.limiter_cleanup) [
    | none ↦ none
    | some cleanup ↦ some (
      result_of ended,
      record s {
        watcher = stop_watcher closed (change_watcher meanwhile (start_watcher added s.watcher));
        limiter_cleanup = cleanup;
      },
    )
  ]
