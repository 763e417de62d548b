-- ===== src/Watcher/Tests.antt =====
-- internal/config/watcher.go: a watcher of the server's configuration, runs of it, and the theorems.
use resillm.Common.{ℕ, ◌≡◌, inl, refl, true, false, Option, none, some, [], ◌∷◌, arith, pos, fixed}
use resillm.Config.{Config}
use resillm.Config.Check.{ConfigError}
use resillm.Config.Defaults.{apply_defaults}
use resillm.Config.Tests.{written}
use resillm.Server.Start.{Installation, apply}
use resillm.Server.Start.Tests.{server}
use resillm.Watcher.{
  Watcher, Event, idle, watching, returned, base, new_watcher, with_debounce, start, stop, cancel,
  handle_event, expire, reload,
}
use resillm.Watcher.Runs.{starts, stops, sees, expires, reloads, Run, here, next}
use resillm.Watcher.Debounced.{IsDebounced, count, Run-IsDebounced}
use resillm.Watcher.Stopped.{IsOver, cancel-IsOver, stop_keeps_timer}

base_of_path : base "/etc/resillm/config.yaml" ≡ "config.yaml"
unfolding base
base_of_path = refl

base_of_slashes : base "/etc/resillm//" ≡ "resillm"
unfolding base
base_of_slashes = refl

base_of_root : base "//" ≡ "/"
unfolding base
base_of_root = refl

abbrev cfg : Config fixed
cfg = apply_defaults (written "sk-2" "openai")

abbrev change : Event
change = record { name = "/etc/resillm/config.yaml"; write = true; create = false }

abbrev on_change :
    Config fixed → Installation fixed ℕ ℕ ℕ → Option ConfigError × Installation fixed ℕ ℕ ℕ
on_change cfg s = (none, apply cfg s)

abbrev fresh : Watcher (Installation fixed ℕ ℕ ℕ)
fresh = record {
  path = "/etc/resillm/config.yaml";
  debounce = pos 100;
  last_modified = none;
  running = false;
  shut = false;
  loop = idle;
  timer = none;
  waiting = 0;
  target = server "";
}

makes :
    new_watcher {E = ConfigError} none "/etc/resillm/config.yaml"
      (server "")
      (with_debounce (pos 100) ∷ [])
    ≡ inl fresh
unfolding new_watcher
makes = refl

abbrev started : Watcher (Installation fixed ℕ ℕ ℕ)
started = record fresh { running = true; loop = watching }

abbrev written_at : ℕ → Watcher (Installation fixed ℕ ℕ ℕ)
written_at now = handle_event now change started

-- Two changes within the debounce set one timer, for the second.
bursts :
    handle_event 60 (record { name = "config.yaml"; write = true; create = false }) (written_at 20)
    ≡ record started { timer = some 160 }
unfolding handle_event
bursts = refl

ignores_others :
    handle_event 60 (record { name = "other.yaml"; write = true; create = false }) started ≡ started
unfolding handle_event
ignores_others = refl

start_works : (start {E = ConfigError} none fresh).1 ≡ started
unfolding start
start_works = refl

-- A change at 20, the timer at 120, and the reload.
reloaded : Run on_change fresh (reload on_change 121 (inl cfg) (record started { waiting = 0 })).1
unfolding start handle_event expire
reloaded =
    next {t = record started { waiting = 1 }}
      (next {t = record started { timer = some 120 }}
        (next {t = started} (next {t = fresh} here (starts none (λ e. cc))) (sees 20 change refl))
        (expires 120 120 refl (omega arith)))
      (reloads 121 0 (inl cfg) refl)

Run-IsDebounced_example :
    IsDebounced
      (count on_change reloaded)
      (reload on_change 121 (inl cfg) (record started { waiting = 0 })).1
Run-IsDebounced_example = Run-IsDebounced on_change refl refl reloaded

changed : Run on_change fresh (record started { timer = some 120 })
unfolding start handle_event
changed = next {t = started} (next {t = fresh} here (starts none (λ e. cc))) (sees 20 change refl)

cancel-IsOver_example :
    IsOver 0 (stop {E = ConfigError} none (cancel (record started { timer = some 120 }))).1
cancel-IsOver_example = cancel-IsOver on_change refl changed refl (next here (stops none))

abbrev pending_change : Watcher (Installation fixed ℕ ℕ ℕ)
pending_change = record started { timer = some 120 }

stop_keeps_timer_example :
    (v : Watcher (Installation fixed ℕ ℕ ℕ)) × Run on_change
      (stop {E = ConfigError} none pending_change).1
      v
    × (v.loop ≡ returned)
    × (v.waiting ≡ 0)
    × (u : Watcher (Installation fixed ℕ ℕ ℕ)) × (r : Run on_change v u) × (count on_change r
        ≡ record { changes = 0; last = none; timed = 1 })
    × (u.running ≡ false)
    × (u.shut ≡ true)
    × (u.target ≡ apply cfg (server ""))
stop_keeps_timer_example =
    stop_keeps_timer on_change none cfg 120 pending_change refl refl refl refl
