-- ===== src/Watcher/Debounced.antt =====
-- internal/config/watcher.go: how many reloads the debounce timer starts, and when.
use resillm.Common.{
  ℕ, suc, ◌+◌, ◌≤◌, ◌≡◌, ◌⊎◌, inl, inr, refl, ap, Bool-cases, Option, none, some, Option-cases,
  arith, if◌then◌else◌, pos_part,
}
use resillm.Watcher.{Watcher, start, stop, cancel, give_up, is_change, handle_event, expire, reload}
use resillm.Watcher.Runs.{
  Step, starts, stops, cancels, sees, reports, gives_up, expires, reloads, asks, Run, here, next,
}

abbrev pub pending : Option ℕ → ℕ
pending none = 0
pending (some due) = 1

-- What is counted of a run: the changes of the file that the loop sees, the time of the last, and the
-- reloads that the timer started.
pub record Count : Type 0 where
  pub changes : ℕ
  pub last : Option ℕ
  pub timed : ℕ

module _ {C E S : Type 0} (on_change : C → S → Option E × S) where
  abbrev pub count_step : {w u : Watcher S} → Step on_change w u → Count → Count
  count_step {w} (sees now event e) c =
      if is_change w event then record c { changes = suc c.changes; last = some now } else c
  count_step (reloads now n loaded e) c = record c { timed = suc c.timed }
  count_step st c = c

  abbrev pub count : {w u : Watcher S} → Run on_change w u → Count
  count here = record { changes = 0; last = none; timed = 0 }
  count (next r st) = count_step st (count r)

-- A pending timer was set by the last change, and every change started at most one reload.
pub record IsDebounced {S : Type 0} (c : Count) (w : Watcher S) : Type 0 where
  pub due :
      (w.timer ≡ none) ⊎ ((t : ℕ) × (c.last ≡ some t) × (w.timer ≡ some (t + pos_part w.debounce)))
  pub bounded : c.timed + w.waiting + pending w.timer ≤ c.changes

module _ {C E S : Type 0} (on_change : C → S → Option E × S) where
  start-IsDebounced :
      (failed : Option E) (c : Count) (w : Watcher S)
      → IsDebounced c w
      → IsDebounced c (start failed w).1
  unfolding start
  start-IsDebounced none c w h = ground arith
  start-IsDebounced (some x) c w h = ground arith

  stop-IsDebounced :
      (failed : Option E) (c : Count) (w : Watcher S)
      → IsDebounced c w
      → IsDebounced c (stop failed w).1
  unfolding stop
  stop-IsDebounced failed c w h = ground arith

  reload-IsDebounced :
      (now : ℕ) (loaded : C ⊎ E) (c : Count) (w : Watcher S)
      → IsDebounced c w
      → IsDebounced c (reload on_change now loaded w).1
  unfolding reload
  reload-IsDebounced now (inr e) c w h = h
  reload-IsDebounced now (inl cfg) c w h = elim (Option-cases (on_change cfg w.target).0) [
    | inl e ↦ rw (e, reload) (record { due = h.due; bounded = h.bounded })
    | inr (x, e) ↦ rw (e, reload) (record { due = h.due; bounded = h.bounded })
  ]

  Step-IsDebounced :
      {w u : Watcher S} (st : Step on_change w u) (c : Count)
      → IsDebounced c w
      → IsDebounced (count_step on_change st c) u
  unfolding handle_event expire cancel give_up
  Step-IsDebounced {w} (starts failed e) c h = start-IsDebounced failed c w h
  Step-IsDebounced {w} (stops failed) c h = stop-IsDebounced failed c w h
  Step-IsDebounced (cancels e) c h = record { due = inl refl; bounded = omega arith }
  Step-IsDebounced {w} (sees now event e) c h = elim (Bool-cases (is_change w event)) [
    | inl k ↦ rw (k, handle_event) (record { due = inr (now, refl, refl); bounded = omega arith })
    | inr k ↦ rw (k, handle_event) h
  ]
  Step-IsDebounced (reports e) c h = h
  Step-IsDebounced (gives_up e k) c h = record { due = h.due; bounded = h.bounded }
  Step-IsDebounced {w} (expires now due e le) c h =
      let p = ap pending e in record { due = inl refl; bounded = omega arith }
  Step-IsDebounced {w} (reloads now n loaded e) c h =
      reload-IsDebounced now loaded (record c { timed = suc c.timed }) (record w { waiting = n })
        (record { due = h.due; bounded = omega arith })
  Step-IsDebounced {w} (asks now loaded) c h = reload-IsDebounced now loaded c w h

  -- However the callers, the loop, the timer and its calls interleave, a watcher that starts without
  -- a timer never has more reloads started by the timer, waiting or to come than changes of the file
  -- were seen, and a timer that is set comes due one debounce after the last change.
  pub Run-IsDebounced :
      {w u : Watcher S}
      → w.timer ≡ none
      → w.waiting ≡ 0
      → (r : Run on_change w u) → IsDebounced (count on_change r) u
  Run-IsDebounced {w} t n here =
      let p = ap pending t in record { due = inl t; bounded = omega arith }
  Run-IsDebounced t n (next r st) = Step-IsDebounced st _ (Run-IsDebounced t n r)
