-- ===== src/Watcher/Runs.antt =====
-- internal/config/watcher.go: the steps of the callers, of the loop, of the timer and of its calls, in
-- any order, and what is counted of a run.
use resillm.Common.{ℕ, suc, ◌≤◌, ◌≡◌, ◌≢◌, ◌⊎◌, true, Option, none, some}
use resillm.Watcher.{
  Watcher, Event, watching, start, stop, cancel, give_up, handle_event, expire, reload,
}

module _ {C E S : Type 0} (on_change : C → S → Option E × S) where
  -- fsnotify's Add fails once the watcher is closed; a reload holds the lock throughout.
  pub data Step (w : Watcher S) : Watcher S → Type 0 where
    starts : (failed : Option E) → (w.shut ≡ true → failed ≢ none) → Step w (start failed w).1
    stops : (failed : Option E) → Step w (stop failed w).1
    cancels : w.loop ≡ watching → Step w (cancel w)
    sees : (now : ℕ) (event : Event) → w.loop ≡ watching → Step w (handle_event now event w)
    reports : w.loop ≡ watching → Step w w
    gives_up : w.loop ≡ watching → w.shut ≡ true → Step w (give_up w)
    expires : (now due : ℕ) → w.timer ≡ some due → due ≤ now → Step w (expire w)
    reloads :
        (now n : ℕ) (loaded : C ⊎ E)
        → w.waiting ≡ suc n
        → Step w (reload on_change now loaded (record w { waiting = n })).1
    asks : (now : ℕ) (loaded : C ⊎ E) → Step w (reload on_change now loaded w).1

  pub data Run (w : Watcher S) : Watcher S → Type 0 where
    here : Run w w
    next : {t u : Watcher S} → Run w t → Step t u → Run w u
