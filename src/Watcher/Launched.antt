-- ===== src/Watcher/Launched.antt =====
-- internal/config/watcher.go: the loop of watch is launched once at most.
use resillm.Common.{
  ℕ, ◌≡◌, ◌≢◌, ◌⊎◌, inl, inr, refl, sym, ◌∙◌, true, Bool-cases, Option, none, some, Option-cases,
  arith,
}
use resillm.Watcher.{
  Watcher, idle, watching, Event, start, stop, cancel, give_up, is_change, handle_event, expire,
  reload,
}
use resillm.Watcher.Runs.{
  Step, starts, stops, cancels, sees, reports, gives_up, expires, reloads, asks, Run, here, next,
}

-- The loop was launched by a Start that no other can follow: the watcher runs, or is closed for good.
abbrev pub IsSound : {S : Type 0} → Watcher S → Type 0
IsSound w = (w.loop ≡ idle) ⊎ ((w.running ≡ true) ⊎ (w.shut ≡ true))

watching≢idle : watching ≢ idle
watching≢idle e = cc

module _ {S : Type 0} where
  start-IsSound :
      {E : Type 0} (failed : Option E) (w : Watcher S) → IsSound w → IsSound (start failed w).1
  unfolding start
  start-IsSound none w h = ground arith
  start-IsSound (some x) w h = ground arith

  stop-IsSound :
      {E : Type 0} (failed : Option E) (w : Watcher S) → IsSound w → IsSound (stop failed w).1
  unfolding stop
  stop-IsSound failed w h = ground arith

  pub start_is_barred :
      {E : Type 0} (failed : Option E) (w : Watcher S)
      → (w.shut ≡ true → failed ≢ none)
      → (w.running ≡ true) ⊎ (w.shut ≡ true)
      → ((start failed w).1.loop ≡ w.loop)
        × ((start failed w).1.timer ≡ w.timer)
        × ((start failed w).1.waiting ≡ w.waiting)
        × ((start failed w).1.running ≡ true)
  unfolding start
  start_is_barred none w f (inl r) = ground (arith, r)
  start_is_barred none w f (inr k) = absurd (f k refl)
  start_is_barred (some x) w f (inl r) = ground (arith, r)
  start_is_barred (some x) w f (inr k) = ground (arith, k)

  pub launched : (w : Watcher S) → w.loop ≢ idle → IsSound w → (w.running ≡ true) ⊎ (w.shut ≡ true)
  launched w n (inl e) = absurd (n e)
  launched w n (inr h) = h

  pub watched :
      (w : Watcher S) → w.loop ≡ watching → IsSound w → (w.running ≡ true) ⊎ (w.shut ≡ true)
  watched w e h = launched w (λ k. watching≢idle (sym e ∙ k)) h

  see-IsSound :
      (now : ℕ) (event : Event) (w : Watcher S) → IsSound w → IsSound (handle_event now event w)
  unfolding handle_event
  see-IsSound now event w h = elim (Bool-cases (is_change w event)) [
    | inl e ↦ rw (e, handle_event) h
    | inr e ↦ rw (e, handle_event) h
  ]

module _ {C E S : Type 0} (on_change : C → S → Option E × S) where
  reload-IsSound :
      (now : ℕ) (loaded : C ⊎ E) (w : Watcher S)
      → IsSound w
      → IsSound (reload on_change now loaded w).1
  unfolding reload
  reload-IsSound now (inr e) w h = h
  reload-IsSound now (inl cfg) w h = elim (Option-cases (on_change cfg w.target).0) [
    | inl e ↦ rw (e, reload) h
    | inr (x, e) ↦ rw (e, reload) h
  ]

  Step-IsSound : {w u : Watcher S} → Step on_change w u → IsSound w → IsSound u
  unfolding handle_event expire cancel give_up
  Step-IsSound {w} (starts failed e) h = start-IsSound failed w h
  Step-IsSound {w} (stops failed) h = stop-IsSound failed w h
  Step-IsSound {w} (cancels e) h = inr (watched w e h)
  Step-IsSound {w} (sees now event e) h = see-IsSound now event w h
  Step-IsSound (reports e) h = h
  Step-IsSound (gives_up e k) h = inr (inr k)
  Step-IsSound {w} (expires now due e le) h = h
  Step-IsSound {w} (reloads now n loaded e) h =
      reload-IsSound now loaded (record w { waiting = n }) h
  Step-IsSound {w} (asks now loaded) h = reload-IsSound now loaded w h

  pub Run-IsSound : {w u : Watcher S} → IsSound w → Run on_change w u → IsSound u
  Run-IsSound h here = h
  Run-IsSound h (next r st) = Step-IsSound st (Run-IsSound h r)

  -- A watcher whose loop was launched is never launched again: whatever has happened since it was
  -- new, a Start leaves the loop as it is, when fsnotify's Add fails on a closed watcher.
  start_keeps_loop :
      {w u : Watcher S} (failed : Option E)
      → w.loop ≡ idle
      → Run on_change w u
      → u.loop ≢ idle
      → (u.shut ≡ true → failed ≢ none)
      → (start failed u).1.loop ≡ u.loop
  start_keeps_loop {w} {u} failed e r n f =
      (start_is_barred failed u f (launched u n (Run-IsSound (inl e) r))).0
