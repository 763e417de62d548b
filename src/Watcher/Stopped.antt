-- ===== src/Watcher/Stopped.antt =====
-- internal/config/watcher.go: what a done context and Stop leave behind.
use resillm.Common.{
  ℕ, ◌≤◌, ◌≡◌, ◌≢◌, ◌⊎◌, inl, inr, refl, ap, sym, ◌∙◌, true, false, Option, none, some, none≢some,
  Option-cases, arith,
}
use resillm.Watcher.{Watcher, idle, watching, returned, stop, cancel, give_up, expire, reload}
use resillm.Watcher.Runs.{
  Step, starts, stops, cancels, sees, reports, gives_up, expires, reloads, asks, Run, here, next,
}
use resillm.Watcher.Debounced.{count}
use resillm.Watcher.Launched.{start_is_barred, watched, Run-IsSound}

-- The loop has returned, no timer is set, and at most so many reloads wait for the lock.
pub record IsOver {S : Type 0} (n : ℕ) (w : Watcher S) : Type 0 where
  pub over : w.loop ≡ returned
  pub untimed : w.timer ≡ none
  pub few : w.waiting ≤ n
  pub barred : (w.running ≡ true) ⊎ (w.shut ≡ true)

returned≢watching : returned ≢ watching
returned≢watching e = cc

module _ {S : Type 0} where
  stop_changes :
      {E : Type 0} (failed : Option E) (w : Watcher S)
      → w.running ≡ true
      → ((stop failed w).1.running ≡ false)
        × ((stop failed w).1.shut ≡ true)
        × ((stop failed w).1.loop ≡ w.loop)
        × ((stop failed w).1.timer ≡ w.timer)
        × ((stop failed w).1.waiting ≡ w.waiting)
        × ((stop failed w).1.target ≡ w.target)
  unfolding stop
  stop_changes failed w r = ground (arith, r)

-- The two agree on the watcher's own state.
record SameState {S : Type 0} (u w : Watcher S) : Type 0 where
  running : u.running ≡ w.running
  shut : u.shut ≡ w.shut

module _ {C E S : Type 0} (on_change : C → S → Option E × S) where
  reload-IsOver :
      (now n : ℕ) (loaded : C ⊎ E) (w : Watcher S)
      → IsOver n w
      → IsOver n (reload on_change now loaded w).1
  unfolding reload
  reload-IsOver now n (inr e) w h = h
  reload-IsOver now n (inl cfg) w h = elim (Option-cases (on_change cfg w.target).0) [
    | inl e ↦
        rw (e, reload)
          (record { over = h.over; untimed = h.untimed; few = h.few; barred = h.barred })
    | inr (x, e) ↦
        rw (e, reload)
          (record { over = h.over; untimed = h.untimed; few = h.few; barred = h.barred })
  ]

  not_watching : {n : ℕ} {w : Watcher S} {P : Type 0} → IsOver n w → w.loop ≡ watching → P
  not_watching h e = absurd (returned≢watching (sym h.over ∙ e))

  Step-IsOver : {w u : Watcher S} (n : ℕ) → Step on_change w u → IsOver n w → IsOver n u
  unfolding stop
  Step-IsOver {w} n (starts failed f) h =
      let (a, b, c, d) = start_is_barred failed w f h.barred in
      record { over = a ∙ h.over; untimed = b ∙ h.untimed; few = omega arith; barred = inl d }
  Step-IsOver {w} n (stops failed) h = ground arith
  Step-IsOver n (cancels e) h = not_watching h e
  Step-IsOver n (sees now event e) h = not_watching h e
  Step-IsOver n (reports e) h = h
  Step-IsOver n (gives_up e k) h = not_watching h e
  Step-IsOver n (expires now due e le) h = absurd (none≢some due (sym h.untimed ∙ e))
  Step-IsOver {w} n (reloads now k loaded e) h =
      reload-IsOver now n loaded (record w { waiting = k })
        (record {
          over = h.over;
          untimed = h.untimed;
          few = omega (arith, h.few);
          barred = h.barred;
        })
  Step-IsOver {w} n (asks now loaded) h = reload-IsOver now n loaded w h

  Run-IsOver : {w u : Watcher S} (n : ℕ) → IsOver n w → Run on_change w u → IsOver n u
  Run-IsOver n h here = h
  Run-IsOver n h (next r st) = Step-IsOver n st (Run-IsOver n h r)

  -- Once the loop has seen that the context is done, the timer starts no reload any more: in every
  -- run from there the loop stays returned, no timer is set, and no more reloads wait for the lock
  -- than did then.
  pub cancel-IsOver :
      {w u t : Watcher S}
      → w.loop ≡ idle
      → Run on_change w u
      → u.loop ≡ watching
      → Run on_change (cancel u) t
      → IsOver u.waiting t
  unfolding cancel
  cancel-IsOver {w} {u} e r k q =
      Run-IsOver u.waiting
        (record {
          over = refl;
          untimed = refl;
          few = omega arith;
          barred = watched u k (Run-IsSound on_change (inl e) r);
        })
        q

  reload_keeps :
      (now : ℕ) (cfg : C) (w : Watcher S)
      → (SameState (reload on_change now (inl cfg) w).1 w)
        × ((reload on_change now (inl cfg) w).1.target ≡ (on_change cfg w.target).1)
  unfolding reload
  reload_keeps now cfg w = elim (Option-cases (on_change cfg w.target).0) [
    | inl n ↦ rw (n, reload) (record { running = refl; shut = refl }, refl)
    | inr (x, n) ↦ rw (n, reload) (record { running = refl; shut = refl }, refl)
  ]

  -- Stop does not end a reload that is pending: from any running watcher with its loop, a timer and no
  -- reload that waits, the loop may return after Stop with no reload waiting, and still, with no
  -- change of the file seen any more, the timer starts one reload that changes the target, with the
  -- watcher stopped and closed.
  pub stop_keeps_timer :
      (failed : Option E) (cfg : C) (due : ℕ) (w : Watcher S)
      → w.running ≡ true
      → w.loop ≡ watching
      → w.waiting ≡ 0
      → w.timer ≡ some due
      → (v : Watcher S) × Run on_change (stop failed w).1 v
        × (v.loop ≡ returned)
        × (v.waiting ≡ 0)
        × (u : Watcher S) × (r : Run on_change v u) × (count on_change r
            ≡ record { changes = 0; last = none; timed = 1 })
        × (u.running ≡ false)
        × (u.shut ≡ true)
        × (u.target ≡ (on_change cfg w.target).1)
  unfolding give_up expire
  stop_keeps_timer failed cfg due w r k n e =
      let s = (stop failed w).1 in
      let (running, shut, loop, timer, waiting, target) = stop_changes failed w r in
      let u = record (expire (give_up s)) { waiting = s.waiting } in
      let (kept, changed) = reload_keeps due cfg u in
      (
        give_up s,
        next here (gives_up (loop ∙ k) shut),
        refl,
        waiting ∙ n,
        (reload on_change due (inl cfg) u).1,
        next (next here (expires due due (timer ∙ e) (omega arith)))
            (reloads due s.waiting (inl cfg) refl),
        refl,
        kept.running ∙ running,
        kept.shut ∙ shut,
        changed ∙ ap (λ t. (on_change cfg t).1) target,
      )
