-- ===== src/Watcher.antt =====
-- internal/config/watcher.go, Watcher: its methods and the cases of the loop of `watch`. fsnotify and
-- Load are parameters: their results are arguments. Diff is in Reload.
pub mod Runs
pub mod Debounced
pub mod Launched
pub mod Stopped
mod Tests
use Prim.Native.String.{[], ◌∷◌}
use Prim.Native.Char.{code}
use resillm.Common.{
  ℕ, suc, ◌+◌, String, str_eq, Bool, true, false, not, ◌&&◌, ◌==◌, ◌⊎◌, inl, inr, Option, none,
  some, List, [], ◌∷◌, if◌then◌else◌, ℤ, pos, pos_part,
}

strip_slashes : String → String
strip_slashes [] = []
strip_slashes (c ∷ s) =
    let rest = strip_slashes s in if str_eq rest "" && (code c == b'/') then [] else c ∷ rest

after_slash : String → Option String
after_slash [] = none
after_slash (c ∷ s) = elim (after_slash s) [
  | some t ↦ some t
  | none ↦ if code c == b'/' then some s else none
]

-- filepath.Base, where paths are separated by `/`.
unfoldable pub base : String → String
unfolding strip_slashes after_slash
base path =
    if str_eq path ""
    then "."
    else let s = strip_slashes path in
      if str_eq s "" then "/" else elim (after_slash s) [ some t ↦ t | none ↦ s ]

-- The goroutine of `watch`.
pub data Loop : Type 0 where
  idle : Loop
  watching : Loop
  returned : Loop

-- An event of fsnotify, with what `Has` says of the two operations.
pub record Event : Type 0 where
  pub name : String
  pub write : Bool
  pub create : Bool

-- `timer` is the time at which the debounce timer calls its function, none when it is nil, was
-- stopped or has called it; `waiting` is the number of these calls that wait for the lock; `shut`
-- holds once fsnotify's watcher is closed; `target` is what `onChange` changes.
pub record Watcher (S : Type 0) : Type 0 where
  pub path : String
  pub debounce : ℤ
  pub last_modified : Option ℕ
  pub running : Bool
  pub shut : Bool
  pub loop : Loop
  pub timer : Option ℕ
  pub waiting : ℕ
  pub target : S

module _ {S : Type 0} where
  abbrev pub with_debounce : ℤ → Watcher S → Watcher S
  with_debounce d w = record w { debounce = d }

  apply_options : List (Watcher S → Watcher S) → Watcher S → Watcher S
  apply_options [] w = w
  apply_options (opt ∷ opts) w = apply_options opts (opt w)

  -- With the error of fsnotify.NewWatcher.
  unfoldable pub new_watcher :
      {E : Type 0} → Option E → String → S → List (Watcher S → Watcher S) → Watcher S ⊎ E
  unfolding apply_options
  new_watcher (some e) path target opts = inr e
  new_watcher none path target opts = inl (
      apply_options opts (record {
        path = path;
        debounce = pos 500_000_000;
        last_modified = none;
        running = false;
        shut = false;
        loop = idle;
        timer = none;
        waiting = 0;
        target = target;
      }))

  -- With the error of fsnotify's Add.
  unfoldable pub start : {E : Type 0} → Option E → Watcher S → Option E × Watcher S
  start failed w = if w.running then (none, w) else elim failed [
    | some e ↦ (some e, record w { running = true })
    | none ↦ (none, record w { running = true; loop = watching; timer = none })
  ]

  -- With the error of fsnotify's Close.
  unfoldable pub stop : {E : Type 0} → Option E → Watcher S → Option E × Watcher S
  stop failed w =
      if not w.running then (none, w) else (failed, record w { running = false; shut = true })

  -- The case of a done context.
  unfoldable pub cancel : Watcher S → Watcher S
  cancel w = record w { timer = none; loop = returned }

  -- The case of a closed channel, of the events or of the errors.
  unfoldable pub give_up : Watcher S → Watcher S
  give_up w = record w { loop = returned }

  -- The event is a change of the file.
  unfoldable pub is_change : Watcher S → Event → Bool
  unfolding base
  is_change w event =
      if not (str_eq (base event.name) (base w.path))
      then false
      else if not event.write && not event.create
      then false
      else true

  -- The case of an event.
  unfoldable pub handle_event : ℕ → Event → Watcher S → Watcher S
  unfolding is_change
  handle_event now event w =
      if is_change w event then record w { timer = some (now + pos_part w.debounce) } else w

  -- The timer calls its function.
  unfoldable pub expire : Watcher S → Watcher S
  expire w = record w { timer = none; waiting = suc w.waiting }

  module _ {C E : Type 0} (on_change : C → S → Option E × S) where
    -- `reload` with what Load gives for the path.
    unfoldable pub reload : ℕ → C ⊎ E → Watcher S → Option E × Watcher S
    reload now loaded w = elim loaded [
      | inr e ↦ (some e, w)
      | inl cfg ↦
          let (failed, target) = on_change cfg w.target in
          elim failed [
            | some e ↦ (some e, record w { target = target })
            | none ↦ (none, record w { target = target; last_modified = some now })
          ]
    ]
