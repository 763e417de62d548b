-- ===== src/Semaphore.antt =====
-- internal/providers/semaphore.go. The channel is a buffer of a capacity and the number of values in
-- it; `active` is changed under its own lock after the channel operation, which is another step.
pub mod Balance
pub mod Registry
pub mod Slots
mod Tests
use mathlib.Core.Option
use resillm.Common.{
  ℕ, zero, suc, ◌+◌, ◌-◌, String, Bool, true, false, Option, none, some, List, [], ◌∷◌,
  if◌then◌else◌, ltb, leb, ℤ, pos, pos_part, leb_ℤ, inc, dec, sub_ℕ, Map, lookup, insert,
}
use resillm.Errors.{Error}

abbrev pub default_max_concurrent_per_provider : ℤ
default_max_concurrent_per_provider = pos 200

-- `ch` with `capacity` places, of which `held` are taken.
pub record Semaphore : Type 0 where
  pub name : String
  pub capacity : ℕ
  pub held : ℕ
  pub active : ℤ

unfoldable pub new_semaphore : String → ℤ → Semaphore
new_semaphore name capacity =
    let capacity' =
      if leb_ℤ capacity (pos 0) then default_max_concurrent_per_provider else capacity in
    record { name = name; capacity = pos_part capacity'; held = 0; active = pos 0 }

-- `s.ch <- struct{}{}` when it does not block, and `<-s.ch` when there is something to receive.
unfoldable pub send : Semaphore → Option Semaphore
send s = if ltb s.held s.capacity then some (record s { held = s.held + 1 }) else none

unfoldable pub receive : Semaphore → Option Semaphore
receive s = if ltb 0 s.held then some (record s { held = s.held - 1 }) else none

-- `s.active++` and `s.active--` under the lock.
unfoldable pub count_up : Semaphore → Semaphore
count_up s = record s { active = inc s.active }

unfoldable pub count_down : Semaphore → Semaphore
count_down s = record s { active = dec s.active }

-- `TryAcquire` with nothing in between.
unfoldable pub try_acquire : Semaphore → Semaphore × Bool
unfolding send count_up
try_acquire s = elim (send s) [ some t ↦ (count_up t, true) | none ↦ (s, false) ]

-- `Acquire`'s `select` when it ends: a place was free and taken, or the context was done. Where both
-- hold Go picks one; `prefers_done` is its choice. `none` as the first part stands for waiting on:
-- the channel is full and the context is not done.
unfoldable pub acquire : Option Error → Bool → Semaphore → Option (Semaphore × Option Error)
unfolding send count_up
acquire done prefers_done s = elim (send s) [
  | none ↦ elim done [ none ↦ none | some e ↦ some (s, some e) ]
  | some t ↦ elim done [
    | none ↦ some (count_up t, none)
    | some e ↦ if prefers_done then some (s, some e) else some (count_up t, none)
  ]
]

-- `Release`: with nothing to receive it only logs.
unfoldable pub release : Semaphore → Semaphore
unfolding receive count_down
release s = elim (receive s) [ some t ↦ count_down t | none ↦ s ]

unfoldable pub available : Semaphore → ℤ
available s = sub_ℕ s.capacity s.held

pub record SemaphoreStats : Type 0 where
  pub active : ℤ
  pub capacity : ℕ
  pub available : ℤ

pub record ProviderSemaphores : Type 0 where
  pub semaphores : Map Semaphore
  pub capacity : ℤ

unfoldable pub new_provider_semaphores : ℤ → ProviderSemaphores
new_provider_semaphores capacity = record {
  semaphores = [];
  capacity = (if leb_ℤ capacity (pos 0) then default_max_concurrent_per_provider else capacity);
}

-- `Get`: the semaphores afterwards, and the provider's. A second caller that finds the semaphore
-- under the write lock takes it, so that the two checks come to one.
unfoldable pub get : ProviderSemaphores → String → ProviderSemaphores × Semaphore
unfolding new_semaphore
get ps name = elim (lookup name ps.semaphores) [
  | some s ↦ (ps, s)
  | none ↦
      let s = new_semaphore name ps.capacity in
      (record ps { semaphores = insert name s ps.semaphores }, s)
]

-- The semaphore's object is the one in the map: a change of it is a change there.
abbrev pub put : ProviderSemaphores → String → Semaphore → ProviderSemaphores
put ps name s = record ps { semaphores = insert name s ps.semaphores }

stats_of : Semaphore → SemaphoreStats
unfolding available
stats_of s = record { active = s.active; capacity = s.capacity; available = available s }

stats_list : Map Semaphore → Map SemaphoreStats
unfolding stats_of
stats_list [] = []
stats_list ((name, s) ∷ m) = (name, stats_of s) ∷ stats_list m

-- `Stats`.
unfoldable pub stats : ProviderSemaphores → Map SemaphoreStats
unfolding stats_list
stats ps = stats_list ps.semaphores
