-- ===== src/Semaphore/Tests.antt =====
-- internal/providers/semaphore.go: runs of the model, and the theorems at concrete semaphores.
use resillm.Common.{
  ℕ, ◌+◌, ◌≤◌, ◌<◌, ◌≡◌, refl, ◌⊎◌, true, false, some, [], arith, pos, negsuc, lookup,
}
use resillm.Errors.{context_canceled}
use resillm.Semaphore.{
  Semaphore, new_semaphore, send, count_up, receive, count_down, try_acquire, acquire, release, get,
}
use resillm.Semaphore.Balance.{
  IsSettled, AcquireSpec, acquire-AcquireSpec, try_acquire_iff_free, System, Reach, here, next,
  sends, receives, counts_up, counts_down, Reach-counted,
}
use resillm.Semaphore.Registry.{IsReady, get-IsReady}

abbrev full : Semaphore
full = record { name = "openai"; capacity = 2; held = 2; active = pos 2 }

abbrev half : Semaphore
half = record { name = "openai"; capacity = 2; held = 1; active = pos 1 }

empty_release_logs :
    release (record full { held = 0; active = pos 0 }) ≡ record full { held = 0; active = pos 0 }
unfolding release
empty_release_logs = refl

default_capacity : (new_semaphore "openai" (negsuc 3)).capacity ≡ 200
unfolding new_semaphore
default_capacity = refl

acquire-AcquireSpec_example :
    AcquireSpec (some context_canceled) false half (acquire (some context_canceled) false half)
acquire-AcquireSpec_example = acquire-AcquireSpec (some context_canceled) false half (ground arith)

try_acquire_iff_free_example :
    (((try_acquire half).1 ≡ true)
      × (1 < 2)
      × ((try_acquire half).0.held ≡ 1 + 1)
      × IsSettled (try_acquire half).0)
    ⊎ (((try_acquire half).1 ≡ false) × (◌≡◌ {A = ℕ} 1 2) × ((try_acquire half).0 ≡ half))
try_acquire_iff_free_example = try_acquire_iff_free half (ground arith)

-- One caller has sent, another receives its value and counts down first: `active` is -1 in between.
abbrev idle : System
idle = record {
  semaphore = record { name = "openai"; capacity = 2; held = 0; active = pos 0 };
  ups = 0;
  downs = 0;
}

race : Reach idle (record {
  semaphore = record { name = "openai"; capacity = 2; held = 0; active = pos 0 };
  ups = 0;
  downs = 0;
})
unfolding send receive count_up count_down
race =
    next
      (next (next (next here (sends _ refl (omega arith))) (receives _ refl (omega arith)))
        (counts_down 0 refl))
      (counts_up 0 refl)

Reach-counted_example : (0 ≤ 2) × (◌≡◌ {A = ℕ} 0 0 → ◌≡◌ {A = ℕ} 0 0 → pos 0 ≡ pos 0)
Reach-counted_example = Reach-counted {s = idle} (ground arith) race

five-IsReady : IsReady (record { semaphores = []; capacity = pos 5 })
unfolding lookup
five-IsReady = record { in_range = omega arith; each = λ name s e. cc }

get-IsReady_example : IsReady (get (record { semaphores = []; capacity = pos 5 }) "openai").0
get-IsReady_example =
    get-IsReady (record { semaphores = []; capacity = pos 5 }) "openai" five-IsReady
