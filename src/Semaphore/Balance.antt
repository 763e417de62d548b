-- ===== src/Semaphore/Balance.antt =====
-- internal/providers/semaphore.go: slots and the counter `active`, for one caller and for many.
use resillm.Common.{
  ℕ, suc, ◌+◌, ◌-◌, ◌^◌, ◌≤◌, ◌<◌, ◌≡◌, ◌⊎◌, inl, inr, Bool, true, false, Option, none, some, arith,
  ltb, Bool-cases, pos, pos_part, neg_part, max_int,
}
use resillm.Errors.{Error}
use resillm.Semaphore.{
  Semaphore, send, receive, count_up, count_down, try_acquire, acquire, release,
}

-- Between calls: no more slots are taken than there are, and `active` counts them.
pub record IsSettled (s : Semaphore) : Type 0 where
  pub fits : s.held ≤ s.capacity
  pub in_range : s.capacity ≤ max_int
  pub counted : s.active ≡ pos s.held

-- How `Acquire` may end, against the slots.
abbrev pub AcquireSpec :
    Option Error → Bool → Semaphore → Option (Semaphore × Option Error) → Type 0
AcquireSpec done prefers_done s none = (s.held ≡ s.capacity) × (done ≡ none)
AcquireSpec done prefers_done s (some (t, none)) =
    (t.held ≡ s.held + 1)
    × (t.capacity ≡ s.capacity)
    × IsSettled t
    × (release t ≡ s)
    × ((done ≡ none) ⊎ (prefers_done ≡ false))
AcquireSpec done prefers_done s (some (t, some e)) =
    (t ≡ s) × (done ≡ some e) × ((s.held ≡ s.capacity) ⊎ (prefers_done ≡ true))

-- `Acquire` on a settled semaphore waits only while it is full and the context is not done; it takes
-- exactly one slot, never beyond the capacity, which `Release` gives back with the counter; or it
-- returns the context's error and changes nothing.
pub acquire-AcquireSpec :
    (done : Option Error) (prefers_done : Bool) (s : Semaphore)
    → IsSettled s
    → AcquireSpec done prefers_done s (acquire done prefers_done s)
unfolding acquire release
acquire-AcquireSpec none prefers_done s h = ground arith
acquire-AcquireSpec (some e) prefers_done s h = ground arith

pub release-IsSettled :
    (s : Semaphore) → IsSettled s → IsSettled (release s) × ((release s).held ≡ s.held - 1)
unfolding release
release-IsSettled s h = ground arith

-- `TryAcquire` succeeds on a settled semaphore exactly when a slot is free; both outcomes leave it
-- settled, with one slot more taken on success and unchanged otherwise.
pub try_acquire_iff_free :
    (s : Semaphore)
    → IsSettled s
    → (((try_acquire s).1 ≡ true)
        × (s.held < s.capacity)
        × ((try_acquire s).0.held ≡ s.held + 1)
        × IsSettled (try_acquire s).0)
      ⊎ (((try_acquire s).1 ≡ false) × (s.held ≡ s.capacity) × ((try_acquire s).0 ≡ s))
unfolding try_acquire
try_acquire_iff_free s h = elim (Bool-cases (ltb s.held s.capacity)) [
  | inl e ↦ inl (ground arith)
  | inr e ↦ inr (ground arith)
]

-- A second `Release` by one holder is no no-op while others hold slots: on a settled semaphore with
-- all its slots taken, two or more, it frees another holder's slot, so that two more callers get
-- in and the callers that hold a slot are one more than the capacity.
double_release_overcommits :
    (s : Semaphore)
    → IsSettled s
    → s.held ≡ s.capacity
    → 2 ≤ s.held
    → let t = release (release s) in
      let (u, first) = try_acquire t in
      (t.held + 2 ≡ s.held) × (first ≡ true) × ((try_acquire u).1 ≡ true)
unfolding release try_acquire
double_release_overcommits s h e two = ground arith

-- Callers between their channel operation and their change of `active`.
pub record System : Type 0 where
  pub semaphore : Semaphore
  pub ups : ℕ
  pub downs : ℕ

-- A bound on the callers that are so in between at once.
abbrev pub max_callers : ℕ
max_callers = 2 ^ 61

pub data Step (s : System) : System → Type 0 where
  sends :
      (t : Semaphore)
      → send s.semaphore ≡ some t
      → s.ups < max_callers
      → Step s (record { semaphore = t; ups = suc s.ups; downs = s.downs })
  receives :
      (t : Semaphore)
      → receive s.semaphore ≡ some t
      → s.downs < max_callers
      → Step s (record { semaphore = t; ups = s.ups; downs = suc s.downs })
  counts_up :
      (n : ℕ)
      → s.ups ≡ suc n
      → Step s (record { semaphore = count_up s.semaphore; ups = n; downs = s.downs })
  counts_down :
      (n : ℕ)
      → s.downs ≡ suc n
      → Step s (record { semaphore = count_down s.semaphore; ups = s.ups; downs = n })

pub data Reach (s : System) : System → Type 0 where
  here : Reach s s
  next : {t u : System} → Reach s t → Step t u → Reach s u

pub record IsBalanced (s : System) : Type 0 where
  pub fits : s.semaphore.held ≤ s.semaphore.capacity
  pub in_range : s.semaphore.capacity ≤ 2 ^ 61
  pub ups_bound : s.ups ≤ max_callers
  pub downs_bound : s.downs ≤ max_callers
  -- active + ups = held + downs, over the integers.
  pub balance :
      pos_part s.semaphore.active + s.ups ≡ s.semaphore.held + s.downs + neg_part s.semaphore.active

Step-IsBalanced : {s t : System} → Step s t → IsBalanced s → IsBalanced t
unfolding send receive count_up count_down
Step-IsBalanced (sends t e b) h = ground arith
Step-IsBalanced (receives t e b) h = ground arith
Step-IsBalanced {s} (counts_up n e) h = ground arith
Step-IsBalanced {s} (counts_down n e) h = ground arith

Reach-Balanced : {s t : System} → IsBalanced s → Reach s t → IsBalanced t
Reach-Balanced h here = h
Reach-Balanced h (next r st) = Step-IsBalanced st (Reach-Balanced h r)

-- Whatever the interleaving of any number of callers (up to 2^61 at once between their two parts),
-- the slots taken never pass the capacity; and when no caller is in between, `active` is the number
-- of slots taken, though it may be off, or negative, before.
pub Reach-counted :
    {s t : System}
    → IsBalanced s
    → Reach s t
    → (t.semaphore.held ≤ t.semaphore.capacity)
      × (t.ups ≡ 0 → t.downs ≡ 0 → t.semaphore.active ≡ pos t.semaphore.held)
Reach-counted {t = t} h r =
    let b = Reach-Balanced h r in (b.fits, λ up down. ground (arith, b.balance))

pub release-capacity : (s : Semaphore) → (release s).capacity ≡ s.capacity
unfolding release
release-capacity s = ground arith
