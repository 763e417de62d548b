-- ===== src/LoadShed/Requests.antt =====
-- internal/server/loadshed.go: overlapping requests in `Middleware`, whose test of the counter and
-- change of it are two steps.
use resillm.Common.{ℕ, zero, suc, ◌+◌, ◌≤◌, ◌<◌, ◌≡◌, refl, subst, true, false, arith, pos, max_int}
use resillm.LoadShed.{LoadShedder, should_shed, shed, begin, finish}

-- `passed` requests have been let pass and are not counted yet; `serving` are counted.
pub record System : Type 0 where
  pub shedder : LoadShedder
  pub passed : ℕ
  pub serving : ℕ

-- At most `overlap` requests are at once between the test and the counting.
pub data Step (overlap : ℕ) (s : System) : System → Type 0 where
  sheds :
      should_shed s.shedder ≡ true
      → Step overlap s (record { shedder = shed s.shedder; passed = s.passed; serving = s.serving })
  passes :
      should_shed s.shedder ≡ false
      → s.passed < overlap
      → Step overlap s (record { shedder = s.shedder; passed = suc s.passed; serving = s.serving })
  begins :
      (n : ℕ)
      → s.passed ≡ suc n
      → s.serving < max_int
      → Step overlap s (record { shedder = begin s.shedder; passed = n; serving = suc s.serving })
  finishes :
      (n : ℕ)
      → s.serving ≡ suc n
      → Step overlap s (record { shedder = finish s.shedder; passed = s.passed; serving = n })

pub data Reach (overlap : ℕ) (s : System) : System → Type 0 where
  here : Reach overlap s s
  next : {t u : System} → Reach overlap s t → Step overlap t u → Reach overlap s u

-- The counter is right, and the limit is passed by less than the overlap.
pub record IsLimited (max overlap : ℕ) (s : System) : Type 0 where
  pub limit : s.shedder.max_active_requests ≡ pos max
  pub counted : s.shedder.active_requests ≡ pos s.serving
  pub in_range : s.serving ≤ max_int
  pub few : s.passed ≤ overlap
  pub bounded : s.passed + s.serving < max + overlap

Step-IsLimited :
    (max overlap : ℕ) {s t : System}
    → 0 < max
    → Step overlap s t
    → IsLimited max overlap s
    → IsLimited max overlap t
unfolding should_shed shed begin finish
Step-IsLimited max overlap {s} p (sheds e) h = ground arith
Step-IsLimited max overlap {s} p (passes e b) h = ground arith
Step-IsLimited max overlap {s} p (begins n e b) h = ground arith
Step-IsLimited max overlap {s} p (finishes n e) h = ground arith

-- Whatever the interleaving of requests, with a positive limit the counter is the number of requests
-- that are being served, and when at most `overlap` requests are at once between the test and the
-- counting, fewer than `max + overlap` are in hand: never more than the limit if none overlap.
pub Reach-IsLimited :
    (max overlap : ℕ) {s t : System}
    → 0 < max
    → IsLimited max overlap s
    → Reach overlap s t
    → IsLimited max overlap t
Reach-IsLimited max overlap p h here = h
Reach-IsLimited max overlap p h (next r st) =
    Step-IsLimited max overlap p st (Reach-IsLimited max overlap p h r)

-- `n` requests that are tested one after another.
abbrev let_pass : ℕ → System → System
let_pass n s = record { shedder = s.shedder; passed = n; serving = s.serving }

passing :
    (overlap n : ℕ) (s : System)
    → s.passed ≡ 0
    → n ≤ overlap
    → should_shed s.shedder ≡ false
    → Reach overlap s (let_pass n s)
passing overlap zero s e b accepts = subst (λ k. Reach overlap s (let_pass k s)) e here
passing overlap (suc n) s e b accepts =
    next (passing overlap n s e (omega arith) accepts) (passes accepts (omega arith))

counting :
    (overlap n : ℕ) {s : System} (t : System)
    → Reach overlap s t
    → t.passed ≡ n
    → n + t.serving ≤ max_int
    → (u : System) × Reach overlap s u × (u.passed ≡ 0) × (u.serving ≡ n + t.serving)
counting overlap zero t r e b = (t, r, e, omega arith)
counting overlap (suc n) t r e b =
    let (u, ru, none_left, all) =
      counting overlap n (record { shedder = begin t.shedder; passed = n; serving = suc t.serving })
        (next r (begins n e (omega arith))) refl (omega arith) in
    (u, ru, none_left, omega (arith, all))

-- The limit on requests is no limit on requests that overlap: from a shedder that lets a request pass,
-- any number `n` of requests (up to the largest int64) that are all tested before one is counted end
-- up being served at once, together with those that were.
pub overlap_passes_limit :
    (n : ℕ) (s : System)
    → should_shed s.shedder ≡ false
    → s.passed ≡ 0
    → n + s.serving ≤ max_int
    → (t : System) × Reach n s t × (t.passed ≡ 0) × (t.serving ≡ n + s.serving)
overlap_passes_limit n s accepts e b =
    counting n n (let_pass n s) (passing n n s e (omega arith) accepts) refl b
