-- ===== src/Circuit/Count.antt =====
-- internal/resilience/circuitbreaker.go, RecordSuccess and RecordFailure on a closed breaker.
use mathlib.Core.List.{append_assoc}
use resillm.Common.{
  ℕ, suc, ◌+◌, ◌≤◌, ◌<◌, ◌≡◌, refl, sym, ap, ◌∙◌, ◌⊎◌, ◌↔◌, inl, inr, List, [], ◌∷◌, ◌++◌, arith,
  ltb, Bool-cases, pos, max_int,
}
use resillm.Circuit.{CircuitBreaker, closed, opened, record_success, record_failure}

-- The result of one request, and the time at which it is recorded.
pub data Outcome : Type 0 where
  success failure : ℕ → Outcome

pub record_outcome : Outcome → CircuitBreaker → CircuitBreaker
unfolding record_success record_failure
record_outcome (success now) cb = record_success now cb
record_outcome (failure now) cb = record_failure now cb

unfoldable pub record_all : List Outcome → CircuitBreaker → CircuitBreaker
unfolding record_outcome
record_all [] cb = cb
record_all (o ∷ os) cb = record_all os (record_outcome o cb)

-- A list of failures only.
abbrev pub AllFail : List Outcome → Type 0
AllFail [] = Unit {0}
AllFail (success _ ∷ os) = ⊥
AllFail (failure _ ∷ os) = AllFail os

abbrev pub count : List Outcome → ℕ
count [] = 0
count (o ∷ os) = suc (count os)

-- `t` failures in a row, somewhere in the list.
pub record Streak (t : ℕ) (os : List Outcome) : Type 0 where
  pub before : List Outcome
  pub run : List Outcome
  pub after : List Outcome
  pub splits : os ≡ before ++ (run ++ after)
  pub fails : AllFail run
  pub long : count run ≡ t

-- The breaker is closed with `c` failures counted, under the threshold `t`.
pub record Counting (t c : ℕ) (cb : CircuitBreaker) : Type 0 where
  pub is_closed : cb.state ≡ closed
  pub counted : cb.failure_count ≡ pos c
  pub threshold : cb.config.failure_threshold ≡ pos t
  pub below : c < t
  pub in_range : t ≤ max_int

count_success :
    (t c now : ℕ) (cb : CircuitBreaker)
    → Counting t c cb
    → Counting t 0 (record_outcome (success now) cb)
unfolding record_outcome
count_success t c now cb h = ground arith

count_failure :
    (t c now : ℕ) (cb : CircuitBreaker)
    → Counting t c cb
    → c + 1 < t
    → Counting t (suc c) (record_outcome (failure now) cb)
unfolding record_outcome
count_failure t c now cb h lt = ground arith

last_failure :
    (t c now : ℕ) (cb : CircuitBreaker)
    → Counting t c cb
    → t ≤ c + 1
    → (record_outcome (failure now) cb).state ≡ opened
unfolding record_outcome
last_failure t c now cb h le = ground arith

opened_stays :
    (o : Outcome) (cb : CircuitBreaker) → cb.state ≡ opened → (record_outcome o cb).state ≡ opened
unfolding record_outcome
opened_stays (success now) cb h = ground arith
opened_stays (failure now) cb h = ground arith

record_all-opened :
    (os : List Outcome) (cb : CircuitBreaker)
    → cb.state ≡ opened
    → (record_all os cb).state ≡ opened
unfolding record_all
record_all-opened [] cb h = h
record_all-opened (o ∷ os) cb h = record_all-opened os (record_outcome o cb) (opened_stays o cb h)

record_all-append :
    (xs ys : List Outcome) (cb : CircuitBreaker)
    → record_all (xs ++ ys) cb ≡ record_all ys (record_all xs cb)
unfolding record_all
record_all-append [] ys cb = refl
record_all-append (x ∷ xs) ys cb = record_all-append xs ys (record_outcome x cb)

-- One more failure keeps the breaker counting, or opens it.
failure_either :
    (t c now : ℕ) (cb : CircuitBreaker)
    → Counting t c cb
    → ((c + 1 < t) × Counting t (suc c) (record_outcome (failure now) cb))
      ⊎ ((t ≤ c + 1) × ((record_outcome (failure now) cb).state ≡ opened))
failure_either t c now cb h = elim (Bool-cases (ltb (c + 1) t)) [
  | inl e ↦ inl (ground arith, count_failure t c now cb h (ground arith))
  | inr e ↦ inr (ground arith, last_failure t c now cb h (ground arith))
]

-- Any history leaves the breaker opened, or counting.
after_any :
    (t c : ℕ) (os : List Outcome) (cb : CircuitBreaker)
    → Counting t c cb
    → ((record_all os cb).state ≡ opened) ⊎ ((d : ℕ) × Counting t d (record_all os cb))
unfolding record_all
after_any t c [] cb h = inr (c, h)
after_any t c (success now ∷ os) cb h = after_any t 0 os _ (count_success t c now cb h)
after_any t c (failure now ∷ os) cb h = elim (failure_either t c now cb h) [
  | inl (lt, k) ↦ after_any t (suc c) os _ k
  | inr (le, k) ↦ inl (record_all-opened os _ k)
]

long_run_opens :
    (t c : ℕ) (os : List Outcome) (cb : CircuitBreaker)
    → Counting t c cb
    → AllFail os
    → t ≤ c + count os
    → (record_all os cb).state ≡ opened
unfolding record_all
long_run_opens t c [] cb h f le = absurd (omega (arith, h.below))
long_run_opens t c (success now ∷ os) cb h f le = absurd f
long_run_opens t c (failure now ∷ os) cb h f le = elim (failure_either t c now cb h) [
  | inl (lt, k) ↦ long_run_opens t (suc c) os _ k f (omega arith)
  | inr (ge, k) ↦ record_all-opened os _ k
]

opens_of_Streak :
    (t c : ℕ) (os : List Outcome) (cb : CircuitBreaker)
    → Counting t c cb
    → Streak t os
    → (record_all os cb).state ≡ opened
opens_of_Streak t c os cb h s =
    rw
      (
        s.splits,
        record_all-append s.before (s.run ++ s.after) cb,
        record_all-append s.run s.after (record_all s.before cb),
      )
      (record_all-opened s.after _ (elim (after_any t c s.before cb h) [
        | inl o ↦ record_all-opened s.run _ o
        | inr (d, k) ↦ long_run_opens t d s.run _ k s.fails (omega (arith, s.long))
      ]))

push_failure :
    (t now : ℕ) (pre os : List Outcome)
    → Streak t ((pre ++ failure now ∷ []) ++ os)
    → Streak t (pre ++ failure now ∷ os)
push_failure t now pre os s = rw append_assoc at s

AllFail-snoc : (now : ℕ) (os : List Outcome) → AllFail os → AllFail (os ++ failure now ∷ [])
AllFail-snoc now [] f = tt
AllFail-snoc now (success _ ∷ os) f = absurd f
AllFail-snoc now (failure _ ∷ os) f = AllFail-snoc now os f

count-snoc : (o : Outcome) (os : List Outcome) → count (os ++ o ∷ []) ≡ suc (count os)
count-snoc o [] = refl
count-snoc o (_ ∷ os) = ap suc (count-snoc o os)

Streak-behind : (t : ℕ) (pre os : List Outcome) → Streak t os → Streak t (pre ++ os)
Streak-behind t pre os s = record {
  before = pre ++ s.before;
  run = s.run;
  after = s.after;
  splits = ap (λ l. pre ++ l) s.splits ∙ sym (append_assoc pre s.before (s.run ++ s.after));
  fails = s.fails;
  long = s.long;
}

-- The failures `pre` have been counted; once the breaker is open, they end or precede a streak.
opened-Streak :
    (t : ℕ) (pre os : List Outcome) (cb : CircuitBreaker)
    → Counting t (count pre) cb
    → AllFail pre
    → (record_all os cb).state ≡ opened
    → Streak t (pre ++ os)
unfolding record_all
opened-Streak t pre [] cb h f e = absurd (ground (arith, h.is_closed))
opened-Streak t pre (success now ∷ os) cb h f e = Streak-behind t pre (success now ∷ os) (
    Streak-behind t (success now ∷ []) os
      (opened-Streak t [] os _ (count_success t (count pre) now cb h) tt e))
opened-Streak t pre (failure now ∷ os) cb h f e = elim (failure_either t (count pre) now cb h) [
  | inl (lt, k) ↦ push_failure t now pre os (
      opened-Streak t (pre ++ failure now ∷ []) os _ (rw (count-snoc (failure now) pre) k)
        (AllFail-snoc now pre f) e)
  | inr (ge, k) ↦ record {
    before = [];
    run = pre ++ failure now ∷ [];
    after = os;
    splits = sym (append_assoc pre (failure now ∷ []) os);
    fails = AllFail-snoc now pre f;
    long = omega (arith, count-snoc (failure now) pre, h.below);
  }
]

-- A breaker that is closed with no failure counted is open after a history of recorded results
-- exactly when some `t` failures follow one another in it, for the threshold `t` (positive, within
-- an int, and left alone meanwhile). A success in between starts the count again.
pub opens_iff_Streak :
    (t : ℕ) (os : List Outcome) (cb : CircuitBreaker)
    → Counting t 0 cb
    → ((record_all os cb).state ≡ opened) ↔ Streak t os
opens_iff_Streak t os cb h = (opened-Streak t [] os cb h tt, opens_of_Streak t 0 os cb h)
