-- ===== src/Budget/Tests.antt =====
-- internal/budget/tracker.go: runs of the model on fixed-point numbers, and the theorems at concrete
-- windows.
use resillm.Common.{
  ℕ, ◌+◌, ◌*◌, ◌≡◌, refl, ◌↔◌, true, false, String, List, [], ◌∷◌, some, pos, fixed, arith,
}
use resillm.Config.{BudgetConfig}
use resillm.Budget.{
  Tracker, minute, hour, new_tracker, record_cost, check, status, reset, count, clean_expired,
}
use resillm.Budget.Window.{value_at, replay, bucket_holds_total}
use resillm.Budget.Decision.{WouldReach, rejects_iff}

abbrev pub dollars : ℕ → fixed.Float
dollars n = pos (n * 1_000_000)

abbrev pub limits : BudgetConfig fixed
limits = record {
  enabled = true;
  max_cost_per_hour = dollars 10;
  max_cost_per_day = dollars 100;
  alert_threshold = pos 800_000;
  action_on_exceeded = "reject";
}

-- Nine dollars are spent within two minutes.
abbrev pub spent : Tracker fixed
spent =
    record_cost (100 * hour + minute) (dollars 5)
      (record_cost (100 * hour) (dollars 4) (new_tracker limits))

over :
    (check (100 * hour + minute) (100 * hour + minute) (dollars 1) spent).1.message
    ≡ "Hourly budget exceeded"
unfolding check record_cost new_tracker
over = refl

later_within : (check (102 * hour) (102 * hour) (dollars 1) spent).1.allowed ≡ true
unfolding check record_cost new_tracker
later_within = refl

spent_percent :
    (status (100 * hour + minute) (100 * hour + minute) spent).1.hourly_percent ≡ dollars 90
unfolding status record_cost new_tracker
spent_percent = refl

reset_empties : count (reset spent).hourly_window ≡ 0
unfolding reset count record_cost new_tracker
reset_empties = refl

abbrev three : List (ℕ × fixed.Float)
three = (12, pos 3) ∷ (11, pos 2) ∷ (4, pos 1) ∷ []

bucket_holds_total_example :
    value_at fixed 10 (clean_expired 15 (replay fixed 20 5 three)).buckets ≡ some (pos 5)
bucket_holds_total_example =
    bucket_holds_total fixed 20 5 10 15 three (omega arith) (omega arith) (ground arith)
      (omega arith)

rejects_iff_example : ((check hour hour (dollars 1) spent).1.allowed ≡ false) ↔ (
    (true ≡ true)
    × (◌≡◌ {A = String} "reject" "reject")
    × WouldReach fixed hour hour (dollars 1) spent)
unfolding record_cost new_tracker
rejects_iff_example = rejects_iff fixed hour hour (dollars 1) spent
