-- ===== src/Budget.antt =====
-- internal/budget/tracker.go. Instants and durations are numbers of nanoseconds; `check` and
-- `status` read the clock once for each window. `After(now - size)` is written without the subtraction, which could be below zero.
pub mod Window
pub mod Decision
pub mod Tests
use resillm.Common.{
  ℕ, zero, suc, ◌+◌, ◌-◌, ◌*◌, ◌/◌, ◌%◌, String, str_eq, Bool, true, false, not, ◌&&◌, ◌||◌, List,
  [], ◌∷◌, if◌then◌else◌, ltb, ◌==◌, length, keep, pos, FloatOps,
}
use resillm.Config.{BudgetConfig}

pub record Bucket (F : FloatOps) : Type 0 where
  pub timestamp : ℕ
  pub value : F.Float

pub record RollingWindow (F : FloatOps) : Type 0 where
  pub window_size : ℕ
  pub bucket_size : ℕ
  pub buckets : List (Bucket F)
  pub num_buckets : ℕ

unfoldable pub new_rolling_window : (F : FloatOps) → ℕ → ℕ → RollingWindow F
new_rolling_window F window_size bucket_size = record {
  window_size = window_size;
  bucket_size = bucket_size;
  buckets = [];
  num_buckets = (if ltb (window_size / bucket_size) 1 then 1 else window_size / bucket_size);
}

-- `t.Truncate(d)`.
abbrev pub truncate : ℕ → ℕ → ℕ
truncate t d = t - t % d

-- The result of a budget check.
pub record CheckResult (F : FloatOps) : Type 0 where
  pub allowed : Bool
  pub warning : Bool
  pub message : String
  pub remaining_hour : F.Float
  pub remaining_day : F.Float
  pub alert_triggered : Bool

pub record Status (F : FloatOps) : Type 0 where
  pub hourly_spent : F.Float
  pub hourly_limit : F.Float
  pub hourly_remaining : F.Float
  pub hourly_percent : F.Float
  pub daily_spent : F.Float
  pub daily_limit : F.Float
  pub daily_remaining : F.Float
  pub daily_percent : F.Float
  pub alert_triggered : Bool
  pub action : String

-- The tracker's `Config` has the fields of the configuration's.
pub record Tracker (F : FloatOps) : Type 0 where
  pub cfg : BudgetConfig F
  pub hourly_window : RollingWindow F
  pub daily_window : RollingWindow F

abbrev pub minute : ℕ
minute = 60_000_000_000

abbrev pub hour : ℕ
hour = 60 * minute

-- `max > 0`.
abbrev pub limited : (F : FloatOps) → F.Float → Bool
limited F limit = F.lt (F.of_int (pos 0)) limit

abbrev pub would_exceed : (F : FloatOps) → F.Float → F.Float → F.Float → Bool
would_exceed F spent estimated limit = F.le limit (F.add spent estimated) && limited F limit

-- The part of the limit that is spent, 0 without a limit.
abbrev pub spent_part : (F : FloatOps) → F.Float → F.Float → F.Float
spent_part F spent limit = if limited F limit then F.div spent limit else F.of_int (pos 0)

abbrev pub alerts : (F : FloatOps) → F.Float → F.Float → F.Float → Bool
alerts F threshold hourly daily = F.le threshold hourly || F.le threshold daily

module _ {F : FloatOps} where
  -- `cleanExpired`.
  unfoldable pub clean_expired : ℕ → RollingWindow F → RollingWindow F
  clean_expired now w = record w {
    buckets = keep (λ b. ltb now (b.timestamp + w.window_size)) w.buckets;
  }

  -- The loop of `Add` and the new bucket after it.
  unfoldable pub add_to_bucket : ℕ → F.Float → List (Bucket F) → List (Bucket F)
  add_to_bucket t v [] = record { timestamp = t; value = v } ∷ []
  add_to_bucket t v (b ∷ bs) =
      if b.timestamp == t
      then record b { value = F.add b.value v } ∷ bs
      else b ∷ add_to_bucket t v bs

  unfoldable pub add : ℕ → F.Float → RollingWindow F → RollingWindow F
  unfolding clean_expired add_to_bucket
  add t v w =
      let w' = clean_expired t w in
      record w' { buckets = add_to_bucket (truncate t w.bucket_size) v w'.buckets }

  unfoldable pub sum_from : F.Float → List (Bucket F) → F.Float
  sum_from total [] = total
  sum_from total (b ∷ bs) = sum_from (F.add total b.value) bs

  -- `Sum`, which cleans the window.
  unfoldable pub sum : ℕ → RollingWindow F → RollingWindow F × F.Float
  unfolding clean_expired sum_from
  sum now w = let w' = clean_expired now w in (w', sum_from (F.of_int (pos 0)) w'.buckets)

  unfoldable pub count : RollingWindow F → ℕ
  count w = length w.buckets

  unfoldable pub new_tracker : BudgetConfig F → Tracker F
  unfolding new_rolling_window
  new_tracker cfg = record {
    cfg = cfg;
    hourly_window = new_rolling_window F hour minute;
    daily_window = new_rolling_window F (24 * hour) hour;
  }

  -- The `switch` over the action, when a limit would be exceeded.
  exceeded : String → Bool → CheckResult F → CheckResult F
  exceeded action hourly result =
      if str_eq action "reject"
      then record result {
        allowed = false;
        message = (if hourly then "Hourly budget exceeded" else "Daily budget exceeded");
      }
      else if str_eq action "allow_with_warning"
      then record result {
        allowed = true;
        warning = true;
        message =
            (if hourly
              then "Warning: Hourly budget exceeded"
              else "Warning: Daily budget exceeded");
      }
      else record result {
        allowed = true;
        warning = true;
        message = "Budget exceeded (action not configured)";
      }

  -- What `Check` makes of the two sums.
  decide : BudgetConfig F → F.Float → F.Float → F.Float → CheckResult F
  unfolding exceeded
  decide cfg hourly daily estimated =
      let over_hour = would_exceed F hourly estimated cfg.max_cost_per_hour in
      let over_day = would_exceed F daily estimated cfg.max_cost_per_day in
      let result : CheckResult F = record {
        allowed = true;
        warning = false;
        message = "";
        remaining_hour = F.sub cfg.max_cost_per_hour hourly;
        remaining_day = F.sub cfg.max_cost_per_day daily;
        alert_triggered =
            alerts F cfg.alert_threshold (spent_part F hourly cfg.max_cost_per_hour)
              (spent_part F daily cfg.max_cost_per_day);
      } in
      if over_hour || over_day then exceeded cfg.action_on_exceeded over_hour result else result

  unfoldable pub check : ℕ → ℕ → F.Float → Tracker F → Tracker F × CheckResult F
  unfolding sum decide
  check now later estimated t =
      if not t.cfg.enabled
      then (
        t,
        record {
          allowed = true;
          warning = false;
          message = "";
          remaining_hour = F.of_int (pos 0);
          remaining_day = F.of_int (pos 0);
          alert_triggered = false;
        },
      )
      else (let (hw, hourly) = sum now t.hourly_window in
          let (dw, daily) = sum later t.daily_window in
          (record t { hourly_window = hw; daily_window = dw }, decide t.cfg hourly daily estimated))

  unfoldable pub record_cost : ℕ → F.Float → Tracker F → Tracker F
  unfolding add
  record_cost now cost t = if not t.cfg.enabled then t else record t {
    hourly_window = add now cost t.hourly_window;
    daily_window = add now cost t.daily_window;
  }

  unfoldable pub status : ℕ → ℕ → Tracker F → Tracker F × Status F
  unfolding sum
  status now later t =
      let (hw, hourly) = sum now t.hourly_window in
      let (dw, daily) = sum later t.daily_window in
      let hourly_part = spent_part F hourly t.cfg.max_cost_per_hour in
      let daily_part = spent_part F daily t.cfg.max_cost_per_day in
      (
        record t { hourly_window = hw; daily_window = dw },
        record {
          hourly_spent = hourly;
          hourly_limit = t.cfg.max_cost_per_hour;
          hourly_remaining = F.max (F.of_int (pos 0)) (F.sub t.cfg.max_cost_per_hour hourly);
          hourly_percent =
              (if limited F t.cfg.max_cost_per_hour
                then F.mul hourly_part (F.of_int (pos 100))
                else F.of_int (pos 0));
          daily_spent = daily;
          daily_limit = t.cfg.max_cost_per_day;
          daily_remaining = F.max (F.of_int (pos 0)) (F.sub t.cfg.max_cost_per_day daily);
          daily_percent =
              (if limited F t.cfg.max_cost_per_day
                then F.mul daily_part (F.of_int (pos 100))
                else F.of_int (pos 0));
          alert_triggered =
              t.cfg.enabled
              && F.lt (F.of_int (pos 0)) t.cfg.alert_threshold
              && alerts F t.cfg.alert_threshold hourly_part daily_part;
          action = "";
        },
      )

  unfoldable pub reset : Tracker F → Tracker F
  unfolding new_rolling_window
  reset t = record t {
    hourly_window = new_rolling_window F hour minute;
    daily_window = new_rolling_window F (24 * hour) hour;
  }
