-- ===== src/Budget/Decision.antt =====
-- internal/budget/tracker.go: what `Check` decides, on every branch.
use resillm.Common.{ℕ, ◌≡◌, ◌⊎◌, ◌↔◌, true, false, str_eq, FloatOps, pos, arith, eq_iff}
use resillm.Budget.{Tracker, sum, check}

module _ (F : FloatOps) where
  -- What the two windows hold at the times of the check.
  abbrev pub hourly_spent : ℕ → Tracker F → F.Float
  hourly_spent now t = (sum now t.hourly_window).1

  abbrev pub daily_spent : ℕ → Tracker F → F.Float
  daily_spent later t = (sum later t.daily_window).1

  -- There is a limit, a positive one, and what is spent with the estimate is at least the limit.
  abbrev pub Reaches : F.Float → F.Float → F.Float → Type 0
  Reaches spent estimated limit =
      (F.lt (F.of_int (pos 0)) limit ≡ true) × (F.le limit (F.add spent estimated) ≡ true)

  -- The request would reach the limit of the hour, or that of the day.
  abbrev pub WouldReach : ℕ → ℕ → F.Float → Tracker F → Type 0
  WouldReach now later estimated t =
      Reaches (hourly_spent now t) estimated t.cfg.max_cost_per_hour
      ⊎ Reaches (daily_spent later t) estimated t.cfg.max_cost_per_day

  -- `Check` turns a request away exactly when budgets are enabled, the action is `reject`, and the
  -- request would reach a positive limit of the hour or of the day.
  pub rejects_iff :
      (now later : ℕ) (estimated : F.Float) (t : Tracker F)
      → ((check now later estimated t).1.allowed ≡ false) ↔ (
          (t.cfg.enabled ≡ true)
          × (t.cfg.action_on_exceeded ≡ "reject")
          × WouldReach now later estimated t)
  unfolding check
  rejects_iff now later estimated t = (
    λ h. ground (arith, eq_iff t.cfg.action_on_exceeded "reject"),
    λ h. ground (arith, eq_iff t.cfg.action_on_exceeded "reject"),
  )

  -- The request passes with a warning exactly when budgets are enabled, it would reach a limit, and
  -- the action is any but `reject`.
  warns_iff :
      (now later : ℕ) (estimated : F.Float) (t : Tracker F)
      → ((check now later estimated t).1.warning ≡ true) ↔ (
          (t.cfg.enabled ≡ true)
          × (str_eq t.cfg.action_on_exceeded "reject" ≡ false)
          × WouldReach now later estimated t)
  unfolding check
  warns_iff now later estimated t = (λ h. ground arith, λ h. ground arith)
