-- ===== src/Server/Status.antt =====
-- internal/server/handlers.go: the handlers that report a state, the one that reloads the
-- configuration, and the two that are not implemented. A reply is a status and what is encoded.
pub mod Health
mod Tests
use mathlib.Core.Option
use resillm.Common.{
  ℕ, String, str_eq, Bool, true, false, ◌||◌, Option, none, some, List, [], ◌∷◌, if◌then◌else◌, ℤ,
  pos, FloatOps, Map, keys, map, ◌⊎◌,
}
use resillm.Config.{Config}
use resillm.Config.Check.{ConfigError}
use resillm.Budget.{Tracker, status}
use resillm.Router.Status.{ProviderStatus}
use resillm.Server.Start.{
  Installation, Reloaded, reloaded, load_failed, no_config_path, reload_config,
}

-- `circuit` of a provider that may be called.
unfoldable pub is_usable : String → Bool
is_usable circuit = str_eq circuit "closed" || (str_eq circuit "half-open" || str_eq circuit "")

pub record HealthReply (F : FloatOps) : Type 0 where
  pub status : String
  pub uptime : ℤ
  pub providers : List (ProviderStatus F)

pub record ModelInfo : Type 0 where
  pub id : String
  pub object : String
  pub created : ℕ
  pub owned_by : String

-- One window's part of the budget's reply; without a tracker there is no `percent`.
pub record Spending (F : FloatOps) : Type 0 where
  pub spent : F.Float
  pub limit : F.Float
  pub remaining : F.Float
  pub percent : Option F.Float

pub record BudgetReply (F : FloatOps) : Type 0 where
  pub enabled : Bool
  pub current_hour : Spending F
  pub current_day : Spending F
  -- `alert_triggered` and `action_on_exceeded`.
  pub alert : Option (Bool × String)

pub data ReloadReply : Type 0 where
  -- Status 200.
  reload_done : ReloadReply
  -- Status 500 with the error's text.
  reload_failed : Reloaded → ReloadReply

-- The status, the type and the message of the error.
unfoldable pub handle_completions : ℤ × String × String
handle_completions = (pos 501, "not_implemented", "Legacy completions API not yet supported")

unfoldable pub handle_embeddings : ℤ × String × String
handle_embeddings = (pos 501, "not_implemented", "Embeddings API not yet supported")

reload_reply : Reloaded → ReloadReply
reload_reply reloaded = reload_done
reload_reply r = reload_failed r

module _ {F : FloatOps} where
  -- The loop that looks for a usable provider.
  unfoldable pub all_circuits_open : List (ProviderStatus F) → Bool
  unfolding is_usable
  all_circuits_open [] = true
  all_circuits_open (p ∷ ps) =
      let rest = all_circuits_open ps in if is_usable p.circuit then false else rest

  abbrev pub is_nil : List (ProviderStatus F) → Bool
  is_nil [] = true
  is_nil (p ∷ ps) = false

  -- With the time since the start.
  unfoldable pub handle_health : ℤ → List (ProviderStatus F) → ℤ × HealthReply F
  unfolding all_circuits_open
  handle_health uptime providers =
      if (if all_circuits_open providers then (if is_nil providers then false else true) else false)
      then (pos 503, record { status = "degraded"; uptime = uptime; providers = providers })
      else (pos 200, record { status = "healthy"; uptime = uptime; providers = providers })

  -- The kind of the reply, and a model for each name, in an order of the map.
  unfoldable pub handle_models : ℕ → Config F → String × List ModelInfo
  handle_models start cfg = (
    "list",
    map (λ name. record { id = name; object = "model"; created = start; owned_by = "resillm" })
        (keys cfg.models),
  )

  unfoldable pub handle_budget :
      ℕ → ℕ → Config F → Option (Tracker F) → Option (Tracker F) × BudgetReply F
  unfolding status
  handle_budget now later cfg none = (
    none,
    record {
      enabled = false;
      current_hour = record {
        spent = F.of_int (pos 0);
        limit = cfg.budget.max_cost_per_hour;
        remaining = cfg.budget.max_cost_per_hour;
        percent = none;
      };
      current_day = record {
        spent = F.of_int (pos 0);
        limit = cfg.budget.max_cost_per_day;
        remaining = cfg.budget.max_cost_per_day;
        percent = none;
      };
      alert = none;
    },
  )
  handle_budget now later cfg (some t) =
      let (t', st) = status now later t in
      (
        some t',
        record {
          enabled = cfg.budget.enabled;
          current_hour = record {
            spent = st.hourly_spent;
            limit = st.hourly_limit;
            remaining = st.hourly_remaining;
            percent = some st.hourly_percent;
          };
          current_day = record {
            spent = st.daily_spent;
            limit = st.daily_limit;
            remaining = st.daily_remaining;
            percent = some st.daily_percent;
          };
          alert = some (st.alert_triggered, cfg.budget.action_on_exceeded);
        },
      )

  unfoldable pub handle_reload :
      {B W S : Type 0}
      → Config F ⊎ ConfigError
      → Installation F B W S
      → ReloadReply × Installation F B W S
  unfolding reload_reply
  handle_reload loaded s = let (r, s') = reload_config loaded s in (reload_reply r, s')
