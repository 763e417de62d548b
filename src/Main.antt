-- ===== src/Main.antt =====
-- cmd/resillm/main.go: what the command prints and exits with. The flags, loading the configuration
-- and how the server ends are arguments; logging and the signals are left out.
pub mod Validated
mod Tests
use Prim.Native.String.{◌++◌}
use resillm.Common.{
  ℕ, String, Bool, true, false, Option, none, some, List, [], ◌∷◌, ◌++◌ as append, if◌then◌else◌,
  length, pos, FloatOps, Map, keys, map, ◌⊎◌, inl, inr,
}
use resillm.Config.{Config, ModelConfig}
use resillm.Config.Check.{ConfigError}
use resillm.Metrics.Classify.{decimal}
use resillm.Providers.{OpenAi}
use resillm.Server.Start.{Installation, new_server}

-- The status that the process exits with, and its lines of output.
pub record Exit : Type 0 where
  pub status : ℕ
  pub output : List String

abbrev pub failed : Exit
failed = record { status = 1; output = [] }

unfoldable pub format_enabled : Bool → String
format_enabled true = "enabled"
format_enabled false = "disabled"

module _ {F : FloatOps} where
  model_line : String × ModelConfig F → String
  model_line (name, model) =
      "                - "
      ++ (name
          ++ (" (primary: " ++ (model.primary.provider ++ ("/" ++ (model.primary.model ++ ")")))))

  -- What is printed of a valid configuration; `dollars` is `%.2f`.
  unfoldable pub summary : (F.Float → String) → String → Config F → List String
  unfolding format_enabled model_line
  summary dollars path cfg =
      append
        ("Configuration valid!"
          ∷ ""
          ∷ ("  Config file:  " ++ path)
          ∷ ("  Server:       " ++ (cfg.server.host ++ (":" ++ decimal cfg.server.port)))
          ∷ ("  Metrics port: " ++ decimal cfg.server.metrics_port)
          ∷ ("  Providers:    " ++ (decimal (pos (length cfg.providers)) ++ " configured"))
          ∷ map (λ name. "                - " ++ name) (keys cfg.providers))
        (append
          (("  Models:       " ++ (decimal (pos (length cfg.models)) ++ " configured"))
            ∷ map model_line cfg.models)
          (append
            (("  Budget:       " ++ format_enabled cfg.budget.enabled)
              ∷ (if cfg.budget.enabled
                  then ("                - Max/hour: $" ++ dollars cfg.budget.max_cost_per_hour)
                    ∷ ("                - Max/day:  $" ++ dollars cfg.budget.max_cost_per_day)
                    ∷ []
                  else []))
            (("  Metrics:      " ++ format_enabled cfg.metrics.enabled)
              ∷ ("  Rate limit:   " ++ format_enabled cfg.server.rate_limit.enabled)
              ∷ ("  Load shedding: " ++ format_enabled cfg.server.load_shedding.enabled)
              ∷ [])))

module _ {F : FloatOps} {B E R W S : Type 0} (api : OpenAi F R W S) (dollars : F.Float → String)
    (run : Installation F B W S → Option E) (now : ℕ) (world : W) where
  -- Once the configuration is loaded; `run` is the error of Run.
  serve : Config F → Exit
  serve cfg = elim (new_server api cfg now world) [
    | inr e ↦ failed
    | inl server ↦ elim (run server) [ some e ↦ failed | none ↦ record { status = 0; output = [] } ]
  ]

  -- By the flags `-validate` and `-config`, and what Load gives.
  unfoldable pub main : Bool → String → Config F ⊎ ConfigError → Exit
  unfolding serve summary
  main validate_only path (inr e) = failed
  main true path (inl cfg) = record { status = 0; output = summary dollars path cfg }
  main false path (inl cfg) = serve cfg
