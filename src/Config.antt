-- ===== src/Config.antt =====
-- internal/config/config.go: the configuration's structs. A Duration is a number of nanoseconds,
-- a float64 a value of the interface `FloatOps`, a pointer that may be nil an `Option`.
pub mod Vars
pub mod Defaults
pub mod Check
pub mod Loaded
pub mod Accepted
pub mod Tests
use resillm.Common.{String, Bool, Option, List, Map, ℤ, FloatOps}

pub record RateLimitConfig (F : FloatOps) : Type 0 where
  pub enabled : Bool
  pub requests_per_second : F.Float
  pub burst : ℤ

pub record LoadSheddingConfig : Type 0 where
  pub enabled : Bool
  pub max_active_requests : ℤ
  pub max_connections_per_ip : ℤ

pub record ServerConfig (F : FloatOps) : Type 0 where
  pub host : String
  pub port : ℤ
  pub metrics_port : ℤ
  pub admin_api_key : String
  pub rate_limit : RateLimitConfig F
  pub load_shedding : LoadSheddingConfig

pub record ProviderConfig : Type 0 where
  pub api_key : String
  pub base_url : String
  pub api_version : String
  pub region : String
  pub timeout : ℤ
  pub max_tokens_default : ℤ
  pub stream_buffer_size : ℤ

pub record EndpointConfig : Type 0 where
  pub provider : String
  pub model : String
  pub weight : ℤ

pub record RetryConfig (F : FloatOps) : Type 0 where
  pub max_attempts : ℤ
  pub initial_backoff : ℤ
  pub max_backoff : ℤ
  pub backoff_multiplier : F.Float
  pub retryable_errors : List ℤ

pub record CircuitBreakerConfig : Type 0 where
  pub failure_threshold : ℤ
  pub success_threshold : ℤ
  pub timeout : ℤ
  pub half_open_max_requests : ℤ

pub record TimeoutConfig : Type 0 where
  pub connect : ℤ
  pub request : ℤ

pub record ResilienceConfig (F : FloatOps) : Type 0 where
  pub retry : RetryConfig F
  pub circuit_breaker : CircuitBreakerConfig
  pub timeout : TimeoutConfig

pub record ModelConfig (F : FloatOps) : Type 0 where
  pub primary : EndpointConfig
  pub fallbacks : List EndpointConfig
  pub resilience : Option (ResilienceConfig F)

pub record BudgetConfig (F : FloatOps) : Type 0 where
  pub enabled : Bool
  pub max_cost_per_hour : F.Float
  pub max_cost_per_day : F.Float
  pub alert_threshold : F.Float
  pub action_on_exceeded : String

pub record PrometheusConfig : Type 0 where
  pub enabled : Bool
  pub path : String

pub record MetricsConfig : Type 0 where
  pub enabled : Bool
  pub prometheus : PrometheusConfig

pub record LoggingConfig : Type 0 where
  pub level : String
  pub format : String
  pub log_requests : Bool
  pub log_responses : Bool

pub record Config (F : FloatOps) : Type 0 where
  pub server : ServerConfig F
  pub providers : Map ProviderConfig
  pub models : Map (ModelConfig F)
  pub resilience : ResilienceConfig F
  pub budget : BudgetConfig F
  pub metrics : MetricsConfig
  pub logging : LoggingConfig
