-- ===== src/Lib.antt =====
-- A verification library for resillm, a proxy between clients and LLM providers.
--
-- The parts of the program and how they meet. A request enters through the HTTP handlers
-- (internal/server) behind the rate limiter and the load shedder; they check the request and the
-- budget (internal/budget/tracker.go), and ask the router (internal/router/router.go) to execute
-- it, whose cost goes back to the budget. The router walks the endpoints of the request's model.
-- For each it asks the provider's circuit breaker (internal/resilience/circuitbreaker.go), takes a
-- slot of the provider's semaphore (internal/providers/semaphore.go), and calls the provider under
-- the retrier (internal/resilience/retry.go). The result goes back to the breaker, and the slot is
-- given back.
--
-- The files.
-- Common: what the others share. Common/Ints: int64 with its wrap-around. Common/Maps: Go maps as
--   association lists, with Common/Sizes. Common/Floats: float64 as an interface. Common/Fixed: an instance of it, for
--   runs of the model.
-- Config: the structs of internal/config/config.go. Config/Vars: expandEnvVars and its pattern.
--   Config/Defaults: applyDefaults. Config/Check: validateNoUnexpandedVars, validate and Load, of which
--   Config/Loaded and Config/Accepted prove. Config/Vars/Expanded: a whole text expanded.
-- Api: what is read of the OpenAI library's requests and responses, and internal/types/types.go.
-- Errors: error values, with ProviderError of internal/providers/provider.go.
-- Circuit: internal/resilience/circuitbreaker.go. `allow` is Allow, in its two locked parts `peek`
--   and `admit`; `record_success`, `record_failure`, `transition_to`, `update_config`, `stats` are
--   the methods of those names. Circuit/Invariant has the interleavings, Circuit/Count the closed
--   state, Circuit/Traffic the requests that pass, Circuit/Recovery the way back to closed.
-- Retry: internal/resilience/retry.go. `execute_with_result` and `execute` are the two loops, on the
--   rounds that are left, so that no fuel is needed; `is_retryable` and `calculate_backoff` are the
--   methods of those names.
-- Semaphore: internal/providers/semaphore.go. `acquire`, `try_acquire`, `release` and `get`; their
--   channel operation and counter are steps of their own in Semaphore/Balance.
-- Budget: internal/budget/tracker.go. `check`, `record_cost`, `status` and `reset` are the tracker's
--   methods, `add`, `sum`, `count` and `clean_expired` the rolling window's. Budget/Window compares a
--   window with the additions it stands for, Budget/Decision has the check.
-- LoadShed: internal/server/loadshed.go. `middleware` and its parts, `track_connection`,
--   `release_connection`, `conn_state_handler`, and `cleanup` for a tick of cleanupLoop.
--   LoadShed/Requests has the overlapping requests, LoadShed/Connections the addresses.
-- RateLimit: internal/server/ratelimit.go. `get_limiter`, `allow`, `cleanup` and `stats`; the token
--   bucket (golang.org/x/time/rate) and the hash are parameters. RateLimit/Shards: the table of shards
--   as a map; RateLimit/Entries: each address's bucket; RateLimit/Counted: the count of entries.
-- Router: internal/router/router.go. `execute_chat` is ExecuteChat, with a function for each part of
--   the loop's body. Router/Slots, Router/Served, Router/Blocked and Router/Abandoned prove.
--   Router/Stream: ExecuteChatStream, New, UpdateModels and UpdateRetryConfig.
--   Router/Status: GetProviderStatus.
-- Server: internal/server/handlers.go, validateRequest and handleChatCompletions from the parsed body
--   to the router's answer. Server/Requests: the validation; Server/Handled: the budget before and after
--   a request. Server/Completions: the whole of handleChatCompletions, with the body, the request's
--   id, the headers and the way to the stream; Server/Completions/Slots: any sequence of requests.
--   Server/Streaming: handleStreamingChat and its events, of which Server/Streaming/Copy and
--   Server/Streaming/Wire prove. Server/Sanitize: sanitizeError, with Server/Sanitize/Clean.
--   Server/Address: getClientIP of internal/server/server.go. Server/Middleware: its middleware and
--   their order; Server/Middleware/Routes: the patterns of NewWithPath and what net/http makes of them;
--   Server/Middleware/Admin and Server/Middleware/Counted prove.
--   Server/Start: New, NewWithPath and ReloadConfig, with Server/Start/Wired.
--   Server/Run: Run, with Server/Run/Shutdown.
--   Server/Status: the handlers of the health check, the models, the budget and the reload, with
--   Server/Status/Health.
-- Providers: internal/providers/goopenai.go and the registry of internal/providers/provider.go;
--   Providers/Configured proves.
-- Reload: internal/config/watcher.go, Diff and modelsEqual, and internal/server/server.go, applyConfig;
--   Reload/Applied: what a reload reaches and what it misses.
-- Watcher: internal/config/watcher.go, the Watcher: its methods and, for the loop of watch, a function
--   for each case. Watcher/Runs: their steps in any order; Watcher/Debounced, Watcher/Launched
--   and Watcher/Stopped prove.
-- Metrics: internal/metrics/collector.go, the recording methods under their names, as changes to the
--   vectors. Metrics/Calls: any sequence of them. Metrics/Classify and Metrics/Occurs: classifyError,
--   contains and classifyHTTPStatus. Metrics/Latency: RecordLatency and GetLatencyP99, of which
--   Metrics/Latency/Window, Sorted and Percentile prove.
-- Main: cmd/resillm/main.go, main and formatEnabled; Main/Validated: what -validate does not see.
-- Pricing: internal/pricing/calculator.go, under the methods' names.
--
-- What is a parameter: the context, the clock, timers and random numbers (an environment over a state
-- of the world), the go-openai client (the router is proved for any providers), float64, the token bucket and the hash
-- of the rate limiter, fsnotify, the YAML parser, the environment's variables, and net.SplitHostPort. Times are
-- nanoseconds after Go's zero time, and a method reads the clock once, `check` and `status` of the
-- budget once for each window.
--
-- Fuel: only the loop that copies a stream takes a number of rounds, and one more than the stream has
-- chunks are enough. The retry loop recurs on the rounds that are left, all other loops on their lists
-- or texts. Numbers of callers, requests and entries are bounded by the range of an int64 where a counter
-- would wrap around.
--
-- Callers that overlap are modelled in Circuit/Invariant, Semaphore/Balance, LoadShed/Requests and Watcher/Runs;
-- elsewhere one call runs at a time. Not modelled: logging, goroutines that only call what is modelled,
-- the Prometheus client and JSON, which are input and output.
pub mod Common
pub mod Config
pub mod Circuit
pub mod Errors
pub mod Retry
pub mod Semaphore
pub mod Api
pub mod Router
pub mod Budget
pub mod LoadShed
pub mod Pricing
pub mod RateLimit
pub mod Server
pub mod Watcher
pub mod Main
pub mod Reload
pub mod Metrics
pub mod Providers
