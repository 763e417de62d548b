-- ===== src/Router/Tests.antt =====
-- internal/router/router.go: a small installation, runs of it, and the theorems there.
use resillm.Common.{
  ℕ, suc, ◌+◌, ◌≡◌, refl, ◌⊎◌, inl, String, Bool, true, false, none, some, [], ◌∷◌, arith,
  if◌then◌else◌, lookup, insert, pos, fixed, modify, add_int,
}
use resillm.Config.{EndpointConfig, ModelConfig}
use resillm.Errors.{Error, provider_error, context_canceled, Result, ok, err}
use resillm.Api.{ChatRequest, ChatResponse}
use resillm.Circuit.{CircuitBreaker, State, closed, opened, half_open, allow}
use resillm.Circuit
use resillm.Retry.{execute_with_result, is_retryable, calculate_backoff}
use resillm.Semaphore.{acquire, release, get}
use resillm.Semaphore.Registry.{IsReady}
use resillm.Router.{Provider, Runtime, Router, Shared, unknown_model, execute_chat, find_model}
use resillm.Router.Slots.{Moves, execute_chat-Kept}
use resillm.Semaphore.Slots.{no_slot}
use resillm.Router.Served.{RepliesFrom, execute_chat-RepliesFrom}
use resillm.Router.Blocked.{Refuses}
use resillm.Router.Abandoned.{IsAbandoned, execute_all, abandoned_use_up}

-- The world counts the calls of the providers.
abbrev pub runtime : Bool → Runtime fixed ℕ
runtime done = record {
  context_error = λ w. if done then some context_canceled else none;
  now = λ w. 1000 + w;
  random = λ w. (pos 500_000, w);
  wait = λ d w. (none, w);
  prefers_done = λ w. done;
  until_done = λ w. (context_canceled, w);
}

abbrev pub answer : ChatResponse
answer = record {
  body = "hello";
  usage = record { prompt_tokens = pos 3; completion_tokens = pos 4; total_tokens = pos 7 };
}

abbrev pub down : Error
down = provider_error (record { code = pos 503; body = "down"; provider = "openai" })

abbrev pub provider : Result ChatResponse → Provider fixed ℕ ℕ
provider result = record {
  execute_chat = λ req model w. (result, suc w);
  execute_chat_stream = λ req model w. (ok 1, suc w);
  calculate_cost = λ model usage. pos 42;
}

abbrev gpt : ModelConfig fixed
gpt = record {
  primary = record { provider = "openai"; model = "gpt-4o"; weight = pos 0 };
  fallbacks = record { provider = "anthropic"; model = "claude-3-5-sonnet"; weight = pos 0 } ∷ [];
  resilience = none;
}

abbrev alone : ModelConfig fixed
alone = record gpt { fallbacks = [] }

abbrev pub router : Router fixed ℕ ℕ
router = record {
  models = ("gpt", gpt) ∷ ("alone", alone) ∷ [];
  providers = ("openai", provider (err down)) ∷ ("anthropic", provider (ok answer)) ∷ [];
  retry_config = record {
    max_attempts = pos 2;
    initial_backoff = pos 100;
    max_backoff = pos 1000;
    backoff_multiplier = pos 2_000_000;
    retryable_errors = [];
  };
}

abbrev pub breaker : State → CircuitBreaker
breaker state = record {
  name = "openai";
  state = state;
  config = record {
    failure_threshold = pos 5;
    success_threshold = pos 2;
    timeout = pos 500;
    half_open_max_requests = pos 2;
  };
  metrics = none;
  failure_count = pos 0;
  success_count = pos 0;
  half_open_requests = pos 0;
  last_failure_time = 900;
  last_state_change = 900;
}

abbrev pub shared : State → Shared fixed ℕ
shared state = record {
  circuit_breakers = ("openai", breaker state) ∷ ("anthropic", breaker state) ∷ [];
  semaphores = record { semaphores = []; capacity = pos 5 };
  metrics = none;
  world = 0;
}

abbrev pub request : String → ChatRequest fixed
request model = record {
  model = model;
  messages = [];
  max_tokens = pos 0;
  temperature = pos 0;
  top_p = pos 0;
  stream = false;
}

-- The primary fails twice, the fallback answers.
falls_back : (execute_chat (runtime false) router (request "gpt") (shared closed)).0 ≡ record {
  response = some answer;
  meta = some (record {
    provider = "anthropic";
    actual_model = "claude-3-5-sonnet";
    retries = pos 1;
    fallback = true;
    cost = pos 42;
  });
  error = none;
}
unfolding execute_chat lookup insert modify add_int allow Circuit.record_success
    Circuit.record_failure execute_with_result is_retryable calculate_backoff acquire release get
falls_back = refl

execute_chat-RepliesFrom_example :
    ((find_model (runtime false) router "gpt" ≡ none)
      × (execute_chat (runtime false) router (request "gpt") (shared closed) ≡ (
        record { response = none; meta = none; error = some (unknown_model "gpt") },
        shared closed,
      )))
    ⊎ ((m : ModelConfig fixed) × (find_model (runtime false) router "gpt" ≡ some m)
        × RepliesFrom
            (runtime false)
            router
            (request "gpt")
            (m.primary ∷ m.fallbacks)
            0
            (execute_chat (runtime false) router (request "gpt") (shared closed)).0)
execute_chat-RepliesFrom_example =
    execute_chat-RepliesFrom (runtime false) router (request "gpt") (shared closed)

pub ready : IsReady (record { semaphores = []; capacity = pos 5 })
unfolding lookup
ready = record { in_range = omega arith; each = λ name s e. cc }

execute_chat-Kept_example :
    Moves no_slot
      (shared closed)
      (execute_chat (runtime false) router (request "gpt") (shared closed)).1
execute_chat-Kept_example =
    execute_chat-Kept (runtime false) router (request "gpt") (shared closed) ready

refuses :
    (e : EndpointConfig)
    → lookup e.provider (shared opened).circuit_breakers ≡ some (breaker opened)
    → Refuses (runtime false) router (request "gpt") (shared opened) e
refuses e found = record {
  breaker = breaker opened;
  found = found;
  blocked = inl (refl, omega arith);
}

abbrev gone : Runtime fixed ℕ × ChatRequest fixed
gone = (runtime true, request "alone")

gone-IsAbandoned : IsAbandoned router "openai" gone
unfolding find_model lookup
gone-IsAbandoned = (alone, refl, refl, refl, λ w. (context_canceled, refl), λ w. refl)

abandoned_use_up_example :
    (used : CircuitBreaker) × (lookup "openai"
        (execute_all router (gone ∷ gone ∷ []) (shared half_open)).circuit_breakers
      ≡ some used)
    × (used.state ≡ half_open)
    × (allow 5000 used ≡ (used, false))
unfolding lookup
abandoned_use_up_example =
    abandoned_use_up router 2 0 5000 "openai" (breaker half_open) (gone ∷ gone ∷ [])
      (shared half_open) refl (ground arith) (omega arith)
      (gone-IsAbandoned, (gone-IsAbandoned, tt))
