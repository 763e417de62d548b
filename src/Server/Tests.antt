-- ===== src/Server/Tests.antt =====
-- internal/server/handlers.go: requests to the installation of the router's tests, with a budget.
use resillm.Common.{
  ℕ, ◌≡◌, ◌↔◌, refl, String, true, false, none, some, [], ◌∷◌, pos, fixed, lookup, insert, modify,
  add_int,
}
use resillm.Api.{ChatRequest, ExecutionMeta}
use resillm.Budget.{Tracker, new_tracker, record_cost, check}
use resillm.Budget.Tests.{limits}
use resillm.Circuit
use resillm.Circuit.{closed, allow}
use resillm.Retry.{execute_with_result, is_retryable, calculate_backoff}
use resillm.Semaphore.{acquire, release, get}
use resillm.Router.{execute_chat, find_model}
use resillm.Router.Tests.{runtime, router, shared, answer}
use resillm.Server.{
  Server, chat_reply, error_reply, of_request, invalid_role, handle_chat, validate_request,
}
use resillm.Server.Requests.{IsRequest, validate_request_iff}
use resillm.Server.Handled.{Refused, Charged, over_budget-Refused, completion-Charged}

abbrev pub question : String → ChatRequest fixed
question role = record {
  model = "gpt";
  messages = record { role = role; content = "hi" } ∷ [];
  max_tokens = pos 100;
  temperature = pos 0;
  top_p = pos 0;
  stream = false;
}

-- The budget's clock is far past the last cost, or at it.
abbrev server : Tracker fixed → Server fixed ℕ
server t = record { budget = some t; shared = shared closed }

bad_role :
    (handle_chat (runtime false) router (question "robot") (server (new_tracker limits))).0
    ≡ error_reply 400 "invalid_request" (of_request (invalid_role 0 "robot"))
unfolding handle_chat validate_request
bad_role = refl

validate_request_iff_example :
    (validate_request (question "user") ≡ none) ↔ IsRequest fixed (question "user")
validate_request_iff_example = validate_request_iff fixed (question "user")

-- Ten dollars were spent at the time of the request.
abbrev used_up : Tracker fixed
used_up = record_cost 900 (pos 10_000_000) (new_tracker limits)

over_budget-Refused_example :
    let (reply, s) = handle_chat (runtime false) router (question "user") (server used_up) in
    Refused (runtime false) router (question "user") reply × (s.shared ≡ shared closed)
unfolding check record_cost new_tracker
over_budget-Refused_example =
    over_budget-Refused (runtime false) router (question "user") (server used_up) used_up refl refl

abbrev facts : ExecutionMeta fixed
facts = record {
  provider = "anthropic";
  actual_model = "claude-3-5-sonnet";
  retries = pos 1;
  fallback = true;
  cost = pos 42;
}

completes :
    (handle_chat (runtime false) router (question "user") (server (new_tracker limits))).0
    ≡ chat_reply answer facts none
unfolding handle_chat validate_request check new_tracker execute_chat find_model lookup insert
    modify add_int allow Circuit.record_success Circuit.record_failure execute_with_result
    is_retryable calculate_backoff acquire release get
completes = refl

completion-Charged_example :
    let (t, result) = check 1000 1000 (pos 0) (new_tracker limits) in
    let (reply, after) = execute_chat (runtime false) router (question "user") (shared closed) in
    (result.allowed ≡ true)
    × Charged
        (runtime false)
        router
        (question "user")
        t
        answer
        facts
        reply
        after
        (handle_chat (runtime false) router (question "user") (server (new_tracker limits))).1
completion-Charged_example =
    completion-Charged (runtime false) router (question "user") none (server (new_tracker limits))
      (new_tracker limits) answer facts refl completes
