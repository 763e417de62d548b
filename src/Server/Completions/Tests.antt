-- ===== src/Server/Completions/Tests.antt =====
-- internal/server/handlers.go: ids, and requests to the installation of the router's tests.
use resillm.Metrics.Classify.{decimal}
use resillm.Common.{
  ℕ, ℤ, str_eq, if◌then◌else◌, ◌≡◌, refl, String, true, false, none, some, [], ◌∷◌, fixed, lookup,
  ◌⊎◌, inl, inr,
}
use resillm.Api.{ChatRequest}
use resillm.Semaphore.Slots.{no_slot}
use resillm.Router.Slots.{Moves}
use resillm.Router.Tests.{runtime, router, shared, ready}
use resillm.Circuit.{closed, allow}
use resillm.Router.{find_model, check_breaker, take_slot, breaker_success}
use resillm.Router.Stream.{execute_chat_stream}
use resillm.Semaphore.{acquire, get}
use resillm.Server.{Server, error_reply, text, validate_request}
use resillm.Server.Tests.{question}
use resillm.Server.Streaming.Tests.{chunks, result, meta, after}
use resillm.Server.Streaming.{streamed, with_meta, event_headers, data_event, done_event, clean_up}
use resillm.Server.Completions.{
  Incoming, Body, too_large, read_all, answered, streaming, generate_request_id, request_id_of,
  handle_chat_completions,
}
use resillm.Server.Completions.Slots.{no_request, request, Requests-Stays}

random_id : generate_request_id 0 (some (0 ∷ 171 ∷ 255 ∷ [])) ≡ "req-00abff"
unfolding generate_request_id decimal
random_id = refl

timed_id : generate_request_id 62_135_596_800_000_000_042 none ≡ "req-42"
unfolding generate_request_id decimal
timed_id = refl

abbrev incoming : Body → Incoming
incoming body = record {
  body = body;
  headers = ("X-Request-Id", "mine") ∷ [];
  is_flusher = true;
  random = none;
}

keeps_id : request_id_of 0 (incoming too_large) ≡ "mine"
unfolding request_id_of lookup
keeps_id = refl

-- The one body that is parsed is "{}".
abbrev decode : String → ChatRequest fixed ⊎ String
decode body =
    if str_eq body "{}"
    then inl (record (question "user") { stream = true })
    else inr "unexpected end of JSON input"

abbrev format_cost : ℤ → String
format_cost cost = "0"

abbrev start : Server fixed ℕ
start = record { budget = none; shared = shared closed }

abbrev end : Server fixed ℕ
end = record start {
  shared = clean_up (runtime false) router chunks result (record after { world = 3 });
}

too_much :
    handle_chat_completions
      (runtime false)
      router
      chunks
      format_cost
      decode
      2
      (incoming too_large)
      start
    ≡ some (
      answered (("Content-Type", "application/json") ∷ []) (
          error_reply 413 "request_too_large"
            (text "Request body exceeds maximum size of 5242880 bytes")),
      start,
    )
unfolding handle_chat_completions decimal
too_much = refl

streams :
    handle_chat_completions
      (runtime false)
      router
      chunks
      format_cost
      decode
      2
      (incoming (read_all "{}"))
      start
    ≡ some (
      streaming none (
          streamed
            (with_meta (runtime false) router chunks meta (event_headers "mine"))
            (data_event "{}" ∷ done_event ∷ [])),
      end,
    )
unfolding handle_chat_completions validate_request execute_chat_stream find_model lookup
    check_breaker allow take_slot acquire get breaker_success
streams = refl

Requests-Stays_example : Moves no_slot (shared closed) end.shared
Requests-Stays_example = Requests-Stays (runtime false) router chunks format_cost decode ready (
    request 2 (incoming (read_all "{}")) _ (request 2 (incoming too_large) _ no_request too_much)
      streams)
