-- ===== src/Server/Streaming/Tests.antt =====
-- internal/server/handlers.go: streams from the installation of the router's tests.
use resillm.Common.{
  ℕ, ◌+◌, suc, ◌≡◌, ◌==◌, refl, String, true, false, none, some, [], ◌∷◌, ◌++◌, map, if◌then◌else◌,
  lookup, insert, modify, arith, fixed, pos,
}
use resillm.Api.{ExecutionMeta}
use resillm.Circuit
use resillm.Circuit.{closed, allow}
use resillm.Semaphore.{acquire, release, get}
use resillm.Router.{Shared, find_model, check_breaker, take_slot, breaker_success}
use resillm.Router.Tests.{runtime, router, shared, request, ready}
use resillm.Router.Stream.{StreamResult, execute_chat_stream}
use resillm.Server.Streaming.{
  chunk, end_of_stream, ChatStream, StreamError, data_event, done_event, error_event, no_stream,
  streamed, payload, wire, clean_up, handle_streaming_chat, with_meta, event_headers,
}
use resillm.Server.Streaming.Copy.{
  Plays, IsServed, handle_streaming_chat-Plays, handle_streaming_chat-IsServed,
}
use resillm.Server.Streaming.Wire.{read_events, read_events-wire}

-- One chunk, then the end.
abbrev pub chunks : ChatStream ℕ ℕ String
chunks = record {
  recv = λ stream w. (if w == 1 then chunk "{}" else end_of_stream, suc w);
  close = λ stream w. w + 100;
  marshal = λ c. some c;
}

abbrev pub result : StreamResult ℕ
result = record { stream = 1; sem = "openai"; provider = "openai" }

abbrev pub meta : ExecutionMeta fixed
meta = record {
  provider = "openai";
  actual_model = "gpt-4o";
  retries = pos 0;
  fallback = false;
  cost = pos 0;
}

opened :
    (execute_chat_stream (runtime false) router (request "gpt") (shared closed)).0
    ≡ record { response = some result; meta = some meta; error = none }
unfolding execute_chat_stream lookup insert modify allow Circuit.record_success acquire release get
    find_model check_breaker take_slot breaker_success
opened = refl

abbrev pub after : Shared fixed ℕ
after = (execute_chat_stream (runtime false) router (request "gpt") (shared closed)).1

plays : Plays (runtime false) router chunks 1 after.world ("{}" ∷ []) (done_event ∷ []) 3
unfolding execute_chat_stream lookup insert modify allow Circuit.record_success acquire release get
    find_model check_breaker take_slot breaker_success
plays = Plays.sends "{}" "{}" refl refl refl (Plays.finished refl refl)

handle_streaming_chat-Plays_example :
    handle_streaming_chat
      (runtime false)
      router
      chunks
      2
      true
      "req-1"
      (request "gpt")
      (shared closed)
    ≡ some (
      streamed
          (with_meta (runtime false) router chunks meta (event_headers "req-1"))
          (map data_event ("{}" ∷ []) ++ (done_event ∷ [])),
      clean_up (runtime false) router chunks result (record after { world = 3 }),
    )
handle_streaming_chat-Plays_example =
    handle_streaming_chat-Plays (runtime false) router chunks 2 "req-1" (request "gpt")
      (shared closed) after result meta ("{}" ∷ []) (done_event ∷ []) 3 (λ i. (opened i, after))
      plays (omega arith)

handle_streaming_chat-IsServed_example : IsServed (runtime false) router chunks (shared closed) (
  streamed
      (with_meta (runtime false) router chunks meta (event_headers "req-1"))
      (map data_event ("{}" ∷ []) ++ (done_event ∷ [])),
  clean_up (runtime false) router chunks result (record after { world = 3 }),
)
handle_streaming_chat-IsServed_example =
    handle_streaming_chat-IsServed (runtime false) router chunks 2 true "req-1" (request "gpt")
      (shared closed)
      (
        streamed (with_meta (runtime false) router chunks meta (event_headers "req-1"))
            (map data_event ("{}" ∷ []) ++ (done_event ∷ [])),
        clean_up (runtime false) router chunks result (record after { world = 3 }),
      )
      ready
      (handle_streaming_chat-Plays (runtime false) router chunks 2 "req-1" (request "gpt")
        (shared closed) after result meta ("{}" ∷ []) (done_event ∷ []) 3 (λ i. (opened i, after))
        plays (omega arith))

abbrev json : StreamError → String
json e = "{\"error\":{\"message\":\"failed\"}}"

read_events-wire_example :
    read_events (wire json (data_event "{}" ∷ error_event no_stream ∷ done_event ∷ []))
    ≡ map (payload json) (data_event "{}" ∷ error_event no_stream ∷ done_event ∷ [])
unfolding payload
read_events-wire_example =
    read_events-wire json (data_event "{}" ∷ error_event no_stream ∷ done_event ∷ []) (ground arith)
