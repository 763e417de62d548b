-- ===== src/Server/Streaming.antt =====
-- internal/server/handlers.go: handleStreamingChat, with the events it writes, and sanitizeError. The
-- stream behind the interface ChatStream and encoding/json are parameters; logging is left out.
pub mod Copy
pub mod Wire
pub mod Tests
use Prim.Native.String.{◌++◌}
use mathlib.Core.Option
use resillm.Common.{
  ℕ, zero, suc, String, Bool, true, false, Option, none, some, List, [], ◌∷◌, if◌then◌else◌,
  FloatOps, Map, insert,
}
use resillm.Api.{ChatRequest, ExecutionMeta}
use resillm.Errors.{Error}
use resillm.Router.{Runtime, Router, RouterError, Reply, Shared}
use resillm.Router.Stream.{StreamResult, execute_chat_stream, close_stream}

-- What `Recv` returns.
pub data Received (C : Type 0) : Type 0 where
  chunk : C → Received C
  end_of_stream : Received C
  broken : Error → Received C

-- The interface `ChatStream`, and the encoding of a chunk, which may fail; `S` is what a stream is.
pub record ChatStream (W S C : Type 0) : Type 0 where
  pub recv : S → W → Received C × W
  pub close : S → W → W
  pub marshal : C → Option String

pub data StreamError : Type 0 where
  -- The router's error, whose text is sent as it is.
  router_failed : RouterError → StreamError
  no_stream : StreamError
  -- The stream's error, whose text is sent with the keys in it made unreadable.
  stream_failed : Error → StreamError
  not_encoded : StreamError

-- What is written and flushed at once: a chunk's encoding, writeSSEError, writeSSEDone.
pub data Event : Type 0 where
  data_event : String → Event
  error_event : StreamError → Event
  done_event : Event

pub data StreamReply : Type 0 where
  -- Status 500: the connection cannot be flushed.
  not_supported : StreamReply
  -- The headers that the handler sets, and what it writes.
  streamed : Map String → List Event → StreamReply
  -- The handler reads the metadata through a nil pointer.
  nil_dereference : StreamReply

-- `error_json` is the encoding of writeSSEError's map.
unfoldable pub payload : (StreamError → String) → Event → String
payload error_json (data_event text) = text
payload error_json (error_event e) = error_json e
payload error_json done_event = "[DONE]"

-- One event on the wire.
unfoldable pub event_text : String → String
event_text text = "data: " ++ (text ++ "\n\n")

unfoldable pub wire : (StreamError → String) → List Event → String
unfolding payload event_text
wire error_json [] = ""
wire error_json (x ∷ xs) = event_text (payload error_json x) ++ wire error_json xs

abbrev pub event_headers : String → Map String
event_headers request_id =
    ("Content-Type", "text/event-stream")
    ∷ ("Cache-Control", "no-cache")
    ∷ ("Connection", "keep-alive")
    ∷ ("X-Request-ID", request_id)
    ∷ []

unfoldable pub format_bool : Bool → String
format_bool true = "true"
format_bool false = "false"

abbrev pub failure : StreamError → List Event
failure e = error_event e ∷ done_event ∷ []

module _ {F : FloatOps} {W S C : Type 0} (rt : Runtime F W) (r : Router F W S)
    (cs : ChatStream W S C) where
  abbrev pub first_event : Event → Option (List Event × W) → Option (List Event × W)
  first_event x none = none
  first_event x (some (xs, w)) = some (x ∷ xs, w)

  -- What follows a `Recv`; `rest` is the loop's next round.
  after_recv : (W → Option (List Event × W)) → Received C × W → Option (List Event × W)
  after_recv rest (end_of_stream, w) = some (done_event ∷ [], w)
  after_recv rest (broken e, w) = some (failure (stream_failed e), w)
  after_recv rest (chunk c, w) = elim (cs.marshal c) [
    | none ↦ some (failure not_encoded, w)
    | some text ↦ first_event (data_event text) (rest w)
  ]

  -- The loop, for at most as many rounds as the number says; `none` where they are used up.
  unfoldable pub copy_stream : ℕ → S → W → Option (List Event × W)
  unfolding after_recv
  copy_stream zero stream w = none
  copy_stream (suc n) stream w = elim (rt.context_error w) [
    | some e ↦ some (done_event ∷ [], w)
    | none ↦ after_recv (λ w'. copy_stream n stream w') (cs.recv stream w)
  ]

  -- `defer`: the stream is closed and its semaphore released.
  unfoldable pub clean_up : StreamResult S → Shared F W → Shared F W
  clean_up result s =
      close_stream rt r (some result) (record s { world = cs.close result.stream s.world })

  unfoldable pub with_meta : ExecutionMeta F → Map String → Map String
  unfolding format_bool insert
  with_meta meta headers = insert "X-Resillm-Fallback" (format_bool meta.fallback) (
      insert "X-Resillm-Model" meta.actual_model
        (insert "X-Resillm-Provider" meta.provider headers))

  -- After the router's answer.
  answer_stream :
      ℕ → Map String → Reply F (StreamResult S) → Shared F W → Option (StreamReply × Shared F W)
  unfolding copy_stream clean_up with_meta
  answer_stream n headers reply s = elim reply.error [
    | some e ↦ some (streamed headers (failure (router_failed e)), s)
    | none ↦ elim reply.response [
      | none ↦ some (streamed headers (failure no_stream), s)
      | some result ↦ elim reply.meta [
        | none ↦ some (nil_dereference, clean_up result s)
        | some meta ↦ elim (copy_stream n result.stream s.world) [
          | none ↦ none
          | some (events, w) ↦
              some
                (streamed (with_meta meta headers) events, clean_up result (record s { world = w }))
        ]
      ]
    ]
  ]

  -- `is_flusher` is whether the writer can be flushed.
  unfoldable pub handle_streaming_chat :
      ℕ → Bool → String → ChatRequest F → Shared F W → Option (StreamReply × Shared F W)
  unfolding answer_stream
  handle_streaming_chat n is_flusher request_id req s =
      if is_flusher
      then (let (reply, s') = execute_chat_stream rt r req s in
          answer_stream n (event_headers request_id) reply s')
      else some (not_supported, s)
