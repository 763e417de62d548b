-- ===== src/Server/Completions.antt =====
-- internal/server/handlers.go: handleChatCompletions whole, with generateRequestID. Reading the body
-- and parsing it as JSON are parameters, as is the text of a float.
pub mod Slots
mod Tests
use Prim.Native.String.{◌++◌}
use mathlib.Core.Option
use resillm.Common.{
  ℕ, ◌-◌, ◌*◌, ◌/◌, ◌%◌, String, str_eq, Bool, true, false, Option, none, some, List, [], ◌∷◌,
  if◌then◌else◌, ◌==◌, ltb, ℤ, pos, negsuc, FloatOps, Map, lookup, insert, ◌⊎◌, inl, inr,
}
use resillm.Api.{ChatRequest, ExecutionMeta}
use resillm.Metrics.Classify.{decimal}
use resillm.Router.{Runtime, Router, Shared}
use resillm.Server.{
  Server, ChatReply, error_reply, chat_reply, to_stream, nil_dereference, text, handle_chat,
}
use resillm.Server.Address.{header}
use resillm.Server.Streaming.{ChatStream, StreamReply, format_bool, handle_streaming_chat}

abbrev pub max_body_size : ℕ
max_body_size = 5 * 1024 * 1024

-- What reading the body gives, at most `max_body_size` bytes of it.
pub data Body : Type 0 where
  too_large unreadable : Body
  read_all : String → Body

-- `random` is what rand.Read gives, if it does not fail.
pub record Incoming : Type 0 where
  pub body : Body
  pub headers : Map String
  pub is_flusher : Bool
  pub random : Option (List ℕ)

hex_digit : ℕ → String
hex_digit d =
    if ltb d 10
    then decimal (pos d)
    else if d == 10
    then "a"
    else if d == 11
    then "b"
    else if d == 12
    then "c"
    else if d == 13
    then "d"
    else if d == 14
    then "e"
    else "f"

-- hex.EncodeToString.
unfoldable pub hex : List ℕ → String
unfolding hex_digit
hex [] = ""
hex (b ∷ bs) = hex_digit (b / 16) ++ (hex_digit (b % 16) ++ hex bs)

-- 1970, in nanoseconds after Go's zero time.
abbrev epoch : ℕ
epoch = 62_135_596_800_000_000_000

-- UnixNano of a time, which is in nanoseconds after Go's zero time.
unfoldable pub unix_nano : ℕ → ℤ
unix_nano now = if ltb now epoch then negsuc (epoch - now - 1) else pos (now - epoch)

unfoldable pub generate_request_id : ℕ → Option (List ℕ) → String
unfolding hex unix_nano
generate_request_id now none = "req-" ++ decimal (unix_nano now)
generate_request_id now (some bytes) = "req-" ++ hex bytes

-- The client's own id, or a new one.
unfoldable pub request_id_of : ℕ → Incoming → String
unfolding generate_request_id header
request_id_of now r =
    let id = header "X-Request-Id" r.headers in
    if str_eq id "" then generate_request_id now r.random else id

-- The headers of a reply that is no stream, or the stream's reply after the budget's warning.
pub data Answer (F : FloatOps) : Type 0 where
  answered : Map String → ChatReply F → Answer F
  streaming : Option String → StreamReply → Answer F

abbrev pub warned : Option String → Map String
warned none = []
warned (some message) = ("X-Resillm-Budget-Warning", message) ∷ []

module _ {F : FloatOps} where
  -- `latency` in milliseconds.
  unfoldable pub chat_headers :
      (F.Float → String) → String → ℕ → ExecutionMeta F → Option String → Map String
  unfolding format_bool
  chat_headers format_cost request_id latency meta warning =
      ("Content-Type", "application/json")
      ∷ ("X-Request-ID", request_id)
      ∷ ("X-Resillm-Provider", meta.provider)
      ∷ ("X-Resillm-Model", meta.actual_model)
      ∷ ("X-Resillm-Latency-Ms", decimal (pos latency))
      ∷ ("X-Resillm-Cost", format_cost meta.cost)
      ∷ ("X-Resillm-Retries", decimal meta.retries)
      ∷ ("X-Resillm-Fallback", format_bool meta.fallback)
      ∷ warned warning

  unfoldable pub write_error : ℕ → String → String → Answer F
  write_error status kind message =
      answered (("Content-Type", "application/json") ∷ []) (error_reply status kind (text message))

module _ {F : FloatOps} {W S C : Type 0} (rt : Runtime F W) (r : Router F W S)
    (cs : ChatStream W S C) (format_cost : F.Float → String)
    (decode : String → ChatRequest F ⊎ String) where
  -- After the budget's check: the stream, or the reply with its headers. `start` is the time before
  -- the router's call.
  finish : ℕ → Bool → String → ℕ → ChatReply F × Server F W → Option (Answer F × Server F W)
  unfolding chat_headers handle_streaming_chat
  finish n is_flusher id start (to_stream req warning, s) =
      elim (handle_streaming_chat rt r cs n is_flusher id req s.shared) [
        | none ↦ none
        | some (reply, shared) ↦ some (streaming warning reply, record s { shared = shared })
      ]
  finish n is_flusher id start (chat_reply resp meta warning, s) =
      let latency = (rt.now s.shared.world - start) / 1_000_000 in
      some (
        answered (chat_headers format_cost id latency meta warning) (chat_reply resp meta warning),
        s,
      )
  finish n is_flusher id start (reply, s) =
      some (answered (("Content-Type", "application/json") ∷ []) reply, s)

  -- After json.Unmarshal.
  after_decode : ℕ → Incoming → ChatRequest F ⊎ String → Server F W → Option (Answer F × Server F W)
  unfolding finish write_error request_id_of handle_chat
  after_decode n incoming (inr e) s =
      some (write_error 400 "invalid_request" ("Invalid JSON: " ++ e), s)
  after_decode n incoming (inl req) s =
      let now = rt.now s.shared.world in
      finish n incoming.is_flusher (request_id_of now incoming) now (handle_chat rt r req s)

  -- After io.ReadAll.
  after_read : ℕ → Incoming → Body → Server F W → Option (Answer F × Server F W)
  unfolding after_decode
  after_read n incoming too_large s = some (
    write_error 413 "request_too_large"
        ("Request body exceeds maximum size of " ++ (decimal (pos max_body_size) ++ " bytes")),
    s,
  )
  after_read n incoming unreadable s =
      some (write_error 400 "invalid_request" "Failed to read request body", s)
  after_read n incoming (read_all body) s = after_decode n incoming (decode body) s

  -- For at most `n` rounds of the stream's loop.
  unfoldable pub handle_chat_completions :
      ℕ → Incoming → Server F W → Option (Answer F × Server F W)
  unfolding after_read
  handle_chat_completions n incoming s = after_read n incoming incoming.body s
