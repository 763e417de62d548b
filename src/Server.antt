-- ===== src/Server.antt =====
-- internal/server/handlers.go: validateRequest and the part of handleChatCompletions that needs the
-- budget and the router; Server/Completions has the whole.
pub mod Requests
pub mod Handled
pub mod Streaming
pub mod Address
pub mod Completions
pub mod Run
pub mod Middleware
pub mod Start
pub mod Status
pub mod Sanitize
mod Tests
use resillm.Common.{
  ℕ, zero, suc, ◌+◌, String, str_eq, Bool, true, false, not, ◌&&◌, ◌||◌, Option, none, some, List,
  [], ◌∷◌, if◌then◌else◌, ltb, ◌==◌, length, ℤ, pos, ltb_ℤ, FloatOps,
}
use resillm.Api.{ChatRequest, Message, ChatResponse, ExecutionMeta}
use resillm.Errors.{Error, Result, ok, err}
use resillm.Budget.{Tracker, CheckResult, check, record_cost}
use resillm.Router.{Runtime, Router, RouterError, Reply, Shared, execute_chat}

abbrev pub max_messages : ℕ
max_messages = 100

abbrev pub max_tokens_limit : ℤ
max_tokens_limit = pos 100000

pub data RequestError : Type 0 where
  model_required messages_required : RequestError
  too_many_messages : ℕ → RequestError
  max_tokens_too_large : ℤ → RequestError
  bad_temperature bad_top_p : RequestError
  invalid_role : ℕ → String → RequestError

-- The `switch` over a message's role.
abbrev pub is_role : String → Bool
is_role role =
    str_eq role "system" || (str_eq role "user" || (str_eq role "assistant" || str_eq role "tool"))

-- The loop over the messages; `i` is the index of the first that is left.
check_roles : ℕ → List Message → Option RequestError
check_roles i [] = none
check_roles i (m ∷ ms) =
    if is_role m.role then check_roles (i + 1) ms else some (invalid_role i m.role)

module _ {F : FloatOps} where
  unfoldable pub validate_request : ChatRequest F → Option RequestError
  unfolding check_roles
  validate_request req =
      if str_eq req.model ""
      then some model_required
      else if length req.messages == 0
      then some messages_required
      else if ltb max_messages (length req.messages)
      then some (too_many_messages (length req.messages))
      else if ltb_ℤ max_tokens_limit req.max_tokens
      then some (max_tokens_too_large req.max_tokens)
      else if F.lt req.temperature (F.of_int (pos 0)) || F.lt (F.of_int (pos 2)) req.temperature
      then some bad_temperature
      else if F.lt req.top_p (F.of_int (pos 0)) || F.lt (F.of_int (pos 1)) req.top_p
      then some bad_top_p
      else check_roles 0 req.messages

-- The message of an error reply: a text, a validation error's text, or an error's text with the keys
-- in it made unreadable.
pub data ErrorText : Type 0 where
  text : String → ErrorText
  of_request : RequestError → ErrorText
  sanitized : RouterError → ErrorText

-- What the handler answers; the budget's warning goes into a header.
pub data ChatReply (F : FloatOps) : Type 0 where
  error_reply : ℕ → String → ErrorText → ChatReply F
  chat_reply : ChatResponse → ExecutionMeta F → Option String → ChatReply F
  -- The request goes on to handleStreamingChat.
  to_stream : ChatRequest F → Option String → ChatReply F
  -- The handler reads the metadata through a nil pointer.
  nil_dereference : ChatReply F

-- The parts of `Server` that the handler uses; `budget` may be nil.
pub record Server (F : FloatOps) (W : Type 0) : Type 0 where
  pub budget : Option (Tracker F)
  pub shared : Shared F W

module _ {F : FloatOps} {W S : Type 0} (rt : Runtime F W) (r : Router F W S) where
  -- `s.budget.Record(meta.Cost)`, where there is a budget and a cost.
  record_chat : F.Float → Server F W → Server F W
  record_chat cost s = elim s.budget [
    | none ↦ s
    | some t ↦
        if F.lt (F.of_int (pos 0)) cost
        then record s { budget = some (record_cost (rt.now s.shared.world) cost t) }
        else s
  ]

  -- After the router's answer.
  answer_chat : Option String → Reply F ChatResponse → Server F W → ChatReply F × Server F W
  unfolding record_chat
  answer_chat warning reply s = elim reply.error [
    | some e ↦ (error_reply 502 "provider_error" (sanitized e), s)
    | none ↦ elim reply.meta [
      | none ↦ (nil_dereference, s)
      | some meta ↦ elim reply.response [
        | none ↦ (nil_dereference, s)
        | some resp ↦ (chat_reply resp meta warning, record_chat meta.cost s)
      ]
    ]
  ]

  -- Once the budget lets the request pass; the first argument is `req.Stream`.
  run_chat : Bool → ChatRequest F → Option String → Server F W → ChatReply F × Server F W
  unfolding answer_chat
  run_chat true req warning s = (to_stream req warning, s)
  run_chat false req warning s =
      let (reply, shared) = execute_chat rt r req s.shared in
      answer_chat warning reply (record s { shared = shared })

  -- `s.budget.Check(0)` and what depends on it.
  check_chat : ChatRequest F → Tracker F → Server F W → ChatReply F × Server F W
  unfolding run_chat
  check_chat req t s =
      let now = rt.now s.shared.world in
      let (t', result) = check now now (F.of_int (pos 0)) t in
      let s' = record s { budget = some t' } in
      if not result.allowed
      then (error_reply 429 "budget_exceeded" (text result.message), s')
      else run_chat req.stream req (if result.warning then some result.message else none) s'

  unfoldable pub handle_chat : ChatRequest F → Server F W → ChatReply F × Server F W
  unfolding check_chat
  handle_chat req s = elim (validate_request req) [
    | some e ↦ (error_reply 400 "invalid_request" (of_request e), s)
    | none ↦ elim s.budget [ none ↦ run_chat req.stream req none s | some t ↦ check_chat req t s ]
  ]
