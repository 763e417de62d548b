-- ===== src/Server/Handled.antt =====
-- internal/server/handlers.go with internal/budget/tracker.go and internal/router/router.go: the
-- budget before and after a chat request.
use resillm.Common.{
  ℕ, ◌≡◌, refl, ◌⊎◌, inl, inr, Bool, true, false, Option, none, some, arith, pos, String,
  Option-cases, Bool-cases, if◌then◌else◌, FloatOps,
}
use resillm.Api.{ChatRequest, ChatResponse, ExecutionMeta}
use resillm.Budget.{Tracker, check, record_cost}
use resillm.Router.{Runtime, Router, Reply, Shared, execute_chat}
use resillm.Server.{
  Server, ChatReply, error_reply, chat_reply, text, of_request, validate_request, RequestError,
  record_chat, answer_chat, run_chat, check_chat, handle_chat,
}

module _ {F : FloatOps} {W S : Type 0} (rt : Runtime F W) (r : Router F W S)
    (req : ChatRequest F) where
  -- An error of status 400 or 429.
  abbrev pub Refused : ChatReply F → Type 0
  Refused reply =
      ((e : RequestError) × (reply ≡ error_reply 400 "invalid_request" (of_request e)))
      ⊎ ((message : String) × (reply ≡ error_reply 429 "budget_exceeded" (text message)))

  -- A request that the budget does not allow is refused, with status 429 or, if it is not valid, 400,
  -- and reaches neither the router nor a provider: breakers, semaphores, metrics and the world stay.
  pub over_budget-Refused :
      (s : Server F W) (t : Tracker F)
      → s.budget ≡ some t
      → (check (rt.now s.shared.world) (rt.now s.shared.world) (F.of_int (pos 0)) t).1.allowed
        ≡ false
      → let (reply, s') = handle_chat rt r req s in Refused reply × (s'.shared ≡ s.shared)
  unfolding handle_chat check_chat
  over_budget-Refused s t e over = elim (Option-cases (validate_request req)) [
    | inl v ↦ rw (v, e, over, handle_chat, check_chat) (inr (_, refl), refl)
    | inr (x, v) ↦ rw (v, handle_chat) (inl (x, refl), refl)
  ]

  -- The budget with a cost, if there is one.
  abbrev pub charge : ℕ → F.Float → Tracker F → Tracker F
  charge now cost t = if F.lt (F.of_int (pos 0)) cost then record_cost now cost t else t

  -- The router answered, and the answer is what the client gets; its cost is charged to `t`.
  pub record Charged (t : Tracker F) (resp : ChatResponse) (meta : ExecutionMeta F)
      (reply : Reply F ChatResponse) (shared : Shared F W) (s : Server F W) : Type 0 where
    pub response : reply.response ≡ some resp
    pub metadata : reply.meta ≡ some meta
    pub no_error : reply.error ≡ none
    pub same_shared : s.shared ≡ shared
    pub charged : s.budget ≡ some (charge (rt.now shared.world) meta.cost t)

  answer_chat-Charged :
      (warning w : Option String) (reply : Reply F ChatResponse) (s : Server F W) (t : Tracker F)
      (resp : ChatResponse) (meta : ExecutionMeta F)
      → s.budget ≡ some t
      → (answer_chat rt r warning reply s).0 ≡ chat_reply resp meta w
      → Charged t resp meta reply s.shared (answer_chat rt r warning reply s).1
  unfolding answer_chat record_chat
  answer_chat-Charged warning w reply s t resp meta e h = record {
    response = ground arith;
    metadata = ground arith;
    no_error = ground arith;
    same_shared = ground arith;
    charged = ground arith;
  }

  run_chat-Charged :
      (stream : Bool) (warning w : Option String) (s : Server F W) (t : Tracker F)
      (resp : ChatResponse) (meta : ExecutionMeta F)
      → s.budget ≡ some t
      → (run_chat rt r stream req warning s).0 ≡ chat_reply resp meta w
      → let (reply, shared) = execute_chat rt r req s.shared in
        Charged t resp meta reply shared (run_chat rt r stream req warning s).1
  unfolding run_chat
  run_chat-Charged true warning w s t resp meta e h = ground arith
  run_chat-Charged false warning w s t resp meta e h =
      answer_chat-Charged warning w (execute_chat rt r req s.shared).0
        (record s { shared = (execute_chat rt r req s.shared).1 }) t resp meta e h

  check_chat-Charged :
      (w : Option String) (s : Server F W) (t : Tracker F) (resp : ChatResponse)
      (meta : ExecutionMeta F)
      → (check_chat rt r req t s).0 ≡ chat_reply resp meta w
      → let now = rt.now s.shared.world in
        let (t', result) = check now now (F.of_int (pos 0)) t in
        let (reply, shared) = execute_chat rt r req s.shared in
        (result.allowed ≡ true) × Charged t' resp meta reply shared (check_chat rt r req t s).1
  unfolding check_chat
  check_chat-Charged w s t resp meta h =
      let now = rt.now s.shared.world in
      elim (Bool-cases (check now now (F.of_int (pos 0)) t).1.allowed) [
        | inl a ↦
            rw (a, check_chat)
              (refl, run_chat-Charged req.stream _ w _ _ resp meta refl (rw (a, check_chat) at h))
        | inr a ↦ ground arith
      ]

  -- With a budget, a client gets a completion only if the budget's check allowed the request and the
  -- router answered it; it gets the router's response and metadata, and the response's cost, if it is
  -- positive, is recorded in the budget as the check left it, at the time after the execution.
  pub completion-Charged :
      (w : Option String) (s : Server F W) (t : Tracker F) (resp : ChatResponse)
      (meta : ExecutionMeta F)
      → s.budget ≡ some t
      → (handle_chat rt r req s).0 ≡ chat_reply resp meta w
      → let now = rt.now s.shared.world in
        let (t', result) = check now now (F.of_int (pos 0)) t in
        let (reply, shared) = execute_chat rt r req s.shared in
        (result.allowed ≡ true) × Charged t' resp meta reply shared (handle_chat rt r req s).1
  unfolding handle_chat
  completion-Charged w s t resp meta e h = elim (Option-cases (validate_request req)) [
    | inl v ↦
        rw (v, e, handle_chat) (check_chat-Charged w s t resp meta (rw (v, e, handle_chat) at h))
    | inr (x, v) ↦ ground arith
  ]
