-- ===== src/Router/Served.antt =====
-- internal/router/router.go: who answers a request, and what the metadata says.
use resillm.Common.{
  ℕ, suc, ◌+◌, ◌≡◌, refl, ap, ◌⊎◌, inl, inr, Option, none, some, List, [], ◌∷◌, ◌++◌, arith, length,
  ltb, lookup, Bool-cases, Option-cases, FloatOps,
}
use resillm.Config.{EndpointConfig, ModelConfig}
use resillm.Errors.{Error, ok}
use resillm.Api.{ChatRequest, ChatResponse, ExecutionMeta}
use resillm.Retry.Source.{execute-FromCall}
use resillm.Router.{
  Provider, Runtime, Router, Shared, Reply, unknown_model, all_providers_failed, Visit, answered,
  go_on, environment, check_breaker, take_slot, conclude, run_endpoint, admitted, visit, chat_loop,
  execute_chat, find_model, start_meta,
}
use resillm.Router.Slots.{Visit-cases}

module _ {F : FloatOps} {W S : Type 0} (rt : Runtime F W) (r : Router F W S)
    (req : ChatRequest F) where
  -- The endpoint `e`, number `i`, answered: its provider is configured and returned the response to
  -- a call with the endpoint's model, and the metadata names them.
  pub record Answers (e : EndpointConfig) (i : ℕ) (resp : ChatResponse) (meta : ExecutionMeta F)
      : Type 0 where
    pub provider : Provider F W S
    pub configured : lookup e.provider r.providers ≡ some provider
    pub world : W
    pub returned : (provider.execute_chat req e.model world).0 ≡ ok resp
    pub names_provider : meta.provider ≡ e.provider
    pub names_model : meta.actual_model ≡ e.model
    pub says_fallback : meta.fallback ≡ ltb 0 i
    pub prices : meta.cost ≡ provider.calculate_cost e.model resp.usage

  abbrev pub Answered : EndpointConfig → ℕ → Visit F W ChatResponse → Type 0
  Answered e i (answered resp meta s) = Answers e i resp meta
  Answered e i (go_on meta last s) = Unit {0}

  conclude-Answered :
      (p : Provider F W S) (e : EndpointConfig) (i : ℕ) (meta : ExecutionMeta F)
      (last : Option Error) (o : Option ChatResponse) (x : Option Error) (s : Shared F W)
      → lookup e.provider r.providers ≡ some p
      → ((resp : ChatResponse)
          → o ≡ some resp
          → (w : W) × ((p.execute_chat req e.model w).0 ≡ ok resp))
      → Answered e i (conclude rt r p e i meta last o x s)
  unfolding conclude
  conclude-Answered p e i meta last (some resp) none s found from =
      let (w, back) = from resp refl in
      record {
        provider = p;
        configured = found;
        world = w;
        returned = back;
        names_provider = refl;
        names_model = refl;
        says_fallback = refl;
        prices = refl;
      }
  conclude-Answered p e i meta last none none s found from = tt
  conclude-Answered p e i meta last (some resp) (some x) s found from = tt
  conclude-Answered p e i meta last none (some x) s found from = tt

  run_endpoint-Answered :
      (p : Provider F W S) (e : EndpointConfig) (i : ℕ) (meta : ExecutionMeta F)
      (last : Option Error) (s : Shared F W)
      → lookup e.provider r.providers ≡ some p
      → Answered e i (run_endpoint rt r req p e i meta last s)
  unfolding run_endpoint environment
  run_endpoint-Answered p e i meta last s found =
      conclude-Answered p e i _ last _ _ _ found
        (execute-FromCall (environment rt r p req e.model) r.retry_config s.world)

  admitted-Answered :
      (e : EndpointConfig) (i : ℕ) (meta : ExecutionMeta F) (last : Option Error) (s : Shared F W)
      → Answered e i (admitted rt r req e i meta last s)
  unfolding admitted
  admitted-Answered e i meta last s = elim (Option-cases (lookup e.provider r.providers)) [
    | inl n ↦ rw (n, admitted) tt
    | inr (p, n) ↦ elim (Bool-cases (take_slot rt r e.provider s).1) [
      | inl t ↦
          rw (n, t, admitted)
            (run_endpoint-Answered p e i meta last (take_slot rt r e.provider s).0 n)
      | inr t ↦ rw (n, t, admitted) tt
    ]
  ]

  visit-Answered :
      (e : EndpointConfig) (i : ℕ) (meta : ExecutionMeta F) (last : Option Error) (s : Shared F W)
      → Answered e i (visit rt r req e i meta last s)
  unfolding visit
  visit-Answered e i meta last s = elim (Bool-cases (check_breaker rt r e.provider s).1) [
    | inl t ↦ rw (t, visit) (admitted-Answered e i meta last (check_breaker rt r e.provider s).0)
    | inr t ↦ rw (t, visit) tt
  ]

  -- A reply is answered by one of the endpoints `es`, counted from `i`, or by none of them.
  abbrev pub RepliesFrom : List EndpointConfig → ℕ → Reply F ChatResponse → Type 0
  RepliesFrom es i reply =
      ((before : List EndpointConfig) × (e : EndpointConfig) × (after : List EndpointConfig)
        × (resp : ChatResponse) × (meta : ExecutionMeta F) × (es ≡ before ++ e ∷ after)
        × (reply ≡ record { response = some resp; meta = some meta; error = none })
        × Answers e (i + length before) resp meta)
      ⊎ ((meta : ExecutionMeta F) × (last : Option Error) × (reply ≡ record {
        response = none;
        meta = some meta;
        error = some (all_providers_failed last);
      }))

  RepliesFrom-later :
      (e : EndpointConfig) (es : List EndpointConfig) (i : ℕ) (reply : Reply F ChatResponse)
      → RepliesFrom es (i + 1) reply
      → RepliesFrom (e ∷ es) i reply
  RepliesFrom-later e es i reply (inr h) = inr h
  RepliesFrom-later e es i reply (inl (before, x, after, resp, meta, split, is, a)) =
      let later : i + 1 + length before ≡ i + suc (length before) = omega arith in
      inl (e ∷ before, x, after, resp, meta, ap (λ l. e ∷ l) split, is, rw later at a)

  chat_loop-RepliesFrom :
      (es : List EndpointConfig) (i : ℕ) (meta : ExecutionMeta F) (last : Option Error)
      (s : Shared F W)
      → RepliesFrom es i (chat_loop rt r req es i meta last s).0
  unfolding chat_loop
  chat_loop-RepliesFrom [] i meta last s = inr (meta, last, refl)
  chat_loop-RepliesFrom (e ∷ es) i meta last s =
      elim (Visit-cases rt r (visit rt r req e i meta last s)) [
        | inl (resp, meta', s', v) ↦
            let here : i + 0 ≡ i = omega arith in
            rw (v, chat_loop)
              (inl (
                [],
                e,
                es,
                resp,
                meta',
                refl,
                refl,
                rw here (rw v at (visit-Answered e i meta last s)),
              ))
        | inr (meta', last', s', v) ↦
            rw (v, chat_loop)
              (RepliesFrom-later e es i _ (chat_loop-RepliesFrom es (i + 1) meta' last' s'))
      ]

  -- A chat request fails as "unknown model", changing nothing, if neither its model nor "default" is
  -- configured. Otherwise it is answered by one endpoint of the model's chain (primary, then the
  -- fallbacks in order): with what that endpoint's provider returned to a call with the endpoint's
  -- model, and with metadata that names that provider and model, its price of the response, and a
  -- fallback exactly when it is not the primary; or it fails as "all providers failed".
  pub execute_chat-RepliesFrom :
      (s : Shared F W)
      → ((find_model rt r req.model ≡ none)
          × (execute_chat rt r req s ≡ (
            record { response = none; meta = none; error = some (unknown_model req.model) },
            s,
          )))
        ⊎ ((m : ModelConfig F) × (find_model rt r req.model ≡ some m)
            × RepliesFrom (m.primary ∷ m.fallbacks) 0 (execute_chat rt r req s).0)
  unfolding execute_chat
  execute_chat-RepliesFrom s = elim (Option-cases (find_model rt r req.model)) [
    | inl e ↦ inl (e, rw (e, execute_chat))
    | inr (m, e) ↦ inr (
      m,
      e,
      rw (e, execute_chat)
          (chat_loop-RepliesFrom (m.primary ∷ m.fallbacks) 0 (start_meta rt r) none s),
    )
  ]
