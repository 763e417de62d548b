-- ===== src/Router/Stream/Held.antt =====
-- internal/router/router.go with internal/providers/semaphore.go: the slot that goes with a stream.
use resillm.Common.{
  ℕ, ◌+◌, ◌≡◌, refl, inl, inr, String, Option, none, some, List, [], ◌∷◌, arith, lookup, Bool-cases,
  Option-cases, ◌⊎◌, FloatOps,
}
use resillm.Config.{EndpointConfig}
use resillm.Errors.{Error, Result, ok, err}
use resillm.Api.{ChatRequest, ExecutionMeta}
use resillm.Semaphore.Slots.{one_of, no_slot}
use resillm.Semaphore.Registry.{IsReady}
use resillm.Router.{
  RouterError, unknown_model, all_providers_failed, Reply, give_slot, Runtime, Router, Shared,
  Visit, answered, go_on, check_breaker, take_slot, breaker_success, breaker_failure, find_model,
  endpoints, start_meta,
}
use resillm.Router.Slots.{
  Moves, Moves-trans, take_slot-Moves, give_slot-Kept, check_breaker-semaphores,
}
use resillm.Router.Stream.{
  StreamResult, conclude_stream, run_stream, stream_admitted, stream_visit, stream_loop,
  execute_chat_stream, close_stream,
}

module _ {F : FloatOps} {W S : Type 0} (rt : Runtime F W) (r : Router F W S) where
  -- A stream keeps the slot of its provider; without one, none is kept.
  abbrev pub held_by : Option (StreamResult S) → String → ℕ
  held_by none = no_slot
  held_by (some result) = one_of result.sem

  abbrev Turn : Shared F W → Visit F W (StreamResult S) → Type 0
  Turn s0 (answered result meta s) = Moves (one_of result.sem) s0 s
  Turn s0 (go_on meta last s) = Moves no_slot s0 s

  conclude_stream-Turn :
      (e : EndpointConfig) (i : ℕ) (meta : ExecutionMeta F) (last : Option Error) (res : Result S)
      (s0 s : Shared F W)
      → Moves (one_of e.provider) s0 s
      → Turn s0 (conclude_stream rt r e i meta last res s)
  unfolding conclude_stream breaker_success breaker_failure
  conclude_stream-Turn e i meta last (err x) s0 s h = give_slot-Kept rt r e.provider s0 s h
  conclude_stream-Turn e i meta last (ok st) s0 s h = h

  stream_admitted-Turn :
      (req : ChatRequest F) (e : EndpointConfig) (i : ℕ) (meta : ExecutionMeta F)
      (last : Option Error) (s0 s : Shared F W)
      → Moves no_slot s0 s
      → Turn s0 (stream_admitted rt r req e i meta last s)
  unfolding stream_admitted run_stream
  stream_admitted-Turn req e i meta last s0 s k =
      elim (Option-cases (lookup e.provider r.providers)) [
        | inl n ↦ rw (n, stream_admitted) k
        | inr (p, n) ↦
            let more =
              Moves-trans _ s0 s (take_slot rt r e.provider s).0 k
                (take_slot-Moves rt r e.provider s k.0) in
            elim (Bool-cases (take_slot rt r e.provider s).1) [
              | inl t ↦
                  rw (n, t, stream_admitted)
                    (conclude_stream-Turn e i meta last _ s0 _ (rw t at more))
              | inr t ↦ rw (n, t, stream_admitted) (rw t at more)
            ]
      ]

  stream_visit-Turn :
      (req : ChatRequest F) (e : EndpointConfig) (i : ℕ) (meta : ExecutionMeta F)
      (last : Option Error) (s0 s : Shared F W)
      → Moves no_slot s0 s
      → Turn s0 (stream_visit rt r req e i meta last s)
  unfolding stream_visit
  stream_visit-Turn req e i meta last s0 s k =
      let k' : Moves no_slot s0 (check_breaker rt r e.provider s).0 =
        rw (check_breaker-semaphores rt r e.provider s) k in
      elim (Bool-cases (check_breaker rt r e.provider s).1) [
        | inl t ↦ rw (t, stream_visit) (stream_admitted-Turn req e i meta last s0 _ k')
        | inr t ↦ rw (t, stream_visit) k'
      ]

  Turn-cases :
      (v : Visit F W (StreamResult S))
      → ((res : StreamResult S) × (meta : ExecutionMeta F) × (s : Shared F W) × (v
            ≡ answered res meta s))
        ⊎ ((meta : ExecutionMeta F) × (last : Option Error) × (s : Shared F W) × (v
              ≡ go_on meta last s))
  Turn-cases (answered res meta s) = inl (res, meta, s, refl)
  Turn-cases (go_on meta last s) = inr (meta, last, s, refl)

  stream_loop-Moves :
      (req : ChatRequest F) (es : List EndpointConfig) (i : ℕ) (meta : ExecutionMeta F)
      (last : Option Error) (s0 s : Shared F W)
      → Moves no_slot s0 s
      → let (reply, s') = stream_loop rt r req es i meta last s in
        Moves (held_by reply.response) s0 s'
  unfolding stream_loop
  stream_loop-Moves req [] i meta last s0 s k = k
  stream_loop-Moves req (e ∷ es) i meta last s0 s k =
      elim (Turn-cases (stream_visit rt r req e i meta last s)) [
        | inl (res, meta', s', v) ↦
            rw (v, stream_loop) (rw v at (stream_visit-Turn req e i meta last s0 s k))
        | inr (meta', last', s', v) ↦
            rw (v, stream_loop)
              (stream_loop-Moves req es (i + 1) meta' last' s0 s'
                (rw v at (stream_visit-Turn req e i meta last s0 s k)))
      ]

  closed_again :
      (s0 s : Shared F W) (result : Option (StreamResult S))
      → Moves (held_by result) s0 s
      → Moves no_slot s0 (close_stream rt r result s)
  unfolding close_stream
  closed_again s0 s none h = h
  closed_again s0 s (some result) h = give_slot-Kept rt r result.sem s0 s h

  -- A request for a stream holds afterwards exactly the slot of the provider that the stream came
  -- from, or no slot if it failed, in whatever way; and once the handler has released what came with
  -- the stream, as many slots of each semaphore are taken as before the request.
  pub execute_chat_stream-Moves :
      (req : ChatRequest F) (s : Shared F W)
      → IsReady s.semaphores
      → let (reply, s') = execute_chat_stream rt r req s in
        Moves (held_by reply.response) s s' × Moves no_slot s (close_stream rt r reply.response s')
  unfolding execute_chat_stream
  execute_chat_stream-Moves req s h = elim (Option-cases (find_model rt r req.model)) [
    | inl e ↦
        rw (e, execute_chat_stream)
          ((h, λ name. omega arith), closed_again s s none (h, λ name. omega arith))
    | inr (m, e) ↦
        let held =
          stream_loop-Moves req (endpoints rt r m) 0 (start_meta rt r) none s s
            (h, λ name. omega arith) in
        rw (e, execute_chat_stream) (held, closed_again s _ _ held)
  ]

  -- A stream with its metadata and no error, or an error and no stream.
  abbrev pub IsReply : Reply F (StreamResult S) → Type 0
  IsReply reply =
      ((res : StreamResult S) × (meta : ExecutionMeta F) × (reply
          ≡ record { response = some res; meta = some meta; error = none }))
      ⊎ ((meta : Option (ExecutionMeta F)) × (e : RouterError) × (reply
            ≡ record { response = none; meta = meta; error = some e }))

  stream_loop-IsReply :
      (req : ChatRequest F) (es : List EndpointConfig) (i : ℕ) (meta : ExecutionMeta F)
      (last : Option Error) (s : Shared F W)
      → IsReply (stream_loop rt r req es i meta last s).0
  unfolding stream_loop
  stream_loop-IsReply req [] i meta last s = inr (some meta, all_providers_failed last, refl)
  stream_loop-IsReply req (e ∷ es) i meta last s =
      elim (Turn-cases (stream_visit rt r req e i meta last s)) [
        | inl (res, meta', s', v) ↦ rw (v, stream_loop) (inl (res, meta', refl))
        | inr (meta', last', s', v) ↦
            rw (v, stream_loop) (stream_loop-IsReply req es (i + 1) meta' last' s')
      ]

  pub execute_chat_stream-IsReply :
      (req : ChatRequest F) (s : Shared F W) → IsReply (execute_chat_stream rt r req s).0
  unfolding execute_chat_stream
  execute_chat_stream-IsReply req s = elim (Option-cases (find_model rt r req.model)) [
    | inl e ↦ rw (e, execute_chat_stream) (inr (none, unknown_model req.model, refl))
    | inr (m, e) ↦
        rw (e, execute_chat_stream)
          (stream_loop-IsReply req (endpoints rt r m) 0 (start_meta rt r) none s)
  ]

  -- Closing the stream, which changes the world only, comes before the slot is released.
  pub close_stream-world :
      (s0 s : Shared F W) (w : W) (result : StreamResult S)
      → Moves no_slot s0 (close_stream rt r (some result) s)
      → Moves no_slot s0 (close_stream rt r (some result) (record s { world = w }))
  unfolding close_stream give_slot
  close_stream-world s0 s w result h = h

  pub close_stream-none :
      (s0 s : Shared F W) → Moves no_slot s0 (close_stream rt r none s) → Moves no_slot s0 s
  unfolding close_stream
  close_stream-none s0 s h = h
