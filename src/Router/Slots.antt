-- ===== src/Router/Slots.antt =====
-- internal/router/router.go with internal/providers/semaphore.go: the slots that a request takes and
-- gives back.
use resillm.Common.{
  ℕ, ◌+◌, ◌≤◌, ◌≡◌, refl, sym, ap, ◌∙◌, ◌⊎◌, inl, inr, String, Option, none, some, List, [], ◌∷◌,
  arith, if◌then◌else◌, lookup, Bool-cases, Option-cases, FloatOps,
}
use resillm.Config.{EndpointConfig}
use resillm.Errors.{Error}
use resillm.Api.{ChatRequest, ChatResponse, ExecutionMeta}
use resillm.Semaphore.{Semaphore, acquire, release, get}
use resillm.Semaphore.Balance.{
  AcquireSpec, acquire-AcquireSpec, release-IsSettled, release-capacity,
}
use resillm.Semaphore.Slots.{
  slots, one_of, no_slot, slots-put_add, slots-put_sub, slots-put_same, slots-get, held-get,
  put-IsReady, has_slot,
}
use resillm.Semaphore.Registry.{IsReady, get_lem, get-IsReady, get-IsSettled}
use text.Mathlib.TextPositions.{eq_refl}
use resillm.Retry.{execute_with_result}
use resillm.Router.{
  environment, admitted, endpoints, start_meta, Provider, Runtime, Router, Shared, Visit, answered,
  go_on, check_breaker, take_slot, give_slot, conclude, run_endpoint, visit, chat_loop,
  execute_chat, find_model,
}

-- The semaphores stay ready, and `extra` says how many more slots are taken than before.
abbrev pub Moves : {F : FloatOps} {W : Type 0} → (String → ℕ) → Shared F W → Shared F W → Type 0
Moves extra s s' =
    IsReady s'.semaphores
    × ((name : String) → slots s'.semaphores name ≡ slots s.semaphores name + extra name)

pub Moves-trans :
    {F : FloatOps} {W : Type 0} (extra : String → ℕ) (s t u : Shared F W)
    → Moves no_slot s t
    → Moves extra t u
    → Moves extra s u
Moves-trans extra s t u (h, same) (h', more) = (h', λ name. omega (arith, same name, more name))

module _ {F : FloatOps} {W S : Type 0} (rt : Runtime F W) (r : Router F W S) where
  take_slot_by :
      (name : String) (s : Shared F W) (res : Option (Semaphore × Option Error))
      → IsReady s.semaphores
      → acquire (rt.context_error s.world) (rt.prefers_done s.world) (get s.semaphores name).1 ≡ res
      → AcquireSpec
          (rt.context_error s.world)
          (rt.prefers_done s.world)
          (get s.semaphores name).1
          res
      → Moves
          (if (take_slot rt r name s).1 then one_of name else no_slot)
          s
          (take_slot rt r name s).0
  unfolding take_slot
  take_slot_by name s none h e spec =
      rw (e, take_slot)
        (get-IsReady s.semaphores name h, λ other. slots-get s.semaphores name other ∙ omega arith)
  take_slot_by name s (some (sem, none)) h e spec =
      let (more, room, settled, _, _) = spec in
      rw (e, take_slot)
        (
          put-IsReady (get s.semaphores name).0 name sem (get-IsReady s.semaphores name h) settled
              (omega (arith, room, has_slot s.semaphores name h)),
          λ other.
              slots-put_add (get s.semaphores name).0 name other sem
                (omega (arith, more, held-get s.semaphores name, slots-get s.semaphores name name))
              ∙ ap (λ n. n + one_of name other) (slots-get s.semaphores name other),
        )
  take_slot_by name s (some (sem, some x)) h e spec =
      let (same, _, _) = spec in
      rw (e, take_slot)
        (
          put-IsReady (get s.semaphores name).0 name sem (get-IsReady s.semaphores name h)
              (rw same (get-IsSettled s.semaphores name h))
              (rw same (has_slot s.semaphores name h)),
          λ other.
              slots-put_same (get s.semaphores name).0 name other sem
                (rw same (get_lem s.semaphores name).0)
              ∙ slots-get s.semaphores name other
              ∙ omega arith,
        )

  pub take_slot-Moves :
      (name : String) (s : Shared F W)
      → IsReady s.semaphores
      → Moves
          (if (take_slot rt r name s).1 then one_of name else no_slot)
          s
          (take_slot rt r name s).0
  take_slot-Moves name s h = take_slot_by name s _ h refl (
      acquire-AcquireSpec (rt.context_error s.world) (rt.prefers_done s.world)
        (get s.semaphores name).1 (get-IsSettled s.semaphores name h))

  -- `Release` gives back one slot, if one is taken.
  give_slot-back :
      (name : String) (s : Shared F W)
      → IsReady s.semaphores
      → 1 ≤ slots s.semaphores name
      → Moves (one_of name) (give_slot rt r name s) s × IsReady (give_slot rt r name s).semaphores
  unfolding give_slot
  give_slot-back name s h one =
      let (settled, less) =
        release-IsSettled (get s.semaphores name).1 (get-IsSettled s.semaphores name h) in
      (
        (
          h,
          λ other.
              sym (slots-get s.semaphores name other)
              ∙ sym (
                  slots-put_sub (get s.semaphores name).0 name other
                    (release (get s.semaphores name).1)
                    (omega
                      (arith, less, held-get s.semaphores name, slots-get s.semaphores name name))),
        ),
        put-IsReady (get s.semaphores name).0 name (release (get s.semaphores name).1)
            (get-IsReady s.semaphores name h) settled
            (rw (release-capacity (get s.semaphores name).1) (has_slot s.semaphores name h)),
      )

  abbrev after : Visit F W ChatResponse → Shared F W
  after (answered resp meta s) = s
  after (go_on meta last s) = s

  pub Visit-cases :
      (v : Visit F W ChatResponse)
      → ((resp : ChatResponse) × (meta : ExecutionMeta F) × (s : Shared F W) × (v
            ≡ answered resp meta s))
        ⊎ ((meta : ExecutionMeta F) × (last : Option Error) × (s : Shared F W) × (v
              ≡ go_on meta last s))
  Visit-cases (answered resp meta s) = inl (resp, meta, s, refl)
  Visit-cases (go_on meta last s) = inr (meta, last, s, refl)

  conclude-semaphores :
      (p : Provider F W S) (e : EndpointConfig) (i : ℕ) (meta : ExecutionMeta F)
      (last : Option Error) (o : Option ChatResponse) (x : Option Error) (s : Shared F W)
      → (after (conclude rt r p e i meta last o x s)).semaphores ≡ s.semaphores
  unfolding conclude
  conclude-semaphores p e i meta last (some resp) none s = refl
  conclude-semaphores p e i meta last none none s = refl
  conclude-semaphores p e i meta last (some resp) (some x) s = refl
  conclude-semaphores p e i meta last none (some x) s = refl

  -- Ready, and as many slots taken of each semaphore as before.
  abbrev pub Kept : Shared F W → Shared F W → Type 0
  Kept s s' = Moves no_slot s s'

  pub give_slot-Kept :
      (name : String) (s0 s : Shared F W)
      → Moves (one_of name) s0 s
      → Kept s0 (give_slot rt r name s)
  give_slot-Kept name s0 s (h, more) =
      let one : one_of name name ≡ 1 = rw (eq_refl name) in
      let ((_, fewer), ready) = give_slot-back name s h (omega (arith, more name, one)) in
      (ready, λ other. omega (arith, fewer other, more other))

  run_endpoint-Kept :
      (req : ChatRequest F) (p : Provider F W S) (e : EndpointConfig) (i : ℕ)
      (meta : ExecutionMeta F) (last : Option Error) (s0 s : Shared F W)
      → Moves (one_of e.provider) s0 s
      → Kept s0 (after (run_endpoint rt r req p e i meta last s))
  unfolding run_endpoint
  run_endpoint-Kept req p e i meta last s0 s more =
      let w : W = (execute_with_result (environment rt r p req e.model) r.retry_config s.world).1 in
      rw conclude-semaphores (give_slot-Kept e.provider s0 (record s { world = w }) more)

  pub check_breaker-semaphores :
      (name : String) (s : Shared F W) → (check_breaker rt r name s).0.semaphores ≡ s.semaphores
  unfolding check_breaker
  check_breaker-semaphores name s = elim (Option-cases (lookup name s.circuit_breakers)) [
    | inl e ↦ rw (e, check_breaker)
    | inr (cb, e) ↦ rw (e, check_breaker)
  ]

  -- The endpoint's turn once the breaker has let the request pass.
  admitted-Kept :
      (req : ChatRequest F) (e : EndpointConfig) (i : ℕ) (meta : ExecutionMeta F)
      (last : Option Error) (s0 s : Shared F W)
      → Kept s0 s
      → Kept s0 (after (admitted rt r req e i meta last s))
  unfolding admitted
  admitted-Kept req e i meta last s0 s k = elim (Option-cases (lookup e.provider r.providers)) [
    | inl n ↦ rw (n, admitted) k
    | inr (p, n) ↦ elim (Bool-cases (take_slot rt r e.provider s).1) [
      | inl t ↦
          rw (n, t, admitted)
            (run_endpoint-Kept req p e i meta last s0 (take_slot rt r e.provider s).0 (
              Moves-trans (one_of e.provider) s0 s (take_slot rt r e.provider s).0 k
                (rw t at (take_slot-Moves e.provider s k.0))))
      | inr t ↦
          rw (n, t, admitted)
            (Moves-trans no_slot s0 s (take_slot rt r e.provider s).0 k
              (rw t at (take_slot-Moves e.provider s k.0)))
    ]
  ]

  visit-Kept :
      (req : ChatRequest F) (e : EndpointConfig) (i : ℕ) (meta : ExecutionMeta F)
      (last : Option Error) (s0 s : Shared F W)
      → Kept s0 s
      → Kept s0 (after (visit rt r req e i meta last s))
  unfolding visit
  visit-Kept req e i meta last s0 s k =
      let k' : Kept s0 (check_breaker rt r e.provider s).0 =
        rw (check_breaker-semaphores e.provider s) k in
      elim (Bool-cases (check_breaker rt r e.provider s).1) [
        | inl t ↦ rw (t, visit) (admitted-Kept req e i meta last s0 _ k')
        | inr t ↦ rw (t, visit) k'
      ]

  chat_loop-Kept :
      (req : ChatRequest F) (es : List EndpointConfig) (i : ℕ) (meta : ExecutionMeta F)
      (last : Option Error) (s0 s : Shared F W)
      → Kept s0 s
      → Kept s0 (chat_loop rt r req es i meta last s).1
  unfolding chat_loop
  chat_loop-Kept req [] i meta last s0 s k = k
  chat_loop-Kept req (e ∷ es) i meta last s0 s k =
      elim (Visit-cases (visit rt r req e i meta last s)) [
        | inl (resp, meta', s', v) ↦
            rw (v, chat_loop) (rw v at (visit-Kept req e i meta last s0 s k))
        | inr (meta', last', s', v) ↦
            rw (v, chat_loop)
              (chat_loop-Kept req es (i + 1) meta' last' s0 s'
                (rw v at (visit-Kept req e i meta last s0 s k)))
      ]

  -- However a chat request ends (answered, or failed on every endpoint, or with an unknown model), it
  -- holds no slot afterwards: of each provider's semaphore as many slots are taken as before, and the
  -- semaphores stay settled. This needs no assumption on the providers, the context or the clock.
  pub execute_chat-Kept :
      (req : ChatRequest F) (s : Shared F W)
      → IsReady s.semaphores
      → Kept s (execute_chat rt r req s).1
  unfolding execute_chat
  execute_chat-Kept req s h = elim (Option-cases (find_model rt r req.model)) [
    | inl e ↦ rw (e, execute_chat) (h, λ name. omega arith)
    | inr (m, e) ↦
        rw (e, execute_chat)
          (chat_loop-Kept req (endpoints rt r m) 0 (start_meta rt r) none s s
            (h, λ name. omega arith))
  ]
