-- ===== src/Router/Abandoned.antt =====
-- internal/router/router.go and internal/resilience/circuitbreaker.go: a half-open breaker and a
-- request that gives up after the breaker let it pass.
use resillm.Common.{
  ℕ, suc, ◌<◌, ◌≡◌, refl, inl, inr, String, Bool, true, false, Option, none, some, List, [], ◌∷◌,
  length, All, arith, ap, subst, ◌∙◌, ◌+◌, lookup, insert, lookup-insert_self, Option-cases,
  FloatOps,
}
use resillm.Config.{EndpointConfig, ModelConfig}
use resillm.Errors.{Error}
use resillm.Api.{ChatRequest, ChatResponse, ExecutionMeta}
use resillm.Circuit.{CircuitBreaker, half_open, allow}
use resillm.Circuit.Traffic.{Probing, probe_passes, probe_refused}
use resillm.Semaphore.{acquire, send, get}
use resillm.Router.{
  Runtime, Router, Shared, all_providers_failed, Visit, go_on, check_breaker, take_slot, admitted,
  visit, chat_loop, execute_chat, find_model, start_meta,
}

module _ {F : FloatOps} {W S : Type 0} (rt : Runtime F W) (r : Router F W S)
    (req : ChatRequest F) where
  -- With the context done and preferred, no slot is taken, and the breakers are left alone.
  abbrev GivesUp : Shared F W → Shared F W × Bool → Type 0
  GivesUp s (s', taken) = (taken ≡ false) × (s'.circuit_breakers ≡ s.circuit_breakers)

  take_slot-GivesUp :
      (name : String) (x : Error) (s : Shared F W)
      → rt.context_error s.world ≡ some x
      → rt.prefers_done s.world ≡ true
      → GivesUp s (take_slot rt r name s)
  unfolding take_slot acquire
  take_slot-GivesUp name x s done prefers = elim (Option-cases (send (get s.semaphores name).1)) [
    | inl e ↦ rw (e, done, take_slot, acquire) (refl, refl)
    | inr (t, e) ↦ rw (e, done, prefers, take_slot, acquire) (refl, refl)
  ]

  -- The endpoint's turn passes on, and what it passes on has the breakers of `s`.
  abbrev PassesOn : ExecutionMeta F → Option Error → Shared F W → Visit F W ChatResponse → Type 0
  PassesOn meta last s v =
      (s' : Shared F W) × (v ≡ go_on meta last s') × (s'.circuit_breakers ≡ s.circuit_breakers)

  admitted-PassesOn :
      (e : EndpointConfig) (i : ℕ) (meta : ExecutionMeta F) (last : Option Error) (x : Error)
      (s : Shared F W)
      → rt.context_error s.world ≡ some x
      → rt.prefers_done s.world ≡ true
      → PassesOn meta last s (admitted rt r req e i meta last s)
  unfolding admitted
  admitted-PassesOn e i meta last x s done prefers =
      elim (Option-cases (lookup e.provider r.providers)) [
        | inl n ↦ (s, rw (n, admitted), refl)
        | inr (p, n) ↦
            let (untaken, same) = take_slot-GivesUp e.provider x s done prefers in
            ((take_slot rt r e.provider s).0, rw (n, untaken, admitted), same)
      ]

  -- The breaker of `name` has one more of its half-open requests used.
  abbrev UsedOne : ℕ → ℕ → String → Shared F W → Type 0
  UsedOne m c name s =
      (cb : CircuitBreaker) × (lookup name s.circuit_breakers ≡ some cb) × Probing m (suc c) cb

  visit_abandoned :
      (m c : ℕ) (cb : CircuitBreaker) (e : EndpointConfig) (i : ℕ) (meta : ExecutionMeta F)
      (last : Option Error) (x : Error) (s : Shared F W)
      → lookup e.provider s.circuit_breakers ≡ some cb
      → Probing m c cb
      → c < m
      → rt.context_error s.world ≡ some x
      → rt.prefers_done s.world ≡ true
      → (s' : Shared F W) × (visit rt r req e i meta last s ≡ go_on meta last s')
        × UsedOne m c e.provider s'
  unfolding visit check_breaker
  visit_abandoned m c cb e i meta last x s found probing lt done prefers =
      let cb' : CircuitBreaker = (allow (rt.now s.world) cb).0 in
      let s1 : Shared F W = record s {
        circuit_breakers = insert e.provider cb' s.circuit_breakers;
      } in
      let (passes, used) = probe_passes m c (rt.now s.world) cb probing lt in
      let (s', goes_on, same) = admitted-PassesOn e i meta last x s1 done prefers in
      (
        s',
        rw (found, passes, visit, check_breaker) goes_on,
        (cb', rw same (lookup-insert_self e.provider cb' s.circuit_breakers), used),
      )

  chat_loop_last :
      (e : EndpointConfig) (i : ℕ) (meta : ExecutionMeta F) (last : Option Error)
      (s s' : Shared F W)
      → visit rt r req e i meta last s ≡ go_on meta last s'
      → chat_loop rt r req (e ∷ []) i meta last s ≡ (
        record { response = none; meta = some meta; error = some (all_providers_failed last) },
        s',
      )
  unfolding chat_loop
  chat_loop_last e i meta last s s' v = rw (v, chat_loop)

  -- A request whose context is done before it gets a slot, on a model with one endpoint whose breaker
  -- is half-open with `c` of `m` requests used, fails and leaves the breaker half-open with `c + 1`
  -- used.
  abandoned_uses_probe :
      (m c : ℕ) (cb : CircuitBreaker) (mc : ModelConfig F) (x : Error) (s : Shared F W)
      → find_model rt r req.model ≡ some mc
      → mc.fallbacks ≡ []
      → lookup mc.primary.provider s.circuit_breakers ≡ some cb
      → Probing m c cb
      → c < m
      → rt.context_error s.world ≡ some x
      → rt.prefers_done s.world ≡ true
      → let (reply, s') = execute_chat rt r req s in
        (reply.error ≡ some (all_providers_failed none)) × UsedOne m c mc.primary.provider s'
  unfolding execute_chat
  abandoned_uses_probe m c cb mc x s model alone found probing lt done prefers =
      let (s', goes_on, used) =
        visit_abandoned m c cb mc.primary 0 (start_meta rt r) none x s found probing lt done
          prefers in
      rw (model, execute_chat)
        (rw (alone, chat_loop_last mc.primary 0 (start_meta rt r) none s s' goes_on) (refl, used))

module _ {F : FloatOps} {W S : Type 0} (r : Router F W S) where
  -- Requests one after the other, each with its own context.
  abbrev pub execute_all : List (Runtime F W × ChatRequest F) → Shared F W → Shared F W
  execute_all [] s = s
  execute_all ((rt, req) ∷ rest) s = execute_all rest (execute_chat rt r req s).1

  -- The request is for a model whose one endpoint is at the provider, and its context is done, and
  -- preferred to a free slot.
  abbrev pub IsAbandoned : String → Runtime F W × ChatRequest F → Type 0
  IsAbandoned name (rt, req) =
      (mc : ModelConfig F) × (find_model rt r req.model ≡ some mc)
      × (mc.fallbacks ≡ [])
      × (mc.primary.provider ≡ name)
      × ((w : W) → (x : Error) × (rt.context_error w ≡ some x))
      × ((w : W) → rt.prefers_done w ≡ true)

  abandoned_step :
      (m c : ℕ) (name : String) (cb : CircuitBreaker) (rt : Runtime F W) (req : ChatRequest F)
      (s : Shared F W)
      → lookup name s.circuit_breakers ≡ some cb
      → Probing m c cb
      → c < m
      → IsAbandoned name (rt, req)
      → UsedOne rt r req m c name (execute_chat rt r req s).1
  abandoned_step m c name cb rt req s found probing lt (mc, model, alone, at, done, prefers) =
      let (x, e) = done s.world in
      subst (λ n. UsedOne rt r req m c n (execute_chat rt r req s).1) at
        (abandoned_uses_probe rt r req m c cb mc x s model alone
          (ap (λ n. lookup n s.circuit_breakers) at ∙ found) probing lt e (prefers s.world)).1

  -- A half-open breaker with `c` of `m` requests used refuses every request, and stays half-open, as
  -- soon as `m - c` requests, one after the other, have found it on the one endpoint of their model
  -- with their contexts done and preferred to a free slot.
  pub abandoned_use_up :
      (m c now : ℕ) (name : String) (cb : CircuitBreaker)
      (callers : List (Runtime F W × ChatRequest F)) (s : Shared F W)
      → lookup name s.circuit_breakers ≡ some cb
      → Probing m c cb
      → c + length callers ≡ m
      → All (IsAbandoned name) callers
      → (used : CircuitBreaker) × (lookup name (execute_all callers s).circuit_breakers ≡ some used)
        × (used.state ≡ half_open)
        × (allow now used ≡ (used, false))
  abandoned_use_up m c now name cb [] s found probing n h =
      (cb, found, probing.is_half_open, probe_refused m c now cb probing (omega arith))
  abandoned_use_up m c now name cb ((rt, req) ∷ rest) s found probing n h =
      let (cb', found', probing') =
        abandoned_step m c name cb rt req s found probing (omega arith) h.0 in
      abandoned_use_up m (suc c) now name cb' rest (execute_chat rt r req s).1 found' probing'
        (omega arith) h.1
