-- ===== src/Server/Completions/Slots.antt =====
-- internal/server/handlers.go: the slots of the semaphores over any requests for chat completions.
use resillm.Common.{
  ℕ, ◌≡◌, refl, ap, sym, subst, inl, inr, ◌⊎◌, String, Bool, true, false, Option, none, some,
  none≢some, some-inj, arith, FloatOps, Option-cases, Bool-cases, if◌then◌else◌, pos,
}
use resillm.Api.{ChatRequest}
use resillm.Budget.{Tracker, check}
use resillm.Router.{Runtime, Router, Reply, Shared}
use resillm.Router.Slots.{Moves, Moves-trans, execute_chat-Kept}
use resillm.Semaphore.Slots.{no_slot}
use resillm.Semaphore.Registry.{IsReady}
use resillm.Server.{
  Server, ChatReply, error_reply, chat_reply, to_stream, nil_dereference, validate_request,
  record_chat, answer_chat, run_chat, check_chat, handle_chat,
}
use resillm.Server.Streaming
use resillm.Server.Streaming.{
  ChatStream, StreamReply, not_supported, streamed, handle_streaming_chat,
}
use resillm.Server.Streaming.Copy.{IsServed, handle_streaming_chat-IsServed}
use resillm.Server.Completions.{
  Body, too_large, unreadable, read_all, Incoming, Answer, finish, after_decode, after_read,
  request_id_of, handle_chat_completions,
}

abbrev Stays : {F : FloatOps} {W : Type 0} → Shared F W → Server F W → Type 0
Stays s t = Moves no_slot s t.shared

module _ {F : FloatOps} {W S : Type 0} (rt : Runtime F W) (r : Router F W S) where
  record_chat_shared :
      (cost : F.Float) (s : Server F W) → (record_chat rt r cost s).shared ≡ s.shared
  unfolding record_chat
  record_chat_shared cost s = elim (Option-cases s.budget) [
    | inl e ↦ rw (e, record_chat) refl
    | inr (t, e) ↦ elim (Bool-cases (F.lt (F.of_int (pos 0)) cost)) [
      | inl k ↦ rw (e, record_chat) (rw k refl)
      | inr k ↦ rw (e, record_chat) (rw k refl)
    ]
  ]

  answer_chat_shared :
      (warning : Option String) (reply : Reply F _) (s : Server F W)
      → (answer_chat rt r warning reply s).1.shared ≡ s.shared
  unfolding answer_chat
  answer_chat_shared warning reply s = elim (Option-cases reply.error) [
    | inr (e, k) ↦ rw (k, answer_chat) refl
    | inl k ↦ elim (Option-cases reply.meta) [
      | inl m ↦ rw (k, m, answer_chat) refl
      | inr (meta, m) ↦ elim (Option-cases reply.response) [
        | inl v ↦ rw (k, m, v, answer_chat) refl
        | inr (resp, v) ↦ rw (k, m, v, answer_chat) (record_chat_shared meta.cost s)
      ]
    ]
  ]

  run_chat-Stays :
      (stream : Bool) (req : ChatRequest F) (warning : Option String) (s : Server F W)
      → IsReady s.shared.semaphores
      → Stays s.shared (run_chat rt r stream req warning s).1
  unfolding run_chat
  run_chat-Stays true req warning s h = (h, λ name. omega arith)
  run_chat-Stays false req warning s h =
      subst (Moves no_slot s.shared) (sym (answer_chat_shared warning _ _))
        (execute_chat-Kept rt r req s.shared h)

  check_chat-Stays :
      (req : ChatRequest F) (t : Tracker F) (s : Server F W)
      → IsReady s.shared.semaphores
      → Stays s.shared (check_chat rt r req t s).1
  unfolding check_chat
  check_chat-Stays req t s h =
      let now = rt.now s.shared.world in
      let (t', result) = check now now (F.of_int (pos 0)) t in
      elim (Bool-cases (check now now (F.of_int (pos 0)) t).1.allowed) [
        | inl e ↦
            rw (e, check_chat)
              (run_chat-Stays req.stream req (if result.warning then some result.message else none)
                (record s { budget = some t' }) h)
        | inr e ↦ rw (e, check_chat) (h, λ name. omega arith)
      ]

  handle_chat-Stays :
      (req : ChatRequest F) (s : Server F W)
      → IsReady s.shared.semaphores
      → Stays s.shared (handle_chat rt r req s).1
  unfolding handle_chat
  handle_chat-Stays req s h = elim (Option-cases (validate_request req)) [
    | inr (x, v) ↦ rw (v, handle_chat) (h, λ name. omega arith)
    | inl v ↦ elim (Option-cases s.budget) [
      | inl e ↦ rw (v, e, handle_chat) (run_chat-Stays req.stream req none s h)
      | inr (t, e) ↦ rw (v, e, handle_chat) (check_chat-Stays req t s h)
    ]
  ]

module _ {F : FloatOps} {W S C : Type 0} (rt : Runtime F W) (r : Router F W S)
    (cs : ChatStream W S C) (format_cost : F.Float → String)
    (decode : String → ChatRequest F ⊎ String) where
  streaming-Stays :
      (s : Shared F W) (o : StreamReply × Shared F W)
      → IsReady s.semaphores
      → IsServed rt r cs s o
      → Moves no_slot s o.1
  streaming-Stays s (not_supported, s') h e =
      subst (Moves no_slot s) (sym e) (h, λ name. omega arith)
  streaming-Stays s (streamed headers events, s') h (closed, kept) = kept
  streaming-Stays s (Streaming.nil_dereference, s') h e = elim e [ ]

  finish-Stays :
      (n : ℕ) (is_flusher : Bool) (id : String) (start : ℕ) (s0 : Shared F W) (reply : ChatReply F)
      (s : Server F W) (a : Answer F) (t : Server F W)
      → Stays s0 s
      → finish rt r cs format_cost decode n is_flusher id start (reply, s) ≡ some (a, t)
      → Stays s0 t
  unfolding finish
  finish-Stays n is_flusher id start s0 (to_stream req warning) s a t h e =
      elim (Option-cases (handle_streaming_chat rt r cs n is_flusher id req s.shared)) [
        | inl k ↦ absurd (none≢some _ (rw (k, finish) at e))
        | inr ((reply, shared), k) ↦
            subst (Stays s0) (ap (λ x. x.1) (some-inj _ _ (rw (k, finish) at e))) (
              Moves-trans no_slot s0 s.shared shared h (
                streaming-Stays s.shared (reply, shared) h.0
                  (handle_streaming_chat-IsServed rt r cs n is_flusher id req s.shared
                    (reply, shared) h.0 k)))
      ]
  finish-Stays n is_flusher id start s0 (chat_reply resp meta warning) s a t h e =
      subst (Stays s0) (ap (λ x. x.1) (some-inj _ _ e)) h
  finish-Stays n is_flusher id start s0 (error_reply status kind message) s a t h e =
      subst (Stays s0) (ap (λ x. x.1) (some-inj _ _ e)) h
  finish-Stays n is_flusher id start s0 nil_dereference s a t h e =
      subst (Stays s0) (ap (λ x. x.1) (some-inj _ _ e)) h

  decoded-Stays :
      (n : ℕ) (incoming : Incoming) (d : ChatRequest F ⊎ String) (s : Server F W) (a : Answer F)
      (t : Server F W)
      → IsReady s.shared.semaphores
      → after_decode rt r cs format_cost decode n incoming d s ≡ some (a, t)
      → Stays s.shared t
  unfolding after_decode
  decoded-Stays n incoming (inr x) s a t h e =
      subst (Stays s.shared) (ap (λ x. x.1) (some-inj _ _ e)) (h, λ name. omega arith)
  decoded-Stays n incoming (inl req) s a t h e =
      let now = rt.now s.shared.world in
      let (reply, s') = handle_chat rt r req s in
      finish-Stays n incoming.is_flusher (request_id_of now incoming) now s.shared reply s' a t
        (handle_chat-Stays rt r req s h) e

  read-Stays :
      (n : ℕ) (incoming : Incoming) (body : Body) (s : Server F W) (a : Answer F) (t : Server F W)
      → IsReady s.shared.semaphores
      → after_read rt r cs format_cost decode n incoming body s ≡ some (a, t)
      → Stays s.shared t
  unfolding after_read
  read-Stays n incoming too_large s a t h e =
      subst (Stays s.shared) (ap (λ x. x.1) (some-inj _ _ e)) (h, λ name. omega arith)
  read-Stays n incoming unreadable s a t h e =
      subst (Stays s.shared) (ap (λ x. x.1) (some-inj _ _ e)) (h, λ name. omega arith)
  read-Stays n incoming (read_all body) s a t h e = decoded-Stays n incoming (decode body) s a t h e

  -- Requests, one after the other, each with the rounds that its stream may take.
  pub data Requests (s : Server F W) : Server F W → Type 0 where
    no_request : Requests s s
    request :
        {t u : Server F W} (n : ℕ) (incoming : Incoming) (a : Answer F)
        → Requests s t
        → handle_chat_completions rt r cs format_cost decode n incoming t ≡ some (a, u)
        → Requests s u

  -- After any requests for chat completions, whatever their bodies, their streams and the providers'
  -- answers, each semaphore has as many slots taken as before the first: no request, refused,
  -- failed, answered or streamed, leaves a slot taken.
  pub Requests-Stays :
      {s t : Server F W}
      → IsReady s.shared.semaphores
      → Requests s t
      → Moves no_slot s.shared t.shared
  unfolding handle_chat_completions
  Requests-Stays h no_request = (h, λ name. omega arith)
  Requests-Stays {s} {t} h (request {t = v} n incoming a q e) =
      let kept = Requests-Stays h q in
      Moves-trans no_slot s.shared v.shared t.shared kept
        (read-Stays n incoming incoming.body v a t kept.0 e)
