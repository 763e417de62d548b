-- ===== src/Router/Stream/Tests.antt =====
-- internal/router/router.go: runs of streaming requests, and the theorem there.
use resillm.Common.{◌≡◌, refl, false, none, some, [], lookup, insert, modify, pos}
use resillm.Circuit
use resillm.Circuit.{closed, allow}
use resillm.Semaphore.{new_provider_semaphores, acquire, release, get}
use resillm.Semaphore.Slots.{slots}
use resillm.Router.{unknown_model, find_model, check_breaker, take_slot, breaker_success}
use resillm.Router.Tests.{runtime, router, shared, request}
use resillm.Router.Stream.{execute_chat_stream, new_router, update_models, update_retry_config}

-- The primary streams, and keeps its slot.
streams :
    let (reply, s) = execute_chat_stream (runtime false) router (request "gpt") (shared closed) in
    (reply.response ≡ some (record { stream = 1; sem = "openai"; provider = "openai" }))
    × (slots s.semaphores "openai" ≡ 1)
unfolding execute_chat_stream lookup insert modify allow Circuit.record_success acquire release get
    find_model check_breaker take_slot breaker_success
streams = (refl, refl)

no_models :
    (execute_chat_stream
      (runtime false)
      (update_models [] router)
      (request "gpt")
      (shared closed)).0.error
    ≡ some (unknown_model "gpt")
unfolding execute_chat_stream update_models lookup find_model
no_models = refl

fresh :
    (new_router router.models router.providers []
      (update_retry_config router.retry_config router).retry_config
      none
      (pos 0)
      0).1.semaphores.capacity
    ≡ pos 200
unfolding new_router new_provider_semaphores
fresh = refl
