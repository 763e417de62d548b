-- ===== src/Server/Streaming/Copy.antt =====
-- internal/server/handlers.go: the loop of handleStreamingChat, and the slot of the stream.
use resillm.Common.{
  ℕ, zero, suc, ◌<◌, String, Bool, true, false, Option, none, some, List, [], ◌∷◌, ◌++◌, map,
  length, FloatOps, Map, ◌≡◌, refl, sym, subst, arith, Option-cases, inl, inr, some-inj,
}
use resillm.Api.{ChatRequest, ExecutionMeta}
use resillm.Errors.{Error}
use resillm.Router.{Runtime, Router, Reply, Shared}
use resillm.Router.Slots.{Moves}
use resillm.Router.Stream.{StreamResult, execute_chat_stream, close_stream}
use resillm.Router.Stream.Held.{
  IsReply, execute_chat_stream-Moves, execute_chat_stream-IsReply, close_stream-world,
  close_stream-none,
}
use resillm.Semaphore.Slots.{no_slot}
use resillm.Semaphore.Registry.{IsReady}
use resillm.Server.Streaming.{
  Received, chunk, end_of_stream, broken, ChatStream, Event, data_event, error_event, done_event,
  stream_failed, not_encoded, failure, StreamReply, not_supported, streamed, nil_dereference,
  first_event, after_recv, copy_stream, clean_up, answer_stream, with_meta, event_headers,
  handle_streaming_chat,
}

module _ {F : FloatOps} {W S C : Type 0} (rt : Runtime F W) (r : Router F W S)
    (cs : ChatStream W S C) where
  -- How a stream goes on from a state of the world: the chunks that the provider sends while the
  -- client is there, what the client is told at the end, and the world then.
  pub data Plays (stream : S) : W → List String → List Event → W → Type 0 where
    client_left :
        {w : W} (e : Error) → rt.context_error w ≡ some e → Plays stream w [] (done_event ∷ []) w
    finished :
        {w w' : W}
        → rt.context_error w ≡ none
        → cs.recv stream w ≡ (end_of_stream, w')
        → Plays stream w [] (done_event ∷ []) w'
    fails :
        {w w' : W} (e : Error)
        → rt.context_error w ≡ none
        → cs.recv stream w ≡ (broken e, w')
        → Plays stream w [] (failure (stream_failed e)) w'
    unencoded :
        {w w' : W} (c : C)
        → rt.context_error w ≡ none
        → cs.recv stream w ≡ (chunk c, w')
        → cs.marshal c ≡ none
        → Plays stream w [] (failure not_encoded) w'
    sends :
        {w w' w'' : W} {texts : List String} {end : List Event} (c : C) (text : String)
        → rt.context_error w ≡ none
        → cs.recv stream w ≡ (chunk c, w')
        → cs.marshal c ≡ some text
        → Plays stream w' texts end w''
        → Plays stream w (text ∷ texts) end w''

  copy_stream-Plays :
      (stream : S) (w w' : W) (texts : List String) (end : List Event) (n : ℕ)
      → length texts < n
      → Plays stream w texts end w'
      → copy_stream rt r cs n stream w ≡ some (map data_event texts ++ end, w')
  unfolding copy_stream after_recv
  copy_stream-Plays stream w w' texts end zero h p = absurd (omega (arith, h))
  copy_stream-Plays stream _ _ _ _ (suc n) h (Plays.client_left e c) = rw (c, copy_stream) refl
  copy_stream-Plays stream _ _ _ _ (suc n) h (Plays.finished c v) = rw (c, v, copy_stream) refl
  copy_stream-Plays stream _ _ _ _ (suc n) h (Plays.fails e c v) = rw (c, v, copy_stream) refl
  copy_stream-Plays stream _ _ _ _ (suc n) h (Plays.unencoded x c v m) =
      rw (c, v, m, copy_stream, after_recv) refl
  copy_stream-Plays stream _ w'' _ end (suc n) h
        (Plays.sends {w' = w'} {texts = texts} x text c v m p) =
      rw
        (
          c,
          v,
          m,
          copy_stream,
          after_recv,
          copy_stream-Plays stream w' w'' texts end n (omega (arith, h)) p,
        )
        refl

  -- The last event, and no other, is the end marker.
  abbrev pub IsClosed : List Event → Type 0
  IsClosed [] = ⊥
  IsClosed (done_event ∷ xs) = xs ≡ []
  IsClosed (data_event text ∷ xs) = IsClosed xs
  IsClosed (error_event e ∷ xs) = IsClosed xs

  abbrev IsClosedAfter : Option (List Event × W) → Type 0
  IsClosedAfter none = Unit
  IsClosedAfter (some (xs, w)) = IsClosed xs

  first_event-IsClosed :
      (text : String) (o : Option (List Event × W))
      → IsClosedAfter o
      → IsClosedAfter (first_event rt r cs (data_event text) o)
  first_event-IsClosed text none h = tt
  first_event-IsClosed text (some (xs, w)) h = h

  after_recv-IsClosed :
      (rest : W → Option (List Event × W)) (got : Received C × W)
      → ((w : W) → IsClosedAfter (rest w))
      → IsClosedAfter (after_recv rt r cs rest got)
  unfolding after_recv
  after_recv-IsClosed rest (end_of_stream, w) h = refl
  after_recv-IsClosed rest (broken e, w) h = refl
  after_recv-IsClosed rest (chunk c, w) h = elim (Option-cases (cs.marshal c)) [
    | inl m ↦ rw (m, after_recv) refl
    | inr (text, m) ↦ rw (m, after_recv) (first_event-IsClosed text (rest w) (h w))
  ]

  copy_stream-IsClosed :
      (n : ℕ) (stream : S) (w : W) → IsClosedAfter (copy_stream rt r cs n stream w)
  unfolding copy_stream
  copy_stream-IsClosed zero stream w = tt
  copy_stream-IsClosed (suc n) stream w = elim (Option-cases (rt.context_error w)) [
    | inl c ↦
        rw (c, copy_stream)
          (after_recv-IsClosed (λ w'. copy_stream rt r cs n stream w') (cs.recv stream w)
            (λ w'. copy_stream-IsClosed n stream w'))
    | inr (e, c) ↦ rw (c, copy_stream) refl
  ]

  -- A reply to a streaming request, with the state before and after: what the client is sent ends
  -- with the one end marker, and no slot stays taken.
  abbrev pub IsServed : Shared F W → StreamReply × Shared F W → Type 0
  IsServed s (not_supported, s') = s' ≡ s
  IsServed s (streamed headers events, s') = IsClosed events × Moves no_slot s s'
  IsServed s (nil_dereference, s') = ⊥

  abbrev IsServedOnce : Shared F W → Option (StreamReply × Shared F W) → Type 0
  IsServedOnce s none = Unit
  IsServedOnce s (some o) = IsServed s o

  abbrev stream_reply : StreamResult S → ExecutionMeta F → Reply F (StreamResult S)
  stream_reply res meta = record { response = some res; meta = some meta; error = none }

  stream_reply-IsServed :
      (n : ℕ) (headers : Map String) (res : StreamResult S) (meta : ExecutionMeta F)
      (s0 s : Shared F W)
      → Moves no_slot s0 (close_stream rt r (some res) s)
      → IsServedOnce s0 (answer_stream rt r cs n headers (stream_reply res meta) s)
  unfolding answer_stream clean_up
  stream_reply-IsServed n headers res meta s0 s h =
      elim (Option-cases (copy_stream rt r cs n res.stream s.world)) [
        | inl o ↦ rw (o, answer_stream) tt
        | inr ((events, w), o) ↦
            rw (o, answer_stream)
              (
                subst IsClosedAfter o (copy_stream-IsClosed n res.stream s.world),
                close_stream-world rt r s0 s (cs.close res.stream w) res h,
              )
      ]

  answer_stream-IsServed :
      (n : ℕ) (headers : Map String) (reply : Reply F (StreamResult S)) (s0 s : Shared F W)
      → IsReply rt r reply
      → Moves no_slot s0 (close_stream rt r reply.response s)
      → IsServedOnce s0 (answer_stream rt r cs n headers reply s)
  unfolding answer_stream
  answer_stream-IsServed n headers reply s0 s (inr (meta, e, v)) h =
      rw v (refl, close_stream-none rt r s0 s (rw v at h))
  answer_stream-IsServed n headers reply s0 s (inl (res, meta, v)) h =
      subst (λ t. IsServedOnce s0 (answer_stream rt r cs n headers t s)) (sym v)
        (stream_reply-IsServed n headers res meta s0 s (rw v at h))

  stream_reply-Plays :
      (n : ℕ) (headers : Map String) (res : StreamResult S) (meta : ExecutionMeta F)
      (s : Shared F W) (texts : List String) (end : List Event) (w : W)
      → Plays res.stream s.world texts end w
      → length texts < n
      → answer_stream rt r cs n headers (stream_reply res meta) s
        ≡ some (
          streamed (with_meta rt r cs meta headers) (map data_event texts ++ end),
          clean_up rt r cs res (record s { world = w }),
        )
  unfolding answer_stream
  stream_reply-Plays n headers res meta s texts end w p h =
      rw (copy_stream-Plays res.stream s.world w texts end n h p, answer_stream) refl

  -- A streaming request that is answered, in whatever way, is sent events of which the last, and no
  -- other, is the end marker, unless the connection cannot be flushed; the handler never reads the metadata
  -- through a nil pointer; and as many slots of each semaphore are taken afterwards as before.
  pub handle_streaming_chat-IsServed :
      (n : ℕ) (is_flusher : Bool) (request_id : String) (req : ChatRequest F) (s : Shared F W)
      (o : StreamReply × Shared F W)
      → IsReady s.semaphores
      → handle_streaming_chat rt r cs n is_flusher request_id req s ≡ some o
      → IsServed s o
  unfolding handle_streaming_chat
  handle_streaming_chat-IsServed n false request_id req s o h e = rw (sym (some-inj _ _ e)) refl
  handle_streaming_chat-IsServed n true request_id req s o h e = subst (IsServedOnce s) e (
      answer_stream-IsServed n (event_headers request_id) (execute_chat_stream rt r req s).0 s
        (execute_chat_stream rt r req s).1 (execute_chat_stream-IsReply rt r req s)
        (execute_chat_stream-Moves rt r req s h).1)

  -- A stream that goes on with some chunks and an end is copied whole: in one round more than there
  -- are chunks, or in any more rounds, the handler returns; the client has been sent every chunk in
  -- order and the end, and the stream is closed and its slot given back.
  pub handle_streaming_chat-Plays :
      (n : ℕ) (request_id : String) (req : ChatRequest F) (s s' : Shared F W) (res : StreamResult S)
      (meta : ExecutionMeta F) (texts : List String) (end : List Event) (w : W)
      → execute_chat_stream rt r req s
        ≡ (record { response = some res; meta = some meta; error = none }, s')
      → Plays res.stream s'.world texts end w
      → length texts < n
      → handle_streaming_chat rt r cs n true request_id req s
        ≡ some (
          streamed
              (with_meta rt r cs meta (event_headers request_id))
              (map data_event texts ++ end),
          clean_up rt r cs res (record s' { world = w }),
        )
  unfolding handle_streaming_chat
  handle_streaming_chat-Plays n request_id req s s' res meta texts end w e p h =
      rw e (stream_reply-Plays n (event_headers request_id) res meta s' texts end w p h)
