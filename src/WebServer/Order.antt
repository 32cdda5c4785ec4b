-- ===== src/WebServer/Order.antt =====
-- The order in which a web socket session sends its messages.
use kuksa_val.Prelude.{
  String, ◌≡◌, refl, sym, ap, ◌∙◌, false, List, [], ◌∷◌, ◌++◌, inl, inr, Bool-cases, if◌then◌else◌,
}
use kuksa_val.Exception.{Result, ok, err}
use mathlib.Core.List.{append_assoc, append-nil}
use kuksa_val.WebServer.Session.{
  WebSocketSession, ErrorCode, success, operation_aborted, closed, failure, Event, message,
  write_ended, read_ended, write_if_first, write, on_write, on_read, end_write, handle, handle_all,
  reply, throws,
}

-- At most one operation is under way, for the message at the front of the queue.
abbrev pub IsWriting : List String → List String → Type 0
IsWriting [] queue = Unit
IsWriting (text ∷ []) [] = ⊥
IsWriting (text ∷ []) (front ∷ queue) = text ≡ front
IsWriting (text ∷ text' ∷ writing) queue = ⊥

-- What the session is to send, in order: sent, queued, and given to write by an event.
abbrev pub outgoing : WebSocketSession → List String
outgoing s = s.sent ++ s.write_queue

IsWriting-append :
    (text first : String) (writing queue : List String)
    → IsWriting writing (first ∷ queue)
    → IsWriting writing ((first ∷ queue) ++ text ∷ [])
IsWriting-append text first [] queue h = tt
IsWriting-append text first (t ∷ []) queue h = h
IsWriting-append text first (t ∷ t' ∷ writing) queue h = h

write-IsWriting :
    (text : String) (queue : List String) (s : WebSocketSession)
    → s.write_queue ≡ queue
    → IsWriting s.writing queue
    → IsWriting (write text s).writing (write text s).write_queue
unfolding write
write-IsWriting text [] s q h = rw q (alone s.writing h)
  where
    alone :
        (writing : List String)
        → IsWriting writing []
        → IsWriting (writing ++ text ∷ []) (text ∷ [])
    alone [] h = refl
    alone (t ∷ []) h = absurd h
    alone (t ∷ t' ∷ writing) h = absurd h
write-IsWriting text (first ∷ []) s q h = rw q (IsWriting-append text first s.writing [] h)
write-IsWriting text (first ∷ next ∷ queue) s q h =
    rw q (IsWriting-append text first s.writing (next ∷ queue) h)

write_if_first-kept :
    (queue : List String) (s : WebSocketSession)
    → ((write_if_first queue s).sent ≡ s.sent)
      × ((write_if_first queue s).write_queue ≡ s.write_queue)
write_if_first-kept [] s = (refl, refl)
write_if_first-kept (text ∷ []) s = (refl, refl)
write_if_first-kept (text ∷ next ∷ queue) s = (refl, refl)

write-outgoing :
    (text : String) (s : WebSocketSession) → outgoing (write text s) ≡ outgoing s ++ text ∷ []
unfolding write
write-outgoing text s =
    let queue = s.write_queue ++ text ∷ [] in
    let (same, queued) = write_if_first-kept queue (record s { write_queue = queue }) in
    ap (λ sent. sent ++ (write text s).write_queue) same
    ∙ ap (λ q. s.sent ++ q) queued
    ∙ sym (append_assoc s.sent s.write_queue (text ∷ []))

module _ (request_handler : String → Result String) where
  -- The answer, unless the request handler throws.
  abbrev pub answer_of : Result String → List String
  answer_of (err e) = []
  answer_of (ok text) = text ∷ []

  -- The messages that an event gives to write.
  unfoldable pub given : Event → List String
  given (message text) = text ∷ []
  given (write_ended ec) = []
  given (read_ended success buffer) = answer_of (request_handler buffer)
  given (read_ended failure buffer) = answer_of (request_handler buffer)
  given (read_ended ec buffer) = []

  -- An exception is the end of the process and of what it sends.
  unfoldable pub given_all : List Event → List String
  unfolding given throws
  given_all [] = []
  given_all (e ∷ events) =
      let rest = given_all events in given e ++ (if throws request_handler e then [] else rest)

  -- The session is in order, and the event has added what it gives.
  abbrev IsNext : Event → WebSocketSession → WebSocketSession → Type 0
  IsNext e s s' = IsWriting s'.writing s'.write_queue × (outgoing s' ≡ outgoing s ++ given e)

  nothing_new : (s : WebSocketSession) → outgoing s ≡ outgoing s ++ []
  nothing_new s = sym (append-nil (outgoing s))

  end_write-IsNext :
      (ec : ErrorCode) (writing queue : List String) (s : WebSocketSession)
      → s.writing ≡ writing
      → s.write_queue ≡ queue
      → IsWriting writing queue
      → IsNext (write_ended ec) s (end_write request_handler ec writing s)
  unfolding on_write given
  end_write-IsNext ec [] queue s w q h = (rw w tt, nothing_new s)
  end_write-IsNext ec (t ∷ t' ∷ writing) queue s w q h = absurd h
  end_write-IsNext ec (t ∷ []) [] s w q h = absurd h
  end_write-IsNext success (t ∷ []) (first ∷ []) s w q h =
      rw q (tt, ap (λ x. (s.sent ++ x ∷ []) ++ []) h)
  end_write-IsNext success (t ∷ []) (first ∷ next ∷ queue) s w q h = rw q (
    refl,
    append_assoc s.sent (t ∷ []) (next ∷ queue)
        ∙ ap (λ x. s.sent ++ x ∷ next ∷ queue) h
        ∙ sym (append-nil (s.sent ++ first ∷ next ∷ queue)),
  )
  end_write-IsNext ec (t ∷ []) (first ∷ queue) s w q h = (tt, nothing_new s)

  reply-IsNext :
      (r : Result String) (s : WebSocketSession)
      → IsWriting s.writing s.write_queue
      → IsWriting (reply request_handler r s).writing (reply request_handler r s).write_queue
        × (outgoing (reply request_handler r s) ≡ outgoing s ++ answer_of r)
  reply-IsNext (err e) s h = (h, nothing_new s)
  reply-IsNext (ok text) s h = (write-IsWriting text s.write_queue s refl h, write-outgoing text s)

  handle-IsNext :
      (e : Event) (s : WebSocketSession)
      → IsWriting s.writing s.write_queue
      → IsNext e s (handle request_handler e s)
  unfolding handle on_read given
  handle-IsNext (message text) s h =
      (write-IsWriting text s.write_queue s refl h, write-outgoing text s)
  handle-IsNext (write_ended ec) s h = end_write-IsNext ec s.writing s.write_queue s refl refl h
  handle-IsNext (read_ended success buffer) s h =
      reply-IsNext (request_handler buffer) (record s { reading = false }) h
  handle-IsNext (read_ended failure buffer) s h =
      reply-IsNext (request_handler buffer) (record s { reading = false; registered = false }) h
  handle-IsNext (read_ended operation_aborted buffer) s h = (h, nothing_new s)
  handle-IsNext (read_ended closed buffer) s h = (h, nothing_new s)

  -- Whatever happens, at most one write is under way at a time, for the message at the front of
  -- the queue; and the messages sent, followed by those queued, are the ones given to write, in
  -- their order, up to an exception of the request handler.
  pub handle_all-IsWriting :
      (events : List Event) (s : WebSocketSession)
      → IsWriting s.writing s.write_queue
      → IsWriting
          (handle_all request_handler events s).writing
          (handle_all request_handler events s).write_queue
        × (outgoing (handle_all request_handler events s) ≡ outgoing s ++ given_all events)
  unfolding handle_all given_all
  handle_all-IsWriting [] s h = (h, nothing_new s)
  handle_all-IsWriting (e ∷ events) s h =
      let (writing, added) = handle-IsNext e s h in
      let (later, rest) = handle_all-IsWriting events (handle request_handler e s) writing in
      elim (Bool-cases (throws request_handler e)) [
        | inl thrown ↦
            rw thrown (writing, added ∙ ap (λ out. outgoing s ++ out) (sym (append-nil (given e))))
        | inr fine ↦ rw fine (
          later,
          rest
              ∙ ap (λ out. out ++ given_all events) added
              ∙ append_assoc (outgoing s) (given e) (given_all events),
        )
      ]
