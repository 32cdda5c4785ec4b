-- ===== src/WebServer/Session.antt =====
-- WebSockHttpFlexServer.cpp: WebSocketSession, its queue of messages and its reads. What
-- Boost.Beast does is a sequence of events: an operation that was started ends in one of them.
use kuksa_val.Prelude.{String, Bool, true, false, List, [], ◌∷◌, ◌++◌, if◌then◌else◌}
use kuksa_val.Exception.{Result, ok, err}

-- writeQueue_; the messages of the operations async_write that have not ended; the messages
-- whose operation has ended well; whether the connection table has the session; whether a read
-- is under way.
pub record WebSocketSession : Type 0 where
  pub write_queue : List String
  pub writing : List String
  pub sent : List String
  pub registered : Bool
  pub reading : Bool

-- The error code that an operation ends with.
pub data ErrorCode : Type 0 where
  success operation_aborted closed failure : ErrorCode

pub data Event : Type 0 where
  -- write, by SendToConnection
  message : String → Event
  -- the end of async_write, and of async_read with what is in the buffer
  write_ended : ErrorCode → Event
  read_ended : ErrorCode → String → Event

abbrev pub start_write : String → WebSocketSession → WebSocketSession
start_write text s = record s { writing = s.writing ++ text ∷ [] }

-- The end of write: only a message that is alone in the queue is sent at once.
abbrev pub write_if_first : List String → WebSocketSession → WebSocketSession
write_if_first (text ∷ []) s = start_write text s
write_if_first queue s = s

unfoldable pub write : String → WebSocketSession → WebSocketSession
write text s =
    write_if_first (s.write_queue ++ text ∷ [])
      (record s { write_queue = s.write_queue ++ text ∷ [] })

-- What onWrite does after an operation that has ended well, with the queue after pop_front.
abbrev pub write_next : List String → WebSocketSession → WebSocketSession
write_next [] s = record s { write_queue = [] }
write_next (text ∷ queue) s = start_write text (record s { write_queue = text ∷ queue })

abbrev pub drop_front : List String → List String
drop_front [] = []
drop_front (text ∷ queue) = queue

-- onWrite, when the oldest operation ends; fail removes the session from the table.
unfoldable pub on_write : ErrorCode → WebSocketSession → WebSocketSession
on_write operation_aborted s = s
on_write success s = write_next (drop_front s.write_queue) s
on_write _ s = record s { registered = false }

module _ (request_handler : String → Result String) where
  -- An exception of the request handler leaves onRead: nothing is written and no read starts.
  abbrev pub reply : Result String → WebSocketSession → WebSocketSession
  reply (err e) s = s
  reply (ok text) s = record (write text s) { reading = true }

  -- onRead: after any other error than these two the session is removed and goes on all the same.
  unfoldable pub on_read : ErrorCode → String → WebSocketSession → WebSocketSession
  unfolding write
  on_read operation_aborted buffer s = s
  on_read closed buffer s = record s { registered = false }
  on_read failure buffer s = reply (request_handler buffer) (record s { registered = false })
  on_read success buffer s = reply (request_handler buffer) s

  -- The operation that ends is no longer under way when its handler runs.
  abbrev pub end_write : ErrorCode → List String → WebSocketSession → WebSocketSession
  end_write ec [] s = s
  end_write success (text ∷ writing) s =
      on_write success (record s { writing = writing; sent = s.sent ++ text ∷ [] })
  end_write ec (text ∷ writing) s = on_write ec (record s { writing = writing })

  unfoldable pub handle : Event → WebSocketSession → WebSocketSession
  unfolding write on_write on_read
  handle (message text) s = write text s
  handle (write_ended ec) s = end_write ec s.writing s
  handle (read_ended ec buffer) s = on_read ec buffer (record s { reading = false })

  abbrev pub is_err : Result String → Bool
  is_err (err e) = true
  is_err (ok text) = false

  -- Whether the event ends in an exception, which nothing catches: it leaves ioc_.run and, with
  -- its thread, ends the process.
  unfoldable pub throws : Event → Bool
  throws (read_ended success buffer) = is_err (request_handler buffer)
  throws (read_ended failure buffer) = is_err (request_handler buffer)
  throws e = false

  unfoldable pub handle_all : List Event → WebSocketSession → WebSocketSession
  unfolding handle throws
  handle_all [] s = s
  handle_all (e ∷ events) s =
      let rest = handle_all events (handle e s) in if throws e then handle e s else rest
