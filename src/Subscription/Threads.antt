-- ===== src/Subscription/Threads.antt =====
-- The threads of SubscriptionHandler: the worker (subThreadRunner), a thread that publishes, and
-- the one that stops the worker, over `accessMutex`, `subMutex` and the condition variable. A
-- schedule is a list of moves; a move that its thread cannot make yet is `none`. The worker wakes
-- up only when it is notified.
pub mod Interleavings
pub mod Deadlock
use kuksa_val.Channel.{KuksaChannel, is_grpc}
use kuksa_val.Prelude.{
  ℕ, String, ◌≡◌, Bool, true, false, Option, none, some, List, [], ◌∷◌, ◌++◌, map, ◌||◌,
  if◌then◌else◌,
}
use kuksa_val.Json.{Json}
use kuksa_val.Subscription.State.{Key, Notification, Handler, find_key, push_all, unsubscribe_all}

pub data Mutex : Type 0 where
  free by_worker by_publisher : Mutex

-- Where the worker stands in its loop.
pub data WorkerAt : Type 0 where
  test_running test_buffer lock_to_pop lock_to_wait waiting woken stopped : WorkerAt
  -- holds subMutex
  popped : Notification → WorkerAt
  -- holds subMutex, inside unsubscribeAll before it has accessMutex
  wants_access : KuksaChannel → WorkerAt

pub record Publication : Type 0 where
  pub key : Key
  pub datatype : String
  pub payload : Json

pub data PublisherAt : Type 0 where
  idle : PublisherAt
  calls : Publication → PublisherAt
  -- holds accessMutex, with the notifications that are still to be pushed
  pushing : List Notification → PublisherAt

pub data StopperAt : Type 0 where
  not_called wants_sub joining returned : StopperAt

-- `taken` are the notifications that the worker has popped so far, oldest first.
pub record System : Type 0 where
  pub handler : Handler
  pub access : Mutex
  pub sub : Mutex
  pub worker : WorkerAt
  pub publisher : PublisherAt
  pub stopper : StopperAt
  pub taken : List Notification

pub data Move : Type 0 where
  worker_moves publisher_moves stop_called stopper_moves : Move
  publish_called : Publication → Move

-- notify_one: a waiting worker goes on to lock subMutex again.
abbrev pub wake : WorkerAt → WorkerAt
wake waiting = woken
wake at = at

abbrev pub when_free : Mutex → System → Option System
when_free free s = some s
when_free _ s = none

abbrev pub pop_front : List Notification → System → Option System
pop_front [] s = none
pop_front (n ∷ rest) s = some (record s {
  handler = record s.handler { buffer = rest };
  sub = by_worker;
  worker = popped n;
  taken = s.taken ++ n ∷ [];
})

abbrev pub see_buffer : List Notification → WorkerAt
see_buffer [] = lock_to_wait
see_buffer (n ∷ rest) = lock_to_pop

module _ (connected : ℕ → Bool) where
  -- Whether the client of the notification is served without a call of unsubscribeAll.
  abbrev pub reachable : Notification → Bool
  reachable n = is_grpc n.channel.type_of_connection || connected n.channel.connection_id

  unfoldable pub worker_step : WorkerAt → System → Option System
  worker_step test_running s =
      some (record s { worker = if s.handler.thread_run then test_buffer else stopped })
  worker_step test_buffer s = some (record s { worker = see_buffer s.handler.buffer })
  worker_step lock_to_pop s = elim s.sub [ free ↦ pop_front s.handler.buffer s | _ ↦ none ]
  worker_step (popped n) s = some (
      if reachable n
      then record s { sub = free; worker = test_running }
      else record s { worker = wants_access n.channel })
  worker_step (wants_access channel) s =
      when_free s.access (record s {
        handler = unsubscribe_all channel s.handler;
        sub = free;
        worker = test_running;
      })
  worker_step lock_to_wait s = when_free s.sub (record s { worker = waiting })
  worker_step woken s = when_free s.sub (record s { worker = test_running })
  worker_step waiting s = none
  worker_step stopped s = none

  unfoldable pub publisher_step : PublisherAt → System → Option System
  unfolding push_all
  publisher_step idle s = none
  publisher_step (calls p) s = when_free s.access (record s {
    access = by_publisher;
    publisher = pushing (push_all (find_key p.key s.handler.subscriptions) p.datatype p.payload []);
  })
  publisher_step (pushing []) s = some (record s { access = free; publisher = idle })
  publisher_step (pushing (n ∷ rest)) s = when_free s.sub (record s {
    handler = record s.handler { buffer = s.handler.buffer ++ n ∷ [] };
    worker = wake s.worker;
    publisher = pushing rest;
  })

  -- stopThread: its test of threadRun, the block under subMutex, and the join.
  unfoldable pub stopper_step : StopperAt → System → Option System
  stopper_step wants_sub s = when_free s.sub (record s {
    handler = record s.handler { thread_run = false };
    worker = wake s.worker;
    stopper = joining;
  })
  stopper_step joining s = elim s.worker [
    | stopped ↦ some (record s { stopper = returned })
    | _ ↦ none
  ]
  stopper_step _ s = none

  abbrev start_publication : PublisherAt → Publication → System → Option System
  start_publication idle p s = some (record s { publisher = calls p })
  start_publication _ p s = none

  abbrev start_stop : StopperAt → System → Option System
  start_stop not_called s =
      some (record s { stopper = if s.handler.thread_run then wants_sub else returned })
  start_stop _ s = none

  unfoldable pub step : Move → System → Option System
  unfolding worker_step publisher_step stopper_step
  step worker_moves s = worker_step s.worker s
  step publisher_moves s = publisher_step s.publisher s
  step (publish_called p) s = start_publication s.publisher p s
  step stop_called s = start_stop s.stopper s
  step stopper_moves s = stopper_step s.stopper s

  -- A schedule in which every move can be made.
  pub data Run : System → System → Type 0 where
    here : {s : System} → Run s s
    move : {s t u : System} (m : Move) → step m s ≡ some t → Run t u → Run s u
