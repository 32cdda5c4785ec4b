-- ===== src/Subscription/Threads/Interleavings.antt =====
-- What holds under every schedule.
use mathlib.Core.List.{append-nil, append_assoc}
use kuksa_val.Prelude.{
  ℕ, ◌≡◌, refl, sym, ap, ◌∙◌, Bool, true, false, Option, none, some, List, [], ◌∷◌, ◌++◌, arith,
}
use kuksa_val.Subscription.State.{Notification, unsubscribe_all}
use kuksa_val.Subscription.Threads.{
  System, Mutex, free, by_worker, by_publisher, WorkerAt, test_running, test_buffer, lock_to_pop,
  lock_to_wait, waiting, woken, stopped, popped, wants_access, StopperAt, not_called, wants_sub,
  joining, returned, PublisherAt, idle, calls, pushing, Move, worker_moves, publisher_moves,
  stop_called, stopper_moves, publish_called, wake, pop_front, step, worker_step, publisher_step,
  stopper_step, Run, here, move,
}

-- Who holds each mutex, read off the places of the threads.
abbrev pub in_section : WorkerAt → Bool
in_section (popped n) = true
in_section (wants_access channel) = true
in_section _ = false

abbrev pub is_pushing : PublisherAt → Bool
is_pushing (pushing ns) = true
is_pushing _ = false

abbrev pub sub_of : Bool → Mutex
sub_of true = by_worker
sub_of false = free

abbrev pub access_of : Bool → Mutex
access_of true = by_publisher
access_of false = free

pub record Locked (s : System) : Type 0 where
  pub sub_held : s.sub ≡ sub_of (in_section s.worker)
  pub access_held : s.access ≡ access_of (is_pushing s.publisher)

in_section-wake : (at : WorkerAt) → in_section (wake at) ≡ in_section at
in_section-wake waiting = refl
in_section-wake _ = refl

-- The whole stream of notifications: those taken, and then those in the queue.
abbrev pub stream : System → List Notification
stream s = s.taken ++ s.handler.buffer

-- The stream of `t` is that of `s`, with more at its end.
abbrev pub Extends : System → System → Type 0
Extends s t = (new : List Notification) × (stream t ≡ stream s ++ new)

module _ (connected : ℕ → Bool) where
  worker_step-Locked :
      (at : WorkerAt) (s t : System)
      → s.worker ≡ at
      → worker_step connected at s ≡ some t
      → Locked s
      → Locked t
  unfolding worker_step
  worker_step-Locked test_running s t w e l = ground arith
  worker_step-Locked test_buffer s t w e l = ground arith
  worker_step-Locked lock_to_pop s t w e l = ground arith
  worker_step-Locked (popped n) s t w e l = ground arith
  worker_step-Locked (wants_access channel) s t w e l = ground arith
  worker_step-Locked lock_to_wait s t w e l = ground arith
  worker_step-Locked woken s t w e l = ground arith
  worker_step-Locked waiting s t w e l = ground arith
  worker_step-Locked stopped s t w e l = ground arith

  publisher_step-Locked :
      (at : PublisherAt) (s t : System)
      → s.publisher ≡ at
      → publisher_step connected at s ≡ some t
      → Locked s
      → Locked t
  unfolding publisher_step
  publisher_step-Locked idle s t w e l = ground arith
  publisher_step-Locked (calls p) s t w e l = ground arith
  publisher_step-Locked (pushing []) s t w e l = ground arith
  publisher_step-Locked (pushing (n ∷ rest)) s t w e l = ground (arith, in_section-wake s.worker)

  stopper_step-Locked :
      (at : StopperAt) (s t : System) → stopper_step connected at s ≡ some t → Locked s → Locked t
  unfolding stopper_step
  stopper_step-Locked not_called s t e l = ground arith
  stopper_step-Locked wants_sub s t e l = ground (arith, in_section-wake s.worker)
  stopper_step-Locked joining s t e l = ground arith
  stopper_step-Locked returned s t e l = ground arith

  step-Locked : (m : Move) (s t : System) → step connected m s ≡ some t → Locked s → Locked t
  unfolding step
  step-Locked worker_moves s t e l = worker_step-Locked s.worker s t refl e l
  step-Locked publisher_moves s t e l = publisher_step-Locked s.publisher s t refl e l
  step-Locked (publish_called p) s t e l = ground arith
  step-Locked stop_called s t e l = ground arith
  step-Locked stopper_moves s t e l = stopper_step-Locked s.stopper s t e l

  -- Under every schedule each mutex is held exactly by the thread that is in the section it
  -- guards: subMutex by the worker from the pop to the end of the round, accessMutex by the
  -- publisher while it pushes.
  pub Run-Locked : {s t : System} → Run connected s t → Locked s → Locked t
  Run-Locked here l = l
  Run-Locked (move {s} {t} m e r) l = Run-Locked r (step-Locked m s t e l)

  pop_front-stream :
      (queue : List Notification) (s t : System)
      → s.handler.buffer ≡ queue
      → pop_front queue s ≡ some t
      → stream t ≡ stream s
  pop_front-stream [] s t q e = ground arith
  pop_front-stream (n ∷ rest) s t q e = ground (arith, append_assoc s.taken (n ∷ []) rest)

  pop_step-stream :
      (s t : System) (m : Mutex)
      → elim m as (λ x. Option System) [
        | free ↦ pop_front s.handler.buffer s
        | by_worker ↦ none
        | by_publisher ↦ none
      ]
        ≡ some t
      → stream t ≡ stream s
  pop_step-stream s t free e = pop_front-stream s.handler.buffer s t refl e
  pop_step-stream s t by_worker e = ground arith
  pop_step-stream s t by_publisher e = ground arith

  worker_step-Extends :
      (at : WorkerAt) (s t : System) → worker_step connected at s ≡ some t → Extends s t
  unfolding worker_step unsubscribe_all
  worker_step-Extends test_running s t e = ([], ground (arith, append-nil (stream s)))
  worker_step-Extends test_buffer s t e = ([], ground (arith, append-nil (stream s)))
  worker_step-Extends lock_to_pop s t e =
      ([], pop_step-stream s t s.sub e ∙ sym (append-nil (stream s)))
  worker_step-Extends (popped n) s t e = ([], ground (arith, append-nil (stream s)))
  worker_step-Extends (wants_access channel) s t e = ([], ground (arith, append-nil (stream s)))
  worker_step-Extends lock_to_wait s t e = ([], ground (arith, append-nil (stream s)))
  worker_step-Extends woken s t e = ([], ground (arith, append-nil (stream s)))
  worker_step-Extends waiting s t e = ([], ground arith)
  worker_step-Extends stopped s t e = ([], ground arith)

  publisher_step-Extends :
      (at : PublisherAt) (s t : System) → publisher_step connected at s ≡ some t → Extends s t
  unfolding publisher_step
  publisher_step-Extends idle s t e = ([], ground arith)
  publisher_step-Extends (calls p) s t e = ([], ground (arith, append-nil (stream s)))
  publisher_step-Extends (pushing []) s t e = ([], ground (arith, append-nil (stream s)))
  publisher_step-Extends (pushing (n ∷ rest)) s t e =
      (n ∷ [], ground (arith, append_assoc s.taken s.handler.buffer (n ∷ [])))

  stopper_step-Extends :
      (at : StopperAt) (s t : System) → stopper_step connected at s ≡ some t → Extends s t
  unfolding stopper_step
  stopper_step-Extends wants_sub s t e = ([], ground (arith, append-nil (stream s)))
  stopper_step-Extends joining s t e = ([], ground (arith, append-nil (stream s)))
  stopper_step-Extends not_called s t e = ([], ground arith)
  stopper_step-Extends returned s t e = ([], ground arith)

  step-Extends : (m : Move) (s t : System) → step connected m s ≡ some t → Extends s t
  unfolding step
  step-Extends worker_moves s t e = worker_step-Extends s.worker s t e
  step-Extends publisher_moves s t e = publisher_step-Extends s.publisher s t e
  step-Extends (publish_called p) s t e = ([], ground (arith, append-nil (stream s)))
  step-Extends stop_called s t e = ([], ground (arith, append-nil (stream s)))
  step-Extends stopper_moves s t e = stopper_step-Extends s.stopper s t e

  -- Under every schedule the notifications that the worker has taken, followed by those still in
  -- the queue, only ever grow at the end: none is lost, doubled or overtaken.
  pub Run-Extends : {s t : System} → Run connected s t → Extends s t
  Run-Extends {s} here = ([], sym (append-nil (stream s)))
  Run-Extends {s = a} {t = c} (move {s} {t} m e r) =
      let (new, first_part) = step-Extends m s t e in
      let (more, rest) = Run-Extends r in
      (
        new ++ more,
        rest
            ∙ ap (λ (q : List Notification). q ++ more) first_part
            ∙ append_assoc (stream s) new more,
      )
