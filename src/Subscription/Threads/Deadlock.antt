-- ===== src/Subscription/Threads/Deadlock.antt =====
-- Schedules after which the threads cannot go on: the two mutexes taken in opposite orders, and a
-- notification that nobody waits for.
use kuksa_val.Channel.{KuksaChannel}
use kuksa_val.Prelude.{ℕ, ◌≡◌, refl, Bool, false, Option, none, some, List, [], ◌∷◌, arith}
use kuksa_val.Subscription.State.{Notification, find_key, push_all}
use kuksa_val.Subscription.Threads.{
  System, free, by_worker, by_publisher, lock_to_wait, waiting, popped, wants_access, wants_sub,
  joining, idle, calls, pushing, Publication, Move, worker_moves, publisher_moves, stop_called,
  stopper_moves, publish_called, step, worker_step, publisher_step, stopper_step, reachable, Run,
  here, move,
}

-- The worker holds subMutex and wants accessMutex; the publisher holds accessMutex and wants
-- subMutex.
pub record IsDeadlocked (channel : KuksaChannel) (pending : List Notification) (s : System)
    : Type 0 where
  pub worker : s.worker ≡ wants_access channel
  pub publisher : s.publisher ≡ pushing pending
  pub sub_held : s.sub ≡ by_worker
  pub access_held : s.access ≡ by_publisher

none-ne-some : (s : System) → Path (Option System) none (some s) → ⊥
none-ne-some s h = cc

module _ (connected : ℕ → Bool) where
  -- If the worker has taken a notification whose websocket client is gone, while another thread
  -- is about to publish a value that has subscribers, the two can come to block each other.
  pub publish_deadlocks :
      (s : System) (n first : Notification) (p : Publication) (others : List Notification)
      → s.worker ≡ popped n
      → reachable connected n ≡ false
      → s.sub ≡ by_worker
      → s.access ≡ free
      → s.publisher ≡ calls p
      → push_all (find_key p.key s.handler.subscriptions) p.datatype p.payload [] ≡ first ∷ others
      → (t : System) × Run connected s t × IsDeadlocked n.channel (first ∷ others) t
  unfolding step worker_step publisher_step
  publish_deadlocks s n first p others at lost held open_access calling queue =
      let s₁ : System = record s { access = by_publisher; publisher = pushing (first ∷ others) } in
      let s₂ : System = record s₁ { worker = wants_access n.channel } in
      (
        s₂,
        move {t = s₁} publisher_moves (rw (calling, open_access, queue))
            (move {t = s₂} worker_moves (rw (at, lost)) here),
        record { worker = refl; publisher = refl; sub_held = held; access_held = refl },
      )

  step-IsDeadlocked :
      (channel : KuksaChannel) (first : Notification) (others : List Notification) (m : Move)
      (s t : System)
      → step connected m s ≡ some t
      → IsDeadlocked channel (first ∷ others) s
      → IsDeadlocked channel (first ∷ others) t
  unfolding step worker_step publisher_step stopper_step
  step-IsDeadlocked channel first others worker_moves s t e d = ground arith
  step-IsDeadlocked channel first others publisher_moves s t e d = ground arith
  step-IsDeadlocked channel first others (publish_called p) s t e d = ground arith
  step-IsDeadlocked channel first others stop_called s t e d = ground arith
  step-IsDeadlocked channel first others stopper_moves s t e d = ground arith

  -- From there no schedule leads on: the worker, the publisher and what they hold stay the same
  -- for ever.
  pub Run-IsDeadlocked :
      (channel : KuksaChannel) (first : Notification) (others : List Notification) {s t : System}
      → IsDeadlocked channel (first ∷ others) s
      → Run connected s t
      → IsDeadlocked channel (first ∷ others) t
  Run-IsDeadlocked channel first others d here = d
  Run-IsDeadlocked channel first others d (move {s} {t} m e r) =
      Run-IsDeadlocked channel first others (step-IsDeadlocked channel first others m s t e d) r

  -- stopThread has cleared threadRun and joins, and the worker waits for a notification.
  pub record IsAsleep (s : System) : Type 0 where
    pub worker : s.worker ≡ waiting
    pub stopper : s.stopper ≡ joining
    pub publisher : s.publisher ≡ idle

  asleep-moves :
      (s : System)
      → IsAsleep s
      → (m : Move) (u : System) → step connected m s ≡ some u
      → (p : Publication) × (m ≡ publish_called p)
  unfolding step worker_step publisher_step stopper_step
  asleep-moves s a worker_moves u h = absurd (none-ne-some u (rw a.worker at h))
  asleep-moves s a publisher_moves u h = absurd (none-ne-some u (rw a.publisher at h))
  asleep-moves s a stop_called u h = absurd (none-ne-some u (rw a.stopper at h))
  asleep-moves s a stopper_moves u h = absurd (none-ne-some u (rw (a.stopper, a.worker) at h))
  asleep-moves s a (publish_called p) u h = (p, refl)

  -- If stopThread takes subMutex after the worker has seen an empty buffer and before it waits,
  -- the notification is lost: the worker waits, stopThread joins, and the only move that any
  -- thread can make next is that somebody calls publish.
  pub stop_misses_worker :
      (s : System)
      → s.worker ≡ lock_to_wait
      → s.sub ≡ free
      → s.stopper ≡ wants_sub
      → s.publisher ≡ idle
      → (t : System) × Run connected s t
        × IsAsleep t
        × (t.handler.thread_run ≡ false)
        × ((m : Move) (u : System)
            → step connected m t ≡ some u
            → (p : Publication) × (m ≡ publish_called p))
  unfolding step worker_step publisher_step stopper_step
  stop_misses_worker s at open_sub stopping quiet =
      let s₁ : System = record s {
        handler = record s.handler { thread_run = false };
        stopper = joining;
      } in
      let s₂ : System = record s₁ { worker = waiting } in
      (
        s₂,
        move {t = s₁} stopper_moves (rw (stopping, open_sub, at))
            (move {t = s₂} worker_moves (rw (at, open_sub)) here),
        record { worker = refl; stopper = refl; publisher = quiet },
        refl,
        asleep-moves s₂ (record { worker = refl; stopper = refl; publisher = quiet }),
      )
