-- ===== src/Tests/Schedules.antt =====
-- Schedules of the worker, a publisher and a thread that stops the worker.
use kuksa_val.Prelude.{◌≡◌, refl, true, false, some, [], ◌∷◌}
use kuksa_val.Subscription.State.{find_key, push_all}
use kuksa_val.Subscription.Threads.{
  Move, System, free, by_worker, by_publisher, wants_access, pushing, popped, test_running,
  lock_to_wait, not_called, wants_sub, idle, calls, Publication, worker_moves, publish_called, step,
  Run, here, move,
}
use kuksa_val.Subscription.Threads.Interleavings.{Locked, Extends, Run-Locked, Run-Extends}
use kuksa_val.Subscription.Threads.Deadlock.{
  IsDeadlocked, IsAsleep, publish_deadlocks, stop_misses_worker,
}
use kuksa_val.Tests.Fixtures.{driver, payload, note, twice, speed_key, handler_of}

abbrev start : System
start = record {
  handler = handler_of twice;
  access = free;
  sub = free;
  worker = test_running;
  publisher = idle;
  stopper = not_called;
  taken = [];
}

abbrev speed : Publication
speed = record { key = speed_key; datatype = "uint8"; payload = payload }

-- A value is published, and the worker finds the queue empty before it is pushed.
one_round : Run (λ n. true) start (record start { publisher = calls speed; worker = lock_to_wait })
unfolding step
one_round =
    move {t = record start { publisher = calls speed }} (publish_called speed) refl
      (move worker_moves refl (move worker_moves refl here))

Run-Locked_example : Locked (record start { publisher = calls speed; worker = lock_to_wait })
Run-Locked_example =
    Run-Locked (λ n. true) {s = start} one_round (record { sub_held = refl; access_held = refl })

Run-Extends_example :
    Extends start (record start { publisher = calls speed; worker = lock_to_wait })
Run-Extends_example = Run-Extends (λ n. true) one_round

-- The client of the notification that the worker has taken is gone.
abbrev lost : System
lost = record start { sub = by_worker; worker = popped (note 7 driver); publisher = calls speed }

publish_deadlocks_example :
    (t : System) × Run (λ n. false) lost t
    × IsDeadlocked driver (note 7 driver ∷ note 8 driver ∷ []) t
unfolding find_key push_all
publish_deadlocks_example =
    publish_deadlocks (λ n. false) lost (note 7 driver) (note 7 driver) speed (note 8 driver ∷ [])
      refl refl refl refl refl refl

abbrev stuck : System
stuck = record start {
  sub = by_worker;
  access = by_publisher;
  worker = wants_access driver;
  publisher = pushing (note 8 driver ∷ []);
}

stop_misses_worker_example :
    (t : System) × Run (λ n. true) (record start { worker = lock_to_wait; stopper = wants_sub }) t
    × IsAsleep (λ n. true) t
    × (t.handler.thread_run ≡ false)
    × ((m : Move) (u : System)
        → step (λ n. true) m t ≡ some u
        → (p : Publication) × (m ≡ publish_called p))
stop_misses_worker_example =
    stop_misses_worker (λ n. true) (record start { worker = lock_to_wait; stopper = wants_sub })
      refl refl refl refl
