-- ===== src/Tests/Wakers.antt =====
-- The theorems on wakers, at wakers of numbers.
use zchan.Base.{ℕ, ◌+◌, ◌%◌, ◌≤◌, ◌≡◌, refl, Bool, List, [], ◌∷◌, length, arith}
use zchan.Word.{usize_mod}
use zchan.SerialWaker.{new_waker, AtomicSerialWaker, register, wake, wake_all}
use zchan.SerialWaker.Laws.{IsValid, count}
use zchan.SerialWaker.Runs.{Op, registers, wakes, wakes_all, takes, run, start, run_keeps}
use zchan.SerialWaker.Wakeups.{register-wake_empty, register_rotates, wake_all_lem}
use zchan.SerialWaker.Race.{pops, counts, notifies, done, wake_step, wake-register_lost}
use zchan.SerialWaker.Threads.{waking, thread_step, Pool, Act, calls, moves, run_threads, idle}
use zchan.SerialWaker.Interleaved.{hands, owed_by, interleaved_keeps}
use zchan.Tests.Queues.{list_queue}

-- Task 7 and task 8 wait.
abbrev two_waiting : AtomicSerialWaker list_queue
two_waiting = record {
  waker = record { held = 7 ∷ 8 ∷ []; room = 4 };
  waiting = 0;
  from_me = 0;
  notified = [];
}

abbrev nothing_waiting : AtomicSerialWaker list_queue
nothing_waiting = record {
  waker = record { held = []; room = 4 };
  waiting = 0;
  from_me = 0;
  notified = [];
}

two_waiting-IsValid : IsValid list_queue two_waiting
two_waiting-IsValid = record { cap = refl; fits = omega arith }

nothing_waiting-IsValid : IsValid list_queue nothing_waiting
nothing_waiting-IsValid = record { cap = refl; fits = omega arith }

abbrev history : List (Op list_queue)
history = wakes ∷ registers 7 ∷ registers 8 ∷ takes ∷ wakes_all ∷ []

run_keeps_example :
    ((p : ℕ → Bool)
      → count p (list_queue.tasks (run list_queue (start list_queue) history).now.waker)
          + count p (run list_queue (start list_queue) history).now.notified
        ≡ count p (7 ∷ 8 ∷ []))
    × (length (list_queue.tasks (run list_queue (start list_queue) history).now.waker) ≤ 4)
    × (((run list_queue (start list_queue) history).now.from_me
            + (run list_queue (start list_queue) history).taken)
          % usize_mod
        ≡ length (run list_queue (start list_queue) history).now.notified % usize_mod)
run_keeps_example = run_keeps list_queue history

register-wake_empty_example :
    ((register list_queue (wake list_queue nothing_waiting) 7).notified ≡ 7 ∷ [])
    × (list_queue.tasks (register list_queue (wake list_queue nothing_waiting) 7).waker ≡ [])
    × ((register list_queue (wake list_queue nothing_waiting) 7).waiting ≡ 0)
register-wake_empty_example =
    register-wake_empty list_queue nothing_waiting 7 nothing_waiting-IsValid refl (omega arith)

register_rotates_example :
    (list_queue.tasks (register list_queue two_waiting 9).waker ≡ 8 ∷ 9 ∷ 7 ∷ [])
    × ((register list_queue two_waiting 9).notified ≡ [])
register_rotates_example =
    register_rotates list_queue two_waiting 9 7 (8 ∷ []) two_waiting-IsValid refl (omega arith) refl

wake_all_lem_example :
    (list_queue.tasks (wake_all list_queue two_waiting).waker ≡ [])
    × ((wake_all list_queue two_waiting).notified ≡ 7 ∷ 8 ∷ [])
wake_all_lem_example = wake_all_lem list_queue two_waiting two_waiting-IsValid

-- Task 7 registers and is popped by its own thread; a `wake` finds no task and is counted, so that task
-- 7 is to be notified.
abbrev schedule : List (Act list_queue)
schedule =
    calls (registers 7)
    ∷ moves 0
    ∷ moves 0
    ∷ calls wakes
    ∷ moves 0
    ∷ moves 0
    ∷ moves 1
    ∷ moves 1
    ∷ []

abbrev pooled : Pool list_queue
pooled = run_threads list_queue (idle list_queue) schedule

pooled-threads :
    (pooled.threads ≡ waking done ∷ waking (notifies 7) ∷ [])
    × (pooled.now.from_me ≡ 1)
    × (pooled.now.notified ≡ [])
unfolding run_threads new_waker thread_step wake_step
pooled-threads = (refl, refl, refl)

interleaved_keeps_example :
    ((p : ℕ → Bool)
      → count p (list_queue.tasks pooled.now.waker)
          + count p pooled.now.notified
          + hands list_queue p pooled.threads
        ≡ count p (7 ∷ []))
    × (length (list_queue.tasks pooled.now.waker) ≤ 4)
    × ((pooled.now.from_me + pooled.taken) % usize_mod
        ≡ (length pooled.now.notified + owed_by list_queue pooled.threads) % usize_mod)
interleaved_keeps_example = interleaved_keeps list_queue schedule

wake-register_lost_example :
    (wake_step list_queue (nothing_waiting, pops) ≡ (nothing_waiting, counts))
    × (list_queue.tasks
          (wake_step list_queue (register list_queue nothing_waiting 7, counts)).0.waker
        ≡ 7 ∷ [])
    × ((wake_step list_queue (register list_queue nothing_waiting 7, counts)).0.notified ≡ [])
    × ((wake_step list_queue (register list_queue nothing_waiting 7, counts)).0.waiting ≡ 1)
    × ((wake_step list_queue (register list_queue nothing_waiting 7, counts)).1 ≡ done)
wake-register_lost_example =
    wake-register_lost list_queue nothing_waiting 7 nothing_waiting-IsValid refl refl
