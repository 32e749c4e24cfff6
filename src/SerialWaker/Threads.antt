-- ===== src/SerialWaker/Threads.antt =====
-- The operations of src/atomic_serial_waker.rs by single accesses of shared memory, each of them by a
-- thread, in any order of the threads' steps.
use zchan.Base.{ℕ, zero, suc, ◌+◌, some, none, List, [], ◌∷◌, ◌++◌, if◌then◌else◌}
use zchan.Word.{wrapping_add}
use zchan.SerialWaker.Queue.{ArrayQueue}
use zchan.SerialWaker.{AtomicSerialWaker, new_waker, positive_update, take_notification}
use zchan.SerialWaker.Runs.{Op, registers, wakes, wakes_all, takes}
use zchan.SerialWaker.Race.{WakePc, pops, adds, done, wake_step}

module _ (𝓠 : ArrayQueue) where
  open 𝓠 use {Task, push, pop}

  -- Where a thread stands: in `wake`, or in the two accesses with which `register` notifies a task; in
  -- `register` before its push; in `wk` before the pop, `positive_update` and the push of the task that
  -- it popped; in the loop of `wake_all`.
  pub data Pc : Type 0 where
    waking : WakePc 𝓠 → Pc
    pushes : Task → Pc
    rotates : Pc
    updates pushes_back : Task → Pc
    empties : Pc
    empties_adds empties_notifies : Task → Pc

  -- One access. The failed compare-exchanges of `positive_update` change nothing, so that its step is
  -- the one that succeeds, or the load of 0.
  unfoldable pub thread_step : AtomicSerialWaker 𝓠 → Pc → AtomicSerialWaker 𝓠 × Pc
  unfolding positive_update wake_step
  thread_step w (waking pc) = let (w', pc') = wake_step 𝓠 (w, pc) in (w', waking pc')
  thread_step w (pushes t) =
      let (q, back) = push w.waker t in
      elim back [
        | none ↦ (record w { waker = q }, rotates)
        | some u ↦ (record w { waker = q }, waking (adds u))
      ]
  thread_step w rotates = elim (pop w.waker) [
    | none ↦ (w, waking done)
    | some (u, q) ↦ (record w { waker = q }, updates u)
  ]
  thread_step w (updates u) =
      let (left, positive) = positive_update [] w.waiting in
      (record w { waiting = left }, if positive then waking (adds u) else pushes_back u)
  thread_step w (pushes_back u) =
      let (q, back) = push w.waker u in
      elim back [
        | none ↦ (record w { waker = q }, waking done)
        | some v ↦ (record w { waker = q }, waking (adds v))
      ]
  thread_step w empties = elim (pop w.waker) [
    | none ↦ (w, waking done)
    | some (u, q) ↦ (record w { waker = q }, empties_adds u)
  ]
  thread_step w (empties_adds u) =
      (record w { from_me = wrapping_add w.from_me 1 }, empties_notifies u)
  thread_step w (empties_notifies u) = (record w { notified = w.notified ++ (u ∷ []) }, empties)

  -- A step of the thread with the given number; no step if there is none.
  unfoldable pub move_at : ℕ → AtomicSerialWaker 𝓠 → List Pc → AtomicSerialWaker 𝓠 × List Pc
  unfolding thread_step
  move_at k w [] = (w, [])
  move_at zero w (pc ∷ pcs) = let (w', pc') = thread_step w pc in (w', pc' ∷ pcs)
  move_at (suc k) w (pc ∷ pcs) = let (w', pcs') = move_at k w pcs in (w', pc ∷ pcs')

  -- The waker, how often a `poll` has taken a notification, and the threads within a call.
  pub record Pool : Type 0 where
    pub now : AtomicSerialWaker 𝓠
    pub taken : ℕ
    pub threads : List Pc

  -- A thread calls an operation, or one that is within a call makes its next access. What a `poll` does
  -- to take a notification is one access.
  pub data Act : Type 0 where
    calls : Op 𝓠 → Act
    moves : ℕ → Act

  unfoldable pub act : Pool → Act → Pool
  unfolding take_notification move_at
  act r (calls (registers t)) = record r { threads = pushes t ∷ r.threads }
  act r (calls wakes) = record r { threads = waking pops ∷ r.threads }
  act r (calls wakes_all) = record r { threads = empties ∷ r.threads }
  act r (calls takes) =
      let (w, took) = take_notification 𝓠 r.now in
      record r { now = w; taken = r.taken + (if took then 1 else 0) }
  act r (moves k) = let (w, pcs) = move_at k r.now r.threads in record r { now = w; threads = pcs }

  unfoldable pub run_threads : Pool → List Act → Pool
  unfolding act
  run_threads r [] = r
  run_threads r (a ∷ acts) = run_threads (act r a) acts

  abbrev pub idle : Pool
  idle = record { now = new_waker 𝓠; taken = 0; threads = [] }
