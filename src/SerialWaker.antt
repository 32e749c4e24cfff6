-- ===== src/SerialWaker.antt =====
-- `AtomicSerialWaker` of src/atomic_serial_waker.rs: tasks that wait for a wake-up, in a bounded
-- queue, with a count of the wake-ups that found no task and a count `from_me` of the notifications
-- that the channel's `poll` has not used up. Each operation runs without interference here.
pub mod Queue
pub mod Laws
pub mod Runs
pub mod Wakeups
pub mod Race
pub mod Threads
pub mod Interleaved
use zchan.Base.{
  ℕ, zero, suc, ◌+◌, ◌-◌, Bool, true, false, Option, none, some, List, [], ◌∷◌, ◌++◌, ltb,
  if◌then◌else◌,
}
use zchan.Word.{wrapping_add}
use Queue.{ArrayQueue}

-- `positive_update` decrements a positive counter. Each element of the list is the value that one
-- failed compare-exchange found; after those the exchange succeeds. The result is the value left in
-- the counter and whether it was decremented.
pub positive_update : List ℕ → ℕ → ℕ × Bool
positive_update [] prev = if ltb 0 prev then (prev - 1, true) else (prev, false)
positive_update (found ∷ rest) prev =
    if ltb 0 prev then positive_update rest found else (prev, false)

-- The capacity that `AtomicSerialWaker::new` gives the queue.
abbrev pub waker_cap : ℕ
waker_cap = 4

module _ (𝓠 : ArrayQueue) where
  open 𝓠 use {Task, Queue, new, push, pop}

  -- `notified` is the log of the calls of `Task::notify`, newest last.
  pub record AtomicSerialWaker : Type 0 where
    pub waker : Queue
    pub waiting : ℕ
    pub from_me : ℕ
    pub notified : List Task

  unfoldable pub new_waker : AtomicSerialWaker
  new_waker = record { waker = new waker_cap; waiting = 0; from_me = 0; notified = [] }

  -- `self.from_me.fetch_add(1)`, then `task.notify()`.
  pub notify : AtomicSerialWaker → Task → AtomicSerialWaker
  notify w task = record w {
    from_me = wrapping_add w.from_me 1;
    notified = w.notified ++ (task ∷ []);
  }

  -- The `match self.waker.push(task)` of `wk`: a task that finds no room is notified.
  pub push_back : AtomicSerialWaker → Task → AtomicSerialWaker
  unfolding notify
  push_back w task =
      let (q, back) = push w.waker task in
      elim back [ none ↦ record w { waker = q } | some t ↦ notify (record w { waker = q }) t ]

  pub wk : AtomicSerialWaker → AtomicSerialWaker
  unfolding notify push_back positive_update
  wk w = elim (pop w.waker) [
    | none ↦ w
    | some (task, q) ↦
        let (left, positive) = positive_update [] w.waiting in
        if positive
        then notify (record w { waker = q; waiting = left }) task
        else push_back (record w { waker = q; waiting = left }) task
  ]

  -- `register`, called by the task that `futures::task::current` returns.
  unfoldable pub register : AtomicSerialWaker → Task → AtomicSerialWaker
  unfolding notify wk
  register w task =
      let (q, back) = push w.waker task in
      elim back [ none ↦ wk (record w { waker = q }) | some t ↦ notify (record w { waker = q }) t ]

  unfoldable pub wake : AtomicSerialWaker → AtomicSerialWaker
  unfolding notify
  wake w = elim (pop w.waker) [
    | none ↦ record w { waiting = wrapping_add w.waiting 1 }
    | some (task, q) ↦ notify (record w { waker = q }) task
  ]

  -- The loop of `wake_all`, with fuel.
  pub wake_loop : ℕ → AtomicSerialWaker → AtomicSerialWaker
  unfolding notify
  wake_loop zero w = w
  wake_loop (suc fuel) w = elim (pop w.waker) [
    | none ↦ w
    | some (task, q) ↦ wake_loop fuel (notify (record w { waker = q }) task)
  ]

  -- A round for each task that the queue can hold, and one that finds it empty.
  unfoldable pub wake_all : AtomicSerialWaker → AtomicSerialWaker
  unfolding wake_loop
  wake_all w = wake_loop (suc waker_cap) w

  -- A `poll` uses up one notification, if there is one.
  unfoldable pub take_notification : AtomicSerialWaker → AtomicSerialWaker × Bool
  unfolding positive_update
  take_notification w =
      let (left, positive) = positive_update [] w.from_me in (record w { from_me = left }, positive)
