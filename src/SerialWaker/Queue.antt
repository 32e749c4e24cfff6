-- ===== src/SerialWaker/Queue.antt =====
-- `crossbeam::queue::ArrayQueue`, which the program takes from a crate: its operations and what is
-- documented of them, as a parameter. A task (`futures::task::Task`) is an unknown value.
use zchan.Base.{ℕ, ◌≤◌, ◌<◌, ◌≡◌, Option, none, some, List, [], ◌∷◌, ◌++◌, length}

pub record ArrayQueue : Type 1 where
  pub Task : Type 0
  pub Queue : Type 0
  -- `ArrayQueue::new(cap)`
  pub new : ℕ → Queue
  -- `push` gives the task back if the queue is full (`Err(PushError(task))`).
  pub push : Queue → Task → Queue × Option Task
  -- `pop` fails if the queue is empty.
  pub pop : Queue → Option (Task × Queue)
  -- What the queue holds, oldest first, and its capacity.
  pub tasks : Queue → List Task
  pub capacity : Queue → ℕ
  pub new-tasks : (n : ℕ) → tasks (new n) ≡ []
  pub new-capacity : (n : ℕ) → capacity (new n) ≡ n
  pub push-room :
      (q : Queue) (t : Task)
      → length (tasks q) < capacity q
      → ((push q t).1 ≡ none)
        × (tasks (push q t).0 ≡ tasks q ++ (t ∷ []))
        × (capacity (push q t).0 ≡ capacity q)
  pub push-full : (q : Queue) (t : Task) → capacity q ≤ length (tasks q) → push q t ≡ (q, some t)
  pub pop-empty : (q : Queue) → tasks q ≡ [] → pop q ≡ none
  pub pop-cons :
      (q : Queue) (t : Task) (ts : List Task)
      → tasks q ≡ t ∷ ts
      → (q' : Queue) × (pop q ≡ some (t, q')) × (tasks q' ≡ ts) × (capacity q' ≡ capacity q)
