-- ===== src/Tests/Queues.antt =====
-- A concrete `ArrayQueue`, whose tasks are numbers: what is assumed of the crate's can hold.
use zchan.Base.{
  ℕ, refl, ap, Option, none, some, List, [], ◌∷◌, ◌++◌, length, ltb, if◌then◌else◌, lt→ltb, le→ltb,
}
use zchan.SerialWaker.Queue.{ArrayQueue}

-- The tasks, oldest first, and the capacity.
pub record Tasks : Type 0 where
  pub held : List ℕ
  pub room : ℕ

abbrev pub push_task : Tasks → ℕ → Tasks × Option ℕ
push_task q t =
    if ltb (length q.held) q.room
    then (record q { held = q.held ++ (t ∷ []) }, none)
    else (q, some t)

abbrev pub pop_list : ℕ → List ℕ → Option (ℕ × Tasks)
pop_list room [] = none
pop_list room (t ∷ ts) = some (t, record { held = ts; room = room })

abbrev pub list_queue : ArrayQueue
list_queue = record {
  Task = ℕ;
  Queue = Tasks;
  new = λ n. record { held = []; room = n };
  push = push_task;
  pop = λ q. pop_list q.room q.held;
  tasks = λ q. q.held;
  capacity = λ q. q.room;
  new-tasks = λ n. refl;
  new-capacity = λ n. refl;
  push-room = λ q t free. rw (lt→ltb (length q.held) q.room free) (refl, refl, refl);
  push-full = λ q t full. rw (le→ltb (length q.held) q.room full);
  pop-empty = λ q e. ap (pop_list q.room) e;
  pop-cons = λ q t ts e. (record { held = ts; room = q.room }, ap (pop_list q.room) e, refl, refl);
}
