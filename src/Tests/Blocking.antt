-- ===== src/Tests/Blocking.antt =====
-- The theorems on counters, selections, contexts and queues of blocked threads, at concrete ones.
use zchan.Base.{
  ℕ, ◌+◌, ◌≡◌, ◌≢◌, refl, Bool, true, ◌&&◌, ◌==◌, if◌then◌else◌, some, none, List, [], ◌∷◌, ◌++◌,
  arith,
}
use zchan.Error.{err}
use zchan.Counter.{
  Side, sender, receiver, Act, acquires, subtracts, disconnects, swaps, frees, new, run,
}
use zchan.Counter.Runs.{Sound, run-Sound}
use zchan.Select.{
  Operation, Selected, waiting, aborted, disconnected, operation, hook, from, into, from-into-hook,
}
use zchan.Context
use zchan.Context.{Inner, try_select, selected, Moment, wait_until}
use zchan.Context.Cache.{Cache, holds, nested, Nested, with_context-Nested}
use zchan.Context.Laws.{try_all, try_all_lem, wait_until_lem}
use zchan.Waker.{Entry, Waker, Store, update, try_select_entry, can_select, disconnect}
use zchan.Waker.Laws.{any, chosen, try_select_entry_lem, can_select_lem, is_some}
use zchan.Spinlock.{spinning, move, System, start, Reach, here, later, calls_lock, spins}
use zchan.Spinlock.Exclusion.{mutual_exclusion}
use zchan.Waker.Disconnect.{cut_off, disconnect_lem}

-- A channel that counts how often it was shut down.
abbrev shut : ℕ → ℕ × Bool
shut n = (n + 1, true)

-- Both sides release their last handle, the receiver between two steps of the sender.
abbrev schedule : List (Side × Act)
schedule =
    (sender, acquires)
    ∷ (sender, subtracts)
    ∷ (sender, subtracts)
    ∷ (sender, disconnects)
    ∷ (receiver, subtracts)
    ∷ (receiver, disconnects)
    ∷ (receiver, swaps)
    ∷ (sender, swaps)
    ∷ (sender, frees)
    ∷ []

run-Sound_example : Sound shut 0 (run shut schedule (new 0))
run-Sound_example = run-Sound shut 0 schedule

abbrev oper : Operation
oper = record { address = 4096 }

hook-oper : hook 4096 ≡ some oper
unfolding hook
hook-oper = refl

from-into-hook_example :
    (from (into (operation oper)) ≡ operation oper)
    × (into (operation oper) ≢ into waiting)
    × (into (operation oper) ≢ into aborted)
    × (into (operation oper) ≢ into disconnected)
from-into-hook_example = from-into-hook 4096 oper hook-oper

-- The context of thread 1, which waits.
abbrev waits : Inner
waits = record { select = 0; packet = 0; thread_id = 1; unparked = 0 }

try_all_lem_example :
    ((try_all (operation oper ∷ disconnected ∷ []) waits).select ≡ 4096)
    × ((try_select aborted (try_all (operation oper ∷ disconnected ∷ []) waits)).1
        ≡ err (from 4096))
try_all_lem_example =
    try_all_lem (operation oper) (disconnected ∷ []) aborted waits refl (omega arith)

abbrev quiet : Moment
quiet = record { chosen = none; now = 0; racing = none }

abbrev ten : List Moment
ten = quiet ∷ quiet ∷ quiet ∷ quiet ∷ quiet ∷ quiet ∷ quiet ∷ quiet ∷ quiet ∷ quiet ∷ []

abbrev late : Moment
late = record { chosen = none; now = 9; racing = some disconnected }

wait_until_lem_example :
    (i' : Inner) × (sel : Selected) × (wait_until (some 5) (ten ++ (late ∷ [])) waits
      ≡ some (i', sel))
    × (sel ≡ selected i')
    × (sel ≢ waiting)
wait_until_lem_example = wait_until_lem 5 ten late [] waits (omega arith) (omega arith)

abbrev store : Store
store cx = if cx == 0 then record waits { thread_id = 7 } else waits

-- The caller's own entry, and one of thread 1.
abbrev own : Entry
own = record { oper = record { address = 64 }; packet = 0; cx = 0 }

abbrev other : Entry
other = record { oper = oper; packet = 3; cx = 1 }

try_select_entry_lem_example :
    try_select_entry 7 store (record { selectors = own ∷ other ∷ [] })
    ≡ (update store 1 (chosen other waits), record { selectors = own ∷ [] }, some other)
try_select_entry_lem_example = try_select_entry_lem 7 store (own ∷ []) [] other refl refl

abbrev blocked : Waker
blocked = record { selectors = own ∷ other ∷ [] }

can_select_lem_example : can_select 7 store blocked ≡ is_some (try_select_entry 7 store blocked).2
can_select_lem_example = can_select_lem 7 store blocked

disconnect_lem_example : disconnect store blocked 1 ≡ (
    if any (λ e. e.cx == 1) blocked.selectors && ((store 1).select == 0)
    then cut_off (store 1)
    else store 1)
disconnect_lem_example = disconnect_lem store blocked 1

-- Thread 2 has called `lock`, and then it has a guard.
abbrev called : System ℕ
called = record (start {T = ℕ} 0) { pcs = move (start {T = ℕ} 0).pcs 2 spinning }

called-Reach : Reach (start 0) called
called-Reach = later here (calls_lock 2 refl)

abbrev thread : ℕ
thread = 2

mutual_exclusion_example : thread ≡ 2
mutual_exclusion_example = mutual_exclusion 0 2 2 (later called-Reach (spins 2 refl)) refl refl

-- Thread 1 has used its context before; five contexts exist.
abbrev cached : Cache
cached = record { contexts = λ thread. Context.new thread; fresh = 5; cell = holds (some 1) }

with_context-Nested_example : Nested 1 (nested 1 cached)
with_context-Nested_example = with_context-Nested 1 cached (omega arith, refl)
