-- ===== src/Counter.antt =====
-- The reference counter of src/counter.rs, which a channel's senders and receivers share. A handle
-- keeps only the pointer, and the code is the same on both sides, so the state says how many threads
-- stand at each point of `acquire` and `release`, and a step moves one of them by one access of
-- shared memory.
pub mod Sides
pub mod Steps
pub mod Runs
use zchan.Base.{
  ℕ, ◌+◌, ◌-◌, ◌^◌, Bool, true, false, Option, none, some, List, [], ◌∷◌, ltb, ◌==◌, if◌then◌else◌,
}
use zchan.Word.{usize_mod, wrapping_add, wrapping_sub}

pub record Counter (C : Type 0) : Type 0 where
  pub senders : ℕ
  pub receivers : ℕ
  pub destroy : Bool
  pub chan : C

pub data Side : Type 0 where
  sender receiver : Side

-- The threads of a side: those that own a handle, and those that released the last handle and
-- stand before the call of `disconnect`, before the swap of `destroy`, and before the deallocation.
pub record Threads : Type 0 where
  pub holding : ℕ
  pub disconnecting : ℕ
  pub swapping : ℕ
  pub freeing : ℕ

abbrev pub one_handle : Threads
one_handle = record { holding = 1; disconnecting = 0; swapping = 0; freeing = 0 }

-- What a thread does next: `acquire`, the `fetch_sub` of `release`, the call of `disconnect`, the
-- swap of `destroy`, and the drop of the box.
pub data Act : Type 0 where
  acquires subtracts disconnects swaps frees : Act

-- How many threads stand before an act.
abbrev pub before : Act → Threads → ℕ
before acquires t = t.holding
before subtracts t = t.holding
before disconnects t = t.disconnecting
before swaps t = t.swapping
before frees t = t.freeing

module _ {C : Type 0} where
  abbrev pub count_of : Side → Counter C → ℕ
  count_of sender c = c.senders
  count_of receiver c = c.receivers

  abbrev pub set_count : Side → ℕ → Counter C → Counter C
  set_count sender n c = record c { senders = n }
  set_count receiver n c = record c { receivers = n }

-- `memory` is the box, `none` once it is deallocated; `freed` is the channels dropped with it.
pub record State (C : Type 0) : Type 0 where
  pub memory : Option (Counter C)
  pub at_sender : Threads
  pub at_receiver : Threads
  pub freed : List C

-- The process goes on, is aborted, or accesses a box that is deallocated.
pub data Outcome (C : Type 0) : Type 0 where
  next : State C → Outcome C
  aborted : Outcome C
  fault : Outcome C

module _ {C : Type 0} where
  abbrev pub threads : Side → State C → Threads
  threads sender st = st.at_sender
  threads receiver st = st.at_receiver

  abbrev pub put : Side → Threads → Counter C → State C → State C
  put sender t c st = record st { memory = some c; at_sender = t }
  put receiver t c st = record st { memory = some c; at_receiver = t }

  abbrev pub dealloc : Side → Threads → Counter C → State C → State C
  dealloc sender t c st = record st { memory = none; at_sender = t; freed = c.chan ∷ st.freed }
  dealloc receiver t c st = record st { memory = none; at_receiver = t; freed = c.chan ∷ st.freed }

  -- `new`: one handle on each side.
  abbrev pub new : C → State C
  new chan = record {
    memory = some (record { senders = 1; receivers = 1; destroy = false; chan = chan });
    at_sender = one_handle;
    at_receiver = one_handle;
    freed = [];
  }

  -- `acquire`. The new handle's thread is one more that holds.
  unfoldable pub acquire : Side → Counter C → State C → Outcome C
  acquire side c st =
      let counter = count_of side c in
      let t = threads side st in
      if counter == usize_mod - 1
      then aborted
      else next (
          put side (record t { holding = t.holding + 1 })
            (set_count side (wrapping_add counter 1) c) st)

  -- The `fetch_sub` of `release`; the thread that took the last reference goes on.
  unfoldable pub subtract : Side → Counter C → State C → Outcome C
  subtract side c st =
      let counter = count_of side c in
      let t = threads side st in
      let c' = set_count side (wrapping_sub counter 1) c in
      if counter == 1
      then next (
          put side (record t { holding = t.holding - 1; disconnecting = t.disconnecting + 1 }) c'
            st)
      else next (put side (record t { holding = t.holding - 1 }) c' st)

  -- The swap of `destroy`; the thread that finds it set goes on.
  unfoldable pub swap : Side → Counter C → State C → Outcome C
  swap side c st =
      let t = threads side st in
      let c' : Counter C = record c { destroy = true } in
      if c.destroy
      then next (put side (record t { swapping = t.swapping - 1; freeing = t.freeing + 1 }) c' st)
      else next (put side (record t { swapping = t.swapping - 1 }) c' st)

module _ {C : Type 0} (shutdown : C → C × Bool) where
  -- What a thread does with a box that is there.
  unfoldable pub perform : Side → Act → Counter C → State C → Outcome C
  unfolding acquire subtract swap
  perform side acquires c st = acquire side c st
  perform side subtracts c st = subtract side c st
  perform side disconnects c st =
      let t = threads side st in
      next (
        put side (record t { disconnecting = t.disconnecting - 1; swapping = t.swapping + 1 })
          (record c { chan = (shutdown c.chan).0 }) st)
  perform side swaps c st = swap side c st
  perform side frees c st =
      let t = threads side st in next (dealloc side (record t { freeing = t.freeing - 1 }) c st)

  -- A thread of the side moves, if one stands there.
  unfoldable pub step : Side → Act → State C → Outcome C
  unfolding perform
  step side act st =
      if ltb 0 (before act (threads side st))
      then elim st.memory [ none ↦ fault | some c ↦ perform side act c st ]
      else next st

  -- A schedule: which side's thread moves, and at which point it stands.
  unfoldable pub run : List (Side × Act) → State C → Outcome C
  unfolding step
  run [] st = next st
  run ((side, act) ∷ rest) st = elim (step side act st) [
    | next st' ↦ run rest st'
    | aborted ↦ aborted
    | fault ↦ fault
  ]
