-- ===== src/Array.antt =====
-- The bounded channel of src/array.rs: its slots, its state and its constructor. A slot is memory at
-- an index of the buffer, and `*const u8` to a slot is that index (`none` is the null pointer). The
-- operations are in the children: `Send`, `Recv` and `Query` model the code, the others prove.
--
-- An atomic access is one step on the state. The `Arc`s `from_me` and `to_me` of the channel are
-- the counters `from_me` of its two wakers, so they are no fields of their own here.
pub mod Send
pub mod Recv
pub mod Query
pub mod Stamp
pub mod Inv
pub mod Spec
pub mod Refine
pub mod Runs
pub mod Tokio
pub mod Deadline
use zchan.Base.{
  ℕ, zero, suc, ◌+◌, ◌*◌, Bool, true, false, Option, none, some, List, [], ◌∷◌, ltb, if◌then◌else◌,
  get_elem?,
}
use zchan.Word.{next_power_of_two, usize_mod, wrapping_add}
use zchan.SerialWaker.Queue.{ArrayQueue}
use zchan.SerialWaker.{AtomicSerialWaker, new_waker}

-- `Slot<T>`. The message of a slot that was never written is uninitialised memory, `none`; a read
-- leaves the bytes where they are.
pub record Slot (T : Type 0) : Type 0 where
  pub stamp : ℕ
  pub msg : Option T

-- The token of a pending operation.
pub record Array : Type 0 where
  pub slot : Option ℕ
  pub stamp : ℕ

-- `Array::default`
abbrev pub default : Array
default = record { slot = none; stamp = 0 }

module _ {ℓ} {A : Type ℓ} where
  -- A store through a pointer into a buffer.
  abbrev pub modify : List A → ℕ → (A → A) → List A
  modify [] i f = []
  modify (x ∷ xs) zero f = f x ∷ xs
  modify (x ∷ xs) (suc i) f = x ∷ modify xs i f

-- The loop that sets the stamps `{lap: 0, mark: 0, index: i}`, over the `n` slots from `i` on.
unfoldable pub stamped : (T : Type 0) (n i : ℕ) → List (Slot T)
stamped T zero i = []
stamped T (suc n) i = record { stamp = i; msg = none } ∷ stamped T n (suc i)

module _ (T : Type 0) (𝓠 : ArrayQueue) where
  pub record Channel : Type 0 where
    pub head : ℕ
    pub tail : ℕ
    pub buffer : List (Slot T)
    pub cap : ℕ
    pub one_lap : ℕ
    pub mark_bit : ℕ
    pub senders : AtomicSerialWaker 𝓠
    pub receivers : AtomicSerialWaker 𝓠
    pub first : Bool

  -- The channel that `with_capacity` builds.
  unfoldable pub fresh : ℕ → Channel
  unfolding stamped
  fresh cap =
      let mark_bit = next_power_of_two (cap + 1) in
      record {
        head = 0;
        tail = 0;
        buffer = stamped T cap 0;
        cap = cap;
        one_lap = mark_bit * 2;
        mark_bit = mark_bit;
        senders = new_waker 𝓠;
        receivers = new_waker 𝓠;
        first = true;
      }

  -- `none` is the failed assertion.
  unfoldable pub with_capacity : ℕ → Option Channel
  unfolding fresh
  with_capacity cap = if ltb 0 cap then some (fresh cap) else none
