-- ===== src/Unbounded.antt =====
-- The unbounded channel of src/list.rs: blocks of slots in a store, its state and its constructor.
-- A pointer to a block is an address of the store (`none` is the null pointer); an access of an
-- address that holds no block is a fault. The operations are in the children.
pub mod Send
pub mod Recv
pub mod Query
pub mod Memory
pub mod Place
pub mod Holds
pub mod Spec
pub mod Refine
pub mod Tokio
pub mod Runs
pub mod Inv
use zchan.Base.{
  ℕ, zero, suc, ◌+◌, ◌-◌, ◌/◌, Bool, true, false, Option, none, some, List, [], ◌∷◌, ◌==◌,
  if◌then◌else◌, get_elem?, bit_or, mapped,
}
use zchan.SerialWaker.Queue.{ArrayQueue}
use zchan.SerialWaker.{AtomicSerialWaker, new_waker}
use zchan.Array.{modify}

-- `WRITE`, `READ` and `DESTROY`, the bits of a slot's state.
abbrev pub write_bit : ℕ
write_bit = 1

abbrev pub read_bit : ℕ
read_bit = 2

abbrev pub destroy_bit : ℕ
destroy_bit = 4

abbrev pub lap : ℕ
lap = 32

abbrev pub block_cap : ℕ
block_cap = 31

abbrev pub mark_bit : ℕ
mark_bit = 1

-- `1 << SHIFT`, and a shift to the right by `SHIFT`.
abbrev pub one_index : ℕ
one_index = 2

abbrev pub shifted : ℕ → ℕ
shifted n = n / 2

-- The message of a slot that was never written is uninitialised memory, `none`; a read leaves the
-- bytes where they are.
pub record Slot (T : Type 0) : Type 0 where
  pub msg : Option T
  pub state : ℕ

pub record Block (T : Type 0) : Type 0 where
  pub next : Option ℕ
  pub slots : List (Slot T)

unfoldable pub empty_slots : (T : Type 0) → ℕ → List (Slot T)
empty_slots T zero = []
empty_slots T (suc n) = record { msg = none; state = 0 } ∷ empty_slots T n

-- `Block::new`, zeroed memory.
unfoldable pub new_block : (T : Type 0) → Block T
unfolding empty_slots
new_block T = record { next = none; slots = empty_slots T block_cap }

-- The memory for blocks. `fresh` is above every address in use, and `live` counts the allocations
-- that were not freed.
pub record Store (T : Type 0) : Type 0 where
  pub cells : ℕ → Option (Block T)
  pub fresh : ℕ
  pub live : ℕ

module _ {T : Type 0} where
  -- `Box::into_raw(Box::new(Block::new()))`
  unfoldable pub alloc : Store T → Store T × ℕ
  alloc s = (
    record {
      cells = λ (a : ℕ). if a == s.fresh then some (new_block T) else s.cells a;
      fresh = s.fresh + 1;
      live = s.live + 1;
    },
    s.fresh,
  )

  -- `drop(Box::from_raw(p))`; `none` is a second free.
  unfoldable pub free : ℕ → Store T → Option (Store T)
  free p s = elim (s.cells p) [
    | none ↦ none
    | some b ↦
        some (record s { cells = λ (a : ℕ). if a == p then none else s.cells a; live = s.live - 1 })
  ]

  -- The drop of an `Option<Box<Block<T>>>`.
  unfoldable pub drop_box : Option ℕ → Store T → Option (Store T)
  unfolding free
  drop_box none s = some s
  drop_box (some p) s = free p s

  abbrev pub slot_in : Option (Block T) → ℕ → Option (Slot T)
  slot_in none i = none
  slot_in (some b) i = get_elem? b.slots i

  unfoldable pub slot_at : Store T → (p i : ℕ) → Option (Slot T)
  slot_at s p i = slot_in (s.cells p) i

  unfoldable pub change_block : ℕ → (Block T → Block T) → Store T → Store T
  change_block p f s = record s {
    cells = λ (a : ℕ). if a == p then mapped f (s.cells a) else s.cells a;
  }

  abbrev pub in_block : ℕ → (Slot T → Slot T) → Block T → Block T
  in_block i f b = record b { slots = modify b.slots i f }

  unfoldable pub change_slot : (p i : ℕ) → (Slot T → Slot T) → Store T → Store T
  unfolding change_block
  change_slot p i f s = change_block p (in_block i f) s

pub record Position : Type 0 where
  pub index : ℕ
  pub block : Option ℕ

-- The token of a pending operation.
pub record ListToken : Type 0 where
  pub block : Option ℕ
  pub offset : ℕ

-- `List::default`
abbrev pub default : ListToken
default = record { block = none; offset = 0 }

module _ (T : Type 0) (𝓠 : ArrayQueue) where
  -- The `Arc` `from_me` of the channel is the counter `from_me` of its waker.
  pub record Channel : Type 0 where
    pub head : Position
    pub tail : Position
    pub store : Store T
    pub receivers : AtomicSerialWaker 𝓠
    pub first : Bool

  -- `Channel::new`, with memory in which nothing is allocated.
  unfoldable pub new : Channel
  new = record {
    head = record { index = 0; block = none };
    tail = record { index = 0; block = none };
    store = record { cells = λ _. none; fresh = 0; live = 0 };
    receivers = new_waker 𝓠;
    first = true;
  }
