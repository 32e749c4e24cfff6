-- ===== src/Spinlock.antt =====
-- The spinlock of src/utils.rs: its operations, and threads that lock it and drop their guards in any
-- order, as a step relation.
pub mod Exclusion
use zchan.Base.{ℕ, Bool, true, false, ◌≡◌, ◌==◌, if◌then◌else◌}

pub record Spinlock (T : Type 0) : Type 0 where
  pub flag : Bool
  pub value : T

-- Where a thread stands: without a guard, in the loop of `lock`, with a guard.
pub data Pc : Type 0 where
  outside spinning inside : Pc

module _ {T : Type 0} where
  abbrev pub new : T → Spinlock T
  new value = record { flag = false; value = value }

  -- `self.flag.swap(true)` of `lock`: the lock after it, and the flag before it.
  abbrev pub swap_flag : Spinlock T → Spinlock T × Bool
  swap_flag l = (record l { flag = true }, l.flag)

  -- The drop of a guard.
  abbrev pub drop_guard : Spinlock T → Spinlock T
  drop_guard l = record l { flag = false }

  -- A store through a guard.
  abbrev pub store : Spinlock T → T → Spinlock T
  store l v = record l { value = v }

abbrev pub move : (ℕ → Pc) → ℕ → Pc → ℕ → Pc
move pcs i pc = λ (j : ℕ). if j == i then pc else pcs j

-- A lock and its threads.
pub record System (T : Type 0) : Type 0 where
  pub lock : Spinlock T
  pub pcs : ℕ → Pc

module _ {T : Type 0} where
  abbrev pub start : T → System T
  start v = record { lock = new v; pcs = λ _. outside }

  -- A round of the loop of `lock` by thread `i`: it leaves the loop if the flag was not set.
  abbrev pub lock_round : ℕ → System T → System T
  lock_round i s = record {
    lock = (swap_flag s.lock).0;
    pcs = if (swap_flag s.lock).1 then s.pcs else move s.pcs i inside;
  }

  -- One thread moves.
  pub data Step (s : System T) : System T → Type 0 where
    calls_lock : (i : ℕ) → s.pcs i ≡ outside → Step s (record s { pcs = move s.pcs i spinning })
    spins : (i : ℕ) → s.pcs i ≡ spinning → Step s (lock_round i s)
    stores : (i : ℕ) (v : T) → s.pcs i ≡ inside → Step s (record s { lock = store s.lock v })
    drops :
        (i : ℕ)
        → s.pcs i ≡ inside
        → Step s (record { lock = drop_guard s.lock; pcs = move s.pcs i outside })

  pub data Reach (s : System T) : System T → Type 0 where
    here : Reach s s
    later : {t u : System T} → Reach s t → Step t u → Reach s u
