-- ===== src/Counter/Sides.antt =====
-- One side of the counter of src/counter.rs: its count and its threads agree, and one thread at most
-- releases its last reference.
use zchan.Base.{
  ℕ, ◌+◌, ◌-◌, ◌≤◌, ◌<◌, ◌≡◌, ◌≢◌, dec_lt, Bool, true, false, ◌==◌, if◌then◌else◌, arith,
}
use zchan.Word.{usize_mod, wrapping_add, wrapping_sub}
use zchan.Counter.{Threads, State}

-- 1 if a side has no thread left but to deallocate.
abbrev pub done : Threads → ℕ
done t = if t.holding + t.disconnecting + t.swapping == 0 then 1 else 0

-- 1 if a side has called `disconnect`.
abbrev pub told : Threads → ℕ
told t = if t.holding + t.disconnecting == 0 then 1 else 0

abbrev pub bit : Bool → ℕ
bit false = 0
bit true = 1

-- One side while the box is there.
pub record SideValid (counter : ℕ) (t : Threads) : Type 0 where
  pub counts : counter ≡ t.holding
  pub small : counter < usize_mod
  pub one : t.disconnecting + t.swapping ≤ 1
  pub last : 0 < t.holding → t.disconnecting + t.swapping ≡ 0

pub side_acquire :
    (n : ℕ) (t : Threads)
    → SideValid n t
    → 0 < t.holding
    → n ≢ usize_mod - 1
    → SideValid (wrapping_add n 1) (record t { holding = t.holding + 1 })
side_acquire n t v h ne = record {
  counts = omega (arith, v.counts, v.small, ne);
  small = omega (arith, v.small);
  one = v.one;
  last = λ _. v.last h;
}

pub side_subtract :
    (n : ℕ) (t : Threads)
    → SideValid n t
    → 0 < t.holding
    → n ≢ 1
    → SideValid (wrapping_sub n 1) (record t { holding = t.holding - 1 })
side_subtract n t v h ne = record {
  counts = omega (arith, v.counts, v.small, ne);
  small = omega (arith, v.small);
  one = v.one;
  last = λ _. v.last h;
}

pub side_subtract_last :
    (n : ℕ) (t : Threads)
    → SideValid n t
    → 0 < t.holding
    → n ≡ 1
    → SideValid
        (wrapping_sub n 1)
        (record t { holding = t.holding - 1; disconnecting = t.disconnecting + 1 })
side_subtract_last n t v h e = record {
  counts = omega (arith, v.counts, v.small, e);
  small = omega (arith, v.small);
  one = omega (arith, v.last h);
  last = λ more. omega (arith, v.counts, e, more);
}

-- The thread that took the last reference is alone on its side.
pub side_alone :
    (n : ℕ) (t : Threads) → SideValid n t → 0 < t.disconnecting + t.swapping → t.holding ≡ 0
side_alone n t v h = elim (dec_lt 0 t.holding) [
  | yes more ↦ omega (arith, v.last more)
  | no none_left ↦ omega arith
]

pub side_disconnect :
    (n : ℕ) (t : Threads)
    → SideValid n t
    → 0 < t.disconnecting
    → SideValid n (record t { disconnecting = t.disconnecting - 1; swapping = t.swapping + 1 })
side_disconnect n t v h = record {
  counts = v.counts;
  small = v.small;
  one = omega (arith, v.one);
  last = λ more. omega (arith, v.last more);
}

-- What is left of a side after the swap of `destroy`, whatever stands before the deallocation.
pub side_swap :
    (n k : ℕ) (t : Threads)
    → SideValid n t
    → 0 < t.swapping
    → SideValid n (record t { swapping = t.swapping - 1; freeing = k })
side_swap n k t v h = record {
  counts = v.counts;
  small = v.small;
  one = omega (arith, v.one);
  last = λ more. omega (arith, v.last more);
}

pub done-le : (t : Threads) → done t ≤ 1
done-le t = ground arith

pub done-zero : (t : Threads) → done t ≡ 1 → t.holding + t.disconnecting + t.swapping ≡ 0
done-zero t e = ground (arith, e)

pub told-done : (t : Threads) → done t ≡ 1 → told t ≡ 1
told-done t e = let z = done-zero t e in ground (arith, z)

pub bit-le : (b : Bool) → bit b ≤ 1
bit-le true = omega arith
bit-le false = omega arith

pub nobody_done : (t : Threads) → t.holding + t.disconnecting + t.swapping ≡ 0 → done t ≡ 1
nobody_done t e = ground (arith, e)

module _ {C : Type 0} where
  -- The threads that use the box.
  abbrev pub users : State C → ℕ
  users st =
      let s = st.at_sender in
      let r = st.at_receiver in
      s.holding
      + s.disconnecting
      + s.swapping
      + s.freeing
      + (r.holding + r.disconnecting + r.swapping + r.freeing)
