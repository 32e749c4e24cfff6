-- ===== src/Unbounded/Place.antt =====
-- The indices of src/list.rs: a lap, a slot of it, and a mark bit.
use zchan.Base.{ℕ, ◌+◌, ◌*◌, ◌/◌, ◌%◌, ◌^◌, ◌<◌, ◌≡◌, ◌∙◌, bit_and, bit_or, arith}
use zchan.Word.{wrapping_add, not_bits}
use zchan.Word.Bits.{and-one, or-one, and_even}
use zchan.Unbounded.{lap, shifted, mark_bit, one_index}

abbrev pub place : (turn slot mark : ℕ) → ℕ
place turn slot mark = 2 * (32 * turn + slot) + mark

-- The number of laps before the index wraps.
abbrev pub turns : ℕ
turns = 288230376151711744

module _ (turn slot mark : ℕ) (turn_in : turn < turns) (slot_in : slot < 32)
    (mark_in : mark < 2) where
  pub shifted-place : shifted (place turn slot mark) ≡ 32 * turn + slot
  shifted-place = omega arith

  pub offset-place : shifted (place turn slot mark) % lap ≡ slot
  offset-place = omega arith

  pub turn-place : shifted (place turn slot mark) / lap ≡ turn
  turn-place = omega arith

  pub place-bounded : place turn slot mark < 2 ^ 64
  place-bounded = omega arith

  pub mark-place : bit_and (place turn slot mark) mark_bit ≡ mark
  mark-place = and-one 64 (place turn slot mark) place-bounded ∙ omega arith

  pub marked-place : bit_or (place turn slot mark) mark_bit ≡ place turn slot 1
  marked-place = or-one 64 (place turn slot mark) place-bounded ∙ omega arith

  pub unmarked-place : bit_and (place turn slot mark) (not_bits mark_bit) ≡ place turn slot 0
  unmarked-place = and_even 64 (place turn slot mark) place-bounded ∙ omega arith

pub turned-place :
    (turn mark : ℕ)
    → turn < turns
    → mark < 2
    → wrapping_add (place turn 31 mark) one_index ≡ place ((turn + 1) % turns) 0 mark
turned-place turn mark turn_in mark_in = omega arith
