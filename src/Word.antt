-- ===== src/Word.antt =====
-- `usize` on a 64-bit target: a value is a native number below 2 ^ 64, and each operation keeps its
-- wrap-around. `Word/Bits.antt` has the laws of `&` and `|` on the fields of a word.
pub mod Bits
pub mod NextPower
use zchan.Base.{ℕ, zero, suc, ◌+◌, ◌-◌, ◌*◌, ◌%◌, ◌^◌, leb, if◌then◌else◌}

-- The number of values of `usize`.
abbrev pub usize_mod : ℕ
usize_mod = 2 ^ 64

abbrev pub wrapping_add : ℕ → ℕ → ℕ
wrapping_add a b = (a + b) % usize_mod

abbrev pub wrapping_sub : ℕ → ℕ → ℕ
wrapping_sub a b = (a + usize_mod - b) % usize_mod

-- `!a`
abbrev pub not_bits : ℕ → ℕ
not_bits a = usize_mod - 1 - a

-- `usize::next_power_of_two`: the smallest power of two that is at least `n`. The doublings left are
-- the fuel; the last of 64 gives 2 ^ 64, which wraps to 0 as an unchecked build does.
pub doubled : ℕ → ℕ → ℕ → ℕ
doubled zero p n = p
doubled (suc left) p n = let rest = doubled left (2 * p) n in if leb n p then p else rest

unfoldable pub next_power_of_two : ℕ → ℕ
unfolding doubled
next_power_of_two n = doubled 64 1 n % usize_mod
