-- ===== src/Array/Stamp.antt =====
-- The stamps of src/array.rs: an index, a mark bit and a lap packed in one `usize`, and what the
-- masks of the code take out of such a word.
use native.Mathlib.Nat.{
  pow-suc, one-le-pow, mul-le-mul_right, mod-eq_of_lt, mod_self, mul-add-div_right,
  mul-add-mod_self_right, div-eq_of_lt,
}
use zchan.Base.{
  ℕ, suc, ◌+◌, ◌-◌, ◌*◌, ◌/◌, ◌%◌, ◌^◌, ◌≤◌, ◌<◌, ◌≡◌, sym, ap, ◌∙◌, arith, dec_lt, bit_and, bit_or,
}
use zchan.Word.{usize_mod, wrapping_add, not_bits}
use zchan.Word.Bits.{and_low, and_bit, and_high, and_not_bit, or_bit, pow-add}

-- The constants of a channel: a mark bit above every index, and two laps or more in a word.
pub record Geometry (cap one_lap mark_bit : ℕ) : Type 0 where
  pub bits : ℕ
  pub lap_bits : ℕ
  pub width : bits + suc (suc lap_bits) ≡ 64
  pub mark : mark_bit ≡ 2 ^ bits
  pub lap : one_lap ≡ mark_bit * 2
  pub pos : 0 < cap
  pub fits : cap < mark_bit

module _ {cap one_lap mark_bit : ℕ} (g : Geometry cap one_lap mark_bit) where
  -- The number of laps before the stamp wraps.
  abbrev pub laps : ℕ
  laps = 2 ^ suc g.lap_bits

  pub laps-mul : laps * one_lap ≡ usize_mod
  laps-mul =
      rw (g.lap, g.mark)
        (omega (
          arith,
          pow-add g.bits (suc (suc g.lap_bits)),
          ap (λ (t : ℕ). 2 ^ t) g.width,
          ap (λ (t : ℕ). 2 ^ g.bits * t) (pow-suc 2 (suc g.lap_bits)),
        ))

  lap_pow : one_lap ≡ 2 ^ suc g.bits
  lap_pow = omega (arith, g.lap, g.mark, pow-suc 2 g.bits)

  lap_mask : not_bits (one_lap - 1) ≡ (laps - 1) * 2 ^ suc g.bits
  lap_mask = rw (← lap_pow) (
      omega (
        arith,
        laps-mul,
        ap (λ (t : ℕ). t * one_lap) (pred_add laps (one-le-pow (suc g.lap_bits) 2 (omega arith))),
        g.lap,
        g.fits,
      ))
    where
      pred_add : (n : ℕ) → 1 ≤ n → n ≡ n - 1 + 1
      pred_add n h = omega arith

  mark_mask : not_bits mark_bit ≡ (2 ^ suc (suc g.lap_bits) - 2) * 2 ^ g.bits + (2 ^ g.bits - 1)
  mark_mask =
      rw (← g.mark, pow-suc 2 (suc g.lap_bits))
        (omega (
          arith,
          laps-mul,
          ap (λ (t : ℕ). laps * t) g.lap,
          ap (λ (t : ℕ). t * mark_bit)
              (two_add (laps * 2) (omega (arith, one-le-pow (suc g.lap_bits) 2))),
          g.fits,
        ))
    where
      two_add : (n : ℕ) → 2 ≤ n → n ≡ n - 2 + 2
      two_add n h = omega arith

  pub two-le-laps : 2 ≤ laps
  two-le-laps = omega (arith, pow-suc 2 g.lap_bits, one-le-pow g.lap_bits 2)

  -- A word with the fields `l`, `b` and `i`.
  pub record Packed (x l b i : ℕ) : Type 0 where
    pub word : x ≡ l * one_lap + b * mark_bit + i
    pub lap_in : l < laps
    pub bit : b < 2
    pub index_in : i < mark_bit

  module _ {x l b i : ℕ} (p : Packed x l b i) where
    two_fields : x ≡ (l * 2 + b) * 2 ^ g.bits + i
    two_fields =
        omega (arith, p.word, ap (λ (t : ℕ). l * t) g.lap, ap (λ (t : ℕ). (l * 2 + b) * t) g.mark)

    in_bits : l * 2 + b < 2 ^ suc (suc g.lap_bits)
    in_bits = omega (arith, p.lap_in, p.bit, pow-suc 2 (suc g.lap_bits))

    below_mark : i < 2 ^ g.bits
    below_mark = omega (arith, p.index_in, g.mark)

    -- `x & (mark_bit - 1)` is the index.
    pub and-index : bit_and x (mark_bit - 1) ≡ i
    and-index = rw (two_fields, g.mark) (and_low g.bits _ _ i in_bits below_mark)

    -- `x & mark_bit` is the mark bit in its place.
    pub and-mark : bit_and x mark_bit ≡ b * mark_bit
    and-mark =
        rw (two_fields, g.mark)
          (and_bit g.bits _ _ i in_bits below_mark
            ∙ ap (λ (t : ℕ). t * 2 ^ g.bits) (omega (arith, p.bit)))

    half : (l * 2 + b) / 2 ≡ l
    half = omega (arith, p.bit)

    scaled : l * one_lap ≡ l * 2 * 2 ^ g.bits
    scaled = omega (arith, ap (λ (t : ℕ). l * t) g.lap, ap (λ (t : ℕ). l * 2 * t) g.mark)

    -- `x & !mark_bit` clears the mark bit.
    pub and-not_mark : bit_and x (not_bits mark_bit) ≡ l * one_lap + i
    and-not_mark =
        rw (two_fields, mark_mask)
          (and_not_bit g.bits _ _ i in_bits below_mark
            ∙ omega (arith, ap (λ (t : ℕ). t * 2 * 2 ^ g.bits) half, scaled))

    -- `x | mark_bit` sets it.
    pub or-mark : bit_or x mark_bit ≡ l * one_lap + mark_bit + i
    or-mark =
        rw (two_fields, g.mark)
          (or_bit g.bits _ _ i in_bits below_mark
            ∙ omega (arith, ap (λ (t : ℕ). (t * 2 + 1) * 2 ^ g.bits) half, scaled, g.mark))

    below_lap : b * mark_bit + i < one_lap
    below_lap = omega (arith, mul-le-mul_right mark_bit (le-one p.bit), g.lap, p.index_in)
      where
        le-one : {b : ℕ} → b < 2 → b ≤ 1
        le-one h = omega arith

    -- `x & !(one_lap - 1)` is the lap in its place.
    pub and-lap : bit_and x (not_bits (one_lap - 1)) ≡ l * one_lap
    and-lap =
        rw (above, lap_mask)
          (and_high (suc g.bits) (suc g.lap_bits) l (b * mark_bit + i) p.lap_in
              (omega (arith, below_lap, lap_pow))
            ∙ ap (λ (t : ℕ). l * t) (sym lap_pow))
      where
        above : x ≡ l * 2 ^ suc g.bits + (b * mark_bit + i)
        above = omega (arith, p.word, ap (λ (t : ℕ). l * t) lap_pow)

    pub x-lt : x < usize_mod
    x-lt = omega (arith, mul-le-mul_right one_lap p.lap_in, laps-mul, p.word, below_lap)

  -- Adding a lap keeps the other fields, and the laps wrap.
  pub add-lap :
      (l r : ℕ)
      → l < laps
      → r < one_lap
      → wrapping_add (l * one_lap + r) one_lap ≡ (l + 1) % laps * one_lap + r
  add-lap l r hl hr = elim (dec_lt (l + 1) laps) [
    | yes more ↦
        let below = mul-le-mul_right one_lap more in
        omega (arith, laps-mul, below, ap (λ (t : ℕ). t * one_lap) (mod-eq_of_lt more))
    | no last ↦
        let e : l + 1 ≡ laps = omega arith in
        omega (
          arith,
          laps-mul,
          ap (λ (t : ℕ). t * one_lap) e,
          ap (λ (t : ℕ). t % laps * one_lap) e,
          ap (λ (t : ℕ). t * one_lap) (mod_self laps),
          mul-le-mul_right one_lap two-le-laps,
        )
  ]

  -- The lap and the rest are determined by the word.
  pub lap_unique :
      (l m r s : ℕ)
      → r < one_lap
      → s < one_lap
      → l * one_lap + r ≡ m * one_lap + s
      → (l ≡ m) × (r ≡ s)
  lap_unique l m r s hr hs e =
      let pos : 0 < one_lap = omega arith in
      (
        omega (
          arith,
          ap (λ (t : ℕ). t / one_lap) e,
          mul-add-div_right pos l r,
          mul-add-div_right pos m s,
          div-eq_of_lt hr,
          div-eq_of_lt hs,
        ),
        omega (
          arith,
          ap (λ (t : ℕ). t % one_lap) e,
          mul-add-mod_self_right l one_lap r,
          mul-add-mod_self_right m one_lap s,
          mod-eq_of_lt hr,
          mod-eq_of_lt hs,
        ),
      )
