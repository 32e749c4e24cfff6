-- ===== src/Word/Bits.antt =====
-- `&` and `|` of words that are split in a high and a low field, at every width of the low field.
use Prim.Native.Nat.{max, digits, bit_and-bitwise, bit_or-bitwise}
use native.Mathlib.Nat.{pow-suc, one-le-pow, zero-add, suc-add}
use zchan.Base.{
  ℕ, zero, suc, ◌+◌, ◌-◌, ◌*◌, ◌/◌, ◌%◌, ◌^◌, ◌≤◌, ◌<◌, ◌≡◌, refl, ap, ◌∙◌, arith, bit_and, bit_or,
  min,
}

-- The native operations are a recursion on digits with fuel. Any fuel that covers the first number
-- gives the same digits, so one equation for the lowest digit holds.
module _ (rest : ℕ → ℕ) (bit : ℕ → ℕ → ℕ) where
  digits-fuel : (n m a b : ℕ) → a ≤ n → a ≤ m → digits rest bit n a b ≡ digits rest bit m a b
  digits-fuel zero zero a b p q = refl
  digits-fuel zero (suc m) zero b p q = refl
  digits-fuel (suc n) zero zero b p q = refl
  digits-fuel (suc n) (suc m) zero b p q = refl
  digits-fuel zero (suc m) (suc a) b p q = absurd (omega arith)
  digits-fuel (suc n) zero (suc a) b p q = absurd (omega arith)
  digits-fuel (suc n) (suc m) (suc a) b p q =
      omega (arith, digits-fuel n m (suc a / 2) (b / 2) (omega arith) (omega arith))

and_digit : (a b : ℕ) → bit_and a b ≡ bit_and (a / 2) (b / 2) * 2 + min (a % 2) (b % 2)
and_digit zero b = omega (arith, bit_and-bitwise 0 b, bit_and-bitwise 0 (b / 2))
and_digit (suc a) b = omega (
  arith,
  bit_and-bitwise (suc a) b,
  bit_and-bitwise (suc a / 2) (b / 2),
  digits-fuel (λ _. 0) min a (suc a / 2) (suc a / 2) (b / 2) (omega arith) (omega arith),
)

or_digit : (a b : ℕ) → bit_or a b ≡ bit_or (a / 2) (b / 2) * 2 + max (a % 2) (b % 2)
or_digit zero b = omega (arith, bit_or-bitwise 0 b, bit_or-bitwise 0 (b / 2))
or_digit (suc a) b = omega (
  arith,
  bit_or-bitwise (suc a) b,
  bit_or-bitwise (suc a / 2) (b / 2),
  digits-fuel (λ y. y) max a (suc a / 2) (suc a / 2) (b / 2) (omega arith) (omega arith),
)

-- An operation on digits acts on the fields of a word separately.
module _ (op bit : ℕ → ℕ → ℕ) (clear : bit 0 0 ≡ 0)
    (digit : (a b : ℕ) → op a b ≡ op (a / 2) (b / 2) * 2 + bit (a % 2) (b % 2)) where
  op-zero : op 0 0 ≡ 0
  op-zero = omega (arith, digit 0 0, clear)

  op-fields :
      (k a b r s : ℕ)
      → r < 2 ^ k
      → s < 2 ^ k
      → op (a * 2 ^ k + r) (b * 2 ^ k + s) ≡ op a b * 2 ^ k + op r s
  op-fields zero a b r s hr hs =
      rw (low a r hr, low b s hs, zero_of r hr, zero_of s hs, op-zero) (omega arith)
    where
      low : (a r : ℕ) → r < 1 → a * 1 + r ≡ a
      low a r h = omega arith

      zero_of : (r : ℕ) → r < 1 → r ≡ 0
      zero_of r h = omega arith
  op-fields (suc k) a b r s hr hs =
      rw
        (
          digit (a * 2 ^ suc k + r) (b * 2 ^ suc k + s),
          half a r,
          half b s,
          parity a r,
          parity b s,
          op-fields k a b (r / 2) (s / 2) (omega (arith, pow-suc 2 k)) (omega (arith, pow-suc 2 k)),
        )
        (omega (arith, digit r s, double (op a b)))
    where
      double : (a : ℕ) → a * 2 ^ suc k ≡ 2 * (a * 2 ^ k)
      double a = omega (arith, ap (λ (t : ℕ). a * t) (pow-suc 2 k))

      half : (a r : ℕ) → (a * 2 ^ suc k + r) / 2 ≡ a * 2 ^ k + r / 2
      half a r = omega (arith, double a)

      parity : (a r : ℕ) → (a * 2 ^ suc k + r) % 2 ≡ r % 2
      parity a r = omega (arith, double a)

  -- The same for words that equal such sums, with the fields' results given.
  by_fields :
      (k a b r s : ℕ) {x y p q : ℕ}
      → r < 2 ^ k
      → s < 2 ^ k
      → x ≡ a * 2 ^ k + r
      → y ≡ b * 2 ^ k + s
      → op a b ≡ p
      → op r s ≡ q
      → op x y ≡ p * 2 ^ k + q
  by_fields k a b r s hr hs ex ey ep eq = rw (ex, ey, op-fields k a b r s hr hs, ep, eq)

pub and_by_fields :
    (k a b r s : ℕ) {x y p q : ℕ}
    → r < 2 ^ k
    → s < 2 ^ k
    → x ≡ a * 2 ^ k + r
    → y ≡ b * 2 ^ k + s
    → bit_and a b ≡ p
    → bit_and r s ≡ q
    → bit_and x y ≡ p * 2 ^ k + q
and_by_fields = by_fields bit_and min refl and_digit

pub or_by_fields :
    (k a b r s : ℕ) {x y p q : ℕ}
    → r < 2 ^ k
    → s < 2 ^ k
    → x ≡ a * 2 ^ k + r
    → y ≡ b * 2 ^ k + s
    → bit_or a b ≡ p
    → bit_or r s ≡ q
    → bit_or x y ≡ p * 2 ^ k + q
or_by_fields = by_fields bit_or max refl or_digit

pub and-zero : (m a : ℕ) → a < 2 ^ m → bit_and a 0 ≡ 0
and-zero zero a h = let e : a ≡ 0 = omega arith in rw e
and-zero (suc m) a h = omega (arith, and_digit a 0, and-zero m (a / 2) (omega (arith, pow-suc 2 m)))

pub or-zero : (m a : ℕ) → a < 2 ^ m → bit_or a 0 ≡ a
or-zero zero a h = let e : a ≡ 0 = omega arith in rw e
or-zero (suc m) a h = omega (arith, or_digit a 0, or-zero m (a / 2) (omega (arith, pow-suc 2 m)))

-- A mask of ones keeps every bit of a number that fits it.
pub and_ones : (m a : ℕ) → a < 2 ^ m → bit_and a (2 ^ m - 1) ≡ a
and_ones zero a h = let e : a ≡ 0 = omega arith in rw e
and_ones (suc m) a h =
    rw (and_digit a (2 ^ suc m - 1), half, parity, and_ones m (a / 2) (omega (arith, pow-suc 2 m)))
      (omega arith)
  where
    half : (2 ^ suc m - 1) / 2 ≡ 2 ^ m - 1
    half = omega (arith, pow-suc 2 m)

    parity : (2 ^ suc m - 1) % 2 ≡ 1
    parity = omega (arith, pow-suc 2 m, one-le-pow m 2)

pub pow-add : (j k : ℕ) → 2 ^ (j + k) ≡ 2 ^ j * 2 ^ k
pow-add zero k = rw zero-add (omega arith)
pow-add (suc j) k =
    rw suc-add
      (omega (arith, pow-suc 2 (j + k), ap (λ (t : ℕ). t * 2 ^ k) (pow-suc 2 j), pow-add j k))

pub and-one : (m a : ℕ) → a < 2 ^ m → bit_and a 1 ≡ a % 2
and-one m a h = omega (arith, and_digit a 1, and-zero m (a / 2) (omega arith))

pub or-one : (m a : ℕ) → a < 2 ^ m → bit_or a 1 ≡ a / 2 * 2 + 1
or-one m a h = omega (arith, or_digit a 1, or-zero m (a / 2) (omega arith))

-- A mask of ones above the lowest bit.
pub and_even : (m a : ℕ) → a < 2 ^ m → bit_and a (2 ^ m - 2) ≡ a / 2 * 2
and_even zero a h = let e : a ≡ 0 = omega arith in rw e
and_even (suc m) a h =
    rw (and_digit a (2 ^ suc m - 2), half, parity, and_ones m (a / 2) (omega (arith, pow-suc 2 m)))
      (omega arith)
  where
    half : (2 ^ suc m - 2) / 2 ≡ 2 ^ m - 1
    half = omega (arith, pow-suc 2 m)

    parity : (2 ^ suc m - 2) % 2 ≡ 0
    parity = omega (arith, pow-suc 2 m, one-le-pow m 2)

module _ (k m a r : ℕ) (ha : a < 2 ^ m) (hr : r < 2 ^ k) where
  -- The low field, cut out by a mask.
  pub and_low : bit_and (a * 2 ^ k + r) (2 ^ k - 1) ≡ r
  and_low =
      and_by_fields k a 0 r (2 ^ k - 1) hr (omega arith) refl (omega arith) (and-zero m a ha)
        (and_ones k r hr)
      ∙ omega arith

  -- One bit, just above the low field.
  pub and_bit : bit_and (a * 2 ^ k + r) (2 ^ k) ≡ a % 2 * 2 ^ k
  and_bit =
      and_by_fields k a 1 r 0 hr (omega arith) refl (omega arith) (and-one m a ha) (and-zero k r hr)
      ∙ omega arith

  pub or_bit : bit_or (a * 2 ^ k + r) (2 ^ k) ≡ (a / 2 * 2 + 1) * 2 ^ k + r
  or_bit =
      or_by_fields k a 1 r 0 hr (omega arith) refl (omega arith) (or-one m a ha) (or-zero k r hr)

  -- The high field, cut out by a mask.
  pub and_high : bit_and (a * 2 ^ k + r) ((2 ^ m - 1) * 2 ^ k) ≡ a * 2 ^ k
  and_high =
      and_by_fields k a (2 ^ m - 1) r 0 hr (omega arith) refl (omega arith) (and_ones m a ha)
        (and-zero k r hr)
      ∙ omega arith

  -- All but one bit: the mask has ones above and below it.
  pub and_not_bit :
      bit_and (a * 2 ^ k + r) ((2 ^ m - 2) * 2 ^ k + (2 ^ k - 1)) ≡ a / 2 * 2 * 2 ^ k + r
  and_not_bit =
      and_by_fields k a (2 ^ m - 2) r (2 ^ k - 1) hr (omega arith) refl refl (and_even m a ha)
        (and_ones k r hr)
