-- ===== src/Word/NextPower.antt =====
-- `next_power_of_two` gives a power of two that is at least its argument, and no larger than any
-- other such power.
use native.Mathlib.Nat.{pow-suc, add-zero, add-suc, suc-add, zero-add, pow-le-pow_right}
use zchan.Base.{ℕ, zero, suc, ◌+◌, ◌*◌, ◌^◌, ◌≤◌, ◌≡◌, refl, sym, subst, arith, dec_lt}
use zchan.Word.{doubled, next_power_of_two}

doubled_lem :
    (left d j p n : ℕ)
    → d ≤ left
    → p ≡ 2 ^ j
    → n ≤ 2 ^ (j + d)
    → (k : ℕ) × (k ≤ j + d) × (doubled left p n ≡ 2 ^ k) × (n ≤ 2 ^ k)
unfolding doubled
doubled_lem zero d j p n hd e h =
    let d0 : d ≡ 0 = omega arith in (j, omega arith, e, rw (d0, add-zero) at h)
doubled_lem (suc left) zero j p n hd e h =
    (j, omega arith, ground (arith, e, add-zero j, h), rw add-zero at h)
doubled_lem (suc left) (suc d) j p n hd e h = elim (dec_lt p n) [
  | yes more ↦
      let (k, small, out, enough) =
        doubled_lem left d (suc j) (2 * p) n (omega arith) (omega (arith, e, pow-suc 2 j))
          (rw suc-add (rw add-suc at h)) in
      (k, omega arith, ground (arith, out), enough)
  | no done ↦ (j, omega arith, ground arith, omega (arith, e))
]

pub next_power_of_two_lem :
    (d n : ℕ) → d ≤ 63 → n ≤ 2 ^ d → (k : ℕ) × (k ≤ d) × (next_power_of_two n ≡ 2 ^ k) × (n ≤ 2 ^ k)
unfolding next_power_of_two
next_power_of_two_lem d n hd h =
    let (k, small, out, enough) =
      doubled_lem 64 d 0 1 n (omega arith) refl (subst (λ t. n ≤ 2 ^ t) (sym (zero-add d)) h) in
    let low : 2 ^ k ≤ 2 ^ 63 =
      pow-le-pow_right {n = 2} (omega arith) {i = k} {j = 63} (omega arith) in
    (k, omega arith, omega (arith, out, low), enough)
