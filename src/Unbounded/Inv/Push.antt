-- ===== src/Unbounded/Inv/Push.antt =====
-- The memory of a channel of src/list.rs after an allocation, a link and a write.
use zchan.Base.{
  ℕ, ◌+◌, ◌*◌, ◌≤◌, ◌<◌, ◌≡◌, ◌≢◌, ◌⊎◌, sym, ap, ◌∙◌, some, List, [], ◌∷◌, ◌++◌, length,
  length-append, get_elem?, mapped, ℕ_discrete, arith, bit_or,
}
use zchan.Array.Inv.{get_elem?-append_left, get_elem?-append_end}
use zchan.Unbounded.{Slot, Store, write_bit, slot_at, change_slot}
use zchan.Unbounded.Memory.{next?-change_slot}
use zchan.Unbounded.Inv.{
  expected, state_of, msg_of, Mem, slot_at-change_self, slot_at-change_other, some_slot, other_slot,
}

module _ {T : Type 0} where
  abbrev pub with_msg : T → Slot T → Slot T
  with_msg x sl = record sl { msg = some x }

  abbrev pub with_write : Slot T → Slot T
  with_write sl = record sl { state = bit_or sl.state write_bit }

  -- The two stores of `write`.
  abbrev pub written : (p i : ℕ) → T → Store T → Store T
  written p i x s = change_slot p i with_write (change_slot p i (with_msg x) s)

  slot_at-written_self :
      (s : Store T) (p i : ℕ) (x : T)
      → state_of (slot_at s p i) ≡ some 0
      → slot_at (written p i x s) p i ≡ some (record { msg = some x; state = 1 })
  slot_at-written_self s p i x e =
      let (slot, found, is) = some_slot (slot_at s p i) 0 e in
      slot_at-change_self (change_slot p i (with_msg x) s) p i with_write
      ∙ ap (mapped with_write)
          (slot_at-change_self s p i (with_msg x) ∙ ap (mapped (with_msg x)) found)
      ∙ ap (λ (v : ℕ). some (record { msg = some x; state = bit_or v 1 })) is

  slot_at-written_other :
      (s : Store T) (p i a t : ℕ) (x : T)
      → (a ≢ p) ⊎ (t ≢ i)
      → slot_at (written p i x s) a t ≡ slot_at s a t
  slot_at-written_other s p i a t x ne =
      slot_at-change_other (change_slot p i (with_msg x) s) p i a t with_write ne
      ∙ slot_at-change_other s p i a t (with_msg x) ne

  module _ {s : Store T} {ptr : ℕ → ℕ} {q i : ℕ} {xs : List T} (m : Mem s ptr q i xs) where
    -- The write of a message to the first untouched slot.
    module _ (j0 t0 : ℕ) (hj : j0 ≤ q) (ht : t0 < 31) (at : 31 * j0 + t0 ≡ i + length xs)
        (x : T) where
      abbrev after : Store T
      after = written (ptr j0) t0 x s

      grown : length (xs ++ (x ∷ [])) ≡ length xs + 1
      grown = length-append xs (x ∷ []) ∙ omega arith

      untouched : state_of (slot_at s (ptr j0) t0) ≡ some 0
      untouched = m.states j0 t0 hj ht ∙ ap some (ground (arith, at))

      written-states :
          (j t : ℕ)
          → j ≤ q
          → t < 31
          → state_of (slot_at after (ptr j) t)
            ≡ some (expected i (length (xs ++ (x ∷ []))) (31 * j + t))
      written-states j t kj kt = elim (ℕ_discrete (31 * j + t) (31 * j0 + t0)) [
        | yes same ↦
            let same_j : j ≡ j0 = omega (arith, same, ht, kt) in
            let same_t : t ≡ t0 = omega (arith, same, ht, kt) in
            ap (λ (a : ℕ). state_of (slot_at after (ptr a) t)) same_j
            ∙ ap (λ (u : ℕ). state_of (slot_at after (ptr j0) u)) same_t
            ∙ ap state_of (slot_at-written_self s (ptr j0) t0 x untouched)
            ∙ ap some (ground (arith, same, at, grown))
        | no ne ↦
            ap state_of (
              slot_at-written_other s (ptr j0) t0 (ptr j) t x
                (other_slot m j t j0 t0 kj hj kt ht ne))
            ∙ m.states j t kj kt
            ∙ ap some (ground (arith, ne, at, grown))
      ]

      written-messages :
          (j t k : ℕ)
          → j ≤ q
          → t < 31
          → 31 * j + t ≡ i + k
          → k < length (xs ++ (x ∷ []))
          → msg_of (slot_at after (ptr j) t) ≡ get_elem? (xs ++ (x ∷ [])) k
      written-messages j t k kj kt pos hk = elim (ℕ_discrete k (length xs)) [
        | yes last ↦
            let same_j : j ≡ j0 = omega (arith, pos, last, at, ht, kt) in
            let same_t : t ≡ t0 = omega (arith, pos, last, at, ht, kt) in
            ap (λ (a : ℕ). msg_of (slot_at after (ptr a) t)) same_j
            ∙ ap (λ (u : ℕ). msg_of (slot_at after (ptr j0) u)) same_t
            ∙ ap msg_of (slot_at-written_self s (ptr j0) t0 x untouched)
            ∙ sym (ap (get_elem? (xs ++ (x ∷ []))) last ∙ get_elem?-append_end xs x)
        | no ne ↦
            let old : k < length xs = omega (arith, hk, grown, ne) in
            ap msg_of (
              slot_at-written_other s (ptr j0) t0 (ptr j) t x
                (other_slot m j t j0 t0 kj hj kt ht (λ e. ne (omega (arith, e, pos, at)))))
            ∙ m.messages j t k kj kt pos old
            ∙ sym (get_elem?-append_left xs (x ∷ []) k old)
      ]

      pub written-Mem : Mem after ptr q i (xs ++ (x ∷ []))
      unfolding change_slot
      written-Mem = record {
        index_in = m.index_in;
        fits = omega (arith, grown, at, hj, ht);
        below = m.below;
        apart = m.apart;
        nexts = λ j h.
            next?-change_slot (change_slot (ptr j0) t0 (with_msg x) s) (ptr j0) t0 (ptr j)
              with_write
            ∙ next?-change_slot s (ptr j0) t0 (ptr j) (with_msg x)
            ∙ m.nexts j h;
        states = written-states;
        messages = written-messages;
      }
