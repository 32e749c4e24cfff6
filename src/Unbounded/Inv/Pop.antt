-- ===== src/Unbounded/Inv/Pop.antt =====
-- The memory of a channel of src/list.rs after the read of a slot, and after a block is freed.
use zchan.Base.{
  ℕ, zero, suc, ◌+◌, ◌*◌, ◌≤◌, ◌<◌, ◌≡◌, ◌≢◌, ap, ◌∙◌, Option, none, some, List, ◌∷◌, length,
  mapped, ℕ_discrete, if◌then◌else◌, arith, bit_or,
}
use zchan.Unbounded.{Slot, Store, read_bit, slot_at, change_slot}
use zchan.Unbounded.Recv.{set_bit, destroy_from, destroy}
use zchan.Unbounded.Memory.{next?, next?-change_slot, freed, free_lem, slot_at-freed, next?-freed}
use zchan.Unbounded.Inv.{
  expected, state_of, msg_of, Mem, slot_at-change_self, slot_at-change_other, some_slot, other_slot,
}

module _ {T : Type 0} where
  state-set_bit :
      (o : Option (Slot T)) (v bit : ℕ)
      → state_of o ≡ some v
      → state_of (mapped (set_bit bit) o) ≡ some (bit_or v bit)
  state-set_bit none v bit e = cc
  state-set_bit (some slot) v bit e = ground (arith, e)

  module _ {s : Store T} {ptr : ℕ → ℕ} {q i : ℕ} {x : T} {xs : List T}
      (m : Mem s ptr q i (x ∷ xs)) where
    pub front_state : state_of (slot_at s (ptr 0) i) ≡ some 1
    front_state = m.states 0 i (omega arith) m.index_in ∙ ap some (ground arith)

    pub front_msg : msg_of (slot_at s (ptr 0) i) ≡ some x
    front_msg = m.messages 0 i 0 (omega arith) m.index_in (omega arith) (omega arith)

    -- The read of the first message, unless it is in the last slot of its block.
    module _ (within : i < 30) where
      abbrev after : Store T
      after = change_slot (ptr 0) i (set_bit read_bit) s

      read-states :
          (j t : ℕ)
          → j ≤ q
          → t < 31
          → state_of (slot_at after (ptr j) t) ≡ some (expected (i + 1) (length xs) (31 * j + t))
      read-states j t kj kt = elim (ℕ_discrete (31 * j + t) i) [
        | yes same ↦
            let same_j : j ≡ 0 = omega (arith, same, m.index_in) in
            let same_t : t ≡ i = omega (arith, same, m.index_in) in
            ap (λ (a : ℕ). state_of (slot_at after (ptr a) t)) same_j
            ∙ ap (λ (u : ℕ). state_of (slot_at after (ptr 0) u)) same_t
            ∙ ap state_of (slot_at-change_self s (ptr 0) i (set_bit read_bit))
            ∙ state-set_bit (slot_at s (ptr 0) i) 1 read_bit front_state
            ∙ ap some (ground (arith, same))
        | no ne ↦
            ap state_of (
              slot_at-change_other s (ptr 0) i (ptr j) t (set_bit read_bit)
                (other_slot m j t 0 i kj (omega arith) kt m.index_in (λ e. ne (omega (arith, e)))))
            ∙ m.states j t kj kt
            ∙ ap some (ground (arith, ne))
      ]

      pub read-Mem : Mem after ptr q (i + 1) xs
      unfolding change_slot
      read-Mem = record {
        index_in = omega arith;
        fits = omega (arith, m.fits);
        below = m.below;
        apart = m.apart;
        nexts = λ j h. next?-change_slot s (ptr 0) i (ptr j) (set_bit read_bit) ∙ m.nexts j h;
        states = read-states;
        messages = λ j t k kj kt pos hk.
            ap msg_of (
              slot_at-change_other s (ptr 0) i (ptr j) t (set_bit read_bit)
                (other_slot m j t 0 i kj (omega arith) kt m.index_in (λ e. omega (arith, e, pos))))
            ∙ m.messages j t (suc k) kj kt (omega (arith, pos)) (omega (arith, hk));
      }

  -- The read of the last slot of the first block, which is freed.
  module _ {s : Store T} {ptr : ℕ → ℕ} {q : ℕ} {x : T} {xs : List T}
      (m : Mem s ptr (suc q) 30 (x ∷ xs)) where
    other_block : (j : ℕ) → j ≤ q → ptr (suc j) ≢ ptr 0
    other_block j h e = omega (arith, m.apart (suc j) 0 (omega arith) (omega arith) e)

    pub freed-Mem : Mem (freed (ptr 0) s) (λ j. ptr (suc j)) q 0 xs
    freed-Mem = record {
      index_in = omega arith;
      fits = omega (arith, m.fits);
      below = λ j h. m.below (suc j) (omega arith);
      apart = λ j k hj hk e. omega (arith, m.apart (suc j) (suc k) (omega arith) (omega arith) e);
      nexts = λ j h.
          next?-freed s (ptr 0) (ptr (suc j)) (other_block j h)
          ∙ m.nexts (suc j) (omega arith)
          ∙ ap (λ b. some (if b then some (ptr (suc (suc j))) else none)) (ground arith);
      states = λ j t h ht.
          ap state_of (slot_at-freed s (ptr 0) (ptr (suc j)) t (other_block j h))
          ∙ m.states (suc j) t (omega arith) ht
          ∙ ap some (ground arith);
      messages = λ j t k h ht e hk.
          ap msg_of (slot_at-freed s (ptr 0) (ptr (suc j)) t (other_block j h))
          ∙ m.messages (suc j) t (suc k) (omega arith) ht (omega (arith, e)) (omega (arith, hk));
    }

  -- A block whose slots were all read is freed.
  destroy_from-read :
      (n i p : ℕ) (s : Store T) (nx : Option ℕ)
      → ((t : ℕ) → t < i + n → state_of (slot_at s p t) ≡ some 3)
      → next? s p ≡ some nx
      → destroy_from n i p s ≡ some (freed p s)
  unfolding destroy_from
  destroy_from-read zero i p s nx all e = free_lem s p nx e
  destroy_from-read (suc n) i p s nx all e =
      let (slot, found, is) = some_slot (slot_at s p i) 3 (all i (omega arith)) in
      rw (destroy_from, found, is)
        (destroy_from-read n (i + 1) p s nx (λ t h. all t (omega (arith, h))) e)

  pub destroy-read :
      (p : ℕ) (s : Store T) (nx : Option ℕ)
      → ((t : ℕ) → t < 30 → state_of (slot_at s p t) ≡ some 3)
      → next? s p ≡ some nx
      → destroy p 0 s ≡ some (freed p s)
  unfolding destroy
  destroy-read p s nx all e = destroy_from-read 30 0 p s nx all e
