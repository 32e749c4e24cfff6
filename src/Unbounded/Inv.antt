-- ===== src/Unbounded/Inv.antt =====
-- What the blocks of a channel of src/list.rs hold while no operation is under way: a chain of
-- blocks, and in it the messages of a queue in consecutive slots.
pub mod Push
pub mod Link
pub mod Pop
use zchan.Base.{
  ℕ, zero, suc, ◌+◌, ◌-◌, ◌*◌, ◌≤◌, ◌<◌, ◌≡◌, ◌≢◌, ◌⊎◌, inl, inr, refl, sym, ap, ◌∙◌, Option, none,
  some, Option-cases, List, [], ◌∷◌, ◌++◌, length, get_elem?, mapped, ltb, ◌==◌, eq→==, ne→==,
  ℕ_discrete, if◌then◌else◌, arith, bit_or,
}
use zchan.Unbounded.{Slot, Store, slot_at, change_block, change_slot, alloc}
use zchan.Unbounded.Memory.{
  next?, slot_at-change_slot, next?-change_slot, linked, slot_at-linked, next?-linked_self,
  next?-linked_other, slot_at-alloc_self, slot_at-alloc_other, next?-alloc_self, next?-alloc_other,
  freed, slot_at-freed, next?-freed,
}

-- The state of the slot at a position, with the head at `i` and `n` messages: read and written,
-- written, or untouched.
abbrev pub expected : (i n pos : ℕ) → ℕ
expected i n pos = if ltb pos i then 3 else if ltb pos (i + n) then 1 else 0

module _ {T : Type 0} where
  abbrev pub state_of : Option (Slot T) → Option ℕ
  state_of none = none
  state_of (some s) = some s.state

  abbrev pub msg_of : Option (Slot T) → Option T
  msg_of none = none
  msg_of (some s) = s.msg

  -- The blocks at `ptr 0` to `ptr q`, with the head at slot `i` of the first one. A position is a
  -- slot's number, counted from the first slot of the first block on.
  pub record Mem (s : Store T) (ptr : ℕ → ℕ) (q i : ℕ) (xs : List T) : Type 0 where
    pub index_in : i < 31
    pub fits : i + length xs ≤ 31 * q + 31
    pub below : (j : ℕ) → j ≤ q → ptr j < s.fresh
    pub apart : (j k : ℕ) → j ≤ q → k ≤ q → ptr j ≡ ptr k → j ≡ k
    pub nexts :
        (j : ℕ) → j ≤ q → next? s (ptr j) ≡ some (if ltb j q then some (ptr (suc j)) else none)
    pub states :
        (j t : ℕ)
        → j ≤ q
        → t < 31
        → state_of (slot_at s (ptr j) t) ≡ some (expected i (length xs) (31 * j + t))
    pub messages :
        (j t k : ℕ)
        → j ≤ q
        → t < 31
        → 31 * j + t ≡ i + k
        → k < length xs
        → msg_of (slot_at s (ptr j) t) ≡ get_elem? xs k

  pub slot_at-change_self :
      (s : Store T) (p i : ℕ) (f : Slot T → Slot T)
      → slot_at (change_slot p i f s) p i ≡ mapped f (slot_at s p i)
  slot_at-change_self s p i f =
      slot_at-change_slot s p i p i f ∙ rw (eq→== p p refl, eq→== i i refl) refl

  pub slot_at-change_other :
      (s : Store T) (p i a t : ℕ) (f : Slot T → Slot T)
      → (a ≢ p) ⊎ (t ≢ i)
      → slot_at (change_slot p i f s) a t ≡ slot_at s a t
  slot_at-change_other s p i a t f (inl ne) =
      slot_at-change_slot s p i a t f ∙ rw (ne→== a p ne) refl
  slot_at-change_other s p i a t f (inr ne) = elim (ℕ_discrete a p) [
    | no other ↦ slot_at-change_slot s p i a t f ∙ rw (ne→== a p other) refl
    | yes same ↦ slot_at-change_slot s p i a t f ∙ rw (eq→== a p same, ne→== t i ne) refl
  ]

  pub some_slot :
      (o : Option (Slot T)) (v : ℕ)
      → state_of o ≡ some v
      → (slot : Slot T) × (o ≡ some slot) × (slot.state ≡ v)
  some_slot o v e = elim (Option-cases o) [
    | inl gone ↦ ground (arith, gone)
    | inr (slot, found) ↦ (slot, found, ground (arith, found))
  ]

  -- Slots at different positions are different slots.
  pub other_slot :
      {s : Store T} {ptr : ℕ → ℕ} {q i : ℕ} {xs : List T}
      → Mem s ptr q i xs
      → (j t k u : ℕ) → j ≤ q
      → k ≤ q
      → t < 31
      → u < 31
      → 31 * j + t ≢ 31 * k + u
      → (ptr j ≢ ptr k) ⊎ (t ≢ u)
  other_slot {ptr} m j t k u hj hk ht hu ne = elim (ℕ_discrete j k) [
    | yes same ↦ inr (λ e. ne (omega (arith, same, e)))
    | no other ↦ inl (λ e. other (m.apart j k hj hk e))
  ]
