-- ===== src/Unbounded/Memory.antt =====
-- What the accesses of the store of src/list.rs change.
use zchan.Base.{
  ℕ, zero, suc, ◌-◌, ◌<◌, ◌≡◌, ◌≢◌, refl, sym, ap, ◌∙◌, ◌&&◌, Option, none, some, Option-cases, inl,
  inr, List, [], ◌∷◌, get_elem?, mapped, ◌==◌, eq→==, ne→==, ℕ_discrete, if◌then◌else◌, arith,
}
use zchan.Array.{modify}
use zchan.Unbounded.{
  Slot, Block, empty_slots, new_block, Store, alloc, free, slot_in, slot_at, in_block, change_block,
  change_slot,
}

module _ {T : Type 0} where
  abbrev pub next_in : Option (Block T) → Option (Option ℕ)
  next_in none = none
  next_in (some b) = some b.next

  abbrev pub next? : Store T → ℕ → Option (Option ℕ)
  next? s p = next_in (s.cells p)

  get_elem?-modify :
      (xs : List (Slot T)) (i t : ℕ) (f : Slot T → Slot T)
      → get_elem? (modify xs i f) t ≡ (if t == i then mapped f (get_elem? xs t) else get_elem? xs t)
  get_elem?-modify [] i t f = ground arith
  get_elem?-modify (x ∷ xs) zero zero f = refl
  get_elem?-modify (x ∷ xs) zero (suc t) f = ground arith
  get_elem?-modify (x ∷ xs) (suc i) zero f = ground arith
  get_elem?-modify (x ∷ xs) (suc i) (suc t) f = ground (arith, get_elem?-modify xs i t f)

  cell_self :
      (s : Store T) (p a : ℕ) (f : Block T → Block T)
      → a ≡ p
      → (change_block p f s).cells a ≡ mapped f (s.cells a)
  unfolding change_block
  cell_self s p a f same = rw (eq→== a p same) refl

  cell_other :
      (s : Store T) (p a : ℕ) (f : Block T → Block T)
      → a ≢ p
      → (change_block p f s).cells a ≡ s.cells a
  unfolding change_block
  cell_other s p a f ne = rw (ne→== a p ne) refl

  slot_in-modify :
      (o : Option (Block T)) (i t : ℕ) (f : Slot T → Slot T)
      → slot_in (mapped (in_block i f) o) t
        ≡ (if t == i then mapped f (slot_in o t) else slot_in o t)
  slot_in-modify none i t f = ground arith
  slot_in-modify (some b) i t f = get_elem?-modify b.slots i t f

  pub slot_at-change_slot :
      (s : Store T) (p i a t : ℕ) (f : Slot T → Slot T)
      → slot_at (change_slot p i f s) a t
        ≡ (if (a == p) && (t == i) then mapped f (slot_at s a t) else slot_at s a t)
  unfolding slot_at change_slot
  slot_at-change_slot s p i a t f = elim (ℕ_discrete a p) [
    | no ne ↦
        ap (λ o. slot_in o t) (cell_other s p a (in_block i f) ne)
        ∙ ap
            (λ b. if b && (t == i) then mapped f (slot_in (s.cells a) t) else slot_in (s.cells a) t)
            (sym (ne→== a p ne))
    | yes same ↦
        ap (λ o. slot_in o t) (cell_self s p a (in_block i f) same)
        ∙ slot_in-modify (s.cells a) i t f
        ∙ ap
            (λ b. if b && (t == i) then mapped f (slot_in (s.cells a) t) else slot_in (s.cells a) t)
            (sym (eq→== a p same))
  ]

  next_in-modify :
      (o : Option (Block T)) (i : ℕ) (f : Slot T → Slot T)
      → next_in (mapped (in_block i f) o) ≡ next_in o
  next_in-modify none i f = refl
  next_in-modify (some b) i f = refl

  pub next?-change_slot :
      (s : Store T) (p i a : ℕ) (f : Slot T → Slot T) → next? (change_slot p i f s) a ≡ next? s a
  unfolding change_slot
  next?-change_slot s p i a f = elim (ℕ_discrete a p) [
    | no ne ↦ ap next_in (cell_other s p a _ ne)
    | yes same ↦ ap next_in (cell_self s p a _ same) ∙ next_in-modify (s.cells a) i f
  ]

  -- A store to the pointer `next` of a block.
  abbrev pub linked : ℕ → Block T → Block T
  linked p b = record b { next = some p }

  slot_in-linked : (o : Option (Block T)) (p t : ℕ) → slot_in (mapped (linked p) o) t ≡ slot_in o t
  slot_in-linked none p t = refl
  slot_in-linked (some b) p t = refl

  pub slot_at-linked :
      (s : Store T) (b p a t : ℕ) → slot_at (change_block b (linked p) s) a t ≡ slot_at s a t
  unfolding slot_at
  slot_at-linked s b p a t = elim (ℕ_discrete a b) [
    | no ne ↦ ap (λ o. slot_in o t) (cell_other s b a _ ne)
    | yes same ↦ ap (λ o. slot_in o t) (cell_self s b a _ same) ∙ slot_in-linked (s.cells a) p t
  ]

  next_in-linked :
      (o : Option (Block T)) (p : ℕ) (nx : Option ℕ)
      → next_in o ≡ some nx
      → next_in (mapped (linked p) o) ≡ some (some p)
  next_in-linked none p nx e = cc
  next_in-linked (some b) p nx e = refl

  pub next?-linked_self :
      (s : Store T) (b p : ℕ) (nx : Option ℕ)
      → next? s b ≡ some nx
      → next? (change_block b (linked p) s) b ≡ some (some p)
  next?-linked_self s b p nx e =
      ap next_in (cell_self s b b (linked p) refl) ∙ next_in-linked (s.cells b) p nx e

  pub next?-linked_other :
      (s : Store T) (b p a : ℕ) → a ≢ b → next? (change_block b (linked p) s) a ≡ next? s a
  next?-linked_other s b p a ne = ap next_in (cell_other s b a (linked p) ne)

  get_elem?-empty_slots :
      (n t : ℕ) → t < n → get_elem? (empty_slots T n) t ≡ some (record { msg = none; state = 0 })
  unfolding empty_slots
  get_elem?-empty_slots zero t h = absurd (omega arith)
  get_elem?-empty_slots (suc n) zero h = refl
  get_elem?-empty_slots (suc n) (suc t) h = get_elem?-empty_slots n t (omega arith)

  cell-alloc_self : (s : Store T) → (alloc s).0.cells s.fresh ≡ some (new_block T)
  unfolding alloc
  cell-alloc_self s = rw (eq→== s.fresh s.fresh refl) refl

  cell-alloc_other : (s : Store T) (a : ℕ) → a < s.fresh → (alloc s).0.cells a ≡ s.cells a
  unfolding alloc
  cell-alloc_other s a h = rw (ne→== a s.fresh (omega arith)) refl

  pub slot_at-alloc_self :
      (s : Store T) (t : ℕ)
      → t < 31
      → slot_at (alloc s).0 s.fresh t ≡ some (record { msg = none; state = 0 })
  unfolding slot_at new_block
  slot_at-alloc_self s t h =
      ap (λ o. slot_in o t) (cell-alloc_self s) ∙ get_elem?-empty_slots 31 t h

  pub slot_at-alloc_other :
      (s : Store T) (a t : ℕ) → a < s.fresh → slot_at (alloc s).0 a t ≡ slot_at s a t
  unfolding slot_at
  slot_at-alloc_other s a t h = ap (λ o. slot_in o t) (cell-alloc_other s a h)

  pub next?-alloc_self : (s : Store T) → next? (alloc s).0 s.fresh ≡ some none
  unfolding new_block
  next?-alloc_self s = ap next_in (cell-alloc_self s)

  pub next?-alloc_other : (s : Store T) (a : ℕ) → a < s.fresh → next? (alloc s).0 a ≡ next? s a
  next?-alloc_other s a h = ap next_in (cell-alloc_other s a h)

  -- The store with a block freed.
  abbrev pub freed : ℕ → Store T → Store T
  freed p s = record s { cells = λ (a : ℕ). if a == p then none else s.cells a; live = s.live - 1 }

  -- A block that is allocated.
  pub cell_of_next? :
      (s : Store T) (p : ℕ) (nx : Option ℕ)
      → next? s p ≡ some nx
      → (b : Block T) × (s.cells p ≡ some b) × (b.next ≡ nx)
  cell_of_next? s p nx e = elim (Option-cases (s.cells p)) [
    | inl gone ↦ ground (arith, gone)
    | inr (b, found) ↦ (b, found, ground (arith, found))
  ]

  pub free_lem :
      (s : Store T) (p : ℕ) (nx : Option ℕ) → next? s p ≡ some nx → free p s ≡ some (freed p s)
  unfolding free
  free_lem s p nx e = let (b, found, _) = cell_of_next? s p nx e in rw (found, free) refl

  cell-freed : (s : Store T) (p a : ℕ) → a ≢ p → (freed p s).cells a ≡ s.cells a
  cell-freed s p a ne = rw (ne→== a p ne) refl

  pub slot_at-freed : (s : Store T) (p a t : ℕ) → a ≢ p → slot_at (freed p s) a t ≡ slot_at s a t
  unfolding slot_at
  slot_at-freed s p a t ne = ap (λ o. slot_in o t) (cell-freed s p a ne)

  pub next?-freed : (s : Store T) (p a : ℕ) → a ≢ p → next? (freed p s) a ≡ next? s a
  next?-freed s p a ne = ap next_in (cell-freed s p a ne)
