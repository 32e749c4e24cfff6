-- ===== src/Array/Inv.antt =====
-- What a bounded channel of src/array.rs holds while no operation is under way: the messages of the
-- queue lie in the slots from the head on, going round at the capacity, and every stamp says which
-- lap its slot is at and whether it holds a message.
use zchan.Base.{
  ℕ, zero, suc, ◌+◌, ◌-◌, ◌*◌, ◌%◌, ◌≤◌, ◌<◌, ◌≡◌, ◌≢◌, refl, ap, Option-cases, inl, inr, ◌++◌,
  Bool, true, false, Option, none, some, List, [], ◌∷◌, length, get_elem?, ltb, if◌then◌else◌,
  arith,
}
use zchan.SerialWaker.Queue.{ArrayQueue}
use zchan.Array.{Slot, Channel, modify}
use zchan.Array.Stamp.{Geometry, laps}

abbrev pub bit : Bool → ℕ
bit false = 0
bit true = 1

-- Positions round a buffer of `cap` slots, from the head at `index` in lap `lap` on.
module _ (cap lap next index : ℕ) where
  -- How many steps slot `j` lies behind the head.
  abbrev pub distance : ℕ → ℕ
  distance j = if ltb j index then j + cap - index else j - index

  abbrev pub lap_at : ℕ → ℕ
  lap_at j = if ltb j index then next else lap

  -- The position after `n` messages.
  abbrev pub index_after : ℕ → ℕ
  index_after n = if ltb (index + n) cap then index + n else index + n - cap

  abbrev pub lap_after : ℕ → ℕ
  lap_after n = if ltb (index + n) cap then lap else next

module _ {T : Type 0} where
  abbrev pub stamp_of : Option (Slot T) → Option ℕ
  stamp_of none = none
  stamp_of (some s) = some s.stamp

  abbrev pub msg_of : Option (Slot T) → Option T
  msg_of none = none
  msg_of (some s) = s.msg

  abbrev pub stamp? : List (Slot T) → ℕ → Option ℕ
  stamp? buf j = stamp_of (get_elem? buf j)

  abbrev pub msg? : List (Slot T) → ℕ → Option T
  msg? buf j = msg_of (get_elem? buf j)

module _ {T : Type 0} {𝓠 : ArrayQueue} where
  -- The channel holds the messages `xs`, and is disconnected or not.
  pub record Holds (c : Channel T 𝓠) (xs : List T) (closed : Bool) : Type 0 where
    pub geometry : Geometry c.cap c.one_lap c.mark_bit
    pub lap : ℕ
    pub next : ℕ
    pub index : ℕ
    pub lap_in : lap < laps geometry
    pub next_lap : next ≡ (lap + 1) % laps geometry
    pub index_in : index < c.cap
    pub room : length xs ≤ c.cap
    pub head : c.head ≡ lap * c.one_lap + index
    pub tail :
        c.tail
        ≡ lap_after c.cap lap next index (length xs) * c.one_lap
          + bit closed * c.mark_bit
          + index_after c.cap lap next index (length xs)
    pub stamps :
        (j : ℕ)
        → j < c.cap
        → stamp? c.buffer j
          ≡ some (
              lap_at c.cap lap next index j * c.one_lap
              + j
              + (if ltb (distance c.cap lap next index j) (length xs) then 1 else 0))
    pub messages :
        (j : ℕ)
        → j < c.cap
        → distance c.cap lap next index j < length xs
        → msg? c.buffer j ≡ get_elem? xs (distance c.cap lap next index j)

-- What a store into a buffer changes.
module _ {ℓ} {A : Type ℓ} where
  pub get_elem?-modify_self :
      (xs : List A) (i : ℕ) (f : A → A) (x : A)
      → get_elem? xs i ≡ some x
      → get_elem? (modify xs i f) i ≡ some (f x)
  get_elem?-modify_self [] i f x e = cc
  get_elem?-modify_self (y ∷ ys) zero f x e = let e' : y ≡ x = cc in ap (λ z. some (f z)) e'
  get_elem?-modify_self (y ∷ ys) (suc i) f x e = get_elem?-modify_self ys i f x e

  pub get_elem?-modify_ne :
      (xs : List A) (i j : ℕ) (f : A → A) → i ≢ j → get_elem? (modify xs i f) j ≡ get_elem? xs j
  get_elem?-modify_ne [] i j f h = refl
  get_elem?-modify_ne (y ∷ ys) zero zero f h = absurd (h refl)
  get_elem?-modify_ne (y ∷ ys) zero (suc j) f h = refl
  get_elem?-modify_ne (y ∷ ys) (suc i) zero f h = refl
  get_elem?-modify_ne (y ∷ ys) (suc i) (suc j) f h =
      get_elem?-modify_ne ys i j f (λ e. h (ap suc e))

  pub get_elem?-append_left :
      (xs ys : List A) (i : ℕ) → i < length xs → get_elem? (xs ++ ys) i ≡ get_elem? xs i
  get_elem?-append_left [] ys i h = absurd (omega arith)
  get_elem?-append_left (x ∷ xs) ys zero h = refl
  get_elem?-append_left (x ∷ xs) ys (suc i) h = get_elem?-append_left xs ys i (omega arith)

  pub get_elem?-append_end : (xs : List A) (y : A) → get_elem? (xs ++ (y ∷ [])) (length xs) ≡ some y
  get_elem?-append_end [] y = refl
  get_elem?-append_end (x ∷ xs) y = get_elem?-append_end xs y

module _ {T : Type 0} where
  pub stamp?-some :
      (buf : List (Slot T)) (j v : ℕ)
      → stamp? buf j ≡ some v
      → (s : Slot T) × (get_elem? buf j ≡ some s) × (s.stamp ≡ v)
  stamp?-some buf j v e = elim (Option-cases (get_elem? buf j)) [
    | inl out ↦ ground (arith, out)
    | inr (s, found) ↦ (s, found, ground (arith, found))
  ]
