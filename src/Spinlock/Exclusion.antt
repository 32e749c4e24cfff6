-- ===== src/Spinlock/Exclusion.antt =====
-- At most one thread has a guard of the spinlock of src/utils.rs.
use zchan.Base.{
  ℕ, true, false, ◌≡◌, ◌≢◌, ◌⊎◌, inl, inr, refl, sym, ap, ◌∙◌, eq→==, ne→==, ℕ_discrete,
  if◌then◌else◌,
}
use zchan.Spinlock.{
  Pc, outside, spinning, inside, move, System, start, lock_round, drop_guard, Step, calls_lock,
  spins, stores, drops, Reach, here, later,
}

move_self : (pcs : ℕ → Pc) (i : ℕ) (pc : Pc) → move pcs i pc i ≡ pc
move_self pcs i pc = rw (eq→== i i refl) refl

move-other : (pcs : ℕ → Pc) (i j : ℕ) (pc : Pc) → j ≢ i → move pcs i pc j ≡ pcs j
move-other pcs i j pc ne = rw (ne→== j i ne) refl

-- Who is inside after a thread moved to a point that is not inside.
inside_before :
    (pcs : ℕ → Pc) (i j : ℕ) (pc : Pc)
    → pc ≢ inside
    → move pcs i pc j ≡ inside
    → (j ≢ i) × (pcs j ≡ inside)
inside_before pcs i j pc out e = elim (ℕ_discrete j i) [
  | yes same ↦ absurd (out (sym (ap (λ b. if b then pc else pcs j) (eq→== j i same)) ∙ e))
  | no ne ↦ (ne, sym (move-other pcs i j pc ne) ∙ e)
]

module _ {T : Type 0} where
  abbrev Free : System T → Type 0
  Free s = (s.lock.flag ≡ false) × ((i : ℕ) → s.pcs i ≢ inside)

  abbrev Taken : System T → Type 0
  Taken s =
      (k : ℕ) × (s.lock.flag ≡ true) × (s.pcs k ≡ inside) × ((i : ℕ) → s.pcs i ≡ inside → i ≡ k)

  abbrev Inv : System T → Type 0
  Inv s = Free s ⊎ Taken s

  calls_lock-Inv :
      (s : System T) (i : ℕ)
      → s.pcs i ≡ outside
      → Inv s
      → Inv (record s { pcs = move s.pcs i spinning })
  calls_lock-Inv s i e (inl (f, nobody)) =
      inl (f, λ j h. nobody j (inside_before s.pcs i j spinning (λ c. cc) h).1)
  calls_lock-Inv s i e (inr (k, f, holder, only)) =
      let ne : k ≢ i = λ same. cc in
      inr (
        k,
        f,
        move-other s.pcs i k spinning ne ∙ holder,
        λ j h. only j (inside_before s.pcs i j spinning (λ c. cc) h).1,
      )

  spins-Inv : (s : System T) (i : ℕ) → s.pcs i ≡ spinning → Inv s → Inv (lock_round i s)
  spins-Inv s i e (inl (f, nobody)) = rw f (inr (i, refl, move_self s.pcs i inside, only_new))
    where
      only_new : (j : ℕ) → move s.pcs i inside j ≡ inside → j ≡ i
      only_new j h = elim (ℕ_discrete j i) [
        | yes same ↦ same
        | no ne ↦ absurd (nobody j (sym (move-other s.pcs i j inside ne) ∙ h))
      ]
  spins-Inv s i e (inr (k, f, holder, only)) = rw f (inr (k, refl, holder, only))

  drops-Inv :
      (s : System T) (i : ℕ)
      → s.pcs i ≡ inside
      → Inv s
      → Inv (record { lock = drop_guard s.lock; pcs = move s.pcs i outside })
  drops-Inv s i e (inl (f, nobody)) = absurd (nobody i e)
  drops-Inv s i e (inr (k, f, holder, only)) = inl (
    refl,
    λ j h.
        let (ne, was) = inside_before s.pcs i j outside (λ c. cc) h in
        ne (only j was ∙ sym (only i e)),
  )

  Step-Inv : {s u : System T} → Step s u → Inv s → Inv u
  Step-Inv {s} (calls_lock i e) v = calls_lock-Inv s i e v
  Step-Inv {s} (spins i e) v = spins-Inv s i e v
  Step-Inv (stores i x e) v = v
  Step-Inv {s} (drops i e) v = drops-Inv s i e v

  Reach-Inv : {s u : System T} → Reach s u → Inv s → Inv u
  Reach-Inv here v = v
  Reach-Inv (later before step) v = Step-Inv step (Reach-Inv before v)

  -- However threads lock a new spinlock and drop their guards, two threads that have a guard at the
  -- same time are the same thread.
  pub mutual_exclusion :
      (v : T) {s : System T} (i j : ℕ)
      → Reach (start v) s
      → s.pcs i ≡ inside
      → s.pcs j ≡ inside
      → i ≡ j
  mutual_exclusion v {s} i j r a b = by_state (Reach-Inv r (inl (refl, λ i c. cc)))
    where
      by_state : Inv s → i ≡ j
      by_state (inl (f, nobody)) = absurd (nobody i a)
      by_state (inr (k, f, holder, only)) = only i a ∙ sym (only j b)

  -- However threads have locked a new spinlock and dropped their guards, if no thread has a guard
  -- then the flag is not set, and a thread in the loop of `lock` has a guard after its next round.
  pub lock_round-free :
      (v : T) {s : System T} (i : ℕ)
      → Reach (start v) s
      → ((j : ℕ) → s.pcs j ≢ inside)
      → s.pcs i ≡ spinning
      → (s.lock.flag ≡ false) × ((lock_round i s).pcs i ≡ inside)
  lock_round-free v {s} i r free spin = by_state (Reach-Inv r (inl (refl, λ i c. cc)))
    where
      by_state : Inv s → (s.lock.flag ≡ false) × ((lock_round i s).pcs i ≡ inside)
      by_state (inl (f, nobody)) = (f, rw f (move_self s.pcs i inside))
      by_state (inr (k, f, holder, only)) = absurd (free k holder)
