-- ===== src/Unbounded/Inv/Link.antt =====
-- The memory of a channel of src/list.rs after the allocation of a block, and after its link to the
-- chain.
use zchan.Base.{
  ℕ, suc, ◌+◌, ◌*◌, ◌≤◌, ◌<◌, ◌≡◌, ◌≢◌, sym, ap, ◌∙◌, none, some, List, [], length, get_elem?, ltb,
  ◌==◌, eq→==, ne→==, lt→ltb, le→ltb, ℕ_discrete, if◌then◌else◌, arith, subst,
}
use zchan.Unbounded.{Store, slot_at, change_block, alloc}
use zchan.Unbounded.Memory.{
  next?, linked, slot_at-linked, next?-linked_self, next?-linked_other, slot_at-alloc_self,
  slot_at-alloc_other, next?-alloc_self, next?-alloc_other,
}
use zchan.Unbounded.Inv.{expected, state_of, msg_of, Mem}

module _ {T : Type 0} where
  -- A block that is allocated and not linked yet.
  pub record Spare (s : Store T) (ptr : ℕ → ℕ) (q p : ℕ) : Type 0 where
    pub below : p < s.fresh
    pub outside : (j : ℕ) → j ≤ q → ptr j ≢ p
    pub last : next? s p ≡ some none
    pub untouched : (t : ℕ) → t < 31 → state_of (slot_at s p t) ≡ some 0

  pub alloc-Mem :
      {s : Store T} {ptr : ℕ → ℕ} {q i : ℕ} {xs : List T}
      → Mem s ptr q i xs
      → Mem (alloc s).0 ptr q i xs
  unfolding alloc
  alloc-Mem {s} {ptr} m = record {
    index_in = m.index_in;
    fits = m.fits;
    below = λ j h. omega (arith, m.below j h);
    apart = m.apart;
    nexts = λ j h. next?-alloc_other s (ptr j) (m.below j h) ∙ m.nexts j h;
    states =
        λ j t h ht. ap state_of (slot_at-alloc_other s (ptr j) t (m.below j h)) ∙ m.states j t h ht;
    messages = λ j t k h ht e hk.
        ap msg_of (slot_at-alloc_other s (ptr j) t (m.below j h)) ∙ m.messages j t k h ht e hk;
  }

  pub alloc-Spare :
      {s : Store T} {ptr : ℕ → ℕ} {q i : ℕ} {xs : List T}
      → Mem s ptr q i xs
      → Spare (alloc s).0 ptr q s.fresh
  unfolding alloc
  alloc-Spare {s} {ptr} m = record {
    below = omega arith;
    outside = λ j h e. omega (arith, m.below j h, e);
    last = next?-alloc_self s;
    untouched = λ t h. ap state_of (slot_at-alloc_self s t h);
  }

  -- The first block of a channel.
  pub first-Mem : (s : Store T) → Mem (alloc s).0 (λ _. s.fresh) 0 0 []
  unfolding alloc
  first-Mem s = record {
    index_in = omega arith;
    fits = omega arith;
    below = λ j h. omega arith;
    apart = λ j k hj hk e. omega arith;
    nexts = λ j h. next?-alloc_self s ∙ ap some (ground (arith, h));
    states = λ j t h ht. ap state_of (slot_at-alloc_self s t ht) ∙ ap some (ground arith);
    messages = λ j t k h ht e hk. absurd (omega arith);
  }

  module _ {s : Store T} {ptr : ℕ → ℕ} {q i p : ℕ} {xs : List T} (m : Mem s ptr q i xs)
      (sp : Spare s ptr q p) where
    abbrev pub extended : ℕ → ℕ
    extended j = if j == suc q then p else ptr j

    abbrev pub chained : Store T
    chained = change_block (ptr q) (linked p) s

    pub at_new : (j : ℕ) → j ≡ suc q → extended j ≡ p
    at_new j e = ap (λ b. if b then p else ptr j) (eq→== j (suc q) e)

    pub at_old : (j : ℕ) → j ≤ q → extended j ≡ ptr j
    at_old j h = ap (λ b. if b then p else ptr j) (ne→== j (suc q) (omega arith))

    by_place {ℓ} :
        (P : ℕ → Type ℓ) (j : ℕ)
        → j ≤ suc q
        → (j ≡ suc q → P p)
        → (j ≤ q → P (ptr j))
        → P (extended j)
    by_place P j h new old = elim (ℕ_discrete j (suc q)) [
      | yes e ↦ subst P (sym (at_new j e)) (new e)
      | no ne ↦ subst P (sym (at_old j (omega (arith, ne)))) (old (omega (arith, ne)))
    ]

    next_of :
        (j : ℕ)
        → j ≤ q
        → next? chained (ptr j) ≡ some (if ltb j (suc q) then some (extended (suc j)) else none)
    next_of j h = elim (ℕ_discrete j q) [
      | yes e ↦
          let here : ptr j ≡ ptr q = ap ptr e in
          let target : extended (suc j) ≡ p = at_new (suc j) (ap suc e) in
          ap (next? chained) here
          ∙ next?-linked_self s (ptr q) p _ (m.nexts q (omega arith))
          ∙ rw (lt→ltb j (suc q) (omega arith)) (ap (λ (a : ℕ). some (some a)) (sym target))
      | no ne ↦
          let target : extended (suc j) ≡ ptr (suc j) = at_old (suc j) (omega (arith, ne)) in
          next?-linked_other s (ptr q) p (ptr j) (λ e. ne (m.apart j q h (omega arith) e))
          ∙ m.nexts j h
          ∙ rw (lt→ltb j q (omega (arith, ne)), lt→ltb j (suc q) (omega arith))
              (ap (λ (a : ℕ). some (some a)) (sym target))
    ]

    next_new :
        (j : ℕ)
        → j ≡ suc q
        → next? chained p ≡ some (if ltb j (suc q) then some (extended (suc j)) else none)
    next_new j e =
        next?-linked_other s (ptr q) p p (λ same. sp.outside q (omega arith) (sym same))
        ∙ sp.last
        ∙ ap (λ b. some (if b then some (extended (suc j)) else none))
            (sym (le→ltb j (suc q) (omega (arith, e))))

    distinct : (j k : ℕ) → j ≤ suc q → k ≤ suc q → extended j ≡ extended k → j ≡ k
    distinct j k hj hk e = elim (ℕ_discrete j (suc q)) [
      | yes new_j ↦ elim (ℕ_discrete k (suc q)) [
        | yes new_k ↦ new_j ∙ sym new_k
        | no old_k ↦
            let le : k ≤ q = omega (arith, old_k) in
            absurd (sp.outside k le (sym (at_old k le) ∙ sym e ∙ at_new j new_j))
      ]
      | no old_j ↦
          let le_j : j ≤ q = omega (arith, old_j) in
          elim (ℕ_discrete k (suc q)) [
            | yes new_k ↦ absurd (sp.outside j le_j (sym (at_old j le_j) ∙ e ∙ at_new k new_k))
            | no old_k ↦
                let le_k : k ≤ q = omega (arith, old_k) in
                m.apart j k le_j le_k (sym (at_old j le_j) ∙ e ∙ at_old k le_k)
          ]
    ]

    pub link-Mem : Mem chained extended (suc q) i xs
    unfolding change_block
    link-Mem = record {
      index_in = m.index_in;
      fits = omega (arith, m.fits);
      below = λ j h. by_place (λ a. a < s.fresh) j h (λ _. sp.below) (λ old. m.below j old);
      apart = distinct;
      nexts = λ j h.
          by_place
            (λ a. next? chained a ≡ some (if ltb j (suc q) then some (extended (suc j)) else none))
            j h (next_new j) (next_of j);
      states = λ j t h ht.
          by_place
            (λ a. state_of (slot_at chained a t) ≡ some (expected i (length xs) (31 * j + t))) j h
            (λ e.
              ap state_of (slot_at-linked s (ptr q) p p t)
              ∙ sp.untouched t ht
              ∙ ap some (ground (arith, e, m.fits)))
            (λ old. ap state_of (slot_at-linked s (ptr q) p (ptr j) t) ∙ m.states j t old ht);
      messages = λ j t k h ht e hk.
          by_place (λ a. msg_of (slot_at chained a t) ≡ get_elem? xs k) j h
            (λ new. absurd (omega (arith, e, new, m.fits, hk)))
            (λ old.
              ap msg_of (slot_at-linked s (ptr q) p (ptr j) t) ∙ m.messages j t k old ht e hk);
    }
