-- ===== src/Unbounded/Query/Rest.antt =====
-- Rounds of the loop of `drop` of src/list.rs, and what is left to drop after them.
use zchan.Base.{
  ℕ, suc, ◌+◌, ◌-◌, ◌*◌, ◌%◌, ◌≤◌, ◌<◌, ◌≡◌, ◌≢◌, inl, inr, refl, ap, ◌∙◌, Option, none, some,
  Option-cases, List, [], ◌∷◌, length, get_elem?, ltb, lt→ltb, eq→==, ne→==, if◌then◌else◌, arith,
}
use zchan.Word.{wrapping_add}
use zchan.Unbounded.{Slot, Store, free, slot_at, lap, block_cap, shifted, one_index}
use zchan.Unbounded.Query.{drop_slot, drop_loop}
use zchan.Unbounded.Place.{place, turns, turned-place}
use zchan.Unbounded.Memory.{next?, cell_of_next?, freed, free_lem, slot_at-freed, next?-freed}
use zchan.Unbounded.Inv.{msg_of}

pub turned :
    (head_turn i : ℕ)
    → head_turn < turns
    → i ≡ 31
    → wrapping_add (place head_turn i 0) one_index ≡ place ((head_turn + 1) % turns) 0 0
turned head_turn i hh past =
    ap (λ (k : ℕ). wrapping_add (place head_turn k 0) one_index) past
    ∙ turned-place head_turn 0 hh (omega arith)

pub tail_turns :
    (head_turn q : ℕ)
    → head_turn < turns
    → q < turns
    → q ≡ suc (q - 1)
    → (head_turn + q) % turns ≡ ((head_turn + 1) % turns + (q - 1)) % turns
tail_turns head_turn q hh hq more = omega (arith, more)

module _ {T : Type 0} where
  -- What is left to drop, with the head at slot `i`, or past the last one, of the block at `ptr 0`.
  pub record Left (s : Store T) (ptr : ℕ → ℕ) (q i t : ℕ) (xs : List T) : Type 0 where
    pub at : 31 * q + t ≡ i + length xs
    pub i_in : i ≤ 31
    pub t_in : t < 31
    pub apart : (j k : ℕ) → j ≤ q → k ≤ q → ptr j ≡ ptr k → j ≡ k
    pub nexts :
        (j : ℕ) → j ≤ q → next? s (ptr j) ≡ some (if ltb j q then some (ptr (suc j)) else none)
    pub messages :
        (j u k : ℕ)
        → j ≤ q
        → u < 31
        → 31 * j + u ≡ i + k
        → k < length xs
        → msg_of (slot_at s (ptr j) u) ≡ get_elem? xs k
    pub live : s.live ≡ q + 1

  msg_slot :
      (o : Option (Slot T)) (x : T)
      → msg_of o ≡ some x
      → (slot : Slot T) × (o ≡ some slot) × (slot.msg ≡ some x)
  msg_slot o x e = elim (Option-cases o) [
    | inl gone ↦ ground (arith, gone)
    | inr (slot, found) ↦ (slot, found, ground (arith, found))
  ]

  pub drop_loop-over :
      (fuel head tail p : ℕ) (s s' : Store T)
      → head ≡ tail
      → free p s ≡ some s'
      → drop_loop (suc fuel) head tail (some p) s ≡ some ([], s')
  unfolding drop_loop
  drop_loop-over fuel head tail p s s' same e = rw (drop_loop, eq→== head tail same, e) refl

  pub drop_loop-stay :
      (fuel head tail p : ℕ) (s s' : Store T) (offset : ℕ) (x : T) (xs : List T)
      → head ≢ tail
      → shifted head % lap ≡ offset
      → offset < 31
      → msg_of (slot_at s p offset) ≡ some x
      → drop_loop fuel (wrapping_add head one_index) tail (some p) s ≡ some (xs, s')
      → drop_loop (suc fuel) head tail (some p) s ≡ some (x ∷ xs, s')
  unfolding drop_loop drop_slot
  drop_loop-stay fuel head tail p s s' offset x xs other at at_in msg rest =
      let (slot, found, is) = msg_slot (slot_at s p offset) x msg in
      rw
        (
          drop_loop,
          ne→== head tail other,
          at,
          lt→ltb offset block_cap at_in,
          drop_slot,
          found,
          is,
          rest,
        )
        refl

  pub drop_loop-move :
      (fuel head tail p next : ℕ) (s : Store T)
      → head ≢ tail
      → shifted head % lap ≡ 31
      → next? s p ≡ some (some next)
      → drop_loop (suc fuel) head tail (some p) s
        ≡ drop_loop fuel (wrapping_add head one_index) tail (some next) (freed p s)
  unfolding drop_loop
  drop_loop-move fuel head tail p next s other at e =
      let (b, found, is) = cell_of_next? s p (some next) e in
      rw (drop_loop, ne→== head tail other, at, found, free_lem s p (some next) e, is) refl

  pub Left-stay :
      {s : Store T} {ptr : ℕ → ℕ} {q i t : ℕ} {x : T} {xs : List T}
      → Left s ptr q i t (x ∷ xs)
      → i < 31
      → Left s ptr q (i + 1) t xs
  Left-stay l before = record {
    at = omega (arith, l.at);
    i_in = omega (arith, before);
    t_in = l.t_in;
    apart = l.apart;
    nexts = l.nexts;
    messages =
        λ j u k hj hu e hk. l.messages j u (suc k) hj hu (omega (arith, e)) (omega (arith, hk));
    live = l.live;
  }

  pub Left-move :
      {s : Store T} {ptr : ℕ → ℕ} {q t : ℕ} {xs : List T}
      → Left s ptr (suc q) 31 t xs
      → Left (freed (ptr 0) s) (λ j. ptr (suc j)) q 0 t xs
  Left-move {s} {ptr} {q} l = record {
    at = omega (arith, l.at);
    i_in = omega arith;
    t_in = l.t_in;
    apart = λ j k hj hk e. omega (arith, l.apart (suc j) (suc k) (omega arith) (omega arith) e);
    nexts = λ j h.
        next?-freed s (ptr 0) (ptr (suc j)) (other j h)
        ∙ l.nexts (suc j) (omega arith)
        ∙ ap (λ b. some (if b then some (ptr (suc (suc j))) else none)) (ground arith);
    messages = λ j u k hj hu e hk.
        ap msg_of (slot_at-freed s (ptr 0) (ptr (suc j)) u (other j hj))
        ∙ l.messages (suc j) u k (omega arith) hu (omega (arith, e)) hk;
    live = omega (arith, l.live);
  }
    where
      other : (j : ℕ) → j ≤ q → ptr (suc j) ≢ ptr 0
      other j h e = omega (arith, l.apart (suc j) 0 (omega arith) (omega arith) e)

  -- The indices are the same just at the end.
  pub at_end :
      {s : Store T} {ptr : ℕ → ℕ} {q i t : ℕ} {xs : List T}
      → Left s ptr q i t xs
      → (head_turn : ℕ) → head_turn < turns
      → q < turns
      → place head_turn i 0 ≡ place ((head_turn + q) % turns) t 0
      → q ≡ 0
  at_end l head_turn hh hq e = omega (arith, l.at, l.t_in, l.i_in, e)

  abbrev pub Drops : (fuel head tail p : ℕ) → Store T → List T → Type 0
  Drops fuel head tail p s xs =
      (s' : Store T) × (drop_loop fuel head tail (some p) s ≡ some (xs, s')) × (s'.live ≡ 0)
