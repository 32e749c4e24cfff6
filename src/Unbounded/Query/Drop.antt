-- ===== src/Unbounded/Query/Drop.antt =====
-- `drop` of src/list.rs drops the messages that are left and frees every block.
use zchan.Base.{
  ℕ, zero, suc, ◌+◌, ◌-◌, ◌*◌, ◌%◌, ◌<◌, ◌≡◌, inl, inr, refl, sym, ap, ◌∙◌, Bool, true, false, none,
  some, List, [], ◌∷◌, length, lt→ltb, if◌then◌else◌, bit_and, arith, ℕ_discrete, subst,
}
use zchan.Word.{not_bits}
use zchan.SerialWaker.Queue.{ArrayQueue}
use zchan.Unbounded.{Store, Position, Channel, mark_bit}
use zchan.Unbounded.Query.{drop_loop, drop}
use zchan.Unbounded.Place.{place, turns, offset-place, unmarked-place}
use zchan.Unbounded.Memory.{freed, free_lem}
use zchan.Unbounded.Holds.{Chain, Holds, mark_of, mark_of-bounded, tail_turn_in}
use zchan.Unbounded.Query.Rest.{
  turned, tail_turns, Left, drop_loop-over, drop_loop-stay, drop_loop-move, Left-stay, Left-move,
  at_end, Drops,
}

module _ {T : Type 0} where
  -- The rest of the loop, with the head at a slot.
  drop_items :
      (fuel : ℕ) (s : Store T) (ptr : ℕ → ℕ) (q i t head_turn : ℕ) (xs : List T)
      → Left s ptr q i t xs
      → i < 31
      → head_turn < turns
      → q < turns
      → ((ys : List T)
          → Left s ptr q (i + 1) t ys
          → Drops fuel
              (place head_turn (i + 1) 0)
              (place ((head_turn + q) % turns) t 0)
              (ptr 0)
              s
              ys)
      → Drops (suc fuel) (place head_turn i 0) (place ((head_turn + q) % turns) t 0) (ptr 0) s xs
  drop_items fuel s ptr q i t head_turn [] l before hh hq rest = (
    freed (ptr 0) s,
    drop_loop-over fuel (place head_turn i 0) (place ((head_turn + q) % turns) t 0) (ptr 0) s
        (freed (ptr 0) s) (omega (arith, l.at, l.t_in, before, hh))
        (free_lem s (ptr 0) _ (l.nexts 0 (omega arith))),
    omega (arith, l.live, l.at, before),
  )
  drop_items fuel s ptr q i t head_turn (x ∷ xs) l before hh hq rest =
      let (s', run, gone) = rest xs (Left-stay l before) in
      (
        s',
        drop_loop-stay fuel (place head_turn i 0) (place ((head_turn + q) % turns) t 0) (ptr 0) s s'
            i x xs (λ e. omega (arith, e, at_end l head_turn hh hq e, l.at, hh))
            (offset-place head_turn i 0 hh (omega (arith, before)) (omega arith)) before
            (l.messages 0 i 0 (omega arith) before (omega arith) (omega arith))
            (ap (λ (n : ℕ). drop_loop fuel n (place ((head_turn + q) % turns) t 0) (some (ptr 0)) s)
                (omega (arith, hh, before))
              ∙ run),
        gone,
      )

  drop_loop_lem :
      (fuel : ℕ) (s : Store T) (ptr : ℕ → ℕ) (q i t head_turn : ℕ) (xs : List T)
      → Left s ptr q i t xs
      → head_turn < turns
      → q < turns
      → 32 * q + t < fuel + i
      → Drops fuel (place head_turn i 0) (place ((head_turn + q) % turns) t 0) (ptr 0) s xs
  drop_loop_lem zero s ptr q i t head_turn xs l hh hq enough = absurd (omega (arith, l.at, enough))
  drop_loop_lem (suc fuel) s ptr q i t head_turn xs l hh hq enough = elim (ℕ_discrete i 31) [
    | yes past ↦
        let more : q ≡ suc (q - 1) = omega (arith, l.at, l.t_in, past) in
        let here : Left s ptr (suc (q - 1)) 31 t xs =
          subst (λ (k : ℕ). Left s ptr (suc (q - 1)) k t xs) past
            (subst (λ (k : ℕ). Left s ptr k i t xs) more l) in
        let (s', run, gone) =
          drop_loop_lem fuel (freed (ptr 0) s) (λ j. ptr (suc j)) (q - 1) 0 t
            ((head_turn + 1) % turns) xs (Left-move here) (omega arith) (omega (arith, hq))
            (omega (arith, enough, past, more)) in
        (
          s',
          drop_loop-move fuel (place head_turn i 0) (place ((head_turn + q) % turns) t 0) (ptr 0)
                (ptr 1) s (λ e. omega (arith, at_end l head_turn hh hq e, more))
                (offset-place head_turn i 0 hh (omega (arith, past)) (omega arith) ∙ past)
                (here.nexts 0 (omega arith)
                  ∙ ap (λ b. some (if b then some (ptr 1) else none))
                      (lt→ltb 0 (suc (q - 1)) (omega arith)))
              ∙ ap
                  (λ (ends : ℕ × ℕ).
                    drop_loop fuel ends.0 (place ends.1 t 0) (some (ptr 1)) (freed (ptr 0) s))
                  (λ j. (turned head_turn i hh past j, tail_turns head_turn q hh hq more j))
              ∙ run,
          gone,
        )
    | no before ↦
        drop_items fuel s ptr q i t head_turn xs l (omega (arith, before, l.i_in)) hh hq (λ ys l'.
          drop_loop_lem fuel s ptr q (i + 1) t head_turn ys l' hh hq (omega (arith, enough)))
  ]

module _ {T : Type 0} {𝓠 : ArrayQueue} where
  chain-Left :
      {c : Channel T 𝓠} {xs : List T} {shut : Bool}
      → (h : Chain c none xs shut) → Left c.store h.ptr h.q h.i h.t xs
  chain-Left h = record {
    at = h.tail_at;
    i_in = omega (arith, h.mem.index_in);
    t_in = h.tail_in;
    apart = h.mem.apart;
    nexts = h.mem.nexts;
    messages = h.mem.messages;
    live = omega (arith, h.live);
  }

  -- `drop` of a channel, given more steps than two for each message, ends and drops exactly the
  -- messages that it holds, oldest first and each one once; it frees each block once, and no
  -- allocation is left.
  pub drop_frees :
      (fuel : ℕ) {c : Channel T 𝓠} {xs : List T} {shut : Bool}
      → Holds c xs shut
      → 2 * length xs < fuel
      → (s : Store T) × (drop fuel c ≡ some (xs, s)) × (s.live ≡ 0)
  unfolding drop drop_loop
  drop_frees zero h enough = absurd (omega arith)
  drop_frees (suc fuel) {c} {xs} {shut} (inl u) enough = (
    c.store,
    ap
          (λ (ends : Position × Position).
            drop_loop (suc fuel) (bit_and ends.0.index (not_bits mark_bit))
              (bit_and ends.1.index (not_bits mark_bit)) ends.0.block c.store)
          (λ i. (u.head i, u.tail i))
        ∙ by_mark shut
        ∙ ap (λ ys. some (ys, c.store)) (sym u.nothing),
    u.live,
  )
    where
      by_mark :
          (b : Bool)
          → drop_loop
              (suc fuel)
              (bit_and 0 (not_bits mark_bit))
              (bit_and (mark_of b) (not_bits mark_bit))
              none
              c.store
            ≡ some ([], c.store)
      by_mark false = refl
      by_mark true = refl
  drop_frees (suc fuel) {c} {xs} {shut} (inr h) enough =
      let (s, run, gone) =
        drop_loop_lem (suc fuel) c.store h.ptr h.q h.i h.t h.head_turn xs (chain-Left h)
          h.head_turn_in h.blocks_in
          (omega (arith, h.tail_at, h.tail_in, h.mem.index_in, enough)) in
      (
        s,
        ap
              (λ (ends : Position × Position).
                drop_loop (suc fuel) (bit_and ends.0.index (not_bits mark_bit))
                  (bit_and ends.1.index (not_bits mark_bit)) ends.0.block c.store)
              (λ i. (h.head i, h.tail i))
            ∙ ap (λ (ends : ℕ × ℕ). drop_loop (suc fuel) ends.0 ends.1 (some (h.ptr 0)) c.store)
                (λ j. (
                  unmarked-place h.head_turn h.i h.moved h.head_turn_in
                      (omega (arith, h.mem.index_in)) h.moved_in j,
                  unmarked-place h.tail_turn h.t (mark_of shut) (tail_turn_in h)
                      (omega (arith, h.tail_in)) (mark_of-bounded shut) j,
                ))
            ∙ ap
                (λ (l : ℕ).
                  drop_loop (suc fuel) (place h.head_turn h.i 0) (place l h.t 0) (some (h.ptr 0))
                    c.store)
                h.turn
            ∙ run,
        gone,
      )
