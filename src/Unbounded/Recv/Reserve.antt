-- ===== src/Unbounded/Recv/Reserve.antt =====
-- `start_recv` of src/list.rs from its compare-exchange on, and the read of the message.
use zchan.Base.{
  ℕ, suc, ◌+◌, ◌-◌, ◌%◌, ◌≤◌, ◌<◌, ◌≡◌, refl, ap, ◌∙◌, Bool, false, none, some, List, ◌∷◌, ltb,
  lt→ltb, le→ltb, eq→==, ne→==, if◌then◌else◌, bit_and, bit_or, arith, subst, ℕ_discrete, dec_lt,
}
use zchan.Word.{wrapping_add, not_bits}
use zchan.SerialWaker.Queue.{ArrayQueue}
use zchan.Unbounded.{
  Store, Position, ListToken, Channel, change_block, change_slot, block_cap, one_index, mark_bit,
  read_bit,
}
use zchan.Unbounded.Recv.{RecvRound, returned, set_bit, next_head, reserve, advance, release}
use zchan.Unbounded.Recv.Round.{next_mark}
use zchan.Unbounded.Recv.Take.{Readable}
use zchan.Unbounded.Place.{place, turns, turned-place, unmarked-place, marked-place}
use zchan.Unbounded.Memory.{cell_of_next?, freed}
use zchan.Unbounded.Inv.{Mem}
use zchan.Unbounded.Inv.Pop.{front_state, front_msg, read-Mem, freed-Mem, destroy-read}
use zchan.Unbounded.Holds.{Chain, mark_of}

module _ {T : Type 0} {𝓠 : ArrayQueue} where
  -- A round that returns the slot of the first message, and what is there after its read.
  pub record Takes (r : RecvRound T 𝓠) (x : T) (xs : List T) (shut : Bool) : Type 0 where
    pub chan : Channel T 𝓠
    pub token : ListToken
    pub left : Store T
    pub returns : r ≡ returned chan token
    pub readable : Readable chan token x left
    pub holds : Chain (record chan { store = left }) none xs shut

  module _ {c : Channel T 𝓠} {x : T} {xs : List T} {shut : Bool}
      (h : Chain c none (x ∷ xs) shut) where
    next_mark_in : next_mark h < 2
    unfolding next_mark
    next_mark_in = ground arith

    next_mark_on : next_mark h ≡ 1 → 1 ≤ h.q
    unfolding next_mark
    next_mark_on e = elim (ℕ_discrete h.moved 1) [
      | yes moved ↦ h.moved_on moved
      | no _ ↦ elim (ℕ_discrete h.head_turn h.tail_turn) [
        | yes same ↦ ground (arith, e, same)
        | no other ↦ omega (arith, other, h.turn, h.head_turn_in)
      ]
    ]

    abbrev pub new_head : ℕ
    new_head = place h.head_turn (h.i + 1) (next_mark h)

    -- A slot that is not the last one of its block.
    module _ (within : h.i < 30) where
      abbrev within_chan : Channel T 𝓠
      within_chan = record c { head = record c.head { index = new_head } }

      abbrev within_left : Store T
      within_left = change_slot (h.ptr 0) h.i (set_bit read_bit) c.store

      advance-within :
          advance T 𝓠 false c c.head.index h.i new_head (some (h.ptr 0))
          ≡ returned within_chan (record { block = some (h.ptr 0); offset = h.i })
      unfolding advance reserve
      advance-within =
          rw (eq→== c.head.index c.head.index refl, ne→== (h.i + 1) block_cap (omega arith)) refl

      within-release : release T 𝓠 c.store (h.ptr 0) h.i 1 ≡ some within_left
      unfolding release
      within-release = rw (ne→== (h.i + 1) block_cap (omega arith)) refl

      pub within-Takes :
          Takes (advance T 𝓠 false c c.head.index h.i new_head (some (h.ptr 0))) x xs shut
      unfolding change_slot change_block
      within-Takes = record {
        chan = within_chan;
        token = record { block = some (h.ptr 0); offset = h.i };
        left = within_left;
        returns = advance-within;
        readable = record {
          block = h.ptr 0;
          pointer = refl;
          is_written = front_state h.mem;
          holds_msg = front_msg h.mem;
          releases = within-release;
        };
        holds = record {
          ptr = h.ptr;
          q = h.q;
          i = h.i + 1;
          t = h.t;
          head_turn = h.head_turn;
          tail_turn = h.tail_turn;
          moved = next_mark h;
          mem = read-Mem h.mem within;
          tail_at = omega (arith, h.tail_at);
          tail_in = h.tail_in;
          head_turn_in = h.head_turn_in;
          turn = h.turn;
          blocks_in = h.blocks_in;
          moved_in = next_mark_in;
          moved_on = next_mark_on;
          head = ap (λ (p : Position). record p { index = new_head }) h.head;
          tail = h.tail;
          spares = tt;
          live = h.live;
        };
      }

    -- The last slot of the first block.
    module _ (last : h.i ≡ 30) where
      abbrev blocks_left : ℕ
      blocks_left = h.q - 1

      more : h.q ≡ suc blocks_left
      more = omega (arith, h.tail_at, h.tail_in, last)

      at_last : Mem c.store h.ptr (suc blocks_left) 30 (x ∷ xs)
      at_last =
          subst (λ (i : ℕ). Mem c.store h.ptr (suc blocks_left) i (x ∷ xs)) last
            (subst (λ (q : ℕ). Mem c.store h.ptr q h.i (x ∷ xs)) more h.mem)

      -- The mark of the next block's head.
      abbrev last_mark : ℕ
      last_mark = if ltb 0 blocks_left then 1 else 0

      abbrev last_chan : Channel T 𝓠
      last_chan = record c {
        head = record {
          index = place ((h.head_turn + 1) % turns) 0 last_mark;
          block = some (h.ptr 1);
        };
      }

      abbrev last_token : ListToken
      last_token = record { block = some (h.ptr 0); offset = 30 }

      next_index :
          wrapping_add (bit_and new_head (not_bits mark_bit)) one_index
          ≡ place ((h.head_turn + 1) % turns) 0 0
      next_index =
          ap (λ (n : ℕ). wrapping_add n one_index)
            (unmarked-place h.head_turn (h.i + 1) (next_mark h) h.head_turn_in (omega (arith, last))
              next_mark_in)
          ∙ ap (λ (n : ℕ). wrapping_add (place h.head_turn (n + 1) 0) one_index) last
          ∙ turned-place h.head_turn 0 h.head_turn_in (omega arith)

      marked_index :
          bit_or (place ((h.head_turn + 1) % turns) 0 0) mark_bit
          ≡ place ((h.head_turn + 1) % turns) 0 1
      marked_index =
          marked-place ((h.head_turn + 1) % turns) 0 0 (omega arith) (omega arith) (omega arith)

      next_head_lem :
          next_head T 𝓠
            (record c { head = record c.head { index = new_head } })
            (h.ptr 0)
            (h.ptr 1)
            new_head
          ≡ returned last_chan last_token
      unfolding next_head
      next_head_lem = elim (dec_lt 0 blocks_left) [
        | yes further ↦
            let (b, found, after) =
              cell_of_next? c.store (h.ptr 1) _ (at_last.nexts 1 (omega arith)) in
            let next : b.next ≡ some (h.ptr 2) =
              after
              ∙ ap (λ t. if t then some (h.ptr 2) else none)
                  (lt→ltb 1 (suc blocks_left) (omega arith)) in
            rw (next_head, found, next, next_index, marked_index, lt→ltb 0 blocks_left further) refl
        | no over ↦
            let (b, found, after) =
              cell_of_next? c.store (h.ptr 1) _ (at_last.nexts 1 (omega arith)) in
            let next : b.next ≡ none =
              after
              ∙ ap (λ t. if t then some (h.ptr 2) else none)
                  (le→ltb 1 (suc blocks_left) (omega (arith, over))) in
            rw (next_head, found, next, next_index, le→ltb 0 blocks_left (omega (arith, over))) refl
      ]

      advance-last :
          advance T 𝓠 false c c.head.index h.i new_head (some (h.ptr 0))
          ≡ returned last_chan last_token
      unfolding advance reserve
      advance-last =
          let (b, found, after) =
            cell_of_next? c.store (h.ptr 0) _ (at_last.nexts 0 (omega arith)) in
          let next : b.next ≡ some (h.ptr 1) =
            after
            ∙ ap (λ t. if t then some (h.ptr 1) else none)
                (lt→ltb 0 (suc blocks_left) (omega arith)) in
          rw
            (
              eq→== c.head.index c.head.index refl,
              eq→== (h.i + 1) block_cap (omega (arith, last)),
              found,
              next,
            )
            next_head_lem

      last-release : release T 𝓠 c.store (h.ptr 0) 30 1 ≡ some (freed (h.ptr 0) c.store)
      unfolding release
      last-release =
          destroy-read (h.ptr 0) c.store _
            (λ t ht. at_last.states 0 t (omega arith) (omega arith) ∙ ap some (ground (arith, ht)))
            (at_last.nexts 0 (omega arith))

      pub last-Takes :
          Takes (advance T 𝓠 false c c.head.index h.i new_head (some (h.ptr 0))) x xs shut
      last-Takes = record {
        chan = last_chan;
        token = last_token;
        left = freed (h.ptr 0) c.store;
        returns = advance-last;
        readable = record {
          block = h.ptr 0;
          pointer = refl;
          is_written = front_state at_last;
          holds_msg = front_msg at_last;
          releases = last-release;
        };
        holds = record {
          ptr = λ j. h.ptr (suc j);
          q = blocks_left;
          i = 0;
          t = h.t;
          head_turn = (h.head_turn + 1) % turns;
          tail_turn = h.tail_turn;
          moved = last_mark;
          mem = freed-Mem at_last;
          tail_at = omega (arith, h.tail_at, last, more);
          tail_in = h.tail_in;
          head_turn_in = omega arith;
          turn = omega (arith, h.turn, more, h.blocks_in, h.head_turn_in);
          blocks_in = omega (arith, h.blocks_in);
          moved_in = ground arith;
          moved_on = λ e. ground (arith, e);
          head = refl;
          tail =
              h.tail
              ∙ ap
                  (λ (q : ℕ). record {
                    index = place h.tail_turn h.t (mark_of shut);
                    block = some (h.ptr q);
                  })
                  more;
          spares = tt;
          live = omega (arith, h.live, more);
        };
      }
