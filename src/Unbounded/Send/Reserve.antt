-- ===== src/Unbounded/Send/Reserve.antt =====
-- `start_send` of src/list.rs from its compare-exchange on, and the write of the message.
use zchan.Base.{
  ℕ, suc, ◌+◌, ◌*◌, ◌%◌, ◌<◌, ◌≡◌, refl, sym, ap, ◌∙◌, false, none, some, List, [], ◌∷◌, ◌++◌,
  length, length-append, eq→==, ne→==, arith, subst,
}
use zchan.Error.{ok}
use zchan.SerialWaker.Queue.{ArrayQueue}
use zchan.SerialWaker.{wake}
use zchan.Word.{wrapping_add}
use zchan.Unbounded.{
  Position, ListToken, Channel, slot_at, drop_box, change_block, change_slot, block_cap, one_index,
}
use zchan.Unbounded.Send.{returned, finish, link, reserve, advance, write}
use zchan.Unbounded.Place.{place, turns, turned-place}
use zchan.Unbounded.Memory.{cell_of_next?}
use zchan.Unbounded.Inv.{Mem, state_of, expected, some_slot}
use zchan.Unbounded.Inv.Push.{written, written-Mem}
use zchan.Unbounded.Inv.Link.{extended, chained, link-Mem, at_new, at_old}
use zchan.Unbounded.Holds.{Chain, tail_turn_in}

module _ {T : Type 0} {𝓠 : ArrayQueue} where
  -- The channel, once the message is written to the token's slot.
  abbrev pub filled : Channel T 𝓠 → (b offset : ℕ) → T → Channel T 𝓠
  filled c b offset x = record c {
    store = written b offset x c.store;
    receivers = wake 𝓠 c.receivers;
  }

  -- After the reservation of a slot, the write of any message makes it the last one.
  pub record Reserved (c : Channel T 𝓠) (token : ListToken) (xs : List T) : Type 0 where
    pub block : ℕ
    pub pointer : token.block ≡ some block
    pub writes : (x : T) → write T 𝓠 c token x ≡ some (filled c block token.offset x, ok tt)
    pub holds : (x : T) → Chain (filled c block token.offset x) none (xs ++ (x ∷ [])) false

  write-filled :
      (c : Channel T 𝓠) (b offset v : ℕ) (x : T)
      → state_of (slot_at c.store b offset) ≡ some v
      → write T 𝓠 c (record { block = some b; offset = offset }) x
        ≡ some (filled c b offset x, ok tt)
  unfolding write
  write-filled c b offset v x e =
      let (slot, found, _) = some_slot (slot_at c.store b offset) v e in rw (write, found) refl

  module _ {c : Channel T 𝓠} {xs : List T} where
    -- A slot that is not the last one of its block.
    module _ (h : Chain c none xs false) (within : h.t < 30) where
      abbrev pub within_chan : Channel T 𝓠
      within_chan = record c { tail = record c.tail { index = c.tail.index + one_index } }

      abbrev pub within_token : ListToken
      within_token = record { block = some (h.ptr h.q); offset = h.t }

      pub advance-within :
          advance T 𝓠 false c c.tail.index (h.ptr h.q) h.t none ≡ returned within_chan within_token
      unfolding advance reserve finish drop_box
      advance-within =
          rw (eq→== c.tail.index c.tail.index refl, ne→== (h.t + 1) block_cap (omega arith)) refl

      pub within-Reserved : Reserved within_chan within_token xs
      unfolding change_slot change_block
      within-Reserved = record {
        block = h.ptr h.q;
        pointer = refl;
        writes = λ x.
            write-filled within_chan (h.ptr h.q) h.t _ x
              (h.mem.states h.q h.t (omega arith) h.tail_in);
        holds = λ x. record {
          ptr = h.ptr;
          q = h.q;
          i = h.i;
          t = h.t + 1;
          head_turn = h.head_turn;
          tail_turn = h.tail_turn;
          moved = h.moved;
          mem = written-Mem h.mem h.q h.t (omega arith) h.tail_in h.tail_at x;
          tail_at = omega (arith, h.tail_at, length-append xs (x ∷ []));
          tail_in = omega (arith, within);
          head_turn_in = h.head_turn_in;
          turn = h.turn;
          blocks_in = h.blocks_in;
          moved_in = h.moved_in;
          moved_on = h.moved_on;
          head = h.head;
          tail =
              ap (λ (p : Position). record p { index = p.index + one_index }) h.tail
              ∙ ap (λ (n : ℕ). record { index = n; block = some (h.ptr h.q) }) (omega arith);
          spares = tt;
          live = h.live;
        };
      }

    -- The last slot of its block, to which the next block is linked.
    module _ (p : ℕ) (h : Chain c (some p) xs false) (room : length xs + 31 < 31 * turns) where
      abbrev pub last_chan : Channel T 𝓠
      last_chan = record c {
        tail = record { index = wrapping_add (c.tail.index + one_index) one_index; block = some p };
        store = chained h.mem h.spares.0;
      }

      abbrev pub last_token : ListToken
      last_token = record { block = some (h.ptr h.q); offset = 30 }

      pub advance-last :
          advance T 𝓠 false c c.tail.index (h.ptr h.q) h.t (some p) ≡ returned last_chan last_token
      unfolding advance reserve link
      advance-last =
          let (b, found, _) = cell_of_next? c.store (h.ptr h.q) _ (h.mem.nexts h.q (omega arith)) in
          rw
            (
              eq→== c.tail.index c.tail.index refl,
              eq→== (h.t + 1) block_cap (omega (arith, h.spares.1)),
              found,
            )
            refl

      same_block : extended h.mem h.spares.0 h.q ≡ h.ptr h.q
      same_block = at_old h.mem h.spares.0 h.q (omega arith)

      last_state :
          state_of (slot_at (chained h.mem h.spares.0) (h.ptr h.q) 30)
          ≡ some (expected h.i (length xs) (31 * h.q + 30))
      last_state =
          ap (λ (a : ℕ). state_of (slot_at (chained h.mem h.spares.0) a 30)) (sym same_block)
          ∙ (link-Mem h.mem h.spares.0).states h.q 30 (omega arith) (omega arith)

      last_tail : last_chan.tail ≡ record {
        index = place ((h.tail_turn + 1) % turns) 0 0;
        block = some (extended h.mem h.spares.0 (suc h.q));
      }
      last_tail =
          ap
            (λ (pos : Position). record {
              index = wrapping_add (pos.index + one_index) one_index;
              block = some p;
            })
            h.tail
          ∙ ap (λ (n : ℕ). record { index = wrapping_add n one_index; block = some p })
              (omega (arith, h.spares.1))
          ∙ ap (λ (n : ℕ). record { index = n; block = some p })
              (turned-place h.tail_turn 0 (tail_turn_in h) (omega arith))
          ∙ ap (λ (a : ℕ). record { index = place ((h.tail_turn + 1) % turns) 0 0; block = some a })
              (sym (at_new h.mem h.spares.0 (suc h.q) refl))

      pub last-Reserved : Reserved last_chan last_token xs
      unfolding change_slot change_block
      last-Reserved = record {
        block = h.ptr h.q;
        pointer = refl;
        writes = λ x. write-filled last_chan (h.ptr h.q) 30 _ x last_state;
        holds = λ x. record {
          ptr = extended h.mem h.spares.0;
          q = suc h.q;
          i = h.i;
          t = 0;
          head_turn = h.head_turn;
          tail_turn = (h.tail_turn + 1) % turns;
          moved = h.moved;
          mem =
              subst
                (λ (a : ℕ).
                  Mem (written a 30 x (chained h.mem h.spares.0)) (extended h.mem h.spares.0)
                    (suc h.q) h.i (xs ++ (x ∷ [])))
                same_block
                (written-Mem (link-Mem h.mem h.spares.0) h.q 30 (omega arith) (omega arith)
                  (omega (arith, h.tail_at, h.spares.1)) x);
          tail_at = omega (arith, h.tail_at, h.spares.1, length-append xs (x ∷ []));
          tail_in = omega arith;
          head_turn_in = h.head_turn_in;
          turn = omega (arith, h.turn);
          blocks_in = omega (arith, h.tail_at, h.spares.1, room, h.mem.index_in);
          moved_in = h.moved_in;
          moved_on = λ e. omega arith;
          head =
              h.head
              ∙ ap (λ (a : ℕ). record { index = place h.head_turn h.i h.moved; block = some a })
                  (sym (at_old h.mem h.spares.0 0 (omega arith)));
          tail = last_tail;
          spares = tt;
          live = omega (arith, h.live);
        };
      }
