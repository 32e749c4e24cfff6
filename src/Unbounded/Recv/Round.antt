-- ===== src/Unbounded/Recv/Round.antt =====
-- A round of `start_recv` of src/list.rs.
use zchan.Base.{
  ℕ, ◌+◌, ◌*◌, ◌/◌, ◌%◌, ◌<◌, ◌≡◌, ◌≢◌, refl, sym, ap, ◌∙◌, Bool, true, false, Option, none, some,
  List, length, ◌==◌, eq→==, ne→==, if◌then◌else◌, bit_and, bit_or, arith, ℕ_discrete,
}
use zchan.SerialWaker.Queue.{ArrayQueue}
use zchan.Unbounded.{Position, default, Channel, lap, shifted, mark_bit, one_index, block_cap}
use zchan.Unbounded.Recv.{
  RecvLocals, RecvRound, returned, not_ready, advance, compare_tail, recv_round,
}
use zchan.Unbounded.Place.{place, mark-place, offset-place, shifted-place, turn-place, marked-place}
use zchan.Unbounded.Holds.{
  Chain, Untouched, mark_of, mark_of-bounded, tail_turn_in, same_place, same_place_conv,
}

module _ {T : Type 0} {𝓠 : ArrayQueue} where
  abbrev pub locals_of : Channel T 𝓠 → RecvLocals
  locals_of c = record { head = c.head.index; block = c.head.block }

  -- What a round makes of an empty channel.
  abbrev pub nothing_round : Channel T 𝓠 → Bool → RecvRound T 𝓠
  nothing_round c shut = if shut then returned c default else not_ready c

  compare_tail-same :
      (spurious : Bool) (c : Channel T 𝓠) (head tail offset : ℕ) (block : Option ℕ) (shut : Bool)
      → shifted head ≡ shifted tail
      → bit_and tail mark_bit ≡ mark_of shut
      → compare_tail T 𝓠 spurious c head tail offset block ≡ nothing_round c shut
  unfolding compare_tail
  compare_tail-same spurious c head tail offset block false same mark =
      rw (eq→== (shifted head) (shifted tail) same, eq→== (bit_and tail mark_bit) 0 mark) refl
  compare_tail-same spurious c head tail offset block true same mark =
      rw
        (
          eq→== (shifted head) (shifted tail) same,
          ne→== (bit_and tail mark_bit) 0 (omega (arith, mark)),
        )
        refl

  compare_tail-other :
      (spurious : Bool) (c : Channel T 𝓠) (head tail offset : ℕ) (block : Option ℕ)
      → shifted head ≢ shifted tail
      → compare_tail T 𝓠 spurious c head tail offset block
        ≡ advance T 𝓠 spurious c head offset
            (if shifted head / lap == shifted tail / lap
              then head + one_index
              else bit_or (head + one_index) mark_bit)
            block
  unfolding compare_tail
  compare_tail-other spurious c head tail offset block ne =
      rw (compare_tail, ne→== (shifted head) (shifted tail) ne) refl

  recv_round-compares :
      (spurious : Bool) (c : Channel T 𝓠) (l : RecvLocals) (offset : ℕ)
      → shifted l.head % lap ≡ offset
      → offset < 31
      → bit_and (l.head + one_index) mark_bit ≡ 0
      → recv_round T 𝓠 spurious c l ≡ compare_tail T 𝓠 spurious c l.head c.tail.index offset l.block
  unfolding recv_round
  recv_round-compares spurious c l offset at at_in unmarked =
      rw
        (
          at,
          ne→== offset block_cap (omega arith),
          eq→== (bit_and (l.head + one_index) mark_bit) 0 unmarked,
        )
        refl

  recv_round-marked :
      (spurious : Bool) (c : Channel T 𝓠) (l : RecvLocals) (offset : ℕ)
      → shifted l.head % lap ≡ offset
      → offset < 31
      → bit_and (l.head + one_index) mark_bit ≡ 1
      → recv_round T 𝓠 spurious c l
        ≡ advance T 𝓠 spurious c l.head offset (l.head + one_index) l.block
  unfolding recv_round
  recv_round-marked spurious c l offset at at_in marked =
      rw
        (
          at,
          ne→== offset block_cap (omega arith),
          ne→== (bit_and (l.head + one_index) mark_bit) 0 (omega (arith, marked)),
        )
        refl

  pub first_round :
      {c : Channel T 𝓠} {xs : List T} {shut : Bool}
      → Untouched c xs shut
      → (spurious : Bool) → recv_round T 𝓠 spurious c (locals_of c) ≡ nothing_round c shut
  first_round {c} {xs} {shut} u spurious =
      recv_round-compares spurious c (locals_of c) 0
        (ap (λ (p : Position). shifted p.index % lap) u.head) (omega arith)
        (ap (λ (p : Position). bit_and (p.index + one_index) mark_bit) u.head)
      ∙ compare_tail-same spurious c c.head.index c.tail.index 0 c.head.block shut
          (ap (λ (p : Position). shifted p.index) u.head
            ∙ by_mark shut
            ∙ sym (ap (λ (p : Position). shifted p.index) u.tail))
          (ap (λ (p : Position). bit_and p.index mark_bit) u.tail ∙ mark shut)
    where
      by_mark : (b : Bool) → 0 ≡ shifted (mark_of b)
      by_mark false = refl
      by_mark true = refl

      mark : (b : Bool) → bit_and (mark_of b) mark_bit ≡ mark_of b
      mark false = refl
      mark true = refl

  module _ {c : Channel T 𝓠} {xs : List T} {shut : Bool} (h : Chain c none xs shut) where
    -- The mark of the head once the first slot is reserved.
    unfoldable pub next_mark : ℕ
    next_mark = if h.moved == 1 then 1 else if h.head_turn == h.tail_turn then 0 else 1

    head_in : h.i < 32
    head_in = omega (arith, h.mem.index_in)

    head_index : c.head.index ≡ place h.head_turn h.i h.moved
    head_index = ap (λ (p : Position). p.index) h.head

    tail_index : c.tail.index ≡ place h.tail_turn h.t (mark_of shut)
    tail_index = ap (λ (p : Position). p.index) h.tail

    head_offset : shifted c.head.index % lap ≡ h.i
    head_offset =
        ap (λ (n : ℕ). shifted n % lap) head_index
        ∙ offset-place h.head_turn h.i h.moved h.head_turn_in head_in h.moved_in

    head_shift : shifted c.head.index ≡ 32 * h.head_turn + h.i
    head_shift =
        ap (λ (n : ℕ). shifted n) head_index
        ∙ shifted-place h.head_turn h.i h.moved h.head_turn_in head_in h.moved_in

    tail_shift : shifted c.tail.index ≡ 32 * h.tail_turn + h.t
    tail_shift =
        ap (λ (n : ℕ). shifted n) tail_index
        ∙ shifted-place h.tail_turn h.t (mark_of shut) (tail_turn_in h) (omega (arith, h.tail_in))
            (mark_of-bounded shut)

    head_next : c.head.index + one_index ≡ place h.head_turn (h.i + 1) h.moved
    head_next = ap (λ (n : ℕ). n + one_index) head_index ∙ omega arith

    head_mark : bit_and (c.head.index + one_index) mark_bit ≡ h.moved
    head_mark =
        ap (λ (n : ℕ). bit_and n mark_bit) head_next
        ∙ mark-place h.head_turn (h.i + 1) h.moved h.head_turn_in (omega (arith, h.mem.index_in))
            h.moved_in

    tail_mark : bit_and c.tail.index mark_bit ≡ mark_of shut
    tail_mark =
        ap (λ (n : ℕ). bit_and n mark_bit) tail_index
        ∙ mark-place h.tail_turn h.t (mark_of shut) (tail_turn_in h) (omega (arith, h.tail_in))
            (mark_of-bounded shut)

    -- A marked head is not in the last block, so that there is a message.
    unmoved : length xs ≡ 0 → h.moved ≡ 0
    unmoved none_left = elim (ℕ_discrete h.moved 1) [
      | yes e ↦ absurd (omega (arith, h.moved_on e, h.tail_at, h.mem.index_in, none_left))
      | no ne ↦ omega (arith, ne, h.moved_in)
    ]

    pub empty_round :
        length xs ≡ 0
        → (spurious : Bool) → recv_round T 𝓠 spurious c (locals_of c) ≡ nothing_round c shut
    empty_round none_left spurious =
        recv_round-compares spurious c (locals_of c) h.i head_offset h.mem.index_in
          (head_mark ∙ unmoved none_left)
        ∙ compare_tail-same spurious c c.head.index c.tail.index h.i c.head.block shut
            (head_shift ∙ same_place_conv h none_left ∙ sym tail_shift) tail_mark

    marked_head : h.moved ≡ 1 → c.head.index + one_index ≡ place h.head_turn (h.i + 1) next_mark
    unfolding next_mark
    marked_head marked =
        head_next
        ∙ ap (λ (m : ℕ). place h.head_turn (h.i + 1) m) marked
        ∙ ap
            (λ b.
              place h.head_turn (h.i + 1)
                (if b then 1 else if h.head_turn == h.tail_turn then 0 else 1))
            (sym (eq→== h.moved 1 marked))

    head_lap : shifted c.head.index / lap ≡ h.head_turn
    head_lap =
        ap (λ (n : ℕ). shifted n / lap) head_index
        ∙ turn-place h.head_turn h.i h.moved h.head_turn_in head_in h.moved_in

    tail_lap : shifted c.tail.index / lap ≡ h.tail_turn
    tail_lap =
        ap (λ (n : ℕ). shifted n / lap) tail_index
        ∙ turn-place h.tail_turn h.t (mark_of shut) (tail_turn_in h) (omega (arith, h.tail_in))
            (mark_of-bounded shut)

    clear_head :
        h.moved ≡ 0
        → (if shifted c.head.index / lap == shifted c.tail.index / lap
            then c.head.index + one_index
            else bit_or (c.head.index + one_index) mark_bit)
          ≡ place h.head_turn (h.i + 1) next_mark
    unfolding next_mark
    clear_head clear =
        rw (head_lap, tail_lap, head_next, ne→== h.moved 1 (omega (arith, clear))) by_turn
      where
        by_turn :
            (if h.head_turn == h.tail_turn
              then place h.head_turn (h.i + 1) h.moved
              else bit_or (place h.head_turn (h.i + 1) h.moved) mark_bit)
            ≡ place h.head_turn (h.i + 1) (if h.head_turn == h.tail_turn then 0 else 1)
        by_turn = elim (ℕ_discrete h.head_turn h.tail_turn) [
          | yes same ↦
              rw (eq→== h.head_turn h.tail_turn same)
                (ap (λ (m : ℕ). place h.head_turn (h.i + 1) m) clear)
          | no other ↦ rw (ne→== h.head_turn h.tail_turn other) (
              marked-place h.head_turn (h.i + 1) h.moved h.head_turn_in
                (omega (arith, h.mem.index_in)) h.moved_in)
        ]

    -- A round that finds a message comes to the compare-exchange.
    pub some_round :
        length xs ≢ 0
        → (spurious : Bool)
        → recv_round T 𝓠 spurious c (locals_of c)
          ≡ advance T 𝓠 spurious c c.head.index h.i
              (place h.head_turn (h.i + 1) next_mark)
              (some (h.ptr 0))
    some_round left spurious = elim (ℕ_discrete h.moved 1) [
      | yes marked ↦
          recv_round-marked spurious c (locals_of c) h.i head_offset h.mem.index_in
            (head_mark ∙ marked)
          ∙ ap (λ (n : ℕ). advance T 𝓠 spurious c c.head.index h.i n c.head.block)
              (marked_head marked)
          ∙ ap
              (λ (p : Position).
                advance T 𝓠 spurious c c.head.index h.i (place h.head_turn (h.i + 1) next_mark)
                  p.block)
              h.head
      | no unmarked ↦
          let clear : h.moved ≡ 0 = omega (arith, unmarked, h.moved_in) in
          recv_round-compares spurious c (locals_of c) h.i head_offset h.mem.index_in
            (head_mark ∙ clear)
          ∙ compare_tail-other spurious c c.head.index c.tail.index h.i c.head.block
              (λ e. left (same_place h (sym head_shift ∙ e ∙ tail_shift)))
          ∙ ap (λ (n : ℕ). advance T 𝓠 spurious c c.head.index h.i n c.head.block)
              (clear_head clear)
          ∙ ap
              (λ (p : Position).
                advance T 𝓠 spurious c c.head.index h.i (place h.head_turn (h.i + 1) next_mark)
                  p.block)
              h.head
    ]
