-- ===== src/Array/Send/Laws.antt =====
-- What the steps of `start_send` and `write` do to a channel of src/array.rs that holds a queue.
use native.Mathlib.Nat.{mod-lt}
use zchan.Base.{
  ℕ, ◌+◌, ◌*◌, ◌≤◌, ◌<◌, ◌≡◌, ◌≢◌, refl, sym, ap, ◌∙◌, Bool, true, false, List, length, ltb, ne→==,
  eq→==, if◌then◌else◌, arith, bit_and,
}
use zchan.Word.{wrapping_add}
use zchan.SerialWaker.Queue.{ArrayQueue}
use zchan.Array.{Channel, default}
use zchan.Array.Send.{exchange, load_head, reserved, by_stamp, inspect_tail}
use zchan.Array.Stamp.{laps, Packed, and-index, and-mark, and-lap, add-lap, lap_unique, two-le-laps}
use zchan.Array.Inv.{Holds, bit, stamp?-some, lap_at, lap_after, index_after, distance}

module _ {T : Type 0} {𝓠 : ArrayQueue} {c : Channel T 𝓠} {xs : List T} {closed : Bool}
    (h : Holds c xs closed) where
  abbrev pub tail_lap : ℕ
  tail_lap = lap_after c.cap h.lap h.next h.index (length xs)

  abbrev pub tail_index : ℕ
  tail_index = index_after c.cap h.lap h.next h.index (length xs)

  pub next_in : h.next < laps h.geometry
  next_in = omega (arith, h.next_lap, mod-lt (h.lap + 1) (two_pos (two-le-laps h.geometry)))
    where
      two_pos : {n : ℕ} → 2 ≤ n → 0 < n
      two_pos p = omega arith

  bit-lt : (b : Bool) → bit b < 2
  bit-lt true = omega arith
  bit-lt false = omega arith

  pub tail-Packed : Packed h.geometry c.tail tail_lap (bit closed) tail_index
  tail-Packed = record {
    word = h.tail;
    lap_in = ground (arith, next_in, h.lap_in);
    bit = bit-lt closed;
    index_in = ground (arith, h.index_in, h.room, h.geometry.fits);
  }

  pub tail_index_in : tail_index < c.cap
  tail_index_in = ground (arith, h.index_in, h.room)

  -- One lap further on from the head's lap.
  pub lap_up :
      (r : ℕ)
      → r < c.one_lap
      → wrapping_add (h.lap * c.one_lap + r) c.one_lap ≡ h.next * c.one_lap + r
  lap_up r small =
      add-lap h.geometry h.lap r h.lap_in small ∙ ap (λ (t : ℕ). t * c.one_lap + r) (sym h.next_lap)

  lap_pos : 0 < c.one_lap
  lap_pos = omega (arith, h.geometry.lap, h.geometry.fits)

  pub wrapped : wrapping_add (h.lap * c.one_lap) c.one_lap ≡ h.next * c.one_lap
  wrapped = omega (arith, lap_up 0 lap_pos)

  -- The word of the position after one more message.
  unfoldable pub tail_after : ℕ
  tail_after =
      lap_after c.cap h.lap h.next h.index (length xs + 1) * c.one_lap
      + index_after c.cap h.lap h.next h.index (length xs + 1)

  new_tail :
      closed ≡ false
      → length xs < c.cap
      → (if ltb (tail_index + 1) c.cap
          then c.tail + 1
          else wrapping_add (tail_lap * c.one_lap) c.one_lap)
        ≡ tail_after
  unfolding tail_after
  new_tail alive free = ground (arith, h.index_in, wrapped, h.tail, alive)

  pub not_marked : closed ≡ false → bit_and c.tail c.mark_bit ≡ 0
  not_marked alive = ground (arith, and-mark h.geometry tail-Packed)

  pub is_marked : closed ≡ true → bit_and c.tail c.mark_bit ≢ 0
  is_marked shut = ground (arith, and-mark h.geometry tail-Packed, h.geometry.fits)

  -- On a disconnected channel `start_send` returns with the null token.
  pub inspect-closed : closed ≡ true → inspect_tail T 𝓠 c c.tail ≡ reserved default
  unfolding inspect_tail
  inspect-closed shut = rw (ne→== _ 0 (is_marked shut))

  tail_stamp : ℕ
  tail_stamp =
      lap_at c.cap h.lap h.next h.index tail_index * c.one_lap
      + tail_index
      + (if ltb (distance c.cap h.lap h.next h.index tail_index) (length xs) then 1 else 0)

  inspect-alive :
      closed ≡ false
      → inspect_tail T 𝓠 c c.tail
        ≡ by_stamp T 𝓠 c c.tail tail_index (tail_lap * c.one_lap) tail_stamp
  unfolding inspect_tail tail_stamp
  inspect-alive alive =
      let (s, found, is) = stamp?-some c.buffer tail_index _ (h.stamps tail_index tail_index_in) in
      rw (
        eq→== _ 0 (not_marked alive),
        and-index h.geometry tail-Packed,
        found,
        inspect_tail,
        and-index h.geometry tail-Packed,
        and-lap h.geometry tail-Packed,
        is,
      )

  tail_stamp-room : closed ≡ false → length xs < c.cap → tail_stamp ≡ c.tail
  unfolding tail_stamp
  tail_stamp-room alive free = ground (arith, h.tail, alive, h.index_in)

  tail_stamp-full : length xs ≡ c.cap → tail_stamp ≡ h.lap * c.one_lap + h.index + 1
  unfolding tail_stamp
  tail_stamp-full full = ground (arith, h.index_in, h.geometry.pos)

  tail-full : closed ≡ false → length xs ≡ c.cap → c.tail ≡ h.next * c.one_lap + h.index
  tail-full alive full = ground (arith, h.tail, alive, h.index_in)

  -- With room left it goes on to move the tail by one position.
  pub inspect-room :
      closed ≡ false
      → length xs < c.cap
      → inspect_tail T 𝓠 c c.tail ≡ exchange c.tail tail_after tail_index
  unfolding by_stamp
  inspect-room alive free = rw (
    inspect-alive alive,
    tail_stamp-room alive free,
    eq→== c.tail c.tail refl,
    new_tail alive free,
  )

  -- On a full channel it goes on to look at the head.
  pub inspect-full :
      closed ≡ false → length xs ≡ c.cap → inspect_tail T 𝓠 c c.tail ≡ load_head c.tail
  unfolding by_stamp
  inspect-full alive full = rw (
    inspect-alive alive,
    tail_stamp-full full,
    ne→== c.tail (h.lap * c.one_lap + h.index + 1) not_behind,
    eq→== (wrapping_add (h.lap * c.one_lap + h.index + 1) c.one_lap) (c.tail + 1) one_behind,
  )
    where
      index_small : h.index + 1 < c.one_lap
      index_small = omega (arith, h.index_in, h.geometry.fits, h.geometry.lap)

      not_behind : c.tail ≢ h.lap * c.one_lap + h.index + 1
      not_behind e =
          let same =
            lap_unique h.geometry h.next h.lap h.index (h.index + 1) (omega (arith, index_small))
              index_small (omega (arith, e, tail-full alive full)) in
          omega (arith, same.1)

      one_behind : wrapping_add (h.lap * c.one_lap + h.index + 1) c.one_lap ≡ c.tail + 1
      one_behind = omega (arith, lap_up (h.index + 1) index_small, tail-full alive full)

  -- The head lags one lap behind the tail exactly as the full channel's does.
  pub head-full : closed ≡ false → length xs ≡ c.cap → wrapping_add c.head c.one_lap ≡ c.tail
  head-full alive full =
      ap (λ (t : ℕ). wrapping_add t c.one_lap) h.head
      ∙ lap_up h.index (omega (arith, h.index_in, h.geometry.fits, h.geometry.lap))
      ∙ sym (tail-full alive full)
