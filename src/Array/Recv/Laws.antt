-- ===== src/Array/Recv/Laws.antt =====
-- What the steps of `start_recv` of src/array.rs see of a channel that holds a queue.
use zchan.Base.{
  ℕ, ◌+◌, ◌*◌, ◌<◌, ◌≡◌, refl, ◌∙◌, Bool, true, false, List, length, ltb, ne→==, eq→==,
  if◌then◌else◌, arith, bit_and,
}
use zchan.Word.{wrapping_add, not_bits}
use zchan.SerialWaker.Queue.{ArrayQueue}
use zchan.Array.{Channel, default}
use zchan.Array.Recv.{
  exchange, load_tail, reserved, not_ready, by_stamp, inspect_head, compare_tail,
}
use zchan.Array.Stamp.{Packed, and-index, and-lap, and-not_mark}
use zchan.Array.Inv.{Holds, stamp?-some, lap_at, lap_after, index_after, distance}
use zchan.Array.Send.Laws.{tail-Packed, wrapped, not_marked, is_marked}

module _ {T : Type 0} {𝓠 : ArrayQueue} {c : Channel T 𝓠} {xs : List T} {closed : Bool}
    (h : Holds c xs closed) where
  pub head-Packed : Packed h.geometry c.head h.lap 0 h.index
  head-Packed = record {
    word = omega (arith, h.head);
    lap_in = h.lap_in;
    bit = omega arith;
    index_in = omega (arith, h.index_in, h.geometry.fits);
  }

  head_stamp : ℕ
  head_stamp =
      lap_at c.cap h.lap h.next h.index h.index * c.one_lap
      + h.index
      + (if ltb (distance c.cap h.lap h.next h.index h.index) (length xs) then 1 else 0)

  inspect_stamp :
      inspect_head T 𝓠 c c.head ≡ by_stamp T 𝓠 c c.head h.index (h.lap * c.one_lap) head_stamp
  unfolding inspect_head head_stamp
  inspect_stamp =
      let (s, found, is) = stamp?-some c.buffer h.index _ (h.stamps h.index h.index_in) in
      rw (
        and-index h.geometry head-Packed,
        found,
        inspect_head,
        and-index h.geometry head-Packed,
        and-lap h.geometry head-Packed,
        is,
      )

  head_stamp-empty : length xs ≡ 0 → head_stamp ≡ c.head
  unfolding head_stamp
  head_stamp-empty none_left = ground (arith, h.head)

  head_stamp-some : 0 < length xs → head_stamp ≡ c.head + 1
  unfolding head_stamp
  head_stamp-some some_left = ground (arith, h.head)

  -- The word of the next position.
  unfoldable pub head_after : ℕ
  head_after =
      lap_after c.cap h.lap h.next h.index 1 * c.one_lap + index_after c.cap h.lap h.next h.index 1

  new_head :
      (if ltb (h.index + 1) c.cap then c.head + 1 else wrapping_add (h.lap * c.one_lap) c.one_lap)
      ≡ head_after
  unfolding head_after
  new_head = ground (arith, h.index_in, wrapped h, h.head)

  -- With a message there `start_recv` goes on to move the head by one position.
  pub inspect-some : 0 < length xs → inspect_head T 𝓠 c c.head ≡ exchange c.head head_after h.index
  unfolding by_stamp
  inspect-some some_left =
      rw (inspect_stamp, head_stamp-some some_left, eq→== (c.head + 1) (c.head + 1) refl, new_head)

  -- On an empty channel it goes on to look at the tail.
  pub inspect-empty : length xs ≡ 0 → inspect_head T 𝓠 c c.head ≡ load_tail c.head
  unfolding by_stamp
  inspect-empty none_left = rw (
    inspect_stamp,
    head_stamp-empty none_left,
    ne→== (c.head + 1) c.head (omega arith),
    eq→== c.head c.head refl,
  )

  -- Of an empty channel the tail, less its mark, is the head.
  pub tail-empty : length xs ≡ 0 → bit_and c.tail (not_bits c.mark_bit) ≡ c.head
  tail-empty none_left =
      and-not_mark h.geometry (tail-Packed h) ∙ ground (arith, h.head, h.index_in)

  pub compare-open : closed ≡ false → length xs ≡ 0 → compare_tail T 𝓠 c c.head c.tail ≡ not_ready
  unfolding compare_tail
  compare-open alive none_left =
      rw (tail-empty none_left, eq→== c.head c.head refl, eq→== _ 0 (not_marked h alive))

  pub compare-closed :
      closed ≡ true → length xs ≡ 0 → compare_tail T 𝓠 c c.head c.tail ≡ reserved default
  unfolding compare_tail
  compare-closed shut none_left =
      rw (tail-empty none_left, eq→== c.head c.head refl, ne→== _ 0 (is_marked h shut))
