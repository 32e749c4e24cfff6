-- ===== src/Unbounded/Query.antt =====
-- The other operations of src/list.rs: `len`, `capacity`, `is_empty`, `is_full`, `Shutdown` and
-- `Drop`, each without interference.
pub mod Laws
pub mod Rest
pub mod Drop
use zchan.Base.{
  ℕ, zero, suc, ◌+◌, ◌-◌, ◌*◌, ◌/◌, ◌%◌, Bool, true, false, Option, none, some, List, [], ◌∷◌, ltb,
  ◌==◌, if◌then◌else◌, bit_and, bit_or,
}
use zchan.Word.{wrapping_add, wrapping_sub, not_bits}
use zchan.SerialWaker.Queue.{ArrayQueue}
use zchan.SerialWaker.{wake_all}
use zchan.Unbounded.{lap, block_cap, mark_bit, one_index, shifted, Store, free, slot_at, Channel}

-- The result of `len`, from indices without their lower bits and rotated so that the head falls into
-- the first block; the subtractions wrap, as in a build without overflow checks.
unfoldable pub len_between : (tail head : ℕ) → ℕ
len_between tail head =
    let head' = if head == block_cap then 0 else head in
    let back = if head == block_cap then wrapping_sub tail lap else tail in
    let tail' = if back == block_cap then back + 1 else back in
    wrapping_sub (wrapping_sub tail' head') (tail' / lap)

-- What `len` makes of a consistent tail and head.
unfoldable pub len_of : (tail head : ℕ) → ℕ
unfolding len_between
len_of tail head =
    let tail0 = bit_and tail (not_bits (one_index - 1)) in
    let head0 = bit_and head (not_bits (one_index - 1)) in
    let turns = shifted head0 / lap in
    len_between (shifted (wrapping_sub tail0 (turns * lap * 2)))
      (shifted (wrapping_sub head0 (turns * lap * 2)))

-- One round of `len`: the loads of the tail, of the head, and of the tail again. `none` is another
-- round.
unfoldable pub len_round : (tail head tail_again : ℕ) → Option ℕ
unfolding len_of
len_round tail head tail_again = if tail_again == tail then some (len_of tail head) else none

module _ (T : Type 0) (𝓠 : ArrayQueue) where
  unfoldable pub len : Channel T 𝓠 → Option ℕ
  unfolding len_round
  len c = len_round c.tail.index c.head.index c.tail.index

  unfoldable pub capacity : Channel T 𝓠 → Option ℕ
  capacity c = none

  unfoldable pub is_empty : Channel T 𝓠 → Bool
  is_empty c = shifted c.head.index == shifted c.tail.index

  unfoldable pub is_full : Channel T 𝓠 → Bool
  is_full c = false

  unfoldable pub shutdown : Channel T 𝓠 → Channel T 𝓠 × Bool
  shutdown c =
      let marked : Channel T 𝓠 = record c {
        tail = record c.tail { index = bit_or c.tail.index mark_bit };
      } in
      if bit_and c.tail.index mark_bit == 0
      then (record marked { receivers = wake_all 𝓠 c.receivers }, true)
      else (marked, false)

  unfoldable pub is_shutdown : Channel T 𝓠 → Bool
  is_shutdown c = if bit_and c.tail.index mark_bit == 0 then false else true

-- The loop of `drop` from the head on: the messages that it drops in place, and the store with the
-- blocks that it passed freed. `none` is a fault or no end within the fuel.
module _ {T : Type 0} where
  -- The drop of the message in a slot.
  unfoldable pub drop_slot :
      (p offset : ℕ) → Store T → Option (List T × Store T) → Option (List T × Store T)
  drop_slot p offset s rest = elim (slot_at s p offset) [
    | none ↦ none
    | some slot ↦ elim slot.msg [
      | none ↦ none
      | some msg ↦ elim rest [ none ↦ none | some (msgs, s') ↦ some (msg ∷ msgs, s') ]
    ]
  ]

  unfoldable pub drop_loop : (fuel head tail : ℕ) → Option ℕ → Store T → Option (List T × Store T)
  unfolding drop_slot free
  drop_loop zero head tail block s = none
  drop_loop (suc fuel) head tail none s = if head == tail then some ([], s) else none
  drop_loop (suc fuel) head tail (some p) s =
      let offset = shifted head % lap in
      let next_index = wrapping_add head one_index in
      let stay = drop_loop fuel next_index tail (some p) s in
      let last : Option (List T × Store T) = elim (free p s) [
        | none ↦ none
        | some s' ↦ some ([], s')
      ] in
      let move : Option (List T × Store T) = elim (s.cells p) [
        | none ↦ none
        | some blk ↦ elim (free p s) [
          | none ↦ none
          | some s' ↦ drop_loop fuel next_index tail blk.next s'
        ]
      ] in
      if head == tail
      then last
      else if ltb offset block_cap
      then drop_slot p offset s stay
      else move

  -- `drop` of a channel.
  unfoldable pub drop : {𝓠 : ArrayQueue} (fuel : ℕ) → Channel T 𝓠 → Option (List T × Store T)
  unfolding drop_loop
  drop fuel c =
      drop_loop fuel (bit_and c.head.index (not_bits (one_index - 1)))
        (bit_and c.tail.index (not_bits (one_index - 1))) c.head.block c.store
