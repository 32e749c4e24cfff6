-- ===== src/Array/Query.antt =====
-- The other operations of src/array.rs: `len`, `capacity`, `is_empty`, `is_full`, `Shutdown` and
-- `Drop`, each without interference.
pub mod Laws
pub mod Drop
use zchan.Base.{
  ℕ, zero, suc, ◌+◌, ◌-◌, Bool, true, false, Option, none, some, List, [], ◌∷◌, ltb, ◌==◌,
  if◌then◌else◌, get_elem?, bit_and, bit_or,
}
use zchan.Word.{wrapping_add, not_bits}
use zchan.SerialWaker.Queue.{ArrayQueue}
use zchan.SerialWaker.{wake_all}
use zchan.Array.{Slot, Channel}

module _ (T : Type 0) (𝓠 : ArrayQueue) where
  -- What `len` makes of a consistent tail and head.
  pub len_of : Channel T 𝓠 → (tail head : ℕ) → ℕ
  len_of c tail head =
      let hix = bit_and head (c.mark_bit - 1) in
      let tix = bit_and tail (c.mark_bit - 1) in
      if ltb hix tix
      then tix - hix
      else if ltb tix hix
      then c.cap - hix + tix
      else if bit_and tail (not_bits c.mark_bit) == head
      then 0
      else c.cap

  -- One round of `len`: the loads of the tail, of the head, and of the tail again. `none` is another
  -- round.
  pub len_round : Channel T 𝓠 → (tail head tail_again : ℕ) → Option ℕ
  unfolding len_of
  len_round c tail head tail_again = if tail_again == tail then some (len_of c tail head) else none

  unfoldable pub len : Channel T 𝓠 → Option ℕ
  unfolding len_round
  len c = len_round c c.tail c.head c.tail

  unfoldable pub capacity : Channel T 𝓠 → Option ℕ
  capacity c = some c.cap

  unfoldable pub is_empty : Channel T 𝓠 → Bool
  is_empty c = bit_and c.tail c.mark_bit == c.head

  unfoldable pub is_full : Channel T 𝓠 → Bool
  is_full c = wrapping_add c.head c.one_lap == bit_and c.tail (not_bits c.mark_bit)

  unfoldable pub shutdown : Channel T 𝓠 → Channel T 𝓠 × Bool
  shutdown c =
      let marked : Channel T 𝓠 = record c { tail = bit_or c.tail c.mark_bit } in
      if bit_and c.tail c.mark_bit == 0
      then (
        record marked { senders = wake_all 𝓠 c.senders; receivers = wake_all 𝓠 c.receivers },
        true,
      )
      else (marked, false)

  unfoldable pub is_shutdown : Channel T 𝓠 → Bool
  is_shutdown c = if bit_and c.tail c.mark_bit == 0 then false else true

  -- The loop of `drop`, over `n` slots from the `i`-th behind the head on: the messages dropped in
  -- place, in order. `none` is a drop of memory that holds no message.
  pub drop_slots : Channel T 𝓠 → (n hix i : ℕ) → Option (List T)
  drop_slots c zero hix i = some []
  drop_slots c (suc n) hix i =
      let index = if ltb (hix + i) c.cap then hix + i else hix + i - c.cap in
      let rest = drop_slots c n hix (i + 1) in
      elim (get_elem? c.buffer index) [
        | none ↦ none
        | some slot ↦ elim slot.msg [
          | none ↦ none
          | some msg ↦ elim rest [ none ↦ none | some msgs ↦ some (msg ∷ msgs) ]
        ]
      ]

  -- `drop` of the channel; what it returns is the messages that it dropped.
  unfoldable pub drop : Channel T 𝓠 → Option (List T)
  unfolding len drop_slots
  drop c = elim (len c) [
    | none ↦ none
    | some n ↦ drop_slots c n (bit_and c.head (c.mark_bit - 1)) 0
  ]
