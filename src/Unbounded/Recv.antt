-- ===== src/Unbounded/Recv.antt =====
-- The receiving side of src/list.rs: `Block::destroy`, `start_recv`, `read`, `poll_read`, `try_recv`
-- and the `Stream`. A result `none` is a fault, a wait that nothing will end, or a run that has not
-- returned within its fuel.
pub mod Round
pub mod Take
pub mod Reserve
pub mod Run
use zchan.Base.{
  ℕ, zero, suc, ◌+◌, ◌-◌, ◌%◌, ◌/◌, Bool, true, false, ◌&&◌, ◌||◌, not, Option, none, some, ltb,
  ◌==◌, if◌then◌else◌, bit_and, bit_or,
}
use zchan.Word.{wrapping_add, not_bits}
use zchan.Error.{Result, ok, err, map_err, TryRecvError, Async}
use zchan.SerialWaker.Queue.{ArrayQueue}
use zchan.SerialWaker.{register, take_notification}
use zchan.Unbounded.{
  lap, block_cap, mark_bit, one_index, shifted, write_bit, read_bit, destroy_bit, Slot, Store, free,
  slot_at, change_slot, Position, ListToken, default, Channel,
}

module _ {T : Type 0} where
  abbrev pub set_bit : ℕ → Slot T → Slot T
  set_bit bit s = record s { state = bit_or s.state bit }

  -- The loop of `Block::destroy` over `n` slots from the `i`-th on, and the drop of the block.
  unfoldable pub destroy_from : (n i p : ℕ) → Store T → Option (Store T)
  unfolding free change_slot
  destroy_from zero i p s = free p s
  destroy_from (suc n) i p s = elim (slot_at s p i) [
    | none ↦ none
    | some slot ↦ elim (bit_and slot.state read_bit == 0) [
      | true ↦ some (change_slot p i (set_bit destroy_bit) s)
      | false ↦ destroy_from n (i + 1) p s
    ]
  ]

  -- `Block::destroy`
  unfoldable pub destroy : (p start : ℕ) → Store T → Option (Store T)
  unfolding destroy_from
  destroy p start s = destroy_from (block_cap - 1 - start) start p s

-- The locals of the loop of `start_recv`.
pub record RecvLocals : Type 0 where
  pub head : ℕ
  pub block : Option ℕ

module _ (T : Type 0) (𝓠 : ArrayQueue) where
  -- A round ends with the locals of the next one, with the return of true and the token, with the
  -- return of false, or with a fault.
  pub data RecvRound : Type 0 where
    again : Channel T 𝓠 → RecvLocals → RecvRound
    returned : Channel T 𝓠 → ListToken → RecvRound
    not_ready : Channel T 𝓠 → RecvRound
    fault : RecvRound

  -- Another round, with the head loaded again.
  abbrev pub reload : Channel T 𝓠 → RecvRound
  reload c = again c (record { head = c.head.index; block = c.head.block })

  -- The move to the next block, after the last slot of `b` was reserved.
  unfoldable pub next_head : Channel T 𝓠 → (b next new_head : ℕ) → RecvRound
  next_head c b next new_head = elim (c.store.cells next) [
    | none ↦ fault
    | some blk ↦
        let index = wrapping_add (bit_and new_head (not_bits mark_bit)) one_index in
        returned
          (record c {
            head = record {
              index = elim blk.next [ none ↦ index | some _ ↦ bit_or index mark_bit ];
              block = some next;
            };
          })
          (record { block = some b; offset = block_cap - 1 })
  ]

  -- What follows a successful compare-exchange. `wait_next` of a block with no next one is no return.
  unfoldable pub reserve : Channel T 𝓠 → (b offset new_head : ℕ) → RecvRound
  unfolding next_head
  reserve c b offset new_head =
      if offset + 1 == block_cap
      then elim (c.store.cells b) [
        | none ↦ fault
        | some blk ↦ elim blk.next [ none ↦ fault | some next ↦ next_head c b next new_head ]
      ]
      else returned c (record { block = some b; offset = offset })

  -- The compare-exchange of the head's index.
  unfoldable pub advance : Bool → Channel T 𝓠 → (head offset new_head : ℕ) → Option ℕ → RecvRound
  unfolding reserve
  advance spurious c head offset new_head none = reload c
  advance spurious c head offset new_head (some b) =
      if c.head.index == head && not spurious
      then reserve (record c { head = record c.head { index = new_head } }) b offset new_head
      else reload c

  -- What the head's mark leaves open: whether the channel is empty, and whether the tail is in
  -- another block.
  unfoldable pub compare_tail : Bool → Channel T 𝓠 → (head tail offset : ℕ) → Option ℕ → RecvRound
  unfolding advance
  compare_tail spurious c head tail offset block =
      if shifted head == shifted tail
      then (if bit_and tail mark_bit == 0 then not_ready c else returned c default)
      else advance spurious c head offset
          (if shifted head / lap == shifted tail / lap
            then head + one_index
            else bit_or (head + one_index) mark_bit)
          block

  -- A round of the loop of `start_recv`, with no interference within it.
  unfoldable pub recv_round : Bool → Channel T 𝓠 → RecvLocals → RecvRound
  unfolding compare_tail
  recv_round spurious c l =
      let offset = shifted l.head % lap in
      if offset == block_cap
      then reload c
      else if bit_and (l.head + one_index) mark_bit == 0
      then compare_tail spurious c l.head c.tail.index offset l.block
      else advance spurious c l.head offset (l.head + one_index) l.block

  -- The loop, in whose first `fails` rounds the compare-exchange fails spuriously. The result is the
  -- token, or `none` for false.
  unfoldable pub recv_loop :
      (fuel fails : ℕ) → Channel T 𝓠 → RecvLocals → Option (Channel T 𝓠 × Option ListToken)
  unfolding recv_round
  recv_loop zero fails c l = none
  recv_loop (suc fuel) fails c l = elim (recv_round (ltb 0 fails) c l) [
    | again c' l' ↦ recv_loop fuel (fails - 1) c' l'
    | returned c' token ↦ some (c', some token)
    | not_ready c' ↦ some (c', none)
    | fault ↦ none
  ]

  unfoldable pub start_recv :
      (fuel fails : ℕ) → Channel T 𝓠 → Option (Channel T 𝓠 × Option ListToken)
  unfolding recv_loop
  start_recv fuel fails c =
      recv_loop fuel fails c (record { head = c.head.index; block = c.head.block })

  -- The release of a slot that was read: the destruction of its block, or the mark `READ`.
  unfoldable pub release : Store T → (b offset : ℕ) → (state : ℕ) → Option (Store T)
  unfolding destroy change_slot
  release s b offset state =
      if offset + 1 == block_cap
      then destroy b 0 s
      else if bit_and state destroy_bit == 0
      then some (change_slot b offset (set_bit read_bit) s)
      else destroy b (offset + 1) (change_slot b offset (set_bit read_bit) s)

  -- The read of a slot, common to `read` and `poll_read`.
  unfoldable pub take_slot : Channel T 𝓠 → (b offset : ℕ) → Option (Channel T 𝓠 × T)
  unfolding release
  take_slot c b offset = elim (slot_at c.store b offset) [
    | none ↦ none
    | some slot ↦ if bit_and slot.state write_bit == 0 then none else elim slot.msg [
      | none ↦ none
      | some msg ↦ elim (release c.store b offset slot.state) [
        | none ↦ none
        | some s ↦ some (record c { store = s }, msg)
      ]
    ]
  ]

  unfoldable pub read : Channel T 𝓠 → ListToken → Option (Channel T 𝓠 × Result T (Unit {0}))
  unfolding take_slot
  read c list = elim list.block [
    | none ↦ some (c, err tt)
    | some b ↦ elim (take_slot c b list.offset) [ none ↦ none | some (c', msg) ↦ some (c', ok msg) ]
  ]

  unfoldable pub poll_read : Channel T 𝓠 → ListToken → Option (Channel T 𝓠 × Async (Option T))
  unfolding take_slot
  poll_read c list = elim list.block [
    | none ↦ some (c, Async.ready none)
    | some b ↦ elim (take_slot c b list.offset) [
      | none ↦ none
      | some (c', msg) ↦ some (c', Async.ready (some msg))
    ]
  ]

  unfoldable pub try_recv :
      (fuel fails : ℕ) → Channel T 𝓠 → Option (Channel T 𝓠 × Result T TryRecvError)
  unfolding start_recv read
  try_recv fuel fails c = elim (start_recv fuel fails c) [
    | none ↦ none
    | some (c', none) ↦ some (c', err TryRecvError.empty)
    | some (c', some list) ↦ elim (read c' list) [
      | none ↦ none
      | some (c'', res) ↦ some (c'', map_err (λ _. TryRecvError.disconnected) res)
    ]
  ]

  -- `if self.start_recv(list) { self.poll_read(list) } else { ... }`
  unfoldable pub poll_or :
      (Channel T 𝓠 → Option (Channel T 𝓠 × Async (Option T)))
      → Option (Channel T 𝓠 × Option ListToken)
      → Option (Channel T 𝓠 × Async (Option T))
  unfolding poll_read
  poll_or otherwise none = none
  poll_or otherwise (some (c, none)) = otherwise c
  poll_or otherwise (some (c, some list)) = poll_read c list

  -- A second attempt, after registering the polling task.
  unfoldable pub poll_again :
      (fuel fails : ℕ) → 𝓠.Task → Channel T 𝓠 → Option (Channel T 𝓠 × Async (Option T))
  unfolding start_recv poll_or
  poll_again fuel fails task c =
      poll_or (λ c'. some (c', Async.not_ready))
        (start_recv fuel fails (record c { receivers = register 𝓠 c.receivers task }))

  -- The rest of `poll` once the first attempt found the channel empty.
  unfoldable pub poll_later :
      (fuel fails : ℕ) → 𝓠.Task → Channel T 𝓠 → Option (Channel T 𝓠 × Async (Option T))
  unfolding poll_again
  poll_later fuel fails task c =
      if c.first
      then poll_again fuel fails task (record c { first = false })
      else let (w, took) = take_notification 𝓠 c.receivers in
        let noted : Channel T 𝓠 = record c { receivers = w } in
        if took then poll_again fuel fails task noted else some (noted, Async.not_ready)

  -- `Stream::poll`, called by the given task.
  unfoldable pub poll :
      (fuel fails : ℕ) → 𝓠.Task → Channel T 𝓠 → Option (Channel T 𝓠 × Async (Option T))
  unfolding start_recv poll_or poll_later
  poll fuel fails task c = poll_or (poll_later fuel fails task) (start_recv fuel fails c)
