-- ===== src/Array/Recv.antt =====
-- The receiving side of src/array.rs: `start_recv`, `read`, `poll_read`, `try_recv` and the
-- `Stream`. A result `none` of these is a read of memory that holds no message, or a run that has
-- not returned within its fuel.
pub mod Laws
pub mod Run
pub mod Read
use zchan.Base.{
  ℕ, zero, suc, ◌+◌, ◌-◌, ◌*◌, ◌%◌, Bool, true, false, ◌&&◌, not, Option, none, some, List, ltb,
  leb, ◌==◌, if◌then◌else◌, get_elem?, bit_and,
}
use zchan.Word.{usize_mod, wrapping_add, not_bits}
use zchan.Error.{Result, ok, err, map_err, TryRecvError, Async}
use zchan.SerialWaker.Queue.{ArrayQueue}
use zchan.SerialWaker.{register, wake, take_notification}
use zchan.Array.{Slot, Array, Channel, default, modify}

-- Where a thread stands in `start_recv`, with its live locals, as `SendPc` for `start_send`.
pub data RecvPc : Type 0 where
  load_head : RecvPc
  inspect : (head : ℕ) → RecvPc
  exchange : (head new index : ℕ) → RecvPc
  load_tail : (head : ℕ) → RecvPc
  reserved : Array → RecvPc
  not_ready : RecvPc
  fault : RecvPc

abbrev pub at_exchange : RecvPc → Bool
at_exchange (exchange head new index) = true
at_exchange pc = false

module _ (T : Type 0) (𝓠 : ArrayQueue) where
  unfoldable pub by_stamp : Channel T 𝓠 → (head index lap stamp : ℕ) → RecvPc
  by_stamp c head index lap stamp =
      if head + 1 == stamp
      then exchange head (if ltb (index + 1) c.cap then head + 1 else wrapping_add lap c.one_lap)
          index
      else if stamp == head
      then load_tail head
      else load_head

  unfoldable pub inspect_head : Channel T 𝓠 → ℕ → RecvPc
  inspect_head c head =
      let index = bit_and head (c.mark_bit - 1) in
      let lap = bit_and head (not_bits (c.one_lap - 1)) in
      elim (get_elem? c.buffer index) [
        | none ↦ fault
        | some slot ↦ by_stamp c head index lap slot.stamp
      ]

  -- The tail is loaded, after the stamp said that the head's slot holds no message.
  unfoldable pub compare_tail : Channel T 𝓠 → (head tail : ℕ) → RecvPc
  compare_tail c head tail =
      if bit_and tail (not_bits c.mark_bit) == head
      then (if bit_and tail c.mark_bit == 0 then not_ready else reserved default)
      else load_head

  -- One step of `start_recv`. The Boolean makes the weak compare-exchange fail.
  unfoldable pub recv_step : Bool → Channel T 𝓠 → RecvPc → Channel T 𝓠 × RecvPc
  recv_step spurious c load_head = (c, inspect c.head)
  recv_step spurious c (inspect head) = (c, inspect_head c head)
  recv_step spurious c (exchange head new index) =
      if c.head == head && not spurious
      then (
        record c { head = new },
        reserved (record { slot = some index; stamp = wrapping_add head c.one_lap }),
      )
      else (c, inspect c.head)
  recv_step spurious c (load_tail head) = (c, compare_tail c head c.tail)
  recv_step spurious c pc = (c, pc)

  -- `start_recv` with no other thread, as `start_send`.
  unfoldable pub start_recv : (fuel fails : ℕ) → Channel T 𝓠 → RecvPc → Channel T 𝓠 × RecvPc
  unfolding recv_step
  start_recv zero fails c pc = (c, pc)
  start_recv (suc fuel) fails c pc =
      let spurious = at_exchange pc && ltb 0 fails in
      let (c', pc') = recv_step spurious c pc in
      start_recv fuel (if spurious then fails - 1 else fails) c' pc'

  -- The read of a slot through the token, common to `read` and `poll_read`: the message, with the
  -- slot's stamp updated and a sender woken.
  unfoldable pub take_slot : Channel T 𝓠 → ℕ → ℕ → Option (Channel T 𝓠 × T)
  take_slot c i stamp = elim (get_elem? c.buffer i) [
    | none ↦ none
    | some slot ↦ elim slot.msg [
      | none ↦ none
      | some msg ↦ some (
        record c {
          buffer = modify c.buffer i (λ s. record s { stamp = stamp });
          senders = wake 𝓠 c.senders;
        },
        msg,
      )
    ]
  ]

  unfoldable pub read : Channel T 𝓠 → Array → Option (Channel T 𝓠 × Result T (Unit {0}))
  unfolding take_slot
  read c array = elim array.slot [
    | none ↦ some (c, err tt)
    | some i ↦ elim (take_slot c i array.stamp) [ none ↦ none | some (c', msg) ↦ some (c', ok msg) ]
  ]

  unfoldable pub poll_read : Channel T 𝓠 → Array → Option (Channel T 𝓠 × Async (Option T))
  unfolding take_slot
  poll_read c array = elim array.slot [
    | none ↦ some (c, Async.ready none)
    | some i ↦ elim (take_slot c i array.stamp) [
      | none ↦ none
      | some (c', msg) ↦ some (c', Async.ready (some msg))
    ]
  ]

  -- What `try_recv` does with the result of `start_recv`.
  unfoldable pub try_recv_with : Channel T 𝓠 × RecvPc → Option (Channel T 𝓠 × Result T TryRecvError)
  unfolding read
  try_recv_with (c, reserved array) = elim (read c array) [
    | none ↦ none
    | some (c', res) ↦ some (c', map_err (λ _. TryRecvError.disconnected) res)
  ]
  try_recv_with (c, not_ready) = some (c, err TryRecvError.empty)
  try_recv_with (c, pc) = none

  unfoldable pub try_recv :
      (fuel fails : ℕ) → Channel T 𝓠 → Option (Channel T 𝓠 × Result T TryRecvError)
  unfolding start_recv try_recv_with
  try_recv fuel fails c = try_recv_with (start_recv fuel fails c load_head)

  -- `if self.start_recv(array) { self.poll_read(array) } else { ... }`
  unfoldable pub poll_or :
      (Channel T 𝓠 → Option (Channel T 𝓠 × Async (Option T)))
      → Channel T 𝓠 × RecvPc
      → Option (Channel T 𝓠 × Async (Option T))
  unfolding poll_read
  poll_or otherwise (c, reserved array) = poll_read c array
  poll_or otherwise (c, not_ready) = otherwise c
  poll_or otherwise (c, pc) = none

  -- A second attempt, after registering the polling task.
  unfoldable pub poll_again :
      (fuel fails : ℕ) → 𝓠.Task → Channel T 𝓠 → Option (Channel T 𝓠 × Async (Option T))
  unfolding start_recv poll_or
  poll_again fuel fails task c =
      let waiting : Channel T 𝓠 = record c { receivers = register 𝓠 c.receivers task } in
      poll_or (λ c'. some (c', Async.not_ready)) (start_recv fuel fails waiting load_head)

  -- The rest of `poll` once the first attempt found the channel empty.
  unfoldable pub poll_later :
      (fuel fails : ℕ) → 𝓠.Task → Channel T 𝓠 → Option (Channel T 𝓠 × Async (Option T))
  unfolding poll_again
  poll_later fuel fails task c =
      if c.first
      then poll_again fuel fails task (record c { first = false })
      else let (w, took) = take_notification 𝓠 c.receivers in
        let noted : Channel T 𝓠 = record c { receivers = w } in
        if took then poll_again fuel fails task noted else some (noted, Async.not_ready)

  -- `Stream::poll`, called by the given task.
  unfoldable pub poll :
      (fuel fails : ℕ) → 𝓠.Task → Channel T 𝓠 → Option (Channel T 𝓠 × Async (Option T))
  unfolding start_recv poll_or poll_later
  poll fuel fails task c = poll_or (poll_later fuel fails task) (start_recv fuel fails c load_head)
