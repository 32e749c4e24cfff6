-- ===== src/Array/Send.antt =====
-- The sending side of src/array.rs: `start_send`, `write`, `try_send`, `send` and the `Sink`.
pub mod Laws
pub mod Run
pub mod Write
use zchan.Base.{
  ℕ, zero, suc, ◌+◌, ◌-◌, ◌*◌, ◌%◌, Bool, true, false, ◌&&◌, not, Option, none, some, List, [], ◌∷◌,
  ltb, leb, ◌==◌, if◌then◌else◌, get_elem?, bit_and,
}
use zchan.Word.{usize_mod, wrapping_add, not_bits}
use zchan.Error.{
  Result, ok, err, map_err, TrySendError, closed, no_capacity, SendTimeoutError, SendError,
  send_error, AsyncSink, is_closed, is_full, into_inner,
}
use zchan.SerialWaker.Queue.{ArrayQueue}
use zchan.SerialWaker.{register, wake}
use zchan.Array.{Slot, Array, Channel, default, modify}

-- Where a thread stands in `start_send`, with its live locals: before a load of the tail, with a
-- tail to inspect, before the compare-exchange, before the load of the head; returned with true
-- (and the token) or with false (the token as it was). `fault` is an access out of the buffer.
pub data SendPc : Type 0 where
  load_tail : SendPc
  inspect : (tail : ℕ) → SendPc
  exchange : (tail new_tail index : ℕ) → SendPc
  load_head : (tail : ℕ) → SendPc
  reserved : Array → SendPc
  not_ready : SendPc
  fault : SendPc

abbrev pub at_exchange : SendPc → Bool
at_exchange (exchange tail new_tail index) = true
at_exchange pc = false

module _ (T : Type 0) (𝓠 : ArrayQueue) where
  -- With the stamp of the slot loaded: try to move the tail, look for a full channel, or start over.
  unfoldable pub by_stamp : Channel T 𝓠 → (tail index lap stamp : ℕ) → SendPc
  by_stamp c tail index lap stamp =
      if tail == stamp
      then exchange tail (if ltb (index + 1) c.cap then tail + 1 else wrapping_add lap c.one_lap)
          index
      else if wrapping_add stamp c.one_lap == tail + 1
      then load_head tail
      else load_tail

  -- The check for a disconnected channel, then the load of the slot's stamp.
  unfoldable pub inspect_tail : Channel T 𝓠 → ℕ → SendPc
  inspect_tail c tail =
      let index = bit_and tail (c.mark_bit - 1) in
      let lap = bit_and tail (not_bits (c.one_lap - 1)) in
      if bit_and tail c.mark_bit == 0
      then elim (get_elem? c.buffer index) [
        | none ↦ fault
        | some slot ↦ by_stamp c tail index lap slot.stamp
      ]
      else reserved default

  -- One step of `start_send`: at most one access of shared memory. The Boolean makes the weak
  -- compare-exchange fail though the tail has not changed.
  unfoldable pub send_step : Bool → Channel T 𝓠 → SendPc → Channel T 𝓠 × SendPc
  send_step spurious c load_tail = (c, inspect c.tail)
  send_step spurious c (inspect tail) = (c, inspect_tail c tail)
  send_step spurious c (exchange tail new_tail index) =
      if c.tail == tail && not spurious
      then (record c { tail = new_tail }, reserved (record { slot = some index; stamp = tail + 1 }))
      else (c, inspect c.tail)
  send_step spurious c (load_head tail) =
      (c, if wrapping_add c.head c.one_lap == tail then not_ready else load_tail)
  send_step spurious c pc = (c, pc)

  -- `start_send` with no other thread: so many steps, of which the first `fails` compare-exchanges
  -- fail spuriously.
  unfoldable pub start_send : (fuel fails : ℕ) → Channel T 𝓠 → SendPc → Channel T 𝓠 × SendPc
  unfolding send_step
  start_send zero fails c pc = (c, pc)
  start_send (suc fuel) fails c pc =
      let spurious = at_exchange pc && ltb 0 fails in
      let (c', pc') = send_step spurious c pc in
      start_send fuel (if spurious then fails - 1 else fails) c' pc'

  unfoldable pub write : Channel T 𝓠 → Array → T → Channel T 𝓠 × Result (Unit {0}) T
  write c array msg = elim array.slot [
    | none ↦ (c, err msg)
    | some i ↦
        let written = modify c.buffer i (λ s. record s { msg = some msg }) in
        let stamped = modify written i (λ s. record s { stamp = array.stamp }) in
        (record c { buffer = stamped; receivers = wake 𝓠 c.receivers }, ok tt)
  ]

  -- What `try_send` does with the result of `start_send`; `none` if that did not return.
  unfoldable pub try_send_with :
      𝓠.Task → T → Channel T 𝓠 × SendPc → Option (Channel T 𝓠 × Result (Unit {0}) (TrySendError T))
  unfolding write
  try_send_with task msg (c, reserved array) =
      let (c', res) = write c array msg in
      some (c', map_err (λ m. record { kind = closed; value = m }) res)
  try_send_with task msg (c, not_ready) = some (
    record c { senders = register 𝓠 c.senders task },
    err (record { kind = no_capacity; value = msg }),
  )
  try_send_with task msg (c, pc) = none

  -- `try_send`, called by the given task.
  unfoldable pub try_send :
      (fuel fails : ℕ)
      → 𝓠.Task
      → Channel T 𝓠
      → T
      → Option (Channel T 𝓠 × Result (Unit {0}) (TrySendError T))
  unfolding start_send try_send_with
  try_send fuel fails task c msg = try_send_with task msg (start_send fuel fails c load_tail)

  -- What a round of `send` does once `start_send` has returned; `again` is the next round, and `now`
  -- the time that this round reads if there is a deadline.
  unfoldable pub send_round :
      Option ℕ
      → (now : ℕ) → T
      → Option (Channel T 𝓠 × Result (Unit {0}) (SendTimeoutError T))
      → Channel T 𝓠 × SendPc
      → Option (Channel T 𝓠 × Result (Unit {0}) (SendTimeoutError T))
  unfolding write
  send_round deadline now msg again (c, reserved array) =
      let (c', res) = write c array msg in some (c', map_err SendTimeoutError.disconnected res)
  send_round deadline now msg again (c, not_ready) = elim deadline [
    | none ↦ again
    | some d ↦ if leb d now then some (c, err (SendTimeoutError.timeout msg)) else again
  ]
  send_round deadline now msg again (c, pc) = none

  -- `send`, of so many rounds at most. The clock is a list of what `Instant::now` returns, round by
  -- round; a round for which it holds no time reads 0.
  unfoldable pub send :
      (attempts fuel fails : ℕ)
      → Option ℕ
      → List ℕ
      → Channel T 𝓠
      → T
      → Option (Channel T 𝓠 × Result (Unit {0}) (SendTimeoutError T))
  unfolding start_send send_round
  send zero fuel fails deadline clock c msg = none
  send (suc attempts) fuel fails deadline [] c msg =
      let again = send attempts fuel fails deadline [] c msg in
      send_round deadline 0 msg again (start_send fuel fails c load_tail)
  send (suc attempts) fuel fails deadline (now ∷ clock) c msg =
      let again = send attempts fuel fails deadline clock c msg in
      send_round deadline now msg again (start_send fuel fails c load_tail)

  -- The match of the `Sink`'s `start_send` on the result of `try_send`; `none` is `unreachable!`.
  unfoldable pub sink_result :
      Result (Unit {0}) (TrySendError T) → Option (Result (AsyncSink T) SendError)
  sink_result (ok _) = some (ok AsyncSink.ready)
  sink_result (err e) =
      if is_closed e
      then some (err send_error)
      else if is_full e
      then some (ok (AsyncSink.not_ready (into_inner e)))
      else none

  -- `Sink::start_send`, called by the given task.
  unfoldable pub sink_start_send :
      (fuel fails : ℕ)
      → 𝓠.Task
      → Channel T 𝓠
      → T
      → Option (Channel T 𝓠 × Result (AsyncSink T) SendError)
  unfolding try_send sink_result
  sink_start_send fuel fails task c item = elim (try_send fuel fails task c item) [
    | none ↦ none
    | some (c', res) ↦ elim (sink_result res) [ none ↦ none | some r ↦ some (c', r) ]
  ]
