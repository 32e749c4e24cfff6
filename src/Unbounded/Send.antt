-- ===== src/Unbounded/Send.antt =====
-- The sending side of src/list.rs: `start_send`, `write`, `send`, `try_send` and the `Sink`. A result
-- `none` is a fault, or a run that has not returned within its fuel.
pub mod Entry
pub mod Reserve
pub mod Run
use zchan.Base.{
  ℕ, zero, suc, ◌+◌, ◌-◌, ◌%◌, Bool, true, false, ◌&&◌, not, Option, none, some, ltb, ◌==◌,
  if◌then◌else◌, bit_and, bit_or,
}
use zchan.Word.{wrapping_add}
use zchan.Error.{
  Result, ok, err, map_err, TrySendError, closed, SendTimeoutError, SendError, send_error,
  AsyncSink, is_closed,
}
use zchan.SerialWaker.Queue.{ArrayQueue}
use zchan.SerialWaker.{wake}
use zchan.Unbounded.{
  lap, block_cap, mark_bit, one_index, shifted, write_bit, Slot, Store, alloc, drop_box, slot_at,
  change_block, change_slot, Position, ListToken, default, Channel,
}

-- The locals of the loop of `start_send`.
pub record SendLocals : Type 0 where
  pub tail : ℕ
  pub block : Option ℕ
  pub next_block : Option ℕ

module _ (T : Type 0) (𝓠 : ArrayQueue) where
  -- A round of the loop ends with the locals of the next one, with the return of true and the token,
  -- or with a fault.
  pub data SendRound : Type 0 where
    again : Channel T 𝓠 → SendLocals → SendRound
    returned : Channel T 𝓠 → ListToken → SendRound
    fault : SendRound

  abbrev pub with_store : Channel T 𝓠 → Store T → Channel T 𝓠
  with_store c s = record c { store = s }

  -- The return of a token, which drops the local `next_block`.
  unfoldable pub finish : Channel T 𝓠 → Option ℕ → ListToken → SendRound
  finish c next_block token = elim (drop_box next_block c.store) [
    | none ↦ fault
    | some s ↦ returned (with_store c s) token
  ]

  -- The installation of the next block, after the last slot of `b` was reserved.
  unfoldable pub link : Channel T 𝓠 → (b p : ℕ) → SendRound
  link c b p = elim (c.store.cells b) [
    | none ↦ fault
    | some _ ↦
        returned
          (record c {
            tail = record { index = wrapping_add c.tail.index one_index; block = some p };
            store = change_block b (λ blk. record blk { next = some p }) c.store;
          })
          (record { block = some b; offset = block_cap - 1 })
  ]

  -- What follows a successful compare-exchange.
  unfoldable pub reserve : Channel T 𝓠 → (b offset : ℕ) → Option ℕ → SendRound
  unfolding link finish
  reserve c b offset next_block =
      if offset + 1 == block_cap
      then elim next_block [ none ↦ fault | some p ↦ link c b p ]
      else finish c next_block (record { block = some b; offset = offset })

  -- The compare-exchange of the tail's index.
  unfoldable pub advance : Bool → Channel T 𝓠 → (tail b offset : ℕ) → Option ℕ → SendRound
  unfolding reserve
  advance spurious c tail b offset next_block =
      if c.tail.index == tail && not spurious
      then reserve (record c { tail = record c.tail { index = tail + one_index } }) b offset
          next_block
      else again c (record { tail = c.tail.index; block = c.tail.block; next_block = next_block })

  -- The installation of the first block, `new` at the address `p`.
  unfoldable pub install : Bool → Channel T 𝓠 → (tail p offset : ℕ) → Option ℕ → SendRound
  unfolding advance
  install spurious c tail p offset next_block = elim c.tail.block [
    | none ↦
        advance spurious
          (record c {
            tail = record c.tail { block = some p };
            head = record c.head { block = some p };
          })
          tail p offset next_block
    | some b ↦ elim (drop_box next_block c.store) [
      | none ↦ fault
      | some s ↦
          again (with_store c s)
            (record { tail = c.tail.index; block = some b; next_block = some p })
    ]
  ]

  -- The rest of a round, with the next block allocated if it will be needed.
  unfoldable pub with_block :
      Bool → Channel T 𝓠 → (tail offset : ℕ) → (block next_block : Option ℕ) → SendRound
  unfolding advance install
  with_block spurious c tail offset (some b) next_block =
      advance spurious c tail b offset next_block
  with_block spurious c tail offset none next_block =
      let (s, p) = alloc c.store in install spurious (with_store c s) tail p offset next_block

  abbrev pub is_none : Option ℕ → Bool
  is_none none = true
  is_none (some p) = false

  -- The allocation of the next block in advance, at the last slot of a block.
  unfoldable pub prepared : Channel T 𝓠 → (offset : ℕ) → Option ℕ → Channel T 𝓠 × Option ℕ
  prepared c offset next_block =
      if offset + 1 == block_cap && is_none next_block
      then (with_store c (alloc c.store).0, some (alloc c.store).1)
      else (c, next_block)

  -- A round of the loop of `start_send`, with no interference within it. The Boolean makes the weak
  -- compare-exchange fail though the index has not changed.
  unfoldable pub send_round : Bool → Channel T 𝓠 → SendLocals → SendRound
  unfolding finish with_block prepared
  send_round spurious c l =
      let offset = shifted l.tail % lap in
      if bit_and l.tail mark_bit == 0
      then if offset == block_cap
        then again c
            (record { tail = c.tail.index; block = c.tail.block; next_block = l.next_block })
        else with_block spurious (prepared c offset l.next_block).0 l.tail offset l.block
            (prepared c offset l.next_block).1
      else finish c l.next_block default

  -- The loop, in whose first `fails` rounds the compare-exchange fails spuriously.
  unfoldable pub send_loop :
      (fuel fails : ℕ) → Channel T 𝓠 → SendLocals → Option (Channel T 𝓠 × ListToken)
  unfolding send_round
  send_loop zero fails c l = none
  send_loop (suc fuel) fails c l = elim (send_round (ltb 0 fails) c l) [
    | again c' l' ↦ send_loop fuel (fails - 1) c' l'
    | returned c' token ↦ some (c', token)
    | fault ↦ none
  ]

  unfoldable pub start_send : (fuel fails : ℕ) → Channel T 𝓠 → Option (Channel T 𝓠 × ListToken)
  unfolding send_loop
  start_send fuel fails c =
      send_loop fuel fails c
        (record { tail = c.tail.index; block = c.tail.block; next_block = none })

  unfoldable pub write : Channel T 𝓠 → ListToken → T → Option (Channel T 𝓠 × Result (Unit {0}) T)
  write c list msg = elim list.block [
    | none ↦ some (c, err msg)
    | some b ↦ elim (slot_at c.store b list.offset) [
      | none ↦ none
      | some _ ↦ some (
        record c {
          store =
              change_slot b list.offset (λ s. record s { state = bit_or s.state write_bit })
                (change_slot b list.offset (λ s. record s { msg = some msg }) c.store);
          receivers = wake 𝓠 c.receivers;
        },
        ok tt,
      )
    ]
  ]

  -- `send` ignores its deadline; `start_send` returns true, as it asserts.
  unfoldable pub send :
      (fuel fails : ℕ)
      → Channel T 𝓠
      → T
      → Option (Channel T 𝓠 × Result (Unit {0}) (SendTimeoutError T))
  unfolding start_send write
  send fuel fails c msg = elim (start_send fuel fails c) [
    | none ↦ none
    | some (c', list) ↦ elim (write c' list msg) [
      | none ↦ none
      | some (c'', res) ↦ some (c'', map_err SendTimeoutError.disconnected res)
    ]
  ]

  -- `none` is `unreachable!`.
  unfoldable pub try_send_result :
      Result (Unit {0}) (SendTimeoutError T) → Option (Result (Unit {0}) (TrySendError T))
  try_send_result (ok u) = some (ok u)
  try_send_result (err (SendTimeoutError.disconnected msg)) =
      some (err (record { kind = closed; value = msg }))
  try_send_result (err (SendTimeoutError.timeout msg)) = none

  unfoldable pub try_send :
      (fuel fails : ℕ) → Channel T 𝓠 → T → Option (Channel T 𝓠 × Result (Unit {0}) (TrySendError T))
  unfolding send try_send_result
  try_send fuel fails c msg = elim (send fuel fails c msg) [
    | none ↦ none
    | some (c', res) ↦ elim (try_send_result res) [ none ↦ none | some r ↦ some (c', r) ]
  ]

  -- The match of the `Sink`'s `start_send`; `none` is `unreachable!`.
  unfoldable pub sink_result :
      Result (Unit {0}) (TrySendError T) → Option (Result (AsyncSink T) SendError)
  sink_result (ok _) = some (ok AsyncSink.ready)
  sink_result (err e) = if is_closed e then some (err send_error) else none

  unfoldable pub sink_start_send :
      (fuel fails : ℕ) → Channel T 𝓠 → T → Option (Channel T 𝓠 × Result (AsyncSink T) SendError)
  unfolding try_send sink_result
  sink_start_send fuel fails c item = elim (try_send fuel fails c item) [
    | none ↦ none
    | some (c', res) ↦ elim (sink_result res) [ none ↦ none | some r ↦ some (c', r) ]
  ]
