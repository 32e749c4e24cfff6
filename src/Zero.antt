-- ===== src/Zero.antt =====
-- The channel without capacity of src/zero.rs: packets, the state, and the operations that do not
-- block. The packets of all threads are a memory with addresses, the contexts of all threads a store.
-- A critical section under the spinlock is one function; a result `none` is a panic, an access of
-- memory without a packet, or a wait that nothing will end.
pub mod Blocking
pub mod Tokio
pub mod Wait
pub mod Meet
pub mod Pair
pub mod Shut
pub mod Alone
pub mod Timely
pub mod Poll
use zchan.Base.{ℕ, Bool, true, false, Option, none, some, ◌==◌, if◌then◌else◌}
use zchan.Error.{Result, ok, err, map_err, TrySendError, closed, no_capacity, TryRecvError}
use zchan.SerialWaker.Queue.{ArrayQueue}
use zchan.SerialWaker.{AtomicSerialWaker, new_waker, wake}
use zchan.Waker
use zchan.Waker.{Entry, Waker, Store, try_select_entry, disconnect}

pub record Packet (T : Type 0) : Type 0 where
  pub on_stack : Bool
  pub ready : Bool
  pub msg : Option T

module _ {T : Type 0} where
  abbrev pub empty_on_stack : Packet T
  empty_on_stack = record { on_stack = true; ready = false; msg = none }

  abbrev pub empty_on_heap : Packet T
  empty_on_heap = record { on_stack = false; ready = false; msg = none }

  abbrev pub message_on_stack : T → Packet T
  message_on_stack msg = record { on_stack = true; ready = false; msg = some msg }

  -- One round of `wait_ready`; false is another round.
  abbrev pub wait_ready_round : Packet T → Bool
  wait_ready_round p = p.ready

  -- The memory of packets, with the packet at an address, or without one.
  abbrev pub put : (ℕ → Option (Packet T)) → ℕ → Option (Packet T) → ℕ → Option (Packet T)
  put m at p = λ (a : ℕ). if a == at then p else m a

-- The state under the spinlock.
pub record Inner : Type 0 where
  pub senders : Waker
  pub receivers : Waker
  pub is_disconnected : Bool

module _ (T : Type 0) (𝓠 : ArrayQueue) where
  -- The channel, the contexts of the threads, and the packets.
  pub record Channel : Type 0 where
    pub inner : Inner
    pub senders : AtomicSerialWaker 𝓠
    pub receivers : AtomicSerialWaker 𝓠
    pub first : Bool
    pub contexts : Store
    pub packets : ℕ → Option (Packet T)

  -- `Channel::new`, among threads that have the given contexts and packets.
  unfoldable pub new : Store → (ℕ → Option (Packet T)) → Channel
  new contexts packets = record {
    inner = record { senders = Waker.new; receivers = Waker.new; is_disconnected = false };
    senders = new_waker 𝓠;
    receivers = new_waker 𝓠;
    first = true;
    contexts = contexts;
    packets = packets;
  }

  -- The token (`zero`) is the address of a packet, or 0.
  unfoldable pub write : (token : ℕ) → T → Channel → Option (Channel × Result (Unit {0}) T)
  write token msg c = if token == 0 then some (c, err msg) else elim (c.packets token) [
    | none ↦ none
    | some p ↦ some (
      record c {
        receivers = wake 𝓠 c.receivers;
        packets = put c.packets token (some (record p { msg = some msg; ready = true }));
      },
      ok tt,
    )
  ]

  -- The rest of `read`, with the packet: the message that was there from the beginning, or a wait for it.
  unfoldable pub read_packet :
      (token : ℕ) → Packet T → Channel → Option (Channel × Result T (Unit {0}))
  read_packet token p c = elim p.msg [
    | none ↦ none
    | some msg ↦
        if p.on_stack
        then some (
          record c { packets = put c.packets token (some (record p { msg = none; ready = true })) },
          ok msg,
        )
        else if wait_ready_round p
        then some (record c { packets = put c.packets token none }, ok msg)
        else none
  ]

  unfoldable pub read : (token : ℕ) → Channel → Option (Channel × Result T (Unit {0}))
  unfolding read_packet
  read token c = if token == 0 then some (c, err tt) else elim (c.packets token) [
    | none ↦ none
    | some p ↦ read_packet token p (record c { senders = wake 𝓠 c.senders })
  ]

  -- `inner.receivers.try_select()`, called by the thread `me`.
  unfoldable pub select_receiver : (me : ℕ) → Channel → Channel × Option Entry
  select_receiver me c =
      let (contexts, waker, found) = try_select_entry me c.contexts c.inner.receivers in
      (record c { contexts = contexts; inner = record c.inner { receivers = waker } }, found)

  -- `inner.senders.try_select()`
  unfoldable pub select_sender : (me : ℕ) → Channel → Channel × Option Entry
  select_sender me c =
      let (contexts, waker, found) = try_select_entry me c.contexts c.inner.senders in
      (record c { contexts = contexts; inner = record c.inner { senders = waker } }, found)

  -- `self.write(zero, msg).ok().unwrap()`
  unfoldable pub write_unwrapped {ℓ} :
      {E : Type ℓ} → (token : ℕ) → T → Channel → Option (Channel × Result (Unit {0}) E)
  unfolding write
  write_unwrapped token msg c = elim (write token msg c) [
    | none ↦ none
    | some (c', ok u) ↦ some (c', ok u)
    | some (c', err m) ↦ none
  ]

  -- The rest of `try_send`, after the selection of a receiver.
  unfoldable pub try_send_found :
      T → Channel × Option Entry → Option (Channel × Result (Unit {0}) (TrySendError T))
  unfolding write_unwrapped
  try_send_found msg (c, some e) = write_unwrapped e.packet msg c
  try_send_found msg (c, none) =
      if c.inner.is_disconnected
      then some (c, err (record { kind = closed; value = msg }))
      else some (c, err (record { kind = no_capacity; value = msg }))

  -- `try_send`, called by the thread `me`.
  unfoldable pub try_send :
      (me : ℕ) → T → Channel → Option (Channel × Result (Unit {0}) (TrySendError T))
  unfolding select_receiver try_send_found
  try_send me msg c = try_send_found msg (select_receiver me c)

  -- `self.read(zero).map_err(|_| ...)`
  unfoldable pub read_or {ℓ} :
      {E : Type ℓ} → E → (token : ℕ) → Channel → Option (Channel × Result T E)
  unfolding read
  read_or e token c = elim (read token c) [
    | none ↦ none
    | some (c', res) ↦ some (c', map_err (λ _. e) res)
  ]

  -- The rest of `try_recv`, after the selection of a sender.
  unfoldable pub try_recv_found : Channel × Option Entry → Option (Channel × Result T TryRecvError)
  unfolding read_or
  try_recv_found (c, some e) = read_or TryRecvError.disconnected e.packet c
  try_recv_found (c, none) =
      if c.inner.is_disconnected
      then some (c, err TryRecvError.disconnected)
      else some (c, err TryRecvError.empty)

  -- `try_recv`, called by the thread `me`.
  unfoldable pub try_recv : (me : ℕ) → Channel → Option (Channel × Result T TryRecvError)
  unfolding select_sender try_recv_found
  try_recv me c = try_recv_found (select_sender me c)

  abbrev pub len : Channel → ℕ
  len c = 0

  abbrev pub capacity : Channel → Option ℕ
  capacity c = some 0

  abbrev pub is_empty : Channel → Bool
  is_empty c = true

  abbrev pub is_full : Channel → Bool
  is_full c = true

  unfoldable pub shutdown : Channel → Channel × Bool
  shutdown c = if c.inner.is_disconnected then (c, false) else (
    record c {
      inner = record c.inner { is_disconnected = true };
      contexts = disconnect (disconnect c.contexts c.inner.senders) c.inner.receivers;
    },
    true,
  )

  abbrev pub is_shutdown : Channel → Bool
  is_shutdown c = c.inner.is_disconnected
