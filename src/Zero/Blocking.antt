-- ===== src/Zero/Blocking.antt =====
-- The operations of src/zero.rs that block: `_send` and `recv`.
-- What other threads do while the caller is blocked is an argument, `others`.
use zchan.Base.{ℕ, mapped, Option, none, some, if◌then◌else◌}
use zchan.Error.{Result, ok, err, SendTimeoutError, RecvTimeoutError}
use zchan.SerialWaker.Queue.{ArrayQueue}
use zchan.SerialWaker.{wake}
use zchan.Select.{Operation, Selected, waiting, aborted, disconnected, operation, hook}
use zchan.Context.{reset, wait_round}
use zchan.Waker.{Entry, update, register_with_packet, unregister}
use zchan.Zero.{
  Packet, empty_on_stack, message_on_stack, wait_ready_round, put, Channel, select_receiver,
  select_sender, write_unwrapped, read_or,
}

-- The calling thread: its id, its context, the address of its variable `zero`, and that of its packet.
pub record Caller : Type 0 where
  pub thread : ℕ
  pub cx : ℕ
  pub token : ℕ
  pub packet : ℕ

module _ (T : Type 0) (𝓠 : ArrayQueue) where
  -- `msg.get().replace(None).unwrap()` of the caller's packet, which is then dropped.
  abbrev pub take_from : Caller → Channel T 𝓠 → Option (Packet T) → Option (Channel T 𝓠 × T)
  take_from me c none = none
  take_from me c (some p) =
      mapped (λ msg. (record c { packets = put c.packets me.packet none }, msg)) p.msg

  -- `wait_ready()` of the packet, with the rest of the call; `none` if the packet is not ready.
  abbrev pub once_ready {ℓ} : {R : Type ℓ} → Option (Packet T) → Option R → Option R
  once_ready none rest = none
  once_ready (some p) rest = if wait_ready_round p then rest else none

  -- The rest of `_send` once the wait gave a selection.
  unfoldable pub send_end :
      Caller
      → Operation
      → Selected
      → Channel T 𝓠
      → Option (Channel T 𝓠 × Result (Unit {0}) (SendTimeoutError T))
  send_end me oper waiting c = none
  send_end me oper aborted c = none
  send_end me oper disconnected c =
      let (waker, found) = unregister c.inner.senders oper in
      elim found [
        | none ↦ none
        | some _ ↦
            mapped (λ r. (r.0, err (SendTimeoutError.disconnected r.1)))
              (take_from me (record c { inner = record c.inner { senders = waker } })
                (c.packets me.packet))
      ]
  send_end me oper (operation _) c =
      once_ready (c.packets me.packet)
        (some (record c { packets = put c.packets me.packet none }, ok tt))

  -- The registration of a sender, with its message in its packet.
  unfoldable pub send_registered : Caller → Operation → T → Channel T 𝓠 → Channel T 𝓠
  send_registered me oper msg c = record c {
    inner = record c.inner { senders = register_with_packet c.inner.senders oper me.packet me.cx };
    receivers = wake 𝓠 c.receivers;
    contexts = update c.contexts me.cx (reset (c.contexts me.cx));
    packets = put c.packets me.packet (some (message_on_stack msg));
  }

  -- The wait, and what follows it; `none` is a wait that nothing ends.
  unfoldable pub send_woken :
      Caller
      → Operation
      → Channel T 𝓠
      → Option (Channel T 𝓠 × Result (Unit {0}) (SendTimeoutError T))
  unfolding send_end
  send_woken me oper c = elim (wait_round (c.contexts me.cx)) [
    | none ↦ none
    | some sel ↦ send_end me oper sel c
  ]

  -- The closure of `_send`, which `Context::with` runs on the thread's context, reset.
  unfoldable pub send_blocking :
      (Channel T 𝓠 → Channel T 𝓠)
      → Caller
      → T
      → Channel T 𝓠
      → Option (Channel T 𝓠 × Result (Unit {0}) (SendTimeoutError T))
  unfolding send_registered send_woken
  send_blocking others me msg c = elim (hook me.token) [
    | none ↦ none
    | some oper ↦ send_woken me oper (others (send_registered me oper msg c))
  ]

  -- The rest of `_send`, after the selection of a receiver.
  unfoldable pub send_found :
      (Channel T 𝓠 → Channel T 𝓠)
      → Caller
      → T
      → Channel T 𝓠 × Option Entry
      → Option (Channel T 𝓠 × Result (Unit {0}) (SendTimeoutError T))
  unfolding send_blocking
  send_found others me msg (c, some e) = write_unwrapped T 𝓠 e.packet msg c
  send_found others me msg (c, none) =
      if c.inner.is_disconnected
      then some (c, err (SendTimeoutError.disconnected msg))
      else send_blocking others me msg c

  -- `_send`
  unfoldable pub send :
      (Channel T 𝓠 → Channel T 𝓠)
      → Caller
      → T
      → Channel T 𝓠
      → Option (Channel T 𝓠 × Result (Unit {0}) (SendTimeoutError T))
  unfolding send_found
  send others me msg c = send_found others me msg (select_receiver T 𝓠 me.thread c)

  -- The rest of `recv` once the wait gave a selection.
  unfoldable pub recv_end :
      Caller → Operation → Selected → Channel T 𝓠 → Option (Channel T 𝓠 × Result T RecvTimeoutError)
  recv_end me oper waiting c = none
  recv_end me oper aborted c = none
  recv_end me oper disconnected c =
      let (waker, found) = unregister c.inner.receivers oper in
      elim found [
        | none ↦ none
        | some _ ↦ some (
          record c {
            inner = record c.inner { receivers = waker };
            packets = put c.packets me.packet none;
          },
          err RecvTimeoutError.disconnected,
        )
      ]
  recv_end me oper (operation _) c =
      once_ready (c.packets me.packet)
        (mapped (λ r. (r.0, ok r.1)) (take_from me c (c.packets me.packet)))

  -- The registration of a receiver, with an empty packet.
  unfoldable pub recv_registered : Caller → Operation → Channel T 𝓠 → Channel T 𝓠
  recv_registered me oper c = record c {
    inner = record c.inner {
      receivers = register_with_packet c.inner.receivers oper me.packet me.cx;
    };
    senders = wake 𝓠 c.senders;
    contexts = update c.contexts me.cx (reset (c.contexts me.cx));
    packets = put c.packets me.packet (some empty_on_stack);
  }

  unfoldable pub recv_woken :
      Caller → Operation → Channel T 𝓠 → Option (Channel T 𝓠 × Result T RecvTimeoutError)
  unfolding recv_end
  recv_woken me oper c = elim (wait_round (c.contexts me.cx)) [
    | none ↦ none
    | some sel ↦ recv_end me oper sel c
  ]

  -- The closure of `recv`.
  unfoldable pub recv_blocking :
      (Channel T 𝓠 → Channel T 𝓠)
      → Caller
      → Channel T 𝓠
      → Option (Channel T 𝓠 × Result T RecvTimeoutError)
  unfolding recv_registered recv_woken
  recv_blocking others me c = elim (hook me.token) [
    | none ↦ none
    | some oper ↦ recv_woken me oper (others (recv_registered me oper c))
  ]

  -- The rest of `recv`, after the selection of a sender.
  unfoldable pub recv_found :
      (Channel T 𝓠 → Channel T 𝓠)
      → Caller
      → Channel T 𝓠 × Option Entry
      → Option (Channel T 𝓠 × Result T RecvTimeoutError)
  unfolding recv_blocking
  recv_found others me (c, some e) = read_or T 𝓠 RecvTimeoutError.disconnected e.packet c
  recv_found others me (c, none) =
      if c.inner.is_disconnected
      then some (c, err RecvTimeoutError.disconnected)
      else recv_blocking others me c

  unfoldable pub recv :
      (Channel T 𝓠 → Channel T 𝓠)
      → Caller
      → Channel T 𝓠
      → Option (Channel T 𝓠 × Result T RecvTimeoutError)
  unfolding recv_found
  recv others me c = recv_found others me (select_sender T 𝓠 me.thread c)
