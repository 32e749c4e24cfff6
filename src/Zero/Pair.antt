-- ===== src/Zero/Pair.antt =====
-- A message passes from a thread to another through a channel of src/zero.rs: whichever of them comes
-- first blocks, and the other one finds it.
use zchan.Base.{ℕ, ◌<◌, ◌≡◌, ◌≢◌, refl, ap, ◌∙◌, true, false, Option, none, some, arith}
use zchan.Error.{ok, TryRecvError}
use zchan.SerialWaker.Queue.{ArrayQueue}
use zchan.Select.{operation}
use zchan.Context.{Inner, wait_round}
use zchan.Waker.{Entry, Waker, Store}
use zchan.Zero.{
  empty_on_stack, message_on_stack, put, Channel, select_receiver, select_sender, try_send,
  try_send_found, try_recv, try_recv_found,
}
use zchan.Zero.Blocking.{
  Caller, send_registered, send_woken, send, recv_registered, recv_woken, recv,
}
use zchan.Zero.Wait.{
  put-same, hook_lem, wait_round-operation, NoSender, NoReceiver, recv-blocks, send-blocks,
  recv_blocking-hooked, send_blocking-hooked, recv_woken-selected, send_woken-selected,
}
use zchan.Zero.Meet.{
  after_try_send, after_try_recv, written, emptied, write_unwrapped_lem, read_or_lem,
  recv_end-ready, send_end-ready, oper_of, entered, chosen_contexts, try_select_entry-me,
  chosen_select,
}

module _ {T : Type 0} {𝓠 : ArrayQueue} where
  module _ (me : Caller) (other : ℕ) (c : Channel T 𝓠) (msg : T)
      (mine : (c.contexts me.cx).thread_id ≡ me.thread) (apart : other ≢ me.thread)
      (big : 2 < me.token) (there : me.packet ≢ 0) where
    -- A wait that ends because the caller's operation was selected.
    woken : (i : Inner) → i.select ≡ me.token → wait_round i ≡ some (operation (oper_of me))
    woken i e =
        wait_round-operation i (omega (arith, e, big))
        ∙ ap (λ (n : ℕ). some (operation (record { address = n }))) e

    abbrev receiving : Channel T 𝓠
    receiving = recv_registered T 𝓠 me (oper_of me) c

    -- The channel, once the other thread has selected the receiver.
    abbrev receiver_chosen : Channel T 𝓠
    receiver_chosen = record receiving {
      contexts = chosen_contexts me other c;
      inner = record receiving.inner { receivers = c.inner.receivers };
    }

    abbrev receiver_given : Channel T 𝓠
    receiver_given = written me.packet empty_on_stack msg receiver_chosen

    try_send-receiving :
        NoReceiver other (entered me c)
        → try_send T 𝓠 other msg receiving ≡ some (receiver_given, ok tt)
    unfolding try_send try_send_found select_receiver recv_registered
    try_send-receiving nobody =
        ap
          (λ (r : Store × Waker × Option Entry). try_send_found T 𝓠 msg (
            record receiving { contexts = r.0; inner = record receiving.inner { receivers = r.1 } },
            r.2,
          ))
          (try_select_entry-me me other c mine apart c.inner.receivers nobody)
        ∙ write_unwrapped_lem me.packet empty_on_stack msg receiver_chosen there
            (put-same c.packets me.packet (some empty_on_stack))

    recv-given :
        NoReceiver other (entered me c)
        → NoSender me.thread c
        → c.inner.is_disconnected ≡ false
        → recv T 𝓠 (after_try_send other msg) me c
          ≡ some (
            record receiver_given { packets = put receiver_given.packets me.packet none },
            ok msg,
          )
    recv-given nobody no_sender alive =
        recv-blocks (after_try_send other msg) me c no_sender alive
        ∙ recv_blocking-hooked (after_try_send other msg) me (oper_of me) c (hook_lem me.token big)
        ∙ ap (λ o. recv_woken T 𝓠 me (oper_of me) (elim o [ none ↦ receiving | some (c', _) ↦ c' ]))
            (try_send-receiving nobody)
        ∙ recv_woken-selected me (oper_of me) (operation (oper_of me)) receiver_given
            (woken (receiver_given.contexts me.cx) (chosen_select me other c mine apart))
        ∙ recv_end-ready me (oper_of me) (oper_of me)
            (record { on_stack = true; ready = true; msg = some msg }) msg receiver_given
            (put-same receiver_chosen.packets me.packet _) refl refl

    abbrev sending : Channel T 𝓠
    sending = send_registered T 𝓠 me (oper_of me) msg c

    -- The channel, once the other thread has selected the sender.
    abbrev sender_chosen : Channel T 𝓠
    sender_chosen = record sending {
      contexts = chosen_contexts me other c;
      inner = record sending.inner { senders = c.inner.senders };
    }

    abbrev sender_done : Channel T 𝓠
    sender_done = emptied me.packet (message_on_stack msg) sender_chosen

    try_recv-sending :
        NoSender other (entered me c) → try_recv T 𝓠 other sending ≡ some (sender_done, ok msg)
    unfolding try_recv try_recv_found select_sender send_registered
    try_recv-sending nobody =
        ap
          (λ (r : Store × Waker × Option Entry). try_recv_found T 𝓠 (
            record sending { contexts = r.0; inner = record sending.inner { senders = r.1 } },
            r.2,
          ))
          (try_select_entry-me me other c mine apart c.inner.senders nobody)
        ∙ read_or_lem TryRecvError.disconnected me.packet (message_on_stack msg) msg sender_chosen
            there (put-same c.packets me.packet (some (message_on_stack msg))) refl refl

    send-done :
        NoSender other (entered me c)
        → NoReceiver me.thread c
        → c.inner.is_disconnected ≡ false
        → send T 𝓠 (after_try_recv other) me msg c
          ≡ some (record sender_done { packets = put sender_done.packets me.packet none }, ok tt)
    send-done nobody no_receiver alive =
        send-blocks (after_try_recv other) me msg c no_receiver alive
        ∙ send_blocking-hooked (after_try_recv other) me (oper_of me) msg c (hook_lem me.token big)
        ∙ ap (λ o. send_woken T 𝓠 me (oper_of me) (elim o [ none ↦ sending | some (c', _) ↦ c' ]))
            (try_recv-sending nobody)
        ∙ send_woken-selected me (oper_of me) (operation (oper_of me)) sender_done
            (woken (sender_done.contexts me.cx) (chosen_select me other c mine apart))
        ∙ send_end-ready me (oper_of me) (oper_of me)
            (record { on_stack = true; ready = true; msg = none }) sender_done
            (put-same sender_chosen.packets me.packet _) refl

  -- On a connected channel, a thread whose `recv` finds no sender blocks, and a `try_send` of another
  -- thread that no earlier receiver waits for succeeds and hands its message to it: `recv` returns
  -- that message and leaves the queues as they were and no packet of its own. (The receiver's context
  -- belongs to its thread, its packet is not at the null address, and its variable `zero` is not at
  -- one that stands for a state of a selection.)
  pub recv_meets_try_send :
      (me : Caller) (other : ℕ) (c : Channel T 𝓠) (msg : T)
      → (c.contexts me.cx).thread_id ≡ me.thread
      → other ≢ me.thread
      → 2 < me.token
      → me.packet ≢ 0
      → NoSender me.thread c
      → NoReceiver other (entered me c)
      → c.inner.is_disconnected ≡ false
      → (sent : Channel T 𝓠) × (left : Channel T 𝓠) × (try_send T 𝓠 other msg
            (recv_registered T 𝓠 me (oper_of me) c)
          ≡ some (sent, ok tt))
        × (recv T 𝓠 (after_try_send other msg) me c ≡ some (left, ok msg))
        × (left.inner ≡ c.inner)
        × (left.packets me.packet ≡ none)
  unfolding recv_registered
  recv_meets_try_send me other c msg mine apart big there no_sender nobody alive = (
    receiver_given me other c msg mine apart big there,
    _,
    try_send-receiving me other c msg mine apart big there nobody,
    recv-given me other c msg mine apart big there nobody no_sender alive,
    refl,
    put-same (receiver_given me other c msg mine apart big there).packets me.packet none,
  )

  -- On a connected channel, a thread whose `_send` finds no receiver blocks, and a `try_recv` of another
  -- thread that no earlier sender waits for takes its message: `_send` returns success and leaves the
  -- queues as they were and no packet of its own. (The sender's context belongs to its thread, its
  -- packet is not at the null address, and its variable `zero` is not at one that stands for a state of
  -- a selection.)
  pub send_meets_try_recv :
      (me : Caller) (other : ℕ) (c : Channel T 𝓠) (msg : T)
      → (c.contexts me.cx).thread_id ≡ me.thread
      → other ≢ me.thread
      → 2 < me.token
      → me.packet ≢ 0
      → NoReceiver me.thread c
      → NoSender other (entered me c)
      → c.inner.is_disconnected ≡ false
      → (taken : Channel T 𝓠) × (left : Channel T 𝓠) × (try_recv T 𝓠 other
            (send_registered T 𝓠 me (oper_of me) msg c)
          ≡ some (taken, ok msg))
        × (send T 𝓠 (after_try_recv other) me msg c ≡ some (left, ok tt))
        × (left.inner ≡ c.inner)
        × (left.packets me.packet ≡ none)
  unfolding send_registered
  send_meets_try_recv me other c msg mine apart big there no_receiver nobody alive = (
    sender_done me other c msg mine apart big there,
    _,
    try_recv-sending me other c msg mine apart big there nobody,
    send-done me other c msg mine apart big there nobody no_receiver alive,
    refl,
    put-same (sender_done me other c msg mine apart big there).packets me.packet none,
  )
