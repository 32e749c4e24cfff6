-- ===== src/Zero/Shut.antt =====
-- `shutdown` of src/zero.rs while a thread is blocked on the channel.
use zchan.Base.{
  ℕ, ◌<◌, ◌≡◌, refl, ap, ◌∙◌, mapped, Bool, true, false, ◌||◌, Option, none, some, List, [], ◌∷◌,
  ◌++◌, ◌==◌, eq→==, if◌then◌else◌,
}
use zchan.Error.{Result, err, SendTimeoutError, RecvTimeoutError}
use zchan.SerialWaker.Queue.{ArrayQueue}
use zchan.Select.{Operation, disconnected, from}
use zchan.Context.{Inner, reset, wait_round, is_waiting}
use zchan.Waker.{Entry, Waker, disconnect, register_with_packet}
use zchan.Waker.Laws.{any, concerns, unregister-register_with_packet}
use zchan.Waker.Disconnect.{disconnect_both}
use zchan.Zero.{message_on_stack, put, Channel, shutdown}
use zchan.Zero.Blocking.{
  Caller, take_from, send_end, send_registered, send_woken, send, recv_end, recv_registered,
  recv_woken, recv,
}
use zchan.Zero.Wait.{
  put-same, hook_lem, NoSender, NoReceiver, recv-blocks, send-blocks, recv_blocking-hooked,
  send_blocking-hooked, recv_woken-selected, send_woken-selected,
}
use zchan.Zero.Meet.{oper_of, entry_of, entered, entered_lem}

wait_round-disconnected : (i : Inner) → i.select ≡ 2 → wait_round i ≡ some disconnected
unfolding wait_round
wait_round-disconnected i e = ap (λ (n : ℕ). if is_waiting (from n) then none else some (from n)) e

any-last :
    (p : Entry → Bool) (es : List Entry) (e : Entry) → p e ≡ true → any p (es ++ (e ∷ [])) ≡ true
any-last p [] e h = ap (λ b. b || false) h
any-last p (x ∷ es) e h = by_first (p x) (any-last p es e h)
  where
    by_first : (b : Bool) → any p (es ++ (e ∷ [])) ≡ true → (b || any p (es ++ (e ∷ []))) ≡ true
    by_first true later = refl
    by_first false later = later

or_true : (a b : Bool) → b ≡ true → (a || b) ≡ true
or_true true b e = refl
or_true false b e = e

or_left : (a b : Bool) → a ≡ true → (a || b) ≡ true
or_left a b e = ap (λ t. t || b) e

module _ {T : Type 0} {𝓠 : ArrayQueue} where
  -- What another thread's `shutdown` leaves.
  abbrev pub after_shutdown : Channel T 𝓠 → Channel T 𝓠
  after_shutdown c = (shutdown T 𝓠 c).0

  abbrev shut : Channel T 𝓠 → Channel T 𝓠
  shut c = record c {
    inner = record c.inner { is_disconnected = true };
    contexts = disconnect (disconnect c.contexts c.inner.senders) c.inner.receivers;
  }

  after_shutdown_lem :
      (c : Channel T 𝓠) → c.inner.is_disconnected ≡ false → after_shutdown c ≡ shut c
  unfolding shutdown
  after_shutdown_lem c alive =
      ap (λ b. (if◌then◌else◌ {A = Channel T 𝓠 × Bool} b (c, false) (shut c, true)).0) alive

  module _ (me : Caller) (c : Channel T 𝓠) (msg : T) (big : 2 < me.token)
      (alive : c.inner.is_disconnected ≡ false) where
    abbrev oper : Operation
    oper = oper_of me

    abbrev receiving : Channel T 𝓠
    receiving = recv_registered T 𝓠 me oper c

    abbrev sending : Channel T 𝓠
    sending = send_registered T 𝓠 me oper msg c

    waits : ((entered me c).contexts me.cx).select ≡ 0
    unfolding reset
    waits = ap (λ (i : Inner). i.select) (entered_lem me c)

    receiver-cut : ((shut receiving).contexts me.cx).select ≡ 2
    unfolding recv_registered register_with_packet
    receiver-cut =
        disconnect_both (entered me c).contexts c.inner.senders
          (register_with_packet c.inner.receivers oper me.packet me.cx) me.cx waits
          (or_true (any (λ e. e.cx == me.cx) c.inner.senders.selectors) _ (
            any-last (λ e. e.cx == me.cx) c.inner.receivers.selectors (entry_of me)
              (eq→== me.cx me.cx refl)))

    sender-cut : ((shut sending).contexts me.cx).select ≡ 2
    unfolding send_registered register_with_packet
    sender-cut =
        disconnect_both (entered me c).contexts
          (register_with_packet c.inner.senders oper me.packet me.cx) c.inner.receivers me.cx waits
          (or_left _ (any (λ e. e.cx == me.cx) c.inner.receivers.selectors) (
            any-last (λ e. e.cx == me.cx) c.inner.senders.selectors (entry_of me)
              (eq→== me.cx me.cx refl)))

    -- What is left once the caller has returned.
    abbrev receiver_left : Channel T 𝓠
    receiver_left = record (shut receiving) {
      inner = record (shut receiving).inner { receivers = c.inner.receivers };
      packets = put receiving.packets me.packet none;
    }

    abbrev sender_left : Channel T 𝓠
    sender_left = record (shut sending) {
      inner = record (shut sending).inner { senders = c.inner.senders };
      packets = put sending.packets me.packet none;
    }

    recv_end-shut :
        any (concerns oper) c.inner.receivers.selectors ≡ false
        → recv_end T 𝓠 me oper disconnected (shut receiving)
          ≡ some (receiver_left, err RecvTimeoutError.disconnected)
    unfolding recv_end recv_registered
    recv_end-shut fresh_oper =
        ap
          (λ (r : Waker × Option Entry).
            elim r.1 as (λ _. Option (Channel T 𝓠 × Result T RecvTimeoutError)) [
              | none ↦ none
              | some _ ↦ some (
                record (shut receiving) {
                  inner = record (shut receiving).inner { receivers = r.0 };
                  packets = put receiving.packets me.packet none;
                },
                err RecvTimeoutError.disconnected,
              )
            ])
          (unregister-register_with_packet c.inner.receivers oper me.packet me.cx fresh_oper)

    send_end-shut :
        any (concerns oper) c.inner.senders.selectors ≡ false
        → send_end T 𝓠 me oper disconnected (shut sending)
          ≡ some (sender_left, err (SendTimeoutError.disconnected msg))
    unfolding send_end send_registered
    send_end-shut fresh_oper =
        ap
          (λ (r : Waker × Option Entry).
            elim r.1 as (λ _. Option (Channel T 𝓠 × Result (Unit {0}) (SendTimeoutError T))) [
              | none ↦ none
              | some _ ↦
                  mapped (λ m. (m.0, err (SendTimeoutError.disconnected m.1)))
                    (take_from T 𝓠 me
                      (record (shut sending) {
                        inner = record (shut sending).inner { senders = r.0 };
                      })
                      (sending.packets me.packet))
            ])
          (unregister-register_with_packet c.inner.senders oper me.packet me.cx fresh_oper)
        ∙ ap
            (λ p.
              mapped (λ m. (m.0, err (SendTimeoutError.disconnected m.1)))
                (take_from T 𝓠 me
                  (record (shut sending) {
                    inner = record (shut sending).inner { senders = c.inner.senders };
                  })
                  p))
            (put-same c.packets me.packet (some (message_on_stack msg)))

    recv-shut :
        NoSender me.thread c
        → any (concerns oper) c.inner.receivers.selectors ≡ false
        → recv T 𝓠 after_shutdown me c ≡ some (receiver_left, err RecvTimeoutError.disconnected)
    unfolding recv_registered
    recv-shut no_sender fresh_oper =
        recv-blocks after_shutdown me c no_sender alive
        ∙ recv_blocking-hooked after_shutdown me oper c (hook_lem me.token big)
        ∙ ap (recv_woken T 𝓠 me oper) (after_shutdown_lem receiving alive)
        ∙ recv_woken-selected me oper disconnected (shut receiving)
            (wait_round-disconnected ((shut receiving).contexts me.cx) receiver-cut)
        ∙ recv_end-shut fresh_oper

    send-shut :
        NoReceiver me.thread c
        → any (concerns oper) c.inner.senders.selectors ≡ false
        → send T 𝓠 after_shutdown me msg c
          ≡ some (sender_left, err (SendTimeoutError.disconnected msg))
    unfolding send_registered
    send-shut no_receiver fresh_oper =
        send-blocks after_shutdown me msg c no_receiver alive
        ∙ send_blocking-hooked after_shutdown me oper msg c (hook_lem me.token big)
        ∙ ap (send_woken T 𝓠 me oper) (after_shutdown_lem sending alive)
        ∙ send_woken-selected me oper disconnected (shut sending)
            (wait_round-disconnected ((shut sending).contexts me.cx) sender-cut)
        ∙ send_end-shut fresh_oper

  -- A `shutdown` by another thread ends a blocked `recv` and a blocked `_send`: `recv` returns that the
  -- channel is disconnected, and `_send` the same with its message; each of them takes its entry out of
  -- the queue and leaves no packet of its own. (The calls find the channel connected and no partner, no
  -- earlier entry has the address of the caller's variable `zero`, and that address stands for no state
  -- of a selection.)
  pub shutdown_unblocks :
      (me : Caller) (c : Channel T 𝓠) (msg : T)
      → 2 < me.token
      → c.inner.is_disconnected ≡ false
      → NoSender me.thread c
      → NoReceiver me.thread c
      → any (concerns (oper_of me)) c.inner.receivers.selectors ≡ false
      → any (concerns (oper_of me)) c.inner.senders.selectors ≡ false
      → (received : Channel T 𝓠) × (sent : Channel T 𝓠) × (recv T 𝓠 after_shutdown me c
          ≡ some (received, err RecvTimeoutError.disconnected))
        × (send T 𝓠 after_shutdown me msg c ≡ some (sent, err (SendTimeoutError.disconnected msg)))
        × (received.inner ≡ record c.inner { is_disconnected = true })
        × (sent.inner ≡ record c.inner { is_disconnected = true })
        × (received.packets me.packet ≡ none)
        × (sent.packets me.packet ≡ none)
  unfolding recv_registered send_registered
  shutdown_unblocks me c msg big alive no_sender no_receiver fresh_recv fresh_send = (
    receiver_left me c msg big alive,
    sender_left me c msg big alive,
    recv-shut me c msg big alive no_sender fresh_recv,
    send-shut me c msg big alive no_receiver fresh_send,
    refl,
    refl,
    put-same (recv_registered T 𝓠 me (oper_of me) c).packets me.packet none,
    put-same (send_registered T 𝓠 me (oper_of me) msg c).packets me.packet none,
  )
