-- ===== src/Zero/Alone.antt =====
-- The operations of src/zero.rs while no other thread waits on the channel.
use zchan.Base.{
  ◌<◌, refl, ◌≡◌, ap, ◌∙◌, Bool, true, false, Bool-cases, inl, inr, none, some, if◌then◌else◌,
}
use zchan.Error.{err, closed, no_capacity, SendTimeoutError, RecvTimeoutError, TryRecvError}
use zchan.SerialWaker.Queue.{ArrayQueue}
use zchan.Select.{from}
use zchan.Context.{Inner, wait_round, is_waiting}
use zchan.Waker.{can_select}
use zchan.Waker.Laws.{any, eligible, any_selectable-any}
use zchan.Zero.{Channel, try_send, try_send_found, try_recv, try_recv_found}
use zchan.Zero.Blocking.{
  Caller, send, send_found, send_registered, send_woken, recv, recv_found, recv_registered,
  recv_woken,
}
use zchan.Zero.Wait.{
  NoSender, NoReceiver, select_sender-nobody, select_receiver-nobody, hook_lem, recv-blocks,
  send-blocks, recv_blocking-hooked, send_blocking-hooked,
}
use zchan.Zero.Meet.{oper_of}

wait_round-waits : (i : Inner) → i.select ≡ 0 → wait_round i ≡ none
unfolding wait_round
wait_round-waits i e = ap (λ n. if is_waiting (from n) then none else some (from n)) e

by_state {ℓ κ} :
    {A : Type ℓ} {B : Type κ} (f : A → B) (b : Bool) (x y : A)
    → (if b then f x else f y) ≡ f (if b then x else y)
by_state f true x y = refl
by_state f false x y = refl

module _ {T : Type 0} {𝓠 : ArrayQueue} where
  recv_woken-waits :
      (me : Caller) (c : Channel T 𝓠)
      → (c.contexts me.cx).select ≡ 0
      → recv_woken T 𝓠 me (oper_of me) c ≡ none
  unfolding recv_woken
  recv_woken-waits me c idle = rw (recv_woken, wait_round-waits (c.contexts me.cx) idle) refl

  send_woken-waits :
      (me : Caller) (c : Channel T 𝓠)
      → (c.contexts me.cx).select ≡ 0
      → send_woken T 𝓠 me (oper_of me) c ≡ none
  unfolding send_woken
  send_woken-waits me c idle = rw (send_woken, wait_round-waits (c.contexts me.cx) idle) refl

  module _ (c : Channel T 𝓠) (me : Caller) (msg : T) (others : Channel T 𝓠 → Channel T 𝓠) where
    recv-alone :
        2 < me.token
        → NoSender me.thread c
        → ((others (recv_registered T 𝓠 me (oper_of me) c)).contexts me.cx).select ≡ 0
        → recv T 𝓠 others me c
          ≡ (if c.inner.is_disconnected then some (c, err RecvTimeoutError.disconnected) else none)
    unfolding recv recv_found
    recv-alone big nobody idle = elim (Bool-cases c.inner.is_disconnected) [
      | inl shut ↦
          ap (recv_found T 𝓠 others me) (select_sender-nobody me.thread c nobody) ∙ rw shut refl
      | inr alive ↦
          recv-blocks others me c nobody alive
          ∙ recv_blocking-hooked others me (oper_of me) c (hook_lem me.token big)
          ∙ recv_woken-waits me (others (recv_registered T 𝓠 me (oper_of me) c)) idle
          ∙ rw alive refl
    ]

    send-alone :
        2 < me.token
        → NoReceiver me.thread c
        → ((others (send_registered T 𝓠 me (oper_of me) msg c)).contexts me.cx).select ≡ 0
        → send T 𝓠 others me msg c ≡ (
            if c.inner.is_disconnected
            then some (c, err (SendTimeoutError.disconnected msg))
            else none)
    unfolding send send_found
    send-alone big nobody idle = elim (Bool-cases c.inner.is_disconnected) [
      | inl shut ↦
          ap (send_found T 𝓠 others me msg) (select_receiver-nobody me.thread c nobody)
          ∙ rw shut refl
      | inr alive ↦
          send-blocks others me msg c nobody alive
          ∙ send_blocking-hooked others me (oper_of me) msg c (hook_lem me.token big)
          ∙ send_woken-waits me (others (send_registered T 𝓠 me (oper_of me) msg c)) idle
          ∙ rw alive refl
    ]

  -- If every entry of the two queues is of the caller's thread, or of a context for which something is
  -- selected already: `try_send` gives its message back, as closed or as there is no capacity, and
  -- `try_recv` returns that the channel is disconnected or empty; `recv` and `_send` return the same of
  -- a disconnected channel, and do not return from a connected one as long as the other threads select
  -- nothing for the caller's context. None of the calls that return changes anything. (The address of
  -- the caller's variable `zero` stands for no state of a selection, so that no assertion fails.)
  pub nobody_waits :
      (c : Channel T 𝓠) (me : Caller) (msg : T) (with_recv with_send : Channel T 𝓠 → Channel T 𝓠)
      → 2 < me.token
      → any (eligible me.thread c.contexts) c.inner.receivers.selectors ≡ false
      → any (eligible me.thread c.contexts) c.inner.senders.selectors ≡ false
      → ((with_recv (recv_registered T 𝓠 me (oper_of me) c)).contexts me.cx).select ≡ 0
      → ((with_send (send_registered T 𝓠 me (oper_of me) msg c)).contexts me.cx).select ≡ 0
      → (try_send T 𝓠 me.thread msg c
          ≡ some (
            c,
            err (record {
              kind = if c.inner.is_disconnected then closed else no_capacity;
              value = msg;
            }),
          ))
        × (try_recv T 𝓠 me.thread c
            ≡ some (
              c,
              err (
                  if c.inner.is_disconnected
                  then TryRecvError.disconnected
                  else TryRecvError.empty),
            ))
        × (recv T 𝓠 with_recv me c ≡ (
            if c.inner.is_disconnected then some (c, err RecvTimeoutError.disconnected) else none))
        × (send T 𝓠 with_send me msg c ≡ (
            if c.inner.is_disconnected
            then some (c, err (SendTimeoutError.disconnected msg))
            else none))
  unfolding try_send try_send_found try_recv try_recv_found can_select
  nobody_waits c me msg with_recv with_send big receivers senders recv_idle send_idle =
      let no_receiver : NoReceiver me.thread c =
        any_selectable-any me.thread c.contexts c.inner.receivers.selectors ∙ receivers in
      let no_sender : NoSender me.thread c =
        any_selectable-any me.thread c.contexts c.inner.senders.selectors ∙ senders in
      (
        ap (try_send_found T 𝓠 msg) (select_receiver-nobody me.thread c no_receiver)
            ∙ by_state (λ k. some (c, err (record { kind = k; value = msg })))
                c.inner.is_disconnected closed no_capacity,
        ap (try_recv_found T 𝓠) (select_sender-nobody me.thread c no_sender)
            ∙ by_state (λ e. some (c, err e)) c.inner.is_disconnected TryRecvError.disconnected
                TryRecvError.empty,
        recv-alone c me msg with_recv big no_sender recv_idle,
        send-alone c me msg with_send big no_receiver send_idle,
      )
