-- ===== src/Zero/Poll.antt =====
-- The `Stream` of src/zero.rs: its first poll blocks.
use zchan.Base.{
  refl, ◌∙◌, ap, ◌<◌, ◌≡◌, Bool, true, false, Option, none, some, mapped, if◌then◌else◌,
}
use zchan.Error.{Result, ok, err, RecvTimeoutError, TryRecvError, Async}
use zchan.SerialWaker.Queue.{ArrayQueue}
use zchan.SerialWaker.{register}
use zchan.Select.{Operation}
use zchan.Context.{wait_round}
use zchan.Zero.{Channel, select_sender, try_recv, try_recv_found}
use zchan.Zero.Blocking.{Caller, recv_woken, recv_registered, recv}
use zchan.Zero.Tokio.{recv_polled, poll_recv, poll_later, poll_found, poll}
use zchan.Context.{reset}
use zchan.Zero.Timely.{Timely, recv_found-Timely, Fresh, try_recv_found-Fresh}
use zchan.Zero.Wait.{hook_lem, NoSender, recv-blocks, recv_blocking-hooked, select_sender-nobody}
use zchan.Zero.Meet.{oper_of, entered_lem}

if_true {ℓ} : {A : Type ℓ} (b : Bool) (x y z : A) → b ≡ true → x ≡ z → (if b then x else y) ≡ z
if_true true x y z e same = same
if_true false x y z e same = absurd cc

module _ {T : Type 0} {𝓠 : ArrayQueue} where
  -- A result of `poll` that is not the reply that it is not ready.
  abbrev pub Settled : Option (Channel T 𝓠 × Async (Option T)) → Type 0
  Settled none = Unit
  Settled (some (c, Async.ready t)) = Unit
  Settled (some (c, Async.not_ready)) = ⊥

  polled-Settled :
      (o : Option (Channel T 𝓠 × Result T RecvTimeoutError))
      → Timely o
      → Settled (mapped (λ r. (r.0, recv_polled T 𝓠 r.1)) o)
  polled-Settled none h = tt
  polled-Settled (some (c, ok t)) h = tt
  polled-Settled (some (c, err RecvTimeoutError.timeout)) h = h
  polled-Settled (some (c, err RecvTimeoutError.disconnected)) h = tt

  if_true-Settled :
      (b : Bool) (x y : Option (Channel T 𝓠 × Async (Option T)))
      → b ≡ true
      → Settled x
      → Settled (if b then x else y)
  if_true-Settled true x y e h = h
  if_true-Settled false x y e h = absurd cc

  poll_later-Settled :
      (others : Channel T 𝓠 → Channel T 𝓠) (me : Caller) (task : 𝓠.Task) (c : Channel T 𝓠)
      → c.first ≡ true
      → Settled (poll_later T 𝓠 others me task c)
  unfolding poll_later poll_recv recv
  poll_later-Settled others me task c first = if_true-Settled c.first _ _ first (
      polled-Settled _ (
        recv_found-Timely others me (
          select_sender T 𝓠 me.thread
            (record c { receivers = register 𝓠 c.receivers task; first = false }))))

  poll_found-Settled :
      (others : Channel T 𝓠 → Channel T 𝓠) (me : Caller) (task : 𝓠.Task)
      → (o : Option (Channel T 𝓠 × Result T TryRecvError)) → Fresh o
      → Settled (poll_found T 𝓠 others me task o)
  unfolding poll_found
  poll_found-Settled others me task none h = tt
  poll_found-Settled others me task (some (c, ok t)) h = tt
  poll_found-Settled others me task (some (c, err TryRecvError.empty)) h =
      poll_later-Settled others me task c h
  poll_found-Settled others me task (some (c, err TryRecvError.disconnected)) h = tt

  first_poll_settles :
      (others : Channel T 𝓠 → Channel T 𝓠) (me : Caller) (task : 𝓠.Task) (c : Channel T 𝓠)
      → c.first ≡ true
      → Settled (poll T 𝓠 others me task c)
  unfolding poll try_recv select_sender
  first_poll_settles others me task c first =
      poll_found-Settled others me task (try_recv T 𝓠 me.thread c)
        (try_recv_found-Fresh (select_sender T 𝓠 me.thread c) first)

  -- The state in which the polling thread calls `recv`.
  abbrev asked : 𝓠.Task → Channel T 𝓠 → Channel T 𝓠
  asked task c = record c { receivers = register 𝓠 c.receivers task; first = false }

  recv_woken-waiting :
      (me : Caller) (oper : Operation) (c : Channel T 𝓠)
      → wait_round (c.contexts me.cx) ≡ none
      → recv_woken T 𝓠 me oper c ≡ none
  unfolding recv_woken
  recv_woken-waiting me oper c waits = rw (recv_woken, waits) refl

  -- A receiver that nobody selects does not return.
  recv_woken-alone :
      (me : Caller) (c : Channel T 𝓠)
      → recv_woken T 𝓠 me (oper_of me) (recv_registered T 𝓠 me (oper_of me) c) ≡ none
  unfolding recv_registered wait_round reset
  recv_woken-alone me c =
      recv_woken-waiting me (oper_of me) (recv_registered T 𝓠 me (oper_of me) c)
        (ap wait_round (entered_lem me c))

  poll_later-alone :
      (me : Caller) (task : 𝓠.Task) (c : Channel T 𝓠)
      → c.first ≡ true
      → c.inner.is_disconnected ≡ false
      → NoSender me.thread c
      → 2 < me.token
      → poll_later T 𝓠 (λ d. d) me task c ≡ none
  unfolding poll_later poll_recv
  poll_later-alone me task c first alive nobody big = if_true c.first _ _ _ first (
      ap (mapped (λ r. (r.0, recv_polled T 𝓠 r.1))) (
        recv-blocks (λ d. d) me (asked task c) nobody alive
        ∙ recv_blocking-hooked (λ d. d) me (oper_of me) (asked task c) (hook_lem me.token big)
        ∙ recv_woken-alone me (asked task c)))

  -- On a connected channel on which no sender waits, the first poll of the `Stream` blocks: whatever
  -- other threads do, it never returns that it is not ready, and if they do nothing, it never returns.
  -- (The address of the caller's variable `zero` stands for no state of a selection.)
  pub first_poll_blocks :
      (others : Channel T 𝓠 → Channel T 𝓠) (me : Caller) (task : 𝓠.Task) (c : Channel T 𝓠)
      → c.first ≡ true
      → c.inner.is_disconnected ≡ false
      → NoSender me.thread c
      → 2 < me.token
      → Settled (poll T 𝓠 others me task c) × (poll T 𝓠 (λ d. d) me task c ≡ none)
  unfolding poll try_recv try_recv_found poll_found
  first_poll_blocks others me task c first alive nobody big = (
    first_poll_settles others me task c first,
    ap (poll_found T 𝓠 (λ d. d) me task) (
          ap (try_recv_found T 𝓠) (select_sender-nobody me.thread c nobody)
          ∙ ap
              (λ b.
                if b
                then some (c, err TryRecvError.disconnected)
                else some (c, err TryRecvError.empty))
              alive)
        ∙ poll_later-alone me task c first alive nobody big,
  )
