-- ===== src/Zero/Tokio.antt =====
-- The `Stream` and the `Sink` of src/zero.rs.
use zchan.Base.{mapped, false, Option, none, some, if◌then◌else◌}
use zchan.Error.{
  Result, ok, err, TrySendError, SendTimeoutError, RecvTimeoutError, TryRecvError, SendError,
  send_error, AsyncSink, Async, is_closed, is_full, into_inner,
}
use zchan.SerialWaker.Queue.{ArrayQueue}
use zchan.SerialWaker.{register, take_notification}
use zchan.Zero.{Channel, try_send, try_recv}
use zchan.Zero.Blocking.{Caller, send, recv}

module _ (T : Type 0) (𝓠 : ArrayQueue) where
  -- What `poll` makes of the reply of `recv`.
  abbrev pub recv_polled : Result T RecvTimeoutError → Async (Option T)
  recv_polled (ok t) = Async.ready (some t)
  recv_polled (err RecvTimeoutError.timeout) = Async.not_ready
  recv_polled (err RecvTimeoutError.disconnected) = Async.ready none

  -- The registration of the polling task, and the call of `recv`.
  unfoldable pub poll_recv :
      (Channel T 𝓠 → Channel T 𝓠)
      → Caller
      → 𝓠.Task
      → Channel T 𝓠
      → Option (Channel T 𝓠 × Async (Option T))
  unfolding recv
  poll_recv others me task c =
      mapped (λ r. (r.0, recv_polled r.1))
        (recv T 𝓠 others me (record c { receivers = register 𝓠 c.receivers task }))

  -- The rest of `poll` once `try_recv` found no sender.
  unfoldable pub poll_later :
      (Channel T 𝓠 → Channel T 𝓠)
      → Caller
      → 𝓠.Task
      → Channel T 𝓠
      → Option (Channel T 𝓠 × Async (Option T))
  unfolding poll_recv
  poll_later others me task c =
      if c.first
      then poll_recv others me task (record c { first = false })
      else let (w, took) = take_notification 𝓠 c.receivers in
        let noted : Channel T 𝓠 = record c { receivers = w } in
        if took then poll_recv others me task noted else some (noted, Async.not_ready)

  -- The rest of `poll`, with the result of `try_recv`.
  unfoldable pub poll_found :
      (Channel T 𝓠 → Channel T 𝓠)
      → Caller
      → 𝓠.Task
      → Option (Channel T 𝓠 × Result T TryRecvError)
      → Option (Channel T 𝓠 × Async (Option T))
  unfolding poll_later
  poll_found others me task none = none
  poll_found others me task (some (c, ok t)) = some (c, Async.ready (some t))
  poll_found others me task (some (c, err TryRecvError.empty)) = poll_later others me task c
  poll_found others me task (some (c, err TryRecvError.disconnected)) = some (c, Async.ready none)

  -- `Stream::poll`, called by the given task.
  unfoldable pub poll :
      (Channel T 𝓠 → Channel T 𝓠)
      → Caller
      → 𝓠.Task
      → Channel T 𝓠
      → Option (Channel T 𝓠 × Async (Option T))
  unfolding poll_found
  poll others me task c = poll_found others me task (try_recv T 𝓠 me.thread c)

  -- What the `Sink` makes of the reply of `_send`.
  abbrev pub send_sunk : Result (Unit {0}) (SendTimeoutError T) → Result (AsyncSink T) SendError
  send_sunk (ok _) = ok AsyncSink.ready
  send_sunk (err _) = err send_error

  -- The `Sink`'s match of an error of `try_send`; the last `none` is `unreachable!`.
  unfoldable pub sink_again :
      (Channel T 𝓠 → Channel T 𝓠)
      → Caller
      → 𝓠.Task
      → TrySendError T
      → Channel T 𝓠
      → Option (Channel T 𝓠 × Result (AsyncSink T) SendError)
  unfolding send
  sink_again others me task e c =
      if is_closed e
      then some (c, err send_error)
      else if is_full e
      then elim (send T 𝓠 others me (into_inner e)
          (record c { senders = register 𝓠 c.senders task })) [
            | none ↦ none
            | some (c', res) ↦ some (c', send_sunk res)
          ]
      else none

  unfoldable pub sink_start_send :
      (Channel T 𝓠 → Channel T 𝓠)
      → Caller
      → 𝓠.Task
      → T
      → Channel T 𝓠
      → Option (Channel T 𝓠 × Result (AsyncSink T) SendError)
  unfolding sink_again
  sink_start_send others me task item c = elim (try_send T 𝓠 me.thread item c) [
    | none ↦ none
    | some (c', ok _) ↦ some (c', ok AsyncSink.ready)
    | some (c', err e) ↦ sink_again others me task e c'
  ]
