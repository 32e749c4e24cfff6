-- ===== src/Array/Tokio.antt =====
-- The `Sink` and `Stream` of src/array.rs, on a channel that implements a queue.
use zchan.Base.{
  ℕ, ◌+◌, ◌-◌, dec_lt, ◌*◌, ◌≤◌, ◌≡◌, refl, ap, ◌∙◌, Bool, true, false, Option, some, none, List,
  [], ◌∷◌, ltb, lt→ltb, le→ltb, if◌then◌else◌, arith,
}
use zchan.Error.{
  Result, ok, err, TrySendError, closed, no_capacity, ErrorKind, SendError, send_error, AsyncSink,
  Async, TryRecvError, kind_is_closed,
}
use zchan.SerialWaker.Queue.{ArrayQueue}
use zchan.SerialWaker.Wakeups.{take_notification-some, take_notification-none}
use zchan.SerialWaker.{register}
use zchan.Array.{Channel}
use zchan.Array.Send.{sink_result, sink_start_send}
use zchan.Array.Recv.{poll_or, poll_again, poll_later, poll}
use zchan.Array.Recv.Run.{start_recv-some, start_recv-empty, start_recv-closed}
use zchan.Array.Recv.Read.{received, received-Holds, poll_read-received, cap-received}
use zchan.Array.Inv.{Holds}
use zchan.Array.Spec
use zchan.Array.Spec.{Queue}
use zchan.Array.Refine.{Implements, Does, with_wakers, try_send_refines}

module _ {T : Type 0} where
  -- What the `Sink` makes of the queue's reply.
  abbrev pub sink_reply : Result (Unit {0}) (TrySendError T) → Result (AsyncSink T) SendError
  sink_reply (ok _) = ok AsyncSink.ready
  sink_reply (err e) =
      if kind_is_closed e.kind then err send_error else ok (AsyncSink.not_ready e.value)

  -- What the `Stream` makes of it.
  abbrev pub poll_reply : Result T TryRecvError → Async (Option T)
  poll_reply (ok x) = Async.ready (some x)
  poll_reply (err TryRecvError.disconnected) = Async.ready none
  poll_reply (err TryRecvError.empty) = Async.not_ready

module _ {T : Type 0} (𝓠 : ArrayQueue) where
  sink_result-reply :
      (r : Result (Unit {0}) (TrySendError T)) → sink_result T 𝓠 r ≡ some (sink_reply r)
  unfolding sink_result
  sink_result-reply (ok _) = refl
  sink_result-reply (err e) = by_kind e.kind refl
    where
      by_kind : (k : ErrorKind) → e.kind ≡ k → sink_result T 𝓠 (err e) ≡ some (sink_reply (err e))
      by_kind closed is = rw is refl
      by_kind no_capacity is = rw is refl

module _ {T : Type 0} {𝓠 : ArrayQueue} where
  -- The `Sink`'s `start_send`, whatever the channel holds, given `2 * fails + 3` steps for `fails`
  -- spurious failures, returns and does not reach `unreachable!`: it takes
  -- the message if there is room, gives it back as not ready if the channel is full, fails if it is
  -- disconnected, and leaves a channel that implements the queue after that.
  pub sink_start_send_refines :
      (fuel fails : ℕ) (task : 𝓠.Task) (c : Channel T 𝓠) (q : Queue T) (msg : T)
      → Implements c q
      → 2 * fails + 3 ≤ fuel
      → Does c.cap
          (sink_start_send T 𝓠 fuel fails task c msg)
          ((Spec.push c.cap q msg).0, sink_reply (Spec.push c.cap q msg).1)
  unfolding sink_start_send
  sink_start_send_refines fuel fails task c q msg h f =
      let (c', e, h', same) = try_send_refines fuel fails task c q msg h f in
      (c', rw (e, sink_start_send, sink_result-reply 𝓠 (Spec.push c.cap q msg).1) refl, h', same)

  poll_again-empty :
      (fuel fails : ℕ) (task : 𝓠.Task) (c : Channel T 𝓠)
      → Holds c [] false
      → 2 * fails + 3 ≤ fuel
      → poll_again T 𝓠 fuel fails task c
        ≡ some (record c { receivers = register 𝓠 c.receivers task }, Async.not_ready)
  unfolding poll_again poll_or
  poll_again-empty fuel fails task c h f = ap (poll_or T 𝓠 (λ c'. some (c', Async.not_ready))) (
      start_recv-empty (with_wakers h c.senders (register 𝓠 c.receivers task) c.first) refl fuel
        fails f refl)

  -- The channel after a poll that is not ready.
  abbrev pub polled : 𝓠.Task → Channel T 𝓠 → Channel T 𝓠
  polled task c =
      if c.first
      then record c { first = false; receivers = register 𝓠 c.receivers task }
      else if ltb 0 c.receivers.from_me
      then record c {
        receivers = register 𝓠 (record c.receivers { from_me = c.receivers.from_me - 1 }) task;
      }
      else c

  poll_later-empty :
      (fuel fails : ℕ) (task : 𝓠.Task) (c : Channel T 𝓠)
      → Holds c [] false
      → 2 * fails + 3 ≤ fuel
      → poll_later T 𝓠 fuel fails task c ≡ some (polled task c, Async.not_ready)
  unfolding poll_later
  poll_later-empty fuel fails task c h f = by_first c.first refl
    where
      by_first :
          (b : Bool)
          → c.first ≡ b
          → poll_later T 𝓠 fuel fails task c ≡ some (polled task c, Async.not_ready)
      by_first true e = rw e (
          poll_again-empty fuel fails task (record c { first = false })
            (with_wakers h c.senders c.receivers false) f)
      by_first false e = elim (dec_lt 0 c.receivers.from_me) [
        | yes told ↦
            rw (e, lt→ltb 0 c.receivers.from_me told, take_notification-some 𝓠 c.receivers told)
              (poll_again-empty fuel fails task
                (record c {
                  receivers = record c.receivers { from_me = c.receivers.from_me - 1 };
                  first = false;
                })
                (with_wakers h c.senders (record c.receivers { from_me = c.receivers.from_me - 1 })
                  false)
                f)
        | no untold ↦
            rw
              (
                e,
                le→ltb 0 c.receivers.from_me (omega arith),
                take_notification-none 𝓠 c.receivers (omega arith),
              )
              refl
      ]

  -- On an empty and connected channel the `Stream`'s `poll`, given `2 * fails + 3` steps for `fails`
  -- spurious failures, returns that it is not ready; it registers the task if
  -- this is the first poll or a notification is there, of which it then uses up one, and changes
  -- nothing otherwise.
  pub poll-empty :
      (fuel fails : ℕ) (task : 𝓠.Task) (c : Channel T 𝓠)
      → Holds c [] false
      → 2 * fails + 3 ≤ fuel
      → poll T 𝓠 fuel fails task c ≡ some (polled task c, Async.not_ready)
  unfolding poll poll_or
  poll-empty fuel fails task c h f =
      ap (poll_or T 𝓠 (poll_later T 𝓠 fuel fails task)) (start_recv-empty h refl fuel fails f refl)
      ∙ poll_later-empty fuel fails task c h f

  polled-Holds :
      (task : 𝓠.Task) (c : Channel T 𝓠) → Holds c [] false → Holds (polled task c) [] false
  polled-Holds task c h = by_first c.first refl
    where
      by_first : (b : Bool) → c.first ≡ b → Holds (polled task c) [] false
      by_first true e = rw e (with_wakers h c.senders (register 𝓠 c.receivers task) false)
      by_first false e = elim (dec_lt 0 c.receivers.from_me) [
        | yes told ↦
            rw (e, lt→ltb 0 c.receivers.from_me told)
              (with_wakers h c.senders
                (register 𝓠 (record c.receivers { from_me = c.receivers.from_me - 1 }) task) false)
        | no untold ↦
            rw (e, le→ltb 0 c.receivers.from_me (omega arith))
              (with_wakers h c.senders c.receivers false)
      ]

  cap-polled : (task : 𝓠.Task) (c : Channel T 𝓠) → (polled task c).cap ≡ c.cap
  cap-polled task c = by_first c.first refl
    where
      by_first : (b : Bool) → c.first ≡ b → (polled task c).cap ≡ c.cap
      by_first true e = rw e refl
      by_first false e = elim (dec_lt 0 c.receivers.from_me) [
        | yes told ↦ rw (e, lt→ltb 0 c.receivers.from_me told) refl
        | no untold ↦ rw (e, le→ltb 0 c.receivers.from_me (omega arith)) refl
      ]

  -- The `Stream`'s `poll` returns, whatever the channel holds, given `2 * fails + 3` steps for `fails`
  -- spurious failures: it is ready with the first message if there
  -- is one, ready with the end of the stream if the channel is empty and disconnected, and else not
  -- ready; and the channel implements the queue after that.
  pub poll_refines :
      (fuel fails : ℕ) (task : 𝓠.Task) (c : Channel T 𝓠) (q : Queue T)
      → Implements c q
      → 2 * fails + 3 ≤ fuel
      → Does c.cap (poll T 𝓠 fuel fails task c) ((Spec.pop q).0, poll_reply (Spec.pop q).1)
  unfolding Spec.pop poll poll_or
  poll_refines fuel fails task c q h f = by_items q.items q.shut h
    where
      by_items :
          (xs : List T) (b : Bool)
          → Holds c xs b
          → Does c.cap (poll T 𝓠 fuel fails task c) (
            (Spec.pop (record { items = xs; shut = b })).0,
            poll_reply (Spec.pop (record { items = xs; shut = b })).1,
          )
      by_items [] true h = (
        c,
        ap (poll_or T 𝓠 (poll_later T 𝓠 fuel fails task))
            (start_recv-closed h refl fuel fails f refl),
        h,
        refl,
      )
      by_items [] false h = (
        polled task c,
        poll-empty fuel fails task c h f,
        polled-Holds task c h,
        cap-polled task c,
      )
      by_items (x ∷ xs) b h = (
        received h,
        ap (poll_or T 𝓠 (poll_later T 𝓠 fuel fails task))
              (start_recv-some h (omega arith) fuel fails f)
            ∙ poll_read-received h,
        received-Holds h,
        cap-received h,
      )
