-- ===== src/Unbounded/Tokio.antt =====
-- The `Sink` and `Stream` of src/list.rs, on a channel that implements a queue.
use zchan.Base.{
  ℕ, ◌-◌, ◌<◌, ◌≡◌, inr, dec_lt, refl, ap, ◌∙◌, Bool, true, false, some, List, [], ◌∷◌, ltb, lt→ltb,
  le→ltb, if◌then◌else◌, arith,
}
use zchan.Error.{ok, err, closed, send_error, AsyncSink, Async}
use zchan.SerialWaker.Queue.{ArrayQueue}
use zchan.SerialWaker.Wakeups.{take_notification-some, take_notification-none}
use zchan.SerialWaker.{register}
use zchan.Array.Spec
use zchan.Array.Spec.{Queue}
use zchan.Array.Tokio.{poll_reply}
use zchan.Unbounded.{Channel}
use zchan.Unbounded.Send.{sink_result, sink_start_send}
use zchan.Unbounded.Recv.{poll_read, poll_or, poll_again, poll_later, poll}
use zchan.Unbounded.Recv.Run.{start_recv-some, start_recv-nothing}
use zchan.Unbounded.Recv.Take.{poll_read_lem}
use zchan.Unbounded.Holds.{Holds, with_receivers}
use zchan.Unbounded.Spec.{Room, pushed}
use zchan.Unbounded.Refine.{Implements, Does, try_send_takes_all}

sink_result-reply :
    {T : Type 0} (𝓠 : ArrayQueue) (shut : Bool) (msg : T)
    → sink_result T 𝓠 (if shut then err (record { kind = closed; value = msg }) else ok tt)
      ≡ some (if shut then err send_error else ok AsyncSink.ready)
unfolding sink_result
sink_result-reply 𝓠 true msg = refl
sink_result-reply 𝓠 false msg = refl

module _ {T : Type 0} {𝓠 : ArrayQueue} where
  -- The `Sink`'s `start_send` on a channel short of a full turn of its indices, whatever
  -- compare-exchanges fail spuriously, returns within `fails + 1` rounds and does not reach
  -- `unreachable!`: it fails if the channel is disconnected, and the queue is then as before, and
  -- else it takes the message as the last one and is ready; it never asks to try again.
  pub sink_never_waits :
      (fuel fails : ℕ) (c : Channel T 𝓠) (q : Queue T) (msg : T)
      → Implements c q
      → Room q.items
      → fails < fuel
      → Does
          (sink_start_send T 𝓠 fuel fails c msg)
          (pushed q msg, if q.shut then err send_error else ok AsyncSink.ready)
  unfolding sink_start_send
  sink_never_waits fuel fails c q msg h room enough =
      let (c', e, h') = try_send_takes_all fuel fails c q msg h room enough in
      (c', rw (sink_start_send, e, sink_result-reply 𝓠 q.shut msg) refl, h')

  -- The channel after a poll that is not ready.
  abbrev pub polled : 𝓠.Task → Channel T 𝓠 → Channel T 𝓠
  polled task c =
      if c.first
      then record c { first = false; receivers = register 𝓠 c.receivers task }
      else if ltb 0 c.receivers.from_me
      then record c {
        receivers = register 𝓠 (record c.receivers { from_me = c.receivers.from_me - 1 }) task;
      }
      else c

  poll_again-nothing :
      (fuel fails : ℕ) (task : 𝓠.Task) (c : Channel T 𝓠)
      → Holds c [] false
      → fails < fuel
      → poll_again T 𝓠 fuel fails task c
        ≡ some (record c { receivers = register 𝓠 c.receivers task }, Async.not_ready)
  unfolding poll_again poll_or
  poll_again-nothing fuel fails task c h enough =
      ap (poll_or T 𝓠 (λ c'. some (c', Async.not_ready))) (
        start_recv-nothing (with_receivers h (register 𝓠 c.receivers task) c.first) fuel fails
          enough)

  poll_later-nothing :
      (fuel fails : ℕ) (task : 𝓠.Task) (c : Channel T 𝓠)
      → Holds c [] false
      → fails < fuel
      → poll_later T 𝓠 fuel fails task c ≡ some (polled task c, Async.not_ready)
  unfolding poll_later
  poll_later-nothing fuel fails task c h enough = by_first c.first refl
    where
      by_first :
          (b : Bool)
          → c.first ≡ b
          → poll_later T 𝓠 fuel fails task c ≡ some (polled task c, Async.not_ready)
      by_first true e = rw e (
          poll_again-nothing fuel fails task (record c { first = false })
            (with_receivers h c.receivers false) enough)
      by_first false e = elim (dec_lt 0 c.receivers.from_me) [
        | yes told ↦
            rw (e, lt→ltb 0 c.receivers.from_me told, take_notification-some 𝓠 c.receivers told)
              (poll_again-nothing fuel fails task
                (record c {
                  receivers = record c.receivers { from_me = c.receivers.from_me - 1 };
                  first = false;
                })
                (with_receivers h (record c.receivers { from_me = c.receivers.from_me - 1 }) false)
                enough)
        | no untold ↦
            rw
              (
                e,
                le→ltb 0 c.receivers.from_me (omega arith),
                take_notification-none 𝓠 c.receivers (omega arith),
              )
              refl
      ]

  polled-Holds :
      (task : 𝓠.Task) (c : Channel T 𝓠) → Holds c [] false → Holds (polled task c) [] false
  polled-Holds task c h = by_first c.first refl
    where
      by_first : (b : Bool) → c.first ≡ b → Holds (polled task c) [] false
      by_first true e = rw e (with_receivers h (register 𝓠 c.receivers task) false)
      by_first false e = elim (dec_lt 0 c.receivers.from_me) [
        | yes told ↦
            rw (e, lt→ltb 0 c.receivers.from_me told)
              (with_receivers h
                (register 𝓠 (record c.receivers { from_me = c.receivers.from_me - 1 }) task) false)
        | no untold ↦
            rw (e, le→ltb 0 c.receivers.from_me (omega arith)) (with_receivers h c.receivers false)
      ]

  -- The `Stream`'s `poll` returns, whatever the channel holds and whatever compare-exchanges fail
  -- spuriously, within `fails + 1` rounds of each attempt: it is ready with the first message if
  -- there is one, ready with the end of the stream if the channel is empty and disconnected, and
  -- else not ready; the channel implements the queue after that.
  pub poll_takes_first :
      (fuel fails : ℕ) (task : 𝓠.Task) (c : Channel T 𝓠) (q : Queue T)
      → Implements c q
      → fails < fuel
      → Does (poll T 𝓠 fuel fails task c) ((Spec.pop q).0, poll_reply (Spec.pop q).1)
  unfolding Spec.pop poll poll_or poll_read
  poll_takes_first fuel fails task c q h enough = by_items q.items q.shut h
    where
      by_items :
          (xs : List T) (b : Bool)
          → Holds c xs b
          → Does (poll T 𝓠 fuel fails task c) (
            (Spec.pop (record { items = xs; shut = b })).0,
            poll_reply (Spec.pop (record { items = xs; shut = b })).1,
          )
      by_items [] true h = (
        c,
        ap (poll_or T 𝓠 (poll_later T 𝓠 fuel fails task)) (start_recv-nothing h fuel fails enough),
        h,
      )
      by_items [] false h = (
        polled task c,
        ap (poll_or T 𝓠 (poll_later T 𝓠 fuel fails task)) (start_recv-nothing h fuel fails enough)
            ∙ poll_later-nothing fuel fails task c h enough,
        polled-Holds task c h,
      )
      by_items (x ∷ xs) b h =
          let r = start_recv-some h fuel fails enough in
          (
            record r.chan { store = r.left },
            ap (poll_or T 𝓠 (poll_later T 𝓠 fuel fails task)) r.returns ∙ poll_read_lem r.readable,
            inr r.holds,
          )
