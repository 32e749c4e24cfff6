-- ===== src/SerialWaker/Race.antt =====
-- `wake` of src/atomic_serial_waker.rs by single accesses of shared memory, and a `register` of
-- another thread between two of them.
use zchan.Base.{◌≡◌, refl, sym, ap, ◌∙◌, inl, inr, some, none, [], ◌∷◌, ◌++◌, length, arith}
use zchan.Word.{wrapping_add}
use zchan.SerialWaker.Queue.{ArrayQueue}
use zchan.SerialWaker.{AtomicSerialWaker, notify, register, wake}
use zchan.SerialWaker.Laws.{pop-Pops, IsValid}
use zchan.SerialWaker.Wakeups.{register_room, wk_idle, push_back_room}

module _ (𝓠 : ArrayQueue) where
  open 𝓠 use {Task, Queue, push, pop, push-room, pop-cons, pop-empty, tasks, capacity}

  -- Where a thread stands in `wake`: before the pop; before the `fetch_add` of `waiting`; with a task,
  -- before the `fetch_add` of `from_me` and before `notify`; returned.
  pub data WakePc : Type 0 where
    pops counts : WakePc
    adds notifies : Task → WakePc
    done : WakePc

  unfoldable pub wake_step : AtomicSerialWaker 𝓠 × WakePc → AtomicSerialWaker 𝓠 × WakePc
  wake_step (w, pops) = elim (pop w.waker) [
    | none ↦ (w, counts)
    | some (task, q) ↦ (record w { waker = q }, adds task)
  ]
  wake_step (w, counts) = (record w { waiting = wrapping_add w.waiting 1 }, done)
  wake_step (w, adds task) = (record w { from_me = wrapping_add w.from_me 1 }, notifies task)
  wake_step (w, notifies task) = (record w { notified = w.notified ++ (task ∷ []) }, done)
  wake_step (w, done) = (w, done)

  -- Without interference the steps are `wake`.
  wake_step-wake :
      (w : AtomicSerialWaker 𝓠) → wake_step (wake_step (wake_step (w, pops))) ≡ (wake 𝓠 w, done)
  unfolding wake_step wake notify
  wake_step-wake w = elim (pop-Pops 𝓠 w.waker) [
    | inl (e, f) ↦
        let popped : wake_step (w, pops) ≡ (w, counts) = rw (f, wake_step) refl in
        let woken : wake 𝓠 w ≡ record w { waiting = wrapping_add w.waiting 1 } =
          rw (f, wake) refl in
        ap (λ p. wake_step (wake_step p)) popped ∙ ap (λ u. (u, done)) (sym woken)
    | inr (t, q, f, e, c) ↦
        let popped : wake_step (w, pops) ≡ (record w { waker = q }, adds t) =
          rw (f, wake_step) refl in
        let woken : wake 𝓠 w ≡ notify 𝓠 (record w { waker = q }) t = rw (f, wake) refl in
        ap (λ p. wake_step (wake_step p)) popped ∙ ap (λ u. (u, done)) (sym woken)
  ]

  register_idle :
      (w : AtomicSerialWaker 𝓠) (t : Task)
      → IsValid 𝓠 w
      → tasks w.waker ≡ []
      → w.waiting ≡ 0
      → (tasks (register 𝓠 w t).waker ≡ t ∷ [])
        × ((register 𝓠 w t).notified ≡ w.notified)
        × ((register 𝓠 w t).waiting ≡ 0)
  register_idle w t v e idle =
      let (took, added, same) = push-room w.waker t (rw (e, v.cap) (omega arith)) in
      let (q, popped, rest, cap) =
        pop-cons (push w.waker t).0 t [] (added ∙ ap (λ l. l ++ (t ∷ [])) e) in
      let (again, order, _) = push-room q t (omega (arith, ap length rest, same, cap, v.cap)) in
      let pushed : AtomicSerialWaker 𝓠 = record w { waker = (push w.waker t).0 } in
      rw
        (
          register_room 𝓠 w t took,
          wk_idle 𝓠 pushed t q popped idle,
          push_back_room 𝓠 (record pushed { waker = q }) t again,
        )
        (order ∙ ap (λ l. l ++ (t ∷ [])) rest, refl, idle)

  -- A wake-up can be lost: on a waker of capacity 4 where no task waits and no wake-up is counted, a
  -- task that registers after the pop of a `wake` and before its `fetch_add` is left in the queue,
  -- not notified, while the wake-up is counted and its `wake` has returned.
  pub wake-register_lost :
      (w : AtomicSerialWaker 𝓠) (t : Task)
      → IsValid 𝓠 w
      → tasks w.waker ≡ []
      → w.waiting ≡ 0
      → (wake_step (w, pops) ≡ (w, counts))
        × (tasks (wake_step (register 𝓠 w t, counts)).0.waker ≡ t ∷ [])
        × ((wake_step (register 𝓠 w t, counts)).0.notified ≡ w.notified)
        × ((wake_step (register 𝓠 w t, counts)).0.waiting ≡ 1)
        × ((wake_step (register 𝓠 w t, counts)).1 ≡ done)
  unfolding wake_step
  wake-register_lost w t v e idle =
      let (waits, quiet, none_counted) = register_idle w t v e idle in
      (rw (pop-empty w.waker e, wake_step) refl, waits, quiet, omega (arith, none_counted), refl)
