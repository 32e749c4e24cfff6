-- ===== src/SerialWaker/Wakeups.antt =====
-- What one registration or wake-up of `AtomicSerialWaker` is worth.
use zchan.Base.{
  true, false, ℕ, zero, suc, ◌+◌, ◌-◌, ◌%◌, ◌<◌, ◌≡◌, refl, ap, ◌∙◌, inl, inr, some, none, List, [],
  ◌∷◌, ◌++◌, append-nil, append_assoc, length, length-append, arith, lt→ltb, le→ltb,
}
use zchan.Word.{usize_mod}
use zchan.SerialWaker.Queue.{ArrayQueue}
use zchan.SerialWaker.{
  take_notification, AtomicSerialWaker, positive_update, waker_cap, notify, push_back, wk, register,
  wake, wake_loop, wake_all,
}
use zchan.SerialWaker.Laws.{pop-Pops, IsValid}

module _ (𝓠 : ArrayQueue) where
  open 𝓠 use {Task, Queue, push, pop, push-room, pop-cons, pop-empty, tasks, capacity}

  wake_loop_lem :
      (fuel : ℕ) (w : AtomicSerialWaker 𝓠)
      → length (tasks w.waker) < fuel
      → (tasks (wake_loop 𝓠 fuel w).waker ≡ [])
        × ((wake_loop 𝓠 fuel w).notified ≡ w.notified ++ tasks w.waker)
  unfolding wake_loop notify
  wake_loop_lem zero w h = absurd (omega arith)
  wake_loop_lem (suc fuel) w h = elim (pop-Pops 𝓠 w.waker) [
    | inl (e, f) ↦ rw (f, wake_loop) (e, rw (e, append-nil))
    | inr (t, q, f, e, c) ↦
        let (none_left, order) =
          wake_loop_lem fuel (notify 𝓠 (record w { waker = q }) t) (omega (arith, ap length e)) in
        rw (f, wake_loop) (none_left, rw e (order ∙ append_assoc w.notified (t ∷ []) (tasks q)))
  ]

  wake_none :
      (w : AtomicSerialWaker 𝓠)
      → tasks w.waker ≡ []
      → wake 𝓠 w ≡ record w { waiting = (w.waiting + 1) % usize_mod }
  unfolding wake
  wake_none w e = rw (pop-empty w.waker e, wake)

  pub register_room :
      (w : AtomicSerialWaker 𝓠) (t : Task)
      → (push w.waker t).1 ≡ none
      → register 𝓠 w t ≡ wk 𝓠 (record w { waker = (push w.waker t).0 })
  unfolding register
  register_room w t took = rw (took, register)

  pub push_back_room :
      (w : AtomicSerialWaker 𝓠) (t : Task)
      → (push w.waker t).1 ≡ none
      → push_back 𝓠 w t ≡ record w { waker = (push w.waker t).0 }
  unfolding push_back
  push_back_room w t took = rw (took, push_back)

  wk_waiting :
      (w : AtomicSerialWaker 𝓠) (t : Task) (q : Queue)
      → pop w.waker ≡ some (t, q)
      → 0 < w.waiting
      → wk 𝓠 w ≡ notify 𝓠 (record w { waker = q; waiting = w.waiting - 1 }) t
  unfolding wk positive_update
  wk_waiting w t q popped some_wait = rw (popped, wk, lt→ltb 0 w.waiting some_wait)

  pub wk_idle :
      (w : AtomicSerialWaker 𝓠) (t : Task) (q : Queue)
      → pop w.waker ≡ some (t, q)
      → w.waiting ≡ 0
      → wk 𝓠 w ≡ push_back 𝓠 (record w { waker = q }) t
  unfolding wk positive_update
  wk_idle w t q popped idle = rw (popped, wk, le→ltb 0 w.waiting (omega arith))

  -- For a waker of capacity 4: a wake-up that finds no task is not lost (while fewer than 2 ^ 64 - 1 are counted): the next task that registers is notified at once, no
  -- task waits, and the count of such wake-ups is back where it was.
  pub register-wake_empty :
      (w : AtomicSerialWaker 𝓠) (t : Task)
      → IsValid 𝓠 w
      → tasks w.waker ≡ []
      → w.waiting + 1 < usize_mod
      → ((register 𝓠 (wake 𝓠 w) t).notified ≡ w.notified ++ (t ∷ []))
        × (tasks (register 𝓠 (wake 𝓠 w) t).waker ≡ [])
        × ((register 𝓠 (wake 𝓠 w) t).waiting ≡ w.waiting)
  unfolding notify
  register-wake_empty w t v e small =
      let (took, added, _) = push-room w.waker t (rw (e, v.cap) (omega arith)) in
      let (q, popped, rest, _) =
        pop-cons (push w.waker t).0 t [] (added ∙ ap (λ l. l ++ (t ∷ [])) e) in
      let counted : AtomicSerialWaker 𝓠 = record w { waiting = (w.waiting + 1) % usize_mod } in
      rw
        (
          wake_none w e,
          register_room counted t took,
          wk_waiting (record counted { waker = (push w.waker t).0 }) t q popped (omega arith),
        )
        (refl, rest, omega arith)

  -- In a waker of capacity 4 with less than four tasks and no wake-up outstanding, a task that registers goes before the task
  -- that has waited longest, which goes to the end of the queue.
  pub register_rotates :
      (w : AtomicSerialWaker 𝓠) (t oldest : Task) (ts : List Task)
      → IsValid 𝓠 w
      → tasks w.waker ≡ oldest ∷ ts
      → length (oldest ∷ ts) < 4
      → w.waiting ≡ 0
      → (tasks (register 𝓠 w t).waker ≡ ts ++ (t ∷ oldest ∷ []))
        × ((register 𝓠 w t).notified ≡ w.notified)
  register_rotates w t oldest ts v e few idle =
      let (took, added, same) = push-room w.waker t (rw (e, v.cap) few) in
      let (q, popped, rest, cap) =
        pop-cons (push w.waker t).0 oldest (ts ++ (t ∷ [])) (added ∙ ap (λ l. l ++ (t ∷ [])) e) in
      let (again, order, _) =
        push-room q oldest
          (omega (arith, ap length rest, length-append ts (t ∷ []), same, cap, v.cap, few)) in
      let pushed : AtomicSerialWaker 𝓠 = record w { waker = (push w.waker t).0 } in
      rw
        (
          register_room w t took,
          wk_idle pushed oldest q popped idle,
          push_back_room (record pushed { waker = q }) oldest again,
        )
        (order ∙ ap (λ l. l ++ (oldest ∷ [])) rest ∙ append_assoc ts (t ∷ []) (oldest ∷ []), refl)

  -- On a waker of capacity 4 `wake_all` ends, notifies every waiting task, in the queue's order, and leaves the queue empty.
  pub wake_all_lem :
      (w : AtomicSerialWaker 𝓠)
      → IsValid 𝓠 w
      → (tasks (wake_all 𝓠 w).waker ≡ []) × ((wake_all 𝓠 w).notified ≡ w.notified ++ tasks w.waker)
  unfolding wake_all
  wake_all_lem w v = wake_loop_lem (suc waker_cap) w (omega (arith, v.fits))

  pub take_notification-some :
      (w : AtomicSerialWaker 𝓠)
      → 0 < w.from_me
      → take_notification 𝓠 w ≡ (record w { from_me = w.from_me - 1 }, true)
  unfolding take_notification positive_update
  take_notification-some w h = rw (lt→ltb 0 w.from_me h) refl

  pub take_notification-none :
      (w : AtomicSerialWaker 𝓠) → w.from_me ≡ 0 → take_notification 𝓠 w ≡ (w, false)
  unfolding take_notification positive_update
  take_notification-none w e = rw (le→ltb 0 w.from_me (omega arith)) refl
