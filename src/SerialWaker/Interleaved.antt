-- ===== src/SerialWaker/Interleaved.antt =====
-- What an `AtomicSerialWaker` keeps while several threads are within its operations.
use zchan.Base.{
  ℕ, zero, suc, ◌+◌, ◌-◌, ◌%◌, ◌≤◌, ◌≡◌, refl, ap, ◌∙◌, inl, inr, Bool, List, [], ◌∷◌, ◌++◌, length,
  length-append, arith, dec_lt, lt→ltb, le→ltb,
}
use zchan.Word.{usize_mod}
use zchan.SerialWaker.Queue.{ArrayQueue}
use zchan.SerialWaker.{AtomicSerialWaker, new_waker, positive_update, take_notification}
use zchan.SerialWaker.Laws.{count, count-append, IsValid, pop-Pops, push-Pushes}
use zchan.SerialWaker.Runs.{Op, registers, wakes, wakes_all, takes, registered}
use zchan.SerialWaker.Race.{pops, counts, adds, notifies, done, wake_step}
use zchan.SerialWaker.Threads.{
  Pc, waking, pushes, rotates, updates, pushes_back, empties, empties_adds, empties_notifies,
  thread_step, move_at, Pool, Act, calls, moves, act, run_threads, idle,
}

module _ (𝓠 : ArrayQueue) where
  open 𝓠 use {Task, Queue, tasks, capacity, new-tasks, new-capacity}

  -- The tasks that a thread has in hand.
  abbrev pub hand : Pc 𝓠 → List Task
  hand (waking pops) = []
  hand (waking counts) = []
  hand (waking (adds t)) = t ∷ []
  hand (waking (notifies t)) = t ∷ []
  hand (waking done) = []
  hand (pushes t) = t ∷ []
  hand rotates = []
  hand (updates t) = t ∷ []
  hand (pushes_back t) = t ∷ []
  hand empties = []
  hand (empties_adds t) = t ∷ []
  hand (empties_notifies t) = t ∷ []

  -- How many notifications a thread has counted in `from_me` and not made yet.
  abbrev pub owed : Pc 𝓠 → ℕ
  owed (waking pops) = 0
  owed (waking counts) = 0
  owed (waking (adds t)) = 0
  owed (waking (notifies t)) = 1
  owed (waking done) = 0
  owed (pushes t) = 0
  owed rotates = 0
  owed (updates t) = 0
  owed (pushes_back t) = 0
  owed empties = 0
  owed (empties_adds t) = 0
  owed (empties_notifies t) = 1

  abbrev pub hands : (Task → Bool) → List (Pc 𝓠) → ℕ
  hands p [] = 0
  hands p (pc ∷ pcs) = count p (hand pc) + hands p pcs

  abbrev pub owed_by : List (Pc 𝓠) → ℕ
  owed_by [] = 0
  owed_by (pc ∷ pcs) = owed pc + owed_by pcs

  -- From `w` to `w'`, with what the threads hold and owe before and after.
  record Keeps (held : (Task → Bool) → ℕ) (owes : ℕ) (w : AtomicSerialWaker 𝓠)
      (held' : (Task → Bool) → ℕ) (owes' : ℕ) (w' : AtomicSerialWaker 𝓠) : Type 0 where
    valid : IsValid 𝓠 w'
    kept :
        (p : Task → Bool)
        → count p (tasks w'.waker) + count p w'.notified + held' p
          ≡ count p (tasks w.waker) + count p w.notified + held p
    told :
        (w'.from_me + (length w.notified + owes)) % usize_mod
        ≡ (w.from_me + (length w'.notified + owes')) % usize_mod

  abbrev KeepsPc : AtomicSerialWaker 𝓠 → Pc 𝓠 → AtomicSerialWaker 𝓠 × Pc 𝓠 → Type 0
  KeepsPc w pc r =
      Keeps (λ p. count p (hand pc)) (owed pc) w (λ p. count p (hand r.1)) (owed r.1) r.0

  abbrev KeepsAll : AtomicSerialWaker 𝓠 → List (Pc 𝓠) → AtomicSerialWaker 𝓠 × List (Pc 𝓠) → Type 0
  KeepsAll w pcs r = Keeps (λ p. hands p pcs) (owed_by pcs) w (λ p. hands p r.1) (owed_by r.1) r.0

  -- A pop that puts the oldest task in a hand, and a push out of a hand that finds room.
  popped :
      (w : AtomicSerialWaker 𝓠) (t : Task) (q : Queue)
      → IsValid 𝓠 w
      → tasks w.waker ≡ t ∷ tasks q
      → capacity q ≡ capacity w.waker
      → Keeps (λ p. 0) 0 w (λ p. count p (t ∷ [])) 0 (record w { waker = q })
  popped w t q v e c = record {
    valid = record { cap = c ∙ v.cap; fits = omega (arith, ap length e, v.fits) };
    kept = λ p. omega (arith, ap (count p) e);
    told = refl;
  }

  pushed :
      (w : AtomicSerialWaker 𝓠) (t : Task) (q : Queue)
      → IsValid 𝓠 w
      → suc (length (tasks w.waker)) ≤ capacity w.waker
      → tasks q ≡ tasks w.waker ++ (t ∷ [])
      → capacity q ≡ capacity w.waker
      → Keeps (λ p. count p (t ∷ [])) 0 w (λ p. 0) 0 (record w { waker = q })
  pushed w t q v room e c = record {
    valid = record {
      cap = c ∙ v.cap;
      fits = omega (arith, ap length e, length-append (tasks w.waker) (t ∷ []), v.cap);
    };
    kept = λ p. omega (arith, ap (count p) e, count-append p (tasks w.waker) (t ∷ []));
    told = refl;
  }

  -- A step that changes nothing that is counted.
  same :
      (held : (Task → Bool) → ℕ) (owes n : ℕ) (w : AtomicSerialWaker 𝓠)
      → IsValid 𝓠 w
      → Keeps held owes w held owes (record w { waiting = n })
  same held owes n w v = record {
    valid = record { cap = v.cap; fits = v.fits };
    kept = λ p. refl;
    told = refl;
  }

  added :
      (w : AtomicSerialWaker 𝓠) (t : Task)
      → IsValid 𝓠 w
      → Keeps
          (λ p. count p (t ∷ []))
          0
          w
          (λ p. count p (t ∷ []))
          1
          (record w { from_me = (w.from_me + 1) % usize_mod })
  added w t v = record {
    valid = record { cap = v.cap; fits = v.fits };
    kept = λ p. refl;
    told = omega arith;
  }

  made :
      (w : AtomicSerialWaker 𝓠) (t : Task)
      → IsValid 𝓠 w
      → Keeps
          (λ p. count p (t ∷ []))
          1
          w
          (λ p. 0)
          0
          (record w { notified = w.notified ++ (t ∷ []) })
  made w t v = record {
    valid = record { cap = v.cap; fits = v.fits };
    kept = λ p. omega (arith, count-append p w.notified (t ∷ []));
    told = omega (arith, length-append w.notified (t ∷ []));
  }

  step-Keeps :
      (w : AtomicSerialWaker 𝓠) (pc : Pc 𝓠) → IsValid 𝓠 w → KeepsPc w pc (thread_step 𝓠 w pc)
  unfolding thread_step wake_step positive_update
  step-Keeps w (waking pops) v = elim (pop-Pops 𝓠 w.waker) [
    | inl (e, f) ↦ rw (f, wake_step) (same (λ p. 0) 0 w.waiting w v)
    | inr (t, q, f, e, c) ↦ rw (f, wake_step) (popped w t q v e c)
  ]
  step-Keeps w (waking counts) v = same (λ p. 0) 0 ((w.waiting + 1) % usize_mod) w v
  step-Keeps w (waking (adds t)) v = added w t v
  step-Keeps w (waking (notifies t)) v = made w t v
  step-Keeps w (waking done) v = same (λ p. 0) 0 w.waiting w v
  step-Keeps w (pushes t) v = elim (push-Pushes 𝓠 w.waker t) [
    | inl (room, took, e, c) ↦ rw (took, thread_step) (pushed w t _ v room e c)
    | inr (full, back, stays) ↦
        rw (back, thread_step, stays) (same (λ p. count p (t ∷ [])) 0 w.waiting w v)
  ]
  step-Keeps w rotates v = elim (pop-Pops 𝓠 w.waker) [
    | inl (e, f) ↦ rw (f, thread_step) (same (λ p. 0) 0 w.waiting w v)
    | inr (t, q, f, e, c) ↦ rw (f, thread_step) (popped w t q v e c)
  ]
  step-Keeps w (updates u) v = elim (dec_lt 0 w.waiting) [
    | yes some_wait ↦
        rw (thread_step, lt→ltb 0 w.waiting some_wait)
          (same (λ p. count p (u ∷ [])) 0 (w.waiting - 1) w v)
    | no none_wait ↦
        rw (thread_step, le→ltb 0 w.waiting (omega arith))
          (same (λ p. count p (u ∷ [])) 0 w.waiting w v)
  ]
  step-Keeps w (pushes_back u) v = elim (push-Pushes 𝓠 w.waker u) [
    | inl (room, took, e, c) ↦ rw (took, thread_step) (pushed w u _ v room e c)
    | inr (full, back, stays) ↦
        rw (back, thread_step, stays) (same (λ p. count p (u ∷ [])) 0 w.waiting w v)
  ]
  step-Keeps w empties v = elim (pop-Pops 𝓠 w.waker) [
    | inl (e, f) ↦ rw (f, thread_step) (same (λ p. 0) 0 w.waiting w v)
    | inr (t, q, f, e, c) ↦ rw (f, thread_step) (popped w t q v e c)
  ]
  step-Keeps w (empties_adds t) v = added w t v
  step-Keeps w (empties_notifies t) v = made w t v

  move-Keeps :
      (k : ℕ) (w : AtomicSerialWaker 𝓠) (pcs : List (Pc 𝓠))
      → IsValid 𝓠 w
      → KeepsAll w pcs (move_at 𝓠 k w pcs)
  unfolding move_at
  move-Keeps k w [] v = same (λ p. 0) 0 w.waiting w v
  move-Keeps zero w (pc ∷ pcs) v =
      let s = step-Keeps w pc v in
      record { valid = s.valid; kept = λ p. omega (arith, s.kept p); told = omega (arith, s.told) }
  move-Keeps (suc k) w (pc ∷ pcs) v =
      let s = move-Keeps k w pcs v in
      record { valid = s.valid; kept = λ p. omega (arith, s.kept p); told = omega (arith, s.told) }

  -- The operations that a schedule calls.
  abbrev pub called : List (Act 𝓠) → List (Op 𝓠)
  called [] = []
  called (calls op ∷ acts) = op ∷ called acts
  called (moves k ∷ acts) = called acts

  -- The books of a schedule; `registered_so_far` counts the tasks that pass a test.
  record Books (registered_so_far : (Task → Bool) → ℕ) (r : Pool 𝓠) : Type 0 where
    valid : IsValid 𝓠 r.now
    kept :
        (p : Task → Bool)
        → count p (tasks r.now.waker) + count p r.now.notified + hands p r.threads
          ≡ registered_so_far p
    told :
        (r.now.from_me + r.taken) % usize_mod
        ≡ (length r.now.notified + owed_by r.threads) % usize_mod

  act-Books :
      (r : Pool 𝓠) (a : Act 𝓠) {c : (Task → Bool) → ℕ}
      → Books c r
      → Books (λ p. c p + count p (registered 𝓠 (called (a ∷ [])))) (act 𝓠 r a)
  unfolding act take_notification positive_update
  act-Books r (calls (registers t)) b = record {
    valid = b.valid;
    kept = λ p. omega (arith, b.kept p);
    told = omega (arith, b.told);
  }
  act-Books r (calls wakes) b = record {
    valid = b.valid;
    kept = λ p. omega (arith, b.kept p);
    told = omega (arith, b.told);
  }
  act-Books r (calls wakes_all) b = record {
    valid = b.valid;
    kept = λ p. omega (arith, b.kept p);
    told = omega (arith, b.told);
  }
  act-Books r (calls takes) b = record {
    valid = record { cap = b.valid.cap; fits = b.valid.fits };
    kept = λ p. omega (arith, b.kept p);
    told = ground (arith, b.told);
  }
  act-Books r (moves k) b =
      let s = move-Keeps k r.now r.threads b.valid in
      record {
        valid = s.valid;
        kept = λ p. omega (arith, s.kept p, b.kept p);
        told = omega (arith, s.told, b.told);
      }

  count-called :
      (p : Task → Bool) (a : Act 𝓠) (acts : List (Act 𝓠))
      → count p (registered 𝓠 (called (a ∷ acts)))
        ≡ count p (registered 𝓠 (called (a ∷ []))) + count p (registered 𝓠 (called acts))
  count-called p (calls (registers t)) acts = omega arith
  count-called p (calls wakes) acts = omega arith
  count-called p (calls wakes_all) acts = omega arith
  count-called p (calls takes) acts = omega arith
  count-called p (moves k) acts = omega arith

  run-Books :
      (acts : List (Act 𝓠)) (r : Pool 𝓠) {c : (Task → Bool) → ℕ}
      → Books c r
      → Books (λ p. c p + count p (registered 𝓠 (called acts))) (run_threads 𝓠 r acts)
  unfolding run_threads
  run-Books [] r b = record { valid = b.valid; kept = λ p. omega (arith, b.kept p); told = b.told }
  run-Books (a ∷ acts) r b =
      let c = run-Books acts (act 𝓠 r a) (act-Books r a b) in
      record {
        valid = c.valid;
        kept = λ p. omega (arith, c.kept p, count-called p a acts);
        told = c.told;
      }

  idle-Books : Books (λ _. 0) (idle 𝓠)
  unfolding new_waker
  idle-Books = record {
    valid = record { cap = new-capacity 4; fits = rw (new-tasks 4) (omega arith) };
    kept = λ p. omega (arith, ap (count p) (new-tasks 4));
    told = refl;
  }

  -- Whatever threads call `register`, `wake` and `wake_all` on a new waker or take a notification, and
  -- however their accesses interleave: every task that was registered is waiting, was notified, or is
  -- in the hand of a thread that is within a call, as often as it was registered, and no other task is;
  -- at most four tasks wait; and `from_me`, with the notifications that were used up, is modulo
  -- 2 ^ 64 the number of tasks that were notified, and of those whose thread is just before `notify`.
  -- (A multiset is compared by counting what passes a test.)
  pub interleaved_keeps :
      (acts : List (Act 𝓠))
      → ((p : Task → Bool)
          → count p (tasks (run_threads 𝓠 (idle 𝓠) acts).now.waker)
              + count p (run_threads 𝓠 (idle 𝓠) acts).now.notified
              + hands p (run_threads 𝓠 (idle 𝓠) acts).threads
            ≡ count p (registered 𝓠 (called acts)))
        × (length (tasks (run_threads 𝓠 (idle 𝓠) acts).now.waker) ≤ 4)
        × (((run_threads 𝓠 (idle 𝓠) acts).now.from_me + (run_threads 𝓠 (idle 𝓠) acts).taken)
              % usize_mod
            ≡ (length (run_threads 𝓠 (idle 𝓠) acts).now.notified
                + owed_by (run_threads 𝓠 (idle 𝓠) acts).threads)
              % usize_mod)
  interleaved_keeps acts =
      let b = run-Books acts (idle 𝓠) idle-Books in
      ((λ p. omega (arith, b.kept p)), b.valid.fits, b.told)
