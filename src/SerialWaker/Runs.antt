-- ===== src/SerialWaker/Runs.antt =====
-- Histories of an `AtomicSerialWaker`, and what one registration or wake-up is worth.
use zchan.Base.{ℕ, ◌+◌, ◌%◌, ◌≤◌, ◌≡◌, refl, ap, Bool, List, [], ◌∷◌, length, arith, if◌then◌else◌}
use zchan.Word.{usize_mod}
use zchan.SerialWaker.Queue.{ArrayQueue}
use zchan.SerialWaker.{
  AtomicSerialWaker, positive_update, new_waker, register, wake, wake_all, take_notification,
}
use zchan.SerialWaker.Laws.{
  count, IsValid, Accounts, register-Accounts, wake-Accounts, wake_all-Accounts,
}

module _ (𝓠 : ArrayQueue) where
  open 𝓠 use {
    Task, Queue, push, pop, push-room, pop-cons, pop-empty, tasks, capacity, new-tasks,
    new-capacity,
  }

  pub data Op : Type 0 where
    registers : Task → Op
    wakes wakes_all takes : Op

  -- The waker, and how often a `poll` has taken a notification.
  pub record Run : Type 0 where
    pub now : AtomicSerialWaker 𝓠
    pub taken : ℕ

  pub step : Run → Op → Run
  unfolding take_notification
  step r (registers t) = record r { now = register 𝓠 r.now t }
  step r wakes = record r { now = wake 𝓠 r.now }
  step r wakes_all = record r { now = wake_all 𝓠 r.now }
  step r takes =
      let (w, took) = take_notification 𝓠 r.now in
      record { now = w; taken = r.taken + (if took then 1 else 0) }

  pub run : Run → List Op → Run
  unfolding step
  run r [] = r
  run r (op ∷ ops) = run (step r op) ops

  abbrev pub start : Run
  start = record { now = new_waker 𝓠; taken = 0 }

  abbrev pub registered : List Op → List Task
  registered [] = []
  registered (registers t ∷ ops) = t ∷ registered ops
  registered (wakes ∷ ops) = registered ops
  registered (wakes_all ∷ ops) = registered ops
  registered (takes ∷ ops) = registered ops

  -- The books of a history; `registered_so_far` counts the tasks that pass a test.
  record Books (registered_so_far : (Task → Bool) → ℕ) (r : Run) : Type 0 where
    valid : IsValid 𝓠 r.now
    kept :
        (p : Task → Bool)
        → count p (tasks r.now.waker) + count p r.now.notified ≡ registered_so_far p
    told : (r.now.from_me + r.taken) % usize_mod ≡ length r.now.notified % usize_mod

  from_Accounts :
      {c : (Task → Bool) → ℕ} {hand : List Task} {r : Run} {w : AtomicSerialWaker 𝓠}
      → Books c r
      → Accounts 𝓠 hand r.now [] w
      → Books (λ p. c p + count p hand) (record r { now = w })
  from_Accounts b a = record {
    valid = a.valid;
    kept = λ p. omega (arith, a.kept p, b.kept p);
    told = omega (arith, a.told, b.told);
  }

  step-Books :
      (r : Run) (op : Op) {c : (Task → Bool) → ℕ}
      → Books c r
      → Books (λ p. c p + count p (registered (op ∷ []))) (step r op)
  unfolding step positive_update
  step-Books r (registers t) b = from_Accounts b (register-Accounts 𝓠 r.now t b.valid)
  step-Books r wakes b = from_Accounts b (wake-Accounts 𝓠 r.now b.valid)
  step-Books r wakes_all b = from_Accounts b (wake_all-Accounts 𝓠 r.now b.valid)
  step-Books r takes b = record {
    valid = record { cap = b.valid.cap; fits = b.valid.fits };
    kept = λ p. omega (arith, b.kept p);
    told = ground (arith, b.told);
  }

  count-registered :
      (p : Task → Bool) (op : Op) (ops : List Op)
      → count p (registered (op ∷ ops)) ≡ count p (registered (op ∷ [])) + count p (registered ops)
  count-registered p (registers t) ops = omega arith
  count-registered p wakes ops = omega arith
  count-registered p wakes_all ops = omega arith
  count-registered p takes ops = omega arith

  run-Books :
      (ops : List Op) (r : Run) {c : (Task → Bool) → ℕ}
      → Books c r
      → Books (λ p. c p + count p (registered ops)) (run r ops)
  unfolding run
  run-Books [] r b = record { valid = b.valid; kept = λ p. omega (arith, b.kept p); told = b.told }
  run-Books (op ∷ ops) r b =
      let c = run-Books ops (step r op) (step-Books r op b) in
      record {
        valid = c.valid;
        kept = λ p. omega (arith, c.kept p, count-registered p op ops);
        told = c.told;
      }

  start-Books : Books (λ _. 0) start
  unfolding new_waker
  start-Books = record {
    valid = record { cap = new-capacity 4; fits = rw (new-tasks 4) (omega arith) };
    kept = λ p. omega (arith, ap (count p) (new-tasks 4));
    told = refl;
  }

  run_conserves :
      (ops : List Op)
      → ((p : Task → Bool)
          → count p (tasks (run start ops).now.waker) + count p (run start ops).now.notified
            ≡ count p (registered ops))
        × (length (tasks (run start ops).now.waker) ≤ 4)
  run_conserves ops =
      let b = run-Books ops start start-Books in ((λ p. omega (arith, b.kept p)), b.valid.fits)

  from_me_counts :
      (ops : List Op)
      → ((run start ops).now.from_me + (run start ops).taken) % usize_mod
        ≡ length (run start ops).now.notified % usize_mod
  from_me_counts ops = let b = run-Books ops start start-Books in b.told

  -- After any sequence of `register`, `wake`, `wake_all` and uses of a notification, every task that
  -- was registered is waiting or was notified, as often as it was registered, and no other task is;
  -- at most four tasks wait; and `from_me` is, modulo 2 ^ 64, the number of tasks that were notified
  -- less the number of notifications that were used up. (A multiset is compared by counting what
  -- passes a test.)
  pub run_keeps :
      (ops : List Op)
      → ((p : Task → Bool)
          → count p (tasks (run start ops).now.waker) + count p (run start ops).now.notified
            ≡ count p (registered ops))
        × (length (tasks (run start ops).now.waker) ≤ 4)
        × (((run start ops).now.from_me + (run start ops).taken) % usize_mod
            ≡ length (run start ops).now.notified % usize_mod)
  run_keeps ops = ((run_conserves ops).0, (run_conserves ops).1, from_me_counts ops)
