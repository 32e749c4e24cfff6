-- ===== src/SerialWaker/Laws.antt =====
-- What the operations of `AtomicSerialWaker` do to the tasks that wait.
use zchan.Base.{
  ℕ, zero, suc, ◌+◌, ◌%◌, ◌≤◌, ◌<◌, ◌≡◌, refl, ap, ◌∙◌, ◌⊎◌, inl, inr, Bool, Option, none, some,
  List, [], ◌∷◌, ◌++◌, length, length-append, arith, dec_lt, if◌then◌else◌, lt→ltb, le→ltb, ◌-◌,
}
use zchan.Word.{usize_mod}
use zchan.SerialWaker.Queue.{ArrayQueue}
use zchan.SerialWaker.{
  AtomicSerialWaker, positive_update, waker_cap, notify, push_back, wk, register, wake, wake_loop,
  wake_all,
}

-- How many elements pass a test.
abbrev pub count {ℓ} : {A : Type ℓ} → (A → Bool) → List A → ℕ
count p [] = 0
count p (x ∷ xs) = (if p x then 1 else 0) + count p xs

pub count-append {ℓ} :
    {A : Type ℓ} (p : A → Bool) (xs ys : List A) → count p (xs ++ ys) ≡ count p xs + count p ys
count-append p [] ys = omega arith
count-append p (x ∷ xs) ys = omega (arith, count-append p xs ys)

module _ (𝓠 : ArrayQueue) where
  open 𝓠 use {Task, Queue, push, pop, tasks, capacity, push-room, push-full, pop-empty, pop-cons}

  -- What `pop` does, by what the queue holds.
  abbrev pub Pops : Queue → Option (Task × Queue) → Type 0
  Pops q r =
      ((tasks q ≡ []) × (r ≡ none))
      ⊎ ((t : Task) × (q' : Queue) × (r ≡ some (t, q'))
          × (tasks q ≡ t ∷ tasks q')
          × (capacity q' ≡ capacity q))

  pub pop-Pops : (q : Queue) → Pops q (pop q)
  pop-Pops q = by_tasks (tasks q) refl
    where
      by_tasks : (ts : List Task) → tasks q ≡ ts → Pops q (pop q)
      by_tasks [] e = inl (e, pop-empty q e)
      by_tasks (t ∷ ts) e =
          let (q', popped, rest, same) = pop-cons q t ts e in inr (t, q', popped, rw rest e, same)

  -- What `push` does, by the room that is left.
  abbrev pub Pushes : Queue → Task → Queue × Option Task → Type 0
  Pushes q t r =
      ((length (tasks q) < capacity q)
        × (r.1 ≡ none)
        × (tasks r.0 ≡ tasks q ++ (t ∷ []))
        × (capacity r.0 ≡ capacity q))
      ⊎ ((capacity q ≤ length (tasks q)) × (r.1 ≡ some t) × (r.0 ≡ q))

  pub push-Pushes : (q : Queue) (t : Task) → Pushes q t (push q t)
  push-Pushes q t = elim (dec_lt (length (tasks q)) (capacity q)) [
    | yes room ↦ let (took, added, same) = push-room q t room in inl (room, took, added, same)
    | no full ↦
        let back = push-full q t (omega arith) in
        inr (omega arith, (λ i. (back i).1), (λ i. (back i).0))
  ]

  -- The queue keeps the capacity that `new` gave it, and is never over it.
  pub record IsValid (w : AtomicSerialWaker 𝓠) : Type 0 where
    pub cap : capacity w.waker ≡ 4
    pub fits : length (tasks w.waker) ≤ 4

  -- From `w` with the tasks `hand` in hand to `w'` with `hand'`: no task is lost or made up, and
  -- `from_me` counts the notifications.
  pub record Accounts (hand : List Task) (w : AtomicSerialWaker 𝓠) (hand' : List Task)
      (w' : AtomicSerialWaker 𝓠) : Type 0 where
    pub valid : IsValid w'
    pub kept :
        (p : Task → Bool)
        → count p (tasks w'.waker) + count p w'.notified + count p hand'
          ≡ count p (tasks w.waker) + count p w.notified + count p hand
    pub told :
        (w'.from_me + length w.notified) % usize_mod ≡ (w.from_me + length w'.notified) % usize_mod

  pub Accounts-trans :
      {a b c : List Task} {u v w : AtomicSerialWaker 𝓠}
      → Accounts a u b v
      → Accounts b v c w
      → Accounts a u c w
  Accounts-trans g h = record {
    valid = h.valid;
    kept = λ p. h.kept p ∙ g.kept p;
    told = omega (arith, g.told, h.told);
  }

  notify-Accounts :
      (w : AtomicSerialWaker 𝓠) (t : Task) → IsValid w → Accounts (t ∷ []) w [] (notify 𝓠 w t)
  unfolding notify
  notify-Accounts w t v = record {
    valid = record { cap = v.cap; fits = v.fits };
    kept = λ p. omega (arith, count-append p w.notified (t ∷ []));
    told = omega (arith, length-append w.notified (t ∷ []));
  }

  -- Taking the oldest task out of the queue.
  pop-Accounts :
      (w : AtomicSerialWaker 𝓠) (t : Task) (q : Queue) (n : ℕ)
      → IsValid w
      → tasks w.waker ≡ t ∷ tasks q
      → capacity q ≡ capacity w.waker
      → Accounts [] w (t ∷ []) (record w { waker = q; waiting = n })
  pop-Accounts w t q n v e c = record {
    valid = record { cap = c ∙ v.cap; fits = omega (arith, ap length e, v.fits) };
    kept = λ p. omega (arith, ap (count p) e);
    told = refl;
  }

  push-Accounts :
      (w : AtomicSerialWaker 𝓠) (t : Task) (q : Queue)
      → IsValid w
      → length (tasks w.waker) < capacity w.waker
      → tasks q ≡ tasks w.waker ++ (t ∷ [])
      → capacity q ≡ capacity w.waker
      → Accounts (t ∷ []) w [] (record w { waker = q })
  push-Accounts w t q v room e c = record {
    valid = record {
      cap = c ∙ v.cap;
      fits = omega (arith, ap length e, length-append (tasks w.waker) (t ∷ []), v.cap);
    };
    kept = λ p. omega (arith, ap (count p) e, count-append p (tasks w.waker) (t ∷ []));
    told = refl;
  }

  push_back-Accounts :
      (w : AtomicSerialWaker 𝓠) (t : Task) → IsValid w → Accounts (t ∷ []) w [] (push_back 𝓠 w t)
  unfolding push_back
  push_back-Accounts w t v = elim (push-Pushes w.waker t) [
    | inl (room, took, e, c) ↦ rw (took, push_back) (push-Accounts w t _ v room e c)
    | inr (full, back, same) ↦ rw (back, push_back, same) (notify-Accounts w t v)
  ]

  wk-Accounts : (w : AtomicSerialWaker 𝓠) → IsValid w → Accounts [] w [] (wk 𝓠 w)
  unfolding wk positive_update
  wk-Accounts w v = elim (pop-Pops w.waker) [
    | inl (e, f) ↦ rw (f, wk) (record { valid = v; kept = λ p. refl; told = refl })
    | inr (t, q, f, e, c) ↦ elim (dec_lt 0 w.waiting) [
      | yes some_wait ↦
          let g = pop-Accounts w t q (w.waiting - 1) v e c in
          rw (f, wk, lt→ltb 0 w.waiting some_wait) (Accounts-trans g (notify-Accounts _ t g.valid))
      | no none_wait ↦
          let g = pop-Accounts w t q w.waiting v e c in
          rw (f, wk, le→ltb 0 w.waiting (omega arith))
            (Accounts-trans g (push_back-Accounts _ t g.valid))
    ]
  ]

  -- A registered task waits or is notified at once, and no other task is lost.
  pub register-Accounts :
      (w : AtomicSerialWaker 𝓠) (t : Task) → IsValid w → Accounts (t ∷ []) w [] (register 𝓠 w t)
  unfolding register
  register-Accounts w t v = elim (push-Pushes w.waker t) [
    | inl (room, took, e, c) ↦
        let g = push-Accounts w t _ v room e c in
        rw (took, register) (Accounts-trans g (wk-Accounts _ g.valid))
    | inr (full, back, same) ↦ rw (back, register, same) (notify-Accounts w t v)
  ]

  pub wake-Accounts : (w : AtomicSerialWaker 𝓠) → IsValid w → Accounts [] w [] (wake 𝓠 w)
  unfolding wake
  wake-Accounts w v = elim (pop-Pops w.waker) [
    | inl (e, f) ↦
        rw (f, wake)
          (record { valid = record { cap = v.cap; fits = v.fits }; kept = λ p. refl; told = refl })
    | inr (t, q, f, e, c) ↦
        let g = pop-Accounts w t q w.waiting v e c in
        rw (f, wake) (Accounts-trans g (notify-Accounts _ t g.valid))
  ]

  wake_loop-Accounts :
      (fuel : ℕ) (w : AtomicSerialWaker 𝓠) → IsValid w → Accounts [] w [] (wake_loop 𝓠 fuel w)
  unfolding wake_loop
  wake_loop-Accounts zero w v = record { valid = v; kept = λ p. refl; told = refl }
  wake_loop-Accounts (suc fuel) w v = elim (pop-Pops w.waker) [
    | inl (e, f) ↦ rw (f, wake_loop) (record { valid = v; kept = λ p. refl; told = refl })
    | inr (t, q, f, e, c) ↦
        let g = pop-Accounts w t q w.waiting v e c in
        let h = Accounts-trans g (notify-Accounts _ t g.valid) in
        rw (f, wake_loop) (Accounts-trans h (wake_loop-Accounts fuel _ h.valid))
  ]

  pub wake_all-Accounts : (w : AtomicSerialWaker 𝓠) → IsValid w → Accounts [] w [] (wake_all 𝓠 w)
  unfolding wake_all
  wake_all-Accounts w v = wake_loop-Accounts (suc waker_cap) w v
