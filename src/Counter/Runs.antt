-- ===== src/Counter/Runs.antt =====
-- The box of src/counter.rs is deallocated once, by the last thread that uses it.
use zchan.Base.{
  ◌+◌, ◌≤◌, ◌<◌, ◌≡◌, refl, ap, ◌∙◌, lt→ltb, le→ltb, dec_lt, Bool, Option, none, some, List, [],
  ◌∷◌, arith,
}
use zchan.Counter.{
  Counter, Side, sender, receiver, Threads, Act, acquires, subtracts, disconnects, swaps, frees,
  State, Outcome, next, aborted, fault, before, threads, new, perform, step, run,
}
use zchan.Counter.Sides.{done, told, done-le, done-zero, told-done, bit-le, nobody_done, users}
use zchan.Counter.Steps.{
  shut_down, Live, InvAt, Inv, After, acquire-After, subtract-After, disconnect-After, swap-After,
}

module _ {C : Type 0} (shutdown : C → C × Bool) (chan : C) where
  abbrev pub SoundAt : Option (Counter C) → State C → Type 0
  SoundAt none st = (users st ≡ 0) × (st.freed ≡ (shutdown (shutdown chan).0).0 ∷ [])
  SoundAt (some c) st = (0 < users st) × (st.freed ≡ [])

  -- No access of a box that is deallocated; and the box is there and used, or it was deallocated
  -- once, with the channel shut down twice, and nobody uses it.
  abbrev pub Sound : Outcome C → Type 0
  Sound (next st) = SoundAt st.memory st
  Sound aborted = Unit {0}
  Sound fault = ⊥

  -- With a thread before the deallocation nobody else is left.
  free_alone :
      (c : Counter C) (s r : Threads)
      → Live shutdown chan c s r
      → 0 < s.freeing + r.freeing
      → (s.freeing + r.freeing ≡ 1)
        × (s.holding + s.disconnecting + s.swapping ≡ 0)
        × (r.holding + r.disconnecting + r.swapping ≡ 0)
        × (c.chan ≡ shut_down shutdown chan 2)
  free_alone c s r l h =
      let s_done : done s ≡ 1 = omega (arith, l.books, l.once, h, done-le s, done-le r) in
      let r_done : done r ≡ 1 = omega (arith, l.books, l.once, h, done-le s, done-le r) in
      let twice : told s + told r ≡ 2 = omega (arith, told-done s s_done, told-done r r_done) in
      (
        omega (arith, l.books, l.once, h, done-le s, done-le r),
        done-zero s s_done,
        done-zero r r_done,
        l.calls ∙ ap (shut_down shutdown chan) twice,
      )

  free-After :
      (side : Side) (c : Counter C) (st : State C)
      → Live shutdown chan c st.at_sender st.at_receiver
      → st.freed ≡ []
      → 0 < (threads side st).freeing
      → After shutdown chan (perform shutdown side frees c st)
  unfolding perform
  free-After sender c st l f h =
      let (one, s_none, r_none, chan_is) =
        free_alone c st.at_sender st.at_receiver l (omega arith) in
      (
        omega (arith, one, s_none, r_none, h),
        ap (λ (l : List C). c.chan ∷ l) f ∙ ap (λ (x : C). x ∷ []) chan_is,
      )
  free-After receiver c st l f h =
      let (one, s_none, r_none, chan_is) =
        free_alone c st.at_sender st.at_receiver l (omega arith) in
      (
        omega (arith, one, s_none, r_none, h),
        ap (λ (l : List C). c.chan ∷ l) f ∙ ap (λ (x : C). x ∷ []) chan_is,
      )

  perform-After :
      (side : Side) (act : Act) (c : Counter C) (st : State C)
      → Live shutdown chan c st.at_sender st.at_receiver
      → st.freed ≡ []
      → 0 < before act (threads side st)
      → After shutdown chan (perform shutdown side act c st)
  unfolding perform
  perform-After side acquires c st l f h = acquire-After shutdown chan side c st l f h
  perform-After side subtracts c st l f h = subtract-After shutdown chan side c st l f h
  perform-After side disconnects c st l f h = disconnect-After shutdown chan side c st l f h
  perform-After side swaps c st l f h = swap-After shutdown chan side c st l f h
  perform-After side frees c st l f h = free-After side c st l f h

  before-users : (side : Side) (act : Act) (st : State C) → before act (threads side st) ≤ users st
  before-users sender acquires st = omega arith
  before-users sender subtracts st = omega arith
  before-users sender disconnects st = omega arith
  before-users sender swaps st = omega arith
  before-users sender frees st = omega arith
  before-users receiver acquires st = omega arith
  before-users receiver subtracts st = omega arith
  before-users receiver disconnects st = omega arith
  before-users receiver swaps st = omega arith
  before-users receiver frees st = omega arith

  step-After :
      (side : Side) (act : Act) (st : State C)
      → Inv shutdown chan st
      → After shutdown chan (step shutdown side act st)
  unfolding step
  step-After side act st i = elim (dec_lt 0 (before act (threads side st))) [
    | yes here ↦ rw (lt→ltb 0 (before act (threads side st)) here) (by_memory st.memory i here)
    | no nobody ↦ rw (le→ltb 0 (before act (threads side st)) (omega arith)) i
  ]
    where
      by_memory :
          (m : Option (Counter C))
          → InvAt shutdown chan m st
          → 0 < before act (threads side st)
          → After shutdown chan (elim m [ none ↦ fault | some c ↦ perform shutdown side act c st ])
      by_memory none i' here = absurd (omega (arith, i'.0, before-users side act st))
      by_memory (some c) (l, f) here = perform-After side act c st l f here

  run-After :
      (acts : List (Side × Act)) (st : State C)
      → Inv shutdown chan st
      → After shutdown chan (run shutdown acts st)
  unfolding run
  run-After [] st i = i
  run-After ((side, act) ∷ acts) st i =
      by_outcome (run-After acts) (step shutdown side act st) (step-After side act st i)
    where
      by_outcome :
          ((st' : State C) → Inv shutdown chan st' → After shutdown chan (run shutdown acts st'))
          → (o : Outcome C) → After shutdown chan o
          → After shutdown chan
              (elim o [ next st' ↦ run shutdown acts st' | aborted ↦ aborted | fault ↦ fault ])
      by_outcome rest (next st') i' = rest st' i'
      by_outcome rest aborted i' = tt
      by_outcome rest fault i' = absurd i'

  new-Inv : Inv shutdown chan (new chan)
  new-Inv = (
    record {
      on_sender = record {
        counts = refl;
        small = omega arith;
        one = omega arith;
        last = λ _. refl;
      };
      on_receiver = record {
        counts = refl;
        small = omega arith;
        one = omega arith;
        last = λ _. refl;
      };
      books = refl;
      once = omega arith;
      calls = refl;
    },
    refl,
  )

  Live-users :
      (c : Counter C) (st : State C)
      → Live shutdown chan c st.at_sender st.at_receiver
      → 0 < users st
  Live-users c st l = elim (dec_lt 0 (users st)) [
    | yes h ↦ h
    | no none_left ↦ absurd (
        omega (
          arith,
          l.books,
          l.once,
          bit-le c.destroy,
          none_left,
          nobody_done st.at_sender (omega arith),
          nobody_done st.at_receiver (omega arith),
        ))
  ]

  After-Sound : (o : Outcome C) → After shutdown chan o → Sound o
  After-Sound (next st) i = by_memory st.memory i
    where
      by_memory : (m : Option (Counter C)) → InvAt shutdown chan m st → SoundAt m st
      by_memory none i' = i'
      by_memory (some c) (l, f) = (Live-users c st l, f)
  After-Sound aborted i = tt
  After-Sound fault i = i

  -- From a new channel on, however its handles' threads interleave in `acquire` and `release` (each
  -- schedule of their accesses of shared memory): no thread accesses the box after its deallocation;
  -- the box is there as long as a thread uses it; and once nobody does, it has been deallocated
  -- exactly once, after `shutdown` was called on the channel exactly twice. (A process whose count
  -- reaches 2 ^ 64 - 1 is aborted.)
  pub run-Sound : (acts : List (Side × Act)) → Sound (run shutdown acts (new chan))
  run-Sound acts = After-Sound (run shutdown acts (new chan)) (run-After acts (new chan) new-Inv)
