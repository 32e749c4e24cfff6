-- ===== src/Counter/Steps.antt =====
-- What holds of the counter of src/counter.rs between two steps of its threads, and that each step
-- but the deallocation keeps it.
use zchan.Base.{
  ℕ, zero, suc, ◌+◌, ◌-◌, ◌≤◌, ◌<◌, ◌≡◌, refl, ap, ◌∙◌, ℕ_discrete, eq→==, ne→==, Bool, true, false,
  Option, none, some, [], ◌∷◌, arith,
}
use zchan.Word.{usize_mod}
use zchan.Counter.{
  Counter, Side, sender, receiver, Threads, disconnects, State, Outcome, next, aborted, fault,
  threads, acquire, subtract, swap, perform,
}
use zchan.Counter.Sides.{
  SideValid, done, told, bit, side_acquire, side_subtract, side_subtract_last, side_alone,
  side_disconnect, side_swap, users,
}

module _ {C : Type 0} (shutdown : C → C × Bool) (chan : C) where
  abbrev pub shut_down : ℕ → C
  shut_down zero = chan
  shut_down (suc n) = (shutdown (shut_down n)).0

  pub record Live (c : Counter C) (s r : Threads) : Type 0 where
    pub on_sender : SideValid c.senders s
    pub on_receiver : SideValid c.receivers r
    pub books : done s + done r ≡ bit c.destroy + s.freeing + r.freeing
    pub once : s.freeing + r.freeing ≤ bit c.destroy
    pub calls : c.chan ≡ shut_down (told s + told r)

  abbrev pub InvAt : Option (Counter C) → State C → Type 0
  InvAt none st = (users st ≡ 0) × (st.freed ≡ (shutdown (shutdown chan).0).0 ∷ [])
  InvAt (some c) st = Live c st.at_sender st.at_receiver × (st.freed ≡ [])

  abbrev pub Inv : State C → Type 0
  Inv st = InvAt st.memory st

  abbrev pub After : Outcome C → Type 0
  After (next st) = Inv st
  After aborted = Unit {0}
  After fault = ⊥

  pub acquire-After :
      (side : Side) (c : Counter C) (st : State C)
      → Live c st.at_sender st.at_receiver
      → st.freed ≡ []
      → 0 < (threads side st).holding
      → After (acquire side c st)
  unfolding acquire
  acquire-After sender c st l f h = elim (ℕ_discrete c.senders (usize_mod - 1)) [
    | yes e ↦ rw (eq→== c.senders (usize_mod - 1) e) tt
    | no ne ↦ rw (ne→== c.senders (usize_mod - 1) ne) (
      record {
        on_sender = side_acquire c.senders st.at_sender l.on_sender h ne;
        on_receiver = l.on_receiver;
        books = ground (arith, l.books);
        once = l.once;
        calls = l.calls ∙ ap shut_down (ground arith);
      },
      f,
    )
  ]
  acquire-After receiver c st l f h = elim (ℕ_discrete c.receivers (usize_mod - 1)) [
    | yes e ↦ rw (eq→== c.receivers (usize_mod - 1) e) tt
    | no ne ↦ rw (ne→== c.receivers (usize_mod - 1) ne) (
      record {
        on_sender = l.on_sender;
        on_receiver = side_acquire c.receivers st.at_receiver l.on_receiver h ne;
        books = ground (arith, l.books);
        once = l.once;
        calls = l.calls ∙ ap shut_down (ground arith);
      },
      f,
    )
  ]

  pub subtract-After :
      (side : Side) (c : Counter C) (st : State C)
      → Live c st.at_sender st.at_receiver
      → st.freed ≡ []
      → 0 < (threads side st).holding
      → After (subtract side c st)
  unfolding subtract
  subtract-After sender c st l f h = elim (ℕ_discrete c.senders 1) [
    | yes e ↦ rw (eq→== c.senders 1 e) (
      record {
        on_sender = side_subtract_last c.senders st.at_sender l.on_sender h e;
        on_receiver = l.on_receiver;
        books = ground (arith, l.books, l.on_sender.counts, l.on_sender.last);
        once = l.once;
        calls = l.calls ∙ ap shut_down (ground (arith, l.on_sender.counts));
      },
      f,
    )
    | no ne ↦ rw (ne→== c.senders 1 ne) (
      record {
        on_sender = side_subtract c.senders st.at_sender l.on_sender h ne;
        on_receiver = l.on_receiver;
        books = ground (arith, l.books, l.on_sender.counts, l.on_sender.last);
        once = l.once;
        calls = l.calls ∙ ap shut_down (ground (arith, l.on_sender.counts));
      },
      f,
    )
  ]
  subtract-After receiver c st l f h = elim (ℕ_discrete c.receivers 1) [
    | yes e ↦ rw (eq→== c.receivers 1 e) (
      record {
        on_sender = l.on_sender;
        on_receiver = side_subtract_last c.receivers st.at_receiver l.on_receiver h e;
        books = ground (arith, l.books, l.on_receiver.counts, l.on_receiver.last);
        once = l.once;
        calls = l.calls ∙ ap shut_down (ground (arith, l.on_receiver.counts));
      },
      f,
    )
    | no ne ↦ rw (ne→== c.receivers 1 ne) (
      record {
        on_sender = l.on_sender;
        on_receiver = side_subtract c.receivers st.at_receiver l.on_receiver h ne;
        books = ground (arith, l.books, l.on_receiver.counts, l.on_receiver.last);
        once = l.once;
        calls = l.calls ∙ ap shut_down (ground (arith, l.on_receiver.counts));
      },
      f,
    )
  ]

  pub disconnect-After :
      (side : Side) (c : Counter C) (st : State C)
      → Live c st.at_sender st.at_receiver
      → st.freed ≡ []
      → 0 < (threads side st).disconnecting
      → After (perform shutdown side disconnects c st)
  unfolding perform
  disconnect-After sender c st l f h =
      let alone = side_alone c.senders st.at_sender l.on_sender (omega arith) in
      let one_more : suc (told st.at_sender + told st.at_receiver)
          ≡ told (record st.at_sender {
            disconnecting = st.at_sender.disconnecting - 1;
            swapping = st.at_sender.swapping + 1;
          })
            + told st.at_receiver =
        ground (arith, alone, l.on_sender.one) in
      (
        record {
          on_sender = side_disconnect c.senders st.at_sender l.on_sender h;
          on_receiver = l.on_receiver;
          books = ground (arith, l.books);
          once = l.once;
          calls = ap (λ (x : C). (shutdown x).0) l.calls ∙ ap shut_down one_more;
        },
        f,
      )
  disconnect-After receiver c st l f h =
      let alone = side_alone c.receivers st.at_receiver l.on_receiver (omega arith) in
      let one_more : suc (told st.at_sender + told st.at_receiver)
          ≡ told st.at_sender
            + told (record st.at_receiver {
              disconnecting = st.at_receiver.disconnecting - 1;
              swapping = st.at_receiver.swapping + 1;
            }) =
        ground (arith, alone, l.on_receiver.one) in
      (
        record {
          on_sender = l.on_sender;
          on_receiver = side_disconnect c.receivers st.at_receiver l.on_receiver h;
          books = ground (arith, l.books);
          once = l.once;
          calls = ap (λ (x : C). (shutdown x).0) l.calls ∙ ap shut_down one_more;
        },
        f,
      )

  pub swap-After :
      (side : Side) (c : Counter C) (st : State C)
      → Live c st.at_sender st.at_receiver
      → st.freed ≡ []
      → 0 < (threads side st).swapping
      → After (swap side c st)
  unfolding swap
  swap-After side c st l f h = by_flag side c.destroy refl h
    where
      by_flag :
          (side : Side) (b : Bool)
          → c.destroy ≡ b
          → 0 < (threads side st).swapping
          → After (swap side c st)
      by_flag sender true e h =
          let alone = side_alone c.senders st.at_sender l.on_sender (omega arith) in
          rw e (
            record {
              on_sender = side_swap c.senders (st.at_sender.freeing + 1) st.at_sender l.on_sender h;
              on_receiver = l.on_receiver;
              books = ground (arith, e, alone, l.books, l.on_sender.one);
              once = ground (arith, e, alone, l.books, l.once, l.on_sender.one);
              calls = l.calls;
            },
            f,
          )
      by_flag sender false e h =
          let alone = side_alone c.senders st.at_sender l.on_sender (omega arith) in
          rw e (
            record {
              on_sender = side_swap c.senders st.at_sender.freeing st.at_sender l.on_sender h;
              on_receiver = l.on_receiver;
              books = ground (arith, e, alone, l.books, l.on_sender.one);
              once = ground (arith, e, alone, l.books, l.once, l.on_sender.one);
              calls = l.calls;
            },
            f,
          )
      by_flag receiver true e h =
          let alone = side_alone c.receivers st.at_receiver l.on_receiver (omega arith) in
          rw e (
            record {
              on_sender = l.on_sender;
              on_receiver =
                  side_swap c.receivers (st.at_receiver.freeing + 1) st.at_receiver l.on_receiver h;
              books = ground (arith, e, alone, l.books, l.on_receiver.one);
              once = ground (arith, e, alone, l.books, l.once, l.on_receiver.one);
              calls = l.calls;
            },
            f,
          )
      by_flag receiver false e h =
          let alone = side_alone c.receivers st.at_receiver l.on_receiver (omega arith) in
          rw e (
            record {
              on_sender = l.on_sender;
              on_receiver =
                  side_swap c.receivers st.at_receiver.freeing st.at_receiver l.on_receiver h;
              books = ground (arith, e, alone, l.books, l.on_receiver.one);
              once = ground (arith, e, alone, l.books, l.once, l.on_receiver.one);
              calls = l.calls;
            },
            f,
          )
