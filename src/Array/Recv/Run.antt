-- ===== src/Array/Recv/Run.antt =====
-- `start_recv` of src/array.rs from start to end, with no other thread: it returns, whatever
-- compare-exchanges fail spuriously.
use zchan.Base.{
  ℕ, zero, suc, ◌+◌, ◌-◌, ◌*◌, ◌≤◌, ◌<◌, ◌≡◌, refl, sym, ap, ◌∙◌, Bool, true, false, some, List,
  length, ltb, eq→==, lt→ltb, ◌&&◌, if◌then◌else◌, arith, subst,
}
use zchan.Word.{wrapping_add}
use zchan.SerialWaker.Queue.{ArrayQueue}
use zchan.Array.{Array, Channel, default}
use zchan.Array.Recv.{
  RecvPc, at_exchange, inspect, exchange, load_head, load_tail, reserved, not_ready, compare_tail,
  recv_step, start_recv,
}
use zchan.Array.Inv.{Holds}
use zchan.Array.Send.Run.{rounds, rounds_lem}
use zchan.Array.Recv.Laws.{head_after, inspect-some, inspect-empty, compare-open, compare-closed}

module _ {T : Type 0} {𝓠 : ArrayQueue} where
  reserved_stays :
      (fuel fails : ℕ) (c : Channel T 𝓠) (a : Array)
      → start_recv T 𝓠 fuel fails c (reserved a) ≡ (c, reserved a)
  unfolding start_recv
  reserved_stays zero fails c a = refl
  reserved_stays (suc fuel) fails c a = reserved_stays fuel fails c a

  not_ready_stays :
      (fuel fails : ℕ) (c : Channel T 𝓠) → start_recv T 𝓠 fuel fails c not_ready ≡ (c, not_ready)
  unfolding start_recv
  not_ready_stays zero fails c = refl
  not_ready_stays (suc fuel) fails c = not_ready_stays fuel fails c

  -- One step of the run, given its result.
  advance :
      (fuel fails : ℕ) (c : Channel T 𝓠) (pc : RecvPc) (c' : Channel T 𝓠) (pc' : RecvPc)
      → recv_step T 𝓠 (at_exchange pc && ltb 0 fails) c pc ≡ (c', pc')
      → start_recv T 𝓠 (suc fuel) fails c pc
        ≡ start_recv T 𝓠 fuel (if at_exchange pc && ltb 0 fails then fails - 1 else fails) c' pc'
  unfolding start_recv
  advance fuel fails c pc c' pc' e = λ i.
      start_recv T 𝓠 fuel (if at_exchange pc && ltb 0 fails then fails - 1 else fails) (e i).0
        (e i).1

  module _ {c : Channel T 𝓠} {xs : List T} {closed : Bool} (h : Holds c xs closed) where
    -- What a successful `start_recv` leaves: the head moved on, and the token for the slot.
    unfoldable pub moved : Channel T 𝓠
    moved = record c { head = head_after h }

    abbrev pub token : Array
    token = record { slot = some h.index; stamp = wrapping_add c.head c.one_lap }

    abbrev try_exchange : RecvPc
    try_exchange = exchange c.head (head_after h) h.index

    -- The compare-exchange succeeds, or fails spuriously and looks at the same head again.
    exchange_wins : recv_step T 𝓠 false c try_exchange ≡ (moved, reserved token)
    unfolding recv_step moved
    exchange_wins = rw (eq→== c.head c.head refl)

    exchange_fails : recv_step T 𝓠 true c try_exchange ≡ (c, inspect c.head)
    unfolding recv_step
    exchange_fails = rw (eq→== c.head c.head refl)

    to_exchange :
        0 < length xs
        → (fuel fails : ℕ)
        → start_recv T 𝓠 (suc fuel) fails c (inspect c.head)
          ≡ start_recv T 𝓠 fuel fails c try_exchange
    unfolding recv_step
    to_exchange some_left fuel fails =
        advance fuel fails c (inspect c.head) c try_exchange
          (ap (λ p. (c, p)) (inspect-some h some_left))

    fail_once :
        (fuel fails : ℕ)
        → start_recv T 𝓠 (suc fuel) (suc fails) c try_exchange
          ≡ start_recv T 𝓠 fuel fails c (inspect c.head)
    fail_once fuel fails =
        let more : ltb 0 (suc fails) ≡ true = lt→ltb 0 (suc fails) (omega arith) in
        advance fuel (suc fails) c try_exchange c (inspect c.head) (
          subst (λ b. recv_step T 𝓠 b c try_exchange ≡ (c, inspect c.head)) (sym more)
            exchange_fails)
        ∙ ap (λ b. start_recv T 𝓠 fuel (if b then suc fails - 1 else suc fails) c (inspect c.head))
            more
        ∙ ap (λ (n : ℕ). start_recv T 𝓠 fuel n c (inspect c.head)) (omega arith)

    from_inspect :
        0 < length xs
        → (fails extra : ℕ)
        → start_recv T 𝓠 (suc (suc (rounds fails extra))) fails c (inspect c.head)
          ≡ (moved, reserved token)
    unfolding rounds
    from_inspect some_left zero extra =
        to_exchange some_left (suc extra) 0
        ∙ advance extra 0 c try_exchange moved (reserved token) exchange_wins
        ∙ reserved_stays extra 0 moved token
    from_inspect some_left (suc fails) extra =
        to_exchange some_left (suc (suc (suc (rounds fails extra)))) (suc fails)
        ∙ fail_once (suc (suc (rounds fails extra))) fails
        ∙ from_inspect some_left fails extra

    enough :
        (fuel fails : ℕ)
        → 2 * fails + 3 ≤ fuel
        → fuel ≡ suc (suc (suc (rounds fails (fuel - (2 * fails + 3)))))
    enough fuel fails f = omega (arith, rounds_lem fails (fuel - (2 * fails + 3)))

    -- With a message there `start_recv` moves the head and returns the token for its slot.
    pub start_recv-some :
        0 < length xs
        → (fuel fails : ℕ) → 2 * fails + 3 ≤ fuel
        → start_recv T 𝓠 fuel fails c load_head ≡ (moved, reserved token)
    unfolding recv_step
    start_recv-some some_left fuel fails f =
        let extra = fuel - (2 * fails + 3) in
        ap (λ (n : ℕ). start_recv T 𝓠 n fails c load_head) (enough fuel fails f)
        ∙ advance (suc (suc (rounds fails extra))) fails c load_head c (inspect c.head) refl
        ∙ from_inspect some_left fails extra

    three_steps : (fuel fails : ℕ) → 2 * fails + 3 ≤ fuel → fuel ≡ suc (suc (suc (fuel - 3)))
    three_steps fuel fails f = omega arith

    module _ (none_left : length xs ≡ 0) (fuel fails : ℕ) (f : 2 * fails + 3 ≤ fuel) where
      to_compare :
          start_recv T 𝓠 fuel fails c load_head
          ≡ start_recv T 𝓠 (fuel - 3) fails c (compare_tail T 𝓠 c c.head c.tail)
      unfolding recv_step
      to_compare =
          ap (λ (n : ℕ). start_recv T 𝓠 n fails c load_head) (three_steps fuel fails f)
          ∙ advance (suc (suc (fuel - 3))) fails c load_head c (inspect c.head) refl
          ∙ advance (suc (fuel - 3)) fails c (inspect c.head) c (load_tail c.head)
              (ap (λ p. (c, p)) (inspect-empty h none_left))
          ∙ advance (fuel - 3) fails c (load_tail c.head) c _ refl

      -- On an empty channel `start_recv` returns false.
      pub start_recv-empty : closed ≡ false → start_recv T 𝓠 fuel fails c load_head ≡ (c, not_ready)
      start_recv-empty alive =
          to_compare
          ∙ ap (start_recv T 𝓠 (fuel - 3) fails c) (compare-open h alive none_left)
          ∙ not_ready_stays (fuel - 3) fails c

      -- On an empty and disconnected channel it returns the null token.
      pub start_recv-closed :
          closed ≡ true → start_recv T 𝓠 fuel fails c load_head ≡ (c, reserved default)
      start_recv-closed shut =
          to_compare
          ∙ ap (start_recv T 𝓠 (fuel - 3) fails c) (compare-closed h shut none_left)
          ∙ reserved_stays (fuel - 3) fails c default
