-- ===== src/Array/Send/Run.antt =====
-- `start_send` of src/array.rs from start to end, with no other thread: it returns, whatever
-- compare-exchanges fail spuriously.
use zchan.Base.{
  ℕ, zero, suc, ◌+◌, ◌-◌, ◌*◌, ◌≤◌, ◌<◌, ◌≡◌, refl, sym, ap, ◌∙◌, Bool, true, false, some, List,
  length, ltb, eq→==, lt→ltb, ◌&&◌, if◌then◌else◌, arith, subst,
}
use zchan.SerialWaker.Queue.{ArrayQueue}
use zchan.Array.{Array, Channel, default}
use zchan.Array.Send.{
  SendPc, at_exchange, inspect, exchange, load_head, load_tail, reserved, not_ready, send_step,
  start_send,
}
use zchan.Array.Inv.{Holds}
use zchan.Array.Send.Laws.{
  tail_index, tail_after, inspect-closed, inspect-room, inspect-full, head-full,
}

-- Two steps for each spurious failure.
unfoldable pub rounds : ℕ → ℕ → ℕ
rounds zero extra = extra
rounds (suc fails) extra = suc (suc (rounds fails extra))

pub rounds_lem : (fails extra : ℕ) → rounds fails extra ≡ 2 * fails + extra
unfolding rounds
rounds_lem zero extra = omega arith
rounds_lem (suc fails) extra = omega (arith, rounds_lem fails extra)

module _ {T : Type 0} {𝓠 : ArrayQueue} where
  reserved_stays :
      (fuel fails : ℕ) (c : Channel T 𝓠) (a : Array)
      → start_send T 𝓠 fuel fails c (reserved a) ≡ (c, reserved a)
  unfolding start_send
  reserved_stays zero fails c a = refl
  reserved_stays (suc fuel) fails c a = reserved_stays fuel fails c a

  not_ready_stays :
      (fuel fails : ℕ) (c : Channel T 𝓠) → start_send T 𝓠 fuel fails c not_ready ≡ (c, not_ready)
  unfolding start_send
  not_ready_stays zero fails c = refl
  not_ready_stays (suc fuel) fails c = not_ready_stays fuel fails c

  -- One step of the run, given its result.
  advance :
      (fuel fails : ℕ) (c : Channel T 𝓠) (pc : SendPc) (c' : Channel T 𝓠) (pc' : SendPc)
      → send_step T 𝓠 (at_exchange pc && ltb 0 fails) c pc ≡ (c', pc')
      → start_send T 𝓠 (suc fuel) fails c pc
        ≡ start_send T 𝓠 fuel (if at_exchange pc && ltb 0 fails then fails - 1 else fails) c' pc'
  unfolding start_send
  advance fuel fails c pc c' pc' e = λ i.
      start_send T 𝓠 fuel (if at_exchange pc && ltb 0 fails then fails - 1 else fails) (e i).0
        (e i).1

  module _ {c : Channel T 𝓠} {xs : List T} {closed : Bool} (h : Holds c xs closed) where
    -- What a successful `start_send` leaves: the tail moved on, and the token for the slot.
    unfoldable pub moved : Channel T 𝓠
    moved = record c { tail = tail_after h }

    abbrev pub token : Array
    token = record { slot = some (tail_index h); stamp = c.tail + 1 }

    abbrev try_exchange : SendPc
    try_exchange = exchange c.tail (tail_after h) (tail_index h)

    -- The compare-exchange succeeds, or fails spuriously and looks at the same tail again.
    exchange_wins : send_step T 𝓠 false c try_exchange ≡ (moved, reserved token)
    unfolding send_step moved
    exchange_wins = rw (eq→== c.tail c.tail refl)

    exchange_fails : send_step T 𝓠 true c try_exchange ≡ (c, inspect c.tail)
    unfolding send_step
    exchange_fails = rw (eq→== c.tail c.tail refl)

    to_exchange :
        closed ≡ false
        → length xs < c.cap
        → (fuel fails : ℕ)
        → start_send T 𝓠 (suc fuel) fails c (inspect c.tail)
          ≡ start_send T 𝓠 fuel fails c try_exchange
    unfolding send_step
    to_exchange alive free fuel fails =
        advance fuel fails c (inspect c.tail) c try_exchange
          (ap (λ p. (c, p)) (inspect-room h alive free))

    fail_once :
        (fuel fails : ℕ)
        → start_send T 𝓠 (suc fuel) (suc fails) c try_exchange
          ≡ start_send T 𝓠 fuel fails c (inspect c.tail)
    fail_once fuel fails =
        let more : ltb 0 (suc fails) ≡ true = lt→ltb 0 (suc fails) (omega arith) in
        advance fuel (suc fails) c try_exchange c (inspect c.tail) (
          subst (λ b. send_step T 𝓠 b c try_exchange ≡ (c, inspect c.tail)) (sym more)
            exchange_fails)
        ∙ ap (λ b. start_send T 𝓠 fuel (if b then suc fails - 1 else suc fails) c (inspect c.tail))
            more
        ∙ ap (λ (n : ℕ). start_send T 𝓠 fuel n c (inspect c.tail)) (omega arith)

    from_inspect :
        closed ≡ false
        → length xs < c.cap
        → (fails extra : ℕ)
        → start_send T 𝓠 (suc (suc (rounds fails extra))) fails c (inspect c.tail)
          ≡ (moved, reserved token)
    unfolding rounds
    from_inspect alive free zero extra =
        to_exchange alive free (suc extra) 0
        ∙ advance extra 0 c try_exchange moved (reserved token) exchange_wins
        ∙ reserved_stays extra 0 moved token
    from_inspect alive free (suc fails) extra =
        to_exchange alive free (suc (suc (suc (rounds fails extra)))) (suc fails)
        ∙ fail_once (suc (suc (rounds fails extra))) fails
        ∙ from_inspect alive free fails extra

    enough :
        (fuel fails : ℕ)
        → 2 * fails + 3 ≤ fuel
        → fuel ≡ suc (suc (suc (rounds fails (fuel - (2 * fails + 3)))))
    enough fuel fails f = omega (arith, rounds_lem fails (fuel - (2 * fails + 3)))

    -- With room left `start_send` moves the tail and returns the token for the slot.
    pub start_send-room :
        closed ≡ false
        → length xs < c.cap
        → (fuel fails : ℕ) → 2 * fails + 3 ≤ fuel
        → start_send T 𝓠 fuel fails c load_tail ≡ (moved, reserved token)
    unfolding send_step
    start_send-room alive free fuel fails f =
        let extra = fuel - (2 * fails + 3) in
        ap (λ (n : ℕ). start_send T 𝓠 n fails c load_tail) (enough fuel fails f)
        ∙ advance (suc (suc (rounds fails extra))) fails c load_tail c (inspect c.tail) refl
        ∙ from_inspect alive free fails extra

    three_steps : (fuel fails : ℕ) → 2 * fails + 3 ≤ fuel → fuel ≡ suc (suc (suc (fuel - 3)))
    three_steps fuel fails f = omega arith

    -- On a full channel it returns false.
    pub start_send-full :
        closed ≡ false
        → length xs ≡ c.cap
        → (fuel fails : ℕ) → 2 * fails + 3 ≤ fuel
        → start_send T 𝓠 fuel fails c load_tail ≡ (c, not_ready)
    unfolding send_step
    start_send-full alive full fuel fails f =
        ap (λ (n : ℕ). start_send T 𝓠 n fails c load_tail) (three_steps fuel fails f)
        ∙ advance (suc (suc (fuel - 3))) fails c load_tail c (inspect c.tail) refl
        ∙ advance (suc (fuel - 3)) fails c (inspect c.tail) c (load_head c.tail)
            (ap (λ p. (c, p)) (inspect-full h alive full))
        ∙ advance (fuel - 3) fails c (load_head c.tail) c not_ready (
            ap (λ b. (c, if b then not_ready else load_tail))
              (eq→== _ c.tail (head-full h alive full)))
        ∙ not_ready_stays (fuel - 3) fails c

    -- On a disconnected channel it returns the null token.
    pub start_send-closed :
        closed ≡ true
        → (fuel fails : ℕ) → 2 * fails + 3 ≤ fuel
        → start_send T 𝓠 fuel fails c load_tail ≡ (c, reserved default)
    unfolding send_step
    start_send-closed shut fuel fails f =
        ap (λ (n : ℕ). start_send T 𝓠 n fails c load_tail) (three_steps fuel fails f)
        ∙ advance (suc (suc (fuel - 3))) fails c load_tail c (inspect c.tail) refl
        ∙ advance (suc (fuel - 3)) fails c (inspect c.tail) c (reserved default)
            (ap (λ p. (c, p)) (inspect-closed h shut))
        ∙ reserved_stays (suc (fuel - 3)) fails c default
