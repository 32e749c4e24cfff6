-- ===== src/Unbounded/Send/Run.antt =====
-- `start_send` of src/list.rs from start to end, with no other thread: it returns, whatever
-- compare-exchanges fail spuriously.
use zchan.Base.{
  ℕ, zero, suc, ◌+◌, ◌-◌, ◌*◌, ◌<◌, ◌≡◌, inl, inr, refl, ap, ◌∙◌, Bool, true, false, Option, none,
  some, List, length, ltb, lt→ltb, eq→==, ne→==, bit_and, arith,
}
use zchan.SerialWaker.Queue.{ArrayQueue}
use zchan.Unbounded.{Position, ListToken, default, Channel, drop_box, mark_bit}
use zchan.Unbounded.Send.{
  SendLocals, SendRound, again, returned, finish, advance, send_round, send_loop, start_send,
}
use zchan.Unbounded.Send.Entry.{locals_of, Armed, Entry, chain-Entry, first-Entry}
use zchan.Unbounded.Send.Reserve.{
  Reserved, within_chan, within_token, advance-within, within-Reserved, last_chan, last_token,
  advance-last, last-Reserved,
}
use zchan.Unbounded.Place.{turns, mark-place}
use zchan.Unbounded.Holds.{Holds, Chain, tail_turn_in}

module _ {T : Type 0} {𝓠 : ArrayQueue} where
  advance-fails :
      (c : Channel T 𝓠) (b offset : ℕ) (spare : Option ℕ)
      → advance T 𝓠 true c c.tail.index b offset spare ≡ again c (locals_of c spare)
  unfolding advance
  advance-fails c b offset spare = rw (eq→== c.tail.index c.tail.index refl) refl

  -- A round that returns a reserved slot.
  abbrev Returns : SendRound T 𝓠 → List T → Type 0
  Returns r xs =
      (c' : Channel T 𝓠) × (token : ListToken) × (r ≡ returned c' token) × Reserved c' token xs

  advance-wins :
      {c : Channel T 𝓠} {xs : List T}
      → (spare : Option ℕ) → (h : Chain c spare xs false) → Armed h.t spare
      → length xs + 31 < 31 * turns
      → Returns (advance T 𝓠 false c c.tail.index (h.ptr h.q) h.t spare) xs
  advance-wins none h armed room =
      (within_chan h armed, within_token h armed, advance-within h armed, within-Reserved h armed)
  advance-wins (some p) h armed room =
      (last_chan p h room, last_token p h room, advance-last p h room, last-Reserved p h room)

  send_loop-again :
      (fuel fails : ℕ) (c c' : Channel T 𝓠) (l l' : SendLocals)
      → send_round T 𝓠 (ltb 0 fails) c l ≡ again c' l'
      → send_loop T 𝓠 (suc fuel) fails c l ≡ send_loop T 𝓠 fuel (fails - 1) c' l'
  unfolding send_loop
  send_loop-again fuel fails c c' l l' e = rw (send_loop, e) refl

  send_loop-returned :
      (fuel fails : ℕ) (c c' : Channel T 𝓠) (l : SendLocals) (token : ListToken)
      → send_round T 𝓠 (ltb 0 fails) c l ≡ returned c' token
      → send_loop T 𝓠 (suc fuel) fails c l ≡ some (c', token)
  unfolding send_loop
  send_loop-returned fuel fails c c' l token e = rw (send_loop, e) refl

  send_loop-reserves :
      (fails fuel : ℕ) (c : Channel T 𝓠) (l : SendLocals) (xs : List T)
      → Entry c l xs
      → length xs + 31 < 31 * turns
      → fails < fuel
      → (c' : Channel T 𝓠) × (token : ListToken) × (send_loop T 𝓠 fuel fails c l ≡ some (c', token))
        × Reserved c' token xs
  send_loop-reserves fails zero c l xs e room enough = absurd (omega arith)
  send_loop-reserves zero (suc fuel) c l xs e room enough =
      let (c', token, back, res) = advance-wins e.spare e.chain e.armed room in
      (c', token, send_loop-returned fuel 0 c c' l token (e.enters false ∙ back), res)
  send_loop-reserves (suc fails) (suc fuel) c l xs e room enough =
      let next : Entry e.chan (locals_of e.chan e.spare) xs = chain-Entry e.spare e.chain in
      let (c', token, run, res) =
        send_loop-reserves fails fuel e.chan (locals_of e.chan e.spare) xs next room
          (omega arith) in
      (
        c',
        token,
        send_loop-again fuel (suc fails) c e.chan l (locals_of e.chan e.spare) (
              ap (λ b. send_round T 𝓠 b c l) (lt→ltb 0 (suc fails) (omega arith))
              ∙ e.enters true
              ∙ advance-fails e.chan (e.chain.ptr e.chain.q) e.chain.t e.spare)
            ∙ ap (λ (n : ℕ). send_loop T 𝓠 fuel n e.chan (locals_of e.chan e.spare)) (omega arith)
            ∙ run,
        res,
      )

  -- A slot is reserved at last.
  pub start_send-reserves :
      {c : Channel T 𝓠} {xs : List T}
      → Holds c xs false
      → (fuel fails : ℕ) → length xs + 31 < 31 * turns
      → fails < fuel
      → (c' : Channel T 𝓠) × (token : ListToken) × (start_send T 𝓠 fuel fails c ≡ some (c', token))
        × Reserved c' token xs
  unfolding start_send
  start_send-reserves {c} {xs} (inl u) fuel fails room enough =
      send_loop-reserves fails fuel c (locals_of c none) xs (first-Entry u) room enough
  start_send-reserves {c} {xs} (inr h) fuel fails room enough =
      send_loop-reserves fails fuel c (locals_of c none) xs (chain-Entry none h) room enough

  closed_tail :
      {c : Channel T 𝓠} {xs : List T} → Holds c xs true → bit_and c.tail.index mark_bit ≡ 1
  closed_tail (inl u) = ap (λ (p : Position). bit_and p.index mark_bit) u.tail
  closed_tail (inr h) =
      ap (λ (p : Position). bit_and p.index mark_bit) h.tail
      ∙ mark-place h.tail_turn h.t 1 (tail_turn_in h) (omega (arith, h.tail_in)) (omega arith)

  send_round-closed :
      (spurious : Bool) (c : Channel T 𝓠)
      → bit_and c.tail.index mark_bit ≡ 1
      → send_round T 𝓠 spurious c (locals_of c none) ≡ returned c default
  unfolding send_round finish drop_box
  send_round-closed spurious c e =
      rw (ne→== (bit_and c.tail.index mark_bit) 0 (omega (arith, e))) refl

  -- A disconnected channel gives the token without a block.
  pub start_send-closed :
      {c : Channel T 𝓠} {xs : List T}
      → Holds c xs true
      → (fuel fails : ℕ) → fails < fuel
      → start_send T 𝓠 fuel fails c ≡ some (c, default)
  unfolding start_send
  start_send-closed h zero fails enough = absurd (omega arith)
  start_send-closed {c} h (suc fuel) fails enough =
      send_loop-returned fuel fails c c (locals_of c none) default
        (send_round-closed (ltb 0 fails) c (closed_tail h))
