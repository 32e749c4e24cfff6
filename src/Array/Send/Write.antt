-- ===== src/Array/Send/Write.antt =====
-- `write` of src/array.rs into the slot that `start_send` reserved: the channel then holds one more
-- message.
use zchan.Base.{
  ℕ, ◌+◌, ◌*◌, ◌<◌, ◌≡◌, ◌≢◌, refl, sym, ap, ◌∙◌, false, some, List, length, ltb, if◌then◌else◌,
  arith, ◌++◌, ◌∷◌, [], subst, get_elem?, length-append, ℕ_discrete,
}
use zchan.Error.{ok}
use zchan.SerialWaker.Queue.{ArrayQueue}
use zchan.SerialWaker.{wake}
use zchan.Array.{Slot, Channel, modify}
use zchan.Array.Send.{write}
use zchan.Array.Inv.{
  Holds, lap_at, distance, stamp_of, msg_of, stamp?, msg?, stamp?-some, get_elem?-modify_self,
  get_elem?-modify_ne, get_elem?-append_left, get_elem?-append_end,
}
use zchan.Array.Send.Laws.{tail_index, tail_lap, tail_after, tail_index_in}
use zchan.Array.Send.Run.{moved, token}

module _ {T : Type 0} {𝓠 : ArrayQueue} {c : Channel T 𝓠} {xs : List T} (h : Holds c xs false)
    (free : length xs < c.cap) (msg : T) where
  -- The buffer after `write`.
  written : List (Slot T)
  written =
      modify (modify c.buffer (tail_index h) (λ s. record s { msg = some msg })) (tail_index h)
        (λ s. record s { stamp = c.tail + 1 })

  at_tail :
      (s : Slot T)
      → get_elem? c.buffer (tail_index h) ≡ some s
      → get_elem? written (tail_index h) ≡ some (record { stamp = c.tail + 1; msg = some msg })
  unfolding written
  at_tail s found =
      get_elem?-modify_self _ (tail_index h) _ _
        (get_elem?-modify_self c.buffer (tail_index h) _ s found)

  elsewhere : (j : ℕ) → tail_index h ≢ j → get_elem? written j ≡ get_elem? c.buffer j
  unfolding written
  elsewhere j ne =
      get_elem?-modify_ne _ (tail_index h) j _ ne
      ∙ get_elem?-modify_ne c.buffer (tail_index h) j _ ne

  at_tail_found :
      get_elem? written (tail_index h) ≡ some (record { stamp = c.tail + 1; msg = some msg })
  at_tail_found =
      let (s, found, _) =
        stamp?-some c.buffer (tail_index h) _ (h.stamps (tail_index h) (tail_index_in h)) in
      at_tail s found

  -- The channel after `write`.
  pub sent : Channel T 𝓠
  sent = record (moved h) { buffer = written; receivers = wake 𝓠 c.receivers }

  grown : length (xs ++ (msg ∷ [])) ≡ length xs + 1
  grown = length-append xs (msg ∷ []) ∙ omega arith

  abbrev far : ℕ → ℕ
  far j = distance c.cap h.lap h.next h.index j

  far-tail : far (tail_index h) ≡ length xs
  far-tail = ground (arith, h.index_in, h.room)

  -- Only the slot at the tail lies as far from the head as the queue is long.
  far-ne : (j : ℕ) → j < c.cap → tail_index h ≢ j → far j ≢ length xs
  far-ne j hj ne = ground (arith, h.index_in, h.room)

  lap_at-tail : lap_at c.cap h.lap h.next h.index (tail_index h) ≡ tail_lap h
  lap_at-tail = ground (arith, h.index_in, h.room)

  -- What slot `j` says once the message is in.
  abbrev stamp_after : ℕ → ℕ
  stamp_after j =
      lap_at c.cap h.lap h.next h.index j * c.one_lap
      + j
      + (if ltb (far j) (length xs + 1) then 1 else 0)

  stamp_at_tail : c.tail + 1 ≡ stamp_after (tail_index h)
  stamp_at_tail = ground (arith, h.tail, far-tail, lap_at-tail)

  sent-stamps : (j : ℕ) → j < c.cap → stamp? written j ≡ some (stamp_after j)
  sent-stamps j hj = elim (ℕ_discrete (tail_index h) j) [
    | yes e ↦
        subst (λ j. stamp? written j ≡ some (stamp_after j)) e
          (ap stamp_of at_tail_found ∙ ap some stamp_at_tail)
    | no ne ↦
        ap stamp_of (elsewhere j ne) ∙ h.stamps j hj ∙ ap some (ground (arith, far-ne j hj ne))
  ]

  sent-messages :
      (j : ℕ)
      → j < c.cap
      → far j < length xs + 1
      → msg? written j ≡ get_elem? (xs ++ (msg ∷ [])) (far j)
  sent-messages j hj near = elim (ℕ_discrete (tail_index h) j) [
    | yes e ↦
        subst (λ j. msg? written j ≡ get_elem? (xs ++ (msg ∷ [])) (far j)) e
          (ap msg_of at_tail_found
            ∙ sym (ap (get_elem? (xs ++ (msg ∷ []))) far-tail ∙ get_elem?-append_end xs msg))
    | no ne ↦
        let old : far j < length xs = ground (arith, far-ne j hj ne, near) in
        ap msg_of (elsewhere j ne)
        ∙ h.messages j hj old
        ∙ sym (get_elem?-append_left xs (msg ∷ []) (far j) old)
  ]

  -- After `write` the channel holds the messages that it held, and the new one last.
  pub sent-Holds : Holds sent (xs ++ (msg ∷ [])) false
  unfolding sent moved tail_after
  sent-Holds = record {
    geometry = h.geometry;
    lap = h.lap;
    next = h.next;
    index = h.index;
    lap_in = h.lap_in;
    next_lap = h.next_lap;
    index_in = h.index_in;
    room = omega (arith, grown, free);
    head = h.head;
    tail = rw grown (omega arith);
    stamps = λ j hj. rw grown (sent-stamps j hj);
    messages = λ j hj near. sent-messages j hj (rw grown at near);
  }

  pub write-sent : write T 𝓠 (moved h) (token h) msg ≡ (sent, ok tt)
  unfolding write sent written moved
  write-sent = refl

  pub cap-sent : sent.cap ≡ c.cap
  unfolding sent moved
  cap-sent = refl
