-- ===== src/Array/Recv/Read.antt =====
-- `read` of src/array.rs from the slot that `start_recv` reserved: it gives the first message, and
-- the channel then holds the others.
use zchan.Base.{
  ℕ, suc, ◌+◌, ◌*◌, ◌%◌, ◌<◌, ◌≡◌, ◌≢◌, refl, sym, ap, ap₂, ◌∙◌, Bool, some, List, length, ltb,
  if◌then◌else◌, arith, ◌∷◌, subst, get_elem?, ℕ_discrete,
}
use zchan.Word.{wrapping_add}
use zchan.SerialWaker.Queue.{ArrayQueue}
use zchan.SerialWaker.{wake}
use zchan.Array.{Slot, Channel, modify}
use zchan.Error.{ok, Async}
use zchan.Array.Recv.{reserved, read, try_recv_with, poll_read}
use zchan.Array.Stamp.{laps}
use zchan.Array.Inv.{
  Holds, lap_at, lap_after, index_after, distance, stamp_of, msg_of, stamp?, msg?, stamp?-some,
  get_elem?-modify_self, get_elem?-modify_ne, bit,
}
use zchan.Array.Send.Laws.{lap_up, next_in}
use zchan.Array.Recv.Laws.{head_after}
use zchan.Array.Recv.Run.{moved, token}

module _ {T : Type 0} {𝓠 : ArrayQueue} {c : Channel T 𝓠} {x : T} {xs : List T} {closed : Bool}
    (h : Holds c (x ∷ xs) closed) where
  -- The stamp that the read stores: the same slot, one lap on.
  abbrev freed : ℕ
  freed = wrapping_add c.head c.one_lap

  freed_lem : freed ≡ h.next * c.one_lap + h.index
  freed_lem =
      ap (λ (t : ℕ). wrapping_add t c.one_lap) h.head
      ∙ lap_up h h.index (omega (arith, h.index_in, h.geometry.fits, h.geometry.lap))

  taken : List (Slot T)
  taken = modify c.buffer h.index (λ s. record s { stamp = freed })

  head_slot : (s : Slot T) × (get_elem? c.buffer h.index ≡ some s) × (s.msg ≡ some x)
  head_slot =
      let (s, found, _) = stamp?-some c.buffer h.index _ (h.stamps h.index h.index_in) in
      (
        s,
        found,
        sym (ap msg_of found)
            ∙ h.messages h.index h.index_in (ground arith)
            ∙ ap (get_elem? (x ∷ xs)) near,
      )
    where
      near : distance c.cap h.lap h.next h.index h.index ≡ 0
      near = ground arith

  -- The channel after `read`.
  pub received : Channel T 𝓠
  received = record (moved h) { buffer = taken; senders = wake 𝓠 c.senders }

  -- The read gives the first message.
  pub read-received : read T 𝓠 (moved h) (token h) ≡ some (received, ok x)
  unfolding read received moved taken
  read-received = let (s, found, is) = head_slot in rw (found, read, is)

  pub try_recv_with-received :
      try_recv_with T 𝓠 (moved h, reserved (token h)) ≡ some (received, ok x)
  unfolding try_recv_with received moved taken
  try_recv_with-received = let (s, found, is) = head_slot in rw (found, try_recv_with, is)

  pub poll_read-received : poll_read T 𝓠 (moved h) (token h) ≡ some (received, Async.ready (some x))
  unfolding poll_read received moved taken
  poll_read-received = let (s, found, is) = head_slot in rw (found, poll_read, is)

  at_head : (s : Slot T) → get_elem? c.buffer h.index ≡ some s → stamp? taken h.index ≡ some freed
  unfolding taken
  at_head s found = ap stamp_of (get_elem?-modify_self c.buffer h.index _ s found)

  elsewhere : (j : ℕ) → h.index ≢ j → get_elem? taken j ≡ get_elem? c.buffer j
  unfolding taken
  elsewhere j ne = get_elem?-modify_ne c.buffer h.index j _ ne

  -- The head's new position, and the lap after that.
  abbrev lap' : ℕ
  lap' = lap_after c.cap h.lap h.next h.index 1

  abbrev index' : ℕ
  index' = index_after c.cap h.lap h.next h.index 1

  abbrev next' : ℕ
  next' = if ltb (h.index + 1) c.cap then h.next else (h.next + 1) % laps h.geometry

  abbrev stamp' : ℕ → ℕ
  stamp' j =
      lap_at c.cap lap' next' index' j * c.one_lap
      + j
      + (if ltb (distance c.cap lap' next' index' j) (length xs) then 1 else 0)

  stamp'-head : freed ≡ stamp' h.index
  stamp'-head = ground (arith, freed_lem, h.index_in, h.room)

  other_lap :
      (j : ℕ)
      → j < c.cap
      → h.index ≢ j
      → lap_at c.cap h.lap h.next h.index j ≡ lap_at c.cap lap' next' index' j
  other_lap j hj ne = ground (arith, h.index_in)

  other_flag :
      (j : ℕ)
      → j < c.cap
      → h.index ≢ j
      → ltb (distance c.cap h.lap h.next h.index j) (length (x ∷ xs))
        ≡ ltb (distance c.cap lap' next' index' j) (length xs)
  other_flag j hj ne = ground (arith, h.index_in)

  stamp'-other :
      (j : ℕ)
      → j < c.cap
      → h.index ≢ j
      → lap_at c.cap h.lap h.next h.index j * c.one_lap
          + j
          + (if ltb (distance c.cap h.lap h.next h.index j) (length (x ∷ xs)) then 1 else 0)
        ≡ stamp' j
  stamp'-other j hj ne =
      ap₂ (λ (l : ℕ) b. l * c.one_lap + j + (if b then 1 else 0)) (other_lap j hj ne)
        (other_flag j hj ne)

  received-stamps : (j : ℕ) → j < c.cap → stamp? taken j ≡ some (stamp' j)
  received-stamps j hj = elim (ℕ_discrete h.index j) [
    | yes e ↦
        let (s, found, _) = head_slot in
        subst (λ j. stamp? taken j ≡ some (stamp' j)) e (at_head s found ∙ ap some stamp'-head)
    | no ne ↦ ap stamp_of (elsewhere j ne) ∙ h.stamps j hj ∙ ap some (stamp'-other j hj ne)
  ]

  -- A slot that still holds a message is one step nearer to the head than before.
  nearer :
      (j : ℕ)
      → j < c.cap
      → distance c.cap lap' next' index' j < length xs
      → distance c.cap h.lap h.next h.index j ≡ suc (distance c.cap lap' next' index' j)
  nearer j hj near = ground (arith, h.index_in, h.room)

  received-messages :
      (j : ℕ)
      → j < c.cap
      → distance c.cap lap' next' index' j < length xs
      → msg? taken j ≡ get_elem? xs (distance c.cap lap' next' index' j)
  received-messages j hj near =
      ap msg_of (elsewhere j (ground (arith, nearer j hj near)))
      ∙ h.messages j hj (ground (arith, nearer j hj near))
      ∙ ap (get_elem? (x ∷ xs)) (nearer j hj near)

  lap'_in : lap' < laps h.geometry
  lap'_in = ground (arith, h.lap_in, next_in h)

  next'_lap : next' ≡ (lap' + 1) % laps h.geometry
  next'_lap = ground (arith, h.next_lap)

  new_tail :
      c.tail
      ≡ lap_after c.cap lap' next' index' (length xs) * c.one_lap
        + bit closed * c.mark_bit
        + index_after c.cap lap' next' index' (length xs)
  new_tail = ground (arith, h.tail, h.index_in, h.room)

  -- After `read` the channel holds the messages behind the first.
  pub received-Holds : Holds received xs closed
  unfolding received moved head_after
  received-Holds = record {
    geometry = h.geometry;
    lap = lap';
    next = next';
    index = index';
    lap_in = lap'_in;
    next_lap = next'_lap;
    index_in = ground (arith, h.index_in, h.geometry.pos);
    room = omega (arith, h.room);
    head = refl;
    tail = new_tail;
    stamps = received-stamps;
    messages = received-messages;
  }

  pub cap-received : received.cap ≡ c.cap
  unfolding received moved
  cap-received = refl
