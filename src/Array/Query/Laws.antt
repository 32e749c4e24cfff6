-- ===== src/Array/Query/Laws.antt =====
-- What `len`, `is_empty`, `is_full`, `shutdown` and `is_shutdown` of src/array.rs say of a channel
-- that holds a queue.
use native.Mathlib.Nat.{mod-eq_of_lt, mod_self}
use zchan.Base.{
  ℕ, ◌+◌, ◌*◌, ◌%◌, ◌<◌, ◌≡◌, ◌≢◌, ◌↔◌, refl, sym, ap, ◌∙◌, Bool, true, false, some, List, length,
  ◌==◌, eq→==, ne→==, ==_iff, if◌then◌else◌, arith, bit_and, bit_or, not, dec_lt,
}
use zchan.Word.{not_bits}
use zchan.SerialWaker.Queue.{ArrayQueue}
use zchan.SerialWaker.{AtomicSerialWaker}
use zchan.Array.{Channel}
use zchan.Array.Query.{len_of, len, is_empty, is_full, shutdown, is_shutdown}
use zchan.Array.Stamp.{laps, and-index, and-mark, and-not_mark, or-mark, lap_unique, two-le-laps}
use zchan.Array.Inv.{Holds, bit}
use zchan.Array.Send.Laws.{
  tail-Packed, tail_lap, tail_index, tail_index_in, lap_up, not_marked, is_marked,
}
use zchan.Array.Recv.Laws.{head-Packed}

module _ {T : Type 0} {𝓠 : ArrayQueue} {c : Channel T 𝓠} {xs : List T} {closed : Bool}
    (h : Holds c xs closed) where
  -- The tail's word without its mark.
  unmarked : bit_and c.tail (not_bits c.mark_bit) ≡ tail_lap h * c.one_lap + tail_index h
  unmarked = and-not_mark h.geometry (tail-Packed h)

  -- Two laps that follow one another differ.
  lap-ne-next : h.lap ≢ h.next
  lap-ne-next e = elim (dec_lt (h.lap + 1) (laps h.geometry)) [
    | yes more ↦ omega (arith, e, h.next_lap, mod-eq_of_lt more)
    | no last ↦
        let wraps : h.lap + 1 ≡ laps h.geometry = omega (arith, h.lap_in) in
        omega (
          arith,
          e,
          h.next_lap,
          ap (λ (t : ℕ). t % laps h.geometry) wraps,
          mod_self (laps h.geometry),
          two-le-laps h.geometry,
        )
  ]

  index-lt-lap : h.index < c.one_lap
  index-lt-lap = omega (arith, h.index_in, h.geometry.fits, h.geometry.lap)

  -- The head's position one lap on is not the head's.
  lap_ahead_ne : h.next * c.one_lap + h.index ≢ c.head
  lap_ahead_ne e = lap-ne-next (
      sym
        (lap_unique h.geometry h.next h.lap h.index h.index index-lt-lap index-lt-lap
          (e ∙ h.head)).0)

  len_of-tail : len_of T 𝓠 c c.tail c.head ≡ length xs
  unfolding len_of
  len_of-tail =
      rw (and-index h.geometry (head-Packed h), and-index h.geometry (tail-Packed h), unmarked)
        (ground (arith, lap_ahead_ne, h.head, h.index_in, h.room))

  pub len_lem : len T 𝓠 c ≡ some (length xs)
  unfolding len
  len_lem = rw (eq→== c.tail c.tail refl) (ap some len_of-tail)

  pub is_full_iff : (is_full T 𝓠 c ≡ true) ↔ (length xs ≡ c.cap)
  unfolding is_full
  is_full_iff =
      rw (h.head, lap_up h h.index index-lt-lap, unmarked)
        ((λ e. full_of_eq ((==_iff _ _).0 e)), (λ full. eq→== _ _ (eq_of_full full)))
    where
      eq_of_full :
          length xs ≡ c.cap → h.next * c.one_lap + h.index ≡ tail_lap h * c.one_lap + tail_index h
      eq_of_full full = ground (arith, h.index_in)

      full_of_eq :
          h.next * c.one_lap + h.index ≡ tail_lap h * c.one_lap + tail_index h → length xs ≡ c.cap
      full_of_eq e =
          let (laps_eq, index_eq) =
            lap_unique h.geometry h.next (tail_lap h) h.index (tail_index h) index-lt-lap
              (omega (arith, tail_index_in h, h.geometry.fits, h.geometry.lap)) e in
          ground (arith, laps_eq, index_eq, lap-ne-next, h.room)

  pub is_shutdown_lem : is_shutdown T 𝓠 c ≡ closed
  unfolding is_shutdown
  is_shutdown_lem = by_state closed refl
    where
      by_state :
          (b : Bool)
          → closed ≡ b
          → (if bit_and c.tail c.mark_bit == 0 then false else true) ≡ closed
      by_state true e = rw (ne→== _ 0 (is_marked h e), e)
      by_state false e = rw (eq→== _ 0 (not_marked h e), e)

  -- On a channel that holds the messages `xs`, connected or not, `len` returns in its first round, with
  -- their number; `is_full` is true exactly if that number is the capacity; and `is_shutdown` says
  -- whether the channel is disconnected.
  pub queries_tell :
      (len T 𝓠 c ≡ some (length xs))
      × ((is_full T 𝓠 c ≡ true) ↔ (length xs ≡ c.cap))
      × (is_shutdown T 𝓠 c ≡ closed)
  queries_tell = (len_lem, is_full_iff, is_shutdown_lem)

  -- `is_empty` returns true exactly if the channel is connected and its head is 0, whatever messages
  -- it holds: the mask in the code is the mark bit and not its complement.
  pub is_empty_iff : (is_empty T 𝓠 c ≡ true) ↔ ((closed ≡ false) × (c.head ≡ 0))
  unfolding is_empty
  is_empty_iff =
      rw (and-mark h.geometry (tail-Packed h))
        ((λ e. at_start ((==_iff _ _).0 e)), (λ e. eq→== _ _ (ground (arith, e))))
    where
      marked_ne : c.mark_bit ≢ c.head
      marked_ne e =
          let same =
            lap_unique h.geometry 0 h.lap c.mark_bit h.index
              (omega (arith, h.geometry.lap, h.geometry.fits)) index-lt-lap
              (omega (arith, e, h.head)) in
          omega (arith, same.1, h.index_in, h.geometry.fits)

      at_start : bit closed * c.mark_bit ≡ c.head → (closed ≡ false) × (c.head ≡ 0)
      at_start e = ground (arith, marked_ne)

  closed_tail :
      bit_or c.tail c.mark_bit ≡ tail_lap h * c.one_lap + bit true * c.mark_bit + tail_index h
  closed_tail = or-mark h.geometry (tail-Packed h) ∙ omega arith

  -- The channel with the tail's mark set, whatever its wakers are.
  pub marked-Holds :
      (s r : AtomicSerialWaker 𝓠)
      → Holds (record c { tail = bit_or c.tail c.mark_bit; senders = s; receivers = r }) xs true
  marked-Holds s r = record {
    geometry = h.geometry;
    lap = h.lap;
    next = h.next;
    index = h.index;
    lap_in = h.lap_in;
    next_lap = h.next_lap;
    index_in = h.index_in;
    room = h.room;
    head = h.head;
    tail = closed_tail;
    stamps = h.stamps;
    messages = h.messages;
  }

  -- On a channel that holds the messages `xs`, `shutdown` leaves it disconnected and holding the same
  -- messages, and returns whether it was connected before.
  pub shutdown_lem : Holds (shutdown T 𝓠 c).0 xs true × ((shutdown T 𝓠 c).1 ≡ not closed)
  unfolding shutdown
  shutdown_lem = by_state closed refl
    where
      by_state :
          (b : Bool)
          → closed ≡ b
          → Holds (shutdown T 𝓠 c).0 xs true × ((shutdown T 𝓠 c).1 ≡ not closed)
      by_state true e = rw (ne→== _ 0 (is_marked h e), e) (marked-Holds c.senders c.receivers, refl)
      by_state false e = rw (eq→== _ 0 (not_marked h e), e) (marked-Holds _ _, refl)

  pub cap-shutdown : (shutdown T 𝓠 c).0.cap ≡ c.cap
  unfolding shutdown
  cap-shutdown = by_state closed refl
    where
      by_state : (b : Bool) → closed ≡ b → (shutdown T 𝓠 c).0.cap ≡ c.cap
      by_state true e = rw (ne→== _ 0 (is_marked h e))
      by_state false e = rw (eq→== _ 0 (not_marked h e))
