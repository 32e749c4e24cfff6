-- ===== src/Unbounded/Query/Laws.antt =====
-- What the queries and `shutdown` of src/list.rs do on a channel that holds messages.
use zchan.Base.{
  ℕ, ◌+◌, ◌*◌, ◌/◌, ◌%◌, ◌<◌, ◌≡◌, inl, inr, refl, sym, ap, ◌∙◌, Bool, true, false, not, none, some,
  List, length, ◌==◌, eq→==, ne→==, if◌then◌else◌, bit_and, bit_or, arith, ℕ_discrete,
}
use zchan.Word.{wrapping_sub, not_bits}
use zchan.SerialWaker.Queue.{ArrayQueue}
use zchan.SerialWaker.{AtomicSerialWaker, wake_all}
use zchan.Unbounded.{Position, Channel, lap, block_cap, shifted, mark_bit}
use zchan.Unbounded.Query.{len_between, len_of, len_round, len, is_empty, shutdown, is_shutdown}
use zchan.Unbounded.Place.{place, turns, shifted-place, mark-place, marked-place, unmarked-place}
use zchan.Unbounded.Holds.{
  Chain, Untouched, Holds, mark_of, mark_of-bounded, tail_turn_in, same_place, same_place_conv,
}

len_between_lem :
    (q t i n : ℕ)
    → i < 31
    → t < 31
    → q < turns
    → 31 * q + t ≡ i + n
    → len_between (32 * q + t) i ≡ n
unfolding len_between
len_between_lem q t i n hi ht hq at =
    rw (ne→== i block_cap (omega arith), ne→== (32 * q + t) block_cap (omega arith)) (omega arith)

-- `len` on the indices of a channel with `n` messages, whose tail is `q` laps beyond its head.
len_of-place :
    (head_turn i moved tail_turn t mark q n : ℕ)
    → head_turn < turns
    → i < 31
    → moved < 2
    → t < 31
    → mark < 2
    → q < turns
    → tail_turn ≡ (head_turn + q) % turns
    → 31 * q + t ≡ i + n
    → len_of (place tail_turn t mark) (place head_turn i moved) ≡ n
unfolding len_of
len_of-place head_turn i moved tail_turn t mark q n hh hi hm ht hk hq turn at =
    let tail_clear : bit_and (place tail_turn t mark) (not_bits mark_bit) ≡ place tail_turn t 0 =
      unmarked-place tail_turn t mark (omega arith) (omega arith) hk in
    let head_clear : bit_and (place head_turn i moved) (not_bits mark_bit) ≡ place head_turn i 0 =
      unmarked-place head_turn i moved hh (omega arith) hm in
    let lap_of : shifted (place head_turn i 0) / lap ≡ head_turn = omega arith in
    let tail_back : shifted (wrapping_sub (place tail_turn t 0) (head_turn * lap * 2))
        ≡ 32 * q + t =
      omega arith in
    let head_back : shifted (wrapping_sub (place head_turn i 0) (head_turn * lap * 2)) ≡ i =
      omega arith in
    ap
      (λ (ends : ℕ × ℕ).
        len_between (shifted (wrapping_sub ends.0 (shifted ends.1 / lap * lap * 2)))
          (shifted (wrapping_sub ends.1 (shifted ends.1 / lap * lap * 2))))
      (λ j. (tail_clear j, head_clear j))
    ∙ ap
        (λ (l : ℕ).
          len_between (shifted (wrapping_sub (place tail_turn t 0) (l * lap * 2)))
            (shifted (wrapping_sub (place head_turn i 0) (l * lap * 2))))
        lap_of
    ∙ ap (λ (ends : ℕ × ℕ). len_between ends.0 ends.1) (λ j. (tail_back j, head_back j))
    ∙ len_between_lem q t i n hi ht hq at

module _ {T : Type 0} {𝓠 : ArrayQueue} where
  tail_mark :
      {c : Channel T 𝓠} {xs : List T} {shut : Bool}
      → Holds c xs shut
      → bit_and c.tail.index mark_bit ≡ mark_of shut
  tail_mark {shut = shut} (inl u) =
      ap (λ (p : Position). bit_and p.index mark_bit) u.tail ∙ by_mark shut
    where
      by_mark : (b : Bool) → bit_and (mark_of b) mark_bit ≡ mark_of b
      by_mark false = refl
      by_mark true = refl
  tail_mark {shut = shut} (inr h) =
      ap (λ (p : Position). bit_and p.index mark_bit) h.tail
      ∙ mark-place h.tail_turn h.t (mark_of shut) (tail_turn_in h) (omega (arith, h.tail_in))
          (mark_of-bounded shut)

  -- A channel that is held is disconnected just if `is_shutdown` says so.
  pub is_shutdown_iff :
      {c : Channel T 𝓠} {xs : List T} {shut : Bool} → Holds c xs shut → is_shutdown T 𝓠 c ≡ shut
  unfolding is_shutdown
  is_shutdown_iff {c} {shut = false} h =
      rw (eq→== (bit_and c.tail.index mark_bit) 0 (tail_mark h)) refl
  is_shutdown_iff {c} {shut = true} h =
      rw (ne→== (bit_and c.tail.index mark_bit) 0 (omega (arith, tail_mark h))) refl

  -- The marked tail, of a channel whose disconnection is `told`.
  shutdown-marks :
      {c : Channel T 𝓠} {xs : List T} {shut : Bool}
      → Holds c xs shut
      → (w : AtomicSerialWaker 𝓠)
      → Holds
          (record c {
            tail = record c.tail { index = bit_or c.tail.index mark_bit };
            receivers = w;
          })
          xs
          true
  shutdown-marks {shut = shut} (inl u) w = inl (record {
    nothing = u.nothing;
    head = u.head;
    tail =
        ap (λ (p : Position). record p { index = bit_or p.index mark_bit }) u.tail
        ∙ ap (λ (n : ℕ). record { index = n; block = none }) (by_mark shut);
    live = u.live;
  })
    where
      by_mark : (b : Bool) → bit_or (mark_of b) mark_bit ≡ 1
      by_mark false = refl
      by_mark true = refl
  shutdown-marks {shut = shut} (inr h) w = inr (record {
    ptr = h.ptr;
    q = h.q;
    i = h.i;
    t = h.t;
    head_turn = h.head_turn;
    tail_turn = h.tail_turn;
    moved = h.moved;
    mem = h.mem;
    tail_at = h.tail_at;
    tail_in = h.tail_in;
    head_turn_in = h.head_turn_in;
    turn = h.turn;
    blocks_in = h.blocks_in;
    moved_in = h.moved_in;
    moved_on = h.moved_on;
    head = h.head;
    tail =
        ap (λ (p : Position). record p { index = bit_or p.index mark_bit }) h.tail
        ∙ ap (λ (n : ℕ). record { index = n; block = some (h.ptr h.q) })
            (marked-place h.tail_turn h.t (mark_of shut) (tail_turn_in h) (omega (arith, h.tail_in))
              (mark_of-bounded shut));
    spares = h.spares;
    live = h.live;
  })

  -- `shutdown` of a channel disconnects it and keeps its messages; it tells whether it was connected,
  -- and just then wakes all receivers.
  pub shutdown_keeps :
      {c : Channel T 𝓠} {xs : List T} {shut : Bool}
      → Holds c xs shut
      → Holds (shutdown T 𝓠 c).0 xs true
        × ((shutdown T 𝓠 c).1 ≡ not shut)
        × ((shutdown T 𝓠 c).0.receivers ≡ (if shut then c.receivers else wake_all 𝓠 c.receivers))
  unfolding shutdown
  shutdown_keeps {c} {shut = false} h =
      rw (eq→== (bit_and c.tail.index mark_bit) 0 (tail_mark h))
        (shutdown-marks h (wake_all 𝓠 c.receivers), refl, refl)
  shutdown_keeps {c} {shut = true} h =
      rw (ne→== (bit_and c.tail.index mark_bit) 0 (omega (arith, tail_mark h)))
        (shutdown-marks h c.receivers, refl, refl)

  shifts :
      {c : Channel T 𝓠} {xs : List T} {shut : Bool}
      → (h : Chain c none xs shut)
      → (shifted c.head.index ≡ 32 * h.head_turn + h.i)
        × (shifted c.tail.index ≡ 32 * h.tail_turn + h.t)
  shifts {shut = shut} h = (
    ap (λ (p : Position). shifted p.index) h.head
        ∙ shifted-place h.head_turn h.i h.moved h.head_turn_in (omega (arith, h.mem.index_in))
            h.moved_in,
    ap (λ (p : Position). shifted p.index) h.tail
        ∙ shifted-place h.tail_turn h.t (mark_of shut) (tail_turn_in h) (omega (arith, h.tail_in))
            (mark_of-bounded shut),
  )

  shifts_without_messages :
      {c : Channel T 𝓠} {xs : List T} {shut : Bool}
      → Untouched c xs shut
      → shifted c.head.index ≡ shifted c.tail.index
  shifts_without_messages {shut = shut} u =
      ap (λ (p : Position). shifted p.index) u.head
      ∙ by_mark shut
      ∙ sym (ap (λ (p : Position). shifted p.index) u.tail)
    where
      by_mark : (b : Bool) → 0 ≡ shifted (mark_of b)
      by_mark false = refl
      by_mark true = refl

  -- `is_empty` tells exactly whether the channel holds no message, connected or not.
  pub is_empty-length :
      {c : Channel T 𝓠} {xs : List T} {shut : Bool}
      → Holds c xs shut
      → is_empty T 𝓠 c ≡ (length xs == 0)
  unfolding is_empty
  is_empty-length {c} {xs} (inl u) =
      eq→== (shifted c.head.index) (shifted c.tail.index) (shifts_without_messages u)
      ∙ sym (eq→== (length xs) 0 (ap length u.nothing))
  is_empty-length {c} {xs} (inr h) = elim (ℕ_discrete (length xs) 0) [
    | yes none_left ↦
        eq→== (shifted c.head.index) (shifted c.tail.index)
          ((shifts h).0 ∙ same_place_conv h none_left ∙ sym (shifts h).1)
        ∙ sym (eq→== (length xs) 0 none_left)
    | no left ↦
        ne→== (shifted c.head.index) (shifted c.tail.index)
          (λ e. left (same_place h (sym (shifts h).0 ∙ e ∙ (shifts h).1)))
        ∙ sym (ne→== (length xs) 0 left)
  ]

  -- `len` is the number of messages, also when the head and the tail are in different laps of the
  -- wrapped indices.
  pub len_counts :
      {c : Channel T 𝓠} {xs : List T} {shut : Bool} → Holds c xs shut → len T 𝓠 c ≡ some (length xs)
  unfolding len len_round
  len_counts {c} {xs} {shut} (inl u) = rw (eq→== c.tail.index c.tail.index refl) (
      ap (λ (ends : Position × Position). some (len_of ends.1.index ends.0.index))
        (λ i. (u.head i, u.tail i))
      ∙ by_mark shut
      ∙ ap some (sym (ap length u.nothing)))
    where
      by_mark : (b : Bool) → some (len_of (mark_of b) 0) ≡ some 0
      by_mark false = refl
      by_mark true = refl
  len_counts {c} {xs} {shut} (inr h) = rw (eq→== c.tail.index c.tail.index refl) (
      ap (λ (ends : Position × Position). some (len_of ends.1.index ends.0.index))
        (λ i. (h.head i, h.tail i))
      ∙ ap some (
          len_of-place h.head_turn h.i h.moved h.tail_turn h.t (mark_of shut) h.q (length xs)
            h.head_turn_in h.mem.index_in h.moved_in h.tail_in (mark_of-bounded shut) h.blocks_in
            h.turn h.tail_at))

  -- On a channel, connected or not, `len` is the number of its messages, also when the head and the
  -- tail are in different laps of the wrapped indices; `is_empty` tells exactly whether there is no
  -- message, and `is_shutdown` whether the channel is disconnected.
  pub queries_lem :
      {c : Channel T 𝓠} {xs : List T} {shut : Bool}
      → Holds c xs shut
      → (len T 𝓠 c ≡ some (length xs))
        × (is_empty T 𝓠 c ≡ (length xs == 0))
        × (is_shutdown T 𝓠 c ≡ shut)
  queries_lem h = (len_counts h, is_empty-length h, is_shutdown_iff h)
