-- ===== src/Unbounded/Holds.antt =====
-- What the channel of src/list.rs holds between operations, and within `start_send` between the
-- rounds of its loop.
use zchan.Base.{
  ℕ, ◌+◌, ◌*◌, ◌%◌, ◌≤◌, ◌<◌, ◌≡◌, ◌⊎◌, inl, inr, refl, Bool, true, false, Option, none, some, List,
  [], length, if◌then◌else◌, arith,
}
use zchan.SerialWaker.Queue.{ArrayQueue}
use zchan.SerialWaker.{AtomicSerialWaker}
use zchan.Unbounded.{Store, Channel, new}
use zchan.Unbounded.Place.{place, turns}
use zchan.Unbounded.Inv.{Mem}
use zchan.Unbounded.Inv.Link.{Spare}

-- The mark of an index whose bit is set or not.
abbrev pub mark_of : Bool → ℕ
mark_of b = if b then 1 else 0

pub mark_of-bounded : (b : Bool) → mark_of b < 2
mark_of-bounded false = omega arith
mark_of-bounded true = omega arith

abbrev pub spare_count : Option ℕ → ℕ
spare_count none = 0
spare_count (some _) = 1

module _ {T : Type 0} where
  -- The block that a sender has allocated in advance, at the last slot `t` of the last block.
  abbrev pub Spares : Store T → (ℕ → ℕ) → (q t : ℕ) → Option ℕ → Type 0
  Spares s ptr q t none = Unit
  Spares s ptr q t (some p) = Spare s ptr q p × (t ≡ 30)

  module _ {𝓠 : ArrayQueue} where
    -- The channel holds the messages in the blocks at `ptr 0` to `ptr q`, and `spare` is allocated.
    pub record Chain (c : Channel T 𝓠) (spare : Option ℕ) (xs : List T) (shut : Bool) : Type 0 where
      pub ptr : ℕ → ℕ
      pub q : ℕ
      pub i : ℕ
      pub t : ℕ
      pub head_turn : ℕ
      pub tail_turn : ℕ
      pub moved : ℕ
      pub mem : Mem c.store ptr q i xs
      pub tail_at : 31 * q + t ≡ i + length xs
      pub tail_in : t < 31
      pub head_turn_in : head_turn < turns
      pub turn : tail_turn ≡ (head_turn + q) % turns
      pub blocks_in : q < turns
      pub moved_in : moved < 2
      -- A marked head is not in the last block.
      pub moved_on : moved ≡ 1 → 1 ≤ q
      pub head : c.head ≡ record { index = place head_turn i moved; block = some (ptr 0) }
      pub tail : c.tail ≡ record { index = place tail_turn t (mark_of shut); block = some (ptr q) }
      pub spares : Spares c.store ptr q t spare
      -- No other block is allocated.
      pub live : c.store.live ≡ q + 1 + spare_count spare

    -- A channel that no message was ever sent to.
    pub record Untouched (c : Channel T 𝓠) (xs : List T) (shut : Bool) : Type 0 where
      pub nothing : xs ≡ []
      pub head : c.head ≡ record { index = 0; block = none }
      pub tail : c.tail ≡ record { index = mark_of shut; block = none }
      pub live : c.store.live ≡ 0

    -- The channel holds the messages, oldest first, and is disconnected or not.
    abbrev pub Holds : Channel T 𝓠 → List T → Bool → Type 0
    Holds c xs shut = Untouched c xs shut ⊎ Chain c none xs shut

    pub new-Holds : Holds (new T 𝓠) [] false
    unfolding new
    new-Holds = inl (record { nothing = refl; head = refl; tail = refl; live = refl })

    -- The waker of the receivers and the stream's first poll do not matter.
    pub with_receivers :
        {c : Channel T 𝓠} {xs : List T} {b : Bool}
        → Holds c xs b
        → (w : AtomicSerialWaker 𝓠) (f : Bool) → Holds (record c { receivers = w; first = f }) xs b
    with_receivers (inl u) w f =
        inl (record { nothing = u.nothing; head = u.head; tail = u.tail; live = u.live })
    with_receivers (inr h) w f = inr (record {
      ptr = h.ptr;
      q = h.q;
      i = h.i;
      t = h.t;
      head_turn = h.head_turn;
      tail_turn = h.tail_turn;
      moved = h.moved;
      mem = h.mem;
      tail_at = h.tail_at;
      tail_in = h.tail_in;
      head_turn_in = h.head_turn_in;
      turn = h.turn;
      blocks_in = h.blocks_in;
      moved_in = h.moved_in;
      moved_on = h.moved_on;
      head = h.head;
      tail = h.tail;
      spares = h.spares;
      live = h.live;
    })

    -- The lap of the tail is bounded.
    pub tail_turn_in :
        {c : Channel T 𝓠} {spare : Option ℕ} {xs : List T} {b : Bool}
        → (h : Chain c spare xs b) → h.tail_turn < turns
    tail_turn_in h = omega (arith, h.turn)

    -- The indices are at the same place just if there is no message.
    pub same_place :
        {c : Channel T 𝓠} {spare : Option ℕ} {xs : List T} {b : Bool}
        → (h : Chain c spare xs b) → 32 * h.head_turn + h.i ≡ 32 * h.tail_turn + h.t
        → length xs ≡ 0
    same_place h e =
        omega (arith, e, h.turn, h.tail_at, h.tail_in, h.head_turn_in, h.blocks_in, h.mem.index_in)

    pub same_place_conv :
        {c : Channel T 𝓠} {spare : Option ℕ} {xs : List T} {b : Bool}
        → (h : Chain c spare xs b) → length xs ≡ 0
        → 32 * h.head_turn + h.i ≡ 32 * h.tail_turn + h.t
    same_place_conv h e =
        omega (arith, e, h.turn, h.tail_at, h.tail_in, h.head_turn_in, h.blocks_in, h.mem.index_in)
