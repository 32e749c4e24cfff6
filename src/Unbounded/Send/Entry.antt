-- ===== src/Unbounded/Send/Entry.antt =====
-- A round of `start_send` of src/list.rs up to its compare-exchange.
use zchan.Base.{
  ℕ, ◌+◌, ◌%◌, ◌<◌, ◌≡◌, refl, sym, ap, ◌∙◌, Bool, false, Option, none, some, List, length, eq→==,
  ne→==, bit_and, arith, subst, ℕ_discrete,
}
use zchan.SerialWaker.Queue.{ArrayQueue}
use zchan.Unbounded.{Position, Channel, alloc, lap, shifted, mark_bit, block_cap}
use zchan.Unbounded.Send.{
  SendLocals, with_store, advance, install, with_block, prepared, send_round,
}
use zchan.Unbounded.Place.{mark-place, offset-place}
use zchan.Unbounded.Inv.{Mem}
use zchan.Unbounded.Inv.Link.{alloc-Mem, alloc-Spare, first-Mem}
use zchan.Unbounded.Holds.{Chain, Untouched, tail_turn_in}

-- A round allocates a block in advance just at the last slot.
abbrev pub Armed : ℕ → Option ℕ → Type 0
Armed t none = t < 30
Armed t (some p) = t ≡ 30

module _ {T : Type 0} {𝓠 : ArrayQueue} where
  -- The locals of a round that starts with what it loads from the channel.
  abbrev pub locals_of : Channel T 𝓠 → Option ℕ → SendLocals
  locals_of c spare = record { tail = c.tail.index; block = c.tail.block; next_block = spare }

  -- A round comes to its compare-exchange with a chain that holds the same messages.
  pub record Entry (c : Channel T 𝓠) (l : SendLocals) (xs : List T) : Type 0 where
    pub chan : Channel T 𝓠
    pub spare : Option ℕ
    pub chain : Chain chan spare xs false
    pub armed : Armed chain.t spare
    pub enters :
        (spurious : Bool)
        → send_round T 𝓠 spurious c l
          ≡ advance T 𝓠 spurious chan chan.tail.index (chain.ptr chain.q) chain.t spare

  send_round-opened :
      (spurious : Bool) (c : Channel T 𝓠) (l : SendLocals) (t : ℕ)
      → bit_and l.tail mark_bit ≡ 0
      → shifted l.tail % lap ≡ t
      → t < 31
      → send_round T 𝓠 spurious c l
        ≡ with_block T 𝓠 spurious
            (prepared T 𝓠 c t l.next_block).0
            l.tail
            t
            l.block
            (prepared T 𝓠 c t l.next_block).1
  unfolding send_round
  send_round-opened spurious c l t clear at t_in =
      rw (eq→== (bit_and l.tail mark_bit) 0 clear, at, ne→== t block_cap (omega arith)) refl

  module _ {c : Channel T 𝓠} {spare : Option ℕ} {xs : List T} (h : Chain c spare xs false) where
    open_tail : bit_and c.tail.index mark_bit ≡ 0
    open_tail =
        ap (λ (p : Position). bit_and p.index mark_bit) h.tail
        ∙ mark-place h.tail_turn h.t 0 (tail_turn_in h) (omega (arith, h.tail_in)) (omega arith)

    tail_offset : shifted c.tail.index % lap ≡ h.t
    tail_offset =
        ap (λ (p : Position). shifted p.index % lap) h.tail
        ∙ offset-place h.tail_turn h.t 0 (tail_turn_in h) (omega (arith, h.tail_in)) (omega arith)

    round :
        (spurious : Bool)
        → send_round T 𝓠 spurious c (locals_of c spare)
          ≡ with_block T 𝓠 spurious
              (prepared T 𝓠 c h.t spare).0
              c.tail.index
              h.t
              (some (h.ptr h.q))
              (prepared T 𝓠 c h.t spare).1
    round spurious =
        send_round-opened spurious c (locals_of c spare) h.t open_tail tail_offset h.tail_in
        ∙ ap
            (λ (p : Position).
              with_block T 𝓠 spurious (prepared T 𝓠 c h.t spare).0 c.tail.index h.t p.block
                (prepared T 𝓠 c h.t spare).1)
            h.tail

  -- The chain with the block that is allocated in advance.
  alloc-Chain :
      {c : Channel T 𝓠} {xs : List T}
      → (h : Chain c none xs false) → h.t ≡ 30
      → Chain (with_store T 𝓠 c (alloc c.store).0) (some c.store.fresh) xs false
  unfolding alloc
  alloc-Chain {c} h last = record {
    ptr = h.ptr;
    q = h.q;
    i = h.i;
    t = h.t;
    head_turn = h.head_turn;
    tail_turn = h.tail_turn;
    moved = h.moved;
    mem = alloc-Mem h.mem;
    tail_at = h.tail_at;
    tail_in = h.tail_in;
    head_turn_in = h.head_turn_in;
    turn = h.turn;
    blocks_in = h.blocks_in;
    moved_in = h.moved_in;
    moved_on = h.moved_on;
    head = h.head;
    tail = h.tail;
    spares = (alloc-Spare h.mem, last);
    live = omega (arith, h.live);
  }

  prepared-spare : (c : Channel T 𝓠) (t p : ℕ) → t ≡ 30 → prepared T 𝓠 c t (some p) ≡ (c, some p)
  unfolding prepared
  prepared-spare c t p last = rw (eq→== (t + 1) block_cap (omega (arith, last))) refl

  prepared-last :
      (c : Channel T 𝓠) (t : ℕ)
      → t ≡ 30
      → prepared T 𝓠 c t none ≡ (with_store T 𝓠 c (alloc c.store).0, some c.store.fresh)
  unfolding prepared alloc
  prepared-last c t last = rw (eq→== (t + 1) block_cap (omega (arith, last))) refl

  prepared-before : (c : Channel T 𝓠) (t : ℕ) → t < 30 → prepared T 𝓠 c t none ≡ (c, none)
  unfolding prepared
  prepared-before c t before = rw (ne→== (t + 1) block_cap (omega (arith, before))) refl

  -- Each round of a chain comes to its compare-exchange.
  pub chain-Entry :
      {c : Channel T 𝓠} {xs : List T}
      → (spare : Option ℕ) → Chain c spare xs false
      → Entry c (locals_of c spare) xs
  unfolding with_block alloc alloc-Chain
  chain-Entry {c} (some p) h = record {
    chan = c;
    spare = some p;
    chain = h;
    armed = h.spares.1;
    enters = λ spurious.
        round h spurious
        ∙ ap (λ r. with_block T 𝓠 spurious r.0 c.tail.index h.t (some (h.ptr h.q)) r.1)
            (prepared-spare c h.t p h.spares.1);
  }
  chain-Entry {c} none h = elim (ℕ_discrete h.t 30) [
    | yes last ↦ record {
      chan = with_store T 𝓠 c (alloc c.store).0;
      spare = some c.store.fresh;
      chain = alloc-Chain h last;
      armed = last;
      enters = λ spurious.
          round h spurious
          ∙ ap (λ r. with_block T 𝓠 spurious r.0 c.tail.index h.t (some (h.ptr h.q)) r.1)
              (prepared-last c h.t last);
    }
    | no before ↦ record {
      chan = c;
      spare = none;
      chain = h;
      armed = omega (arith, before, h.tail_in);
      enters = λ spurious.
          round h spurious
          ∙ ap (λ r. with_block T 𝓠 spurious r.0 c.tail.index h.t (some (h.ptr h.q)) r.1)
              (prepared-before c h.t (omega (arith, before, h.tail_in)));
    }
  ]

  -- The first block is installed.
  abbrev first_chan : Channel T 𝓠 → Channel T 𝓠
  first_chan c = record c {
    head = record { index = 0; block = some c.store.fresh };
    tail = record { index = 0; block = some c.store.fresh };
    store = (alloc c.store).0;
  }

  first-Chain :
      {c : Channel T 𝓠} {xs : List T} → Untouched c xs false → Chain (first_chan c) none xs false
  unfolding alloc
  first-Chain {c} u = record {
    ptr = λ _. c.store.fresh;
    q = 0;
    i = 0;
    t = 0;
    head_turn = 0;
    tail_turn = 0;
    moved = 0;
    mem =
        subst (λ ys. Mem (alloc c.store).0 (λ _. c.store.fresh) 0 0 ys) (sym u.nothing)
          (first-Mem c.store);
    tail_at = omega (arith, ap length u.nothing);
    tail_in = omega arith;
    head_turn_in = omega arith;
    turn = omega arith;
    blocks_in = omega arith;
    moved_in = omega arith;
    moved_on = λ e. omega (arith, e);
    head = refl;
    tail = refl;
    spares = tt;
    live = omega (arith, u.live);
  }

  install-first :
      (spurious : Bool) (c : Channel T 𝓠) (tail p offset : ℕ) (next_block : Option ℕ)
      → c.tail.block ≡ none
      → install T 𝓠 spurious c tail p offset next_block
        ≡ advance T 𝓠 spurious
            (record c {
              tail = record c.tail { block = some p };
              head = record c.head { block = some p };
            })
            tail
            p
            offset
            next_block
  unfolding install
  install-first spurious c tail p offset next_block e = rw (install, e) refl

  pub first-Entry :
      {c : Channel T 𝓠} {xs : List T} → Untouched c xs false → Entry c (locals_of c none) xs
  unfolding with_block prepared alloc first-Chain
  first-Entry {c} u = record {
    chan = first_chan c;
    spare = none;
    chain = first-Chain u;
    armed = omega arith;
    enters = λ spurious.
        let p : ℕ = c.store.fresh in
        send_round-opened spurious c (locals_of c none) 0
          (ap (λ (pos : Position). bit_and pos.index mark_bit) u.tail)
          (ap (λ (pos : Position). shifted pos.index % lap) u.tail) (omega arith)
        ∙ ap (λ (pos : Position). with_block T 𝓠 spurious c pos.index 0 pos.block none) u.tail
        ∙ install-first spurious (with_store T 𝓠 c (alloc c.store).0) 0 p 0 none
            (ap (λ (pos : Position). pos.block) u.tail)
        ∙ ap
            (λ (ends : Position × Position).
              advance T 𝓠 spurious
                (record c {
                  head = record ends.0 { block = some p };
                  tail = record ends.1 { block = some p };
                  store = (alloc c.store).0;
                })
                0 p 0 none)
            (λ i. (u.head i, u.tail i));
  }
