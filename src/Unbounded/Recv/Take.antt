-- ===== src/Unbounded/Recv/Take.antt =====
-- The read of a reserved slot of src/list.rs.
use zchan.Base.{ℕ, ◌≡◌, refl, ap, ◌∙◌, some, arith}
use zchan.Error.{ok, Async}
use zchan.SerialWaker.Queue.{ArrayQueue}
use zchan.Unbounded.{Store, ListToken, Channel, slot_at}
use zchan.Unbounded.Recv.{release, take_slot, read, poll_read}
use zchan.Unbounded.Inv.{state_of, msg_of, some_slot}

module _ {T : Type 0} {𝓠 : ArrayQueue} where
  -- The token's slot holds the message, and its release leaves the store.
  pub record Readable (c : Channel T 𝓠) (token : ListToken) (x : T) (s : Store T) : Type 0 where
    pub block : ℕ
    pub pointer : token.block ≡ some block
    pub is_written : state_of (slot_at c.store block token.offset) ≡ some 1
    pub holds_msg : msg_of (slot_at c.store block token.offset) ≡ some x
    pub releases : release T 𝓠 c.store block token.offset 1 ≡ some s

  take_slot_lem :
      (c : Channel T 𝓠) (b offset : ℕ) (x : T) (s : Store T)
      → state_of (slot_at c.store b offset) ≡ some 1
      → msg_of (slot_at c.store b offset) ≡ some x
      → release T 𝓠 c.store b offset 1 ≡ some s
      → take_slot T 𝓠 c b offset ≡ some (record c { store = s }, x)
  unfolding take_slot
  take_slot_lem c b offset x s written msg after =
      let (slot, found, is) = some_slot (slot_at c.store b offset) 1 written in
      let holds : slot.msg ≡ some x = ground (arith, found, msg) in
      let released : release T 𝓠 c.store b offset slot.state ≡ some s =
        ap (λ (v : ℕ). release T 𝓠 c.store b offset v) is ∙ after in
      rw (take_slot, found, holds, released, is) refl

  pub read_lem :
      {c : Channel T 𝓠} {token : ListToken} {x : T} {s : Store T}
      → Readable c token x s
      → read T 𝓠 c token ≡ some (record c { store = s }, ok x)
  unfolding read
  read_lem {c} {token} {x} {s} r =
      rw
        (
          read,
          r.pointer,
          take_slot_lem c r.block token.offset x s r.is_written r.holds_msg r.releases,
        )
        refl

  pub poll_read_lem :
      {c : Channel T 𝓠} {token : ListToken} {x : T} {s : Store T}
      → Readable c token x s
      → poll_read T 𝓠 c token ≡ some (record c { store = s }, Async.ready (some x))
  unfolding poll_read
  poll_read_lem {c} {token} {x} {s} r =
      rw
        (
          poll_read,
          r.pointer,
          take_slot_lem c r.block token.offset x s r.is_written r.holds_msg r.releases,
        )
        refl
