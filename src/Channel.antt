-- ===== src/Channel.antt =====
-- The constructors of src/channel.rs: a channel in a reference counter, with a handle on each side.
pub mod Handles
use zchan.Base.{ℕ, Option, mapped}
use zchan.SerialWaker.Queue.{ArrayQueue}
use zchan.Waker.{Store}
use zchan.Counter
use zchan.Counter.{State}
use zchan.Array
use zchan.Unbounded
use zchan.Zero

module _ (T : Type 0) (𝓠 : ArrayQueue) where
  abbrev pub unbounded : State (Unbounded.Channel T 𝓠)
  unbounded = Counter.new (Unbounded.new T 𝓠)

  -- `none` is the panic of `with_capacity`.
  abbrev pub bounded : (cap : ℕ) → Option (State (Array.Channel T 𝓠))
  bounded cap = mapped Counter.new (Array.with_capacity T 𝓠 cap)

  -- `zero`, among threads that have the given contexts and packets.
  abbrev pub zero_capacity : Store → (ℕ → Option (Zero.Packet T)) → State (Zero.Channel T 𝓠)
  zero_capacity contexts packets = Counter.new (Zero.new T 𝓠 contexts packets)
