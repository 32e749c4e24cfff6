-- ===== src/Channel/Handles.antt =====
-- What becomes of the messages and blocks of an unbounded channel when its handles are released.
use zchan.Base.{◌+◌, ◌*◌, ◌≡◌, Bool, true, Option, none, some, List, [], ◌∷◌, length, arith}
use zchan.SerialWaker.Queue.{ArrayQueue}
use zchan.Counter.{Counter, Side, Act, State, Outcome, next, aborted, fault, new, run}
use zchan.Counter.Runs.{Sound, SoundAt, run-Sound}
use zchan.Unbounded.{Store, Channel}
use zchan.Unbounded.Query.{shutdown, drop}
use zchan.Unbounded.Query.Laws.{shutdown_keeps}
use zchan.Unbounded.Query.Drop.{drop_frees}
use zchan.Unbounded.Holds.{Holds}

module _ {T : Type 0} {𝓠 : ArrayQueue} where
  -- The box is there, or its channel was dropped: once, with the messages, each one once, and without
  -- a block that stays allocated.
  abbrev pub KeptAt : List T → Option (Counter (Channel T 𝓠)) → State (Channel T 𝓠) → Type 0
  KeptAt xs (some c) st = st.freed ≡ []
  KeptAt xs none st =
      (c : Channel T 𝓠) × (st.freed ≡ c ∷ [])
      × (s : Store T) × (drop (2 * length xs + 1) c ≡ some (xs, s))
      × (s.live ≡ 0)

  abbrev pub Kept : List T → Outcome (Channel T 𝓠) → Type 0
  Kept xs (next st) = KeptAt xs st.memory st
  Kept xs aborted = Unit
  Kept xs fault = ⊥

  Sound-Kept :
      {c : Channel T 𝓠} {xs : List T} {b : Bool}
      → Holds c xs b
      → (o : Outcome (Channel T 𝓠)) → Sound (shutdown T 𝓠) c o
      → Kept xs o
  Sound-Kept {c} {xs} h (next st) sound = by_memory st.memory sound
    where
      by_memory :
          (m : Option (Counter (Channel T 𝓠))) → SoundAt (shutdown T 𝓠) c m st → KeptAt xs m st
      by_memory (some k) (used, kept) = kept
      by_memory none (unused, gone) =
          let twice : Holds (shutdown T 𝓠 (shutdown T 𝓠 c).0).0 xs true =
            (shutdown_keeps (shutdown_keeps h).0).0 in
          let (s, drops, freed) = drop_frees (2 * length xs + 1) twice (omega arith) in
          ((shutdown T 𝓠 (shutdown T 𝓠 c).0).0, gone, s, drops, freed)
  Sound-Kept h aborted sound = tt
  Sound-Kept h fault sound = sound

  -- An unbounded channel that holds messages keeps them while any handle is in use. However the threads
  -- of its handles interleave in `acquire` and `release`, none accesses the box after its deallocation;
  -- and once the box is gone the channel has been dropped once, and with it exactly the messages that it
  -- held, each one once, and every block.
  pub handles_keep_messages :
      {c : Channel T 𝓠} {xs : List T} {b : Bool}
      → Holds c xs b
      → (acts : List (Side × Act)) → Kept xs (run (shutdown T 𝓠) acts (new c))
  handles_keep_messages {c} h acts =
      Sound-Kept h (run (shutdown T 𝓠) acts (new c)) (run-Sound (shutdown T 𝓠) c acts)
