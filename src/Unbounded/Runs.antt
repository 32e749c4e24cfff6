-- ===== src/Unbounded/Runs.antt =====
-- Histories of calls on an unbounded channel of src/list.rs, from its constructor on.
use zchan.Base.{
  ℕ, ◌+◌, ◌*◌, ◌<◌, ◌≡◌, refl, Bool, true, false, Option, some, List, [], ◌∷◌, length,
  length-append, arith, ◌>>=◌,
}
use zchan.Error.{Result, SendTimeoutError, TrySendError, TryRecvError, closed}
use zchan.SerialWaker.Queue.{ArrayQueue}
use zchan.Array.Spec
use zchan.Array.Spec.{Queue}
use zchan.Unbounded.{Channel, new}
use zchan.Unbounded.Send.{send, try_send}
use zchan.Unbounded.Recv.{try_recv}
use zchan.Unbounded.Query.{shutdown, len}
use zchan.Unbounded.Query.Laws.{shutdown_keeps, len_counts}
use zchan.Unbounded.Place.{turns}
use zchan.Unbounded.Holds.{new-Holds}
use zchan.Unbounded.Spec.{pushed, push}
use zchan.Unbounded.Refine.{Implements, send_takes_all, try_send_takes_all, try_recv_takes_first}

-- A call on a channel. `fails` is the number of compare-exchanges that fail spuriously in it.
pub data Call (T : Type 0) : Type 0 where
  sends : (fails : ℕ) → T → Call T
  tries : (fails : ℕ) → T → Call T
  receives : (fails : ℕ) → Call T
  shuts : Call T
  measures : Call T

pub data Reply (T : Type 0) : Type 0 where
  sent : Result (Unit {0}) (SendTimeoutError T) → Reply T
  tried : Result (Unit {0}) (TrySendError T) → Reply T
  received : Result T TryRecvError → Reply T
  shut : Bool → Reply T
  measured : Option ℕ → Reply T

module _ {T : Type 0} where
  abbrev refused : T → TrySendError T
  refused m = record { kind = closed; value = m }

  -- The replies of the queue.
  pub queue_run : Queue T → List (Call T) → List (Reply T)
  queue_run q [] = []
  queue_run q (sends fails msg ∷ calls) =
      sent (push SendTimeoutError.disconnected q msg).1 ∷ queue_run (pushed q msg) calls
  queue_run q (tries fails msg ∷ calls) =
      tried (push refused q msg).1 ∷ queue_run (pushed q msg) calls
  queue_run q (receives fails ∷ calls) = let (q', r) = Spec.pop q in received r ∷ queue_run q' calls
  queue_run q (shuts ∷ calls) = let (q', r) = Spec.close q in shut r ∷ queue_run q' calls
  queue_run q (measures ∷ calls) = measured (some (length q.items)) ∷ queue_run q calls

  pushed-length : (q : Queue T) (msg : T) → length (pushed q msg).items < length q.items + 2
  pushed-length q msg = by_state q.shut refl
    where
      by_state : (b : Bool) → q.shut ≡ b → length (pushed q msg).items < length q.items + 2
      by_state true e = rw e (omega arith)
      by_state false e = rw e (omega (arith, length-append q.items (msg ∷ [])))

  popped-length : (q : Queue T) → length (Spec.pop q).0.items < length q.items + 1
  unfolding Spec.pop
  popped-length q = by_items q.items q.shut
    where
      by_items :
          (xs : List T) (b : Bool)
          → length (Spec.pop (record { items = xs; shut = b })).0.items < length xs + 1
      by_items [] b = omega arith
      by_items (x ∷ xs) b = omega arith

module _ {T : Type 0} {𝓠 : ArrayQueue} where
  -- The replies of the channel, each call with the fuel that its spurious failures need; `none` if a
  -- call did not return or accessed memory that holds no block or no message.
  pub run : Channel T 𝓠 → List (Call T) → Option (List (Reply T))
  run c [] = some []
  run c (sends fails msg ∷ calls) = do
    (c', r) ← send T 𝓠 (fails + 1) fails c msg
    replies ← run c' calls
    some (sent r ∷ replies)
  run c (tries fails msg ∷ calls) = do
    (c', r) ← try_send T 𝓠 (fails + 1) fails c msg
    replies ← run c' calls
    some (tried r ∷ replies)
  run c (receives fails ∷ calls) = do
    (c', r) ← try_recv T 𝓠 (fails + 1) fails c
    replies ← run c' calls
    some (received r ∷ replies)
  run c (shuts ∷ calls) = do
    let done = shutdown T 𝓠 c
    replies ← run done.0 calls
    some (shut done.1 ∷ replies)
  run c (measures ∷ calls) = do replies ← run c calls; some (measured (len T 𝓠 c) ∷ replies)

  run_refines :
      (calls : List (Call T)) (c : Channel T 𝓠) (q : Queue T)
      → Implements c q
      → length q.items + length calls + 31 < 31 * turns
      → run c calls ≡ some (queue_run q calls)
  unfolding run queue_run Spec.close
  run_refines [] c q h room = refl
  run_refines (sends fails msg ∷ calls) c q h room =
      let (c', e, h') =
        send_takes_all (fails + 1) fails c q msg h (omega (arith, room)) (omega arith) in
      rw (e, run_refines calls c' (pushed q msg) h' (omega (arith, room, pushed-length q msg)))
  run_refines (tries fails msg ∷ calls) c q h room =
      let (c', e, h') =
        try_send_takes_all (fails + 1) fails c q msg h (omega (arith, room)) (omega arith) in
      rw (e, run_refines calls c' (pushed q msg) h' (omega (arith, room, pushed-length q msg)))
  run_refines (receives fails ∷ calls) c q h room =
      let (c', e, h') = try_recv_takes_first (fails + 1) fails c q h (omega arith) in
      rw (e, run_refines calls c' (Spec.pop q).0 h' (omega (arith, room, popped-length q)))
  run_refines (shuts ∷ calls) c q h room =
      let (h', told, _) = shutdown_keeps h in
      rw (
        run_refines calls (shutdown T 𝓠 c).0 (record { items = q.items; shut = true }) h'
            (omega (arith, room)),
        told,
      )
  run_refines (measures ∷ calls) c q h room =
      rw (run_refines calls c q h (omega (arith, room)), len_counts h)

-- A new unbounded channel, whatever sequence of `send`, `try_send`, `try_recv`, `shutdown` and `len`
-- calls is made on it (short of a full turn of the indices) and whatever compare-exchanges fail
-- spuriously, returns from every call, never accesses a block that is not allocated or a slot that
-- holds no message, and returns what a queue without a capacity returns.
pub new_refines :
    (T : Type 0) (𝓠 : ArrayQueue) (calls : List (Call T))
    → length calls + 31 < 31 * turns
    → run (new T 𝓠) calls ≡ some (queue_run Spec.empty calls)
new_refines T 𝓠 calls room = run_refines calls (new T 𝓠) Spec.empty new-Holds (omega (arith, room))
