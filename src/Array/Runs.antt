-- ===== src/Array/Runs.antt =====
-- Histories of calls on a bounded channel of src/array.rs, from its constructor on.
use native.Mathlib.Nat.{mod-eq_of_lt, le_refl}
use zchan.Base.{
  ℕ, zero, suc, ◌+◌, ◌-◌, ◌*◌, ◌^◌, ◌≤◌, ◌<◌, ◌≡◌, refl, sym, ap, ◌∙◌, Bool, true, false, Option,
  some, none, List, [], ◌∷◌, length, get_elem?, lt→ltb, arith, ◌>>=◌,
}
use zchan.Word.{next_power_of_two}
use zchan.Word.NextPower.{next_power_of_two_lem}
use zchan.Error.{Result, TrySendError, TryRecvError}
use zchan.SerialWaker.Queue.{ArrayQueue}
use zchan.Array.{Channel, stamped, fresh, with_capacity}
use zchan.Array.Send.{try_send}
use zchan.Array.Recv.{try_recv}
use zchan.Array.Query.{shutdown, len}
use zchan.Array.Query.Laws.{shutdown_lem, cap-shutdown, len_lem}
use zchan.Array.Stamp.{Geometry, two-le-laps}
use zchan.Array.Inv.{Holds, stamp_of}
use zchan.Array.Spec
use zchan.Array.Spec.{Queue}
use zchan.Array.Refine.{Implements, try_send_refines, try_recv_refines}

-- The constants that `with_capacity` computes.
geometry :
    (cap : ℕ)
    → 0 < cap
    → cap + 1 ≤ 2 ^ 62
    → Geometry cap (next_power_of_two (cap + 1) * 2) (next_power_of_two (cap + 1))
geometry cap pos small =
    let (k, low, is, enough) = next_power_of_two_lem 62 (cap + 1) (omega arith) small in
    record {
      bits = k;
      lap_bits = 62 - k;
      width = omega arith;
      mark = is;
      lap = refl;
      pos = pos;
      fits = omega (arith, is, enough);
    }

stamped_lem :
    {T : Type 0} (n i j : ℕ)
    → j < n
    → get_elem? (stamped T n i) j ≡ some (record { stamp = i + j; msg = none })
unfolding stamped
stamped_lem zero i j h = absurd (omega arith)
stamped_lem (suc n) i zero h = ap (λ (k : ℕ). some (record { stamp = k; msg = none })) (omega arith)
stamped_lem (suc n) i (suc j) h =
    stamped_lem n (suc i) j (omega arith)
    ∙ ap (λ (k : ℕ). some (record { stamp = k; msg = none })) (omega arith)

module _ {T : Type 0} {𝓠 : ArrayQueue} (size : ℕ) (pos : 0 < size) (small : size + 1 ≤ 2 ^ 62) where
  -- A fresh channel holds nothing and is connected.
  pub fresh-Holds : Holds (fresh T 𝓠 size) [] false
  unfolding fresh
  fresh-Holds = record {
    geometry = geometry size pos small;
    lap = 0;
    next = 1;
    index = 0;
    lap_in = omega (arith, two-le-laps (geometry size pos small));
    next_lap = sym (mod-eq_of_lt (two-le-laps (geometry size pos small)));
    index_in = pos;
    room = omega arith;
    head = omega arith;
    tail = ground (arith, pos);
    stamps = λ j hj. ap stamp_of (stamped_lem size 0 j hj) ∙ ap some (ground arith);
    messages = λ j hj near. absurd (omega arith);
  }

  fresh_lem : with_capacity T 𝓠 size ≡ some (fresh T 𝓠 size)
  unfolding with_capacity
  fresh_lem = rw (lt→ltb 0 size pos)

cap-fresh : (T : Type 0) (𝓠 : ArrayQueue) (size : ℕ) → (fresh T 𝓠 size).cap ≡ size
unfolding fresh
cap-fresh T 𝓠 size = refl

-- A call on a channel. `fails` is the number of compare-exchanges that fail spuriously in it.
pub data Call (T Task : Type 0) : Type 0 where
  sends : (fails : ℕ) → Task → T → Call T Task
  receives : (fails : ℕ) → Call T Task
  shuts : Call T Task
  measures : Call T Task

pub data Reply (T : Type 0) : Type 0 where
  sent : Result (Unit {0}) (TrySendError T) → Reply T
  received : Result T TryRecvError → Reply T
  shut : Bool → Reply T
  measured : Option ℕ → Reply T

module _ {T Task : Type 0} (size : ℕ) where
  -- The replies of the bounded queue.
  pub queue_run : Queue T → List (Call T Task) → List (Reply T)
  queue_run q [] = []
  queue_run q (sends fails task msg ∷ calls) =
      let (q', r) = Spec.push size q msg in sent r ∷ queue_run q' calls
  queue_run q (receives fails ∷ calls) = let (q', r) = Spec.pop q in received r ∷ queue_run q' calls
  queue_run q (shuts ∷ calls) = let (q', r) = Spec.close q in shut r ∷ queue_run q' calls
  queue_run q (measures ∷ calls) = measured (some (length q.items)) ∷ queue_run q calls

module _ {T : Type 0} {𝓠 : ArrayQueue} where
  -- The replies of the channel, each call with the fuel that its spurious failures need; `none` if a
  -- call did not return or read memory that holds no message.
  pub run : Channel T 𝓠 → List (Call T 𝓠.Task) → Option (List (Reply T))
  run c [] = some []
  run c (sends fails task msg ∷ calls) = do
    (c', r) ← try_send T 𝓠 (2 * fails + 3) fails task c msg
    replies ← run c' calls
    some (sent r ∷ replies)
  run c (receives fails ∷ calls) = do
    (c', r) ← try_recv T 𝓠 (2 * fails + 3) fails c
    replies ← run c' calls
    some (received r ∷ replies)
  run c (shuts ∷ calls) = do
    let done = shutdown T 𝓠 c
    replies ← run done.0 calls
    some (shut done.1 ∷ replies)
  run c (measures ∷ calls) = do replies ← run c calls; some (measured (len T 𝓠 c) ∷ replies)

  run_refines :
      (calls : List (Call T 𝓠.Task)) (c : Channel T 𝓠) (q : Queue T)
      → Implements c q
      → run c calls ≡ some (queue_run c.cap q calls)
  unfolding run queue_run Spec.close
  run_refines [] c q h = refl
  run_refines (sends fails task msg ∷ calls) c q h =
      let (c', e, h', same) = try_send_refines (2 * fails + 3) fails task c q msg h (le_refl _) in
      rw (e, run_refines calls c' (Spec.push c.cap q msg).0 h', same)
  run_refines (receives fails ∷ calls) c q h =
      let (c', e, h', same) = try_recv_refines (2 * fails + 3) fails c q h (le_refl _) in
      rw (e, run_refines calls c' (Spec.pop q).0 h', same)
  run_refines (shuts ∷ calls) c q h =
      let (h', told) = shutdown_lem h in
      rw (
        run_refines calls (shutdown T 𝓠 c).0 (record { items = q.items; shut = true }) h',
        cap-shutdown h,
        told,
      )
  run_refines (measures ∷ calls) c q h = rw (run_refines calls c q h, len_lem h)

-- A bounded channel of a capacity from 1 to 2 ^ 62 - 1, whatever sequence of `try_send`,
-- `try_recv`, `shutdown` and `len` calls is made on it and whatever compare-exchanges fail
-- spuriously, returns from every call, and with what the bounded queue of that capacity returns.
pub with_capacity_refines :
    (T : Type 0) (𝓠 : ArrayQueue) (size : ℕ)
    → 0 < size
    → size + 1 ≤ 2 ^ 62
    → (calls : List (Call T 𝓠.Task))
    → (with_capacity T 𝓠 size >>= λ c. run {T = T} {𝓠 = 𝓠} c calls)
      ≡ some (queue_run size Spec.empty calls)
with_capacity_refines T 𝓠 size pos small calls = rw (fresh_lem {T = T} {𝓠 = 𝓠} size pos small) (
    run_refines calls (fresh T 𝓠 size) Spec.empty (fresh-Holds size pos small)
    ∙ ap (λ (n : ℕ). some (queue_run n Spec.empty calls)) (cap-fresh T 𝓠 size))
