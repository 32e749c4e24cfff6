-- ===== src/Tests/Channels.antt =====
-- The theorems on bounded channels, at channels of numbers.
use zchan.Base.{
  ℕ, zero, suc, ◌+◌, ◌*◌, ◌<◌, ltb, get_elem?, if◌then◌else◌, ◌≡◌, refl, ◌↔◌, true, false, some,
  List, [], ◌∷◌, ◌>>=◌, length, arith,
}
use zchan.Array.Stamp.{Geometry}
use zchan.SerialWaker.{AtomicSerialWaker}
use zchan.Array.{fresh, Channel, with_capacity}
use zchan.Array.Send.{try_send}
use zchan.Array.Recv.{try_recv}
use zchan.Array.Query.{len, is_empty, is_full, shutdown, is_shutdown, drop}
use zchan.Array.Query.Laws.{queries_tell, is_empty_iff, shutdown_lem}
use zchan.Array.Query.Drop.{drop_lem}
use zchan.Array.Inv.{Holds, distance, lap_at, stamp?, msg?}
use zchan.Array.Spec
use zchan.Array.Spec.{Queue}
use zchan.Array.Refine.{Does, try_send_refines, try_recv_refines}
use zchan.Array.Runs.{Call, sends, receives, shuts, measures, run, queue_run, with_capacity_refines}
use zchan.Array.Send.{send, sink_start_send}
use zchan.Array.Recv.{poll}
use zchan.Array.Tokio.{
  sink_reply, poll_reply, polled, sink_start_send_refines, poll_refines, poll-empty,
}
use zchan.Array.Deadline.{send_reply, send_refines}
use zchan.Array.Runs.{fresh-Holds}
use zchan.Error.{Async}
use zchan.Tests.Queues.{list_queue}

-- A waker on which nothing waits.
abbrev idle : AtomicSerialWaker list_queue
idle = record { waker = record { held = []; room = 4 }; waiting = 0; from_me = 0; notified = [] }

-- A channel of capacity 2 that holds one message, in the last slot of lap 3.
abbrev two_with_one : Channel ℕ list_queue
two_with_one = record {
  head = 25;
  tail = 32;
  buffer = record { stamp = 32; msg = some 4 } ∷ record { stamp = 26; msg = some 5 } ∷ [];
  cap = 2;
  one_lap = 8;
  mark_bit = 4;
  senders = idle;
  receivers = idle;
  first = true;
}

abbrev two_with_one-Geometry : Geometry 2 8 4
two_with_one-Geometry = record {
  bits = 2;
  lap_bits = 60;
  width = refl;
  mark = refl;
  lap = refl;
  pos = omega arith;
  fits = omega arith;
}

two_with_one-Holds : Holds two_with_one (5 ∷ []) false
two_with_one-Holds = record {
  geometry = two_with_one-Geometry;
  lap = 3;
  next = 4;
  index = 1;
  lap_in = omega arith;
  next_lap = refl;
  index_in = omega arith;
  room = omega arith;
  head = refl;
  tail = refl;
  stamps = stamps_of;
  messages = messages_of;
}
  where
    stamps_of :
        (j : ℕ)
        → j < 2
        → stamp? two_with_one.buffer j
          ≡ some (lap_at 2 3 4 1 j * 8 + j + (if ltb (distance 2 3 4 1 j) 1 then 1 else 0))
    stamps_of zero h = refl
    stamps_of (suc zero) h = refl
    stamps_of (suc (suc j)) h = absurd (omega arith)

    messages_of :
        (j : ℕ)
        → j < 2
        → distance 2 3 4 1 j < 1
        → msg? two_with_one.buffer j ≡ get_elem? (5 ∷ []) (distance 2 3 4 1 j)
    messages_of zero h near = absurd (omega arith)
    messages_of (suc zero) h near = refl
    messages_of (suc (suc j)) h near = absurd (omega arith)

abbrev one_message : Queue ℕ
one_message = record { items = 5 ∷ []; shut = false }

abbrev calls : List (Call ℕ ℕ)
calls =
    sends 1 0 5
    ∷ sends 0 0 6
    ∷ sends 0 0 7
    ∷ measures
    ∷ receives 2
    ∷ shuts
    ∷ receives 0
    ∷ receives 0
    ∷ []

with_capacity_refines_example :
    (with_capacity ℕ list_queue 2 >>= λ c. run {T = ℕ} {𝓠 = list_queue} c calls)
    ≡ some (queue_run 2 Spec.empty calls)
with_capacity_refines_example =
    with_capacity_refines ℕ list_queue 2 (omega arith) (omega arith) calls

try_send_refines_example :
    Does 2 (try_send ℕ list_queue 5 1 0 two_with_one 6) (Spec.push 2 one_message 6)
try_send_refines_example =
    try_send_refines 5 1 0 two_with_one one_message 6 two_with_one-Holds (omega arith)

try_recv_refines_example : Does 2 (try_recv ℕ list_queue 5 1 two_with_one) (Spec.pop one_message)
try_recv_refines_example =
    try_recv_refines 5 1 two_with_one one_message two_with_one-Holds (omega arith)

drop_lem_example : drop ℕ list_queue two_with_one ≡ some (5 ∷ [])
drop_lem_example = drop_lem two_with_one-Holds

queries_tell_example :
    (len ℕ list_queue two_with_one ≡ some 1)
    × ((is_full ℕ list_queue two_with_one ≡ true) ↔ (length one_message.items ≡ two_with_one.cap))
    × (is_shutdown ℕ list_queue two_with_one ≡ false)
queries_tell_example = queries_tell two_with_one-Holds

is_empty_iff_example :
    (is_empty ℕ list_queue two_with_one ≡ true) ↔ ((false ≡ false) × (two_with_one.head ≡ 0))
is_empty_iff_example = is_empty_iff two_with_one-Holds

shutdown_lem_example :
    Holds (shutdown ℕ list_queue two_with_one).0 (5 ∷ []) true
    × ((shutdown ℕ list_queue two_with_one).1 ≡ true)
shutdown_lem_example = shutdown_lem two_with_one-Holds

sink_start_send_refines_example :
    Does 2
      (sink_start_send ℕ list_queue 5 1 0 two_with_one 6)
      ((Spec.push 2 one_message 6).0, sink_reply (Spec.push 2 one_message 6).1)
sink_start_send_refines_example =
    sink_start_send_refines 5 1 0 two_with_one one_message 6 two_with_one-Holds (omega arith)

-- The deadline is 9, and the third round reads 9.
send_refines_example :
    Does 2
      (send ℕ list_queue 3 5 1 (some 9) (7 ∷ 8 ∷ 9 ∷ []) two_with_one 6)
      ((Spec.push 2 one_message 6).0, send_reply (Spec.push 2 one_message 6).1)
send_refines_example =
    send_refines 3 5 1 9 9 (7 ∷ 8 ∷ []) [] (omega arith) (omega arith) (omega arith) two_with_one
      one_message 6 two_with_one-Holds

poll_refines_example :
    Does 2
      (poll ℕ list_queue 5 1 0 two_with_one)
      ((Spec.pop one_message).0, poll_reply (Spec.pop one_message).1)
poll_refines_example = poll_refines 5 1 0 two_with_one one_message two_with_one-Holds (omega arith)

poll-empty_example :
    poll ℕ list_queue 5 1 0 (fresh ℕ list_queue 2)
    ≡ some (polled 0 (fresh ℕ list_queue 2), Async.not_ready)
poll-empty_example =
    poll-empty 5 1 0 (fresh ℕ list_queue 2) (fresh-Holds 2 (omega arith) (omega arith))
      (omega arith)
