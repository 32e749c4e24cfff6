-- ===== src/Tests/Unbounded.antt =====
-- The theorems on unbounded channels, at channels of numbers.
use zchan.Base.{
  ℕ, zero, suc, ◌≡◌, refl, inr, true, false, none, some, List, [], ◌∷◌, ◌==◌, if◌then◌else◌, arith,
}
use zchan.Error.{SendTimeoutError, AsyncSink, err, ok, send_error}
use zchan.SerialWaker.{new_waker, wake_all}
use zchan.Array.Spec
use zchan.Array.Spec.{Queue}
use zchan.Array.Tokio.{poll_reply}
use zchan.Unbounded.{Store, alloc, change_block, change_slot, Channel, new}
use zchan.Unbounded.Send.{send, sink_start_send}
use zchan.Unbounded.Recv.{try_recv, poll}
use zchan.Unbounded.Query.{len, is_empty, is_shutdown, shutdown, drop}
use zchan.Unbounded.Query.Laws.{queries_lem, shutdown_keeps}
use zchan.Unbounded.Query.Drop.{drop_frees}
use zchan.Unbounded.Inv.Link.{first-Mem}
use zchan.Unbounded.Inv.Push.{written, written-Mem}
use zchan.Unbounded.Holds.{Holds}
use zchan.Unbounded.Spec.{pushed, push}
use zchan.Unbounded.Refine.{Does, send_takes_all, try_recv_takes_first}
use zchan.Unbounded.Tokio.{sink_never_waits, poll_takes_first}
use zchan.Unbounded.Runs.{
  Call, sends, tries, receives, shuts, measures, run, queue_run, new_refines,
}
use zchan.Counter
use zchan.Counter.{Side, Act, sender, receiver, acquires, subtracts, disconnects, swaps, frees}
use zchan.Channel.Handles.{Kept, handles_keep_messages}
use zchan.Tests.Queues.{list_queue}

abbrev no_blocks : Store ℕ
no_blocks = record { cells = λ _. none; fresh = 0; live = 0 }

-- A channel of one block, which holds one message.
abbrev one_sent : Channel ℕ list_queue
one_sent = record {
  head = record { index = 0; block = some 0 };
  tail = record { index = 2; block = some 0 };
  store = written 0 0 7 (alloc no_blocks).0;
  receivers = new_waker list_queue;
  first = false;
}

abbrev seven : Queue ℕ
seven = record { items = 7 ∷ []; shut = false }

one_sent-Holds : Holds one_sent (7 ∷ []) false
unfolding alloc change_slot change_block
one_sent-Holds = inr (record {
  ptr = λ _. 0;
  q = 0;
  i = 0;
  t = 1;
  head_turn = 0;
  tail_turn = 0;
  moved = 0;
  mem = written-Mem (first-Mem no_blocks) 0 0 (omega arith) (omega arith) refl 7;
  tail_at = refl;
  tail_in = omega arith;
  head_turn_in = omega arith;
  turn = refl;
  blocks_in = omega arith;
  moved_in = omega arith;
  moved_on = λ e. omega (arith, e);
  head = refl;
  tail = refl;
  spares = tt;
  live = refl;
})

-- More messages than a block has slots.
abbrev numbers : ℕ → List (Call ℕ) → List (Call ℕ)
numbers zero rest = rest
numbers (suc n) rest = sends 1 n ∷ numbers n rest

abbrev calls : List (Call ℕ)
calls = numbers 33 (measures ∷ receives 2 ∷ tries 0 5 ∷ shuts ∷ sends 0 6 ∷ receives 0 ∷ [])

new_refines_example :
    run {T = ℕ} {𝓠 = list_queue} (new ℕ list_queue) calls ≡ some (queue_run Spec.empty calls)
new_refines_example = new_refines ℕ list_queue calls (omega arith)

send_takes_all_example :
    Does (send ℕ list_queue 2 1 one_sent 8) (push SendTimeoutError.disconnected seven 8)
send_takes_all_example =
    send_takes_all 2 1 one_sent seven 8 one_sent-Holds (omega arith) (omega arith)

try_recv_takes_first_example : Does (try_recv ℕ list_queue 2 1 one_sent) (Spec.pop seven)
try_recv_takes_first_example = try_recv_takes_first 2 1 one_sent seven one_sent-Holds (omega arith)

sink_never_waits_example :
    Does
      (sink_start_send ℕ list_queue 2 1 one_sent 8)
      (pushed seven 8, if seven.shut then err send_error else ok AsyncSink.ready)
sink_never_waits_example =
    sink_never_waits 2 1 one_sent seven 8 one_sent-Holds (omega arith) (omega arith)

poll_takes_first_example :
    Does (poll ℕ list_queue 2 1 3 one_sent) ((Spec.pop seven).0, poll_reply (Spec.pop seven).1)
poll_takes_first_example = poll_takes_first 2 1 3 one_sent seven one_sent-Holds (omega arith)

drop_frees_example : (s : Store ℕ) × (drop 3 one_sent ≡ some (7 ∷ [], s)) × (s.live ≡ 0)
drop_frees_example = drop_frees 3 one_sent-Holds (omega arith)

queries_lem_example :
    (len ℕ list_queue one_sent ≡ some 1)
    × (is_empty ℕ list_queue one_sent ≡ (1 == 0))
    × (is_shutdown ℕ list_queue one_sent ≡ false)
queries_lem_example = queries_lem one_sent-Holds

shutdown_keeps_example :
    Holds (shutdown ℕ list_queue one_sent).0 (7 ∷ []) true
    × ((shutdown ℕ list_queue one_sent).1 ≡ true)
    × ((shutdown ℕ list_queue one_sent).0.receivers ≡ wake_all list_queue one_sent.receivers)
shutdown_keeps_example = shutdown_keeps one_sent-Holds

-- Both sides release their last handle, the receiver between two steps of the sender.
abbrev schedule : List (Side × Act)
schedule =
    (sender, subtracts)
    ∷ (sender, disconnects)
    ∷ (receiver, subtracts)
    ∷ (receiver, disconnects)
    ∷ (receiver, swaps)
    ∷ (sender, swaps)
    ∷ (sender, frees)
    ∷ []

handles_keep_messages_example :
    Kept (7 ∷ []) (Counter.run (shutdown ℕ list_queue) schedule (Counter.new one_sent))
handles_keep_messages_example = handles_keep_messages one_sent-Holds schedule
