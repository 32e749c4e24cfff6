-- ===== src/Tests/Zero.antt =====
-- The theorems on channels without capacity, at a channel of numbers and two threads.
use zchan.Base.{ℕ, ◌≡◌, refl, true, false, none, some, arith}
use zchan.Error.{ok, err, no_capacity, SendTimeoutError, RecvTimeoutError, TryRecvError}
use zchan.Context
use zchan.Context.{Inner}
use zchan.Waker.{Store, can_select, try_select_entry}
use zchan.Zero.{Channel, new, try_send, try_recv}
use zchan.Zero.Blocking.{Caller, send, send_registered, recv, recv_registered}
use zchan.Zero.Tokio.{poll}
use zchan.Zero.Wait.{NoSender, NoReceiver}
use zchan.Zero.Meet.{oper_of, entered, after_try_send, after_try_recv}
use zchan.Zero.Pair.{recv_meets_try_send, send_meets_try_recv}
use zchan.Zero.Shut.{after_shutdown, shutdown_unblocks}
use zchan.Zero.Alone.{nobody_waits}
use zchan.Zero.Poll.{Settled, first_poll_blocks}
use zchan.Tests.Queues.{list_queue}

-- The context of each thread has the thread's number.
abbrev contexts : Store
contexts = λ thread. Context.new thread

abbrev fresh : Channel ℕ list_queue
fresh = new ℕ list_queue contexts (λ _. none)

abbrev one : Caller
one = record { thread = 1; cx = 1; token = 4096; packet = 4104 }

no_sender : NoSender 1 fresh
unfolding new can_select
no_sender = refl

no_receiver : NoReceiver 1 fresh
unfolding new can_select
no_receiver = refl

no_other_sender : NoSender 2 (entered one fresh)
unfolding new can_select
no_other_sender = refl

no_other_receiver : NoReceiver 2 (entered one fresh)
unfolding new can_select
no_other_receiver = refl

fresh-alive : fresh.inner.is_disconnected ≡ false
unfolding new
fresh-alive = refl

recv_meets_try_send_example :
    (sent : Channel ℕ list_queue) × (left : Channel ℕ list_queue) × (try_send ℕ list_queue 2 7
        (recv_registered ℕ list_queue one (oper_of one) fresh)
      ≡ some (sent, ok tt))
    × (recv ℕ list_queue (after_try_send 2 7) one fresh ≡ some (left, ok 7))
    × (left.inner ≡ fresh.inner)
    × (left.packets 4104 ≡ none)
unfolding new
recv_meets_try_send_example =
    recv_meets_try_send one 2 fresh 7 refl (omega arith) (omega arith) (omega arith) no_sender
      no_other_receiver fresh-alive

send_meets_try_recv_example :
    (taken : Channel ℕ list_queue) × (left : Channel ℕ list_queue) × (try_recv ℕ list_queue 2
        (send_registered ℕ list_queue one (oper_of one) 7 fresh)
      ≡ some (taken, ok 7))
    × (send ℕ list_queue (after_try_recv 2) one 7 fresh ≡ some (left, ok tt))
    × (left.inner ≡ fresh.inner)
    × (left.packets 4104 ≡ none)
unfolding new
send_meets_try_recv_example =
    send_meets_try_recv one 2 fresh 7 refl (omega arith) (omega arith) (omega arith) no_receiver
      no_other_sender fresh-alive

shutdown_unblocks_example :
    (received : Channel ℕ list_queue) × (sent : Channel ℕ list_queue) × (recv ℕ list_queue
        after_shutdown one fresh
      ≡ some (received, err RecvTimeoutError.disconnected))
    × (send ℕ list_queue after_shutdown one 7 fresh
        ≡ some (sent, err (SendTimeoutError.disconnected 7)))
    × (received.inner ≡ record fresh.inner { is_disconnected = true })
    × (sent.inner ≡ record fresh.inner { is_disconnected = true })
    × (received.packets 4104 ≡ none)
    × (sent.packets 4104 ≡ none)
unfolding new
shutdown_unblocks_example =
    shutdown_unblocks one fresh 7 (omega arith) fresh-alive no_sender no_receiver refl refl

-- Two receivers do not pair, and neither do two senders.
recv_idle :
    ((after_try_recv 2 (recv_registered ℕ list_queue one (oper_of one) fresh)).contexts 1).select
    ≡ 0
unfolding new recv_registered try_recv try_select_entry Context.reset
recv_idle = refl

send_idle :
    ((after_try_send 2 9 (send_registered ℕ list_queue one (oper_of one) 7 fresh)).contexts
      1).select
    ≡ 0
unfolding new send_registered try_send try_select_entry Context.reset
send_idle = refl

nobody_waits_example :
    (try_send ℕ list_queue 1 7 fresh ≡ some (fresh, err (record { kind = no_capacity; value = 7 })))
    × (try_recv ℕ list_queue 1 fresh ≡ some (fresh, err TryRecvError.empty))
    × (recv ℕ list_queue (after_try_recv 2) one fresh ≡ none)
    × (send ℕ list_queue (after_try_send 2 9) one 7 fresh ≡ none)
unfolding new
nobody_waits_example =
    nobody_waits fresh one 7 (after_try_recv 2) (after_try_send 2 9) (omega arith) refl refl
      recv_idle send_idle

first_poll_blocks_example :
    Settled (poll ℕ list_queue (after_try_send 2 7) one 3 fresh)
    × (poll ℕ list_queue (λ d. d) one 3 fresh ≡ none)
unfolding new
first_poll_blocks_example =
    first_poll_blocks (after_try_send 2 7) one 3 fresh refl fresh-alive no_sender (omega arith)
