-- ===== src/Zero/Wait.antt =====
-- How a call of src/zero.rs comes to block, and how a selected thread goes on.
use zchan.Base.{
  ℕ, zero, suc, ◌<◌, ◌≡◌, refl, ap, ◌∙◌, false, Option, none, some, eq→==, lt→ltb, if◌then◌else◌,
  arith,
}
use zchan.Error.{err, SendTimeoutError, RecvTimeoutError}
use zchan.SerialWaker.Queue.{ArrayQueue}
use zchan.Select.{Operation, Selected, operation, from, hook}
use zchan.Context.{Inner, wait_round, is_waiting}
use zchan.Waker.{Entry, Waker, Store, update, can_select}
use zchan.Waker.Laws.{try_select_entry-none}
use zchan.Zero.{Packet, put, Channel, select_receiver, select_sender}
use zchan.Zero.Blocking.{
  Caller, send_woken, send_found, recv_woken, recv_found, send_end, send_registered, send_blocking,
  send, recv_end, recv_registered, recv_blocking, recv,
}

pub put-same :
    {T : Type 0} (m : ℕ → Option (Packet T)) (at : ℕ) (p : Option (Packet T)) → put m at p at ≡ p
put-same m at p = rw (eq→== at at refl) refl

pub update-same : (s : Store) (cx : ℕ) (i : Inner) → update s cx i cx ≡ i
update-same s cx i = rw (eq→== cx cx refl) refl

pub hook_lem : (token : ℕ) → 2 < token → hook token ≡ some (record { address = token })
unfolding hook
hook_lem token big = rw (lt→ltb 2 token big) refl

-- A wait for a selected operation returns it.
pub wait_round-operation :
    (i : Inner) → 2 < i.select → wait_round i ≡ some (operation (record { address = i.select }))
unfolding wait_round
wait_round-operation i big = by_word i.select big
  where
    by_word :
        (n : ℕ)
        → 2 < n
        → (if is_waiting (from n) then none else some (from n))
          ≡ some (operation (record { address = n }))
    by_word zero h = absurd (omega arith)
    by_word (suc zero) h = absurd (omega arith)
    by_word (suc (suc zero)) h = absurd (omega arith)
    by_word (suc (suc (suc n))) h = refl

module _ {T : Type 0} {𝓠 : ArrayQueue} where
  -- No sender, or no receiver, waits that the thread can select.
  abbrev pub NoSender : ℕ → Channel T 𝓠 → Type 0
  NoSender thread c = can_select thread c.contexts c.inner.senders ≡ false

  abbrev pub NoReceiver : ℕ → Channel T 𝓠 → Type 0
  NoReceiver thread c = can_select thread c.contexts c.inner.receivers ≡ false

  pub select_sender-nobody :
      (thread : ℕ) (c : Channel T 𝓠) → NoSender thread c → select_sender T 𝓠 thread c ≡ (c, none)
  unfolding select_sender
  select_sender-nobody thread c nobody =
      ap
        (λ (r : Store × Waker × Option Entry).
          (record c { contexts = r.0; inner = record c.inner { senders = r.1 } }, r.2))
        (try_select_entry-none thread c.contexts c.inner.senders nobody)

  pub select_receiver-nobody :
      (thread : ℕ) (c : Channel T 𝓠)
      → NoReceiver thread c
      → select_receiver T 𝓠 thread c ≡ (c, none)
  unfolding select_receiver
  select_receiver-nobody thread c nobody =
      ap
        (λ (r : Store × Waker × Option Entry).
          (record c { contexts = r.0; inner = record c.inner { receivers = r.1 } }, r.2))
        (try_select_entry-none thread c.contexts c.inner.receivers nobody)

  pub recv-blocks :
      (others : Channel T 𝓠 → Channel T 𝓠) (me : Caller) (c : Channel T 𝓠)
      → NoSender me.thread c
      → c.inner.is_disconnected ≡ false
      → recv T 𝓠 others me c ≡ recv_blocking T 𝓠 others me c
  unfolding recv recv_found
  recv-blocks others me c nobody alive =
      ap (recv_found T 𝓠 others me) (select_sender-nobody me.thread c nobody)
      ∙ ap
          (λ b.
            if b
            then some (c, err RecvTimeoutError.disconnected)
            else recv_blocking T 𝓠 others me c)
          alive

  pub send-blocks :
      (others : Channel T 𝓠 → Channel T 𝓠) (me : Caller) (msg : T) (c : Channel T 𝓠)
      → NoReceiver me.thread c
      → c.inner.is_disconnected ≡ false
      → send T 𝓠 others me msg c ≡ send_blocking T 𝓠 others me msg c
  unfolding send send_found
  send-blocks others me msg c nobody alive =
      ap (send_found T 𝓠 others me msg) (select_receiver-nobody me.thread c nobody)
      ∙ ap
          (λ b.
            if b
            then some (c, err (SendTimeoutError.disconnected msg))
            else send_blocking T 𝓠 others me msg c)
          alive

  pub recv_blocking-hooked :
      (others : Channel T 𝓠 → Channel T 𝓠) (me : Caller) (oper : Operation) (c : Channel T 𝓠)
      → hook me.token ≡ some oper
      → recv_blocking T 𝓠 others me c
        ≡ recv_woken T 𝓠 me oper (others (recv_registered T 𝓠 me oper c))
  unfolding recv_blocking
  recv_blocking-hooked others me oper c hooked = rw (recv_blocking, hooked) refl

  pub send_blocking-hooked :
      (others : Channel T 𝓠 → Channel T 𝓠) (me : Caller) (oper : Operation) (msg : T)
      (c : Channel T 𝓠)
      → hook me.token ≡ some oper
      → send_blocking T 𝓠 others me msg c
        ≡ send_woken T 𝓠 me oper (others (send_registered T 𝓠 me oper msg c))
  unfolding send_blocking
  send_blocking-hooked others me oper msg c hooked = rw (send_blocking, hooked) refl

  pub recv_woken-selected :
      (me : Caller) (oper : Operation) (sel : Selected) (c : Channel T 𝓠)
      → wait_round (c.contexts me.cx) ≡ some sel
      → recv_woken T 𝓠 me oper c ≡ recv_end T 𝓠 me oper sel c
  unfolding recv_woken
  recv_woken-selected me oper sel c woken = rw (recv_woken, woken) refl

  pub send_woken-selected :
      (me : Caller) (oper : Operation) (sel : Selected) (c : Channel T 𝓠)
      → wait_round (c.contexts me.cx) ≡ some sel
      → send_woken T 𝓠 me oper c ≡ send_end T 𝓠 me oper sel c
  unfolding send_woken
  send_woken-selected me oper sel c woken = rw (send_woken, woken) refl
