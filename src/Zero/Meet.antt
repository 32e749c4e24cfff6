-- ===== src/Zero/Meet.antt =====
-- How a thread that blocks on a channel of src/zero.rs and another one that comes later pair up.
use zchan.Base.{
  ℕ, mapped, ◌≡◌, ◌≢◌, refl, sym, ap, ◌∙◌, true, false, ◌&&◌, not, none, some, [], append-nil, ◌==◌,
  ne→==,
}
use zchan.Error.{ok}
use zchan.SerialWaker.Queue.{ArrayQueue}
use zchan.SerialWaker.{wake}
use zchan.Select.{Operation, operation}
use zchan.Context.{Inner, reset}
use zchan.Waker.{Entry, Waker, Store, update, can_select, try_select_entry, register_with_packet}
use zchan.Waker.Laws.{eligible, chosen, any_selectable-any, try_select_entry_lem}
use zchan.Zero.{
  Packet, put, Channel, write, read, read_packet, write_unwrapped, read_or, try_send, try_recv,
}
use zchan.Zero.Wait.{update-same}
use zchan.Zero.Blocking.{Caller, take_from, once_ready, send_end, recv_end}

-- The operation of a blocked caller, and its entry.
abbrev pub oper_of : Caller → Operation
oper_of me = record { address = me.token }

abbrev pub entry_of : Caller → Entry
entry_of me = record { oper = oper_of me; packet = me.packet; cx = me.cx }

module _ {T : Type 0} {𝓠 : ArrayQueue} where
  -- What another thread's `try_send` leaves.
  abbrev pub after_try_send : (other : ℕ) → T → Channel T 𝓠 → Channel T 𝓠
  after_try_send other msg c = elim (try_send T 𝓠 other msg c) [ none ↦ c | some (c', _) ↦ c' ]

  abbrev pub after_try_recv : (other : ℕ) → Channel T 𝓠 → Channel T 𝓠
  after_try_recv other c = elim (try_recv T 𝓠 other c) [ none ↦ c | some (c', _) ↦ c' ]

  -- The channel after a message is written to the packet `p` at the token's address.
  abbrev pub written : (token : ℕ) → Packet T → T → Channel T 𝓠 → Channel T 𝓠
  written token p msg c = record c {
    receivers = wake 𝓠 c.receivers;
    packets = put c.packets token (some (record p { msg = some msg; ready = true }));
  }

  -- The channel after the message is taken from the packet `p` on another thread's stack.
  abbrev pub emptied : (token : ℕ) → Packet T → Channel T 𝓠 → Channel T 𝓠
  emptied token p c = record c {
    senders = wake 𝓠 c.senders;
    packets = put c.packets token (some (record p { msg = none; ready = true }));
  }

  pub write_unwrapped_lem {ℓ} :
      {E : Type ℓ} (token : ℕ) (p : Packet T) (msg : T) (c : Channel T 𝓠)
      → token ≢ 0
      → c.packets token ≡ some p
      → write_unwrapped T 𝓠 {E = E} token msg c ≡ some (written token p msg c, ok tt)
  unfolding write_unwrapped write
  write_unwrapped_lem token p msg c there found =
      rw (write_unwrapped, write, ne→== token 0 there, found) refl

  pub read_or_lem {ℓ} :
      {E : Type ℓ} (e : E) (token : ℕ) (p : Packet T) (msg : T) (c : Channel T 𝓠)
      → token ≢ 0
      → c.packets token ≡ some p
      → p.on_stack ≡ true
      → p.msg ≡ some msg
      → read_or T 𝓠 e token c ≡ some (emptied token p c, ok msg)
  unfolding read_or read read_packet
  read_or_lem e token p msg c there found on_stack has =
      rw (read_or, read, ne→== token 0 there, found, read_packet, has, on_stack) refl

  -- The end of a call whose operation was selected, with the packet ready.
  pub recv_end-ready :
      (me : Caller) (oper found : Operation) (p : Packet T) (msg : T) (c : Channel T 𝓠)
      → c.packets me.packet ≡ some p
      → p.ready ≡ true
      → p.msg ≡ some msg
      → recv_end T 𝓠 me oper (operation found) c
        ≡ some (record c { packets = put c.packets me.packet none }, ok msg)
  unfolding recv_end
  recv_end-ready me oper found p msg c at is_ready has =
      ap (λ o. once_ready T 𝓠 o (mapped (λ r. (r.0, ok r.1)) (take_from T 𝓠 me c o))) at
      ∙ rw (is_ready, has) refl

  pub send_end-ready :
      (me : Caller) (oper found : Operation) (p : Packet T) (c : Channel T 𝓠)
      → c.packets me.packet ≡ some p
      → p.ready ≡ true
      → send_end T 𝓠 me oper (operation found) c
        ≡ some (record c { packets = put c.packets me.packet none }, ok tt)
  unfolding send_end
  send_end-ready me oper found p c at is_ready =
      ap (λ o. once_ready T 𝓠 o (some (record c { packets = put c.packets me.packet none }, ok tt)))
        at
      ∙ rw is_ready refl

  -- The channel once the caller's context is reset.
  abbrev pub entered : Caller → Channel T 𝓠 → Channel T 𝓠
  entered me c = record c { contexts = update c.contexts me.cx (reset (c.contexts me.cx)) }

  pub entered_lem :
      (me : Caller) (c : Channel T 𝓠) → (entered me c).contexts me.cx ≡ reset (c.contexts me.cx)
  entered_lem me c = update-same c.contexts me.cx (reset (c.contexts me.cx))

  module _ (me : Caller) (other : ℕ) (c : Channel T 𝓠) where
    abbrev pub chosen_contexts : Store
    chosen_contexts =
        update (entered me c).contexts me.cx (chosen (entry_of me) ((entered me c).contexts me.cx))

    module _ (mine : (c.contexts me.cx).thread_id ≡ me.thread) (apart : other ≢ me.thread) where
      entry-eligible : eligible other (entered me c).contexts (entry_of me) ≡ true
      unfolding reset
      entry-eligible =
          ap (λ (i : Inner). not (i.thread_id == other) && (i.select == 0)) (entered_lem me c)
          ∙ ap (λ b. not b && true)
              (ne→== (c.contexts me.cx).thread_id other (λ e. apart (sym e ∙ mine)))

      pub try_select_entry-me :
          (w : Waker)
          → can_select other (entered me c).contexts w ≡ false
          → try_select_entry other
              (entered me c).contexts
              (register_with_packet w (oper_of me) me.packet me.cx)
            ≡ (chosen_contexts, w, some (entry_of me))
      unfolding register_with_packet can_select
      try_select_entry-me w nobody =
          try_select_entry_lem other (entered me c).contexts w.selectors [] (entry_of me)
            (sym (any_selectable-any other (entered me c).contexts w.selectors) ∙ nobody)
            entry-eligible
          ∙ ap (λ es. (chosen_contexts, record { selectors = es }, some (entry_of me)))
              (append-nil w.selectors)

      pub chosen_select : (chosen_contexts me.cx).select ≡ me.token
      chosen_select =
          ap (λ (i : Inner). i.select)
            (update-same (entered me c).contexts me.cx
              (chosen (entry_of me) ((entered me c).contexts me.cx)))
