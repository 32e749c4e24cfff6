-- ===== src/Zero/Timely.antt =====
-- What no result of `recv` and `try_recv` of src/zero.rs is: a timeout, or a channel polled before.
use zchan.Base.{ℕ, ◌==◌, ◌≡◌, Bool, true, false, Option, none, some, mapped, if◌then◌else◌}
use zchan.Error.{Result, ok, err, map_err, RecvTimeoutError, TryRecvError}
use zchan.SerialWaker.Queue.{ArrayQueue}
use zchan.SerialWaker.{wake}
use zchan.Select.{Operation, Selected, waiting, aborted, disconnected, operation, hook}
use zchan.Context.{wait_round}
use zchan.Waker.{Entry, unregister}
use zchan.Zero.{Packet, Channel, put, wait_ready_round, read_or, read_packet, read, try_recv_found}
use zchan.Zero.Blocking.{
  Caller, take_from, once_ready, recv_end, recv_woken, recv_blocking, recv_registered, recv_found,
}

module _ {T : Type 0} {𝓠 : ArrayQueue} where
  -- A result of `recv` that is not a timeout.
  abbrev pub Timely : Option (Channel T 𝓠 × Result T RecvTimeoutError) → Type 0
  Timely none = Unit
  Timely (some (c, ok t)) = Unit
  Timely (some (c, err RecvTimeoutError.timeout)) = ⊥
  Timely (some (c, err RecvTimeoutError.disconnected)) = Unit

  ok-Timely : (o : Option (Channel T 𝓠 × T)) → Timely (mapped (λ r. (r.0, ok r.1)) o)
  ok-Timely none = tt
  ok-Timely (some r) = tt

  once_ready-Timely :
      (o : Option (Packet T)) (rest : Option (Channel T 𝓠 × Result T RecvTimeoutError))
      → Timely rest
      → Timely (once_ready T 𝓠 o rest)
  once_ready-Timely none rest h = tt
  once_ready-Timely (some p) rest h = by_state p.ready
    where
      by_state : (b : Bool) → Timely (if b then rest else none)
      by_state true = h
      by_state false = tt

  found-Timely :
      (found : Option Entry) (c : Channel T 𝓠)
      → Timely (elim found [ none ↦ none | some _ ↦ some (c, err RecvTimeoutError.disconnected) ])
  found-Timely none c = tt
  found-Timely (some e) c = tt

  recv_end-Timely :
      (me : Caller) (oper : Operation) (sel : Selected) (c : Channel T 𝓠)
      → Timely (recv_end T 𝓠 me oper sel c)
  unfolding recv_end
  recv_end-Timely me oper waiting c = tt
  recv_end-Timely me oper aborted c = tt
  recv_end-Timely me oper disconnected c =
      found-Timely (unregister c.inner.receivers oper).1 (record c {
        inner = record c.inner { receivers = (unregister c.inner.receivers oper).0 };
        packets = put c.packets me.packet none;
      })
  recv_end-Timely me oper (operation o) c =
      once_ready-Timely (c.packets me.packet) _
        (ok-Timely (take_from T 𝓠 me c (c.packets me.packet)))

  recv_woken-Timely :
      (me : Caller) (oper : Operation) (c : Channel T 𝓠) → Timely (recv_woken T 𝓠 me oper c)
  unfolding recv_woken
  recv_woken-Timely me oper c = by_round (wait_round (c.contexts me.cx))
    where
      by_round :
          (o : Option Selected)
          → Timely (elim o [ none ↦ none | some sel ↦ recv_end T 𝓠 me oper sel c ])
      by_round none = tt
      by_round (some sel) = recv_end-Timely me oper sel c

  recv_blocking-Timely :
      (others : Channel T 𝓠 → Channel T 𝓠) (me : Caller) (c : Channel T 𝓠)
      → Timely (recv_blocking T 𝓠 others me c)
  unfolding recv_blocking
  recv_blocking-Timely others me c = by_hook (hook me.token)
    where
      by_hook :
          (o : Option Operation)
          → Timely (elim o [
            | none ↦ none
            | some oper ↦ recv_woken T 𝓠 me oper (others (recv_registered T 𝓠 me oper c))
          ])
      by_hook none = tt
      by_hook (some oper) = recv_woken-Timely me oper (others (recv_registered T 𝓠 me oper c))

  read_or-Timely :
      (token : ℕ) (c : Channel T 𝓠) → Timely (read_or T 𝓠 RecvTimeoutError.disconnected token c)
  unfolding read_or
  read_or-Timely token c = by_read (read T 𝓠 token c)
    where
      by_read :
          (o : Option (Channel T 𝓠 × Result T (Unit {0})))
          → Timely (elim o [
            | none ↦ none
            | some (c', res) ↦ some (c', map_err (λ _. RecvTimeoutError.disconnected) res)
          ])
      by_read none = tt
      by_read (some (c', ok t)) = tt
      by_read (some (c', err u)) = tt

  pub recv_found-Timely :
      (others : Channel T 𝓠 → Channel T 𝓠) (me : Caller) (r : Channel T 𝓠 × Option Entry)
      → Timely (recv_found T 𝓠 others me r)
  unfolding recv_found
  recv_found-Timely others me (c, some e) = read_or-Timely e.packet c
  recv_found-Timely others me (c, none) = by_state c.inner.is_disconnected
    where
      by_state :
          (b : Bool)
          → Timely (
              if b
              then some (c, err RecvTimeoutError.disconnected)
              else recv_blocking T 𝓠 others me c)
      by_state true = tt
      by_state false = recv_blocking-Timely others me c

  -- A result whose channel was not polled before.
  abbrev pub Fresh {ℓ} : {R : Type ℓ} → Option (Channel T 𝓠 × R) → Type 0
  Fresh none = Unit
  Fresh (some (c, r)) = c.first ≡ true

  read_packet-Fresh :
      (token : ℕ) (p : Packet T) (c : Channel T 𝓠)
      → c.first ≡ true
      → Fresh (read_packet T 𝓠 token p c)
  unfolding read_packet
  read_packet-Fresh token p c first = by_msg p.msg
    where
      by_state :
          (ready : Bool) (x : Channel T 𝓠 × Result T (Unit {0}))
          → x.0.first ≡ true
          → Fresh (if ready then some x else none)
      by_state true x h = h
      by_state false x h = tt

      by_place :
          (on_stack ready : Bool) (x y : Channel T 𝓠 × Result T (Unit {0}))
          → x.0.first ≡ true
          → y.0.first ≡ true
          → Fresh (if on_stack then some x else if ready then some y else none)
      by_place true ready x y hx hy = hx
      by_place false ready x y hx hy = by_state ready y hy

      by_msg :
          (o : Option T)
          → Fresh {R = Result T (Unit {0})} (elim o [
            | none ↦ none
            | some msg ↦
                if p.on_stack
                then some (
                  record c {
                    packets = put c.packets token (some (record p { msg = none; ready = true }));
                  },
                  ok msg,
                )
                else if wait_ready_round p
                then some (record c { packets = put c.packets token none }, ok msg)
                else none
          ])
      by_msg none = tt
      by_msg (some msg) = by_place p.on_stack p.ready _ _ first first

  read-Fresh : (token : ℕ) (c : Channel T 𝓠) → c.first ≡ true → Fresh (read T 𝓠 token c)
  unfolding read
  read-Fresh token c first = by_token (token == 0)
    where
      by_packet :
          (o : Option (Packet T))
          → Fresh (elim o [
            | none ↦ none
            | some p ↦ read_packet T 𝓠 token p (record c { senders = wake 𝓠 c.senders })
          ])
      by_packet none = tt
      by_packet (some p) = read_packet-Fresh token p (record c { senders = wake 𝓠 c.senders }) first

      by_token :
          (b : Bool)
          → Fresh (
              if b then some (c, err tt) else elim (c.packets token) [
                | none ↦ none
                | some p ↦ read_packet T 𝓠 token p (record c { senders = wake 𝓠 c.senders })
              ])
      by_token true = first
      by_token false = by_packet (c.packets token)

  read_or-Fresh :
      (token : ℕ) (c : Channel T 𝓠)
      → c.first ≡ true
      → Fresh (read_or T 𝓠 TryRecvError.disconnected token c)
  unfolding read_or
  read_or-Fresh token c first = by_read (read T 𝓠 token c) (read-Fresh token c first)
    where
      by_read :
          (o : Option (Channel T 𝓠 × Result T (Unit {0})))
          → Fresh o
          → Fresh (elim o [
            | none ↦ none
            | some (c', res) ↦ some (c', map_err (λ _. TryRecvError.disconnected) res)
          ])
      by_read none h = tt
      by_read (some (c', res)) h = h

  pub try_recv_found-Fresh :
      (r : Channel T 𝓠 × Option Entry) → r.0.first ≡ true → Fresh (try_recv_found T 𝓠 r)
  unfolding try_recv_found
  try_recv_found-Fresh (c, some e) first = read_or-Fresh e.packet c first
  try_recv_found-Fresh (c, none) first = by_state c.inner.is_disconnected
    where
      by_state :
          (b : Bool)
          → Fresh {R = Result T TryRecvError} (
              if b
              then some (c, err TryRecvError.disconnected)
              else some (c, err TryRecvError.empty))
      by_state true = first
      by_state false = first
