-- ===== src/Unbounded/Refine.antt =====
-- The unbounded channel of src/list.rs implements a queue without a capacity.
use zchan.Base.{
  ℕ, ◌<◌, ◌≡◌, inr, refl, Bool, true, false, Option, some, List, [], ◌∷◌, ◌++◌, if◌then◌else◌,
  subst,
}
use zchan.Error.{ok, err, closed, SendTimeoutError}
use zchan.SerialWaker.Queue.{ArrayQueue}
use zchan.Array.Spec
use zchan.Array.Spec.{Queue}
use zchan.Unbounded.{Channel}
use zchan.Unbounded.Send.{write, send, try_send, try_send_result}
use zchan.Unbounded.Send.Run.{start_send-reserves, start_send-closed}
use zchan.Unbounded.Send.Reserve.{filled}
use zchan.Unbounded.Recv.{read, try_recv}
use zchan.Unbounded.Recv.Run.{start_recv-some, start_recv-nothing}
use zchan.Unbounded.Recv.Take.{read_lem}
use zchan.Unbounded.Spec.{Room, push}
use zchan.Unbounded.Holds.{Holds}

-- `try_send` passes on the reply of `send`.
try_send_reply :
    {T : Type 0} (𝓠 : ArrayQueue) (shut : Bool) (msg : T)
    → try_send_result T 𝓠 (if shut then err (SendTimeoutError.disconnected msg) else ok tt)
      ≡ some (if shut then err (record { kind = closed; value = msg }) else ok tt)
unfolding try_send_result
try_send_reply 𝓠 true msg = refl
try_send_reply 𝓠 false msg = refl

module _ {T : Type 0} {𝓠 : ArrayQueue} where
  -- The channel holds what the queue holds.
  abbrev pub Implements : Channel T 𝓠 → Queue T → Type 0
  Implements c q = Holds c q.items q.shut

  -- An operation returns what the queue's does, and leaves a channel that implements what is left.
  abbrev pub Does {ℓ} : {R : Type ℓ} → Option (Channel T 𝓠 × R) → Queue T × R → Type ℓ
  Does r (q, reply) = (c' : Channel T 𝓠) × (r ≡ some (c', reply)) × Implements c' q

  send-closed :
      (fuel fails : ℕ) (c : Channel T 𝓠) (xs : List T) (msg : T)
      → Holds c xs true
      → fails < fuel
      → send T 𝓠 fuel fails c msg ≡ some (c, err (SendTimeoutError.disconnected msg))
  unfolding send write
  send-closed fuel fails c xs msg h enough = rw (send, start_send-closed h fuel fails enough) refl

  send-opened :
      (fuel fails : ℕ) (c : Channel T 𝓠) (xs : List T) (msg : T)
      → Holds c xs false
      → Room xs
      → fails < fuel
      → Does (send T 𝓠 fuel fails c msg) (record { items = xs ++ (msg ∷ []); shut = false }, ok tt)
  unfolding send
  send-opened fuel fails c xs msg h room enough =
      let (c', token, run, res) = start_send-reserves h fuel fails room enough in
      (
        filled c' res.block token.offset msg,
        rw (send, run, res.writes msg) refl,
        inr (res.holds msg),
      )

  -- Whatever the channel holds, short of a full turn of its indices, and whatever compare-exchanges
  -- fail spuriously, `send` returns within `fails + 1` rounds of its loop, regardless of its deadline:
  -- it gives the message back as disconnected if the channel is disconnected, and else adds it last;
  -- the channel then implements the queue that is left.
  pub send_takes_all :
      (fuel fails : ℕ) (c : Channel T 𝓠) (q : Queue T) (msg : T)
      → Implements c q
      → Room q.items
      → fails < fuel
      → Does (send T 𝓠 fuel fails c msg) (push SendTimeoutError.disconnected q msg)
  send_takes_all fuel fails c q msg h room enough = by_state q.shut refl
    where
      by_state :
          (b : Bool)
          → q.shut ≡ b
          → Does (send T 𝓠 fuel fails c msg) (push SendTimeoutError.disconnected q msg)
      by_state true e = rw e (
        c,
        send-closed fuel fails c q.items msg (subst (Holds c q.items) e h) enough,
        subst (Holds c q.items) e h,
      )
      by_state false e =
          rw e (send-opened fuel fails c q.items msg (subst (Holds c q.items) e h) room enough)

  -- Whatever the channel holds, short of a full turn of its indices, and whatever compare-exchanges
  -- fail spuriously, `try_send` returns within `fails + 1` rounds of its loop and does not reach
  -- `unreachable!`: it gives the message back as disconnected if the channel is disconnected, and
  -- else adds it last; the channel then implements the queue that is left.
  pub try_send_takes_all :
      (fuel fails : ℕ) (c : Channel T 𝓠) (q : Queue T) (msg : T)
      → Implements c q
      → Room q.items
      → fails < fuel
      → Does (try_send T 𝓠 fuel fails c msg) (push (λ m. record { kind = closed; value = m }) q msg)
  unfolding try_send
  try_send_takes_all fuel fails c q msg h room enough =
      let (c', e, h') = send_takes_all fuel fails c q msg h room enough in
      (c', rw (try_send, e, try_send_result, try_send_reply 𝓠 q.shut msg) refl, h')

  -- Whatever the channel holds, and whatever compare-exchanges fail spuriously, `try_recv` returns
  -- within `fails + 1` rounds of its loop what the queue returns (the first message, also of a
  -- disconnected channel, or else that it is empty or disconnected), and the channel then
  -- implements the queue that is left.
  pub try_recv_takes_first :
      (fuel fails : ℕ) (c : Channel T 𝓠) (q : Queue T)
      → Implements c q
      → fails < fuel
      → Does (try_recv T 𝓠 fuel fails c) (Spec.pop q)
  unfolding try_recv read Spec.pop
  try_recv_takes_first fuel fails c q h enough = by_items q.items q.shut h
    where
      by_items :
          (xs : List T) (b : Bool)
          → Holds c xs b
          → Does (try_recv T 𝓠 fuel fails c) (Spec.pop (record { items = xs; shut = b }))
      by_items [] true h = (c, rw (try_recv, start_recv-nothing h fuel fails enough) refl, h)
      by_items [] false h = (c, rw (try_recv, start_recv-nothing h fuel fails enough) refl, h)
      by_items (x ∷ xs) b h =
          let r = start_recv-some h fuel fails enough in
          (
            record r.chan { store = r.left },
            rw (try_recv, r.returns, read_lem r.readable) refl,
            inr r.holds,
          )
