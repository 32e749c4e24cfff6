-- ===== src/Array/Refine.antt =====
-- The bounded channel of src/array.rs implements the queue of `Array/Spec.antt`.
use zchan.Base.{
  ℕ, ◌+◌, ◌*◌, ◌≤◌, ◌<◌, ◌≡◌, refl, ap, ◌∙◌, Bool, true, false, Option, some, List, [], ◌∷◌, ◌++◌,
  length, eq→==, ne→==, arith, subst, ℕ_discrete,
}
use zchan.Error.{ok, err, map_err, closed, no_capacity}
use zchan.SerialWaker.Queue.{ArrayQueue}
use zchan.SerialWaker.{AtomicSerialWaker, register}
use zchan.Array.{Channel}
use zchan.Array.Send.{try_send, try_send_with}
use zchan.Array.Send.Run.{start_send-room, start_send-full, start_send-closed}
use zchan.Array.Send.Write.{sent, sent-Holds, write-sent, cap-sent}
use zchan.Array.Recv.{try_recv, try_recv_with}
use zchan.Array.Recv.Run.{start_recv-some, start_recv-empty, start_recv-closed}
use zchan.Array.Recv.Read.{received, received-Holds, try_recv_with-received, cap-received}
use zchan.Array.Inv.{Holds}
use zchan.Array.Spec
use zchan.Array.Spec.{Queue}

module _ {T : Type 0} {𝓠 : ArrayQueue} where
  -- The channel holds what the queue holds.
  abbrev pub Implements : Channel T 𝓠 → Queue T → Type 0
  Implements c q = Holds c q.items q.shut

  -- The channel's wakers do not matter.
  pub with_wakers :
      {c : Channel T 𝓠} {xs : List T} {b : Bool}
      → Holds c xs b
      → (s r : AtomicSerialWaker 𝓠) (f : Bool)
      → Holds (record c { senders = s; receivers = r; first = f }) xs b
  with_wakers h s r f = record {
    geometry = h.geometry;
    lap = h.lap;
    next = h.next;
    index = h.index;
    lap_in = h.lap_in;
    next_lap = h.next_lap;
    index_in = h.index_in;
    room = h.room;
    head = h.head;
    tail = h.tail;
    stamps = h.stamps;
    messages = h.messages;
  }

  -- An operation returns what the queue's does, and leaves a channel that implements what is left.
  abbrev pub Does {ℓ} : {R : Type ℓ} → ℕ → Option (Channel T 𝓠 × R) → Queue T × R → Type ℓ
  Does cap r (q, reply) =
      (c' : Channel T 𝓠) × (r ≡ some (c', reply)) × Implements c' q × (c'.cap ≡ cap)

  try_send-closed :
      (fuel fails : ℕ) (task : 𝓠.Task) (c : Channel T 𝓠) (xs : List T) (msg : T)
      → Holds c xs true
      → 2 * fails + 3 ≤ fuel
      → Does c.cap
          (try_send T 𝓠 fuel fails task c msg)
          (record { items = xs; shut = true }, err (record { kind = closed; value = msg }))
  unfolding try_send
  try_send-closed fuel fails task c xs msg h f =
      (c, ap (try_send_with T 𝓠 task msg) (start_send-closed h refl fuel fails f), h, refl)

  try_send-full :
      (fuel fails : ℕ) (task : 𝓠.Task) (c : Channel T 𝓠) (xs : List T) (msg : T)
      → Holds c xs false
      → length xs ≡ c.cap
      → 2 * fails + 3 ≤ fuel
      → Does c.cap
          (try_send T 𝓠 fuel fails task c msg)
          (record { items = xs; shut = false }, err (record { kind = no_capacity; value = msg }))
  unfolding try_send
  try_send-full fuel fails task c xs msg h full f = (
    record c { senders = register 𝓠 c.senders task },
    ap (try_send_with T 𝓠 task msg) (start_send-full h refl full fuel fails f),
    with_wakers h _ c.receivers c.first,
    refl,
  )

  try_send-room :
      (fuel fails : ℕ) (task : 𝓠.Task) (c : Channel T 𝓠) (xs : List T) (msg : T)
      → Holds c xs false
      → length xs < c.cap
      → 2 * fails + 3 ≤ fuel
      → Does c.cap
          (try_send T 𝓠 fuel fails task c msg)
          (record { items = xs ++ (msg ∷ []); shut = false }, ok tt)
  unfolding try_send
  try_send-room fuel fails task c xs msg h free f = (
    sent h free msg,
    ap (try_send_with T 𝓠 task msg) (start_send-room h refl free fuel fails f)
        ∙ ap (λ p. some (p.0, map_err (λ m. record { kind = closed; value = m }) p.1))
            (write-sent h free msg),
    sent-Holds h free msg,
    cap-sent h free msg,
  )

  -- Whatever the channel holds, and whatever compare-exchanges fail spuriously, `try_send` returns
  -- within `2 * fails + 3` steps of `start_send` what the bounded queue returns (disconnected, full,
  -- or the message added last), and the channel then implements the queue that is left.
  pub try_send_refines :
      (fuel fails : ℕ) (task : 𝓠.Task) (c : Channel T 𝓠) (q : Queue T) (msg : T)
      → Implements c q
      → 2 * fails + 3 ≤ fuel
      → Does c.cap (try_send T 𝓠 fuel fails task c msg) (Spec.push c.cap q msg)
  unfolding Spec.push
  try_send_refines fuel fails task c q msg h f = by_state q.shut refl
    where
      by_state :
          (b : Bool)
          → q.shut ≡ b
          → Does c.cap (try_send T 𝓠 fuel fails task c msg) (Spec.push c.cap q msg)
      by_state true e =
          rw e (try_send-closed fuel fails task c q.items msg (subst (Holds c q.items) e h) f)
      by_state false e =
          let open_h : Holds c q.items false = subst (Holds c q.items) e h in
          elim (ℕ_discrete (length q.items) c.cap) [
            | yes full ↦
                rw (e, eq→== (length q.items) c.cap full)
                  (try_send-full fuel fails task c q.items msg open_h full f)
            | no ne ↦
                rw (e, ne→== (length q.items) c.cap ne)
                  (try_send-room fuel fails task c q.items msg open_h
                    (omega (arith, open_h.room, ne)) f)
          ]

  try_recv-some :
      (fuel fails : ℕ) (c : Channel T 𝓠) (x : T) (xs : List T) (b : Bool)
      → Holds c (x ∷ xs) b
      → 2 * fails + 3 ≤ fuel
      → Does c.cap (try_recv T 𝓠 fuel fails c) (record { items = xs; shut = b }, ok x)
  unfolding try_recv
  try_recv-some fuel fails c x xs b h f = (
    received h,
    ap (try_recv_with T 𝓠) (start_recv-some h (omega arith) fuel fails f)
        ∙ try_recv_with-received h,
    received-Holds h,
    cap-received h,
  )

  -- Whatever the channel holds, and whatever compare-exchanges fail spuriously, `try_recv` returns
  -- within `2 * fails + 3` steps of `start_recv` what the bounded queue returns (the first message,
  -- also of a disconnected channel, or else that it is empty or disconnected), and the channel then
  -- implements the queue that is left.
  pub try_recv_refines :
      (fuel fails : ℕ) (c : Channel T 𝓠) (q : Queue T)
      → Implements c q
      → 2 * fails + 3 ≤ fuel
      → Does c.cap (try_recv T 𝓠 fuel fails c) (Spec.pop q)
  unfolding Spec.pop try_recv
  try_recv_refines fuel fails c q h f = by_items q.items q.shut h
    where
      by_items :
          (xs : List T) (b : Bool)
          → Holds c xs b
          → Does c.cap (try_recv T 𝓠 fuel fails c) (Spec.pop (record { items = xs; shut = b }))
      by_items [] true h =
          (c, ap (try_recv_with T 𝓠) (start_recv-closed h refl fuel fails f refl), h, refl)
      by_items [] false h =
          (c, ap (try_recv_with T 𝓠) (start_recv-empty h refl fuel fails f refl), h, refl)
      by_items (x ∷ xs) b h = try_recv-some fuel fails c x xs b h f
