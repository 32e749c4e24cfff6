-- ===== src/Array/Deadline.antt =====
-- `send` of src/array.rs with a deadline, on a channel that implements a queue.
use zchan.Base.{
  ℕ, zero, suc, ◌+◌, ◌*◌, ◌≤◌, ◌<◌, ◌≡◌, ◌⊎◌, inl, inr, Bool-cases, refl, ap, ◌∙◌, Bool, true,
  false, Option, some, List, [], ◌∷◌, ◌++◌, length, leb, eq→==, ne→==, if◌then◌else◌, arith, subst,
  ℕ_discrete,
}
use zchan.Error.{Result, ok, err, map_err, TrySendError, SendTimeoutError, kind_is_closed}
use zchan.SerialWaker.Queue.{ArrayQueue}
use zchan.Array.{Channel, default}
use zchan.Array.Send
use zchan.Array.Send.{try_send, write, sink_result, sink_start_send, send_round, send}
use zchan.Array.Send.Run.{start_send-room, start_send-full, start_send-closed, moved, token}
use zchan.Array.Send.Write.{sent, sent-Holds, write-sent, cap-sent}
use zchan.Array.Inv.{Holds}
use zchan.Array.Spec
use zchan.Array.Spec.{Queue}
use zchan.Array.Refine.{Implements, Does}

module _ {T : Type 0} where
  -- What `send` with a deadline makes of it.
  abbrev pub send_reply :
      Result (Unit {0}) (TrySendError T) → Result (Unit {0}) (SendTimeoutError T)
  send_reply (ok _) = ok tt
  send_reply (err e) =
      if kind_is_closed e.kind
      then err (SendTimeoutError.disconnected e.value)
      else err (SendTimeoutError.timeout e.value)

module _ {T : Type 0} {𝓠 : ArrayQueue} where
  -- A round that returns whatever the time is the last one.
  send_first :
      (attempts fuel fails end : ℕ) (clock : List ℕ) (c : Channel T 𝓠) (msg : T)
      (r : Channel T 𝓠 × Result (Unit {0}) (SendTimeoutError T))
      → ((now : ℕ) (again : Option (Channel T 𝓠 × Result (Unit {0}) (SendTimeoutError T)))
          → send_round T 𝓠
              (some end)
              now
              msg
              again
              (Send.start_send T 𝓠 fuel fails c Send.load_tail)
            ≡ some r)
      → 0 < attempts
      → send T 𝓠 attempts fuel fails (some end) clock c msg ≡ some r
  unfolding send
  send_first zero fuel fails end clock c msg r round h = absurd (omega arith)
  send_first (suc attempts) fuel fails end [] c msg r round h = round 0 _
  send_first (suc attempts) fuel fails end (now ∷ clock) c msg r round h = round now _

  round_full :
      (end now : ℕ) (c : Channel T 𝓠) (msg : T)
      (again : Option (Channel T 𝓠 × Result (Unit {0}) (SendTimeoutError T)))
      → (end ≤ now) ⊎ (again ≡ some (c, err (SendTimeoutError.timeout msg)))
      → send_round T 𝓠 (some end) now msg again (c, Send.not_ready)
        ≡ some (c, err (SendTimeoutError.timeout msg))
  unfolding send_round
  round_full end now c msg again (inl late) =
      let past : leb end now ≡ true = ground arith in rw past refl
  round_full end now c msg again (inr later) = elim (Bool-cases (leb end now)) [
    | inl past ↦ rw past refl
    | inr early ↦ rw early later
  ]

  send_late :
      (attempts fuel fails end now : ℕ) (early clock : List ℕ) (c : Channel T 𝓠) (msg : T)
      → Send.start_send T 𝓠 fuel fails c Send.load_tail ≡ (c, Send.not_ready)
      → length early < attempts
      → end ≤ now
      → send T 𝓠 attempts fuel fails (some end) (early ++ (now ∷ clock)) c msg
        ≡ some (c, err (SendTimeoutError.timeout msg))
  unfolding send
  send_late zero fuel fails end now early clock c msg full a late = absurd (omega arith)
  send_late (suc attempts) fuel fails end now [] clock c msg full a late =
      ap (send_round T 𝓠 (some end) now msg _) full ∙ round_full end now c msg _ (inl late)
  send_late (suc attempts) fuel fails end now (x ∷ early) clock c msg full a late =
      ap (send_round T 𝓠 (some end) x msg _) full
      ∙ round_full end x c msg _
          (inr (send_late attempts fuel fails end now early clock c msg full (omega arith) late))

  round_closed :
      (end now : ℕ) (c : Channel T 𝓠) (msg : T)
      (again : Option (Channel T 𝓠 × Result (Unit {0}) (SendTimeoutError T)))
      → send_round T 𝓠 (some end) now msg again (c, Send.reserved default)
        ≡ some (c, err (SendTimeoutError.disconnected msg))
  unfolding send_round
  round_closed end now c msg again = refl

  round_room :
      (end now : ℕ) {c : Channel T 𝓠} {xs : List T} (h : Holds c xs false)
      (free : length xs < c.cap) (msg : T)
      (again : Option (Channel T 𝓠 × Result (Unit {0}) (SendTimeoutError T)))
      → send_round T 𝓠 (some end) now msg again (moved h, Send.reserved (token h))
        ≡ some (sent h free msg, ok tt)
  unfolding send_round
  round_room end now h free msg again =
      ap
        (λ (p : Channel T 𝓠 × Result (Unit {0}) T).
          some (p.0, map_err {F = SendTimeoutError T} SendTimeoutError.disconnected p.1))
        (write-sent h free msg)

  module _ (attempts fuel fails end now : ℕ) (early clock : List ℕ) (f : 2 * fails + 3 ≤ fuel)
      (a : length early < attempts) (late : end ≤ now) where
    send-closed :
        (c : Channel T 𝓠) (xs : List T) (msg : T)
        → Holds c xs true
        → send T 𝓠 attempts fuel fails (some end) (early ++ (now ∷ clock)) c msg
          ≡ some (c, err (SendTimeoutError.disconnected msg))
    send-closed c xs msg h =
        send_first attempts fuel fails end (early ++ (now ∷ clock)) c msg _
          (λ t again.
            ap (send_round T 𝓠 (some end) t msg again) (start_send-closed h refl fuel fails f)
            ∙ round_closed end t c msg again)
          (omega arith)

    send-room :
        (c : Channel T 𝓠) (xs : List T) (msg : T) (h : Holds c xs false) (free : length xs < c.cap)
        → send T 𝓠 attempts fuel fails (some end) (early ++ (now ∷ clock)) c msg
          ≡ some (sent h free msg, ok tt)
    send-room c xs msg h free =
        send_first attempts fuel fails end (early ++ (now ∷ clock)) c msg _
          (λ t again.
            ap (send_round T 𝓠 (some end) t msg again) (start_send-room h refl free fuel fails f)
            ∙ round_room end t h free msg again)
          (omega arith)

    -- With a deadline, and `2 * fails + 3` steps of `start_send` for each round, whose first `fails`
    -- compare-exchanges fail spuriously, `send` returns, at the latest in the round that reads a time
    -- not before the deadline: the message is sent if there is room; on a full channel it is given back with
    -- `Timeout`, on a disconnected one with `Disconnected`; and the channel implements the queue
    -- after that.
    pub send_refines :
        (c : Channel T 𝓠) (q : Queue T) (msg : T)
        → Implements c q
        → Does c.cap
            (send T 𝓠 attempts fuel fails (some end) (early ++ (now ∷ clock)) c msg)
            ((Spec.push c.cap q msg).0, send_reply (Spec.push c.cap q msg).1)
    unfolding Spec.push
    send_refines c q msg h = by_state q.shut refl
      where
        by_state :
            (b : Bool)
            → q.shut ≡ b
            → Does c.cap
                (send T 𝓠 attempts fuel fails (some end) (early ++ (now ∷ clock)) c msg)
                ((Spec.push c.cap q msg).0, send_reply (Spec.push c.cap q msg).1)
        by_state true e = rw e (
          c,
          send-closed c q.items msg (subst (Holds c q.items) e h),
          subst (Holds c q.items) e h,
          refl,
        )
        by_state false e =
            let open_h : Holds c q.items false = subst (Holds c q.items) e h in
            elim (ℕ_discrete (length q.items) c.cap) [
              | yes full ↦
                  rw (e, eq→== (length q.items) c.cap full)
                    (
                      c,
                      send_late attempts fuel fails end now early clock c msg
                          (start_send-full open_h refl full fuel fails f) a late,
                      open_h,
                      refl,
                    )
              | no ne ↦
                  let free : length q.items < c.cap = omega (arith, open_h.room, ne) in
                  rw (e, ne→== (length q.items) c.cap ne)
                    (
                      sent open_h free msg,
                      send-room c q.items msg open_h free,
                      sent-Holds open_h free msg,
                      cap-sent open_h free msg,
                    )
            ]
