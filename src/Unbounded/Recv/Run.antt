-- ===== src/Unbounded/Recv/Run.antt =====
-- `start_recv` of src/list.rs from start to end, with no other thread: it returns, whatever
-- compare-exchanges fail spuriously.
use zchan.Base.{
  ℕ, zero, suc, ◌-◌, ◌<◌, ◌≡◌, ◌≢◌, inl, inr, refl, ap, ◌∙◌, Bool, true, false, none, some, List,
  [], ◌∷◌, length, ltb, lt→ltb, eq→==, if◌then◌else◌, arith, ℕ_discrete,
}
use zchan.SerialWaker.Queue.{ArrayQueue}
use zchan.Unbounded.{Store, ListToken, default, Channel}
use zchan.Unbounded.Recv.{
  RecvLocals, again, returned, reload, advance, recv_round, recv_loop, start_recv,
}
use zchan.Unbounded.Recv.Round.{locals_of, nothing_round, first_round, empty_round, some_round}
use zchan.Unbounded.Recv.Reserve.{Takes, new_head, within-Takes, last-Takes}
use zchan.Unbounded.Recv.Take.{Readable}
use zchan.Unbounded.Holds.{Chain, Holds}

nonempty : {T : Type 0} (x : T) (xs : List T) → length (x ∷ xs) ≢ 0
nonempty x xs e = omega (arith, e)

module _ {T : Type 0} {𝓠 : ArrayQueue} where
  advance-fails :
      (c : Channel T 𝓠) (offset new_head b : ℕ)
      → advance T 𝓠 true c c.head.index offset new_head (some b) ≡ reload T 𝓠 c
  unfolding advance
  advance-fails c offset new_head b = rw (eq→== c.head.index c.head.index refl) refl

  advance-wins :
      {c : Channel T 𝓠} {x : T} {xs : List T} {shut : Bool}
      → (h : Chain c none (x ∷ xs) shut)
      → Takes (advance T 𝓠 false c c.head.index h.i (new_head h) (some (h.ptr 0))) x xs shut
  advance-wins h = elim (ℕ_discrete h.i 30) [
    | yes last ↦ last-Takes h last
    | no before ↦ within-Takes h (omega (arith, before, h.mem.index_in))
  ]

  recv_loop-again :
      (fuel fails : ℕ) (c c' : Channel T 𝓠) (l l' : RecvLocals)
      → recv_round T 𝓠 (ltb 0 fails) c l ≡ again c' l'
      → recv_loop T 𝓠 (suc fuel) fails c l ≡ recv_loop T 𝓠 fuel (fails - 1) c' l'
  unfolding recv_loop
  recv_loop-again fuel fails c c' l l' e = rw (recv_loop, e) refl

  recv_loop-returned :
      (fuel fails : ℕ) (c c' : Channel T 𝓠) (l : RecvLocals) (token : ListToken)
      → recv_round T 𝓠 (ltb 0 fails) c l ≡ returned c' token
      → recv_loop T 𝓠 (suc fuel) fails c l ≡ some (c', some token)
  unfolding recv_loop
  recv_loop-returned fuel fails c c' l token e = rw (recv_loop, e) refl

  recv_loop-nothing :
      (fuel fails : ℕ) (c : Channel T 𝓠) (l : RecvLocals) (shut : Bool)
      → recv_round T 𝓠 (ltb 0 fails) c l ≡ nothing_round c shut
      → recv_loop T 𝓠 (suc fuel) fails c l ≡ some (c, if shut then some default else none)
  unfolding recv_loop
  recv_loop-nothing fuel fails c l false e = rw (recv_loop, e) refl
  recv_loop-nothing fuel fails c l true e = rw (recv_loop, e) refl

  -- The slot of the first message is reserved at last.
  pub record Received (c : Channel T 𝓠) (fuel fails : ℕ) (x : T) (xs : List T) (shut : Bool)
      : Type 0 where
    pub chan : Channel T 𝓠
    pub token : ListToken
    pub left : Store T
    pub returns : start_recv T 𝓠 fuel fails c ≡ some (chan, some token)
    pub readable : Readable chan token x left
    pub holds : Chain (record chan { store = left }) none xs shut

  recv_loop-takes :
      (fails fuel : ℕ) {c : Channel T 𝓠} {x : T} {xs : List T} {shut : Bool}
      → Chain c none (x ∷ xs) shut
      → fails < fuel
      → Received c fuel fails x xs shut
  unfolding start_recv
  recv_loop-takes fails zero h enough = absurd (omega arith)
  recv_loop-takes zero (suc fuel) {c} {x} {xs} h enough =
      let t = advance-wins h in
      record {
        chan = t.chan;
        token = t.token;
        left = t.left;
        returns =
            recv_loop-returned fuel 0 c t.chan (locals_of c) t.token
              (some_round h (nonempty x xs) false ∙ t.returns);
        readable = t.readable;
        holds = t.holds;
      }
  recv_loop-takes (suc fails) (suc fuel) {c} {x} {xs} h enough =
      let r = recv_loop-takes fails fuel h (omega arith) in
      record {
        chan = r.chan;
        token = r.token;
        left = r.left;
        returns =
            recv_loop-again fuel (suc fails) c c (locals_of c) (locals_of c) (
              ap (λ b. recv_round T 𝓠 b c (locals_of c)) (lt→ltb 0 (suc fails) (omega arith))
              ∙ some_round h (nonempty x xs) true
              ∙ advance-fails c h.i (new_head h) (h.ptr 0))
            ∙ ap (λ (n : ℕ). recv_loop T 𝓠 fuel n c (locals_of c)) (omega arith)
            ∙ r.returns;
        readable = r.readable;
        holds = r.holds;
      }

  pub start_recv-some :
      {c : Channel T 𝓠} {x : T} {xs : List T} {shut : Bool}
      → Holds c (x ∷ xs) shut
      → (fuel fails : ℕ) → fails < fuel
      → Received c fuel fails x xs shut
  start_recv-some {x = x} {xs = xs} (inl u) fuel fails enough =
      absurd (nonempty x xs (ap length u.nothing))
  start_recv-some (inr h) fuel fails enough = recv_loop-takes fails fuel h enough

  nothing-round :
      {c : Channel T 𝓠} {shut : Bool}
      → Holds c [] shut
      → (spurious : Bool) → recv_round T 𝓠 spurious c (locals_of c) ≡ nothing_round c shut
  nothing-round (inl u) spurious = first_round u spurious
  nothing-round (inr h) spurious = empty_round h refl spurious

  -- An empty channel gives no slot.
  pub start_recv-nothing :
      {c : Channel T 𝓠} {shut : Bool}
      → Holds c [] shut
      → (fuel fails : ℕ) → fails < fuel
      → start_recv T 𝓠 fuel fails c ≡ some (c, if shut then some default else none)
  unfolding start_recv
  start_recv-nothing h zero fails enough = absurd (omega arith)
  start_recv-nothing {c} {shut} h (suc fuel) fails enough =
      recv_loop-nothing fuel fails c (locals_of c) shut (nothing-round h (ltb 0 fails))
