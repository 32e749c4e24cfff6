-- ===== src/Array/Query/Drop.antt =====
-- `drop` of src/array.rs drops the messages that are in the queue, and nothing else.
use zchan.Base.{
  ℕ, ◌+◌, ◌<◌, ◌≡◌, refl, sym, ap, ◌∙◌, Bool, some, List, [], ◌∷◌, ◌++◌, append_assoc, length,
  length-append, get_elem?, arith,
}
use zchan.SerialWaker.Queue.{ArrayQueue}
use zchan.Array.{Slot, Channel}
use zchan.Array.Query.{drop_slots, drop}
use zchan.Array.Query.Laws.{len_lem}
use zchan.Array.Stamp.{and-index}
use zchan.Array.Inv.{Holds, distance, index_after, msg_of, msg?, stamp?-some}
use zchan.Array.Recv.Laws.{head-Packed}

get_elem?-append_at {ℓ} :
    {A : Type ℓ} (pre : List A) (y : A) (suf : List A)
    → get_elem? (pre ++ (y ∷ suf)) (length pre) ≡ some y
get_elem?-append_at [] y suf = refl
get_elem?-append_at (x ∷ pre) y suf = get_elem?-append_at pre y suf

module _ {T : Type 0} {𝓠 : ArrayQueue} {c : Channel T 𝓠} {xs : List T} {closed : Bool}
    (h : Holds c xs closed) where
  -- The slot of the `i`-th message.
  abbrev place : ℕ → ℕ
  place i = index_after c.cap h.lap h.next h.index i

  place_in : (i : ℕ) → i < length xs → place i < c.cap
  place_in i hi = ground (arith, h.index_in, h.room)

  distance-place : (i : ℕ) → i < length xs → distance c.cap h.lap h.next h.index (place i) ≡ i
  distance-place i hi = ground (arith, h.index_in, h.room)

  message_at : (i : ℕ) → i < length xs → msg? c.buffer (place i) ≡ get_elem? xs i
  message_at i hi =
      h.messages (place i) (place_in i hi) (omega (arith, distance-place i hi, hi))
      ∙ ap (get_elem? xs) (distance-place i hi)

  slot_at :
      (i : ℕ) (y : T)
      → i < length xs
      → get_elem? xs i ≡ some y
      → (s : Slot T) × (get_elem? c.buffer (place i) ≡ some s) × (s.msg ≡ some y)
  slot_at i y hi e =
      let (s, found, _) = stamp?-some c.buffer (place i) _ (h.stamps (place i) (place_in i hi)) in
      (s, found, sym (ap msg_of found) ∙ message_at i hi ∙ e)

  -- From the `i`-th message on the loop drops the rest of the queue.
  drop_slots_lem :
      (pre suf : List T) (i : ℕ)
      → xs ≡ pre ++ suf
      → i ≡ length pre
      → drop_slots T 𝓠 c (length suf) h.index i ≡ some suf
  unfolding drop_slots
  drop_slots_lem pre [] i e ei = refl
  drop_slots_lem pre (y ∷ suf) i e ei =
      let within : i < length xs = omega (arith, ap length e, length-append pre (y ∷ suf), ei) in
      let (s, found, is) = slot_at i y within (
        ap (get_elem? xs) ei
        ∙ ap (λ l. get_elem? l (length pre)) e
        ∙ get_elem?-append_at pre y suf) in
      let rest =
        drop_slots_lem (pre ++ (y ∷ [])) suf (i + 1) (e ∙ sym (append_assoc pre (y ∷ []) suf))
          (omega (arith, length-append pre (y ∷ []), ei)) in
      rw (found, drop_slots, is, rest)

  -- `drop` of a channel that holds the messages `xs`, disconnected or not, returns and drops in place
  -- exactly the messages `xs`, in order, each once.
  pub drop_lem : drop T 𝓠 c ≡ some xs
  unfolding drop
  drop_lem =
      rw (len_lem h, drop, and-index h.geometry (head-Packed h)) (drop_slots_lem [] xs 0 refl refl)
