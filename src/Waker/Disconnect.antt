-- ===== src/Waker/Disconnect.antt =====
-- What `disconnect` of src/waker.rs does to the contexts of the queue.
use zchan.Base.{
  arith, ℕ, ◌+◌, ◌≡◌, refl, sym, ap, ◌∙◌, Bool, true, false, ◌&&◌, ◌||◌, List, [], ◌∷◌, ◌==◌, eq→==,
  ne→==, ℕ_discrete, if◌then◌else◌, subst,
}
use zchan.Select.{disconnected, into}
use zchan.Context.{Inner, unpark}
use zchan.Context.Laws.{try_select-free}
use zchan.Waker.{Entry, Waker, Store, update, disconnect_each, disconnect}
use zchan.Waker.Laws.{any}

-- A context after `disconnect`, if it waits.
abbrev pub cut_off : Inner → Inner
cut_off i = record i { select = into disconnected; unparked = i.unparked + 1 }

-- What one entry does to the store.
abbrev cut_at : Store → ℕ → Store
cut_at s cx = if (s cx).select == 0 then update s cx (cut_off (s cx)) else s

disconnect_step :
    (e : Entry) (es : List Entry) (s : Store)
    → disconnect_each s (e ∷ es) ≡ disconnect_each (cut_at s e.cx) es
unfolding disconnect_each unpark
disconnect_step e es s = elim (ℕ_discrete (s e.cx).select 0) [
  | yes free ↦ rw (eq→== (s e.cx).select 0 free, try_select-free disconnected (s e.cx) free) refl
  | no taken ↦ rw (ne→== (s e.cx).select 0 taken) refl
]

cut_at-value :
    (s : Store) (cx j : ℕ)
    → cut_at s cx j ≡ (if (cx == j) && ((s j).select == 0) then cut_off (s j) else s j)
cut_at-value s cx j = elim (ℕ_discrete cx j) [
  | yes same ↦
      subst (λ k. cut_at s cx k ≡ (if (cx == k) && ((s k).select == 0) then cut_off (s k) else s k))
        same at_self
  | no other ↦ elim (ℕ_discrete (s cx).select 0) [
    | yes free ↦
        rw (eq→== (s cx).select 0 free, ne→== cx j other, ne→== j cx (λ e. other (sym e))) refl
    | no taken ↦ rw (ne→== (s cx).select 0 taken, ne→== cx j other) refl
  ]
]
  where
    at_self : cut_at s cx cx ≡ (if (cx == cx) && ((s cx).select == 0) then cut_off (s cx) else s cx)
    at_self = elim (ℕ_discrete (s cx).select 0) [
      | yes free ↦ rw (eq→== (s cx).select 0 free, eq→== cx cx refl) refl
      | no taken ↦ rw (ne→== (s cx).select 0 taken, eq→== cx cx refl) refl
    ]

abbrev cut_if : Bool → Inner → Inner
cut_if b i = if b && (i.select == 0) then cut_off i else i

cut_if-twice : (a b : Bool) (i : Inner) → cut_if b (cut_if a i) ≡ cut_if (a || b) i
cut_if-twice true true i = elim (ℕ_discrete i.select 0) [
  | yes free ↦ rw (eq→== i.select 0 free) refl
  | no taken ↦ rw (ne→== i.select 0 taken, ne→== i.select 0 taken) refl
]
cut_if-twice true false i = refl
cut_if-twice false b i = refl

disconnect_each_lem :
    (es : List Entry) (s : Store) (j : ℕ)
    → disconnect_each s es j ≡ cut_if (any (λ e. e.cx == j) es) (s j)
unfolding disconnect_each
disconnect_each_lem [] s j = refl
disconnect_each_lem (e ∷ es) s j =
    ap (λ (f : Store). f j) (disconnect_step e es s)
    ∙ disconnect_each_lem es (cut_at s e.cx) j
    ∙ ap (cut_if (any (λ (x : Entry). x.cx == j) es)) (cut_at-value s e.cx j)
    ∙ cut_if-twice (e.cx == j) (any (λ (x : Entry). x.cx == j) es) (s j)

-- `disconnect` selects `Disconnected` in every registered context that waits, and wakes its thread
-- once, however many entries it has; it changes no other context, and none that was selected.
pub disconnect_lem :
    (s : Store) (w : Waker) (j : ℕ)
    → disconnect s w j
      ≡ (if any (λ e. e.cx == j) w.selectors && ((s j).select == 0) then cut_off (s j) else s j)
unfolding disconnect
disconnect_lem s w j = disconnect_each_lem w.selectors s j

cut_if-cut : (b : Bool) (i : Inner) → i.select ≡ 2 → (cut_if b i).select ≡ 2
cut_if-cut true i e =
    ap (λ (t : Bool). (if t then cut_off i else i).select) (ne→== i.select 0 (omega (arith, e))) ∙ e
cut_if-cut false i e = e

cut_if-free : (i : Inner) → i.select ≡ 0 → (cut_if true i).select ≡ 2
cut_if-free i e = ap (λ (t : Bool). (if t then cut_off i else i).select) (eq→== i.select 0 e)

-- A context that waits and that one of two queues holds is disconnected after `disconnect` of both.
cut_twice :
    (a b : Bool) (i : Inner) → i.select ≡ 0 → (a || b) ≡ true → (cut_if b (cut_if a i)).select ≡ 2
cut_twice true b i free held = cut_if-cut b (cut_if true i) (cut_if-free i free)
cut_twice false true i free held = cut_if-free i free
cut_twice false false i free held = absurd cc

pub disconnect_both :
    (s : Store) (first second : Waker) (cx : ℕ)
    → (s cx).select ≡ 0
    → (any (λ e. e.cx == cx) first.selectors || any (λ e. e.cx == cx) second.selectors) ≡ true
    → (disconnect (disconnect s first) second cx).select ≡ 2
disconnect_both s first second cx free held =
    ap (λ (i : Inner). i.select)
      (disconnect_lem (disconnect s first) second cx
        ∙ ap (cut_if (any (λ e. e.cx == cx) second.selectors)) (disconnect_lem s first cx))
    ∙ cut_twice (any (λ e. e.cx == cx) first.selectors) (any (λ e. e.cx == cx) second.selectors)
        (s cx) free held
