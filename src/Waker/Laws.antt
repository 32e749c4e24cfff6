-- ===== src/Waker/Laws.antt =====
-- What the queue of src/waker.rs promises: the first entry that can be selected is selected, alone.
use zchan.Base.{
  ℕ, zero, suc, ◌+◌, ◌≡◌, ◌≢◌, refl, sym, ap, ◌∙◌, Bool, true, false, not, ◌&&◌, ◌||◌, Bool-cases,
  Option, some, none, inl, inr, List, [], ◌∷◌, ◌++◌, append-nil, ◌==◌, eq→==, ne→==, ==_iff,
  ℕ_discrete, if◌then◌else◌, arith,
}
use zchan.Error.{Result}
use zchan.Select.{Operation, Selected, operation, from}
use zchan.Context.{Inner, is_waiting, store_packet, unpark}
use zchan.Context.Laws.{try_select-free, try_select-taken}
use zchan.Waker.{
  Entry, Waker, Store, update, deliver, select_from, try_select_entry, any_selectable, can_select,
  unregister_from, unregister, register_with_packet,
}

-- An entry of another thread that waits.
abbrev pub eligible : (me : ℕ) → Store → Entry → Bool
eligible me s e = not ((s e.cx).thread_id == me) && ((s e.cx).select == 0)

abbrev pub any : (Entry → Bool) → List Entry → Bool
any p [] = false
any p (e ∷ es) = p e || any p es

-- The context after its entry was selected: the operation, the packet if there is one, one wake-up.
abbrev pub chosen : Entry → Inner → Inner
chosen e i = record i {
  select = e.oper.address;
  packet = if e.packet == 0 then i.packet else e.packet;
  unparked = i.unparked + 1;
}

module _ (me : ℕ) (s : Store) where
  select_skip :
      (e : Entry) (es : List Entry)
      → eligible me s e ≡ false
      → select_from me s (e ∷ es)
        ≡ ((select_from me s es).0, e ∷ (select_from me s es).1, (select_from me s es).2)
  unfolding select_from
  select_skip e es h = elim (ℕ_discrete (s e.cx).thread_id me) [
    | yes mine ↦ rw (eq→== (s e.cx).thread_id me mine) refl
    | no other ↦
        let taken : (s e.cx).select ≢ 0 = λ z.
          let one : eligible me s e ≡ true =
            rw (ne→== (s e.cx).thread_id me other, eq→== (s e.cx).select 0 z) refl in
          cc in
        rw (ne→== (s e.cx).thread_id me other, try_select-taken (operation e.oper) (s e.cx) taken)
          refl
  ]

  deliver-chosen :
      (e : Entry) (i : Inner) → deliver e (record i { select = e.oper.address }) ≡ chosen e i
  unfolding deliver store_packet unpark
  deliver-chosen e i = elim (ℕ_discrete e.packet 0) [
    | yes z ↦ rw (eq→== e.packet 0 z) refl
    | no nz ↦ rw (ne→== e.packet 0 nz) refl
  ]

  eligible-parts :
      (e : Entry) → eligible me s e ≡ true → ((s e.cx).thread_id ≢ me) × ((s e.cx).select ≡ 0)
  eligible-parts e h = elim (ℕ_discrete (s e.cx).thread_id me) [
    | yes mine ↦
        let shut : eligible me s e ≡ false = rw (eq→== (s e.cx).thread_id me mine) refl in absurd cc
    | no other ↦
        let rest : ((s e.cx).select == 0) ≡ true =
          sym (rw (ne→== (s e.cx).thread_id me other) refl) ∙ h in
        (other, (==_iff (s e.cx).select 0).0 rest)
  ]

  select_take :
      (e : Entry) (es : List Entry)
      → eligible me s e ≡ true
      → select_from me s (e ∷ es) ≡ (update s e.cx (chosen e (s e.cx)), es, some e)
  unfolding select_from
  select_take e es h =
      let (other, free) = eligible-parts e h in
      rw (ne→== (s e.cx).thread_id me other, try_select-free (operation e.oper) (s e.cx) free)
        (ap (λ (i : Inner). (update s e.cx i, es, some e))
          (ap (λ (p : Inner × Result (Unit {0}) Selected). deliver e p.0)
              (try_select-free (operation e.oper) (s e.cx) free)
            ∙ deliver-chosen e (s e.cx)))

  select_from-first :
      (pre suf : List Entry) (e : Entry)
      → any (eligible me s) pre ≡ false
      → eligible me s e ≡ true
      → select_from me s (pre ++ (e ∷ suf))
        ≡ (update s e.cx (chosen e (s e.cx)), pre ++ suf, some e)
  select_from-first [] suf e none_before h = select_take e suf h
  select_from-first (x ∷ pre) suf e none_before h = elim (Bool-cases (eligible me s x)) [
    | inl yes_x ↦ let hit : any (eligible me s) (x ∷ pre) ≡ true = rw yes_x refl in absurd cc
    | inr no_x ↦
        let later : any (eligible me s) pre ≡ false = sym (rw no_x refl) ∙ none_before in
        rw (select_skip x (pre ++ (e ∷ suf)) no_x, select_from-first pre suf e later h) refl
  ]

  select_from-none :
      (es : List Entry) → any (eligible me s) es ≡ false → select_from me s es ≡ (s, es, none)
  unfolding select_from
  select_from-none [] h = refl
  select_from-none (x ∷ es) h = elim (Bool-cases (eligible me s x)) [
    | inl yes_x ↦ let hit : any (eligible me s) (x ∷ es) ≡ true = rw yes_x refl in absurd cc
    | inr no_x ↦
        let later : any (eligible me s) es ≡ false = sym (rw no_x refl) ∙ h in
        rw (select_skip x es no_x, select_from-none es later) refl
  ]

  any-split :
      (p : Entry → Bool) (es : List Entry)
      → any p es ≡ true
      → (pre : List Entry) × (e : Entry) × (suf : List Entry) × (es ≡ pre ++ (e ∷ suf))
        × (any p pre ≡ false)
        × (p e ≡ true)
  any-split p [] h = absurd cc
  any-split p (x ∷ es) h = elim (Bool-cases (p x)) [
    | inl yes_x ↦ ([], x, es, refl, refl, yes_x)
    | inr no_x ↦
        let later : any p es ≡ true = sym (rw no_x refl) ∙ h in
        let (pre, e, suf, is, before, hit) = any-split p es later in
        let no_hit : any p (x ∷ pre) ≡ false = ap (λ (b : Bool). b || any p pre) no_x ∙ before in
        (x ∷ pre, e, suf, ap (λ l. x ∷ l) is, no_hit, hit)
  ]

  is_waiting-test : (n : ℕ) → is_waiting (from n) ≡ (n == 0)
  is_waiting-test zero = refl
  is_waiting-test (suc zero) = refl
  is_waiting-test (suc (suc zero)) = refl
  is_waiting-test (suc (suc (suc n))) = sym (ne→== (suc (suc (suc n))) 0 (omega arith))

  pub any_selectable-any : (es : List Entry) → any_selectable me s es ≡ any (eligible me s) es
  unfolding any_selectable
  any_selectable-any [] = refl
  any_selectable-any (e ∷ es) = rw (is_waiting-test (s e.cx).select, any_selectable-any es) refl

-- `try_select` selects the first entry, in the order of registration, that belongs to another thread
-- whose context waits: that context gets its operation, its packet if there is one, and one wake-up;
-- the entry leaves the queue and is returned; the other entries and contexts stay as they are.
pub try_select_entry_lem :
    (me : ℕ) (s : Store) (pre suf : List Entry) (e : Entry)
    → any (eligible me s) pre ≡ false
    → eligible me s e ≡ true
    → try_select_entry me s (record { selectors = pre ++ (e ∷ suf) })
      ≡ (update s e.cx (chosen e (s e.cx)), record { selectors = pre ++ suf }, some e)
unfolding try_select_entry
try_select_entry_lem me s pre suf e before hit =
    rw (select_from-first me s pre suf e before hit) refl

abbrev pub is_some : Option Entry → Bool
is_some none = false
is_some (some e) = true

selects :
    (me : ℕ) (s : Store) (es : List Entry)
    → any (eligible me s) es ≡ true
    → is_some (select_from me s es).2 ≡ true
selects me s es can =
    let (pre, e, suf, is, before, hit) = any-split me s (eligible me s) es can in
    ap (λ l. is_some (select_from me s l).2) is
    ∙ ap (λ (r : Store × List Entry × Option Entry). is_some r.2)
        (select_from-first me s pre suf e before hit)

-- `can_select` foretells `try_select` by the same thread: it is true exactly if an entry is selected.
pub can_select_lem :
    (me : ℕ) (s : Store) (w : Waker) → can_select me s w ≡ is_some (try_select_entry me s w).2
unfolding can_select try_select_entry
can_select_lem me s w =
    any_selectable-any me s w.selectors ∙ by_test (any (eligible me s) w.selectors) refl
  where
    by_test :
        (b : Bool)
        → any (eligible me s) w.selectors ≡ b
        → any (eligible me s) w.selectors ≡ is_some (select_from me s w.selectors).2
    by_test true e = e ∙ sym (selects me s w.selectors e)
    by_test false e =
        e
        ∙ ap (λ (r : Store × List Entry × Option Entry). is_some r.2)
            (sym (select_from-none me s w.selectors e))

-- If `can_select` is false, `try_select` by the same thread changes neither the queue nor a context.
pub try_select_entry-none :
    (me : ℕ) (s : Store) (w : Waker)
    → can_select me s w ≡ false
    → try_select_entry me s w ≡ (s, w, none)
unfolding can_select try_select_entry
try_select_entry-none me s w cannot =
    ap (λ (r : Store × List Entry × Option Entry). (r.0, record { selectors = r.1 }, r.2))
      (select_from-none me s w.selectors (sym (any_selectable-any me s w.selectors) ∙ cannot))

abbrev pub concerns : Operation → Entry → Bool
concerns oper e = e.oper.address == oper.address

unregister_from-first :
    (oper : Operation) (pre suf : List Entry) (e : Entry)
    → any (concerns oper) pre ≡ false
    → concerns oper e ≡ true
    → unregister_from oper (pre ++ (e ∷ suf)) ≡ (pre ++ suf, some e)
unfolding unregister_from
unregister_from-first oper [] suf e before hit = rw hit refl
unregister_from-first oper (x ∷ pre) suf e before hit = elim (Bool-cases (concerns oper x)) [
  | inl yes_x ↦ let found : any (concerns oper) (x ∷ pre) ≡ true = rw yes_x refl in absurd cc
  | inr no_x ↦
      let later : any (concerns oper) pre ≡ false = sym (rw no_x refl) ∙ before in
      rw (no_x, unregister_from-first oper pre suf e later hit) refl
]

-- Unregistering an operation that was just registered, and that no other entry has, gives its entry
-- and leaves the queue as it was.
pub unregister-register_with_packet :
    (w : Waker) (oper : Operation) (packet cx : ℕ)
    → any (concerns oper) w.selectors ≡ false
    → unregister (register_with_packet w oper packet cx) oper
      ≡ (w, some (record { oper = oper; packet = packet; cx = cx }))
unfolding unregister register_with_packet
unregister-register_with_packet w oper packet cx fresh_oper =
    let entry : Entry = record { oper = oper; packet = packet; cx = cx } in
    rw
      (
        unregister_from-first oper w.selectors [] entry fresh_oper
            (eq→== oper.address oper.address refl),
        append-nil,
      )
      refl
