-- ===== src/Context/Cache.antt =====
-- `Context::with` of src/context.rs: the context that a thread keeps for its next blocking call.
use zchan.Base.{
  ℕ, ◌+◌, ◌<◌, ◌≡◌, ◌≢◌, refl, ap, ◌∙◌, mapped, Option, none, some, ◌==◌, eq→==, ne→==,
  if◌then◌else◌, arith,
}
use zchan.Context
use zchan.Context.{Inner, reset}

-- The thread-local cell `CONTEXT`: not used yet, with what it holds, or destroyed with the thread.
pub data Cell : Type 0 where
  unused destroyed : Cell
  holds : Option ℕ → Cell

-- The contexts of all threads, of which those below `fresh` exist, and the cell of the calling thread.
pub record Cache : Type 0 where
  pub contexts : ℕ → Inner
  pub fresh : ℕ
  pub cell : Cell

abbrev pub set_context : ℕ → Inner → Cache → Cache
set_context cx i w = record w { contexts = λ (j : ℕ). if j == cx then i else w.contexts j }

-- `Context::new()`, called by the given thread: the new context has the number `fresh` before it.
abbrev pub new_context : (thread : ℕ) → Cache → Cache
new_context thread w = record (set_context w.fresh (Context.new thread) w) { fresh = w.fresh + 1 }

module _ {ℓ} {R : Type ℓ} (thread : ℕ) (f : ℕ → Cache → Option (Cache × R)) where
  -- `f(&Context::new())`
  abbrev pub with_new : Cache → Option (Cache × R)
  with_new w = f w.fresh (new_context thread w)

  -- The call of `f` with the cell's context, which is taken out and put back.
  abbrev pub with_cached : (cx : ℕ) → Cache → Option (Cache × R)
  with_cached cx w =
      mapped (λ r. (record r.0 { cell = holds (some cx) }, r.1))
        (f cx (record (set_context cx (reset (w.contexts cx)) w) { cell = holds none }))

  abbrev with_cell : Cell → Cache → Option (Cache × R)
  with_cell unused w = with_cached w.fresh (new_context thread w)
  with_cell destroyed w = with_new w
  with_cell (holds none) w = with_new w
  with_cell (holds (some cx)) w = with_cached cx w

  -- `Context::with`, by the given thread, whose result is `none` where `f` does not return.
  unfoldable pub with_context : Cache → Option (Cache × R)
  with_context w = with_cell w.cell w

-- The thread's cell holds a context that exists and belongs to the thread, or none.
abbrev pub OwnedCell : (thread : ℕ) → Cell → Cache → Type 0
OwnedCell thread unused w = Unit
OwnedCell thread destroyed w = Unit
OwnedCell thread (holds none) w = Unit
OwnedCell thread (holds (some cx)) w = (cx < w.fresh) × ((w.contexts cx).thread_id ≡ thread)

-- A context that waits, for the thread.
abbrev pub Waits : (thread : ℕ) → Inner → Type 0
Waits thread i = (i.select ≡ 0) × (i.packet ≡ 0) × (i.thread_id ≡ thread)

-- The contexts that a call within a call is given.
abbrev pub nested : (thread : ℕ) → Cache → Option (Cache × (ℕ × ℕ))
nested thread w = with_context thread (λ a. with_context thread (λ b v. some (v, (a, b)))) w

abbrev pub Nested : (thread : ℕ) → Option (Cache × (ℕ × ℕ)) → Type 0
Nested thread r =
    (w' : Cache) × (a : ℕ) × (b : ℕ) × (r ≡ some (w', (a, b)))
    × (a ≢ b)
    × Waits thread (w'.contexts a)
    × Waits thread (w'.contexts b)
    × OwnedCell thread w'.cell w'

module _ (thread : ℕ) where
  set-same : (cx : ℕ) (i : Inner) (w : Cache) → (set_context cx i w).contexts cx ≡ i
  set-same cx i w = rw (eq→== cx cx refl) refl

  set-other :
      (cx at : ℕ) (i : Inner) (w : Cache)
      → at ≢ cx
      → (set_context cx i w).contexts at ≡ w.contexts at
  set-other cx at i w ne = rw (ne→== at cx ne) refl

  Waits-path : (i j : Inner) → i ≡ j → Waits thread j → Waits thread i
  Waits-path i j e (free, empty, mine) = (
    ap (λ (k : Inner). k.select) e ∙ free,
    ap (λ (k : Inner). k.packet) e ∙ empty,
    ap (λ (k : Inner). k.thread_id) e ∙ mine,
  )

  with_cached-Nested :
      (cx : ℕ) (w : Cache)
      → cx < w.fresh
      → (w.contexts cx).thread_id ≡ thread
      → Nested thread (with_cached thread (λ a. with_context thread (λ b v. some (v, (a, b)))) cx w)
  unfolding with_context reset
  with_cached-Nested cx w below mine =
      let set : Cache = set_context cx (reset (w.contexts cx)) w in
      (
        record (new_context thread (record set { cell = holds none })) { cell = holds (some cx) },
        cx,
        w.fresh,
        refl,
        omega (arith, below),
        Waits-path _ _
            (set-other w.fresh cx (Context.new thread) set (omega (arith, below))
              ∙ set-same cx (reset (w.contexts cx)) w)
            (refl, refl, mine),
        Waits-path _ _ (set-same w.fresh (Context.new thread) set) (refl, refl, refl),
        (
          omega (arith, below),
          ap (λ (k : Inner). k.thread_id)
                (set-other w.fresh cx (Context.new thread) set (omega (arith, below))
                  ∙ set-same cx (reset (w.contexts cx)) w)
              ∙ mine,
        ),
      )

  with_new-Nested :
      (cell : Cell) (w : Cache)
      → ((v : Cache)
          → with_context {R = ℕ × ℕ} thread
              (λ b u. some (u, (w.fresh, b)))
              (record v { cell = cell })
            ≡ some (new_context thread (record v { cell = cell }), (w.fresh, v.fresh)))
      → OwnedCell thread cell (new_context thread (new_context thread (record w { cell = cell })))
      → Nested thread (
          with_new thread
            (λ a. with_context thread (λ b v. some (v, (a, b))))
            (record w { cell = cell }))
  with_new-Nested cell w inner owned =
      let one : Cache = new_context thread (record w { cell = cell }) in
      (
        new_context thread one,
        w.fresh,
        w.fresh + 1,
        inner one,
        omega arith,
        Waits-path _ _
            (set-other (w.fresh + 1) w.fresh (Context.new thread) one (omega arith)
              ∙ set-same w.fresh (Context.new thread) w)
            (refl, refl, refl),
        Waits-path _ _ (set-same (w.fresh + 1) (Context.new thread) one) (refl, refl, refl),
        owned,
      )

  by_cell :
      (cell : Cell) (w : Cache)
      → OwnedCell thread cell w
      → Nested thread (nested thread (record w { cell = cell }))
  unfolding with_context
  by_cell unused w owned =
      with_cached-Nested w.fresh (new_context thread (record w { cell = unused })) (omega arith)
        (ap (λ (k : Inner). k.thread_id) (set-same w.fresh (Context.new thread) w))
  by_cell destroyed w owned = with_new-Nested destroyed w (λ v. refl) tt
  by_cell (holds none) w owned = with_new-Nested (holds none) w (λ v. refl) tt
  by_cell (holds (some cx)) w (below, mine) =
      with_cached-Nested cx (record w { cell = holds (some cx) }) below mine

  -- A call of `Context::with` within another one, by a thread whose cell holds one of its own contexts
  -- or none, or is unused or destroyed: the two are given different contexts, both waiting and both the
  -- thread's; and the cell then holds one of the thread's contexts or none again.
  pub with_context-Nested :
      (w : Cache) → OwnedCell thread w.cell w → Nested thread (nested thread w)
  with_context-Nested w owned = by_cell w.cell w owned
