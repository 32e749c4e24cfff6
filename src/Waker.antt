-- ===== src/Waker.antt =====
-- The queue of blocked threads, src/waker.rs, over a store of contexts. The calling thread is an
-- argument; an `Arc<Inner>` is an index into the store, so that entries can share a context.
pub mod Laws
pub mod Disconnect
use zchan.Base.{
  ℕ, zero, suc, ◌+◌, Bool, true, false, ◌&&◌, ◌||◌, not, Option, some, none, List, [], ◌∷◌, ◌++◌,
  ltb, ◌==◌, if◌then◌else◌,
}
use zchan.Error.{Result, ok, err}
use zchan.Select.{Operation, Selected, waiting, disconnected, operation}
use zchan.Context.{Inner, try_select, store_packet, unpark, selected, is_waiting}

pub record Entry : Type 0 where
  pub oper : Operation
  pub packet : ℕ
  pub cx : ℕ

pub record Waker : Type 0 where
  pub selectors : List Entry

-- The store of contexts.
abbrev pub Store : Type 0
Store = ℕ → Inner

abbrev pub update : Store → ℕ → Inner → Store
update s cx i = λ (j : ℕ). if j == cx then i else s j

abbrev pub new : Waker
new = record { selectors = [] }

unfoldable pub register_with_packet : Waker → Operation → (packet cx : ℕ) → Waker
register_with_packet w oper packet cx = record {
  selectors = w.selectors ++ (record { oper = oper; packet = packet; cx = cx } ∷ []);
}

unfoldable pub register : Waker → Operation → (cx : ℕ) → Waker
unfolding register_with_packet
register w oper cx = register_with_packet w oper 0 cx

-- The loop of `unregister`: what is left, and the entry removed.
unfoldable pub unregister_from : Operation → List Entry → List Entry × Option Entry
unregister_from oper [] = ([], none)
unregister_from oper (e ∷ es) =
    let (left, found) = unregister_from oper es in
    if e.oper.address == oper.address then (es, some e) else (e ∷ left, found)

unfoldable pub unregister : Waker → Operation → Waker × Option Entry
unfolding unregister_from
unregister w oper =
    let (left, found) = unregister_from oper w.selectors in (record { selectors = left }, found)

-- What is done for the selected entry: provide the packet, wake the thread up.
unfoldable pub deliver : Entry → Inner → Inner
unfolding store_packet unpark
deliver e i = unpark (store_packet e.packet i)

-- The loop of `try_select`, called by the thread `me`.
unfoldable pub select_from : (me : ℕ) → Store → List Entry → Store × List Entry × Option Entry
unfolding try_select deliver
select_from me s [] = (s, [], none)
select_from me s (e ∷ es) =
    let (i, res) = try_select (operation e.oper) (s e.cx) in
    let (s', left, found) = select_from me s es in
    if (s e.cx).thread_id == me then (s', e ∷ left, found) else elim res [
      | ok _ ↦ (update s e.cx (deliver e i), es, some e)
      | err _ ↦ (s', e ∷ left, found)
    ]

unfoldable pub try_select_entry : (me : ℕ) → Store → Waker → Store × Waker × Option Entry
unfolding select_from
try_select_entry me s w =
    let (s', left, found) = select_from me s w.selectors in (s', record { selectors = left }, found)

-- `iter().any(...)` of `can_select`.
unfoldable pub any_selectable : (me : ℕ) → Store → List Entry → Bool
any_selectable me s [] = false
any_selectable me s (e ∷ es) =
    not ((s e.cx).thread_id == me) && is_waiting (selected (s e.cx)) || any_selectable me s es

unfoldable pub can_select : (me : ℕ) → Store → Waker → Bool
unfolding any_selectable
can_select me s w = any_selectable me s w.selectors

-- The loop of `disconnect`: the entries stay.
unfoldable pub disconnect_each : Store → List Entry → Store
unfolding try_select unpark
disconnect_each s [] = s
disconnect_each s (e ∷ es) =
    let (i, res) = try_select disconnected (s e.cx) in
    disconnect_each (elim res [ ok _ ↦ update s e.cx (unpark i) | err _ ↦ s ]) es

unfoldable pub disconnect : Store → Waker → Store
unfolding disconnect_each
disconnect s w = disconnect_each s w.selectors
