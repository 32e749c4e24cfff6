-- ===== src/Context.antt =====
-- The context of a blocked thread, src/context.rs: the cell in which one operation is selected. A
-- context is an `Arc` of its inner state, here an index into a store.
pub mod Laws
pub mod Cache
use zchan.Base.{
  ℕ, zero, suc, ◌+◌, Bool, true, false, not, Option, some, none, List, [], ◌∷◌, ltb, ◌==◌,
  if◌then◌else◌,
}
use zchan.Error.{Result, ok, err}
use zchan.Select.{Selected, waiting, aborted, from, into}

-- `unparked` counts the calls of `Thread::unpark` on the context's thread.
pub record Inner : Type 0 where
  pub select : ℕ
  pub packet : ℕ
  pub thread_id : ℕ
  pub unparked : ℕ

-- `Context::new`, called by the given thread.
abbrev pub new : ℕ → Inner
new thread_id = record { select = into waiting; packet = 0; thread_id = thread_id; unparked = 0 }

unfoldable pub reset : Inner → Inner
reset i = record i { select = into waiting; packet = 0 }

-- The compare-exchange of `select` from `Waiting`.
unfoldable pub try_select : Selected → Inner → Inner × Result (Unit {0}) Selected
try_select select i =
    if i.select == into waiting
    then (record i { select = into select }, ok tt)
    else (i, err (from i.select))

abbrev pub selected : Inner → Selected
selected i = from i.select

unfoldable pub store_packet : ℕ → Inner → Inner
store_packet packet i = if packet == 0 then i else record i { packet = packet }

-- One round of `wait_packet`; `none` is another round.
unfoldable pub wait_packet_round : Inner → Option ℕ
wait_packet_round i = if i.packet == 0 then none else some i.packet

abbrev pub is_waiting : Selected → Bool
is_waiting waiting = true
is_waiting s = false

-- One round of `wait`.
unfoldable pub wait_round : Inner → Option Selected
wait_round i = if is_waiting (selected i) then none else some (selected i)

unfoldable pub unpark : Inner → Inner
unpark i = record i { unparked = i.unparked + 1 }

-- What happens in a round of `wait_until`: another thread selects or not before the load of `select`,
-- the time that is read, and another thread selects or not between the load and the attempt to abort.
pub record Moment : Type 0 where
  pub chosen : Option Selected
  pub now : ℕ
  pub racing : Option Selected

abbrev pub interfere : Option Selected → Inner → Inner
unfolding try_select
interfere o i = elim o [ none ↦ i | some s ↦ (try_select s i).0 ]

-- The attempt to abort once the deadline has been reached.
unfoldable pub abort : Inner → Inner × Selected
unfolding try_select
abort i =
    let (i', res) = try_select aborted i in elim res [ ok _ ↦ (i', aborted) | err s ↦ (i', s) ]

-- A round of the second loop of `wait_until`; `park` is the rest of the loop.
unfoldable pub park_round :
    Option ℕ → Moment → (Inner → Option (Inner × Selected)) → Inner → Option (Inner × Selected)
unfolding interfere abort
park_round deadline m park i =
    if is_waiting (selected i)
    then elim deadline [
      | none ↦ park i
      | some end ↦ if ltb m.now end then park i else some (abort (interfere m.racing i))
    ]
    else some (i, selected i)

-- The second loop of `wait_until`, as long as there are moments.
unfoldable pub park_loop : Option ℕ → List Moment → Inner → Option (Inner × Selected)
unfolding interfere park_round
park_loop deadline [] i = none
park_loop deadline (m ∷ ms) i = park_round deadline m (park_loop deadline ms) (interfere m.chosen i)

-- The first loop, of `left` rounds, and then the second.
unfoldable pub spin_loop : (left : ℕ) → Option ℕ → List Moment → Inner → Option (Inner × Selected)
unfolding interfere park_loop
spin_loop zero deadline ms i = park_loop deadline ms i
spin_loop (suc left) deadline [] i = none
spin_loop (suc left) deadline (m ∷ ms) i =
    let i' = interfere m.chosen i in
    let rest = spin_loop left deadline ms i' in
    if is_waiting (selected i') then rest else some (i', selected i')

unfoldable pub wait_until : Option ℕ → List Moment → Inner → Option (Inner × Selected)
unfolding spin_loop
wait_until deadline ms i = spin_loop 10 deadline ms i
