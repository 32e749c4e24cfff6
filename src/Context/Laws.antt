-- ===== src/Context/Laws.antt =====
-- What `try_select` and `wait_until` of src/context.rs promise: one selection, the first, and every
-- thread reads the same.
use zchan.Base.{
  ℕ_discrete, dec_lt, lt→ltb, ℕ, zero, suc, ◌⊎◌, ◌≤◌, ◌<◌, ◌≡◌, ◌≢◌, refl, ap, true, false,
  Bool-cases, Option, some, inl, inr, List, [], ◌∷◌, ◌++◌, length, eq→==, ne→==, le→ltb,
  if◌then◌else◌, arith,
}
use zchan.Error.{Result, ok, err}
use zchan.Select.{Selected, waiting, aborted, from, into}
use zchan.Context.{
  Inner, try_select, selected, is_waiting, Moment, interfere, abort, park_round, park_loop,
  spin_loop, wait_until,
}

pub try_select-free :
    (s : Selected) (i : Inner)
    → i.select ≡ 0
    → try_select s i ≡ (record i { select = into s }, ok tt)
unfolding try_select
try_select-free s i e = rw (eq→== i.select 0 e)

pub try_select-taken :
    (s : Selected) (i : Inner) → i.select ≢ 0 → try_select s i ≡ (i, err (from i.select))
unfolding try_select
try_select-taken s i ne = rw (ne→== i.select 0 ne)

pub is_waiting-zero : (n : ℕ) → is_waiting (from n) ≡ true → n ≡ 0
is_waiting-zero zero e = refl
is_waiting-zero (suc zero) e = cc
is_waiting-zero (suc (suc zero)) e = cc
is_waiting-zero (suc (suc (suc n))) e = cc

not_waiting : (s : Selected) → is_waiting s ≡ false → s ≢ waiting
not_waiting s e w = let w' : is_waiting s ≡ true = ap is_waiting w in cc

-- The selections that several threads try, one after another.
pub try_all : List Selected → Inner → Inner
try_all [] i = i
try_all (s ∷ ss) i = try_all ss (try_select s i).0

try_all-taken : (ss : List Selected) (i : Inner) → i.select ≢ 0 → try_all ss i ≡ i
unfolding try_all
try_all-taken [] i ne = refl
try_all-taken (s ∷ ss) i ne = rw (try_select-taken s i ne) (try_all-taken ss i ne)

-- Of any selections that are tried on a waiting context, one after another, the first wins: it is
-- the one that the context shows in the end, and each later one fails and is told the winner.
pub try_all_lem :
    (s : Selected) (ss : List Selected) (later : Selected) (i : Inner)
    → i.select ≡ 0
    → 0 < into s
    → ((try_all (s ∷ ss) i).select ≡ into s)
      × ((try_select later (try_all (s ∷ ss) i)).1 ≡ err (from (into s)))
unfolding try_all
try_all_lem s ss later i e named =
    let taken : Inner = record i { select = into s } in
    let ne : taken.select ≢ 0 = omega (arith, named) in
    rw (try_all, try_select-free s i e, try_all-taken ss taken ne, try_select-taken later taken ne)
      (refl, refl)

-- A result of a wait: returned, and what the context then shows.
abbrev Waited : Option (Inner × Selected) → Type 0
Waited r =
    (i' : Inner) × (sel : Selected) × (r ≡ some (i', sel)) × (sel ≡ selected i') × (sel ≢ waiting)

found : (i : Inner) → is_waiting (selected i) ≡ false → Waited (some (i, selected i))
found i e = (i, selected i, refl, refl, not_waiting (selected i) e)

abort-try_select :
    (i j : Inner) (res : Result (Unit {0}) Selected)
    → try_select aborted i ≡ (j, res)
    → abort i ≡ elim res [ ok _ ↦ (j, aborted) | err s ↦ (j, s) ]
unfolding abort
abort-try_select i j res e =
    ap
      (λ (p : Inner × Result (Unit {0}) Selected). elim p.1 as (λ _. Inner × Selected) [
        | ok _ ↦ (p.0, aborted)
        | err s ↦ (p.0, s)
      ])
      e

abort-Waited : (i : Inner) → Waited (some (abort i))
abort-Waited i = elim (ℕ_discrete i.select 0) [
  | yes free ↦ (
    record i { select = 1 },
    aborted,
    ap some (abort-try_select i (record i { select = 1 }) (ok tt) (try_select-free aborted i free)),
    refl,
    not_waiting aborted refl,
  )
  | no taken ↦ (
    i,
    from i.select,
    ap some (abort-try_select i i (err (from i.select)) (try_select-taken aborted i taken)),
    refl,
    λ w. taken (is_waiting-zero i.select (ap is_waiting w)),
  )
]

-- A round of the second loop returns, or it is followed by one that does.
park_round-Waited :
    (end : ℕ) (m : Moment) (park : Inner → Option (Inner × Selected)) (i : Inner)
    → (end ≤ m.now) ⊎ ((j : Inner) → Waited (park j))
    → Waited (park_round (some end) m park i)
unfolding park_round
park_round-Waited end m park i late = elim (Bool-cases (is_waiting (selected i))) [
  | inr o ↦ rw o (found i o)
  | inl w ↦ elim (dec_lt m.now end) [
    | no past ↦ rw (w, le→ltb m.now end (omega arith)) (abort-Waited (interfere m.racing i))
    | yes before ↦ rw (w, lt→ltb m.now end before) (by_rest before late)
  ]
]
  where
    by_rest : m.now < end → (end ≤ m.now) ⊎ ((j : Inner) → Waited (park j)) → Waited (park i)
    by_rest before (inl past) = absurd (omega arith)
    by_rest before (inr rest) = rest i

park_loop-Waited :
    (end : ℕ) (early : List Moment) (m : Moment) (ms : List Moment) (i : Inner)
    → end ≤ m.now
    → Waited (park_loop (some end) (early ++ (m ∷ ms)) i)
unfolding park_loop
park_loop-Waited end [] m ms i late =
    park_round-Waited end m (park_loop (some end) ms) (interfere m.chosen i) (inl late)
park_loop-Waited end (x ∷ early) m ms i late =
    park_round-Waited end x (park_loop (some end) (early ++ (m ∷ ms))) (interfere x.chosen i)
      (inr (λ j. park_loop-Waited end early m ms j late))

spin_loop-Waited :
    (left end : ℕ) (early : List Moment) (m : Moment) (ms : List Moment) (i : Inner)
    → left ≤ length early
    → end ≤ m.now
    → Waited (spin_loop left (some end) (early ++ (m ∷ ms)) i)
unfolding spin_loop
spin_loop-Waited zero end early m ms i e late = park_loop-Waited end early m ms i late
spin_loop-Waited (suc left) end [] m ms i e late = absurd (omega arith)
spin_loop-Waited (suc left) end (x ∷ early) m ms i e late =
    by_state (interfere x.chosen i) (Bool-cases _)
      (spin_loop-Waited left end early m ms (interfere x.chosen i) (omega arith) late)
  where
    by_state :
        (j : Inner)
        → (is_waiting (selected j) ≡ true) ⊎ (is_waiting (selected j) ≡ false)
        → Waited (spin_loop left (some end) (early ++ (m ∷ ms)) j)
        → Waited (
            if is_waiting (selected j)
            then spin_loop left (some end) (early ++ (m ∷ ms)) j
            else some (j, selected j))
    by_state j (inl w) later = rw w later
    by_state j (inr o) later = rw o (found j o)

-- With a deadline, `wait_until` returns at the latest in the first round after its ten spins that
-- reads a time not before the deadline, whatever other threads select in the meantime, also between
-- the last look and the attempt to abort; and it returns what the context then shows, which is not
-- `Waiting`.
pub wait_until_lem :
    (end : ℕ) (early : List Moment) (m : Moment) (ms : List Moment) (i : Inner)
    → 10 ≤ length early
    → end ≤ m.now
    → (i' : Inner) × (sel : Selected) × (wait_until (some end) (early ++ (m ∷ ms)) i
        ≡ some (i', sel))
      × (sel ≡ selected i')
      × (sel ≢ waiting)
unfolding wait_until
wait_until_lem end early m ms i e late = spin_loop-Waited 10 end early m ms i e late
