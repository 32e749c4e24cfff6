-- ===== src/Array/Spec.antt =====
-- What a bounded channel of src/array.rs promises: a queue of at most `cap` messages that can be
-- disconnected.
use zchan.Base.{ℕ, Bool, true, false, not, List, [], ◌∷◌, ◌++◌, length, ◌==◌, if◌then◌else◌}
use zchan.Error.{Result, ok, err, TrySendError, closed, no_capacity, TryRecvError}

pub record Queue (T : Type 0) : Type 0 where
  pub items : List T
  pub shut : Bool

module _ {T : Type 0} where
  abbrev pub empty : Queue T
  empty = record { items = []; shut = false }

  -- A disconnected queue takes nothing, a full one neither.
  unfoldable pub push : ℕ → Queue T → T → Queue T × Result (Unit {0}) (TrySendError T)
  push cap q x =
      if q.shut
      then (q, err (record { kind = closed; value = x }))
      else if length q.items == cap
      then (q, err (record { kind = no_capacity; value = x }))
      else (record q { items = q.items ++ (x ∷ []) }, ok tt)

  pub pop_items : List T → Bool → Queue T × Result T TryRecvError
  pop_items [] shut = (
    record { items = []; shut = shut },
    err (if shut then TryRecvError.disconnected else TryRecvError.empty),
  )
  pop_items (x ∷ xs) shut = (record { items = xs; shut = shut }, ok x)

  -- The messages that are there are received even if the queue is disconnected.
  unfoldable pub pop : Queue T → Queue T × Result T TryRecvError
  unfolding pop_items
  pop q = pop_items q.items q.shut

  unfoldable pub close : Queue T → Queue T × Bool
  close q = (record q { shut = true }, not q.shut)
