-- ===== src/Unbounded/Spec.antt =====
-- What an unbounded channel of src/list.rs promises: a queue of `Array/Spec.antt` that is never full.
use zchan.Base.{◌+◌, ◌*◌, ◌<◌, List, [], ◌∷◌, ◌++◌, length, if◌then◌else◌}
use zchan.Error.{Result, ok, err}
use zchan.Array.Spec.{Queue}
use zchan.Unbounded.Place.{turns}

-- The messages that fit before the indices wrap round to the head.
abbrev pub Room {ℓ} : {T : Type ℓ} → List T → Type 0
Room xs = length xs + 31 < 31 * turns

module _ {T : Type 0} where
  abbrev pub pushed : Queue T → T → Queue T
  pushed q x = if q.shut then q else record q { items = q.items ++ (x ∷ []) }

  -- A connected queue takes every message, a disconnected one refuses it.
  abbrev pub push {ℓ} : {E : Type ℓ} → (T → E) → Queue T → T → Queue T × Result (Unit {0}) E
  push refused q x = (pushed q x, if q.shut then err (refused x) else ok tt)
