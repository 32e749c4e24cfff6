-- ===== src/Select.antt =====
-- Operations and the state of a selection as one word, src/select.rs.
use zchan.Base.{
  ℕ, zero, suc, ◌<◌, ◌≡◌, ◌≢◌, refl, ◌∙◌, sym, Option, some, none, ltb, if◌then◌else◌, arith,
  dec_lt, lt→ltb, le→ltb,
}

-- `Operation`, the address of the variable that stands for it.
pub record Operation : Type 0 where
  pub address : ℕ

-- `Operation::hook` of a variable at the address; `none` is the failed assertion.
unfoldable pub hook : ℕ → Option Operation
hook val = if ltb 2 val then some (record { address = val }) else none

pub data Selected : Type 0 where
  waiting aborted disconnected : Selected
  operation : Operation → Selected

-- `From<usize>`
abbrev pub from : ℕ → Selected
from zero = waiting
from (suc zero) = aborted
from (suc (suc zero)) = disconnected
from (suc (suc (suc n))) = operation (record { address = suc (suc (suc n)) })

-- `Into<usize>`
abbrev pub into : Selected → ℕ
into waiting = 0
into aborted = 1
into disconnected = 2
into (operation oper) = oper.address

pub into-from : (n : ℕ) → into (from n) ≡ n
into-from zero = refl
into-from (suc zero) = refl
into-from (suc (suc zero)) = refl
into-from (suc (suc (suc n))) = refl

from-big : (n : ℕ) → 2 < n → from n ≡ operation (record { address = n })
from-big zero h = absurd (omega arith)
from-big (suc zero) h = absurd (omega arith)
from-big (suc (suc zero)) h = absurd (omega arith)
from-big (suc (suc (suc n))) h = refl

hook-some : (val : ℕ) (oper : Operation) → hook val ≡ some oper → (2 < val) × (oper.address ≡ val)
unfolding hook
hook-some val oper e = elim (dec_lt 2 val) [
  | yes h ↦
      let found : some (record { address = val }) ≡ some oper =
        sym (rw (lt→ltb 2 val h) refl) ∙ e in
      (h, cc)
  | no small ↦
      let lost : none ≡ some oper = sym (rw (le→ltb 2 val (omega arith)) refl) ∙ e in absurd cc
]

-- An operation that `hook` accepts keeps apart from the other states of a selection: its word is
-- that of no other state, and reading the word gives the operation back.
pub from-into-hook :
    (val : ℕ) (oper : Operation)
    → hook val ≡ some oper
    → (from (into (operation oper)) ≡ operation oper)
      × (into (operation oper) ≢ into waiting)
      × (into (operation oper) ≢ into aborted)
      × (into (operation oper) ≢ into disconnected)
from-into-hook val oper e =
    let (big, is) = hook-some val oper e in
    (from-big oper.address (omega arith), omega arith, omega arith, omega arith)
