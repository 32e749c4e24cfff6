-- ===== src/Error.antt =====
-- The error types of src/error.rs, and the futures and std result types that the channels return.
use zchan.Base.{Bool, true, false}

-- `Result<A, E>`
pub data Result {ℓ κ} (A : Type ℓ) (E : Type κ) : Type (ℓ ⊔ κ) where
  ok : A → Result A E
  err : E → Result A E

-- `Result::map_err`
abbrev pub map_err {ℓ κ ι} :
    {A : Type ℓ} {E : Type κ} {F : Type ι} → (E → F) → Result A E → Result A F
map_err f (ok a) = ok a
map_err f (err e) = err (f e)

pub data ErrorKind : Type 0 where
  closed no_capacity : ErrorKind

pub data SendError : Type 0 where
  send_error : SendError

pub record TrySendError (T : Type 0) : Type 0 where
  pub kind : ErrorKind
  pub value : T

pub data SendTimeoutError (T : Type 0) : Type 0 where
  timeout : T → SendTimeoutError T
  disconnected : T → SendTimeoutError T

pub data RecvTimeoutError : Type 0 where
  timeout disconnected : RecvTimeoutError

-- `std::sync::mpsc::TryRecvError`
pub data TryRecvError : Type 0 where
  empty disconnected : TryRecvError

-- `futures::Async`, as a `Stream` (`poll`) and a `Sink` (`start_send`) return it.
pub data Async {ℓ} (A : Type ℓ) : Type ℓ where
  ready : A → Async A
  not_ready : Async A

pub data AsyncSink (T : Type 0) : Type 0 where
  ready : AsyncSink T
  not_ready : T → AsyncSink T

abbrev pub kind_is_closed : ErrorKind → Bool
kind_is_closed closed = true
kind_is_closed no_capacity = false

abbrev pub kind_is_full : ErrorKind → Bool
kind_is_full closed = false
kind_is_full no_capacity = true

module _ {T : Type 0} where
  abbrev pub into_inner : TrySendError T → T
  into_inner e = e.value

  abbrev pub is_closed : TrySendError T → Bool
  is_closed e = kind_is_closed e.kind

  abbrev pub is_full : TrySendError T → Bool
  is_full e = kind_is_full e.kind
